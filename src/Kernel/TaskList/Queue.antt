-- ===== src/Kernel/TaskList/Queue.antt =====
-- src/kernel/scheduler.hpp: a `TaskList` as a queue with a place in it.
use mathlib.Core.Path.{subst}
use mathlib.Core.List.{append-nil, append_assoc}
use umbra_os.Prelude.{
  ℕ, ◌≡◌, ◌≢◌, refl, sym, ◌∙◌, ap, false, List, [], ◌∷◌, ◌++◌, ◌==◌, if◌then◌else◌, Outcome, done,
  ◌>>=◌, ==_of_ne, ==_iff,
}
use umbra_os.Kernel.TaskList.{Node, TaskList, remove_current, add_task, next_task, go_next, task_at}
use umbra_os.Kernel.TaskList.Doubly.{Doubly, Linked, Misses, Distinct, split}
use umbra_os.Kernel.TaskList.Removal.{first_of, first_of-append, remove_current_lem}

-- The nodes before the current one, and the current one with those behind it.
pub record Place : Type 0 where
  pub before : List (ℕ × ℕ)
  pub rest : List (ℕ × ℕ)

-- A place behind all nodes is that of the first.
abbrev pub wrapped : List (ℕ × ℕ) → List (ℕ × ℕ) → Place
wrapped xs [] = record { before = []; rest = xs }
wrapped xs (y ∷ ys) = record { before = xs; rest = y ∷ ys }

abbrev pub whole : Place → List (ℕ × ℕ)
whole z = z.before ++ z.rest

pub data Op : Type 0 where
  add : ℕ → ℕ → Op
  remove : Op
  next : Op

abbrev remove_at : Place → List (ℕ × ℕ) → Place
remove_at z [] = z
remove_at z (y ∷ ys) = wrapped z.before ys

abbrev next_at : Place → List (ℕ × ℕ) → Place
next_at z [] = z
next_at z (y ∷ ys) = wrapped (z.before ++ y ∷ []) ys

-- A new task stands before all others.
abbrev pub step : Op → Place → Place
step (add node task) z = wrapped ((node, task) ∷ z.before) z.rest
step remove z = remove_at z z.rest
step next z = next_at z z.rest

-- The task that an operation answers with: 0 but for `next`.
abbrev pub task_of : List (ℕ × ℕ) → ℕ
task_of [] = 0
task_of ((a, t) ∷ cells) = t

abbrev pub answer : Op → Place → ℕ
answer (add node task) z = 0
answer remove z = 0
answer next z = task_of (step next z).rest

-- A node's address is new when it is made, and only a queue with tasks is asked for the next one.
abbrev pub Allowed : Op → Place → Type 0
Allowed (add node task) z = (node ≢ 0) × Misses node (whole z)
Allowed remove z = Unit {0}
Allowed next z = z.rest ≢ []

unfoldable pub apply : Op → TaskList → Outcome (ℕ × TaskList)
apply (add node task) l = done (0, add_task node task l)
apply remove l = remove_current l >>= λ r. done (0, r)
apply next l = next_task l

-- The list has the nodes of the queue, and its current node is the queue's.
pub record Represents (l : TaskList) (z : Place) : Type 0 where
  pub linked : Linked l.nodes l.front (whole z)
  pub distinct : Distinct (whole z)
  pub current : l.current ≡ first_of z.rest
  pub settled : z.rest ≡ [] → z.before ≡ []

abbrev pub Stepped : Op → TaskList → Place → Type 0
Stepped op l z = (r : TaskList) × (apply op l ≡ done (answer op z, r)) × Represents r (step op z)

-- Moving the place to the front keeps the nodes.
whole-wrapped : (xs ys : List (ℕ × ℕ)) → whole (wrapped xs ys) ≡ xs ++ ys
whole-wrapped xs [] = sym (append-nil xs)
whole-wrapped xs (y ∷ ys) = refl

first_of-wrapped : (xs ys : List (ℕ × ℕ)) → first_of (wrapped xs ys).rest ≡ first_of (ys ++ xs)
first_of-wrapped xs [] = refl
first_of-wrapped xs (y ∷ ys) = refl

settled_wrapped : (xs ys : List (ℕ × ℕ)) → (wrapped xs ys).rest ≡ [] → (wrapped xs ys).before ≡ []
settled_wrapped xs [] e = refl
settled_wrapped xs (y ∷ ys) e = cc

-- A place in a list, given its nodes and its current one.
pub placed :
    (l : TaskList) (xs ys : List (ℕ × ℕ))
    → Linked l.nodes l.front (xs ++ ys)
    → Distinct (xs ++ ys)
    → l.current ≡ first_of (ys ++ xs)
    → Represents l (wrapped xs ys)
placed l xs ys d k e = record {
  linked = subst (Linked l.nodes l.front) (sym (whole-wrapped xs ys)) d;
  distinct = subst Distinct (sym (whole-wrapped xs ys)) k;
  current = e ∙ sym (first_of-wrapped xs ys);
  settled = settled_wrapped xs ys;
}

Misses-without :
    (p a t : ℕ) (xs ys : List (ℕ × ℕ)) → Misses p (xs ++ (a, t) ∷ ys) → Misses p (xs ++ ys)
Misses-without p a t [] ys m = m.1
Misses-without p a t (x ∷ xs) ys m = (m.0, Misses-without p a t xs ys m.1)

Distinct-without :
    (a t : ℕ) (xs ys : List (ℕ × ℕ)) → Distinct (xs ++ (a, t) ∷ ys) → Distinct (xs ++ ys)
Distinct-without a t [] ys k = k.1
Distinct-without a t ((c, u) ∷ xs) ys k =
    (Misses-without c a t xs ys k.0, Distinct-without a t xs ys k.1)

pub Linked-first :
    (nodes : ℕ → Node) (p : ℕ) (cells : List (ℕ × ℕ)) → Linked nodes p cells → p ≡ first_of cells
Linked-first nodes p [] d = d.0
Linked-first nodes p ((a, t) ∷ cells) d = d.0

-- What stands behind a node of the chain, and its task.
Linked-split :
    (nodes : ℕ → Node) (p a t : ℕ) (xs ys : List (ℕ × ℕ))
    → Linked nodes p (xs ++ (a, t) ∷ ys)
    → (a ≢ 0) × ((nodes a).task ≡ t) × Doubly nodes a (nodes a).next ys
Linked-split nodes p a t [] ys d = (d.1, d.2, d.3)
Linked-split nodes p a t ((c, u) ∷ xs) ys d =
    let around = split nodes c (nodes c).next a t xs ys d.3 in (around.1, around.3, around.2)

module _ (l : TaskList) (z : Place) (v : Represents l z) (a t : ℕ) (ys : List (ℕ × ℕ))
    (e : z.rest ≡ (a, t) ∷ ys) where
  linked_at : Linked l.nodes l.front (z.before ++ (a, t) ∷ ys)
  linked_at = subst (λ r. Linked l.nodes l.front (z.before ++ r)) e v.linked

  Distinct-at : Distinct (z.before ++ (a, t) ∷ ys)
  Distinct-at = subst (λ r. Distinct (z.before ++ r)) e v.distinct

  current_at : l.current ≡ a
  current_at = v.current ∙ ap first_of e

  current_set : (l.current == 0) ≡ false
  current_set =
      ==_of_ne l.current 0
        (λ q. (Linked-split l.nodes l.front a t z.before ys linked_at).0 (sym current_at ∙ q))

  task_there : task_at l ≡ t
  task_there = rw current_set (
      ap (λ c. (l.nodes c).task) current_at
      ∙ (Linked-split l.nodes l.front a t z.before ys linked_at).1)

task_at-eq :
    (l : TaskList) (z : Place) (rest : List (ℕ × ℕ))
    → z.rest ≡ rest
    → Represents l z
    → task_at l ≡ task_of rest
task_at-eq l z [] e v = rw ((==_iff l.current 0).1 (v.current ∙ ap first_of e)) refl
task_at-eq l z ((a, t) ∷ ys) e v = task_there l z v a t ys e

pub remove-Stepped :
    (l : TaskList) (z : Place) (rest : List (ℕ × ℕ))
    → z.rest ≡ rest
    → Represents l z
    → Stepped remove l z
unfolding apply remove_current
remove-Stepped l z [] e v =
    let idle = (==_iff l.current 0).1 (v.current ∙ ap first_of e) in
    (l, rw (idle) refl, subst (λ y. Represents l (remove_at z y)) (sym e) v)
remove-Stepped l z ((a, t) ∷ ys) e v =
    let k = Distinct-at l z v a t ys e in
    let (r, q, (linked, current)) =
      remove_current_lem l a t z.before ys (linked_at l z v a t ys e) k
        (current_at l z v a t ys e) in
    (
      r,
      rw q refl,
      subst (λ y. Represents r (remove_at z y)) (sym e)
          (placed r z.before ys linked (Distinct-without a t z.before ys k) current),
    )

first_of-before :
    (xs ys : List (ℕ × ℕ)) (y : ℕ × ℕ) → first_of (xs ++ y ∷ ys) ≡ first_of (xs ++ y ∷ [])
first_of-before [] ys y = refl
first_of-before (x ∷ xs) ys y = refl

pub next-Stepped :
    (l : TaskList) (z : Place) (rest : List (ℕ × ℕ))
    → z.rest ≡ rest
    → rest ≢ []
    → Represents l z
    → Stepped next l z
unfolding apply next_task
next-Stepped l z [] e some v = absurd (some refl)
next-Stepped l z ((a, t) ∷ ys) e some v = (
  go_next l,
  rw (current_set l z v a t ys e) (
      ap (λ n. done (n, go_next l))
        (task_at-eq (go_next l) target target.rest refl moved
          ∙ sym (ap (λ r. task_of (next_at z r).rest) e))),
  subst (λ y. Represents (go_next l) (next_at z y)) (sym e) moved,
)
  where
    target : Place
    target = wrapped (z.before ++ (a, t) ∷ []) ys

    moved : Represents (go_next l) target
    moved =
        let d = linked_at l z v a t ys e in
        let front =
          Linked-first l.nodes l.front (z.before ++ (a, t) ∷ ys) d
          ∙ first_of-before z.before ys (a, t) in
        let same = sym (append_assoc z.before ((a, t) ∷ []) ys) in
        placed (go_next l) (z.before ++ (a, t) ∷ []) ys (subst (Linked l.nodes l.front) same d)
          (subst Distinct same (Distinct-at l z v a t ys e))
          (ap (λ c. let next = (l.nodes c).next in if next == 0 then l.front else next)
              (current_at l z v a t ys e)
            ∙ first_of-append l.nodes a (l.nodes a).next l.front ys (z.before ++ (a, t) ∷ [])
                (Linked-split l.nodes l.front a t z.before ys d).2 front)
