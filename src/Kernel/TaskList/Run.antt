-- ===== src/Kernel/TaskList/Run.antt =====
-- src/kernel/scheduler.hpp: `add_task`, and sequences of operations on a `TaskList`.
use mathlib.Core.Path.{subst}
use umbra_os.Prelude.{
  ℕ, ◌≡◌, ◌≢◌, refl, sym, ◌∙◌, ap, Bool, false, List, [], ◌∷◌, ◌++◌, ◌==◌, if◌then◌else◌, Outcome,
  done, ◌>>=◌, Bool-cases, inl, inr, ==_of_ne, ==_iff, ==_refl, ==→ne,
}
use umbra_os.Prelude.Maps.{update, update_self, update_ne}
use umbra_os.Kernel.TaskList.{Node, TaskList, set_prev, set_next, add_task}
use umbra_os.Kernel.TaskList.Doubly.{Doubly, Linked, Misses, Distinct, set_next_at, set_prev_at}
use umbra_os.Kernel.TaskList.Removal.{first_of}
use umbra_os.Kernel.TaskList.Queue.{
  Place, whole, Op, add, remove, next, step, answer, Allowed, apply, Represents, Stepped, placed,
  Linked-first, remove-Stepped, next-Stepped,
}

abbrev Agree : (ℕ → Node) → (ℕ → Node) → List (ℕ × ℕ) → Type 0
Agree f g [] = Unit {0}
Agree f g ((a, t) ∷ cells) =
    ((g a).task ≡ (f a).task)
    × ((g a).prev ≡ (f a).prev)
    × ((g a).next ≡ (f a).next)
    × Agree f g cells

Doubly-ext :
    (f g : ℕ → Node) (q p : ℕ) (cells : List (ℕ × ℕ))
    → Agree f g cells
    → Doubly f q p cells
    → Doubly g q p cells
Doubly-ext f g q p [] s d = d
Doubly-ext f g q p ((a, t) ∷ cells) s d =
    (d.0, d.1, s.0 ∙ d.2, s.1 ∙ d.3, rw s.2 (Doubly-ext f g a (f a).next cells s.3 d.4))

module _ (l : TaskList) (node task : ℕ) where
  abbrev made : ℕ → Node
  made = update l.nodes node (record { task = task; prev = 0; next = 0 })

  abbrev joined : ℕ → Node
  joined = set_prev (set_next made node l.front) l.front node

  joined_at :
      (c : ℕ)
      → c ≢ node
      → ((joined c).task ≡ (l.nodes c).task)
        × ((joined c).next ≡ (l.nodes c).next)
        × ((joined c).prev ≡ (if l.front == c then node else (l.nodes c).prev))
  joined_at c off =
      let p = set_prev_at (set_next made node l.front) l.front node c in
      let n = set_next_at made node l.front c in
      let m : made c ≡ l.nodes c = update_ne l.nodes node c _ (λ e. off (sym e)) in
      let past : (node == c) ≡ false = ==_of_ne node c (λ e. off (sym e)) in
      (
        p.0 ∙ n.0 ∙ ap (λ (x : Node). x.task) m,
        p.1
            ∙ n.2
            ∙ ap (λ (b : Bool). if b then l.front else (made c).next) past
            ∙ ap (λ (x : Node). x.next) m,
        p.2 ∙ ap (λ (x : ℕ). if l.front == c then node else x) (n.1 ∙ ap (λ (x : Node). x.prev) m),
      )

  joined_new : ((joined node).task ≡ task) × ((joined node).next ≡ l.front)
  joined_new =
      let p = set_prev_at (set_next made node l.front) l.front node node in
      let n = set_next_at made node l.front node in
      let m = update_self l.nodes node (record { task = task; prev = 0; next = 0 }) in
      (p.0 ∙ n.0 ∙ ap (λ (x : Node). x.task) m, p.1 ∙ n.2 ∙ rw (==_refl node) refl)

  joined-Agree :
      (cells : List (ℕ × ℕ)) → Misses node cells → Misses l.front cells → Agree l.nodes joined cells
  joined-Agree [] m k = tt
  joined-Agree ((a, t) ∷ cells) m k =
      let at = joined_at a m.0 in
      (
        at.0,
        at.2 ∙ rw (==_of_ne l.front a (λ e. k.0 (sym e))) refl,
        at.1,
        joined-Agree cells m.1 k.1,
      )

  -- The new node before a chain.
  joined-Linked :
      (cells : List (ℕ × ℕ))
      → node ≢ 0
      → Misses node cells
      → Distinct cells
      → l.front ≢ 0
      → Linked l.nodes l.front cells
      → Linked joined node ((node, task) ∷ cells)
  joined-Linked [] n m k some d = absurd (some d.0)
  joined-Linked ((c, u) ∷ cells) n m k some d =
      let at = joined_at c m.0 in
      (
        refl,
        n,
        joined_new.0,
        (
          joined_new.1 ∙ d.0,
          d.1,
          at.0 ∙ d.2,
          at.2 ∙ rw ((==_iff l.front c).1 d.0) refl,
          rw at.1 (
              Doubly-ext l.nodes joined c (l.nodes c).next cells
                (joined-Agree cells m.1 (subst (λ j. Misses j cells) (sym d.0) k.0)) d.3),
        ),
      )

append-eq_nil : (xs ys : List (ℕ × ℕ)) → (xs ++ ys) ≡ [] → ys ≡ []
append-eq_nil [] ys e = e
append-eq_nil (x ∷ xs) ys e = cc

first_of-some : (ys xs : List (ℕ × ℕ)) → ys ≢ [] → first_of ys ≡ first_of (ys ++ xs)
first_of-some [] xs n = absurd (n refl)
first_of-some (y ∷ ys) xs n = refl

first_of-none : (ys xs : List (ℕ × ℕ)) (a t : ℕ) → ys ≡ [] → a ≡ first_of (ys ++ (a, t) ∷ xs)
first_of-none [] xs a t e = refl
first_of-none (y ∷ ys) xs a t e = cc

nils : (xs ys : List (ℕ × ℕ)) → xs ≡ [] → ys ≡ [] → (xs ++ ys) ≡ []
nils xs ys e f = rw (e, f) refl

Linked-set :
    (nodes : ℕ → Node) (p : ℕ) (cells : List (ℕ × ℕ)) → Linked nodes p cells → p ≡ 0 → cells ≡ []
Linked-set nodes p [] d e = refl
Linked-set nodes p ((a, t) ∷ cells) d e = absurd (d.1 (sym d.0 ∙ e))

add-Stepped :
    (l : TaskList) (z : Place) (node task : ℕ)
    → node ≢ 0
    → Misses node (whole z)
    → Represents l z
    → Stepped (add node task) l z
unfolding apply add_task
add-Stepped l z node task n m v = elim (Bool-cases (l.front == 0)) [
  | inl e ↦
      let none = Linked-set l.nodes l.front (whole z) v.linked ((==_iff l.front 0).0 e) in
      let alone : Linked (made l node task) node ((node, task) ∷ whole z) =
        subst (λ cells. Linked (made l node task) node ((node, task) ∷ cells)) (sym none)
          (
            refl,
            n,
            ap (λ (x : Node). x.task) (update_self l.nodes node _),
            (ap (λ (x : Node). x.next) (update_self l.nodes node _), tt),
          ) in
      let r : TaskList = record { nodes = made l node task; front = node; current = node } in
      (
        r,
        rw e refl,
        placed r ((node, task) ∷ z.before) z.rest alone (m, v.distinct)
            (first_of-none z.rest z.before node task (append-eq_nil z.before z.rest none)),
      )
  | inr e ↦
      let some = ==→ne l.front 0 e in
      let r : TaskList = record { nodes = joined l node task; front = node; current = l.current } in
      let full : z.rest ≢ [] = λ q. some (
        Linked-first l.nodes l.front (whole z) v.linked
        ∙ ap first_of (nils z.before z.rest (v.settled q) q)) in
      (
        r,
        rw e refl,
        placed r ((node, task) ∷ z.before) z.rest
            (joined-Linked l node task (whole z) n m v.distinct some v.linked) (m, v.distinct)
            (v.current ∙ first_of-some z.rest ((node, task) ∷ z.before) full),
      )
]

step-Stepped : (op : Op) (l : TaskList) (z : Place) → Allowed op z → Represents l z → Stepped op l z
step-Stepped (add node task) l z a v = add-Stepped l z node task a.0 a.1 v
step-Stepped remove l z a v = remove-Stepped l z z.rest refl v
step-Stepped next l z a v = next-Stepped l z z.rest refl a v

-- The answers of some operations, and the list after them; on the queue, the answers and the place.
unfoldable pub run : List Op → TaskList → Outcome (List ℕ × TaskList)
run [] l = done ([], l)
run (op ∷ ops) l = apply op l >>= λ r. run ops r.1 >>= λ rest. done (r.0 ∷ rest.0, rest.1)

abbrev pub answers : List Op → Place → List ℕ
answers [] z = []
answers (op ∷ ops) z = answer op z ∷ answers ops (step op z)

abbrev pub steps : List Op → Place → Place
steps [] z = z
steps (op ∷ ops) z = steps ops (step op z)

abbrev pub AllAllowed : List Op → Place → Type 0
AllAllowed [] z = Unit {0}
AllAllowed (op ∷ ops) z = Allowed op z × AllAllowed ops (step op z)

-- A run queue that holds the tasks of a list with a place in it answers every sequence of
-- `add_task`, `remove_current` and `next_task` as the list does, without a fault, and holds the
-- list's tasks after it, provided that each new node has an address that is not null and not in the
-- list, and that the list is not empty when the next task is asked for.
pub queue_refines :
    (ops : List Op) (l : TaskList) (z : Place)
    → AllAllowed ops z
    → Represents l z
    → (r : TaskList) × (run ops l ≡ done (answers ops z, r)) × Represents r (steps ops z)
unfolding run
queue_refines [] l z a v = (l, refl, v)
queue_refines (op ∷ ops) l z a v =
    let (r, e, v') = step-Stepped op l z a.0 v in
    let (last, e', v'') = queue_refines ops r (step op z) a.1 v' in (last, rw (e, e') refl, v'')
