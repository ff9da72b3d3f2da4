-- ===== src/Kernel/TaskList/Removal.antt =====
-- src/kernel/scheduler.hpp: `add_task` and `remove_current` on a queue as a list of tasks.

use umbra_os.Prelude.{
  ℕ, ◌≡◌, ◌≢◌, refl, sym, ◌∙◌, ap, List, [], ◌∷◌, ◌++◌, ◌==◌, if◌then◌else◌, done, ==_of_ne,
  ==_refl,
}
use umbra_os.Kernel.TaskList.{Node, TaskList, detach, move_on, remove_current}
use umbra_os.Kernel.TaskList.Doubly.{
  Doubly, Linked, Misses, Distinct, last_of, Linked-Doubly, Misses-append, split, last_of-ne,
  relinked, relinked_at, next_kept, relink,
}

-- The address of the first node, or null.
abbrev pub first_of : List (ℕ × ℕ) → ℕ
first_of [] = 0
first_of ((a, t) ∷ cells) = a

last_of-set :
    (nodes : ℕ → Node) (q p a t : ℕ) (xs ys : List (ℕ × ℕ))
    → q ≢ 0
    → Doubly nodes q p (xs ++ (a, t) ∷ ys)
    → last_of q xs ≢ 0
last_of-set nodes q p a t [] ys n d = n
last_of-set nodes q p a t ((c, u) ∷ xs) ys n d =
    last_of-set nodes c (nodes c).next a t xs ys d.1 d.4

Doubly-first :
    (nodes : ℕ → Node) (q p : ℕ) (ys : List (ℕ × ℕ)) → Doubly nodes q p ys → p ≡ first_of ys
Doubly-first nodes q p [] d = d.0
Doubly-first nodes q p ((a, t) ∷ ys) d = d.0

-- Where the walk goes on: behind the node that left, or at the front.
pub first_of-append :
    (nodes : ℕ → Node) (q p front : ℕ) (ys xs : List (ℕ × ℕ))
    → Doubly nodes q p ys
    → front ≡ first_of xs
    → (if p == 0 then front else p) ≡ first_of (ys ++ xs)
first_of-append nodes q p front [] xs d e = rw d.0 e
first_of-append nodes q p front ((a, t) ∷ ys) xs d e = rw (d.0, ==_of_ne a 0 d.1) refl

module _ (l : TaskList) (a t : ℕ) (here : l.current ≡ a) (set : a ≢ 0) where
  abbrev next : ℕ
  next = (l.nodes a).next

  detach_front : l.front ≡ a → detach l ≡ done (record l { front = next })
  unfolding detach
  detach_front e = rw (here, e, ==_refl a) refl

  detach_inner :
      (b : ℕ)
      → l.front ≢ a
      → (l.nodes a).prev ≡ b
      → b ≢ 0
      → b ≢ a
      → detach l ≡ done (record l { nodes = relinked l.nodes b next })
  unfolding detach
  detach_inner b off prev some other =
      rw (here, prev, ==_of_ne a l.front (λ e. off (sym e)), ==_of_ne b 0 some, ==_of_ne b a other)
        refl

-- The queue without the node, and the current node.
abbrev pub Removed : TaskList → List (ℕ × ℕ) → List (ℕ × ℕ) → Type 0
Removed r xs ys = Linked r.nodes r.front (xs ++ ys) × (r.current ≡ first_of (ys ++ xs))

moved :
    (l r : TaskList) (a : ℕ)
    → l.current ≡ a
    → a ≢ 0
    → detach l ≡ done r
    → remove_current l ≡ done (move_on r)
unfolding remove_current
moved l r a here set e = rw (==_of_ne l.current 0 (λ q. set (sym here ∙ q)), e) refl

first_alone :
    (nodes : ℕ → Node) (q p : ℕ) (ys : List (ℕ × ℕ))
    → Doubly nodes q p ys
    → (if p == 0 then p else p) ≡ first_of (ys ++ [])
first_alone nodes q p [] d = rw d.0 refl
first_alone nodes q p ((a, t) ∷ ys) d = rw (d.0, ==_of_ne a 0 d.1) refl

Distinct-middle : (a t : ℕ) (xs ys : List (ℕ × ℕ)) → Distinct (xs ++ (a, t) ∷ ys) → Misses a xs
Distinct-middle a t [] ys k = tt
Distinct-middle a t ((c, u) ∷ xs) ys k =
    let off = Misses-append c xs ((a, t) ∷ ys) k.0 in
    (λ e. off.1.0 (sym e), Distinct-middle a t xs ys k.1)

-- When the nodes of a queue are linked and differ, and the current one is among them,
-- `remove_current` ends without a fault and leaves the others in their order. The current one is
-- then that behind it, or the first.
pub remove_current_lem :
    (l : TaskList) (a t : ℕ) (xs ys : List (ℕ × ℕ))
    → Linked l.nodes l.front (xs ++ (a, t) ∷ ys)
    → Distinct (xs ++ (a, t) ∷ ys)
    → l.current ≡ a
    → (r : TaskList) × (remove_current l ≡ done r) × Removed r xs ys
remove_current_lem l a t [] ys d k here =
    let next = (l.nodes a).next in
    let left = record l { front = next } in
    let at : (l.nodes l.current).next ≡ next = ap (λ c. (l.nodes c).next) here in
    (
      move_on left,
      moved l left a here d.1 (detach_front l a t here d.1 d.0),
      (
        Linked-Doubly l.nodes a next ys d.3,
        ap (λ (p : ℕ). if p == 0 then next else p) at ∙ first_alone l.nodes a next ys d.3,
      ),
    )
remove_current_lem l a t ((c, u) ∷ xs) ys d k here =
    let next = (l.nodes a).next in
    let around = split l.nodes c (l.nodes c).next a t xs ys d.3 in
    let off = Misses-append c xs ((a, t) ∷ ys) k.0 in
    let b = last_of c xs in
    let left = record l { nodes = relinked l.nodes b next } in
    let before : c ≢ a = λ e. off.1.0 (sym e) in
    let other = last_of-ne a c xs before (Distinct-middle a t xs ys k.1) in
    let some = last_of-set l.nodes c (l.nodes c).next a t xs ys d.1 d.3 in
    let at : (relinked l.nodes b next l.current).next ≡ next =
      ap (λ j. (relinked l.nodes b next j).next) here ∙ next_kept l.nodes b next a other in
    (
      move_on left,
      moved l left a here around.1
          (detach_inner l a t here around.1 b (λ e. before (sym d.0 ∙ e)) around.0 some other),
      (
        (
          d.0,
          d.1,
          (relinked_at l.nodes b next c).0 ∙ d.2,
          relink l.nodes b next c a t xs ys k refl refl d.3,
        ),
        ap (λ (p : ℕ). if p == 0 then l.front else p) at
            ∙ first_of-append l.nodes a next l.front ys ((c, u) ∷ xs) around.2 d.0,
      ),
    )
