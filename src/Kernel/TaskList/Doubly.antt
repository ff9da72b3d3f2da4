-- ===== src/Kernel/TaskList/Doubly.antt =====
-- src/kernel/scheduler.hpp: the chain of a `TaskList` in both directions, and how a node leaves it.
use umbra_os.Prelude.{
  ℕ, ◌≡◌, ◌≢◌, refl, sym, ◌∙◌, ap, List, [], ◌∷◌, ◌++◌, ◌==◌, if◌then◌else◌, arith, Bool-cases, inl,
  inr, ==_of_ne, ==_iff, ==_refl,
}
use mathlib.Core.Path.{subst}
use umbra_os.Kernel.TaskList.{Node, set_prev, set_next}

-- From `p` on, behind `q`, the pointers pass through the nodes and tasks of the list, and back.
abbrev pub Doubly : (ℕ → Node) → ℕ → ℕ → List (ℕ × ℕ) → Type 0
Doubly nodes q p [] = (p ≡ 0) × Unit {0}
Doubly nodes q p ((a, t) ∷ cells) =
    (p ≡ a)
    × (a ≢ 0)
    × ((nodes a).task ≡ t)
    × ((nodes a).prev ≡ q)
    × Doubly nodes a (nodes a).next cells

-- The whole chain: what the first node's `prev` holds is not asked for.
abbrev pub Linked : (ℕ → Node) → ℕ → List (ℕ × ℕ) → Type 0
Linked nodes p [] = (p ≡ 0) × Unit {0}
Linked nodes p ((a, t) ∷ cells) =
    (p ≡ a) × (a ≢ 0) × ((nodes a).task ≡ t) × Doubly nodes a (nodes a).next cells

abbrev pub Misses : ℕ → List (ℕ × ℕ) → Type 0
Misses p [] = Unit {0}
Misses p ((a, t) ∷ cells) = (a ≢ p) × Misses p cells

-- No address stands twice.
abbrev pub Distinct : List (ℕ × ℕ) → Type 0
Distinct [] = Unit {0}
Distinct ((a, t) ∷ cells) = Misses a cells × Distinct cells

-- The address of the last of some nodes behind `q`.
abbrev pub last_of : ℕ → List (ℕ × ℕ) → ℕ
last_of q [] = q
last_of q ((a, t) ∷ cells) = last_of a cells

pub Linked-Doubly :
    (nodes : ℕ → Node) (q p : ℕ) (cells : List (ℕ × ℕ))
    → Doubly nodes q p cells
    → Linked nodes p cells
Linked-Doubly nodes q p [] d = d
Linked-Doubly nodes q p ((a, t) ∷ cells) d = (d.0, d.1, d.2, d.4)

pub Misses-append : (p : ℕ) (xs ys : List (ℕ × ℕ)) → Misses p (xs ++ ys) → Misses p xs × Misses p ys
Misses-append p [] ys m = (tt, m)
Misses-append p ((a, t) ∷ xs) ys m = let r = Misses-append p xs ys m.1 in ((m.0, r.0), r.1)

pub last_of-ne : (p q : ℕ) (xs : List (ℕ × ℕ)) → q ≢ p → Misses p xs → last_of q xs ≢ p
last_of-ne p q [] n m = n
last_of-ne p q ((a, t) ∷ xs) n m = last_of-ne p a xs m.0 m.1

-- What a walk back from a node finds, and what stands behind it.
pub split :
    (nodes : ℕ → Node) (q p a t : ℕ) (xs ys : List (ℕ × ℕ))
    → Doubly nodes q p (xs ++ (a, t) ∷ ys)
    → ((nodes a).prev ≡ last_of q xs)
      × (a ≢ 0)
      × Doubly nodes a (nodes a).next ys
      × ((nodes a).task ≡ t)
split nodes q p a t [] ys d = (d.3, d.1, d.4, d.2)
split nodes q p a t ((c, u) ∷ xs) ys d = split nodes c (nodes c).next a t xs ys d.4

pub set_next_at :
    (nodes : ℕ → Node) (b v c : ℕ)
    → ((set_next nodes b v c).task ≡ (nodes c).task)
      × ((set_next nodes b v c).prev ≡ (nodes c).prev)
      × ((set_next nodes b v c).next ≡ (if b == c then v else (nodes c).next))
set_next_at nodes b v c = elim (Bool-cases (b == c)) [
  | inl e ↦ rw (e, sym ((==_iff b c).0 e)) (refl, refl, refl)
  | inr e ↦ rw e (refl, refl, refl)
]

pub set_prev_at :
    (nodes : ℕ → Node) (b v c : ℕ)
    → ((set_prev nodes b v c).task ≡ (nodes c).task)
      × ((set_prev nodes b v c).next ≡ (nodes c).next)
      × ((set_prev nodes b v c).prev ≡ (if b == c then v else (nodes c).prev))
set_prev_at nodes b v c = elim (Bool-cases (b == c)) [
  | inl e ↦ rw (e, sym ((==_iff b c).0 e)) (refl, refl, refl)
  | inr e ↦ rw e (refl, refl, refl)
]

first-ne :
    (nodes : ℕ → Node) (q p c : ℕ) (ys : List (ℕ × ℕ))
    → c ≢ 0
    → Misses c ys
    → Doubly nodes q p ys
    → p ≢ c
first-ne nodes q p c [] n m d e = n (sym e ∙ d.0)
first-ne nodes q p c ((a, t) ∷ ys) n m d e = m.0 (sym d.0 ∙ e)

-- The memory in which the node between `b` and `next` is passed over.
module _ (nodes : ℕ → Node) (b next : ℕ) where
  abbrev passed : ℕ → Node
  passed = set_next nodes b next

  abbrev pub relinked : ℕ → Node
  relinked = if next == 0 then passed else set_prev passed next b

  pub relinked_at :
      (c : ℕ)
      → ((relinked c).task ≡ (nodes c).task)
        × ((relinked c).next ≡ (if b == c then next else (nodes c).next))
        × ((relinked c).prev
            ≡ (if next == 0 then (nodes c).prev else if next == c then b else (nodes c).prev))
  relinked_at c =
      let n = set_next_at nodes b next c in
      let p = set_prev_at passed next b c in
      elim (Bool-cases (next == 0)) [
        | inl e ↦ rw e (n.0, n.2, n.1)
        | inr e ↦ rw e (p.0 ∙ n.0, p.1 ∙ n.2, p.2 ∙ ap (λ (v : ℕ). if next == c then b else v) n.1)
      ]

  next_set : (relinked b).next ≡ next
  next_set = (relinked_at b).1 ∙ rw (==_refl b) refl

  pub next_kept : (c : ℕ) → b ≢ c → (relinked c).next ≡ (nodes c).next
  next_kept c n = (relinked_at c).1 ∙ rw (==_of_ne b c n) refl

  prev_set : next ≢ 0 → (relinked next).prev ≡ b
  prev_set n = (relinked_at next).2 ∙ rw (==_of_ne next 0 n, ==_refl next) refl

  prev_kept : (c : ℕ) → next ≢ c → (relinked c).prev ≡ (nodes c).prev
  prev_kept c n = (relinked_at c).2 ∙ ground (arith, n)

  -- Nodes that are neither `b` nor `next` stay linked.
  kept :
      (q p : ℕ) (cells : List (ℕ × ℕ))
      → Misses b cells
      → Misses next cells
      → Doubly nodes q p cells
      → Doubly relinked q p cells
  kept q p [] m n d = d
  kept q p ((a, t) ∷ cells) m n d = (
    d.0,
    d.1,
    (relinked_at a).0 ∙ d.2,
    prev_kept a (λ e. n.0 (sym e)) ∙ d.3,
    rw (next_kept a (λ e. m.0 (sym e))) (kept a (nodes a).next cells m.1 n.1 d.4),
  )

  behind :
      (a : ℕ) (ys : List (ℕ × ℕ))
      → Misses b ys
      → Distinct ys
      → Doubly nodes a next ys
      → Doubly relinked b next ys
  behind a [] m k d = d
  behind a ((c, u) ∷ ys) m k d = (
    d.0,
    d.1,
    (relinked_at c).0 ∙ d.2,
    rw (sym d.0) (prev_set (λ e. d.1 (sym d.0 ∙ e))),
    rw (next_kept c (λ e. m.0 (sym e))) (kept c (nodes c).next ys m.1 (rw d.0 k.0) d.4),
  )

  -- The nodes behind `q`, up to `b` and from `next` on.
  pub relink :
      (q a t : ℕ) (xs ys : List (ℕ × ℕ))
      → Distinct ((q, 0) ∷ (xs ++ (a, t) ∷ ys))
      → last_of q xs ≡ b
      → (nodes a).next ≡ next
      → Doubly nodes q (nodes q).next (xs ++ (a, t) ∷ ys)
      → Doubly relinked q (relinked q).next (xs ++ ys)
  relink q a t [] ys k here from d =
      subst (λ j. Doubly relinked j (relinked j).next ys) (sym here)
        (subst (λ j. Doubly relinked b j ys) (sym next_set)
          (behind a ys (subst (λ j. Misses j ys) here k.0.1) k.1.1
            (subst (λ j. Doubly nodes a j ys) from d.4)))
  relink q a t ((c, u) ∷ xs) ys k here from d =
      let around = split nodes c (nodes c).next a t xs ys d.4 in
      let off = Misses-append c xs ((a, t) ∷ ys) k.1.0 in
      let tail = subst (λ j. Doubly nodes a j ys) from around.2 in
      let not_next = first-ne nodes a next c ys d.1 off.1.1 tail in
      let last_here : b ≢ q =
        λ e. last_of-ne q c xs k.0.0 (Misses-append q xs ((a, t) ∷ ys) k.0.1).0 (here ∙ e) in
      (
        next_kept q last_here ∙ d.0,
        d.1,
        (relinked_at c).0 ∙ d.2,
        prev_kept c not_next ∙ d.3,
        relink c a t xs ys k.1 here from d.4,
      )
