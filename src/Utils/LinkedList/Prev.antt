-- ===== src/Utils/LinkedList/Prev.antt =====
-- src/kernel/utils/list.hpp: the `prev` pointers that `push` leaves, and what `remove` makes of them.
use umbra_os.Prelude.{
  ℕ, suc, ◌≡◌, ◌≢◌, refl, sym, ◌∙◌, List, [], ◌∷◌, ◌==◌, if◌then◌else◌, arith, fault, ==_of_ne,
  ==_refl,
}
use umbra_os.Utils.LinkedList.{Node, DoublyLinkedList, push, remove, remove_from, new}
use umbra_os.Utils.LinkedList.Chain.{Chain, Misses, push-Chain}

-- A list that is built by pushes alone: the last cell is pushed first.
unfoldable pub pushes : (ℕ → Node) → List (ℕ × ℕ) → DoublyLinkedList
pushes memory [] = new memory
pushes memory ((a, v) ∷ cells) = push a v (pushes memory cells)

-- The nodes have addresses of their own.
abbrev pub Distinct : List (ℕ × ℕ) → Type 0
Distinct [] = Unit {0}
Distinct ((a, v) ∷ cells) = (a ≢ 0) × Misses a cells × Distinct cells

pub pushes-Chain :
    (memory : ℕ → Node) (cells : List (ℕ × ℕ))
    → Distinct cells
    → Chain (pushes memory cells).nodes (pushes memory cells).head cells
unfolding pushes new
pushes-Chain memory [] d = (refl, tt)
pushes-Chain memory ((a, v) ∷ cells) d =
    push-Chain a v (pushes memory cells) cells d.0 d.1 (pushes-Chain memory cells d.2)

-- A push writes the `prev` of no old node but the one after the old head.
push_prev :
    (node v : ℕ) (l : DoublyLinkedList) (p : ℕ)
    → l.head ≢ node
    → (l.nodes l.head).next ≢ p
    → ((push node v l).nodes p).prev ≡ (if node == p then 0 else (l.nodes p).prev)
unfolding push
push_prev node v l p h ne = ground arith

-- The head's successor is no node of another address.
next-ne :
    (nodes : ℕ → Node) (p q : ℕ) (cells : List (ℕ × ℕ))
    → Chain nodes p cells
    → q ≢ 0
    → Misses q cells
    → p ≢ q
next-ne nodes p q [] c z m e = z (sym e ∙ c.0)
next-ne nodes p q ((a, v) ∷ cells) c z m e = m.0 (sym c.0 ∙ e)

-- The head of a pushed list and the node before its last push both have no `prev`.
module _ (memory : ℕ → Node) where
  push_over :
      (a v b w : ℕ) (cells : List (ℕ × ℕ)) (p : ℕ)
      → Distinct ((a, v) ∷ (b, w) ∷ cells)
      → p ≢ 0
      → Misses p cells
      → ((pushes memory ((a, v) ∷ (b, w) ∷ cells)).nodes p).prev
        ≡ (if a == p then 0 else ((pushes memory ((b, w) ∷ cells)).nodes p).prev)
  unfolding pushes
  push_over a v b w cells p d z m =
      push_prev a v l p (λ e. d.1.0 (sym c.0 ∙ e))
        (next-ne l.nodes (l.nodes l.head).next p cells (rw c.0 c.3) z m)
    where
      l : DoublyLinkedList
      l = pushes memory ((b, w) ∷ cells)

      c : Chain l.nodes l.head ((b, w) ∷ cells)
      c = pushes-Chain memory ((b, w) ∷ cells) d.2

  head_prev :
      (a v : ℕ) (cells : List (ℕ × ℕ))
      → Distinct ((a, v) ∷ cells)
      → ((pushes memory ((a, v) ∷ cells)).nodes a).prev ≡ 0
  unfolding pushes push new
  head_prev a v [] d = rw (==_refl a)
  head_prev a v ((b, w) ∷ cells) d = push_over a v b w cells a d d.0 d.1.1 ∙ rw (==_refl a) refl

  second_prev :
      (a v b w : ℕ) (cells : List (ℕ × ℕ))
      → Distinct ((a, v) ∷ (b, w) ∷ cells)
      → ((pushes memory ((a, v) ∷ (b, w) ∷ cells)).nodes b).prev ≡ 0
  second_prev a v b w cells d =
      push_over a v b w cells b d d.2.0 d.2.1
      ∙ rw (==_of_ne a b (λ e. d.1.0 (sym e))) (head_prev b w cells d.2)

  -- When a list was built by two pushes or more at distinct addresses, and its two newest values
  -- differ, to remove the value of the last push but one is to follow a null `prev`.
  pub remove_second_faults :
      (fuel a v b w : ℕ) (cells : List (ℕ × ℕ))
      → Distinct ((a, v) ∷ (b, w) ∷ cells)
      → v ≢ w
      → remove (suc (suc fuel)) w (pushes memory ((a, v) ∷ (b, w) ∷ cells)) ≡ fault
  unfolding remove remove_from
  remove_second_faults fuel a v b w cells d ne = rw (
    c.0,
    ==_of_ne a 0 d.0,
    c.2,
    ==_of_ne v w ne,
    c.3.0,
    ==_of_ne b 0 d.2.0,
    c.3.2,
    ==_refl w,
    ==_of_ne b a d.1.0,
    second_prev a v b w cells d,
  )
    where
      l : DoublyLinkedList
      l = pushes memory ((a, v) ∷ (b, w) ∷ cells)

      c : Chain l.nodes l.head ((a, v) ∷ (b, w) ∷ cells)
      c = pushes-Chain memory ((a, v) ∷ (b, w) ∷ cells) d
