-- ===== src/Utils/LinkedList/Chain.antt =====
-- src/kernel/utils/list.hpp seen along its `next` pointers: what `push`, `get` and `remove` do to the
-- sequence of addresses and values.
use umbra_os.Prelude.{
  ℕ, zero, suc, ◌+◌, ◌-◌, ◌%◌, ◌^◌, ◌<◌, ◌≡◌, ◌≢◌, refl, Bool, true, false, Option, none, some,
  ◌==◌, if◌then◌else◌, List, [], ◌∷◌, arith, length, Outcome, done, ==_of_ne, ==_iff, ==_refl,
  Bool-cases, inl, inr, ◌∙◌, sym,
}
use umbra_os.Prelude.Maps.{update}
use umbra_os.Utils.LinkedList.{
  Node, DoublyLinkedList, set_prev, set_next, push, remove, remove_from, get, get_from, destroy,
  destroy_from,
}

-- From `p` on, the `next` pointers pass through the cells of the list: an address and a value each.
abbrev pub Chain : (ℕ → Node) → ℕ → List (ℕ × ℕ) → Type 0
Chain nodes p [] = (p ≡ 0) × Unit {0}
Chain nodes p ((a, v) ∷ cells) =
    (p ≡ a) × (a ≢ 0) × ((nodes a).value ≡ v) × Chain nodes (nodes a).next cells

-- No cell stands at the address.
abbrev pub Misses : ℕ → List (ℕ × ℕ) → Type 0
Misses p [] = Unit {0}
Misses p ((a, v) ∷ cells) = (a ≢ p) × Misses p cells

-- Two memories agree on the values and `next` pointers of the cells.
abbrev Agree : (ℕ → Node) → (ℕ → Node) → List (ℕ × ℕ) → Type 0
Agree f g [] = Unit {0}
Agree f g ((a, v) ∷ cells) =
    ((g a).value ≡ (f a).value) × ((g a).next ≡ (f a).next) × Agree f g cells

Chain-ext :
    (f g : ℕ → Node) (p : ℕ) (cells : List (ℕ × ℕ))
    → Agree f g cells
    → Chain f p cells
    → Chain g p cells
Chain-ext f g p [] e c = c
Chain-ext f g p ((a, v) ∷ cells) e c =
    (c.0, c.1, e.0 ∙ c.2, rw e.1 (Chain-ext f g (f a).next cells e.2 c.3))

-- A write to `prev` leaves the rest of every node.
pub set_prev_keeps :
    (nodes : ℕ → Node) (q r a : ℕ)
    → ((set_prev nodes q r a).value ≡ (nodes a).value)
      × ((set_prev nodes q r a).next ≡ (nodes a).next)
set_prev_keeps nodes q r a = elim (Bool-cases (q == a)) [
  | inl here ↦ rw (here, (==_iff q a).0 here) (refl, refl)
  | inr other ↦ rw other (refl, refl)
]

Agree-set_prev :
    (nodes : ℕ → Node) (q r : ℕ) (cells : List (ℕ × ℕ)) → Agree nodes (set_prev nodes q r) cells
Agree-set_prev nodes q r [] = tt
Agree-set_prev nodes q r ((a, v) ∷ cells) =
    let k = set_prev_keeps nodes q r a in (k.0, k.1, Agree-set_prev nodes q r cells)

Agree-update :
    (nodes : ℕ → Node) (q : ℕ) (n : Node) (cells : List (ℕ × ℕ))
    → Misses q cells
    → Agree nodes (update nodes q n) cells
Agree-update nodes q n [] m = tt
Agree-update nodes q n ((a, v) ∷ cells) m =
    rw (==_of_ne q a (λ e. m.0 (sym e))) (refl, refl, Agree-update nodes q n cells m.1)

pub Chain-set_prev :
    (nodes : ℕ → Node) (q r p : ℕ) (cells : List (ℕ × ℕ))
    → Chain nodes p cells
    → Chain (set_prev nodes q r) p cells
Chain-set_prev nodes q r p cells =
    Chain-ext nodes (set_prev nodes q r) p cells (Agree-set_prev nodes q r cells)

pub Chain-update :
    (nodes : ℕ → Node) (q : ℕ) (n : Node) (p : ℕ) (cells : List (ℕ × ℕ))
    → Misses q cells
    → Chain nodes p cells
    → Chain (update nodes q n) p cells
Chain-update nodes q n p cells m =
    Chain-ext nodes (update nodes q n) p cells (Agree-update nodes q n cells m)

Chain-null :
    (nodes : ℕ → Node) (p : ℕ) (cells : List (ℕ × ℕ))
    → (p == 0) ≡ true
    → Chain nodes p cells
    → cells ≡ []
Chain-null nodes p [] e c = refl
Chain-null nodes p ((a, v) ∷ cells) e c = absurd (c.1 (sym c.0 ∙ (==_iff p 0).0 e))

Chain-if :
    (b : Bool) (f g : ℕ → Node) (p : ℕ) (cells : List (ℕ × ℕ))
    → (b ≡ true → Chain f p cells)
    → (b ≡ false → Chain g p cells)
    → Chain (if b then f else g) p cells
Chain-if true f g p cells c d = c refl
Chain-if false f g p cells c d = d refl

module _ (node value : ℕ) (l : DoublyLinkedList) (cells : List (ℕ × ℕ)) where
  abbrev made : ℕ → Node
  made = update l.nodes node (record { value = value; prev = 0; next = 0 })

  abbrev linked : ℕ → Node
  linked = set_next made node l.head

  linked-Chain :
      node ≢ 0
      → Misses node cells
      → Chain l.nodes l.head cells
      → Chain linked node ((node, value) ∷ cells)
  linked-Chain n m c = (
    refl,
    n,
    rw (==_refl node) refl,
    rw (==_refl node)
        (Chain-update made node _ l.head cells m (Chain-update l.nodes node _ l.head cells m c)),
  )

  -- When the cells of a list are chained, a push at an address that is not null and not theirs puts
  -- the new node before them, and they keep their values and their order.
  pub push-Chain :
      node ≢ 0
      → Misses node cells
      → Chain l.nodes l.head cells
      → Chain (push node value l).nodes (push node value l).head ((node, value) ∷ cells)
  unfolding push
  push-Chain n m c =
      Chain-if (l.head == 0) made (if after == 0 then linked else set_prev linked after node) node
        ((node, value) ∷ cells)
        (λ empty.
          rw (Chain-null l.nodes l.head cells empty c)
            (refl, n, rw (==_refl node) refl, (rw (==_refl node) refl, tt)))
        (λ _.
          Chain-if (after == 0) linked (set_prev linked after node) node ((node, value) ∷ cells)
            (λ _. linked-Chain n m c)
            (λ _.
              Chain-set_prev linked after node node ((node, value) ∷ cells) (linked-Chain n m c)))
    where
      after : ℕ
      after = (linked l.head).next

-- Whether a cell holds the value.
unfoldable pub has : ℕ → List (ℕ × ℕ) → Bool
has value [] = false
has value ((a, v) ∷ cells) = if v == value then true else has value cells

get_from-eq :
    (fuel value : ℕ) (nodes : ℕ → Node) (p : ℕ) (cells : List (ℕ × ℕ))
    → length cells < fuel
    → Chain nodes p cells
    → get_from fuel value nodes p ≡ done (if has value cells then some value else none)
unfolding get_from has
get_from-eq zero value nodes p cells h c = absurd (omega arith)
get_from-eq (suc fuel) value nodes p [] h c = rw c.0
get_from-eq (suc fuel) value nodes p ((a, v) ∷ cells) h c =
    rw (c.0, ==_of_ne a 0 c.1, c.2)
      (stop (v == value) (has value cells)
        (get_from-eq fuel value nodes (nodes a).next cells (omega arith) c.3))
  where
    stop :
        (b : Bool) {x : Outcome (Option ℕ)} (y : Bool)
        → x ≡ done (if y then some value else none)
        → (if b then done (some value) else x)
          ≡ done (if (if b then true else y) then some value else none)
    stop true y e = refl
    stop false y e = e

-- When the cells of a list are chained, `get` comes to an end within one step for each cell and one
-- more, and finds a value exactly when a cell holds it.
pub get-eq :
    (fuel value : ℕ) (l : DoublyLinkedList) (cells : List (ℕ × ℕ))
    → length cells < fuel
    → Chain l.nodes l.head cells
    → get fuel value l ≡ done (if has value cells then some value else none)
unfolding get
get-eq fuel value l cells = get_from-eq fuel value l.nodes l.head cells

-- When the cells of a list are chained, to remove the value of the first ends without a fault, and
-- leaves the others in order.
pub remove_front :
    (fuel a v : ℕ) (l : DoublyLinkedList) (cells : List (ℕ × ℕ))
    → Chain l.nodes l.head ((a, v) ∷ cells)
    → (l' : DoublyLinkedList) × (remove (suc fuel) v l ≡ done l') × Chain l'.nodes l'.head cells
unfolding remove remove_from
remove_front fuel a v l cells c = (_, eq, rest)
  where
    q : ℕ
    q = (l.nodes l.head).next

    here : (l.nodes l.head).value ≡ v
    here = rw c.0 c.2

    eq :
        remove (suc fuel) v l
        ≡ done (record {
          nodes = if q == 0 then l.nodes else set_prev l.nodes q 0;
          head = q;
          size = (l.size + 2 ^ 64 - 1) % 2 ^ 64;
        })
    eq = rw (==_of_ne l.head 0 (λ e. c.1 (sym c.0 ∙ e)), here, ==_refl v, ==_refl l.head)

    rest : Chain (if q == 0 then l.nodes else set_prev l.nodes q 0) q cells
    rest =
        let tail : Chain l.nodes q cells = rw c.0 c.3 in
        Chain-if (q == 0) l.nodes (set_prev l.nodes q 0) q cells (λ _. tail)
          (λ _. Chain-set_prev l.nodes q 0 q cells tail)

abbrev pub addresses : List (ℕ × ℕ) → List ℕ
addresses [] = []
addresses ((a, v) ∷ cells) = a ∷ addresses cells

destroy_from-eq :
    (fuel : ℕ) (nodes : ℕ → Node) (p : ℕ) (cells : List (ℕ × ℕ))
    → length cells < fuel
    → Chain nodes p cells
    → destroy_from fuel nodes p ≡ done (addresses cells)
unfolding destroy_from
destroy_from-eq zero nodes p cells h c = absurd (omega arith)
destroy_from-eq (suc fuel) nodes p [] h c = rw c.0
destroy_from-eq (suc fuel) nodes p ((a, v) ∷ cells) h c =
    rw (c.0, ==_of_ne a 0 c.1, destroy_from-eq fuel nodes (nodes a).next cells (omega arith) c.3)
      refl

-- When the cells of a list are chained, the destructor comes to an end within one step for each cell
-- and one more, and frees each cell of the list, once and in order.
destroy-eq :
    (fuel : ℕ) (l : DoublyLinkedList) (cells : List (ℕ × ℕ))
    → length cells < fuel
    → Chain l.nodes l.head cells
    → destroy fuel l ≡ done (addresses cells)
unfolding destroy
destroy-eq fuel l cells = destroy_from-eq fuel l.nodes l.head cells
