-- ===== src/Utils/LinkedList.antt =====
-- src/kernel/utils/list.hpp: `DoublyLinkedList<T>`, for a `T` that is a pointer or a number.
pub mod Chain
pub mod Prev
use umbra_os.Prelude.{
  ℕ, zero, suc, ◌+◌, ◌-◌, ◌%◌, ◌^◌, Bool, Option, none, some, ◌==◌, if◌then◌else◌, Outcome, done,
  fault, out_of_fuel, ◌>>=◌, List, [], ◌∷◌,
}
use umbra_os.Prelude.Maps.{update}

pub record Node : Type 0 where
  pub value : ℕ
  pub prev : ℕ
  pub next : ℕ

-- `nodes` is the memory that the list's pointers lead to; address 0 is the null pointer.
pub record DoublyLinkedList : Type 0 where
  pub nodes : ℕ → Node
  pub head : ℕ
  pub size : ℕ

abbrev pub set_prev : (ℕ → Node) → ℕ → ℕ → ℕ → Node
set_prev nodes p q = update nodes p (record (nodes p) { prev = q })

abbrev pub set_next : (ℕ → Node) → ℕ → ℕ → ℕ → Node
set_next nodes p q = update nodes p (record (nodes p) { next = q })

-- `push`, in the memory before the size is counted. `node` is the address that `new Node` returns.
push_nodes : ℕ → ℕ → DoublyLinkedList → ℕ → Node
push_nodes node value l =
    let made = update l.nodes node (record { value = value; prev = 0; next = 0 }) in
    let linked = set_next made node l.head in
    let after = (linked l.head).next in
    if l.head == 0 then made else if after == 0 then linked else set_prev linked after node

unfoldable pub push : ℕ → ℕ → DoublyLinkedList → DoublyLinkedList
unfolding push_nodes
push node value l = record {
  nodes = push_nodes node value l;
  head = node;
  size = (l.size + 1) % 2 ^ 64;
}

-- The body of `remove` at the node that holds the value. The old node goes back to the heap.
unlink_head : DoublyLinkedList → DoublyLinkedList
unlink_head l =
    let head = (l.nodes l.head).next in
    record {
      nodes = if head == 0 then l.nodes else set_prev l.nodes head 0;
      head = head;
      size = (l.size + 2 ^ 64 - 1) % 2 ^ 64;
    }

unlink_inner : ℕ → DoublyLinkedList → Outcome DoublyLinkedList
unlink_inner current l =
    let prev = (l.nodes current).prev in
    let nodes = set_next l.nodes prev (l.nodes current).next in
    let next = (nodes current).next in
    if prev == 0
    then fault
    else done (record {
      nodes = if next == 0 then nodes else set_prev nodes next (nodes current).prev;
      head = l.head;
      size = (l.size + 2 ^ 64 - 1) % 2 ^ 64;
    })

unfoldable pub remove_from : ℕ → ℕ → DoublyLinkedList → ℕ → Outcome DoublyLinkedList
unfolding unlink_head unlink_inner
remove_from zero value l current = out_of_fuel
remove_from (suc fuel) value l current =
    let rest = remove_from fuel value l (l.nodes current).next in
    if current == 0
    then done l
    else if (l.nodes current).value == value
    then (if current == l.head then done (unlink_head l) else unlink_inner current l)
    else rest

unfoldable pub remove : ℕ → ℕ → DoublyLinkedList → Outcome DoublyLinkedList
remove fuel value l = remove_from fuel value l l.head

unfoldable pub get_from : ℕ → ℕ → (ℕ → Node) → ℕ → Outcome (Option ℕ)
get_from zero value nodes current = out_of_fuel
get_from (suc fuel) value nodes current =
    let rest = get_from fuel value nodes (nodes current).next in
    if current == 0
    then done none
    else if (nodes current).value == value
    then done (some value)
    else rest

unfoldable pub get : ℕ → ℕ → DoublyLinkedList → Outcome (Option ℕ)
get fuel value l = get_from fuel value l.nodes l.head

unfoldable pub get_size : DoublyLinkedList → ℕ
get_size l = l.size

unfoldable pub is_empty : DoublyLinkedList → Bool
is_empty l = l.head == 0

-- A list before its first push; `nodes` is memory as it stands.
unfoldable pub new : (ℕ → Node) → DoublyLinkedList
new nodes = record { nodes = nodes; head = 0; size = 0 }

-- The destructor: the addresses that go back to the heap, in order.
unfoldable pub destroy_from : ℕ → (ℕ → Node) → ℕ → Outcome (List ℕ)
destroy_from zero nodes current = out_of_fuel
destroy_from (suc fuel) nodes current =
    let on : Outcome (List ℕ) =
      destroy_from fuel nodes (nodes current).next >>= λ freed. done (current ∷ freed) in
    if current == 0 then done [] else on

unfoldable pub destroy : ℕ → DoublyLinkedList → Outcome (List ℕ)
destroy fuel l = destroy_from fuel l.nodes l.head
