-- ===== src/Fs/Handles/Lookup.antt =====
-- src/kernel/task.cpp: what a task's handles are found by, before and after one is added.
use umbra_os.Prelude.{
  ℕ, zero, suc, ◌<◌, ◌≡◌, ◌≢◌, refl, sym, ◌∙◌, List, [], ◌∷◌, ◌==◌, if◌then◌else◌, arith, done,
  length, ==_of_ne, ==_refl, Bool, Bool-cases, All, ap, inl, inr,
}
use umbra_os.Prelude.Maps.{update_ne}
use umbra_os.Utils.LinkedList
use umbra_os.Utils.LinkedList.{Node, DoublyLinkedList}
use umbra_os.Utils.LinkedList.Chain.{Chain, Misses, push-Chain}
use umbra_os.Fs.Handles.{Task, no_id, id_given, add_file_handle, handle_from, get_file_handle}

-- The first handle of the list with an id, or null.
abbrev pub first_with : (ℕ → ℕ) → ℕ → List (ℕ × ℕ) → ℕ
first_with ids id [] = 0
first_with ids id (cell ∷ cells) = if ids cell.1 == id then cell.1 else first_with ids id cells

pub handle_from-eq :
    (fuel : ℕ) (ids : ℕ → ℕ) (id : ℕ) (nodes : ℕ → Node) (p : ℕ) (cells : List (ℕ × ℕ))
    → length cells < fuel
    → Chain nodes p cells
    → handle_from fuel ids id nodes p ≡ done (first_with ids id cells)
unfolding handle_from
handle_from-eq zero ids id nodes p cells h c = ground arith
handle_from-eq (suc fuel) ids id nodes p [] h c = rw (c.0)
handle_from-eq (suc fuel) ids id nodes p ((a, v) ∷ cells) h c =
    rw
      (
        c.0,
        ==_of_ne a 0 c.1,
        c.2,
        handle_from-eq fuel ids id nodes (nodes a).next cells (omega (arith, h)) c.3,
      )
      (on (ids v == id))
  where
    on :
        (b : Bool)
        → (if b then done v else done (first_with ids id cells))
          ≡ done (if b then v else first_with ids id cells)
    on b = elim (Bool-cases b) [ inl e ↦ rw e refl | inr e ↦ rw e refl ]

id_given_ne :
    (ids : ℕ → ℕ) (fd next_id other : ℕ) → other ≢ fd → id_given ids fd next_id other ≡ ids other
id_given_ne ids fd next_id other ne = elim (Bool-cases (ids fd == no_id)) [
  | inl e ↦ rw (e, id_given) (update_ne ids fd other next_id (λ q. ne (sym q)))
  | inr e ↦ rw (e, id_given) refl
]

first_with_other :
    (ids : ℕ → ℕ) (fd next_id id : ℕ) (cells : List (ℕ × ℕ))
    → All (λ cell. cell.1 ≢ fd) cells
    → first_with (id_given ids fd next_id) id cells ≡ first_with ids id cells
first_with_other ids fd next_id id [] a = refl
first_with_other ids fd next_id id (cell ∷ cells) a =
    rw (id_given_ne ids fd next_id cell.1 a.0, first_with_other ids fd next_id id cells a.1) refl

module _ (fuel node fd : ℕ) (ids : ℕ → ℕ) (t : Task) (cells : List (ℕ × ℕ))
    (c : Chain t.handles.nodes t.handles.head cells) (n : node ≢ 0) (m : Misses node cells)
    (f : fd ≢ 0) (h : suc (length cells) < fuel) where
  added :
      (id : ℕ)
      → let (given, ids', t') = add_file_handle node fd ids t in
        get_file_handle fuel ids' id t'
        ≡ done (if ids' fd == id then fd else first_with ids' id cells)
  unfolding add_file_handle get_file_handle
  added id = rw (==_of_ne fd 0 f) (
      handle_from-eq fuel (id_given ids fd t.next_id) id (LinkedList.push node fd t.handles).nodes
        (LinkedList.push node fd t.handles).head ((node, fd) ∷ cells) h
        (push-Chain node fd t.handles cells n m c))

  looked_up : (id : ℕ) → get_file_handle fuel ids id t ≡ done (first_with ids id cells)
  unfolding get_file_handle
  looked_up id =
      handle_from-eq fuel ids id t.handles.nodes t.handles.head cells (omega (arith, h)) c

  ids_after : (add_file_handle node fd ids t).1 ≡ id_given ids fd t.next_id
  unfolding add_file_handle
  ids_after = rw (==_of_ne fd 0 f) refl

  own_id : (add_file_handle node fd ids t).1 fd ≡ (add_file_handle node fd ids t).0
  unfolding add_file_handle
  own_id = rw (==_of_ne fd 0 f) refl

  -- When a task's handles are chained, and a descriptor that is not null and not among them is
  -- added with a new list node, then, with fuel for each handle and one more, the id that is
  -- returned finds the descriptor, and every other id finds what it found before.
  pub get_file_handle-add_file_handle :
      All (λ cell. cell.1 ≢ fd) cells
      → let (given, ids', t') = add_file_handle node fd ids t in
        (get_file_handle fuel ids' given t' ≡ done fd)
        × ((id : ℕ) → id ≢ given → get_file_handle fuel ids' id t' ≡ get_file_handle fuel ids id t)
  get_file_handle-add_file_handle others = (
    added (add_file_handle node fd ids t).0
        ∙ rw (own_id, ==_refl (add_file_handle node fd ids t).0) refl,
    λ id ne.
        added id
        ∙ rw (own_id, ==_of_ne (add_file_handle node fd ids t).0 id (λ q. ne (sym q)))
            (ap (λ g. done (first_with g id cells)) ids_after
              ∙ ap done (first_with_other ids fd t.next_id id cells others)
              ∙ sym (looked_up id)),
  )
