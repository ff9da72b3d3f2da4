-- ===== src/Memory/Heap/Requests.antt =====
-- src/kernel/memory/heap.cpp: sequences of `kmalloc` and `kfree` on the blocks of one slab.

use umbra_os.Prelude.{
  ℕ, zero, suc, ◌+◌, ◌-◌, ◌<◌, ◌≤◌, ◌≡◌, ◌≢◌, refl, sym, ◌∙◌, true, List, [], ◌∷◌, length, arith,
  All, some, Outcome, done, ◌>>=◌, ◌==◌, if◌then◌else◌, ltb, ==_refl, ==→ne, Bool-cases, inl, inr,
}
use umbra_os.Memory.Heap.{Heap, class_of, is_class, kmalloc, kfree, slab_free}
use umbra_os.Memory.Heap.Slab.{HasFree, slab_free_lem}
use umbra_os.Memory.Heap.Blocks.{InPage}
use umbra_os.Memory.Heap.Classes.{kfree-slab}

-- A caller asks for memory of a size, or gives back the block that it got so many blocks ago.
pub data Request : Type 0 where
  take : ℕ → Request
  give : ℕ → Request

module _ (hhdm : ℕ) where
  unfoldable pub give_back : ℕ → List ℕ → Heap → List ℕ × Heap
  give_back k [] h = ([], h)
  give_back zero (b ∷ bs) h = (bs, kfree hhdm b h)
  give_back (suc k) (b ∷ bs) h = let (bs', h') = give_back k bs h in (b ∷ bs', h')

module _ (hhdm fuel : ℕ) where
  unfoldable pub serve : Request → List ℕ → Heap → Outcome (List ℕ × Heap)
  serve (take size) held h = kmalloc hhdm fuel size h >>= λ r. done (r.0 ∷ held, r.1)
  serve (give k) held h = done (give_back hhdm k held h)

  -- The blocks that are held after some requests, and the heap.
  unfoldable pub serve_each : List Request → List ℕ → Heap → Outcome (List ℕ × Heap)
  serve_each [] held h = done (held, h)
  serve_each (r ∷ rs) held h = serve r held h >>= λ w. serve_each rs w.0 w.1

-- How often an address stands in a list.
abbrev pub occurs : ℕ → List ℕ → ℕ
occurs a [] = 0
occurs a (b ∷ bs) = (if a == b then 1 else 0) + occurs a bs

occurs-All : (a : ℕ) (bs : List ℕ) → occurs a bs ≡ 0 → All (λ b. b ≢ a) bs
occurs-All a [] e = tt
occurs-All a (b ∷ bs) e = elim (Bool-cases (a == b)) [
  | inl same ↦ absurd (ground (arith, e, same))
  | inr other ↦ (λ q. ==→ne a b other (sym q), occurs-All a bs (ground (arith, e)))
]

-- One when a block was got so many blocks ago.
abbrev pub is_held : ℕ → ℕ → ℕ
is_held k held = if ltb k held then 1 else 0

-- Every request for memory is of one class, and made when a block is free. The numbers are those of the blocks that
-- are held and of those that are free.
abbrev pub AllOf : ℕ → ℕ → ℕ → List Request → Type 0
AllOf c held room [] = Unit {0}
AllOf c held room (take size ∷ rs) =
    (class_of size ≡ some c) × (0 < room) × AllOf c (held + 1) (room - 1) rs
AllOf c held room (give k ∷ rs) = AllOf c (held - is_held k held) (room + is_held k held) rs

-- The blocks of a slab of a class: those that are free, those that are held, and others as often as a count says.
-- So many are free, and no block is counted twice.
pub record Shares (slab c room : ℕ) (others : ℕ → ℕ) (start held : List ℕ) (h : Heap)
    (free : List ℕ) : Type 0 where
  pub has_free : HasFree slab h free
  pub of_class : (h.headers slab).slab_size ≡ c
  pub current : h.slabs c ≡ slab
  pub room_left : room ≡ length free
  pub free_blocks : All (InPage slab c) free
  pub held_blocks : All (InPage slab c) held
  pub counts : (a : ℕ) → others a + occurs a held + occurs a free ≡ occurs a start
  pub once : (a : ℕ) → occurs a start ≤ 1

module _ (hhdm slab c : ℕ) (known : is_class c ≡ true) (start : List ℕ) where
  add_zero : (n : ℕ) → (n + 0) ≡ n
  add_zero n = omega arith

  class-slab_free :
      (b : ℕ) (h : Heap)
      → ((slab_free slab b h).headers slab).slab_size ≡ (h.headers slab).slab_size
  unfolding slab_free
  class-slab_free b h = rw (==_refl slab) refl

  current-slab_free : (b : ℕ) (h : Heap) → (slab_free slab b h).slabs c ≡ h.slabs c
  unfolding slab_free
  current-slab_free b h = refl

  free-Shares :
      (room : ℕ) (others : ℕ → ℕ) (b : ℕ) (held : List ℕ) (h : Heap) (free : List ℕ)
      → Shares slab c room others start (b ∷ held) h free
      → Shares slab c (room + 1) others start held (kfree hhdm b h) (b ∷ free)
  free-Shares room others b held h free s =
      let n = s.counts b in
      let o = s.once b in
      let absent = occurs-All b free (ground (arith, n, o, ==_refl b)) in
      let set : b ≢ 0 = λ e. s.held_blocks.0.2 (rw e refl) in
      rw (kfree-slab hhdm slab c b h s.of_class known s.held_blocks.0) (freed set absent)
    where
      freed :
          b ≢ 0
          → All (λ a. a ≢ b) free
          → Shares slab c (room + 1) others start held (slab_free slab b h) (b ∷ free)
      freed set absent = record {
        has_free = slab_free_lem slab h b free set absent s.has_free;
        of_class = class-slab_free b h ∙ s.of_class;
        current = current-slab_free b h ∙ s.current;
        room_left = omega (arith, s.room_left);
        free_blocks = (s.held_blocks.0, s.free_blocks);
        held_blocks = s.held_blocks.1;
        counts = λ a. omega (arith, s.counts a);
        once = s.once;
      }

  -- What is left after a block was given back, or none was.
  abbrev Given : (ℕ → ℕ) → List ℕ → List ℕ × Heap → ℕ → ℕ → Type 0
  Given others held w room one =
      (free : List ℕ) × Shares slab c (room + one) others start w.0 w.1 free
      × (length w.0 ≡ length held - one)

  pub give_back-Shares :
      (room : ℕ) (others : ℕ → ℕ) (k : ℕ) (held : List ℕ) (h : Heap) (free : List ℕ)
      → Shares slab c room others start held h free
      → (one : ℕ) × (one ≡ is_held k (length held))
        × Given others held (give_back hhdm k held h) room one
        × (one ≤ length held)
  unfolding give_back
  give_back-Shares room others k [] h free s =
      (0, ground arith, (free, rw (add_zero room) s, refl), omega arith)
  give_back-Shares room others zero (b ∷ held) h free s = (
    1,
    ground arith,
    (b ∷ free, free-Shares room others b held h free s, omega arith),
    omega arith,
  )
  give_back-Shares room others (suc k) (b ∷ held) h free s =
      let mine : ℕ → ℕ = λ a. others a + (if a == b then 1 else 0) in
      let (one, e, (free', s', l), le) = give_back-Shares room mine k held h free (record {
        has_free = s.has_free;
        of_class = s.of_class;
        current = s.current;
        room_left = s.room_left;
        free_blocks = s.free_blocks;
        held_blocks = s.held_blocks.1;
        counts = λ a. omega (arith, s.counts a);
        once = s.once;
      }) in
      (
        one,
        ground (arith, e),
        (
          free',
          record {
            has_free = s'.has_free;
            of_class = s'.of_class;
            current = s'.current;
            room_left = s'.room_left;
            free_blocks = s'.free_blocks;
            held_blocks = (s.held_blocks.0, s'.held_blocks);
            counts = λ a. omega (arith, s'.counts a);
            once = s'.once;
          },
          omega (arith, l, le),
        ),
        omega (arith, le),
      )
