-- ===== src/Memory/Heap/Slab.antt =====
-- src/kernel/memory/heap.cpp: the free list of one slab.
use umbra_os.Prelude.{ℕ, suc, ◌≡◌, ◌≢◌, refl, sym, List, [], ◌∷◌, done, All, ==_of_ne, ==_refl}
use umbra_os.Prelude.Maps.{update}
use umbra_os.Memory.Heap.{Heap, slab_alloc, slab_free, set_free}

-- From `p` on, the first words of the free blocks pass through the addresses of the list.
abbrev pub FreeList : (ℕ → ℕ) → ℕ → List ℕ → Type 0
FreeList links p [] = (p ≡ 0) × Unit {0}
FreeList links p (b ∷ bs) = (p ≡ b) × (b ≢ 0) × FreeList links (links b) bs

FreeList-update :
    (links : ℕ → ℕ) (q v p : ℕ) (bs : List ℕ)
    → All (λ b. b ≢ q) bs
    → FreeList links p bs
    → FreeList (update links q v) p bs
FreeList-update links q v p [] m f = f
FreeList-update links q v p (b ∷ bs) m f = (
  f.0,
  f.1,
  rw (==_of_ne q b (λ e. m.0 (sym e))) (FreeList-update links q v (links b) bs m.1 f.2),
)

-- The free blocks of a slab.
abbrev pub HasFree : ℕ → Heap → List ℕ → Type 0
HasFree slab h bs = FreeList h.links (h.headers slab).free_block bs

module _ (slab : ℕ) (h : Heap) where
  -- `Slab::alloc` on a slab with a free block takes the first and changes nothing but the header of
  -- that slab, where the others stay free.
  pub slab_alloc_lem :
      (hhdm fuel slab_size b : ℕ) (bs : List ℕ)
      → HasFree slab h (b ∷ bs)
      → let h' = set_free h slab (h.links b) in
        (slab_alloc hhdm (suc fuel) slab_size slab h ≡ done (b, h')) × HasFree slab h' bs
  unfolding slab_alloc
  slab_alloc_lem hhdm fuel slab_size b bs f = (rw (f.0, ==_of_ne b 0 f.1), rw (==_refl slab) f.2)

  -- `Slab::free` of a block that is not null and is not free puts it in front of the free ones.
  pub slab_free_lem :
      (addr : ℕ) (bs : List ℕ)
      → addr ≢ 0
      → All (λ b. b ≢ addr) bs
      → HasFree slab h bs
      → HasFree slab (slab_free slab addr h) (addr ∷ bs)
  unfolding slab_free
  slab_free_lem addr bs z m f = (
    rw (==_refl slab) refl,
    z,
    rw (==_refl addr) (FreeList-update h.links addr _ (h.headers slab).free_block bs m f),
  )
