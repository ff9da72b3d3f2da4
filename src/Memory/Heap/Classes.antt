-- ===== src/Memory/Heap/Classes.antt =====
-- src/kernel/memory/heap.cpp: `kmalloc` and `kfree` on the slabs of a class.
use mathlib.Core.Path.{subst}
use umbra_os.Prelude.{
  ℕ, suc, ◌*◌, ◌%◌, ◌^◌, ◌<◌, ◌≤◌, ◌≡◌, ◌≢◌, refl, sym, true, List, ◌∷◌, arith, All, Option, none,
  some, done, ==_of_ne, ==_refl, ◌⊎◌,
}
use umbra_os.Memory.Heap.{Heap, class_of, is_class, kmalloc, kfree, slab_free, set_free}
use umbra_os.Memory.Heap.Slab.{HasFree, slab_alloc_lem, slab_free_lem}
use umbra_os.Memory.Heap.Blocks.{InPage}

-- What a request of `size` bytes is answered from: the smallest class that has room, which wastes
-- less than half of a block above the smallest class, or pages when no class has room.
abbrev pub Fits : ℕ → Option ℕ → Type 0
Fits size (some c) = (size ≤ c) × ((c ≡ 8) ⊎ (c < 2 * size)) × (is_class c ≡ true)
Fits size none = 512 < size

-- A request is answered from a class that has room for it, which is the smallest class or less than
-- twice the request, and from pages when it is beyond the largest class.
pub class_of-Fits : (size : ℕ) → Fits size (class_of size)
unfolding class_of is_class
class_of-Fits size = ground arith

-- `kfree` finds the slab by the page of the block.
pub kfree-slab :
    (hhdm slab c b : ℕ) (h : Heap)
    → (h.headers slab).slab_size ≡ c
    → is_class c ≡ true
    → InPage slab c b
    → kfree hhdm b h ≡ slab_free slab b h
unfolding kfree
kfree-slab hhdm slab c b h e k p = rw (==_of_ne (b % 2 ^ 12) 0 p.2, p.3, e, k) refl

module _ (hhdm fuel size c : ℕ) (h : Heap) (b : ℕ) (bs : List ℕ) where
  abbrev slab : ℕ
  slab = h.slabs c

  abbrev taken : Heap
  taken = set_free h slab (h.links b)

  pub kmalloc-eq :
      class_of size ≡ some c
      → HasFree slab h (b ∷ bs)
      → kmalloc hhdm (suc fuel) size h ≡ done (b, taken)
  unfolding kmalloc
  kmalloc-eq e f = rw (e, kmalloc) (slab_alloc_lem slab h hhdm fuel c b bs f).0

  kfree-eq :
      (h.headers slab).slab_size ≡ c
      → is_class c ≡ true
      → InPage slab c b
      → kfree hhdm b taken ≡ slab_free slab b taken
  kfree-eq e = kfree-slab hhdm slab c b taken (rw (==_refl slab) e)

  -- When a request falls into a class whose slab has a free block, where that slab's header names
  -- the class, the first free block lies in the slab's page and no other free block has its
  -- address: `kmalloc` returns that block and leaves the others free, and `kfree` of it puts it
  -- back in front of the same free list.
  kfree-kmalloc :
      class_of size ≡ some c
      → (h.headers slab).slab_size ≡ c
      → HasFree slab h (b ∷ bs)
      → InPage slab c b
      → All (λ a. a ≢ b) bs
      → (kmalloc hhdm (suc fuel) size h ≡ done (b, taken))
        × HasFree slab taken bs
        × HasFree slab (kfree hhdm b taken) (b ∷ bs)
  kfree-kmalloc e s f p m = (
    kmalloc-eq e f,
    (slab_alloc_lem slab h hhdm fuel c b bs f).1,
    subst (λ k. HasFree slab k (b ∷ bs)) (sym (kfree-eq s (known e) p))
        (slab_free_lem slab taken b bs f.1 m (slab_alloc_lem slab h hhdm fuel c b bs f).1),
  )
    where
      known : class_of size ≡ some c → is_class c ≡ true
      known e = (rw e at (class_of-Fits size)).2
