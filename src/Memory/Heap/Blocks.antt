-- ===== src/Memory/Heap/Blocks.antt =====
-- src/kernel/memory/heap.cpp: the blocks of a new slab, and where they lie in its page.
use umbra_os.Prelude.{
  ℕ, zero, suc, ◌+◌, ◌-◌, ◌*◌, ◌%◌, ◌^◌, ◌<◌, ◌≤◌, ◌≡◌, ◌≢◌, refl, sym, ◌∙◌, ap, Bool, true, ◌==◌,
  if◌then◌else◌, List, [], ◌∷◌, arith, All, length, ==_refl, false, ==_iff, Bool-cases, inl, inr,
}
use mathlib.Core.Path.{subst}
use umbra_os.Prelude.Maps.{update, update_ne, update_self}
use umbra_os.Memory.Pmm.{page_size, align_down, phys_to_virt}
use umbra_os.Memory.Pmm
use umbra_os.Memory.Heap.{
  Heap, header_size, max_blocks, blocks_offset, block_addr, link_blocks, new_slab, is_class,
}
use umbra_os.Memory.Heap.Slab.{FreeList, HasFree}

module _ (slab slab_size : ℕ) where
  -- The addresses of `n` blocks from block `i` on.
  unfoldable pub blocks : ℕ → ℕ → List ℕ
  blocks i zero = []
  blocks i (suc n) = block_addr slab slab_size i ∷ blocks (i + 1) n

  pub length-blocks : (i n : ℕ) → length (blocks i n) ≡ n
  unfolding blocks
  length-blocks i zero = refl
  length-blocks i (suc n) = ap suc (length-blocks (i + 1) n)

  pub block_addr-lt :
      (j i : ℕ) → 0 < slab_size → j < i → block_addr slab slab_size j < block_addr slab slab_size i
  block_addr-lt j i z h = grind arith

  -- Linking from block `i` on leaves the blocks before it.
  link_blocks-keeps :
      (rounds i j : ℕ) (links : ℕ → ℕ)
      → 0 < slab_size
      → j < i
      → link_blocks slab slab_size rounds i links (block_addr slab slab_size j)
        ≡ links (block_addr slab slab_size j)
  unfolding link_blocks
  link_blocks-keeps zero i j links z h =
      update_ne links (block_addr slab slab_size i) (block_addr slab slab_size j) 0
        (λ e. omega (arith, block_addr-lt j i z h, e))
  link_blocks-keeps (suc rounds) i j links z h =
      link_blocks-keeps rounds (i + 1) j _ z (omega arith)
      ∙ update_ne links (block_addr slab slab_size i) (block_addr slab slab_size j)
          (block_addr slab slab_size (i + 1)) (λ e. omega (arith, block_addr-lt j i z h, e))

  link_blocks-FreeList :
      (rounds i : ℕ) (links : ℕ → ℕ)
      → 0 < slab_size
      → FreeList
          (link_blocks slab slab_size rounds i links)
          (block_addr slab slab_size i)
          (blocks i (suc rounds))
  unfolding link_blocks blocks
  link_blocks-FreeList zero i links z =
      (refl, omega arith, (update_self links (block_addr slab slab_size i) 0, tt))
  link_blocks-FreeList (suc rounds) i links z =
      (refl, omega arith, rw step (link_blocks-FreeList rounds (i + 1) linked z))
    where
      b : ℕ
      b = block_addr slab slab_size i

      linked : ℕ → ℕ
      linked = update links b (block_addr slab slab_size (i + 1))

      step : link_blocks slab slab_size rounds (i + 1) linked b ≡ block_addr slab slab_size (i + 1)
      step =
          link_blocks-keeps rounds (i + 1) i linked z (omega arith)
          ∙ update_self links b (block_addr slab slab_size (i + 1))

link_all-FreeList :
    (slab slab_size m : ℕ) (links : ℕ → ℕ)
    → 0 < slab_size
    → 0 < m
    → FreeList
        (link_blocks slab slab_size (m - 1) 0 links)
        (block_addr slab slab_size 0)
        (blocks slab slab_size 0 m)
link_all-FreeList slab slab_size zero links z h = absurd (omega arith)
link_all-FreeList slab slab_size (suc k) links z h =
    let e : suc k - 1 ≡ k = omega arith in rw e (link_blocks-FreeList slab slab_size k 0 links z)

-- A property of the seven classes.
class_cases :
    (P : ℕ → Type 0)
    → P 8 × P 16 × P 32 × P 64 × P 128 × P 256 × P 512
    → (n : ℕ) → is_class n ≡ true
    → P n
unfolding is_class
class_cases P (a, b, c, d, e, f, g) n h =
    try 8 a
      (λ _ h.
        try 16 b
          (λ _ h.
            try 32 c
              (λ _ h.
                try 64 d
                  (λ _ h.
                    try 128 e (λ _ h. try 256 f (λ _ h. subst P (sym ((==_iff n 512).0 h)) g) h) h)
                  h)
              h)
          h)
      h
  where
    try :
        (k : ℕ) {rest : Bool}
        → P k
        → ((n == k) ≡ false → rest ≡ true → P n)
        → (if n == k then true else rest) ≡ true
        → P n
    try k p go h = elim (Bool-cases (n == k)) [
      | inl e ↦ subst P (sym ((==_iff n k).0 e)) p
      | inr ne ↦ go ne (rw ne at h)
    ]

-- The blocks of a class fill its page at most.
pub class_fits :
    (n : ℕ)
    → is_class n ≡ true
    → (0 < max_blocks n) × (0 < n) × (blocks_offset n + max_blocks n * n ≤ page_size)
class_fits =
    class_cases
      (λ n. (0 < max_blocks n) × (0 < n) × (blocks_offset n + max_blocks n * n ≤ page_size))
      (omega arith)

-- A block of a class lies behind the header, ends within the page, and is found by its page.
abbrev pub InPage : ℕ → ℕ → ℕ → Type 0
InPage slab slab_size b =
    (slab + header_size ≤ b)
    × (b + slab_size ≤ slab + page_size)
    × (b % 2 ^ 12 ≢ 0)
    × (align_down b page_size ≡ slab)

block-InPage :
    (slab n i : ℕ)
    → slab % page_size ≡ 0
    → is_class n ≡ true
    → i < max_blocks n
    → InPage slab n (block_addr slab n i)
block-InPage slab n i aligned c h =
    let f = class_fits n c in
    let m : i * n + n ≤ max_blocks n * n = grind arith in omega (arith, f, m, aligned)

blocks-InPage :
    (slab n i k : ℕ)
    → slab % page_size ≡ 0
    → is_class n ≡ true
    → i + k ≤ max_blocks n
    → All (InPage slab n) (blocks slab n i k)
unfolding blocks
blocks-InPage slab n i zero aligned c h = tt
blocks-InPage slab n i (suc k) aligned c h = (
  block-InPage slab n i aligned c (omega arith),
  blocks-InPage slab n (i + 1) k aligned c (omega arith),
)

-- When its page is aligned, a new slab of a class has `max_blocks` free blocks, in the order of
-- their addresses. Each lies between the header and the end of the page, and `kfree` finds the page
-- again by rounding its address down.
pub new_slab_lem :
    (hhdm n : ℕ) (h : Heap)
    → is_class n ≡ true
    → (new_slab hhdm n h).0 % page_size ≡ 0
    → let (slab, h') = new_slab hhdm n h in
      HasFree slab h' (blocks slab n 0 (max_blocks n))
      × (length (blocks slab n 0 (max_blocks n)) ≡ max_blocks n)
      × All (InPage slab n) (blocks slab n 0 (max_blocks n))
unfolding new_slab
new_slab_lem hhdm n h c a = (
  rw (==_refl slab)
      (link_all-FreeList slab n (max_blocks n) links (class_fits n c).1 (class_fits n c).0),
  length-blocks slab n 0 (max_blocks n),
  blocks-InPage slab n 0 (max_blocks n) a c (omega arith),
)
  where
    slab : ℕ
    slab = phys_to_virt hhdm (Pmm.calloc hhdm h.pmm h.links 1).0

    links : ℕ → ℕ
    links = (Pmm.calloc hhdm h.pmm h.links 1).2
