-- ===== src/Tests/Allocators.antt =====
-- A page allocator over one byte of bitmap, and a heap with one slab of eight-byte blocks.
use umbra_os.Prelude.{
  ℕ, ◌+◌, ◌*◌, ◌/◌, ◌%◌, ◌<◌, ◌≤◌, ◌≡◌, ◌≢◌, refl, true, false, [], ◌∷◌, arith, ◌⊎◌, inl, inr,
  if◌then◌else◌, ◌==◌, Bool-cases, ==_iff, ==→ne,
}
use umbra_os.Prelude.Bits.{holds_under, holds_at}
use umbra_os.Utils.Bitmap
use umbra_os.Utils.Bitmap.{Bitmap}
use umbra_os.Memory.Pmm
use umbra_os.Memory.Pmm.{Pmm, alloc, free, page_size}
use umbra_os.Memory.Pmm.Alloc.{IsValid, Got, Failed, alloc_lem}
use umbra_os.Memory.Pmm.Release.{alloc_beyond}
use umbra_os.Memory.Heap.{Heap, new_static, class_of, is_class, new_slab, max_blocks}
use umbra_os.Memory.Heap.Slab.{HasFree}
use umbra_os.Memory.Heap.Blocks.{blocks}
use umbra_os.Memory.Heap.Requests
use umbra_os.Memory.Heap.Fresh.{serve_each-new_static}
use umbra_os.Memory.Heap.Served.{Kept, serve_each-Kept}
use umbra_os.Memory.Pmm.Runs
use umbra_os.Memory.Pmm.Runs.{owners, used, serve_all-Counts}

-- Page 0 is in use, and the scan is at page 1.
abbrev small : Pmm
small = record {
  bitmap = record { bytes = λ i. if i == 0 then 1 else 0; size = 1 };
  last_page_idx = 1;
}

second_clear : (i : ℕ) → 1 ≤ i → i < 1 + 2 → Bitmap.get small.bitmap i ≡ false
unfolding Bitmap.get Bitmap.get_bit
second_clear i a b = elim (Bool-cases (i == 1)) [
  | inl e ↦ rw ((==_iff i 1).0 e) refl
  | inr ne ↦ let e : i ≡ 2 = omega (arith, ==→ne i 1 ne) in rw e refl
]

-- All eight pages of the map are in use.
abbrev full : Pmm
full = record {
  bitmap = record { bytes = λ i. if i == 0 then 255 else 0; size = 1 };
  last_page_idx = 1;
}

small-IsValid : IsValid small
unfolding Bitmap.get Bitmap.get_bit
small-IsValid = record {
  bytes = λ i. ground arith;
  scan = omega arith;
  limit = omega arith;
  null_used = refl;
}

full-IsValid : IsValid full
unfolding Bitmap.get Bitmap.get_bit
full-IsValid = record {
  bytes = λ i. ground arith;
  scan = omega arith;
  limit = omega arith;
  null_used = refl;
}

alloc_lem_example : Got small 2 (alloc small 2) ⊎ Failed small 2 (alloc small 2)
alloc_lem_example = alloc_lem small 2 small-IsValid (omega arith)

small_has_pages : (alloc small 2).0 ≢ 0
small_has_pages e = elim alloc_lem_example [
  | inl (page, at, pos, _, _, _) ↦ omega (arith, at, pos, e)
  | inr (z, same, no_run) ↦ no_run 1 (omega arith) second_clear
]

full_used : (i : ℕ) → i < 8 → Bitmap.get full.bitmap i ≡ true
unfolding Bitmap.get Bitmap.get_bit holds_under
full_used i h = holds_at 8 (λ i. Bitmap.get full.bitmap i) refl i h

alloc_beyond_example : (8 * 1 ≤ (alloc full 1).0 / page_size) × ((alloc full 1).0 ≢ 0)
unfolding Bitmap.get Bitmap.get_bit
alloc_beyond_example = alloc_beyond full 1 full-IsValid 8 full_used (omega arith) refl refl

-- One slab of the smallest class, at the page 8192, with two free blocks.
abbrev heap : Heap
heap = record {
  headers = λ a. record { slab_size = 8; free_block = 8216; next = 0 };
  links = λ a. if a == 8216 then 8224 else 0;
  pmm = small;
  slabs = λ n. 8192;
}

heap-HasFree : HasFree 8192 heap (8216 ∷ 8224 ∷ [])
heap-HasFree = (refl, omega arith, (refl, omega arith, (refl, tt)))

page_aligned : (alloc small 1).0 % page_size ≡ 0
page_aligned = elim (alloc_lem small 1 small-IsValid (omega arith)) [
  | inl (page, at, _, _, _, _) ↦ omega (arith, at)
  | inr (z, same, no_run) ↦ omega (arith, z)
]

slab_aligned : (new_slab 0 8 heap).0 % page_size ≡ 0
unfolding new_slab Pmm.calloc
slab_aligned = elim (Bool-cases ((alloc small 1).0 == 0)) [
  | inl e ↦ rw e (omega (arith, page_aligned))
  | inr e ↦ rw e (omega (arith, page_aligned))
]

-- Three runs are asked for, and the first is given back before the third.
serve_all-Counts_example :
    let (held, q) =
      Runs.serve_all (Runs.take 2 ∷ Runs.take 1 ∷ Runs.give 1 ∷ Runs.take 3 ∷ []) [] small in
    IsValid q × ((i : ℕ) → used small i + owners held i ≡ used q i)
serve_all-Counts_example =
    serve_all-Counts (Runs.take 2 ∷ Runs.take 1 ∷ Runs.give 1 ∷ Runs.take 3 ∷ []) small
      small-IsValid

-- Both blocks are taken, the first is given back, and taken again.
serve_each-Kept_example :
    Kept 0 0 8192
      (8216 ∷ 8224 ∷ [])
      (Requests.take 5 ∷ Requests.take 8 ∷ Requests.give 1 ∷ Requests.take 1 ∷ [])
      []
      heap
unfolding class_of is_class
serve_each-Kept_example =
    serve_each-Kept 0 0 8 heap (8216 ∷ 8224 ∷ []) refl refl heap-HasFree
      (
        (omega arith, omega arith, omega arith, refl),
        ((omega arith, omega arith, omega arith, refl), tt),
      )
      (λ a. ground arith)
      (Requests.take 5 ∷ Requests.take 8 ∷ Requests.give 1 ∷ Requests.take 1 ∷ [])
      (refl, omega arith, (refl, omega arith, (refl, omega arith, tt)))

serve_each-new_static_example :
    let slab = (new_slab 0 8 heap).0 in
    Kept 0 0 slab
      (blocks slab 8 0 (max_blocks 8))
      (Requests.take 5 ∷ Requests.take 8 ∷ Requests.give 0 ∷ Requests.take 1 ∷ [])
      []
      (new_static 0 8 heap)
unfolding class_of is_class
serve_each-new_static_example =
    serve_each-new_static 0 0 8 heap refl slab_aligned
      (Requests.take 5 ∷ Requests.take 8 ∷ Requests.give 0 ∷ Requests.take 1 ∷ [])
      (refl, omega arith, (refl, omega arith, (refl, omega arith, tt)))
