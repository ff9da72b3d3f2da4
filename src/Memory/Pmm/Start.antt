-- ===== src/Memory/Pmm/Start.antt =====
-- src/kernel/memory/pmm.cpp: which pages are free after `init`.
use umbra_os.Prelude.{
  ℕ, zero, suc, ◌+◌, ◌-◌, ◌*◌, ◌/◌, ◌%◌, ◌^◌, ◌<◌, ◌≤◌, ◌≡◌, refl, ◌∙◌, Bool, true, false, not,
  some, ltb, if◌then◌else◌, ◌&&◌, List, [], ◌∷◌, arith, inl, inr, Bool-cases, All, lt→ltb,
}
use umbra_os.Prelude.Bits.{holds_under, holds_at}
use umbra_os.Utils.Bitmap
use umbra_os.Utils.Bitmap.{Bitmap, get_bit}
use umbra_os.Utils.Bitmap.Laws.{IsBytes, get-set, set-IsBytes}
use umbra_os.Memory.Pmm.{
  Pmm, MemmapEntry, page_size, highest_addr, bitmap_size, place, free_entry, free_entries, filled,
  init,
}
use umbra_os.Memory.Pmm.Search.{inside}
use umbra_os.Memory.Pmm.Alloc.{IsValid}
use umbra_os.Memory.Pmm.Entries.{
  covers, covered, has_room, IsAligned, Apart, in_bitmap, place_some, covered-place,
}

free_entry-size : (rounds base j : ℕ) (b : Bitmap) → (free_entry rounds base j b).size ≡ b.size
unfolding free_entry Bitmap.set
free_entry-size zero base j b = refl
free_entry-size (suc rounds) base j b =
    free_entry-size rounds base (j + page_size) (Bitmap.set b ((base + j) / page_size) false)

free_entry-IsBytes :
    (rounds base j : ℕ) (b : Bitmap) → IsBytes b → IsBytes (free_entry rounds base j b)
unfolding free_entry
free_entry-IsBytes zero base j b h = h
free_entry-IsBytes (suc rounds) base j b h =
    free_entry-IsBytes rounds base (j + page_size) (Bitmap.set b ((base + j) / page_size) false)
      (set-IsBytes b ((base + j) / page_size) false h)

get-free_entry :
    (rounds base j : ℕ) (b : Bitmap) (i : ℕ)
    → IsBytes b
    → Bitmap.get (free_entry rounds base j b) i
      ≡ (if inside ((base + j) / page_size) rounds i then false else Bitmap.get b i)
unfolding free_entry
get-free_entry zero base j b i h = ground arith
get-free_entry (suc rounds) base j b i h =
    let b' = Bitmap.set b ((base + j) / page_size) false in
    let next : (base + (j + page_size)) / page_size ≡ (base + j) / page_size + 1 = omega arith in
    ground (
      arith,
      next,
      get-free_entry rounds base (j + page_size) b' i
          (set-IsBytes b ((base + j) / page_size) false h),
      get-set b ((base + j) / page_size) false i h,
    )

-- The body of the last loop.
abbrev freed : MemmapEntry → Bitmap → Bitmap
freed e b = if e.usable then free_entry ((e.len + page_size - 1) / page_size) e.base 0 b else b

freed-IsBytes : (e : MemmapEntry) (b : Bitmap) → IsBytes b → IsBytes (freed e b)
freed-IsBytes e b h = elim (Bool-cases e.usable) [
  | inl u ↦ rw u (free_entry-IsBytes ((e.len + page_size - 1) / page_size) e.base 0 b h)
  | inr u ↦ rw u h
]

get-freed :
    (e : MemmapEntry) (b : Bitmap) (i : ℕ)
    → IsBytes b
    → Bitmap.get (freed e b) i ≡ (if covers e i then false else Bitmap.get b i)
get-freed e b i h =
    let start : (e.base + 0) / page_size ≡ e.base / page_size = omega arith in
    ground (arith, start, get-free_entry ((e.len + page_size - 1) / page_size) e.base 0 b i h)

free_entries-IsBytes :
    (es : List MemmapEntry) (b : Bitmap) → IsBytes b → IsBytes (free_entries es b)
unfolding free_entries
free_entries-IsBytes [] b h = h
free_entries-IsBytes (e ∷ es) b h = free_entries-IsBytes es (freed e b) (freed-IsBytes e b h)

get-free_entries :
    (es : List MemmapEntry) (b : Bitmap) (i : ℕ)
    → IsBytes b
    → Bitmap.get (free_entries es b) i ≡ (if covered es i then false else Bitmap.get b i)
unfolding free_entries
get-free_entries [] b i h = refl
get-free_entries (e ∷ es) b i h =
    get-free_entries es (freed e b) i (freed-IsBytes e b h) ∙ ground (arith, get-freed e b i h)

free_entries-size : (es : List MemmapEntry) (b : Bitmap) → (free_entries es b).size ≡ b.size
unfolding free_entries
free_entries-size [] b = refl
free_entries-size (e ∷ es) b = free_entries-size es (freed e b) ∙ one
  where
    one : (freed e b).size ≡ b.size
    one = elim (Bool-cases e.usable) [
      | inl u ↦ rw u (free_entry-size ((e.len + page_size - 1) / page_size) e.base 0 b)
      | inr u ↦ rw u refl
    ]

-- The bitmap before the last loop: every bit of a page that it has room for is set.
abbrev full : ℕ → (ℕ → ℕ) → Bitmap
full size memory = record { bytes = filled size memory; size = size }

ones_table : holds_under 8 (get_bit 0xff) ≡ true
unfolding holds_under get_bit
ones_table = refl

ones : (k : ℕ) → k < 8 → get_bit 0xff k ≡ true
ones k h = holds_at 8 (get_bit 0xff) ones_table k h

bitmap_size-le : (es : List MemmapEntry) → highest_addr 0 es ≤ 2 ^ 52 → bitmap_size es ≤ 2 ^ 37
unfolding bitmap_size
bitmap_size-le es h = omega (arith, h)

get-full :
    (size : ℕ) (memory : ℕ → ℕ) (i : ℕ) → i < 8 * size → Bitmap.get (full size memory) i ≡ true
unfolding Bitmap.get filled
get-full size memory i h =
    let within : ltb (i / 8) size ≡ true = lt→ltb (i / 8) size (omega (arith, h)) in
    rw within (ones (i % 8) (omega arith))

full-IsBytes :
    (size : ℕ) (memory : ℕ → ℕ) → ((a : ℕ) → memory a < 2 ^ 8) → IsBytes (full size memory)
unfolding filled
full-IsBytes size memory h i = ground (arith, h i)

bitmap_size-mod : (es : List MemmapEntry) → bitmap_size es % page_size ≡ 0
unfolding bitmap_size
bitmap_size-mod es = omega arith

-- For a memory map that ends at or below 2 ^ 52 and of which some usable entry has room for a
-- bitmap that is not empty, when the entries begin at multiples of a page, no two cover one page
-- and none covers page 0, `init` leaves a valid allocator. The bitmap stands where `place` puts it,
-- and of the pages that it has a bit for, those are free that a usable entry covers and the bitmap
-- does not take.
pub init_lem :
    (memory : ℕ → ℕ → ℕ) (es : List MemmapEntry)
    → has_room (bitmap_size es) es ≡ true
    → ((base a : ℕ) → memory base a < 2 ^ 8)
    → highest_addr 0 es ≤ 2 ^ 52
    → 0 < bitmap_size es
    → All IsAligned es
    → Apart es
    → covered es 0 ≡ false
    → (p : Pmm) × (base : ℕ) × (init memory es ≡ some p)
      × IsValid p
      × ((place (bitmap_size es) es).0 ≡ some base)
      × ((i : ℕ)
          → i < 8 * bitmap_size es
          → not (Bitmap.get p.bitmap i) ≡ (covered es i && not (in_bitmap base (bitmap_size es) i)))
unfolding init
init_lem memory es room bytes high some_page aligned apart null_out =
    let (base, q) = place_some (bitmap_size es) es room in
    let rest = (place (bitmap_size es) es).1 in
    let size = bitmap_size es in
    let b = full size (memory base) in
    let h = full-IsBytes size (memory base) (bytes base) in
    let left = λ (i : ℕ). covered-place size (bitmap_size-mod es) es base i q aligned apart in
    let reads : (i : ℕ)
        → i < 8 * size
        → not (Bitmap.get (free_entries rest b) i) ≡ (covered es i && not (in_bitmap base size i)) =
      λ i l.
        free_law (Bitmap.get (free_entries rest b) i) (Bitmap.get b i) (covered rest i)
          (get-free_entries rest b i h) (get-full size (memory base) i l)
        ∙ left i in
    let same = free_entries-size rest b in
    (
      record { bitmap = free_entries rest b; last_page_idx = 0 },
      base,
      rw (q, init) refl,
      record {
        bytes = free_entries-IsBytes rest b h;
        scan = omega arith;
        limit = omega (arith, same, bitmap_size-le es high);
        null_used =
            used_law (Bitmap.get (free_entries rest b) 0) (covered es 0) (in_bitmap base size 0)
              (reads 0 (omega (arith, some_page))) null_out;
      },
      q,
      reads,
    )
  where
    free_law : (g f c : Bool) → g ≡ (if c then false else f) → f ≡ true → not g ≡ c
    free_law g f c e t = ground (arith, e, t)

    used_law : (g c b : Bool) → not g ≡ (c && not b) → c ≡ false → g ≡ true
    used_law g c b e f = ground (arith, e, f)
