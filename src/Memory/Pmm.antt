-- ===== src/Memory/Pmm.antt =====
-- src/kernel/memory/pmm.cpp and pmm.hpp: the physical page allocator over a bitmap. An address is a
-- number, and 0 is the null pointer. The lock is taken and released inside each call, which runs to
-- its end on one processor; it is no part of the state here.
pub mod Search
pub mod Alloc
pub mod Release
pub mod Entries
pub mod Start
pub mod Runs
use umbra_os.Prelude.{
  ℕ, zero, suc, ◌+◌, ◌-◌, ◌*◌, ◌/◌, ◌%◌, ◌^◌, Bool, true, false, Option, none, some, not, ◌==◌, ltb,
  leb, if◌then◌else◌, List, [], ◌∷◌, ◌&&◌,
}
use umbra_os.Utils.Bitmap
use umbra_os.Utils.Bitmap.{Bitmap}

abbrev pub page_size : ℕ
page_size = 4 * 1024

-- `ALIGN_UP` and `ALIGN_DOWN`, for an alignment that is a power of two.
abbrev pub align_down : ℕ → ℕ → ℕ
align_down addr align = addr - addr % align

abbrev pub align_up : ℕ → ℕ → ℕ
align_up addr align = align_down (addr + align - 1) align

-- The statics of the file.
pub record Pmm : Type 0 where
  pub bitmap : Bitmap
  pub last_page_idx : ℕ

-- An entry of the memory map that the boot loader hands over.
pub record MemmapEntry : Type 0 where
  pub base : ℕ
  pub len : ℕ
  pub usable : Bool

-- The first loop of `init`: the end of the highest usable entry.
abbrev pub max : ℕ → ℕ → ℕ
max a b = if ltb b a then a else b

unfoldable pub highest_addr : ℕ → List MemmapEntry → ℕ
highest_addr acc [] = acc
highest_addr acc (e ∷ es) =
    highest_addr (if e.usable then max acc ((e.base + e.len) % 2 ^ 64) else acc) es

-- The size of the bitmap, in bytes.
unfoldable pub bitmap_size : List MemmapEntry → ℕ
bitmap_size es = align_up (highest_addr 0 es / page_size / 8) page_size

-- The second loop: the bitmap goes to the start of the first usable entry that has room for it, and
-- the entry shrinks by as much. The first component is where it was put.
unfoldable pub place : ℕ → List MemmapEntry → Option ℕ × List MemmapEntry
place size [] = (none, [])
place size (e ∷ es) =
    let (at, rest) = place size es in
    if e.usable && leb size e.len
    then (some e.base, record e { base = e.base + size; len = e.len - size } ∷ es)
    else (at, e ∷ rest)

-- `set` for `rounds` pages from `page` on.
unfoldable pub mark : Bool → ℕ → ℕ → Bitmap → Bitmap
mark value zero page b = b
mark value (suc rounds) page b = mark value rounds (page + 1) (Bitmap.set b page value)

-- The third loop: `for (j = 0; j < length; j += PAGE_SIZE) set((base + j) / PAGE_SIZE, false)`,
-- which runs once for each started page of the entry.
free_entry : ℕ → ℕ → ℕ → Bitmap → Bitmap
free_entry zero base j b = b
free_entry (suc rounds) base j b =
    free_entry rounds base (j + page_size) (Bitmap.set b ((base + j) / page_size) false)

unfoldable pub free_entries : List MemmapEntry → Bitmap → Bitmap
unfolding free_entry
free_entries [] b = b
free_entries (e ∷ es) b =
    free_entries es
      (if e.usable then free_entry ((e.len + page_size - 1) / page_size) e.base 0 b else b)

-- `memset(bitmap.data, 0xff, bitmap.size)`.
unfoldable pub filled : ℕ → (ℕ → ℕ) → ℕ → ℕ
filled size memory i = if ltb i size then 0xff else memory i

-- `init`. `memory at` is what lies behind the place that was found. With no place found the data
-- pointer is null and the run has no meaning.
unfoldable pub init : (ℕ → ℕ → ℕ) → List MemmapEntry → Option Pmm
init memory es =
    let size = bitmap_size es in
    let (at, es') = place size es in
    elim at [
      | none ↦ none
      | some base ↦ some (record {
        bitmap = free_entries es' (record { bytes = filled size (memory base); size = size });
        last_page_idx = 0;
      })
    ]

-- The loop of `inner_alloc`, with `fuel` pages left before `limit` and a run of `acc` free pages
-- behind it. It answers with the first page of the run, which it has marked.
pub record Found : Type 0 where
  pub page : Option ℕ
  pub after : Pmm

unfoldable pub search_from : ℕ → ℕ → ℕ → ℕ → Bitmap → Found
search_from zero pages last acc b = record {
  page = none;
  after = record { bitmap = b; last_page_idx = last };
}
search_from (suc fuel) pages last acc b =
    let on = search_from fuel pages (last + 1) (acc + 1) b in
    let reset = search_from fuel pages (last + 1) 0 b in
    if Bitmap.get b last
    then reset
    else if acc + 1 == pages
    then record {
      page = some (last + 1 - pages);
      after = record { bitmap = mark true pages (last + 1 - pages) b; last_page_idx = last + 1 };
    }
    else on

-- `page * PAGE_SIZE` as a pointer.
abbrev pub to_addr : Option ℕ → ℕ
to_addr none = 0
to_addr (some page) = page * page_size % 2 ^ 64

-- `inner_alloc`: a run below `limit`, from `last_page_idx` on.
unfoldable pub search : Pmm → ℕ → ℕ → Found
search p pages limit = search_from (limit - p.last_page_idx) pages p.last_page_idx 0 p.bitmap

unfoldable pub inner_alloc : Pmm → ℕ → ℕ → ℕ × Pmm
inner_alloc p pages limit = let found = search p pages limit in (to_addr found.page, found.after)

-- The bound that `alloc` passes on: `bitmap.size * PAGE_SIZE`.
abbrev pub limit_of : Pmm → ℕ
limit_of p = p.bitmap.size * page_size % 2 ^ 64

unfoldable pub alloc : Pmm → ℕ → ℕ × Pmm
alloc p pages =
    let (addr, q) = inner_alloc p pages (limit_of p) in
    let retry = inner_alloc (record q { last_page_idx = 0 }) pages q.last_page_idx in
    if pages == 0 then (0, p) else if addr == 0 then retry else (addr, q)

unfoldable pub free : Pmm → ℕ → ℕ → Pmm
free p addr pages = record p { bitmap = mark false pages (addr / page_size) p.bitmap }

-- `calloc`: `memset` clears the pages behind the direct map, in the memory that is handed in.
unfoldable pub zeroed : (ℕ → ℕ) → ℕ → ℕ → ℕ → ℕ
zeroed memory start n a = if leb start a && ltb a (start + n) then 0 else memory a

-- `PHYS_TO_VIRT` and `VIRT_TO_PHYS`, by the offset that the boot loader chose.
abbrev pub phys_to_virt : ℕ → ℕ → ℕ
phys_to_virt hhdm addr = (addr + hhdm) % 2 ^ 64

abbrev pub virt_to_phys : ℕ → ℕ → ℕ
virt_to_phys hhdm addr = (addr + 2 ^ 64 - hhdm) % 2 ^ 64

unfoldable pub calloc : ℕ → Pmm → (ℕ → ℕ) → ℕ → ℕ × Pmm × (ℕ → ℕ)
calloc hhdm p memory pages =
    let (ret, q) = alloc p pages in
    let cleared = zeroed memory (phys_to_virt hhdm ret) (pages * page_size) in
    if pages == 0 then (0, p, memory) else if ret == 0 then (ret, q, memory) else (ret, q, cleared)
