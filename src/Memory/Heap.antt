-- ===== src/Memory/Heap.antt =====
-- src/kernel/memory/heap.cpp and heap.hpp: the slab allocator behind `new` and `delete`. A slab is
-- one page: a header, then blocks of one size, the free ones linked through their first word. The
-- slab lock is held inside each call only, and is no part of the state.
pub mod Slab
pub mod Classes
pub mod Requests
pub mod Served
pub mod Fresh
pub mod Blocks
use umbra_os.Prelude.{
  ℕ, zero, suc, ◌+◌, ◌-◌, ◌*◌, ◌/◌, ◌%◌, ◌^◌, Option, none, some, ◌==◌, ltb, leb, if◌then◌else◌,
  Outcome, done, fault, out_of_fuel, ◌>>=◌, Bool, true, false,
}
use umbra_os.Prelude.Maps.{update}
use umbra_os.Memory.Pmm.{Pmm, page_size, align_up, align_down, phys_to_virt, virt_to_phys}
use umbra_os.Memory.Pmm
use umbra_os.Libc.Strings.{Bytes, memset}

pub record SlabHeader : Type 0 where
  pub slab_size : ℕ
  pub free_block : ℕ
  pub next : ℕ

-- `headers a` is the header at address `a`, `links a` the `next` word of the block at `a`, and
-- `slabs n` the static `slab_<n>b`.
pub record Heap : Type 0 where
  pub headers : ℕ → SlabHeader
  pub links : ℕ → ℕ
  pub pmm : Pmm
  pub slabs : ℕ → ℕ

-- `sizeof(SlabHeader)`.
abbrev pub header_size : ℕ
header_size = 24

-- `MAX_BLOCKS`.
abbrev pub max_blocks : ℕ → ℕ
max_blocks slab_size = (page_size - header_size) / slab_size

-- Where `blocks` stands in a `Slab`: behind the header and its padding.
abbrev pub blocks_offset : ℕ → ℕ
blocks_offset slab_size =
    header_size + (if ltb header_size slab_size then slab_size - header_size else 0)

-- `&slab->blocks[i]`.
abbrev pub block_addr : ℕ → ℕ → ℕ → ℕ
block_addr slab slab_size i = slab + blocks_offset slab_size + i * slab_size

-- The loop of `new_slab` that links each block to the next, with `rounds` blocks left, and the
-- write behind it that ends the list.
unfoldable pub link_blocks : ℕ → ℕ → ℕ → ℕ → (ℕ → ℕ) → ℕ → ℕ
link_blocks slab slab_size zero i links = update links (block_addr slab slab_size i) 0
link_blocks slab slab_size (suc rounds) i links =
    link_blocks slab slab_size rounds (i + 1)
      (update links (block_addr slab slab_size i) (block_addr slab slab_size (i + 1)))

abbrev pub set_next : Heap → ℕ → ℕ → Heap
set_next h slab q = record h {
  headers = update h.headers slab (record (h.headers slab) { next = q });
}

abbrev pub set_free : Heap → ℕ → ℕ → Heap
set_free h slab b = record h {
  headers = update h.headers slab (record (h.headers slab) { free_block = b });
}

-- `Slab::free`.
unfoldable pub slab_free : ℕ → ℕ → Heap → Heap
slab_free slab addr h =
    set_free (record h { links = update h.links addr (h.headers slab).free_block }) slab addr

-- The `if` ladder of `kmalloc`: the class of a request, or none if the pages are allocated directly.
unfoldable pub class_of : ℕ → Option ℕ
class_of size =
    if leb size 8
    then some 8
    else if leb size 16
    then some 16
    else if leb size 32
    then some 32
    else if leb size 64
    then some 64
    else if leb size 128
    then some 128
    else if leb size 256
    then some 256
    else if leb size 512
    then some 512
    else none

-- The `switch` of `kfree`.
unfoldable pub is_class : ℕ → Bool
is_class n =
    if n == 8
    then true
    else if n == 16
    then true
    else if n == 32
    then true
    else if n == 64
    then true
    else if n == 128
    then true
    else if n == 256
    then true
    else n == 512

module _ (hhdm : ℕ) where
  unfoldable pub new_slab : ℕ → Heap → ℕ × Heap
  new_slab slab_size h =
      let (phys, pmm, links) = Pmm.calloc hhdm h.pmm h.links 1 in
      let slab = phys_to_virt hhdm phys in
      let header : SlabHeader = record {
        slab_size = slab_size;
        free_block = block_addr slab slab_size 0;
        next = 0;
      } in
      (
        slab,
        record h {
          headers = update h.headers slab header;
          links = link_blocks slab slab_size (max_blocks slab_size - 1) 0 links;
          pmm = pmm;
        },
      )

  -- The first half of `Slab::alloc` on a full slab: make sure that there is a next one.
  unfoldable pub with_next : ℕ → ℕ → Heap → Heap
  with_next slab_size slab h =
      let (q, h') = new_slab slab_size h in
      if (h.headers slab).next == 0 then set_next h' slab q else h

  -- `Slab::alloc`. The call on the next slab takes one of `fuel`.
  unfoldable pub slab_alloc : ℕ → ℕ → ℕ → Heap → Outcome (ℕ × Heap)
  slab_alloc zero slab_size slab h = out_of_fuel
  slab_alloc (suc fuel) slab_size slab h =
      let h' = with_next slab_size slab h in
      let on = slab_alloc fuel slab_size (h'.headers slab).next h' in
      let block = (h.headers slab).free_block in
      if block == 0 then on else done (block, set_free h slab (h.links block))

  -- The branch of `kmalloc` for a request beyond the classes.
  unfoldable pub kmalloc_pages : ℕ → Heap → ℕ × Heap
  kmalloc_pages size h =
      let pages = align_up size page_size / page_size + 1 in
      let (phys, pmm) = Pmm.alloc h.pmm pages in
      let addr = phys_to_virt hhdm phys in
      (
        (addr + page_size) % 2 ^ 64,
        record h {
          headers = update h.headers addr (record { slab_size = pages; free_block = 0; next = 0 });
          pmm = pmm;
        },
      )

  unfoldable pub kmalloc : ℕ → ℕ → Heap → Outcome (ℕ × Heap)
  kmalloc fuel size h = elim (class_of size) [
    | some c ↦ slab_alloc fuel c (h.slabs c) h
    | none ↦ done (kmalloc_pages size h)
  ]

  unfoldable pub kfree : ℕ → Heap → Heap
  kfree addr h =
      let first = (addr + 2 ^ 64 - page_size) % 2 ^ 64 in
      let page = align_down addr page_size in
      if addr % 2 ^ 12 == 0
      then record h { pmm = Pmm.free h.pmm (virt_to_phys hhdm first) (h.headers first).slab_size }
      else if is_class (h.headers page).slab_size
      then slab_free page addr h
      else h

  -- `kcalloc`, with the bytes behind the blocks. Nothing asks whether there was memory.
  unfoldable pub kcalloc : ℕ → ℕ → Bytes → Heap → Outcome (ℕ × Bytes × Heap)
  kcalloc fuel size memory h =
      kmalloc fuel size h >>= λ r. done (r.0, memset memory r.0 0 size, r.1)

  -- `operator new` and `operator delete`, for arrays too.
  unfoldable pub operator_new : ℕ → ℕ → Heap → Outcome (ℕ × Heap)
  operator_new fuel size h = kmalloc fuel size h

  unfoldable pub operator_delete : ℕ → Heap → Heap
  operator_delete addr h = kfree addr h

  -- `init`: a slab for each class, the smallest first.
  abbrev pub new_static : ℕ → Heap → Heap
  new_static slab_size h =
      let (slab, h') = new_slab slab_size h in record h' { slabs = update h'.slabs slab_size slab }

  unfoldable pub init : Heap → Heap
  init h = new_static 512 (
      new_static 256
        (new_static 128 (new_static 64 (new_static 32 (new_static 16 (new_static 8 h))))))
