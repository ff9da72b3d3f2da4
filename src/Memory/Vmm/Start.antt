-- ===== src/Memory/Vmm/Start.antt =====
-- src/kernel/memory/vmm.cpp: `init`, which builds the kernel's address space, and the loops it runs. The sections'
-- addresses are the linker's, and the two bases and the memory map the boot loader's.
use umbra_os.Prelude.{
  ℕ, zero, suc, ◌+◌, ◌-◌, ◌*◌, ◌%◌, ◌^◌, ◌≤◌, ◌≡◌, refl, true, ltb, leb, if◌then◌else◌, List, [],
  ◌∷◌, Outcome, done, out_of_fuel, ◌>>=◌, arith, Bool-cases, inl, inr, ltb→lt,
}
use umbra_os.Memory.Pmm
use umbra_os.Memory.Pmm.{MemmapEntry, page_size, phys_to_virt, align_down}
use umbra_os.Memory.Vmm.{Tables, get_next_level, map, pte_present, pte_writable, pte_nx}

pub record Image : Type 0 where
  pub text_start : ℕ
  pub text_end : ℕ
  pub rodata_start : ℕ
  pub rodata_end : ℕ
  pub data_start : ℕ
  pub data_end : ℕ
  pub virtual_base : ℕ
  pub physical_base : ℕ

-- `ALIGN_UP(addr, PAGE_SIZE)` in words.
abbrev pub page_up : ℕ → ℕ
page_up addr = align_down ((addr + (page_size - 1)) % 2 ^ 64) page_size

abbrev pub page_down : ℕ → ℕ
page_down addr = align_down addr page_size

-- `IO_TO_PHYS`.
abbrev pub io_to_phys : Image → ℕ → ℕ
io_to_phys image addr = (addr + (2 ^ 64 - image.virtual_base) + image.physical_base) % 2 ^ 64

-- `for (addr = ...; addr < end_addr; addr += PAGE_SIZE)`, with what the body does to the tables.
unfoldable pub pages_from : (ℕ → Tables → Tables) → ℕ → ℕ → ℕ → Tables → Outcome Tables
pages_from body zero addr end_addr s = out_of_fuel
pages_from body (suc fuel) addr end_addr s =
    let on = pages_from body fuel ((addr + page_size) % 2 ^ 64) end_addr (body addr s) in
    if ltb addr end_addr then on else done s

module _ (hhdm : ℕ) (image : Image) (fuel : ℕ) where
  unfoldable pub map_io_range : ℕ → ℕ → ℕ → ℕ → Tables → Outcome Tables
  map_io_range pml4 start_addr end_addr flags s =
      pages_from (λ addr. map hhdm pml4 addr (io_to_phys image addr) flags) fuel start_addr end_addr
        s

  -- The tables of the upper half, from an index on.
  unfoldable pub upper_levels : ℕ → ℕ → ℕ → Tables → Tables
  upper_levels pml4 zero i s = s
  upper_levels pml4 (suc rounds) i s =
      upper_levels pml4 rounds (i + 1) (get_next_level hhdm pml4 i true s).1

  abbrev pub device_flags : ℕ
  device_flags = pte_present + pte_writable + pte_nx

  abbrev pub map_direct : ℕ → ℕ → Tables → Tables
  map_direct pml4 addr s = map hhdm pml4 (phys_to_virt hhdm addr) addr device_flags s

  -- The body of the loop over an entry's pages.
  unfoldable pub map_high : ℕ → ℕ → Tables → Tables
  map_high pml4 addr s = if ltb addr 0x100000000 then s else map_direct pml4 addr s

  unfoldable pub map_entries : ℕ → List MemmapEntry → Tables → Outcome Tables
  map_entries pml4 [] s = done s
  map_entries pml4 (e ∷ es) s =
      let top = page_up ((e.base + e.len) % 2 ^ 64) in
      let mapped =
        pages_from (map_high pml4) fuel (page_down e.base) top s >>= map_entries pml4 es in
      let skipped = map_entries pml4 es s in if leb top 0x100000000 then skipped else mapped

  -- `init` up to the load of the new space: its top table, and the state.
  unfoldable pub init : List MemmapEntry → Tables → Outcome (ℕ × Tables)
  init memmap s = do
    let fresh = Pmm.calloc hhdm s.pmm s.words 1
    let pml4 = phys_to_virt hhdm fresh.0
    let upper = upper_levels pml4 256 256 (record { words = fresh.2; pmm = fresh.1 })
    text ← map_io_range pml4 (page_down image.text_start) (page_up image.text_end) pte_present upper
    rodata ←
        map_io_range pml4 (page_down image.rodata_start) (page_up image.rodata_end)
          (pte_present + pte_nx) text
    data' ←
        map_io_range pml4 (page_down image.data_start) (page_up image.data_end) device_flags rodata
    low ← pages_from (map_direct pml4) fuel 0x1000 0x100000000 data'
    high ← map_entries pml4 memmap low
    done (pml4, high)

-- A loop over pages up to an address that leaves room for one more ends within one round for each page and one
-- more.
pages_from-done :
    (body : ℕ → Tables → Tables) (fuel addr end_addr : ℕ) (s : Tables)
    → end_addr + page_size ≤ 2 ^ 64
    → end_addr ≤ addr + fuel * page_size
    → (r : Tables) × (pages_from body (suc fuel) addr end_addr s ≡ done r)
unfolding pages_from
pages_from-done body zero addr end_addr s room enough = elim (Bool-cases (ltb addr end_addr)) [
  | inl l ↦ absurd (omega (arith, ltb→lt addr end_addr l, enough))
  | inr g ↦ (s, rw g refl)
]
pages_from-done body (suc fuel) addr end_addr s room enough =
    elim (Bool-cases (ltb addr end_addr)) [
      | inl l ↦
          let below = ltb→lt addr end_addr l in
          let next : (addr + page_size) % 2 ^ 64 ≡ addr + page_size = omega (arith, below, room) in
          let (r, e) =
            pages_from-done body fuel ((addr + page_size) % 2 ^ 64) end_addr (body addr s) room
              (omega (arith, enough, next)) in
          (r, rw l e)
      | inr g ↦ (s, rw g refl)
    ]
