-- ===== src/Memory/Vmm.antt =====
-- src/kernel/memory/vmm.cpp and vmm.hpp: the page tables of four levels. `words` is memory by words of
-- 64 bits, at their addresses, and the null pointer is address 0.
pub mod Start
pub mod Entry
pub mod Walk
use Prim.Native.Nat.{bit_and, bit_or}
use umbra_os.Prelude.{
  ℕ, zero, suc, ◌+◌, ◌-◌, ◌*◌, ◌/◌, ◌%◌, ◌^◌, Bool, true, false, ◌==◌, if◌then◌else◌, ltb, leb,
  ◌&&◌,
}
use umbra_os.Prelude.Maps.{update}
use umbra_os.Memory.Pmm
use umbra_os.Memory.Pmm.{Pmm, page_size, phys_to_virt}

abbrev pub pte_present : ℕ
pte_present = 1

abbrev pub pte_writable : ℕ
pte_writable = 2

abbrev pub pte_user : ℕ
pte_user = 4

abbrev pub pte_nx : ℕ
pte_nx = 2 ^ 63

-- `PTE_GET_ADDR`.
abbrev pub pte_get_addr : ℕ → ℕ
pte_get_addr value = bit_and value 0x000ffffffffff000

abbrev pub is_present : ℕ → Bool
is_present value = if bit_and value pte_present == 0 then false else true

-- `&table[idx]`.
abbrev pub entry : ℕ → ℕ → ℕ
entry table idx = table + 8 * idx

-- The state that paging works on.
pub record Tables : Type 0 where
  pub words : ℕ → ℕ
  pub pmm : Pmm

-- The index into a table of level 1 to 4.
abbrev pub offset_of : ℕ → ℕ → ℕ
offset_of level virt_addr = virt_addr / 2 ^ (3 + 9 * level) % 2 ^ 9

module _ (hhdm : ℕ) where
  unfoldable pub get_next_level : ℕ → ℕ → Bool → Tables → ℕ × Tables
  get_next_level top_level idx allocate s =
      let value = s.words (entry top_level idx) in
      let (next_level, pmm, words) = Pmm.calloc hhdm s.pmm s.words 1 in
      let flags = pte_present + pte_writable + pte_user in
      let linked = update words (entry top_level idx) (bit_or next_level flags) in
      if is_present value
      then (phys_to_virt hhdm (pte_get_addr value), s)
      else if allocate
      then (if next_level == 0
          then (0, record { words = words; pmm = pmm })
          else (phys_to_virt hhdm next_level, record { words = linked; pmm = pmm }))
      else (0, s)

  -- The address of the entry, or null when there is no memory for a table.
  unfoldable pub virt_to_pte : ℕ → ℕ → Tables → ℕ × Tables
  virt_to_pte pml4 virt_addr s =
      let (pml3, s3) = get_next_level pml4 (offset_of 4 virt_addr) true s in
      let (pml2, s2) = get_next_level pml3 (offset_of 3 virt_addr) true s3 in
      let (pml1, s1) = get_next_level pml2 (offset_of 2 virt_addr) true s2 in
      if pml3 == 0
      then (0, s3)
      else if pml2 == 0
      then (0, s2)
      else if pml1 == 0
      then (0, s1)
      else (entry pml1 (offset_of 1 virt_addr), s1)

  unfoldable pub map : ℕ → ℕ → ℕ → ℕ → Tables → Tables
  map pml4 virt_addr phys_addr flags s =
      let (pte, s') = virt_to_pte pml4 virt_addr s in
      if pte == 0
      then s'
      else if is_present (s'.words pte)
      then s'
      else record s' { words = update s'.words pte (bit_or phys_addr flags) }

  -- `for (i = 0; i < pages * PAGE_SIZE; i += PAGE_SIZE)`, with `rounds` left.
  unfoldable pub map_from : ℕ → ℕ → ℕ → ℕ → ℕ → ℕ → Tables → Tables
  map_from pml4 virt_addr phys_addr zero i flags s = s
  map_from pml4 virt_addr phys_addr (suc rounds) i flags s =
      map_from pml4 virt_addr phys_addr rounds (i + page_size) flags
        (map pml4 ((virt_addr + i) % 2 ^ 64) ((phys_addr + i) % 2 ^ 64) flags s)

  unfoldable pub map_range : ℕ → ℕ → ℕ → ℕ → ℕ → Tables → Tables
  map_range pml4 virt_addr phys_addr pages flags s =
      map_from pml4 virt_addr phys_addr pages 0 flags s

  -- `UINT64_MAX` when the address is not mapped. The walk makes the tables that are missing.
  unfoldable pub virt_to_phys : ℕ → ℕ → Tables → ℕ × Tables
  virt_to_phys pml4 virt_addr s =
      let (pte, s') = virt_to_pte pml4 virt_addr s in
      if pte == 0
      then (2 ^ 64 - 1, s')
      else if is_present (s'.words pte)
      then (pte_get_addr (s'.words pte), s')
      else (2 ^ 64 - 1, s')

  -- The loop of `destroy_pml` over the entries of a table, with what destroys a table below.
  unfoldable pub destroy_entries : (ℕ → Tables → Tables) → ℕ → ℕ → ℕ → Tables → Tables
  destroy_entries below pml zero i s = s
  destroy_entries below pml (suc rounds) i s =
      let next_pml = (get_next_level pml i false s).0 in
      destroy_entries below pml rounds (i + 1) (if next_pml == 0 then s else below next_pml s)

  unfoldable pub destroy_pml : ℕ → ℕ → ℕ → ℕ → Tables → Tables
  destroy_pml zero pml start rounds s = s
  destroy_pml (suc level) pml start rounds s =
      let below : ℕ → Tables → Tables = λ next_pml. destroy_pml level next_pml 0 512 in
      let s' = destroy_entries below pml rounds start s in
      record s' { pmm = Pmm.free s'.pmm (Pmm.virt_to_phys hhdm pml) 1 }

  -- `~AddressSpace`: the lower half.
  unfoldable pub destroy : ℕ → Tables → Tables
  destroy pml4 s = destroy_pml 4 pml4 0 256 s

-- The loop of `new_space`: the upper half is the kernel's.
unfoldable pub share_upper : ℕ → ℕ → ℕ → ℕ → (ℕ → ℕ) → ℕ → ℕ
share_upper pml4 kernel_pml4 zero i words = words
share_upper pml4 kernel_pml4 (suc rounds) i words =
    share_upper pml4 kernel_pml4 rounds (i + 1)
      (update words (entry pml4 i) (words (entry kernel_pml4 i)))

unfoldable pub new_space : ℕ → ℕ → Tables → ℕ × Tables
new_space hhdm kernel_pml4 s =
    let (page, pmm, words) = Pmm.calloc hhdm s.pmm s.words 1 in
    let pml4 = phys_to_virt hhdm page in
    (pml4, record { words = share_upper pml4 kernel_pml4 256 256 words; pmm = pmm })
