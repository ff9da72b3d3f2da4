-- ===== src/Fs/Elf.antt =====
-- src/kernel/elf.cpp: a program's segments, read from a file into new pages. The layout and the numbers of <elf.h>
-- are a parameter. Page tables are kept apart from the memory that files are read into.
use umbra_os.Prelude.{
  ℕ, zero, suc, ◌+◌, ◌-◌, ◌*◌, ◌/◌, ◌%◌, ◌^◌, Bool, true, false, not, ◌&&◌, ◌||◌, Option, some,
  ◌==◌, if◌then◌else◌,
}
use umbra_os.Libc.Strings.{Bytes, memcmp, Sign, same}
use umbra_os.Memory.Pmm
use umbra_os.Memory.Pmm.{page_size, phys_to_virt}
use umbra_os.Memory.Vmm
use umbra_os.Memory.Vmm.{Tables, pte_present, pte_writable, pte_user, pte_nx}
use umbra_os.Kernel.Calls.{widened}
use umbra_os.Fs.Vfs.{Vfs, from_start}
use umbra_os.Fs.Vfs

-- The fields of `Elf64_Ehdr` and `Elf64_Phdr` that are read.
pub record Ehdr : Type 0 where
  pub class : ℕ
  pub byte_order : ℕ
  pub osabi : ℕ
  pub ident_version : ℕ
  pub e_machine : ℕ
  pub e_version : ℕ
  pub e_ehsize : ℕ
  pub e_phnum : ℕ
  pub e_phoff : ℕ
  pub e_phentsize : ℕ
  pub e_entry : ℕ

pub record Phdr : Type 0 where
  pub p_type : ℕ
  pub p_writable : Bool
  pub p_executable : Bool
  pub p_vaddr : ℕ
  pub p_memsz : ℕ
  pub p_offset : ℕ
  pub p_filesz : ℕ

pub record Layout : Type 0 where
  pub ehdr : Bytes → ℕ → Ehdr
  pub phdr : Bytes → ℕ → Phdr
  pub ehdr_size : ℕ
  pub phdr_size : ℕ
  pub elfclass64 : ℕ
  pub elfdata2lsb : ℕ
  pub elfosabi_sysv : ℕ
  pub ev_current : ℕ
  pub em_x86_64 : ℕ
  pub pt_load : ℕ
  pub pt_phdr : ℕ
  pub pt_interp : ℕ

unfoldable pub validate : Layout → Ehdr → Bool
validate l h =
    h.class == l.elfclass64
    && (h.byte_order == l.elfdata2lsb)
    && (h.osabi == l.elfosabi_sysv)
    && (h.ident_version == l.ev_current)
    && (h.e_machine == l.em_x86_64)
    && (h.e_version == l.ev_current)
    && (h.e_ehsize == l.ehdr_size)

pub record Auxval : Type 0 where
  pub at_entry : ℕ
  pub at_phdr : ℕ
  pub at_phent : ℕ
  pub at_phnum : ℕ

-- The file system, the address space, the auxiliary vector, and the path that is handed out, if it is asked for.
pub record Loading : Type 0 where
  pub vfs : Vfs
  pub tables : Tables
  pub pml4 : ℕ
  pub auxv : Auxval
  pub ld_path : Option ℕ

-- `prot` is an `int`.
abbrev pub protection : Phdr → ℕ
protection p =
    let base = pte_present + pte_user in
    let written = if p.p_writable then base + pte_writable else base in
    widened (if p.p_executable then written else (written + pte_nx) % 2 ^ 32)

abbrev pub misalign : Phdr → ℕ
misalign p = p.p_vaddr % page_size

abbrev pub page_count : Phdr → ℕ
page_count p = (p.p_memsz + misalign p + (page_size - 1)) % 2 ^ 64 / page_size

-- `Vfs::seek` and `Vfs::read`.
abbrev pub read_at : ℕ → ℕ → ℕ → ℕ → Vfs → ℕ × Vfs
read_at fd offset buffer length v = Vfs.read fd buffer length (Vfs.seek fd offset from_start v)

abbrev pub is_same : Sign → Bool
is_same same = true
is_same _ = false

module _ (l : Layout) (hhdm load_base fd : ℕ) where
  -- The case of PT_LOAD: false where the source returns.
  unfoldable pub load_segment : Phdr → Loading → Bool × Loading
  load_segment p s =
      let (phys, pmm, words) = Pmm.calloc hhdm s.tables.pmm s.tables.words (page_count p) in
      let held : Tables = record { words = words; pmm = pmm } in
      let mapped =
        Vmm.map_range hhdm s.pml4 ((p.p_vaddr + load_base) % 2 ^ 64) phys (page_count p)
          (protection p) held in
      let (bytes, v) =
        read_at fd p.p_offset (phys_to_virt hhdm (phys + misalign p)) p.p_filesz s.vfs in
      if phys == 0
      then (false, record s { tables = held })
      else (not (bytes == 0), record s { tables = mapped; vfs = v })

  -- The case of PT_INTERP, at the address that `kcalloc` returns. `wanted` says that `ld_path` is not null.
  unfoldable pub load_interp : ℕ → Bool → Phdr → Loading → Bool × Loading
  load_interp path wanted p s =
      let (bytes, v) = read_at fd p.p_offset path p.p_filesz s.vfs in
      if path == 0
      then (false, s)
      else if bytes == 0
      then (false, record s { vfs = v })
      else (true, record s { vfs = v; ld_path = if wanted then some path else s.ld_path })

  unfoldable pub load_header : ℕ → Bool → Phdr → Loading → Bool × Loading
  load_header path wanted p s =
      if p.p_type == l.pt_load
      then load_segment p s
      else if p.p_type == l.pt_phdr
      then (
        true,
        record s { auxv = record (s.auxv) { at_phdr = (p.p_vaddr + load_base) % 2 ^ 64 } },
      )
      else if p.p_type == l.pt_interp
      then load_interp path wanted p s
      else (true, s)

  -- The loop from header `i` on. `at` is the address of the local `phdr`.
  unfoldable pub load_headers : ℕ → Ehdr → ℕ → (ℕ → ℕ) → Bool → ℕ → Loading → Bool × Loading
  load_headers zero h at path wanted i s = (true, s)
  load_headers (suc rounds) h at path wanted i s =
      let (bytes, v) = read_at fd ((h.e_phoff + i * h.e_phentsize) % 2 ^ 64) at l.phdr_size s.vfs in
      let (ok, s') = load_header (path i) wanted (l.phdr v.memory at) (record s { vfs = v }) in
      let rest = load_headers rounds h at path wanted (i + 1) s' in
      if bytes == 0 then (false, record s { vfs = v }) else if ok then rest else (false, s')

  abbrev pub finished : Ehdr → Loading → Loading
  finished h s = record s {
    auxv = record (s.auxv) {
      at_entry = (h.e_entry + load_base) % 2 ^ 64;
      at_phent = h.e_phentsize;
      at_phnum = h.e_phnum;
    };
  }

  -- `load`. `header` and `at` are the addresses of the two locals, and `elfmag` that of the literal.
  unfoldable pub load : ℕ → ℕ → ℕ → (ℕ → ℕ) → Bool → Loading → Bool × Loading
  load header at elfmag path wanted s =
      let (bytes, v) = Vfs.read fd header l.ehdr_size s.vfs in
      let h = l.ehdr v.memory header in
      let s' = record s { vfs = v } in
      let (ok, end) = load_headers h.e_phnum h at path wanted 0 s' in
      if bytes == 0 || not (is_same (memcmp v.memory header elfmag 4))
      then (false, s')
      else if validate l h
      then (if ok then (true, finished h end) else (false, end))
      else (false, s')
