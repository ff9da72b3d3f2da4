-- ===== src/Kernel/Descriptors.antt =====
-- src/kernel/gdt.hpp, gdt.cpp and idt.hpp: the packed entries of the processor's tables, as the fields that are set.
use umbra_os.Prelude.{
  ℕ, ◌+◌, ◌*◌, ◌/◌, ◌%◌, ◌^◌, ◌<◌, ◌≡◌, List, [], ◌∷◌, arith, refl, ◌==◌, if◌then◌else◌,
}
use umbra_os.Prelude.Maps.{update}
use umbra_os.Memory.Pmm
use umbra_os.Memory.Pmm.{Pmm, page_size, phys_to_virt}

pub record GdtEntry : Type 0 where
  pub limit_low : ℕ
  pub base_low : ℕ
  pub base_mid : ℕ
  pub flags : ℕ
  pub limit_high : ℕ
  pub granularity : ℕ
  pub base_high : ℕ

unfoldable pub gdt_entry : ℕ → ℕ → ℕ → ℕ → GdtEntry
gdt_entry base limit flags granularity = record {
  limit_low = limit % 2 ^ 16;
  base_low = base % 2 ^ 16;
  base_mid = base / 2 ^ 16 % 2 ^ 8;
  flags = flags;
  limit_high = limit / 2 ^ 16 % 2 ^ 4;
  granularity = granularity;
  base_high = base / 2 ^ 24 % 2 ^ 8;
}

-- The segments, before the entry of the task state is filled.
abbrev pub gdt_entries : List GdtEntry
gdt_entries =
    gdt_entry 0 0 0 0
    ∷ gdt_entry 0 0 0b10011011 0b0010
    ∷ gdt_entry 0 0 0b10010011 0b0010
    ∷ gdt_entry 0 0 0b11111011 0b0010
    ∷ gdt_entry 0 0 0b11110011 0b0010
    ∷ gdt_entry 0 0 0 0
    ∷ gdt_entry 0 0 0 0
    ∷ []

pub record GdtSysEntry : Type 0 where
  pub limit_low : ℕ
  pub base0 : ℕ
  pub base1 : ℕ
  pub flags : ℕ
  pub limit_high : ℕ
  pub granularity : ℕ
  pub base2 : ℕ
  pub base3 : ℕ

unfoldable pub gdt_sys_entry : ℕ → ℕ → ℕ → ℕ → GdtSysEntry
gdt_sys_entry base limit flags granularity = record {
  limit_low = limit % 2 ^ 16;
  base0 = base % 2 ^ 16;
  base1 = base / 2 ^ 16 % 2 ^ 8;
  flags = flags;
  limit_high = limit / 2 ^ 16 % 2 ^ 4;
  granularity = granularity;
  base2 = base / 2 ^ 24 % 2 ^ 8;
  base3 = base / 2 ^ 32 % 2 ^ 32;
}

-- The first 8 bytes of a system entry, and the 8 bytes from `base3` on, as entries. Of the latter only the base and
-- the 5 bits `zero` are set; `rest` are the others.
abbrev pub first_half : GdtSysEntry → GdtEntry
first_half e = record {
  limit_low = e.limit_low;
  base_low = e.base0;
  base_mid = e.base1;
  flags = e.flags;
  limit_high = e.limit_high;
  granularity = e.granularity;
  base_high = e.base2;
}

abbrev pub second_half : GdtEntry → GdtSysEntry → GdtEntry
second_half rest e = record rest {
  limit_low = e.base3 % 2 ^ 16;
  base_low = e.base3 / 2 ^ 16;
  flags = rest.flags / 2 ^ 5 * 2 ^ 5;
}

-- The task state: `rsp[0]`, with all else cleared.
pub record Tss : Type 0 where
  pub rsp0 : ℕ

abbrev pub stack_size : ℕ
stack_size = 1024 * 1024

abbrev pub kernel_ds : ℕ
kernel_ds = 0x10

abbrev pub user_cs : ℕ
user_cs = 0x18

abbrev pub user_ds : ℕ
user_ds = 0x20

-- `init_tss`, for a task state at an address: the entries, the task state and the allocator.
unfoldable pub init_tss : ℕ → ℕ → GdtEntry → (ℕ → GdtEntry) → Pmm → (ℕ → GdtEntry) × Tss × Pmm
init_tss hhdm tss rest entries p =
    let (stack, p') = Pmm.alloc p (stack_size / page_size) in
    let tss_entry = gdt_sys_entry tss 0xffff 0b10001001 0 in
    (
      update (update entries 5 (first_half tss_entry)) 6 (second_half rest tss_entry),
      record { rsp0 = phys_to_virt hhdm (stack + stack_size) },
      p',
    )

-- The address and the flags that the processor reads from two entries.
abbrev pub system_base : GdtEntry → GdtEntry → ℕ
system_base a b =
    a.base_low
    + a.base_mid * 2 ^ 16
    + a.base_high * 2 ^ 24
    + (b.limit_low + b.base_low * 2 ^ 16) * 2 ^ 32

-- From the two entries that `init_tss` fills the processor reads the address of the task state,
-- when this has 64 bits, and the flags; every other entry stays as it was.
pub init_tss_lem :
    (hhdm tss : ℕ) (rest : GdtEntry) (entries : ℕ → GdtEntry) (p : Pmm)
    → tss < 2 ^ 64
    → let (entries', t, p') = init_tss hhdm tss rest entries p in
      (system_base (entries' 5) (entries' 6) ≡ tss)
      × ((entries' 5).flags ≡ 0b10001001)
      × ((i : ℕ)
          → entries' i ≡ (if i == 5 then entries' 5 else if i == 6 then entries' 6 else entries i))
unfolding init_tss gdt_sys_entry
init_tss_lem hhdm tss rest entries p h = (omega (arith, h), refl, λ i. ground arith)

pub record IdtEntry : Type 0 where
  pub address_low : ℕ
  pub selector : ℕ
  pub ist : ℕ
  pub flags : ℕ
  pub address_mid : ℕ
  pub address_high : ℕ
  pub reserved : ℕ

abbrev pub kernel_cs : ℕ
kernel_cs = 0x08

unfoldable pub idt_entry : ℕ → ℕ → IdtEntry
idt_entry handler flags = record {
  address_low = handler % 2 ^ 16;
  selector = kernel_cs;
  ist = 0;
  flags = flags;
  address_mid = handler / 2 ^ 16 % 2 ^ 16;
  address_high = handler / 2 ^ 32 % 2 ^ 32;
  reserved = 0;
}

-- The address that the processor reads from an entry.
abbrev pub handler_of : IdtEntry → ℕ
handler_of e = e.address_low + e.address_mid * 2 ^ 16 + e.address_high * 2 ^ 32

abbrev pub base_of : GdtSysEntry → ℕ
base_of e = e.base0 + e.base1 * 2 ^ 16 + e.base2 * 2 ^ 24 + e.base3 * 2 ^ 32

abbrev pub limit_of : GdtSysEntry → ℕ
limit_of e = e.limit_low + e.limit_high * 2 ^ 16

-- An address of 64 bits and a limit of 20 bits are read from an entry as they were given.
pub gdt_sys_entry_lem :
    (base limit flags granularity : ℕ)
    → base < 2 ^ 64
    → limit < 2 ^ 20
    → (base_of (gdt_sys_entry base limit flags granularity) ≡ base)
      × (limit_of (gdt_sys_entry base limit flags granularity) ≡ limit)
unfolding gdt_sys_entry
gdt_sys_entry_lem base limit flags granularity b l = (omega (arith, b), omega (arith, l))

-- A handler's address of 64 bits is read from its entry as it was given.
pub idt_entry_lem :
    (handler flags : ℕ) → handler < 2 ^ 64 → handler_of (idt_entry handler flags) ≡ handler
unfolding idt_entry
idt_entry_lem handler flags h = omega (arith, h)
