-- ===== src/Memory/Vmm/Entry.antt =====
-- src/kernel/memory/vmm.hpp: the address and the flags in the words of page tables.
use Prim.Native.Nat.{bit_and, bit_or}
use umbra_os.Prelude.{
  ℕ, ◌+◌, ◌-◌, ◌*◌, ◌/◌, ◌%◌, ◌^◌, ◌<◌, ◌≡◌, refl, sym, ◌∙◌, ap, true, false, arith,
}
use umbra_os.Prelude.Bitwise.{
  and_digit, bit_and-cut, bit_or-cut, bit_and-zero_below, bit_or-zero_below, bit_and-ones,
  zero-bit_or,
}
use umbra_os.Memory.Vmm.{pte_get_addr, is_present}

-- The bits below the address and those above it, with bit 0, which says that there is a page or a table.
pub record IsFlags (flags : ℕ) : Type 0 where
  pub low : ℕ
  pub high : ℕ
  pub word : flags ≡ high * 2 ^ 52 + low
  pub low_fits : low < 2 ^ 12
  pub high_fits : high < 2 ^ 12
  pub present : low % 2 ≡ 1

-- The address of a page of physical memory.
abbrev pub IsPage : ℕ → Type 0
IsPage addr = (addr % 2 ^ 12 ≡ 0) × (addr < 2 ^ 52)

pub bit_or-flags : (addr flags : ℕ) → IsPage addr → IsFlags flags → bit_or addr flags ≡ addr + flags
bit_or-flags addr flags p f =
    let q = addr / 2 ^ 12 in
    let fits : q < 2 ^ 40 = omega (arith, p.1) in
    let page : addr ≡ q * 2 ^ 12 + 0 = omega (arith, p.0) in
    let bits : flags ≡ f.high * 2 ^ 40 * 2 ^ 12 + f.low = omega (arith, f.word) in
    let outer = bit_or-cut 12 q (f.high * 2 ^ 40) 0 f.low (omega arith) f.low_fits in
    let inner = bit_or-cut 40 0 f.high q 0 fits (omega arith) in
    let q' : 0 * 2 ^ 40 + q ≡ q = omega arith in
    let h' : f.high * 2 ^ 40 + 0 ≡ f.high * 2 ^ 40 = omega arith in
    ap (λ a. bit_or a flags) page
    ∙ ap (bit_or (q * 2 ^ 12 + 0)) bits
    ∙ outer
    ∙ omega (
      arith,
      zero-bit_or f.low,
      sym (ap (λ a. bit_or a (f.high * 2 ^ 40 + 0)) q'),
      ap (bit_or q) h',
      inner,
      zero-bit_or f.high,
      bit_or-zero_below 40 q fits,
      f.word,
      page,
    )

pub pte_get_addr-flags :
    (addr flags : ℕ) → IsPage addr → IsFlags flags → pte_get_addr (addr + flags) ≡ addr
pte_get_addr-flags addr flags p f =
    let q = addr / 2 ^ 12 in
    let fits : q < 2 ^ 40 = omega (arith, p.1) in
    let word : addr + flags ≡ (f.high * 2 ^ 40 + q) * 2 ^ 12 + f.low = omega (arith, f.word, p.0) in
    let outer =
      bit_and-cut 12 (f.high * 2 ^ 40 + q) (0 * 2 ^ 40 + (2 ^ 40 - 1)) f.low 0 f.low_fits
        (omega arith) in
    let inner = bit_and-cut 40 f.high 0 q (2 ^ 40 - 1) fits (omega arith) in
    ap pte_get_addr word
    ∙ outer
    ∙ omega (
      arith,
      inner,
      bit_and-zero_below 12 f.low f.low_fits,
      bit_and-zero_below 12 f.high f.high_fits,
      bit_and-ones 40 q fits,
      p.0,
    )

is_present-eq : (w : ℕ) → w < 2 ^ 64 → bit_and w 1 ≡ w % 2
is_present-eq w h = omega (arith, and_digit w 1, bit_and-zero_below 64 (w / 2) (omega (arith, h)))

pub is_present-flags :
    (addr flags : ℕ) → IsPage addr → IsFlags flags → is_present (addr + flags) ≡ true
is_present-flags addr flags p f =
    let odd : bit_and (addr + flags) 1 ≡ 1 =
      is_present-eq (addr + flags) (omega (arith, f.word, p.1, f.low_fits, f.high_fits, p.0))
      ∙ omega (arith, f.word, f.present, p.0) in
    rw odd refl

pub is_present-even : (w : ℕ) → w < 2 ^ 64 → w % 2 ≡ 0 → is_present w ≡ false
is_present-even w h e = let even : bit_and w 1 ≡ 0 = is_present-eq w h ∙ e in rw even refl
