-- ===== src/Fs/Initramfs/Octal.antt =====
-- src/kernel/fs/initramfs.cpp: `oct_to_dec` reads the number that an archive's header writes.
use umbra_os.Prelude.{
  ℕ, zero, suc, ◌+◌, ◌-◌, ◌*◌, ◌/◌, ◌%◌, ◌^◌, ◌<◌, ◌≡◌, refl, sym, ◌∙◌, ap, done, arith, ◌==◌,
  ==_of_ne, false,
}
use native.Mathlib.Nat.{div-div-eq-div-mul, pow-suc}
use umbra_os.Libc.Strings.{Bytes}
use umbra_os.Fs.Initramfs.{oct_from, oct_to_dec}

-- From an address on stand the lowest `k` octal digits of a number, the highest first, and a 0.
abbrev pub Shows : Bytes → ℕ → ℕ → ℕ → Type 0
Shows m str n zero = m str ≡ 0
Shows m str n (suc k) = (m str ≡ n / 8 ^ k % 8 + b'0') × Shows m (str + 1) n k

oct_from_lem :
    (m : Bytes) (n k fuel str : ℕ)
    → n < 2 ^ 64
    → k < fuel
    → Shows m str n k
    → oct_from fuel m str (n / 8 ^ k) ≡ done n
unfolding oct_from
oct_from_lem m n k zero str h f s = absurd (omega (arith, f))
oct_from_lem m n zero (suc fuel) str h f s =
    let whole : n / 8 ^ 0 ≡ n = omega arith in rw (s, whole) refl
oct_from_lem m n (suc k) (suc fuel) str h f (digit, rest) =
    let up : n / 8 ^ suc k ≡ n / 8 ^ k / 8 =
      ap (λ d. n / d) (pow-suc 8 k) ∙ sym (div-div-eq-div-mul n (8 ^ k) 8) in
    let small : n / 8 ^ k < 2 ^ 64 = grind (arith, h) in
    let next : (n / 8 ^ k / 8 * 8 + (n / 8 ^ k % 8 + b'0') + 2 ^ 64 - b'0') % 2 ^ 64 ≡ n / 8 ^ k =
      omega (arith, small) in
    let nonzero : (n / 8 ^ k % 8 + b'0' == 0) ≡ false = ==_of_ne _ 0 (omega arith) in
    rw (digit, up, next, nonzero) (oct_from_lem m n k fuel (str + 1) h (omega (arith, f)) rest)

-- When the lowest digits of a number below 2 ^ 64, to base 8 and enough for it, stand in memory
-- before a 0, `oct_to_dec` returns the number, with fuel for each digit and one more.
pub oct_to_dec_lem :
    (m : Bytes) (n k fuel str : ℕ)
    → n < 8 ^ k
    → n < 2 ^ 64
    → k < fuel
    → Shows m str n k
    → oct_to_dec fuel m str ≡ done n
unfolding oct_to_dec
oct_to_dec_lem m n k fuel str fits h f s =
    let none_left : n / 8 ^ k ≡ 0 = div_small n (8 ^ k) fits in
    ap (oct_from fuel m str) (sym none_left) ∙ oct_from_lem m n k fuel str h f s
  where
    div_small : (a b : ℕ) → a < b → a / b ≡ 0
    div_small a b l = grind arith
