-- ===== src/Prelude/Bitwise.antt =====
-- `|` and `&` of numbers that are cut at a bit, and with a mask of ones.
use Prim.Native.Nat.{
  ℕ, zero, suc, ◌+◌, ◌-◌, ◌*◌, ◌/◌, ◌%◌, ◌^◌, ◌≤◌, ◌<◌, min, max, digits, bit_and, bit_or,
  bit_and-bitwise, bit_or-bitwise,
}
use mathlib.Core.Path.{◌≡◌, refl, ◌∙◌, ap}
use native.Mathlib.Nat.{pow-suc, one-le-pow}
use native.Mathlib.Omega.{arith}

-- More fuel than the first number gives the same digits.
same_digits :
    (z : ℕ → ℕ) (f : ℕ → ℕ → ℕ) (m n a b : ℕ) → a ≤ m → a ≤ n → digits z f m a b ≡ digits z f n a b
same_digits z f zero zero zero b h k = refl
same_digits z f zero (suc n) zero b h k = refl
same_digits z f (suc m) zero zero b h k = refl
same_digits z f (suc m) (suc n) zero b h k = refl
same_digits z f zero n (suc a) b h k = absurd (omega (arith, h))
same_digits z f (suc m) zero (suc a) b h k = absurd (omega (arith, k))
same_digits z f (suc m) (suc n) (suc a) b h k =
    rw (same_digits z f m n (suc a / 2) (b / 2) (omega (arith, h)) (omega (arith, k))) refl

pub zero-bit_and : (b : ℕ) → bit_and 0 b ≡ 0
zero-bit_and b = bit_and-bitwise 0 b

pub zero-bit_or : (b : ℕ) → bit_or 0 b ≡ b
zero-bit_or b = bit_or-bitwise 0 b

-- The lowest digit, and the others.
pub and_digit : (a b : ℕ) → bit_and a b ≡ bit_and (a / 2) (b / 2) * 2 + min (a % 2) (b % 2)
and_digit zero b = omega (arith, zero-bit_and b, zero-bit_and (b / 2))
and_digit (suc a) b = omega (
  arith,
  bit_and-bitwise (suc a) b,
  bit_and-bitwise (suc a / 2) (b / 2),
  same_digits (λ x. zero) min a (suc a / 2) (suc a / 2) (b / 2) (omega arith) (omega arith),
)

or_digit : (a b : ℕ) → bit_or a b ≡ bit_or (a / 2) (b / 2) * 2 + max (a % 2) (b % 2)
or_digit zero b = omega (arith, zero-bit_or b, zero-bit_or (b / 2))
or_digit (suc a) b = omega (
  arith,
  bit_or-bitwise (suc a) b,
  bit_or-bitwise (suc a / 2) (b / 2),
  same_digits (λ x. x) max a (suc a / 2) (suc a / 2) (b / 2) (omega arith) (omega arith),
)

times_two : (q k : ℕ) → q * 2 ^ suc k ≡ q * 2 ^ k * 2
times_two q k = omega (arith, ap (λ (t : ℕ). q * t) (pow-suc 2 k))

-- An operation on digits works on the parts above and below a bit.
module _ (op digit : ℕ → ℕ → ℕ)
    (step : (a b : ℕ) → op a b ≡ op (a / 2) (b / 2) * 2 + digit (a % 2) (b % 2))
    (none : op 0 0 ≡ 0) where
  cut :
      (k q p r s : ℕ)
      → r < 2 ^ k
      → s < 2 ^ k
      → op (q * 2 ^ k + r) (p * 2 ^ k + s) ≡ op q p * 2 ^ k + op r s
  cut zero q p r s h l =
      let r0 : r ≡ 0 = omega (arith, h) in
      let s0 : s ≡ 0 = omega (arith, l) in
      let whole : (x : ℕ) → x * 2 ^ 0 + 0 ≡ x = λ x. omega arith in
      rw (r0, s0, whole q, whole p, none) (omega arith)
  cut (suc k) q p r s h l =
      let half : (x y : ℕ) → (x * 2 ^ suc k + y) / 2 ≡ x * 2 ^ k + y / 2 =
        λ x y. omega (arith, times_two x k) in
      let low : (x y : ℕ) → (x * 2 ^ suc k + y) % 2 ≡ y % 2 = λ x y. omega (arith, times_two x k) in
      let first = step (q * 2 ^ suc k + r) (p * 2 ^ suc k + s) in
      let above =
        cut k q p (r / 2) (s / 2) (omega (arith, h, pow-suc 2 k)) (omega (arith, l, pow-suc 2 k)) in
      first
      ∙ rw (half q r, half p s, low q r, low p s, above)
          (omega (arith, step r s, times_two (op q p) k))

pub bit_and-cut :
    (k q p r s : ℕ)
    → r < 2 ^ k
    → s < 2 ^ k
    → bit_and (q * 2 ^ k + r) (p * 2 ^ k + s) ≡ bit_and q p * 2 ^ k + bit_and r s
bit_and-cut = cut bit_and min and_digit (zero-bit_and 0)

pub bit_or-cut :
    (k q p r s : ℕ)
    → r < 2 ^ k
    → s < 2 ^ k
    → bit_or (q * 2 ^ k + r) (p * 2 ^ k + s) ≡ bit_or q p * 2 ^ k + bit_or r s
bit_or-cut = cut bit_or max or_digit (zero-bit_or 0)

-- A number below `2 ^ k`, with no ones and with as many as it has digits.
pub bit_and-zero_below : (k a : ℕ) → a < 2 ^ k → bit_and a 0 ≡ 0
bit_and-zero_below zero a h = let z : a ≡ 0 = omega (arith, h) in rw z (zero-bit_and 0)
bit_and-zero_below (suc k) a h =
    omega (arith, and_digit a 0, bit_and-zero_below k (a / 2) (omega (arith, h, pow-suc 2 k)))

pub bit_or-zero_below : (k a : ℕ) → a < 2 ^ k → bit_or a 0 ≡ a
bit_or-zero_below zero a h = let z : a ≡ 0 = omega (arith, h) in rw z (zero-bit_or 0)
bit_or-zero_below (suc k) a h =
    omega (arith, or_digit a 0, bit_or-zero_below k (a / 2) (omega (arith, h, pow-suc 2 k)))

pub bit_and-ones : (k a : ℕ) → a < 2 ^ k → bit_and a (2 ^ k - 1) ≡ a
bit_and-ones zero a h = let z : a ≡ 0 = omega (arith, h) in rw z (zero-bit_and (2 ^ 0 - 1))
bit_and-ones (suc k) a h =
    let half : (2 ^ suc k - 1) / 2 ≡ 2 ^ k - 1 = omega (arith, pow-suc 2 k, one-le-pow k 2) in
    let odd : (2 ^ suc k - 1) % 2 ≡ 1 = omega (arith, pow-suc 2 k, one-le-pow k 2) in
    let rest = bit_and-ones k (a / 2) (omega (arith, h, pow-suc 2 k)) in
    and_digit a (2 ^ suc k - 1) ∙ rw (half, odd, rest) (omega arith)
