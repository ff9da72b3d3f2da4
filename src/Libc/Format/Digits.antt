-- ===== src/Libc/Format/Digits.antt =====
-- src/kernel/libc/format.cpp: the digit loop, and the swaps that turn its output round.
use umbra_os.Prelude.{
  ℕ, zero, suc, ◌+◌, ◌-◌, ◌*◌, ◌/◌, ◌%◌, ◌^◌, ◌≤◌, ◌<◌, ◌≡◌, refl, sym, ◌∙◌, ap, ◌==◌, ltb, leb,
  true, if◌then◌else◌, ◌&&◌, ◌||◌, arith, inl, inr, Bool-cases, ==_iff, ==→ne,
}
use native.Mathlib.Nat.{pow-suc, mul_comm, div-add-mod, div-lt_iff_lt-mul, div-eq_of_lt, pow-zero}
use umbra_os.Prelude.Maps.{update, update_self, update_ne}
use umbra_os.Libc.Format.{Text, digits, reverse_loop, reversed, swap}

-- The number that `k` characters from index `i` on stand for, the lowest digit first.
unfoldable pub low_first : ℕ → (ℕ → ℕ) → (ℕ → ℕ) → ℕ → ℕ → ℕ
low_first base value buffer i zero = 0
low_first base value buffer i (suc k) =
    value (buffer i) + base * low_first base value buffer (i + 1) k

-- The same with the highest digit first, as one reads it.
unfoldable pub high_first : ℕ → (ℕ → ℕ) → (ℕ → ℕ) → ℕ → ℕ
high_first base value buffer zero = 0
high_first base value buffer (suc k) = high_first base value buffer k * base + value (buffer k)

module _ (base : ℕ) (value : ℕ → ℕ) where
  low_first-ext :
      (f g : ℕ → ℕ) (i k : ℕ)
      → ((j : ℕ) → i ≤ j → j < i + k → f j ≡ g j)
      → low_first base value f i k ≡ low_first base value g i k
  unfolding low_first
  low_first-ext f g i zero h = refl
  low_first-ext f g i (suc k) h = rw (
    h i (omega arith) (omega arith),
    low_first-ext f g (i + 1) k (λ j a b. h j (omega arith) (omega arith)),
  )

  -- Reading a reversed text from the front is reading the text from the back.
  pub high_first-reversed :
      (f g : ℕ → ℕ) (i k : ℕ)
      → ((j : ℕ) → j < k → g j ≡ f (i + k - 1 - j))
      → high_first base value g k ≡ low_first base value f i k
  unfolding low_first high_first
  high_first-reversed f g i zero h = refl
  high_first-reversed f g i (suc k) h =
      let last : g k ≡ f i = h k (omega arith) ∙ ap f (omega arith) in
      let rest =
        high_first-reversed f g (i + 1) k (λ j a. h j (omega arith) ∙ ap f (omega arith)) in
      rw (last, rest) (omega (arith, mul_comm base (low_first base value f (i + 1) k)))

-- The swaps reverse the text.
abbrev turned : (ℕ → ℕ) → ℕ → ℕ → ℕ → ℕ
turned f length i j =
    if ltb j length && (ltb j i || leb (length - i) j) then f (length - 1 - j) else f j

swap-turned :
    (f g : ℕ → ℕ) (length i a : ℕ)
    → 2 * (i + 1) ≤ length
    → ((b : ℕ) → g b ≡ turned f length i b)
    → swap g i (length - i - 1) a ≡ turned f length (i + 1) a
swap-turned f g length i a h e = ground (arith, e a, e i, e (length - i - 1))

reverse_loop-eq :
    (f g : ℕ → ℕ) (length rounds i j : ℕ)
    → 2 * (i + rounds) ≤ length
    → ((a : ℕ) → g a ≡ turned f length i a)
    → reverse_loop length rounds i g j ≡ turned f length (i + rounds) j
unfolding reverse_loop
reverse_loop-eq f g length zero i j h e = e j ∙ ap (λ k. turned f length k j) (omega arith)
reverse_loop-eq f g length (suc rounds) i j h e =
    reverse_loop-eq f (swap g i (length - i - 1)) length rounds (i + 1) j (omega arith)
      (λ a. swap-turned f g length i a (omega arith) e)
    ∙ ap (λ k. turned f length k j) (omega arith)

pub reversed_lem :
    (t : Text) (j : ℕ) → j < t.length → (reversed t).buffer j ≡ t.buffer (t.length - 1 - j)
unfolding reversed
reversed_lem t j h =
    reverse_loop-eq t.buffer t.buffer t.length (t.length / 2) 0 j (omega arith) (λ a. ground arith)
    ∙ ground arith

-- What the digit loop writes: it keeps what stood before, and the new characters stand for the
-- number. At least one digit is written, and no more than the fuel.
pub record Wrote (base : ℕ) (value : ℕ → ℕ) (fuel : ℕ) (t : Text) (n : ℕ) (t' : Text) : Type 0 where
  pub keeps : (j : ℕ) → j < t.length → t'.buffer j ≡ t.buffer j
  pub count : ℕ
  pub grows : t'.length ≡ t.length + count
  pub some_digit : 0 < count
  pub few : count ≤ fuel
  pub stands : low_first base value t'.buffer t.length count ≡ n

-- Every character that the loop wrote is that of a digit.
abbrev pub AreDigits : ℕ → (ℕ → ℕ) → (ℕ → ℕ) → ℕ → ℕ → Type 0
AreDigits base char buffer i n =
    (j : ℕ) → i ≤ j → j < n → (d : ℕ) × (d < base) × (buffer j ≡ char d)

module _ (base : ℕ) (value char : ℕ → ℕ) (two : 2 ≤ base)
    (reads : (d : ℕ) → d < base → value (char d) ≡ d) where
  abbrev next : Text → ℕ → Text
  next t n = record { buffer = update t.buffer t.length (char (n % base)); length = t.length + 1 }

  next_digit : (t : Text) (n : ℕ) → value ((next t n).buffer t.length) ≡ n % base
  next_digit t n = ground (arith, reads (n % base))

  one_digit :
      (fuel : ℕ) (t : Text) (n : ℕ)
      → (n / base == 0) ≡ true
      → Wrote base value (suc fuel) t n (next t n)
  unfolding low_first
  one_digit fuel t n e = record {
    keeps = λ j h. update_ne t.buffer t.length j _ (omega arith);
    count = 1;
    grows = refl;
    some_digit = omega arith;
    few = omega arith;
    stands =
        let z : n / base ≡ 0 = (==_iff _ 0).0 e in
        omega (arith, next_digit t n, z, div-add-mod n base, ap (λ q. base * q) z);
  }

  more_digits :
      (fuel : ℕ) (t : Text) (n : ℕ) (t' : Text)
      → Wrote base value fuel (next t n) (n / base) t'
      → Wrote base value (suc fuel) t n t'
  unfolding low_first
  more_digits fuel t n t' w = record {
    keeps = λ j h. w.keeps j (omega arith) ∙ update_ne t.buffer t.length j _ (omega arith);
    count = suc w.count;
    grows = omega (arith, w.grows);
    some_digit = omega arith;
    few = omega (arith, w.few);
    stands =
        let here = ap value (w.keeps t.length (omega arith)) ∙ next_digit t n in
        omega (arith, here, div-add-mod n base, ap (λ q. base * q) w.stands);
  }

  small : (n : ℕ) → n < base ^ 1 → (n / base == 0) ≡ true
  small n h =
      (==_iff _ 0).1
        (div-eq_of_lt (omega (arith, h, pow-suc base 0, ap (λ q. q * base) (pow-zero base))))

  smaller : (n fuel : ℕ) → n < base ^ suc (suc fuel) → n / base < base ^ suc fuel
  smaller n fuel h =
      (div-lt_iff_lt-mul {k = base} (omega arith)).1 (rw (← pow-suc base (suc fuel)) h)

  pub digits-Wrote :
      (fuel : ℕ) (t : Text) (n : ℕ)
      → n < base ^ suc fuel
      → Wrote base value (suc fuel) t n (digits base char (suc fuel) t n)
  unfolding digits
  digits-Wrote zero t n h = rw (small n h) (one_digit 0 t n (small n h))
  digits-Wrote (suc fuel) t n h = elim (Bool-cases (n / base == 0)) [
    | inl e ↦ rw e (one_digit (suc fuel) t n e)
    | inr ne ↦
        rw ne (
          more_digits (suc fuel) t n _ (digits-Wrote fuel (next t n) (n / base) (smaller n fuel h)))
  ]

  mod-lt : (n : ℕ) → n % base < base
  mod-lt n = grind arith

  last_digit : (t : Text) (n : ℕ) → AreDigits base char (next t n).buffer t.length (next t n).length
  last_digit t n j a b =
      let same : j ≡ t.length = omega (arith, a, b) in
      (
        n % base,
        mod-lt n,
        ap (next t n).buffer same ∙ update_self t.buffer t.length (char (n % base)),
      )

  pub digits-AreDigits :
      (fuel : ℕ) (t : Text) (n : ℕ)
      → n < base ^ suc fuel
      → AreDigits base char
          (digits base char (suc fuel) t n).buffer
          t.length
          (digits base char (suc fuel) t n).length
  unfolding digits
  digits-AreDigits zero t n h = rw (small n h) (last_digit t n)
  digits-AreDigits (suc fuel) t n h = elim (Bool-cases (n / base == 0)) [
    | inl e ↦ rw e (last_digit t n)
    | inr ne ↦ rw ne (λ j a b. elim (Bool-cases (t.length == j)) [
      | inl e ↦
          let same : t.length ≡ j = (==_iff t.length j).0 e in
          let w = digits-Wrote fuel (next t n) (n / base) (smaller n fuel h) in
          (
            n % base,
            mod-lt n,
            ap (digits base char (suc fuel) (next t n) (n / base)).buffer (sym same)
                ∙ w.keeps t.length (omega arith)
                ∙ update_self t.buffer t.length (char (n % base)),
          )
      | inr ne' ↦
          digits-AreDigits fuel (next t n) (n / base) (smaller n fuel h) j
            (omega (arith, a, ==→ne t.length j ne')) b
    ])
  ]
