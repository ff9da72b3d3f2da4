-- ===== src/Libc/Format/Value.antt =====
-- src/kernel/libc/format.cpp: the printed text reads back as the number.
use umbra_os.Prelude.{
  ℕ, ◌+◌, ◌-◌, ◌^◌, ◌≤◌, ◌<◌, ◌≡◌, ◌≢◌, refl, ◌∙◌, ap, ltb, leb, if◌then◌else◌, arith, ◌⊎◌, inl,
  inr, Bool-cases, done, ==_of_ne, ltb→lt, ltb→le,
}
use umbra_os.Prelude.Maps.{update, update_self, update_ne}
use umbra_os.Libc.Format.{
  Text, digits, reversed, dec_char, hex_char, dec_fuel, int_to_str, uint_to_hex,
}
use umbra_os.Libc.Format.Digits.{
  low_first, high_first, high_first-reversed, reversed_lem, Wrote, digits-Wrote, AreDigits,
  digits-AreDigits,
}

-- What a decimal and a hexadecimal character stand for.
abbrev pub dec_value : ℕ → ℕ
dec_value c = c - b'0'

abbrev pub hex_value : ℕ → ℕ
hex_value c = if leb c b'9' then c - b'0' else c - b'a' + 10

hex_reads : (d : ℕ) → d < 16 → hex_value (hex_char d) ≡ d
hex_reads d h = ground arith

abbrev empty : (ℕ → ℕ) → Text
empty buffer = record { buffer = buffer; length = 0 }

-- A text of digits, turned round, reads as the number.
read_back :
    (base : ℕ) (value : ℕ → ℕ) (fuel : ℕ) (buffer : ℕ → ℕ) (n : ℕ) (t : Text)
    → Wrote base value fuel (empty buffer) n t
    → high_first base value (reversed t).buffer t.length ≡ n
read_back base value fuel buffer n t w =
    high_first-reversed base value t.buffer (reversed t).buffer 0 t.length
      (λ j h. reversed_lem t j h ∙ ap t.buffer (omega arith))
    ∙ ap (low_first base value t.buffer 0) (omega (arith, w.grows))
    ∙ w.stands

-- The hexadecimal text of a 64-bit number has 1 to 16 characters, and reads back as the number.
uint_to_hex_lem :
    (buffer : ℕ → ℕ) (n : ℕ)
    → n < 2 ^ 64
    → let t = uint_to_hex buffer n in
      (0 < t.length) × (t.length ≤ 16) × (high_first 16 hex_value t.buffer t.length ≡ n)
unfolding uint_to_hex reversed
uint_to_hex_lem buffer n h =
    let w =
      digits-Wrote 16 hex_value hex_char (omega arith) hex_reads 15 (empty buffer) n
        (omega arith) in
    (
      omega (arith, w.grows, w.some_digit),
      omega (arith, w.grows, w.few),
      read_back 16 hex_value 16 buffer n _ w,
    )

abbrev signed : Text → Text
signed m = record { buffer = update m.buffer m.length b'-'; length = m.length + 1 }

module _ (buffer : ℕ → ℕ) (m : Text) (n : ℕ) (w : Wrote 10 dec_value 20 (empty buffer) n m) where
  minus_first : (reversed (signed m)).buffer 0 ≡ b'-'
  minus_first =
      reversed_lem (signed m) 0 (omega arith)
      ∙ ap (update m.buffer m.length b'-') (omega arith)
      ∙ update_self m.buffer m.length b'-'

  minus_rest :
      (j : ℕ) → j < m.length → (reversed (signed m)).buffer (j + 1) ≡ m.buffer (m.length - 1 - j)
  minus_rest j h =
      reversed_lem (signed m) (j + 1) (omega arith)
      ∙ ap (update m.buffer m.length b'-') (omega arith)
      ∙ update_ne m.buffer m.length (m.length - 1 - j) b'-' (λ e. omega (arith, e, h))

  rest_back : high_first 10 dec_value (λ j. (reversed (signed m)).buffer (j + 1)) m.length ≡ n
  rest_back =
      high_first-reversed 10 dec_value m.buffer (λ j. (reversed (signed m)).buffer (j + 1)) 0
        m.length (λ j h. minus_rest j h ∙ ap m.buffer (omega arith))
      ∙ ap (low_first 10 dec_value m.buffer 0) (omega (arith, w.grows))
      ∙ w.stands

abbrev pub IsDigit : ℕ → Type 0
IsDigit c = (b'0' ≤ c) × (c ≤ b'9')

turned-IsDigit :
    (m : Text) (c j : ℕ)
    → AreDigits 10 dec_char m.buffer 0 m.length
    → j < m.length
    → c ≡ m.buffer (m.length - 1 - j)
    → IsDigit c
turned-IsDigit m c j are h e =
    let (d, small, written) = are (m.length - 1 - j) (omega arith) (omega arith) in
    (omega (arith, e, written, small), omega (arith, e, written, small))

-- The decimal text of an `int64_t` other than the least has 1 to 21 characters. That of a negative
-- number is a minus sign and one or more digits from 0 to 9 that read back as its absolute value;
-- that of any other number is digits from 0 to 9 that read back as the number.
pub int_to_str_lem :
    (buffer : ℕ → ℕ) (n : ℕ)
    → n < 2 ^ 64
    → n ≢ 2 ^ 63
    → (t : Text) × (int_to_str buffer n ≡ done t)
      × (0 < t.length)
      × (t.length ≤ 21)
      × (((n < 2 ^ 63)
            × ((j : ℕ) → j < t.length → IsDigit (t.buffer j))
            × (high_first 10 dec_value t.buffer t.length ≡ n))
          ⊎ ((2 ^ 63 < n)
              × (t.buffer 0 ≡ b'-')
              × (1 < t.length)
              × ((j : ℕ) → j + 1 < t.length → IsDigit (t.buffer (j + 1)))
              × (high_first 10 dec_value (λ j. t.buffer (j + 1)) (t.length - 1) ≡ 2 ^ 64 - n)))
unfolding int_to_str reversed
int_to_str_lem buffer n h ne = elim (Bool-cases (ltb n (2 ^ 63))) [
  | inl l ↦
      let w = wrote n (omega (arith, ltb→lt n _ l)) in
      (
        reversed (decimal n),
        rw l refl,
        omega (arith, w.grows, w.some_digit),
        omega (arith, w.grows, w.few),
        inl (
          ltb→lt n _ l,
          λ j b.
              turned-IsDigit (decimal n) _ j (written n (omega (arith, ltb→lt n _ l))) b
                (reversed_lem (decimal n) j b ∙ ap (decimal n).buffer (omega arith)),
          read_back 10 dec_value 20 buffer n _ w,
        ),
      )
  | inr g ↦
      let w = wrote (2 ^ 64 - n) (omega (arith, ltb→le n _ g)) in
      (
        reversed (signed (decimal (2 ^ 64 - n))),
        rw (g, ==_of_ne n (2 ^ 63) ne) refl,
        omega arith,
        omega (arith, w.grows, w.few),
        inr (
          omega (arith, ltb→le n _ g),
          minus_first buffer _ (2 ^ 64 - n) w,
          omega (arith, w.grows, w.some_digit),
          λ j b.
              turned-IsDigit (decimal (2 ^ 64 - n)) _ j
                (written (2 ^ 64 - n) (omega (arith, ltb→le n _ g))) (omega (arith, b))
                (minus_rest buffer _ (2 ^ 64 - n) w j (omega (arith, b))),
          ap (high_first 10 dec_value _) (omega arith) ∙ rest_back buffer _ (2 ^ 64 - n) w,
        ),
      )
]
  where
    decimal : ℕ → Text
    decimal k = digits 10 dec_char dec_fuel (empty buffer) k

    wrote :
        (k : ℕ)
        → k < 2 ^ 64
        → Wrote 10 dec_value 20 (empty buffer) k (digits 10 dec_char dec_fuel (empty buffer) k)
    wrote k b =
        digits-Wrote 10 dec_value dec_char (omega arith) (λ d e. omega arith) 19 (empty buffer) k
          (omega arith)

    written : (k : ℕ) → k < 2 ^ 64 → AreDigits 10 dec_char (decimal k).buffer 0 (decimal k).length
    written k b =
        digits-AreDigits 10 dec_value dec_char (omega arith) (λ d e. omega arith) 19 (empty buffer)
          k (omega arith)
