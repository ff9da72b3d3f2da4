-- ===== src/Libc/Format.antt =====
-- src/kernel/libc/format.cpp: numbers as text in a buffer. The buffer maps an index to a character,
-- and the result holds it beside the length.
pub mod Digits
pub mod Value
use umbra_os.Prelude.{
  ℕ, zero, suc, ◌+◌, ◌-◌, ◌*◌, ◌/◌, ◌%◌, ◌^◌, ◌==◌, ltb, if◌then◌else◌, Outcome, done, fault,
}
use umbra_os.Prelude.Maps.{update}

pub record Text : Type 0 where
  pub buffer : ℕ → ℕ
  pub length : ℕ

-- The `do` loop of both functions: one digit a round, the lowest first. A number below `base ^ fuel`
-- needs no more rounds than `fuel`.
unfoldable pub digits : ℕ → (ℕ → ℕ) → ℕ → Text → ℕ → Text
digits base char zero t n = t
digits base char (suc fuel) t n =
    let t' : Text = record {
      buffer = update t.buffer t.length (char (n % base));
      length = t.length + 1;
    } in
    let on = digits base char fuel t' (n / base) in if n / base == 0 then t' else on

-- `for (i = 0; i < length / 2; i++)`: the swaps that turn the text round.
abbrev pub swap : (ℕ → ℕ) → ℕ → ℕ → ℕ → ℕ
swap buffer i j = update (update buffer i (buffer j)) j (buffer i)

unfoldable pub reverse_loop : ℕ → ℕ → ℕ → (ℕ → ℕ) → ℕ → ℕ
reverse_loop length zero i buffer = buffer
reverse_loop length (suc rounds) i buffer =
    reverse_loop length rounds (i + 1) (swap buffer i (length - i - 1))

unfoldable pub reversed : Text → Text
reversed t = record t { buffer = reverse_loop t.length (t.length / 2) 0 t.buffer }

-- `digit + '0'`.
abbrev pub dec_char : ℕ → ℕ
dec_char d = d + b'0'

-- `hex_chars[remainder]`.
abbrev pub hex_char : ℕ → ℕ
hex_char d = if ltb d 10 then d + b'0' else d - 10 + b'a'

-- The 20 digits that 64 bits need at most, and the 16 in base 16.
abbrev pub dec_fuel : ℕ
dec_fuel = 20

abbrev pub hex_fuel : ℕ
hex_fuel = 16

-- `integer` is the bit pattern of an `int64_t`. The negation of the least one overflows.
unfoldable pub int_to_str : (ℕ → ℕ) → ℕ → Outcome Text
int_to_str buffer integer =
    let start : Text = record { buffer = buffer; length = 0 } in
    let minus = digits 10 dec_char dec_fuel start (2 ^ 64 - integer) in
    if ltb integer (2 ^ 63)
    then done (reversed (digits 10 dec_char dec_fuel start integer))
    else if integer == 2 ^ 63
    then fault
    else done (
        reversed
          (record { buffer = update minus.buffer minus.length b'-'; length = minus.length + 1 }))

-- The test `integer < 0` fails for an unsigned number.
unfoldable pub uint_to_hex : (ℕ → ℕ) → ℕ → Text
uint_to_hex buffer integer =
    reversed (digits 16 hex_char hex_fuel (record { buffer = buffer; length = 0 }) integer)
