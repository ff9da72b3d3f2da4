-- ===== src/Tests/Text.antt =====
-- Strings and numbers in a few cells of memory.
use umbra_os.Prelude.{
  ℕ, ◌+◌, ◌-◌, ◌%◌, ◌^◌, ◌<◌, ◌≤◌, ◌≡◌, refl, true, arith, done, ◌==◌, if◌then◌else◌, ◌⊎◌,
}
use umbra_os.Libc.Strings
use umbra_os.Libc.Strings.{Bytes}
use umbra_os.Libc.Strings.Compare.{IsString}
use umbra_os.Libc.Format.{Text, int_to_str}
use umbra_os.Libc.Format.Digits.{high_first}
use umbra_os.Libc.Format.Value.{dec_value, IsDigit, int_to_str_lem}

-- "ab" at 0 and "cb" at 8.
abbrev memory : Bytes
memory a = if a == 0 then 97 else if a == 8 then 99 else if a % 8 == 1 then 98 else 0

ab-IsString : IsString memory 0 2
ab-IsString = record { chars = λ i h. ground arith; ends = refl }

-- The strings differ, and `strcmp` calls them the same.
strcmp_first : Strings.strcmp 3 memory 0 8 ≡ done true
unfolding Strings.strcmp Strings.strcmp_from
strcmp_first = refl

abbrev negative : ℕ
negative = 2 ^ 64 - 42

int_to_str_lem_example :
    (t : Text) × (int_to_str memory negative ≡ done t)
    × (0 < t.length)
    × (t.length ≤ 21)
    × (((negative < 2 ^ 63)
          × ((j : ℕ) → j < t.length → IsDigit (t.buffer j))
          × (high_first 10 dec_value t.buffer t.length ≡ negative))
        ⊎ ((2 ^ 63 < negative)
            × (t.buffer 0 ≡ b'-')
            × (1 < t.length)
            × ((j : ℕ) → j + 1 < t.length → IsDigit (t.buffer (j + 1)))
            × (high_first 10 dec_value (λ j. t.buffer (j + 1)) (t.length - 1) ≡ 2 ^ 64 - negative)))
int_to_str_lem_example = int_to_str_lem memory negative (omega arith) (omega arith)
