-- ===== src/Kernel/Terminal/Printf.antt =====
-- src/kernel/terminal.cpp: `vsprintf` and `printf`. The arguments are words; one that is missing has no
-- value, which is taken as a fault.
pub mod Plain
use umbra_os.Prelude.{
  ℕ, zero, suc, ◌+◌, ◌-◌, ◌%◌, ◌^◌, Option, none, some, List, [], ◌∷◌, ◌==◌, ltb, if◌then◌else◌,
  Bool, true, false, Outcome, done, fault, out_of_fuel, ◌>>=◌,
}
use umbra_os.Prelude.Maps.{update}
use umbra_os.Libc.Strings.{Bytes}
use umbra_os.Libc.Format.{Text, int_to_str, uint_to_hex}
use umbra_os.Kernel.Terminal.{Display, Terminal, Rgb, rgb, white, puts}

-- The memory of the buffer, and where the pointer `buffer` stands in it.
pub record Out : Type 0 where
  pub memory : Bytes
  pub at : ℕ

-- `*buffer = c; buffer++`.
abbrev pub emit : ℕ → Out → Out
emit c o = record { memory = update o.memory o.at c; at = o.at + 1 }

-- A number's text, written from the pointer on; the pointer goes behind it.
abbrev pub spliced : Out → Text → Out
spliced o t = record {
  memory = λ a. if ltb a o.at then o.memory a else t.buffer (a - o.at);
  at = o.at + t.length;
}

-- `while (*str != '\0') { *buffer = *str; ... }`.
unfoldable pub emit_string : ℕ → Bytes → ℕ → Out → Outcome Out
emit_string zero m str o = out_of_fuel
emit_string (suc fuel) m str o =
    let on = emit_string fuel m (str + 1) (emit (m str) o) in if m str == 0 then done o else on

abbrev from_pointer : Out → Bytes
from_pointer o a = o.memory (o.at + a)

-- The `switch` on a specifier; any other than the four takes no argument and writes nothing.
unfoldable pub specified : ℕ → Bytes → ℕ → List ℕ → Out → Outcome (List ℕ × Out)
specified fuel m c [] o =
    if c == b'c'
    then fault
    else if c == b'd'
    then fault
    else if c == b's'
    then fault
    else if c == b'x'
    then fault
    else done ([], o)
specified fuel m c (arg ∷ args) o =
    if c == b'c'
    then done (args, emit (arg % 2 ^ 8) o)
    else if c == b'd'
    then (int_to_str (from_pointer o) arg >>= λ t. done (args, spliced o t))
    else if c == b's'
    then (emit_string fuel m arg o >>= λ o'. done (args, o'))
    else if c == b'x'
    then done (args, spliced o (uint_to_hex (from_pointer o) arg))
    else done (arg ∷ args, o)

-- The loop from index `i` of the format on. `fuel` bounds it and each string.
unfoldable pub vsprintf_from : ℕ → Bytes → ℕ → ℕ → Bool → List ℕ → Out → Outcome Out
vsprintf_from zero m format i format_specifier args o = out_of_fuel
vsprintf_from (suc fuel) m format i format_specifier args o =
    let c = m (format + i) in
    let on : Bool → List ℕ → Out → Outcome Out = vsprintf_from fuel m format (i + 1) in
    let taken = specified fuel m c args o >>= λ r. on false r.0 r.1 in
    if c == 0
    then done o
    else if c == b'%'
    then on true args o
    else if format_specifier
    then taken
    else on false args (emit c o)

abbrev pub buffer_size : ℕ
buffer_size = 1024

-- `printf`: the buffer starts with zeros. A text that leaves none of them at the end was written past the
-- buffer, or is read past it.
unfoldable pub printf : Display → ℕ → Bytes → ℕ → List ℕ → Terminal → Outcome Terminal
printf d fuel m format args t = do
  o ← vsprintf_from fuel m format 0 false args (record { memory = λ k. 0; at = 0 })
  if ltb o.at buffer_size then puts d fuel o.memory none white (rgb 0 0 0) t else fault
