-- ===== src/Kernel/Keyboard/Machine.antt =====
-- src/kernel/drivers/keyboard.cpp against the machine that it implements: two modifiers, and a key
-- table. Its states are those that the handler reaches from a cleared keyboard.
use umbra_os.Prelude.{
  ℕ, ◌+◌, ◌-◌, ◌<◌, ◌≡◌, refl, Bool, true, false, not, ◌&&◌, ◌||◌, Option, none, some, ◌==◌, ltb,
  leb, List, [], ◌∷◌, length, if◌then◌else◌, arith,
}
use umbra_os.Prelude.Bits.{holds_under, holds_at}
use umbra_os.Kernel.Keyboard.{Keyboard, KeyboardEvent, code_to_key, find_key, handler}

-- The modifiers that the machine keeps.
pub record Modifiers : Type 0 where
  pub shift : Bool
  pub caps : Bool

-- The keyboard between two interrupts.
abbrev pub encode : Modifiers → Keyboard
encode m = record {
  buffer = 0;
  position = 0;
  modifiers_mask = (if m.shift then 4 else 0) + (if m.caps then 8 else 0);
}

-- What the keys print, by rows: the code of a row's first key, and the characters of its keys.
abbrev pub Rows : Type 0
Rows = List (ℕ × List ℕ)

abbrev plain_rows : Rows
plain_rows =
    (0x02, b'1' ∷ b'2' ∷ b'3' ∷ b'4' ∷ b'5' ∷ b'6' ∷ b'7' ∷ b'8' ∷ b'9' ∷ b'0' ∷ b'-' ∷ b'=' ∷ [])
    ∷ (
      0x10,
      b'q' ∷ b'w' ∷ b'e' ∷ b'r' ∷ b't' ∷ b'y' ∷ b'u' ∷ b'i' ∷ b'o' ∷ b'p' ∷ b'[' ∷ b']' ∷ 10 ∷ [],
    )
    ∷ (0x1e, b'a' ∷ b's' ∷ b'd' ∷ b'f' ∷ b'g' ∷ b'h' ∷ b'j' ∷ b'k' ∷ b'l' ∷ b';' ∷ 39 ∷ b'`' ∷ [])
    ∷ (0x2b, 92 ∷ b'z' ∷ b'x' ∷ b'c' ∷ b'v' ∷ b'b' ∷ b'n' ∷ b'm' ∷ b',' ∷ b'.' ∷ b'/' ∷ [])
    ∷ (0x37, b'*' ∷ [])
    ∷ (0x39, b' ' ∷ [])
    ∷ (
      0x47,
      b'7' ∷ b'8' ∷ b'9' ∷ b'-' ∷ b'4' ∷ b'5' ∷ b'6' ∷ b'+' ∷ b'1' ∷ b'2' ∷ b'3' ∷ b'0' ∷ b'.' ∷ [],
    )
    ∷ []

abbrev shifted_rows : Rows
shifted_rows =
    (0x02, b'!' ∷ b'@' ∷ b'#' ∷ b'$' ∷ b'%' ∷ b'^' ∷ b'&' ∷ b'*' ∷ b'(' ∷ b')' ∷ [])
    ∷ (0x10, b'Q' ∷ b'W' ∷ b'E' ∷ b'R' ∷ b'T' ∷ b'Y' ∷ b'U' ∷ b'I' ∷ b'O' ∷ b'P' ∷ [])
    ∷ (0x1c, 10 ∷ [])
    ∷ (0x1e, b'A' ∷ b'S' ∷ b'D' ∷ b'F' ∷ b'G' ∷ b'H' ∷ b'J' ∷ b'K' ∷ b'L' ∷ [])
    ∷ (0x2c, b'Z' ∷ b'X' ∷ b'C' ∷ b'V' ∷ b'B' ∷ b'N' ∷ b'M' ∷ [])
    ∷ (0x39, b' ' ∷ [])
    ∷ (
      0x47,
      b'7' ∷ b'8' ∷ b'9' ∷ b'-' ∷ b'4' ∷ b'5' ∷ b'6' ∷ b'+' ∷ b'1' ∷ b'2' ∷ b'3' ∷ b'0' ∷ b'.' ∷ [],
    )
    ∷ []

-- The character at an index, and the one of a code; a key that prints none has a question mark.
abbrev char_at : List ℕ → ℕ → ℕ
char_at [] i = b'?'
char_at (c ∷ cs) i = if i == 0 then c else char_at cs (i - 1)

abbrev in_rows : Rows → ℕ → ℕ
in_rows [] code = b'?'
in_rows (row ∷ rows) code =
    if leb row.0 code && ltb code (row.0 + length row.1)
    then char_at row.1 (code - row.0)
    else in_rows rows code

-- The codes that have a key.
abbrev pub is_key : ℕ → Bool
is_key code = ltb 0 code && (leb code 0x53 || (code == 0x57 || code == 0x58))

abbrev pub shift_code : ℕ
shift_code = 0x2a

abbrev pub caps_code : ℕ
caps_code = 0x3a

abbrev pub down : Modifiers → ℕ → Modifiers × Option KeyboardEvent
down m code =
    if not (is_key code)
    then (m, none)
    else if code == shift_code
    then (record m { shift = true }, none)
    else if code == caps_code
    then (record m { caps = not m.caps }, none)
    else (
      m,
      some (record {
        key_code = code;
        ascii = in_rows (if m.shift || m.caps then shifted_rows else plain_rows) code;
        pressed = true;
      }),
    )

abbrev pub up : Modifiers → ℕ → Modifiers × Option KeyboardEvent
up m code = (
  record m { shift = if code == shift_code then false else m.shift },
  some (record { key_code = if is_key code then code else 0; ascii = 0; pressed = false }),
)

-- A code below 128 presses a key, and that code plus 128 releases it.
unfoldable pub step : Modifiers → ℕ → Modifiers × Option KeyboardEvent
step m code = if ltb code 128 then down m code else up m (code - 128)

abbrev image : Modifiers × Option KeyboardEvent → Keyboard × Option KeyboardEvent
image (m, e) = (encode m, e)

eqb : Bool → Bool → Bool
eqb true c = c
eqb false c = not c

eq_event : Option KeyboardEvent → Option KeyboardEvent → Bool
eq_event none none = true
eq_event (some d) none = false
eq_event none (some e) = false
eq_event (some d) (some e) =
    d.key_code == e.key_code && (d.ascii == e.ascii && eqb d.pressed e.pressed)

eq_result : Keyboard × Option KeyboardEvent → Keyboard × Option KeyboardEvent → Bool
unfolding eq_event eqb
eq_result (j, d) (k, e) =
    j.buffer == k.buffer
    && (j.position == k.position && (j.modifiers_mask == k.modifiers_mask && eq_event d e))

eq_event_sound : (d e : Option KeyboardEvent) → eq_event d e ≡ true → d ≡ e
unfolding eq_event eqb
eq_event_sound none none h = refl
eq_event_sound (some d) none h = cc
eq_event_sound none (some e) h = cc
eq_event_sound (some d) (some e) h = ground arith

eq_result_sound : (r s : Keyboard × Option KeyboardEvent) → eq_result r s ≡ true → r ≡ s
unfolding eq_result
eq_result_sound (j, d) (k, e) h = ground (arith, eq_event_sound d e)

table :
    (s c : Bool)
    → let m : Modifiers = record { shift = s; caps = c } in
      holds_under 256 (λ code. eq_result (handler (encode m) code) (image (step m code))) ≡ true
unfolding holds_under handler code_to_key find_key step eq_result
table false false = refl
table false true = refl
table true false = refl
table true true = refl

-- On every scan code of one byte, in every state between two interrupts, the keyboard handler goes
-- to the state of the machine's next modifiers and wakes the tasks with the machine's event, or
-- with none. The machine reads the characters of the keys from rows of its own.
pub handler_refines :
    (m : Modifiers) (code : ℕ)
    → code < 256
    → handler (encode m) code ≡ (encode (step m code).0, (step m code).1)
handler_refines m code h = eq_result_sound _ _ (holds_at 256 _ (table m.shift m.caps) code h)
