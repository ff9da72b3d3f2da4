-- ===== src/Tests/Screen.antt =====
-- A screen of eight lines of sixteen pixels, with characters of two lines of four.
use umbra_os.Prelude.{
  ℕ, Bool, false, List, ◌++◌, Option, some, Outcome, fault, out_of_fuel, ◌+◌, ◌*◌, ◌≤◌, ◌≡◌, refl,
  [], ◌∷◌, ◌==◌, if◌then◌else◌, arith, done, true, none, length,
}
use umbra_os.Libc.Strings.{Bytes}
use umbra_os.Kernel.Terminal.{Display, Terminal, rgb, white, rows, puts, puts_from}
use umbra_os.Kernel.Terminal.Bounds.{IsDisplay, SameBehind, IsPlain, puts_lem}
use umbra_os.Kernel.Keyboard.{KeyboardEvent}
use umbra_os.Kernel.Tty.{Answer, read, read_from}
use umbra_os.Kernel.Terminal.Printf.{printf, vsprintf_from, specified}
use umbra_os.Kernel.UserStack.{Auxiliary, user_stack, user_stack_base, string_room, push_pointers}

abbrev display : Display
display = record {
  width = 16;
  height = 8;
  font = λ a. a;
  bytesperglyph = 2;
  font_height = 2;
  font_width = 4;
}

display-IsDisplay : IsDisplay display
display-IsDisplay = record {
  pixels_fit = omega arith;
  font_width_pos = omega arith;
  font_height_pos = omega arith;
  columns_pos = omega arith;
  rows_pos = omega arith;
}

-- The last row.
abbrev terminal : Terminal
terminal = record { pixels = λ p. rgb 0 0 0; cursor_y = 3; cursor_x = 4 }

-- "a\nb".
abbrev text : Bytes
text a = if a == 0 then b'a' else if a == 1 then b'\n' else if a == 2 then b'b' else 0

text-IsPlain : IsPlain text 3
text-IsPlain = record {
  ends = refl;
  uncoloured = λ k h. ground arith;
  single = λ k h. ground arith;
}

puts_lem_example :
    (t' : Terminal) × (puts display 4 text none white (rgb 0 0 0) terminal ≡ done t')
    × SameBehind display terminal.pixels t'.pixels
    × (t'.cursor_y ≤ rows display)
puts_lem_example =
    puts_lem display text 3 4 white (rgb 0 0 0) terminal display-IsDisplay (omega arith)
      text-IsPlain (omega arith) (omega arith)

abbrev numbers : Auxiliary
numbers = record { at_secure = 23; at_entry = 9; at_phdr = 3; at_phent = 4; at_phnum = 5 }

stack_fits :
    string_room (3 ∷ []) (4 ∷ []) + 8 * length (user_stack numbers numbers 0 (3 ∷ []) (4 ∷ []))
    ≤ user_stack_base
unfolding user_stack push_pointers
stack_fits = omega arith

abbrev key_event : ℕ → Bool → KeyboardEvent
key_event c pressed = record { key_code = 0; ascii = c; pressed = pressed }

-- "h" down and up, "i", a line feed, and a key that the next call gets.
abbrev key_events : List KeyboardEvent
key_events =
    key_event b'h' true
    ∷ key_event b'h' false
    ∷ key_event b'i' true
    ∷ key_event b'\n' true
    ∷ key_event b'x' true
    ∷ []

abbrev bytes_read : Outcome (Option Answer) → List ℕ
bytes_read (done (some a)) = a.result ∷ a.bytes ++ (length a.rest ∷ [])
bytes_read (done none) = []
bytes_read fault = []
bytes_read out_of_fuel = []

read_line : bytes_read (read display 4 8 key_events terminal) ≡ 3 ∷ b'h' ∷ b'i' ∷ b'\n' ∷ 1 ∷ []
unfolding read read_from printf vsprintf_from specified puts puts_from
read_line = refl
