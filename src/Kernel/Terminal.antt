-- ===== src/Kernel/Terminal.antt =====
-- src/kernel/terminal.cpp: text on the screen. The framebuffer is a sequence of pixels; the fields of the
-- framebuffer and of the font are parameters, and `font` is the font's file.
pub mod Bounds
pub mod Printf
use umbra_os.Prelude.{
  ℕ, zero, suc, ◌+◌, ◌-◌, ◌*◌, ◌/◌, ◌%◌, ◌^◌, Option, none, some, List, [], ◌∷◌, ◌++◌, ◌==◌, ltb,
  leb, if◌then◌else◌, ◌||◌, Bool, false, Outcome, done, fault, out_of_fuel, ◌>>=◌, length,
}
use umbra_os.Prelude.Maps.{update}
use umbra_os.Libc.Strings.{Bytes, strcmp}
use umbra_os.Net.Ipv4.{place}

-- The fourth byte of a pixel is not set.
pub record Rgb : Type 0 where
  pub red : ℕ
  pub green : ℕ
  pub blue : ℕ

abbrev pub rgb : ℕ → ℕ → ℕ → Rgb
rgb r g b = record { red = r; green = g; blue = b }

abbrev pub red : Rgb
red = rgb 231 72 86

abbrev pub green : Rgb
green = rgb 22 198 12

abbrev pub white : Rgb
white = rgb 242 242 242

abbrev pub yellow : Rgb
yellow = rgb 249 241 165

-- `framebuffer` and `font`.
pub record Display : Type 0 where
  pub width : ℕ
  pub height : ℕ
  pub font : Bytes
  pub bytesperglyph : ℕ
  pub font_height : ℕ
  pub font_width : ℕ

abbrev pub Pixels : Type 0
Pixels = ℕ → Rgb

-- The cursor's fields are bytes.
pub record Terminal : Type 0 where
  pub pixels : Pixels
  pub cursor_y : ℕ
  pub cursor_x : ℕ

module _ (d : Display) where
  -- `clear_screen`. The loop's counter has 32 bits, and ends for fewer pixels than it can count.
  unfoldable pub clear_from : ℕ → ℕ → Pixels → Pixels
  clear_from zero i pixels = pixels
  clear_from (suc rounds) i pixels = clear_from rounds (i + 1) (update pixels i (rgb 0 0 0))

  unfoldable pub clear_screen : Pixels → Pixels
  clear_screen pixels = clear_from (d.height * d.width) 0 pixels

  -- `scroll`: a `memcpy` of pixels downwards, whose size is a number of 32 bits.
  abbrev pub scrolled_pixels : ℕ
  scrolled_pixels = (d.height - 1) * (d.width * 4 % 2 ^ 32) % 2 ^ 32 / 4

  unfoldable pub scroll : Pixels → Pixels
  scroll pixels p = if ltb p scrolled_pixels then pixels (p + d.width * d.font_height) else pixels p

  -- A `char` is signed, and the product is one of 32 bits.
  abbrev pub glyph_byte : ℕ → ℕ → ℕ
  glyph_byte c i =
      let signed = if ltb c 128 then c else 2 ^ 32 - 256 + c in
      d.font ((32 + signed * d.bytesperglyph) % 2 ^ 32 + i)

  abbrev pub pixel_index : ℕ → ℕ → ℕ → ℕ → ℕ
  pixel_index cy cx i j = (cx * d.font_width + j + d.width * (i + cy * d.font_height)) % 2 ^ 32

  -- The inner loop from column `j` on, and the outer one from row `i` on.
  unfoldable pub put_row : ℕ → ℕ → ℕ → ℕ → ℕ → ℕ → Rgb → Rgb → Pixels → Pixels
  put_row zero j i c cy cx fg bg pixels = pixels
  put_row (suc rounds) j i c cy cx fg bg pixels =
      let colour = if glyph_byte c i / 2 ^ (d.font_width - j) % 2 == 1 then fg else bg in
      put_row rounds (j + 1) i c cy cx fg bg (update pixels (pixel_index cy cx i j) colour)

  unfoldable pub put_rows : ℕ → ℕ → ℕ → ℕ → ℕ → Rgb → Rgb → Pixels → Pixels
  put_rows zero i c cy cx fg bg pixels = pixels
  put_rows (suc rounds) i c cy cx fg bg pixels =
      put_rows rounds (i + 1) c cy cx fg bg (put_row d.font_width 0 i c cy cx fg bg pixels)

  unfoldable pub put_char : ℕ → ℕ → ℕ → Rgb → Rgb → Pixels → Pixels
  put_char c cy cx fg bg pixels = put_rows d.font_height 0 c cy cx fg bg pixels

  -- The locals of `puts`, and the screen.
  pub record Pen : Type 0 where
    pub y : ℕ
    pub x : ℕ
    pub last_color : Rgb
    pub shown : Pixels

  -- The text's columns and rows.
  abbrev pub columns : ℕ
  columns = d.width / d.font_width

  abbrev pub rows : ℕ
  rows = d.height / d.font_height

  -- `if (x >= ...) { x = 0; y++; }`.
  abbrev pub wrapped : Pen → Pen
  wrapped p = if leb columns p.x then record p { x = 0; y = (p.y + 1) % 2 ^ 64 } else p

  -- `if (y >= ...) { scroll(); y--; }`.
  abbrev pub scrolled : Pen → Pen
  scrolled p =
      if leb rows p.y
      then record p { y = (p.y + 2 ^ 64 - 1) % 2 ^ 64; shown = scroll p.shown }
      else p

  abbrev pub drawn : ℕ → Rgb → Pen → Pen
  drawn c bg p = record p {
    x = (p.x + 1) % 2 ^ 64;
    shown = put_char c p.y p.x p.last_color bg p.shown;
  }

  unfoldable pub draw : ℕ → Rgb → Pen → Pen
  draw c bg p = drawn c bg (scrolled (wrapped p))

  abbrev pub newline : Pen → Pen
  newline p = record p { y = (p.y + 1) % 2 ^ 64; x = 0 }

  abbrev pub color_max_length : ℕ
  color_max_length = 16

  -- `while (str[i] != '}') code[tmp++] = str[i++]`, from index `i` on with room in the buffer for so many
  -- more: the characters, and where the brace stands. A
  -- character past the buffer is written behind it.
  unfoldable pub read_code : ℕ → Bytes → ℕ → Outcome (List ℕ × ℕ)
  read_code zero m i = if m i == b'}' then done ([], i) else fault
  read_code (suc room) m i =
      if m i == b'}'
      then done ([], i)
      else do (code, end) ← read_code room m (i + 1); done (m i ∷ code, end)

  -- The buffer, which starts with zeros, and a literal behind it.
  abbrev pub compared : List ℕ → List ℕ → Bytes
  compared code literal a =
      if ltb a color_max_length
      then place code (λ k. 0) a
      else place literal (λ k. 0) (a - color_max_length)

  -- `strcmp(code, literal)`: it ends within the literal.
  abbrev pub is_code : List ℕ → List ℕ → Outcome Bool
  is_code code literal = strcmp (length literal + 2) (compared code literal) 0 color_max_length

  unfoldable pub color_of : List ℕ → Outcome (Option Rgb)
  color_of code = do
    is_red ← is_code code (b'r' ∷ b'e' ∷ b'd' ∷ [])
    is_green ← is_code code (b'g' ∷ b'r' ∷ b'e' ∷ b'e' ∷ b'n' ∷ [])
    is_white ← is_code code (b'w' ∷ b'h' ∷ b'i' ∷ b't' ∷ b'e' ∷ [])
    is_yellow ← is_code code (b'y' ∷ b'e' ∷ b'l' ∷ b'l' ∷ b'o' ∷ b'w' ∷ [])
    done (
        if is_red
        then some red
        else if is_green
        then some green
        else if is_white
        then some white
        else if is_yellow
        then some yellow
        else none)

  -- The loop of `puts` from index `i` on, for a string `m`. A length of none is -1.
  unfoldable pub puts_from : ℕ → Bytes → Option ℕ → Rgb → ℕ → Pen → Outcome Pen
  puts_from zero m limit bg i p = out_of_fuel
  puts_from (suc fuel) m limit bg i p =
      let at_end = m i == 0 || elim limit [ none ↦ false | some n ↦ i == n ] in
      let on : ℕ → Pen → Outcome Pen = puts_from fuel m limit bg in
      let plain = on (i + 1) (draw (m i) bg p) in
      let coloured : Outcome Pen = read_code color_max_length m (i + 1) >>= λ r.
      color_of r.0 >>= λ color. elim color [
        | none ↦ plain
        | some c ↦ on (r.1 + 1) (record p { last_color = c })
      ] in
      if at_end
      then done p
      else if m i == b'\n'
      then on (i + 1) (newline p)
      else if m i == b'{'
      then coloured
      else plain

  unfoldable pub puts : ℕ → Bytes → Option ℕ → Rgb → Rgb → Terminal → Outcome Terminal
  puts fuel m limit fg bg t = do
    p ←
        puts_from fuel m limit bg 0
          (record { y = t.cursor_y; x = t.cursor_x; last_color = fg; shown = t.pixels })
    done (record { pixels = p.shown; cursor_y = p.y % 2 ^ 8; cursor_x = p.x % 2 ^ 8 })
