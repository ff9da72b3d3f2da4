-- ===== src/Kernel/Terminal/Bounds.antt =====
-- src/kernel/terminal.cpp: what `puts` writes stays within the framebuffer.
use umbra_os.Prelude.{
  ℕ, zero, suc, ◌+◌, ◌-◌, ◌*◌, ◌/◌, ◌%◌, ◌^◌, ◌<◌, ◌≤◌, ◌≡◌, ◌≢◌, refl, ◌∙◌, false, none, ◌==◌, ltb,
  leb, if◌then◌else◌, ◌⊎◌, inl, inr, Bool-cases, done, arith, ==_of_ne, ==_iff, leb→le, le→ltb,
}
use native.Mathlib.Nat.{mul-le-mul_left}
use umbra_os.Prelude.Maps.{update, update_ne}
use umbra_os.Libc.Strings.{Bytes}
use umbra_os.Kernel.Terminal.{
  Rgb, Display, Pixels, Pen, scroll, put_row, put_rows, put_char, pixel_index, glyph_byte, columns,
  rows, wrapped, scrolled, draw, newline, scrolled_pixels, puts_from, puts, Terminal,
}

-- A framebuffer and a font whose sizes the code's numbers of 32 bits hold, with room for a character.
pub record IsDisplay (d : Display) : Type 0 where
  pub pixels_fit : d.width * d.height * 4 < 2 ^ 32
  pub font_width_pos : 0 < d.font_width
  pub font_height_pos : 0 < d.font_height
  pub columns_pos : 0 < columns d
  pub rows_pos : 0 < rows d

-- Two screens agree behind the framebuffer.
abbrev pub SameBehind : Display → Pixels → Pixels → Type 0
SameBehind d f g = (p : ℕ) → d.width * d.height ≤ p → g p ≡ f p

mul-lt : (w h a b : ℕ) → a < w → b < h → a + w * b < w * h
mul-lt w h a b la lb = grind arith

div-mul-le : (a b : ℕ) → 0 < b → a / b * b ≤ a
div-mul-le a b h = grind arith

lines-le : (w h line : ℕ) → line ≤ w * 4 → (h - 1) * line ≤ w * h * 4
lines-le w zero line l = omega arith
lines-le w (suc h) line l =
    let lines : h * line ≤ h * (w * 4) = mul-le-mul_left h l in
    let less : suc h - 1 ≡ h = omega arith in rw less (grind (arith, lines))

slot-lt : (size part c i : ℕ) → c < size / part → i < part → c * part + i < size
slot-lt size part c i hc hi = grind (arith, div-mul-le size part)

module _ (d : Display) (v : IsDisplay d) where
  abbrev bound : ℕ
  bound = d.width * d.height

  pixel_index-lt :
      (cy cx i j : ℕ)
      → cy < rows d
      → cx < columns d
      → i < d.font_height
      → j < d.font_width
      → pixel_index d cy cx i j < bound
  pixel_index-lt cy cx i j hy hx hi hj =
      let across = slot-lt d.width d.font_width cx j hx hj in
      let down : i + cy * d.font_height < d.height =
        omega (arith, slot-lt d.height d.font_height cy i hy hi) in
      let inside =
        mul-lt d.width d.height (cx * d.font_width + j) (i + cy * d.font_height) across down in
      grind (arith, inside)

  put_row-SameBehind :
      (rounds j i c cy cx : ℕ) (fg bg : Rgb) (pixels : Pixels)
      → cy < rows d
      → cx < columns d
      → i < d.font_height
      → j + rounds ≤ d.font_width
      → SameBehind d pixels (put_row d rounds j i c cy cx fg bg pixels)
  unfolding put_row
  put_row-SameBehind zero j i c cy cx fg bg pixels hy hx hi hj p out = refl
  put_row-SameBehind (suc rounds) j i c cy cx fg bg pixels hy hx hi hj p out =
      let index = pixel_index d cy cx i j in
      let colour = if glyph_byte d c i / 2 ^ (d.font_width - j) % 2 == 1 then fg else bg in
      let within = pixel_index-lt cy cx i j hy hx hi (omega (arith, hj)) in
      put_row-SameBehind rounds (j + 1) i c cy cx fg bg (update pixels index colour) hy hx hi
        (omega (arith, hj)) p out
      ∙ update_ne pixels index p colour (λ e. grind (arith, within))

  put_rows-SameBehind :
      (rounds i c cy cx : ℕ) (fg bg : Rgb) (pixels : Pixels)
      → cy < rows d
      → cx < columns d
      → i + rounds ≤ d.font_height
      → SameBehind d pixels (put_rows d rounds i c cy cx fg bg pixels)
  unfolding put_rows
  put_rows-SameBehind zero i c cy cx fg bg pixels hy hx hi p out = refl
  put_rows-SameBehind (suc rounds) i c cy cx fg bg pixels hy hx hi p out =
      put_rows-SameBehind rounds (i + 1) c cy cx fg bg
        (put_row d d.font_width 0 i c cy cx fg bg pixels) hy hx (omega (arith, hi)) p out
      ∙ put_row-SameBehind d.font_width 0 i c cy cx fg bg pixels hy hx (omega (arith, hi))
          (omega arith) p out

  scroll-SameBehind : (pixels : Pixels) → SameBehind d pixels (scroll d pixels)
  unfolding scroll
  scroll-SameBehind pixels p out =
      let line = d.width * 4 % 2 ^ 32 in
      let short : line ≤ d.width * 4 = omega arith in
      let size : (d.height - 1) * line ≤ bound * 4 = lines-le d.width d.height line short in
      let behind : ltb p (scrolled_pixels d) ≡ false =
        le→ltb p (scrolled_pixels d) (omega (arith, size, out)) in
      rw behind refl

  rows_fit : rows d < 2 ^ 32
  rows_fit = grind (
    arith,
    v.pixels_fit,
    v.columns_pos,
    v.rows_pos,
    div-mul-le d.width d.font_width,
    div-mul-le d.height d.font_height,
  )

  -- The cursor stands in the text's rows, or at the start of the row below.
  abbrev pub Stands : Pen d → Type 0
  Stands p = (p.y < rows d) ⊎ ((p.y ≡ rows d) × (p.x ≡ 0))

  wrapped_lem : (p : Pen d) → Stands p → ((wrapped d p).y ≤ rows d) × ((wrapped d p).x < columns d)
  wrapped_lem p at = elim (Bool-cases (leb (columns d) p.x)) [
    | inl e ↦ rw e (ground (arith, at, v.columns_pos, rows_fit, leb→le _ _ e), v.columns_pos)
    | inr e ↦ rw e (ground (arith, at), ground (arith, e))
  ]

  scrolled_lem :
      (p : Pen d)
      → p.y ≤ rows d
      → ((scrolled d p).y < rows d)
        × ((scrolled d p).x ≡ p.x)
        × SameBehind d p.shown (scrolled d p).shown
  scrolled_lem p low = elim (Bool-cases (leb (rows d) p.y)) [
    | inl e ↦
        rw e
          (omega (arith, low, leb→le _ _ e, rows_fit, v.rows_pos), refl, scroll-SameBehind p.shown)
    | inr e ↦ rw e (ground (arith, e), refl, λ q out. refl)
  ]

  draw_lem :
      (c : ℕ) (bg : Rgb) (p : Pen d)
      → Stands p
      → ((draw d c bg p).y < rows d) × SameBehind d p.shown (draw d c bg p).shown
  unfolding draw put_char
  draw_lem c bg p at =
      let (low, left) = wrapped_lem p at in
      let (below, same, kept) = scrolled_lem (wrapped d p) low in
      let q = scrolled d (wrapped d p) in
      let shown : SameBehind d q.shown (put_char d c q.y q.x q.last_color bg q.shown) =
        put_rows-SameBehind d.font_height 0 c q.y q.x q.last_color bg q.shown below (rw same left)
          (omega arith) in
      (below, λ i out. shown i out ∙ kept i out ∙ wrapped_shown i)
    where
      wrapped_shown : (i : ℕ) → (wrapped d p).shown i ≡ p.shown i
      wrapped_shown i = elim (Bool-cases (leb (columns d) p.x)) [
        | inl e ↦ rw e refl
        | inr e ↦ rw e refl
      ]

-- A string that ends at index `n`, without a color code and without an empty line.
pub record IsPlain (m : Bytes) (n : ℕ) : Type 0 where
  pub ends : m n ≡ 0
  pub uncoloured : (k : ℕ) → k < n → m k ≢ b'{'
  pub single : (k : ℕ) → k < n → m k ≡ b'\n' → m (k + 1) ≢ b'\n'

module _ (d : Display) (v : IsDisplay d) (m : Bytes) (n : ℕ) (t : IsPlain m n) (bg : Rgb) where
  abbrev Ready : ℕ → Pen d → Type 0
  Ready i p = (p.y < rows d) ⊎ ((p.y ≡ rows d) × (p.x ≡ 0) × (m i ≢ b'\n'))

  abbrev Written : ℕ → ℕ → Pen d → Type 0
  Written fuel i p =
      (q : Pen d) × (puts_from d fuel m none bg i p ≡ done q)
      × SameBehind d p.shown q.shown
      × Stands d v q

  puts_from_lem : (fuel i : ℕ) (p : Pen d) → i ≤ n → n < i + fuel → Ready i p → Written fuel i p
  unfolding puts_from
  puts_from_lem zero i p h f r = absurd (omega (arith, h, f))
  puts_from_lem (suc fuel) i p h f r = elim (Bool-cases (m i == 0)) [
    | inl e ↦ (p, rw e refl, λ q out. refl, stands)
    | inr e ↦
        let here = before_end e in
        let no_code = ==_of_ne (m i) b'{' (t.uncoloured i here) in
        elim (Bool-cases (m i == b'\n')) [
          | inl l ↦
              let line = (==_iff (m i) b'\n').0 l in
              let (q, e', kept, at) =
                puts_from_lem fuel (i + 1) (newline d p) (omega (arith, here)) (omega (arith, f))
                  (next_line line (t.single i here line)) in
              (q, rw (e, l) e', kept, at)
          | inr l ↦
              let (below, shown) = draw_lem d v (m i) bg p stands in
              let (q, e', kept, at) =
                puts_from_lem fuel (i + 1) (draw d (m i) bg p) (omega (arith, here))
                  (omega (arith, f)) (inl below) in
              (q, rw (e, l, no_code) e', λ a out. kept a out ∙ shown a out, at)
        ]
  ]
    where
      stands : Stands d v p
      stands = ground (arith, r)

      before_end : (m i == 0) ≡ false → i < n
      before_end e = ground (arith, t.ends, h, e)

      next_line : m i ≡ b'\n' → m (i + 1) ≢ b'\n' → Ready (i + 1) (newline d p)
      next_line l other = ground (arith, r, l, other, rows_fit d v)

-- On a display whose pixels take fewer than 2 ^ 32 bytes, with room for a character and fewer than
-- 256 rows of text, and with the cursor in a row, `puts` of a text that ends, has no opening brace
-- and no two line feeds in a row comes to an end with fuel for each character and one more, changes
-- no pixel behind the framebuffer, and leaves the cursor at most one row below the text.
pub puts_lem :
    (d : Display) (m : Bytes) (n fuel : ℕ) (fg bg : Rgb) (t : Terminal)
    → IsDisplay d
    → rows d < 2 ^ 8
    → IsPlain m n
    → n < fuel
    → t.cursor_y < rows d
    → (t' : Terminal) × (puts d fuel m none fg bg t ≡ done t')
      × SameBehind d t.pixels t'.pixels
      × (t'.cursor_y ≤ rows d)
unfolding puts
puts_lem d m n fuel fg bg t v few plain enough low =
    let start : Pen d = record {
      y = t.cursor_y;
      x = t.cursor_x;
      last_color = fg;
      shown = t.pixels;
    } in
    let (q, e, kept, at) =
      puts_from_lem d v m n plain bg fuel 0 start (omega arith) (omega (arith, enough)) (inl low) in
    (
      record { pixels = q.shown; cursor_y = q.y % 2 ^ 8; cursor_x = q.x % 2 ^ 8 },
      rw e refl,
      kept,
      ground (arith, at, few),
    )
