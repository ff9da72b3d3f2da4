-- ===== src/Kernel/Calls/Drawing.antt =====
-- src/kernel/syscalls/gui.cpp: what `sys_draw_from_buffer` leaves on the screen.
use umbra_os.Prelude.{
  ℕ, zero, suc, ◌+◌, ◌*◌, ◌^◌, ◌<◌, ◌≤◌, ◌≡◌, ◌≢◌, refl, sym, ◌∙◌, ap, ◌&&◌, ◌==◌, ltb,
  if◌then◌else◌, arith, ◌⊎◌, inl, inr, ltb→lt, ltb→le, Bool-cases, ==_iff, ==→ne,
}
use native.Mathlib.Nat.{mul-le-mul_left}
use umbra_os.Prelude.Maps.{update, update_ne, update_self}
use umbra_os.Kernel.Calls.{Mman, page_flags, draw_line, draw_lines, sys_draw_from_buffer}

module _ (buffer : ℕ → ℕ) (fw width : ℕ) (fits : width ≤ fw) where
  line_before : (y y' x : ℕ) → y < y' → x < fw → y * fw + x < y' * fw
  line_before y y' x h hx =
      let lines : fw * suc y ≤ fw * y' = mul-le-mul_left fw h in grind (arith, lines)

  -- Two pixels of the screen at one place stand in one line and one column.
  same_place : (y y' x k : ℕ) → x < fw → k < fw → y * fw + x ≡ y' * fw + k → (y ≡ y') × (x ≡ k)
  same_place y y' x k hx hk e = elim (Bool-cases (y == y')) [
    | inl here ↦ let one = (==_iff y y').0 here in (one, column one)
    | inr away ↦ absurd (apart (==→ne y y' away))
  ]
    where
      column : y ≡ y' → x ≡ k
      column one = let lines : y * fw ≡ y' * fw = ap (λ z. z * fw) one in omega (arith, e, lines)

      apart : (y ≡ y' → ⊥) → ⊥
      apart ne = ground (arith, ne, e, line_before y y' x, line_before y' y k, hx, hk)

  line_other :
      (rounds y x : ℕ) (f : ℕ → ℕ) (y' k : ℕ)
      → x + rounds ≤ width
      → k < fw
      → (y ≢ y') ⊎ (k < x) ⊎ (width ≤ k)
      → draw_line rounds buffer fw width y x f (y' * fw + k) ≡ f (y' * fw + k)
  unfolding draw_line
  line_other zero y x f y' k h hk apart = refl
  line_other (suc rounds) y x f y' k h hk apart =
      line_other rounds y (x + 1) (update f (y * fw + x) (buffer (y * width + x))) y' k
        (omega (arith, h)) hk later
      ∙ update_ne f (y * fw + x) (y' * fw + k) (buffer (y * width + x))
          (λ e. clash (same_place y y' x k (omega (arith, h, fits)) hk e))
    where
      later : (y ≢ y') ⊎ (k < x + 1) ⊎ (width ≤ k)
      later = elim apart [
        | inl ne ↦ inl ne
        | inr (inl l) ↦ inr (inl (omega (arith, l)))
        | inr (inr l) ↦ inr (inr l)
      ]

      clash : (y ≡ y') × (x ≡ k) → ⊥
      clash (one, two) = elim apart [
        | inl ne ↦ ne one
        | inr (inl l) ↦ omega (arith, l, two)
        | inr (inr l) ↦ omega (arith, l, two, h)
      ]

  line_drawn :
      (rounds y x : ℕ) (f : ℕ → ℕ) (k : ℕ)
      → x + rounds ≤ width
      → x ≤ k
      → k < x + rounds
      → draw_line rounds buffer fw width y x f (y * fw + k) ≡ buffer (y * width + k)
  unfolding draw_line
  line_drawn zero y x f k h low high = absurd (omega (arith, low, high))
  line_drawn (suc rounds) y x f k h low high =
      let after = update f (y * fw + x) (buffer (y * width + x)) in
      elim (Bool-cases (x == k)) [
        | inl here ↦
            let one = (==_iff x k).0 here in
            line_other rounds y (x + 1) after y k (omega (arith, h)) (omega (arith, high, h, fits))
              (inr (inl (omega (arith, one))))
            ∙ ap (λ z. after (y * fw + z)) (sym one)
            ∙ update_self f (y * fw + x) (buffer (y * width + x))
            ∙ ap (λ z. buffer (y * width + z)) one
        | inr away ↦
            line_drawn rounds y (x + 1) after k (omega (arith, h)) (next (==→ne x k away))
              (omega (arith, high))
      ]
    where
      next : (x ≡ k → ⊥) → x + 1 ≤ k
      next ne = omega (arith, ne, low)

  lines_other :
      (rounds y : ℕ) (f : ℕ → ℕ) (y' k : ℕ)
      → k < fw
      → ((y' < y) ⊎ (y + rounds ≤ y')) ⊎ (width ≤ k)
      → draw_lines rounds buffer fw width y f (y' * fw + k) ≡ f (y' * fw + k)
  unfolding draw_lines
  lines_other zero y f y' k hk apart = refl
  lines_other (suc rounds) y f y' k hk apart =
      lines_other rounds (y + 1) (draw_line width buffer fw width y 0 f) y' k hk later
      ∙ line_other width y 0 f y' k (omega arith) hk now
    where
      later : ((y' < y + 1) ⊎ (y + 1 + rounds ≤ y')) ⊎ (width ≤ k)
      later = elim apart [
        | inl (inl l) ↦ inl (inl (omega (arith, l)))
        | inl (inr l) ↦ inl (inr (omega (arith, l)))
        | inr l ↦ inr l
      ]

      now : (y ≢ y') ⊎ (k < 0) ⊎ (width ≤ k)
      now = elim apart [
        | inl (inl l) ↦ inl (λ e. omega (arith, l, e))
        | inl (inr l) ↦ inl (λ e. omega (arith, l, e))
        | inr l ↦ inr (inr l)
      ]

  lines_drawn :
      (rounds y : ℕ) (f : ℕ → ℕ) (y' k : ℕ)
      → k < width
      → y ≤ y'
      → y' < y + rounds
      → draw_lines rounds buffer fw width y f (y' * fw + k) ≡ buffer (y' * width + k)
  unfolding draw_lines
  lines_drawn zero y f y' k hk low high = absurd (omega (arith, low, high))
  lines_drawn (suc rounds) y f y' k hk low high =
      let line = draw_line width buffer fw width y 0 f in
      elim (Bool-cases (y == y')) [
        | inl here ↦
            let one = (==_iff y y').0 here in
            lines_other rounds (y + 1) line y' k (omega (arith, hk, fits))
              (inl (inl (omega (arith, one))))
            ∙ ap (λ z. line (z * fw + k)) (sym one)
            ∙ line_drawn width y 0 f k (omega arith) (omega arith) (omega (arith, hk))
            ∙ ap (λ z. buffer (z * width + k)) one
        | inr away ↦
            lines_drawn rounds (y + 1) line y' k hk (next (==→ne y y' away)) (omega (arith, high))
      ]
    where
      next : (y ≡ y' → ⊥) → y + 1 ≤ y'
      next ne = omega (arith, ne, low)

  -- When a picture is no wider than the screen, `sys_draw_from_buffer` puts each of its pixels in
  -- its line and column, and leaves every other pixel of the screen.
  sys_draw_from_buffer_lem :
      (height : ℕ) (f : ℕ → ℕ) (y x : ℕ)
      → x < fw
      → sys_draw_from_buffer buffer fw width height f (y * fw + x)
        ≡ (if ltb y height && ltb x width then buffer (y * width + x) else f (y * fw + x))
  unfolding sys_draw_from_buffer
  sys_draw_from_buffer_lem height f y x h = elim (Bool-cases (ltb y height)) [
    | inl low ↦ elim (Bool-cases (ltb x width)) [
      | inl left ↦
          rw (low, left)
            (lines_drawn height 0 f y x (ltb→lt x width left) (omega arith)
              (omega (arith, ltb→lt y height low)))
      | inr right ↦ rw (low, right) (lines_other height 0 f y x h (inr (ltb→le x width right)))
    ]
    | inr below ↦
        rw below (lines_other height 0 f y x h (inl (inr (omega (arith, ltb→le y height below)))))
  ]

-- The flags that `sys_mmap` gives to the pages that it maps have no bit above the lowest three,
-- whatever the protection asked for.
page_flags-lt : (c : Mman) (prot : ℕ) → page_flags c prot < 2 ^ 3
unfolding page_flags
page_flags-lt c prot = elim (Bool-cases (c.prot_write prot)) [
  | inl w ↦ elim (Bool-cases (c.prot_exec prot)) [
    | inl x ↦ rw (w, x) (omega arith)
    | inr x ↦ rw (w, x) (omega arith)
  ]
  | inr w ↦ elim (Bool-cases (c.prot_exec prot)) [
    | inl x ↦ rw (w, x) (omega arith)
    | inr x ↦ rw (w, x) (omega arith)
  ]
]
