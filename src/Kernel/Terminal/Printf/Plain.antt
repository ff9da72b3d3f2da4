-- ===== src/Kernel/Terminal/Printf/Plain.antt =====
-- src/kernel/terminal.cpp: `printf` of a text without specifiers.
use umbra_os.Prelude.{
  ℕ, zero, suc, ◌+◌, ◌^◌, ◌<◌, ◌≤◌, ◌≡◌, ◌≢◌, refl, sym, ◌∙◌, ap, true, false, List, ◌==◌, ltb, inl,
  inr, Bool-cases, done, arith, ==_of_ne, ==_iff, lt→ltb,
}
use mathlib.Core.Path.{subst}
use umbra_os.Libc.Strings.{Bytes}
use umbra_os.Kernel.Terminal.{Display, Terminal, rows, rgb, white}
use umbra_os.Kernel.Terminal.Bounds.{IsDisplay, IsPlain, SameBehind, puts_lem}
use umbra_os.Kernel.Terminal.Printf.{Out, emit, vsprintf_from, printf}

module _ (m : Bytes) (format n : ℕ) (args : List ℕ) (ends : m (format + n) ≡ 0)
    (inner : (k : ℕ) → k < n → (m (format + k) ≢ 0) × (m (format + k) ≢ b'%')) where
  -- After `i` characters.
  abbrev Copied : ℕ → Out → Type 0
  Copied i o =
      (o.at ≡ i)
      × ((k : ℕ) → k < i → o.memory k ≡ m (format + k))
      × ((k : ℕ) → i ≤ k → o.memory k ≡ 0)

  Copied-emit : (i : ℕ) (o : Out) → Copied i o → Copied (i + 1) (emit (m (format + i)) o)
  Copied-emit i o (here, before, after) = (
    omega (arith, here),
    λ k h. ground (arith, here, before k, same k),
    λ k h. ground (arith, here, after k),
  )
    where
      same : (k : ℕ) → i ≡ k → m (format + i) ≡ m (format + k)
      same k e = ap (λ j. m (format + j)) e

  vsprintf_from_lem :
      (fuel i : ℕ) (o : Out)
      → i ≤ n
      → n < i + fuel
      → Copied i o
      → (o' : Out) × (vsprintf_from fuel m format i false args o ≡ done o') × Copied n o'
  unfolding vsprintf_from
  vsprintf_from_lem zero i o h f c = absurd (omega (arith, h, f))
  vsprintf_from_lem (suc fuel) i o h f c = elim (Bool-cases (m (format + i) == 0)) [
    | inl e ↦ (o, rw e refl, at_end ((==_iff (m (format + i)) 0).0 e))
    | inr e ↦
        let here = before_end e in
        let other = ==_of_ne (m (format + i)) b'%' (inner i here).1 in
        let (o', e', copied) =
          vsprintf_from_lem fuel (i + 1) (emit (m (format + i)) o) (omega (arith, here))
            (omega (arith, f)) (Copied-emit i o c) in
        (o', rw (e, other) e', copied)
  ]
    where
      at_end : m (format + i) ≡ 0 → Copied n o
      at_end e = subst (λ j. Copied j o) (stops e) c
        where
          stops : m (format + i) ≡ 0 → i ≡ n
          stops e = ground (arith, h, inner i, e)

      before_end : (m (format + i) == 0) ≡ false → i < n
      before_end e = ground (arith, ends, h, e, same)
        where
          same : i ≡ n → m (format + i) ≡ m (format + n)
          same q = ap (λ j. m (format + j)) q

-- On a display as `puts` needs it, `printf` of a text of fewer than 1024 characters that ends, has no
-- percent sign, no opening brace and no two line feeds in a row comes to an end with fuel for each
-- character and one more, changes no pixel behind the framebuffer, and leaves the cursor at most one
-- row below the text.
pub printf_lem :
    (d : Display) (m : Bytes) (format n fuel : ℕ) (args : List ℕ) (t : Terminal)
    → IsDisplay d
    → rows d < 2 ^ 8
    → IsPlain (λ k. m (format + k)) n
    → ((k : ℕ) → k < n → (m (format + k) ≢ 0) × (m (format + k) ≢ b'%'))
    → n < 1024
    → n < fuel
    → t.cursor_y < rows d
    → (t' : Terminal) × (printf d fuel m format args t ≡ done t')
      × SameBehind d t.pixels t'.pixels
      × (t'.cursor_y ≤ rows d)
unfolding printf
printf_lem d m format n fuel args t v few plain inner room enough low =
    let blank : Out = record { memory = λ k. 0; at = 0 } in
    let start : Copied m format n args plain.ends inner 0 blank =
      (refl, λ k h. absurd (omega (arith, h)), λ k h. refl) in
    let (o, e, (here, before, after)) =
      vsprintf_from_lem m format n args plain.ends inner fuel 0 blank (omega arith)
        (omega (arith, enough)) start in
    let short : ltb o.at 1024 ≡ true = lt→ltb o.at 1024 (omega (arith, here, room)) in
    let copied : IsPlain o.memory n = record {
      ends = after n (omega arith);
      uncoloured = λ k h. rw (before k h) (plain.uncoloured k h);
      single = λ k h l. next o before after k h (sym (before k h) ∙ l);
    } in
    let (t', e', kept, at) =
      puts_lem d o.memory n fuel white (rgb 0 0 0) t v few copied enough low in
    (t', rw (e, short) e', kept, at)
  where
    next :
        (o : Out)
        → ((k : ℕ) → k < n → o.memory k ≡ m (format + k))
        → ((k : ℕ) → n ≤ k → o.memory k ≡ 0)
        → (k : ℕ) → k < n
        → m (format + k) ≡ b'\n'
        → o.memory (k + 1) ≢ b'\n'
    next o before after k h l =
        let other = plain.single k h l in ground (arith, before (k + 1), after (k + 1), other)
