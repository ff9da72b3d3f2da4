-- ===== src/Memory/Pmm/Entries.antt =====
-- src/kernel/memory/pmm.cpp: the entries of the memory map, with the bitmap cut out of one.
use umbra_os.Prelude.{
  ℕ, ◌+◌, ◌-◌, ◌/◌, ◌%◌, ◌≤◌, ◌≡◌, refl, sym, ◌∙◌, ap, Bool, true, false, not, Option, none, some,
  leb, ◌&&◌, ◌||◌, List, [], ◌∷◌, arith, inl, inr, Bool-cases, All,
}
use umbra_os.Memory.Pmm.{MemmapEntry, page_size, place}
use umbra_os.Memory.Pmm.Search.{inside}

-- The pages of an entry that the last loop frees.
abbrev pub covers : MemmapEntry → ℕ → Bool
covers e i = e.usable && inside (e.base / page_size) ((e.len + page_size - 1) / page_size) i

abbrev pub covered : List MemmapEntry → ℕ → Bool
covered [] i = false
covered (e ∷ es) i = covers e i || covered es i

-- Whether some usable entry has room for the bitmap.
abbrev pub has_room : ℕ → List MemmapEntry → Bool
has_room size [] = false
has_room size (e ∷ es) = (e.usable && leb size e.len) || has_room size es

abbrev pub IsAligned : MemmapEntry → Type 0
IsAligned e = e.base % page_size ≡ 0

pub place_some :
    (size : ℕ) (es : List MemmapEntry)
    → has_room size es ≡ true
    → (base : ℕ) × ((place size es).0 ≡ some base)
unfolding place
place_some size [] h = cc
place_some size (e ∷ es) h = elim (Bool-cases (e.usable && leb size e.len)) [
  | inl fits ↦ (e.base, rw fits refl)
  | inr full ↦ let (base, q) = place_some size es (ground (arith, h, full)) in (base, rw full q)
]

-- No page is covered by two entries.
abbrev pub Apart : List MemmapEntry → Type 0
Apart [] = Unit {0}
Apart (e ∷ es) = ((i : ℕ) → (covers e i && covered es i) ≡ false) × Apart es

-- The pages that the bitmap takes.
abbrev pub in_bitmap : ℕ → ℕ → ℕ → Bool
in_bitmap base size i = inside (base / page_size) (size / page_size) i

or_left : (b c : Bool) → b ≡ true → (b || c) ≡ true
or_left b c h = ground arith

or_right : (b c : Bool) → c ≡ true → (b || c) ≡ true
or_right true c h = refl
or_right false c h = h

cut_law :
    (c e o b : Bool)
    → c ≡ (e && not b)
    → (e && o) ≡ false
    → (b ≡ true → e ≡ true)
    → (c || o) ≡ ((e || o) && not b)
cut_law c e o b h apart within = ground (arith, h, apart, within)

rest_law :
    (e o' o b : Bool)
    → o' ≡ (o && not b)
    → (e && o) ≡ false
    → (b ≡ true → o ≡ true)
    → (e || o') ≡ ((e || o) && not b)
rest_law e o' o b h apart within = ground (arith, h, apart, within)

module _ (size : ℕ) (whole : size % page_size ≡ 0) where
  covers-of_bitmap :
      (e : MemmapEntry) (i : ℕ)
      → (e.usable && leb size e.len) ≡ true
      → in_bitmap e.base size i ≡ true
      → covers e i ≡ true
  covers-of_bitmap e i fits h = ground (arith, fits, h, whole)

  -- What is left of the entry that the bitmap was cut from.
  covers-cut :
      (e : MemmapEntry) (i : ℕ)
      → IsAligned e
      → (e.usable && leb size e.len) ≡ true
      → covers (record e { base = e.base + size; len = e.len - size }) i
        ≡ (covers e i && not (in_bitmap e.base size i))
  covers-cut e i aligned fits =
      let shifted : (e.base + size) / page_size ≡ e.base / page_size + size / page_size =
        omega (arith, aligned, whole) in
      let shorter : (size ≤ e.len)
          → (e.len - size + page_size - 1) / page_size + size / page_size
            ≡ (e.len + page_size - 1) / page_size =
        λ l. omega (arith, whole, l) in
      ground (arith, fits, shifted, shorter)

  abbrev cut : MemmapEntry → MemmapEntry
  cut e = record e { base = e.base + size; len = e.len - size }

  place-fits :
      (e : MemmapEntry) (es : List MemmapEntry)
      → (e.usable && leb size e.len) ≡ true
      → place size (e ∷ es) ≡ (some e.base, cut e ∷ es)
  unfolding place
  place-fits e es fits = rw fits refl

  place-full :
      (e : MemmapEntry) (es : List MemmapEntry)
      → (e.usable && leb size e.len) ≡ false
      → place size (e ∷ es) ≡ ((place size es).0, e ∷ (place size es).1)
  unfolding place
  place-full e es full = rw full refl

  base_of :
      (e : MemmapEntry) (es : List MemmapEntry) (base : ℕ)
      → (e.usable && leb size e.len) ≡ true
      → (place size (e ∷ es)).0 ≡ some base
      → e.base ≡ base
  base_of e es base fits q =
      let at : some e.base ≡ some base =
        sym (ap (λ (r : Option ℕ × List MemmapEntry). r.0) (place-fits e es fits)) ∙ q in
      cc

  base_behind :
      (e : MemmapEntry) (es : List MemmapEntry) (base : ℕ)
      → (e.usable && leb size e.len) ≡ false
      → (place size (e ∷ es)).0 ≡ some base
      → (place size es).0 ≡ some base
  base_behind e es base full q =
      sym (ap (λ (r : Option ℕ × List MemmapEntry). r.0) (place-full e es full)) ∙ q

  covered-of_bitmap :
      (es : List MemmapEntry) (base i : ℕ)
      → (place size es).0 ≡ some base
      → in_bitmap base size i ≡ true
      → covered es i ≡ true
  covered-of_bitmap [] base i q h =
      let none_there : ◌≡◌ {A = Option ℕ} none (some base) = unfold place in q in cc
  covered-of_bitmap (e ∷ es) base i q h = elim (Bool-cases (e.usable && leb size e.len)) [
    | inl fits ↦
        let same = base_of e es base fits q in
        or_left (covers e i) (covered es i) (covers-of_bitmap e i fits (rw same h))
    | inr full ↦
        or_right (covers e i) (covered es i)
          (covered-of_bitmap es base i (base_behind e es base full q) h)
  ]

  -- The pages of the entries that are left.
  pub covered-place :
      (es : List MemmapEntry) (base i : ℕ)
      → (place size es).0 ≡ some base
      → All IsAligned es
      → Apart es
      → covered (place size es).1 i ≡ (covered es i && not (in_bitmap base size i))
  covered-place [] base i q a d =
      let none_there : ◌≡◌ {A = Option ℕ} none (some base) = unfold place in q in cc
  covered-place (e ∷ es) base i q a d = elim (Bool-cases (e.usable && leb size e.len)) [
    | inl fits ↦
        let same = base_of e es base fits q in
        rw (place-fits e es fits, sym same)
          (cut_law (covers (cut e) i) (covers e i) (covered es i) (in_bitmap e.base size i)
            (covers-cut e i a.0 fits) (d.0 i) (covers-of_bitmap e i fits))
    | inr full ↦
        let q' = base_behind e es base full q in
        rw (place-full e es full) (
          rest_law (covers e i) (covered (place size es).1 i) (covered es i) (in_bitmap base size i)
            (covered-place es base i q' a.1 d.1) (d.0 i) (covered-of_bitmap es base i q'))
  ]
