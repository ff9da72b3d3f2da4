-- ===== src/Memory/Pmm/Search.antt =====
-- src/kernel/memory/pmm.cpp: the scan of `inner_alloc` over the bitmap.
use umbra_os.Prelude.{
  ℕ, zero, suc, ◌+◌, ◌-◌, ◌≤◌, ◌<◌, ◌≡◌, Bool, true, false, Option, none, some, ◌==◌, ltb, leb,
  if◌then◌else◌, arith, ◌&&◌, inl, inr, Bool-cases, ==_iff, ==→ne, ltb→lt, ltb→le, ap,
}
use umbra_os.Utils.Bitmap
use umbra_os.Utils.Bitmap.{Bitmap}
use umbra_os.Utils.Bitmap.Laws.{IsBytes, get-set, set-IsBytes}
use umbra_os.Memory.Pmm.{Pmm, Found, mark, search_from, search}

-- `i` is one of the `n` pages from `page` on.
abbrev pub inside : ℕ → ℕ → ℕ → Bool
inside page n i = leb page i && ltb i (page + n)

pub mark-IsBytes : (v : Bool) (n page : ℕ) (b : Bitmap) → IsBytes b → IsBytes (mark v n page b)
unfolding mark
mark-IsBytes v zero page b h = h
mark-IsBytes v (suc n) page b h =
    mark-IsBytes v n (page + 1) (Bitmap.set b page v) (set-IsBytes b page v h)

-- Marking sets the pages of the run and leaves the others.
pub get-mark :
    (v : Bool) (n page : ℕ) (b : Bitmap) (i : ℕ)
    → IsBytes b
    → Bitmap.get (mark v n page b) i ≡ (if inside page n i then v else Bitmap.get b i)
unfolding mark
get-mark v zero page b i h = ground arith
get-mark v (suc n) page b i h = ground (
  arith,
  get-mark v n (page + 1) (Bitmap.set b page v) i (set-IsBytes b page v h),
  get-set b page v i h,
)

-- The `n` pages from `page` on are free.
abbrev pub IsFree : Bitmap → ℕ → ℕ → Type 0
IsFree b page n = (i : ℕ) → page ≤ i → i < page + n → Bitmap.get b i ≡ false

true≢false : {c : Bool} → c ≡ true → c ≡ false → ⊥
true≢false e f = cc

module _ (b : Bitmap) (pages start limit : ℕ) where
  -- No free run of `pages` pages begins at or after `start` and before `page`.
  abbrev pub NoneBefore : ℕ → Type 0
  NoneBefore page = (q : ℕ) → start ≤ q → q < page → ¬ IsFree b q pages

  -- What a scan answers: the first free run from `start` on, and it is marked; or there is none
  -- that ends at `limit`, and the bitmap is as it was.
  abbrev pub Answer : Option ℕ → Pmm → Type 0
  Answer (some page) after =
      (start ≤ page)
      × (page + pages ≤ limit)
      × IsFree b page pages
      × NoneBefore page
      × (after ≡ record { bitmap = mark true pages page b; last_page_idx = page + pages })
  Answer none after =
      ((q : ℕ) → start ≤ q → q + pages ≤ limit → ¬ IsFree b q pages)
      × (after ≡ record { bitmap = b; last_page_idx = limit })

  abbrev Answers : Found → Type 0
  Answers f = Answer f.page f.after

  search_from-Answer :
      (fuel last acc s : ℕ)
      → last + fuel ≡ limit
      → s + acc ≡ last
      → acc < pages
      → start ≤ s
      → IsFree b s acc
      → NoneBefore s
      → Answers (search_from fuel pages last acc b)
  unfolding search_from
  search_from-Answer zero last acc s el es ha hs run before = (
    λ q hq hl. elim (Bool-cases (ltb q s)) [
      | inl l ↦ before q hq (ltb→lt q s l)
      | inr g ↦ λ _. absurd (omega (arith, ltb→le q s g))
    ],
    ap (λ l. record { bitmap = b; last_page_idx = l }) (omega arith),
  )
  search_from-Answer (suc fuel) last acc s el es ha hs run before =
      elim (Bool-cases (Bitmap.get b last)) [
        | inl used ↦ rw used (
            search_from-Answer fuel (last + 1) 0 (last + 1) (omega arith) (omega arith)
              (omega arith) (omega arith) (λ i h k. absurd (omega arith)) (blocked used))
        | inr unused ↦ elim (Bool-cases (acc + 1 == pages)) [
          | inl full ↦
              let here : last + 1 - pages ≡ s = ground (arith, full) in
              rw (unused, full, here)
                (
                  hs,
                  ground (arith, full),
                  whole unused full,
                  before,
                  ap (λ l. record { bitmap = mark true pages s b; last_page_idx = l })
                      (ground (arith, full)),
                )
          | inr short ↦
              rw (unused, short)
                (search_from-Answer fuel (last + 1) (acc + 1) s (omega arith) (omega arith)
                  (ground (arith, short)) hs (longer unused) before)
        ]
      ]
    where
      blocked : Bitmap.get b last ≡ true → NoneBefore (last + 1)
      blocked used q hq hl free = elim (Bool-cases (ltb q s)) [
        | inl l ↦ before q hq (ltb→lt q s l) free
        | inr g ↦ true≢false used (free last (omega arith) (omega (arith, ltb→le q s g)))
      ]

      longer : Bitmap.get b last ≡ false → IsFree b s (acc + 1)
      longer unused i h k = elim (Bool-cases (i == last)) [
        | inl e ↦ rw ((==_iff i last).0 e) unused
        | inr ne ↦ run i h (omega (arith, ==→ne i last ne))
      ]

      whole : Bitmap.get b last ≡ false → (acc + 1 == pages) ≡ true → IsFree b s pages
      whole unused full i h k = longer unused i h (ground (arith, full))

-- The scan of `inner_alloc`, from the last page seen up to the limit.
pub search-Answer :
    (p : Pmm) (pages limit : ℕ)
    → 0 < pages
    → p.last_page_idx ≤ limit
    → Answer p.bitmap pages p.last_page_idx limit
        (search p pages limit).page
        (search p pages limit).after
unfolding search
search-Answer p pages limit h l =
    search_from-Answer p.bitmap pages p.last_page_idx limit (limit - p.last_page_idx)
      p.last_page_idx 0 p.last_page_idx (omega arith) (omega arith) h (omega arith)
      (λ i a b. absurd (omega arith)) (λ q a b. absurd (omega arith))
