-- ===== src/Memory/Pmm/Release.antt =====
-- src/kernel/memory/pmm.cpp: `alloc` and `free` on the bits of the map, and the pages beyond it.
use umbra_os.Prelude.{
  ℕ, zero, suc, ◌+◌, ◌*◌, ◌/◌, ◌≤◌, ◌<◌, ◌≡◌, ◌≢◌, refl, ◌∙◌, Bool, true, false, ltb, if◌then◌else◌,
  arith, inl, inr, Bool-cases, ltb→lt, ltb→le,
}
use umbra_os.Utils.Bitmap
use umbra_os.Utils.Bitmap.{Bitmap}
use umbra_os.Memory.Pmm.{Pmm, mark, page_size, limit_of, alloc, free}
use umbra_os.Memory.Pmm.Search.{IsFree, inside, get-mark, mark-IsBytes}
use umbra_os.Memory.Pmm.Alloc.{IsValid, Got, Failed, alloc_lem}

pub size-mark : (v : Bool) (n page : ℕ) (b : Bitmap) → (mark v n page b).size ≡ b.size
unfolding mark Bitmap.set
size-mark v zero page b = refl
size-mark v (suc n) page b = size-mark v n (page + 1) (Bitmap.set b page v)

module _ (p : Pmm) (pages : ℕ) (v : IsValid p) where
  Got-IsValid : (r : ℕ × Pmm) → Got p pages r → IsValid r.1
  Got-IsValid (addr, q) (page, e, z, below, run, eq) = rw eq (record {
    bytes = mark-IsBytes true pages page p.bitmap v.bytes;
    scan = rw (size-mark true pages page p.bitmap) below;
    limit = rw (size-mark true pages page p.bitmap) v.limit;
    null_used = get-mark true pages page p.bitmap 0 v.bytes ∙ ground (arith, v.null_used);
  })

  Failed-IsValid : (r : ℕ × Pmm) → Failed p pages r → IsValid r.1
  Failed-IsValid (addr, q) (z, eq, none') =
      rw eq
        (record { bytes = v.bytes; scan = omega arith; limit = v.limit; null_used = v.null_used })

  -- A request for at least one page keeps a valid allocator valid.
  pub alloc-IsValid : 0 < pages → IsValid (alloc p pages).1
  alloc-IsValid h = elim (alloc_lem p pages v h) [
    | inl g ↦ Got-IsValid (alloc p pages) g
    | inr f ↦ Failed-IsValid (alloc p pages) f
  ]

  -- From a valid allocator, freeing the pages that a request for at least one page got, when it got
  -- any, makes every bit of the bitmap what it was before the request.
  free-alloc :
      0 < pages
      → (alloc p pages).0 ≢ 0
      → (i : ℕ)
      → Bitmap.get (free (alloc p pages).1 (alloc p pages).0 pages).bitmap i ≡ Bitmap.get p.bitmap i
  unfolding free
  free-alloc h ne i = elim (alloc_lem p pages v h) [
    | inr (z, _, _) ↦ absurd (ne z)
    | inl (page, e, z, below, run, eq) ↦
        let at : (alloc p pages).0 / page_size ≡ page = omega (arith, e) in
        rw (at, eq)
          (get-mark false pages page _ i (mark-IsBytes true pages page p.bitmap v.bytes)
            ∙ rw (get-mark true pages page p.bitmap i v.bytes) (cleared page run))
  ]
    where
      cleared :
          (page : ℕ)
          → IsFree p.bitmap page pages
          → (if inside page pages i
              then false
              else if inside page pages i
              then true
              else Bitmap.get p.bitmap i)
            ≡ Bitmap.get p.bitmap i
      cleared page run = ground (arith, run i)

  -- From a valid allocator, with every page of the map in use and a clear bit below the limit in
  -- the memory behind the map, a request for one page gets a page that the map does not track: the
  -- scan goes on behind the bitmap.
  pub alloc_beyond :
      (k : ℕ)
      → ((i : ℕ) → i < 8 * p.bitmap.size → Bitmap.get p.bitmap i ≡ true)
      → k < limit_of p
      → Bitmap.get p.bitmap k ≡ false
      → pages ≡ 1
      → (8 * p.bitmap.size ≤ (alloc p pages).0 / page_size) × ((alloc p pages).0 ≢ 0)
  alloc_beyond k all_used hk clear one = elim (alloc_lem p pages v (omega arith)) [
    | inr (z, eq, none') ↦ absurd (none' k (omega arith) (λ i a b. at i a b))
    | inl (page, e, z, below, run, eq) ↦ elim (Bool-cases (ltb page (8 * p.bitmap.size))) [
      | inl tracked ↦
          absurd
            (clash (all_used page (ltb→lt page _ tracked)) (run page (omega arith) (omega arith)))
      | inr beyond ↦ (omega (arith, e, ltb→le page _ beyond), omega (arith, e))
    ]
  ]
    where
      at : (i : ℕ) → k ≤ i → i < k + pages → Bitmap.get p.bitmap i ≡ false
      at i a b = let e : i ≡ k = omega arith in rw e clear

      clash : {c : Bool} → c ≡ true → c ≡ false → ⊥
      clash x y = cc
