-- ===== src/Memory/Pmm/Alloc.antt =====
-- src/kernel/memory/pmm.cpp: what `alloc` answers.
use umbra_os.Prelude.{
  ℕ, ◌+◌, ◌*◌, ◌^◌, ◌≤◌, ◌<◌, ◌≡◌, refl, true, false, Option, none, some, ◌==◌, arith, ◌⊎◌, inl,
  inr, Bool-cases, ==_iff, ==→ne, ==_of_ne,
}
use umbra_os.Utils.Bitmap
use umbra_os.Utils.Bitmap.{Bitmap}
use umbra_os.Utils.Bitmap.Laws.{IsBytes}
use umbra_os.Memory.Pmm.{Pmm, mark, page_size, to_addr, inner_alloc, limit_of, alloc, free}
use umbra_os.Memory.Pmm.Search.{IsFree, Answer, search-Answer}

-- The allocator between two calls. Page 0 is never handed out, since its address is the null pointer,
-- and the bound of the scan is an address that fits in 64 bits.
pub record IsValid (p : Pmm) : Type 0 where
  pub bytes : IsBytes p.bitmap
  pub scan : p.last_page_idx ≤ limit_of p
  pub limit : limit_of p ≤ 2 ^ 52
  pub null_used : Bitmap.get p.bitmap 0 ≡ true

module _ (p : Pmm) (pages : ℕ) where
  abbrev pub Got : ℕ × Pmm → Type 0
  Got (addr, q) =
      (page : ℕ) × (addr ≡ page * page_size)
      × (0 < page)
      × (page + pages ≤ limit_of p)
      × IsFree p.bitmap page pages
      × (q ≡ record { bitmap = mark true pages page p.bitmap; last_page_idx = page + pages })

  abbrev pub Failed : ℕ × Pmm → Type 0
  Failed (addr, q) =
      (addr ≡ 0)
      × (q ≡ record { bitmap = p.bitmap; last_page_idx = limit_of p })
      × ((k : ℕ) → k + pages ≤ limit_of p → ¬ IsFree p.bitmap k pages)

  page-pos : (page : ℕ) → IsValid p → 0 < pages → IsFree p.bitmap page pages → 0 < page
  page-pos page v h free = elim (Bool-cases (page == 0)) [
    | inl e ↦
        let z : page ≡ 0 = (==_iff page 0).0 e in
        absurd (clash (free 0 (omega (arith, z)) (omega (arith, z))))
    | inr ne ↦ omega (arith, ==→ne page 0 ne)
  ]
    where
      clash : Bitmap.get p.bitmap 0 ≡ false → ⊥
      clash e = let u = v.null_used in cc

  addr_of :
      (page : ℕ)
      → IsValid p
      → 0 < pages
      → page + pages ≤ limit_of p
      → to_addr (some page) ≡ page * page_size
  addr_of page v pos h = let l = v.limit in omega arith

  settle :
      (o : Option ℕ) (q : Pmm) (start : ℕ)
      → IsValid p
      → 0 < pages
      → Answer p.bitmap pages start (limit_of p) o q
      → (Got (to_addr o, q) × ((to_addr o == 0) ≡ false))
        ⊎ (((to_addr o == 0) ≡ true)
            × (to_addr o ≡ 0)
            × (q ≡ record { bitmap = p.bitmap; last_page_idx = limit_of p })
            × ((k : ℕ) → start ≤ k → k + pages ≤ limit_of p → ¬ IsFree p.bitmap k pages))
  settle (some page) q start v h a =
      let e = addr_of page v h a.1 in
      let z = page-pos page v h a.2 in
      inl ((page, e, z, a.1, a.2, a.4), ==_of_ne _ 0 (omega (arith, e)))
  settle none q start v h a = inr (refl, refl, a.1, a.0)

  -- From a valid allocator, a request for at least one page gets the pages of a free run below the
  -- limit, which are then marked and nothing else is, or the null pointer when no such run is free,
  -- and then no page is marked.
  pub alloc_lem : IsValid p → 0 < pages → Got (alloc p pages) ⊎ Failed (alloc p pages)
  unfolding alloc inner_alloc
  alloc_lem v h = elim (settle _ _ _ v h (search-Answer p pages (limit_of p) h v.scan)) [
    | inl (got, e) ↦ rw (==_of_ne pages 0 (omega arith), e) (inl got)
    | inr (e, z, same, no_run) ↦
        rw (==_of_ne pages 0 (omega arith), e, same)
          (elim (settle _ _ 0 v h (search-Answer from_start pages (limit_of p) h (omega arith))) [
            | inl (got, e') ↦ inl got
            | inr (e', z', same', none') ↦ inr (z', same', λ k. none' k (omega arith))
          ])
  ]
    where
      from_start : Pmm
      from_start = record { bitmap = p.bitmap; last_page_idx = 0 }
