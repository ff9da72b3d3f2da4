-- ===== src/Memory/Pmm/Runs.antt =====
-- src/kernel/memory/pmm.cpp: sequences of `alloc` and `free`, and who has which page.
use umbra_os.Prelude.{
  ℕ, zero, suc, ◌+◌, ◌/◌, ◌<◌, ◌≡◌, sym, ◌∙◌, true, false, ◌==◌, if◌then◌else◌, List, [], ◌∷◌,
  arith, inl, inr, ==_iff, ==_of_ne,
}
use umbra_os.Utils.Bitmap
use umbra_os.Memory.Pmm.{Pmm, page_size, alloc, free}
use umbra_os.Memory.Pmm.Search.{inside, get-mark, mark-IsBytes}
use umbra_os.Memory.Pmm.Alloc.{IsValid, Got, Failed, alloc_lem}
use umbra_os.Memory.Pmm.Release.{size-mark, alloc-IsValid}

-- The address of a run and its pages.
abbrev pub Runs : Type 0
Runs = List (ℕ × ℕ)

-- A caller asks for pages, or gives back the run that it got so many runs ago.
pub data Request : Type 0 where
  take : ℕ → Request
  give : ℕ → Request

-- The run that is given back goes to `free`, and the others stay.
unfoldable pub give_back : ℕ → Runs → Pmm → Runs × Pmm
give_back k [] p = ([], p)
give_back zero ((addr, pages) ∷ rs) p = (rs, free p addr pages)
give_back (suc k) (r ∷ rs) p = let (rs', p') = give_back k rs p in (r ∷ rs', p')

abbrev pub taken : ℕ → ℕ × Pmm → Runs → Runs × Pmm
taken pages (addr, q) held = (if addr == 0 then held else (addr, pages) ∷ held, q)

unfoldable pub serve : Request → Runs → Pmm → Runs × Pmm
serve (take pages) held p = taken pages (alloc p pages) held
serve (give k) held p = give_back k held p

unfoldable pub serve_all : List Request → Runs → Pmm → Runs × Pmm
serve_all [] held p = (held, p)
serve_all (r ∷ rs) held p = let (held', p') = serve r held p in serve_all rs held' p'

-- How many runs have a page.
abbrev pub owners : Runs → ℕ → ℕ
owners [] i = 0
owners ((addr, pages) ∷ rs) i = (if inside (addr / page_size) pages i then 1 else 0) + owners rs i

-- Whether a page is in use, as a number.
abbrev pub used : Pmm → ℕ → ℕ
used p i = if Bitmap.get p.bitmap i then 1 else 0

-- A page is in use when it was at the start or a run has it, and never for two reasons.
abbrev pub Counts : Pmm → Runs → Pmm → Type 0
Counts start held p = IsValid p × ((i : ℕ) → used start i + owners held i ≡ used p i)

taken-Counts :
    (start p : Pmm) (held : Runs) (pages : ℕ) (r : ℕ × Pmm)
    → Counts start held p
    → Got p pages r
    → IsValid r.1
    → Counts start (taken pages r held).0 (taken pages r held).1
taken-Counts start p held pages (addr, q) c (page, e, pos, below, run, eq) v =
    let at : addr / page_size ≡ page = omega (arith, e) in
    rw (==_of_ne addr 0 (omega (arith, e, pos)), at, eq)
      (
        rw (sym eq) v,
        λ i. ground (arith, c.1 i, run i, get-mark true pages page p.bitmap i c.0.bytes),
      )

refused-Counts :
    (start p : Pmm) (held : Runs) (pages : ℕ) (r : ℕ × Pmm)
    → Counts start held p
    → Failed p pages r
    → IsValid r.1
    → Counts start (taken pages r held).0 (taken pages r held).1
refused-Counts start p held pages (addr, q) c (z, eq, none') v =
    rw ((==_iff addr 0).1 z, eq) (rw (sym eq) v, c.1)

take-Counts :
    (start p : Pmm) (held : Runs) (pages : ℕ)
    → Counts start held p
    → Counts start (taken pages (alloc p pages) held).0 (taken pages (alloc p pages) held).1
unfolding alloc
take-Counts start p held zero c = c
take-Counts start p held (suc n) c =
    let v = alloc-IsValid p (suc n) c.0 (omega arith) in
    elim (alloc_lem p (suc n) c.0 (omega arith)) [
      | inl got ↦ taken-Counts start p held (suc n) (alloc p (suc n)) c got v
      | inr failed ↦ refused-Counts start p held (suc n) (alloc p (suc n)) c failed v
    ]

-- The same for pages that are in use for reasons of their own; one of them is page 0.
abbrev Shares : (ℕ → ℕ) → Runs → Pmm → Type 0
Shares extra held p = IsValid p × ((i : ℕ) → extra i + owners held i ≡ used p i) × (0 < extra 0)

free-IsValid :
    (p : Pmm) (addr pages : ℕ)
    → IsValid p
    → inside (addr / page_size) pages 0 ≡ false
    → IsValid (free p addr pages)
unfolding free
free-IsValid p addr pages v apart =
    let same = size-mark false pages (addr / page_size) p.bitmap in
    record {
      bytes = mark-IsBytes false pages (addr / page_size) p.bitmap v.bytes;
      scan = rw same v.scan;
      limit = rw same v.limit;
      null_used =
          get-mark false pages (addr / page_size) p.bitmap 0 v.bytes
          ∙ ground (arith, apart, v.null_used);
    }

free-Shares :
    (extra : ℕ → ℕ) (p : Pmm) (addr pages : ℕ) (rs : Runs)
    → Shares extra ((addr, pages) ∷ rs) p
    → Shares extra rs (free p addr pages)
unfolding free
free-Shares extra p addr pages rs (v, count, null) = (
  free-IsValid p addr pages v (ground (arith, count 0, null)),
  λ i. ground (arith, count i, get-mark false pages (addr / page_size) p.bitmap i v.bytes),
  null,
)

give_back-Shares :
    (extra : ℕ → ℕ) (k : ℕ) (held : Runs) (p : Pmm)
    → Shares extra held p
    → Shares extra (give_back k held p).0 (give_back k held p).1
unfolding give_back
give_back-Shares extra k [] p s = s
give_back-Shares extra zero ((addr, pages) ∷ rs) p s = free-Shares extra p addr pages rs s
give_back-Shares extra (suc k) ((addr, pages) ∷ rs) p (v, count, null) =
    let one : ℕ → ℕ = λ i. if inside (addr / page_size) pages i then 1 else 0 in
    let (v', count', null') =
      give_back-Shares (λ i. extra i + one i) k rs p
        (v, (λ i. omega (arith, count i)), omega (arith, null)) in
    (v', (λ i. omega (arith, count' i)), null)

serve-Counts :
    (start : Pmm) (r : Request) (held : Runs) (p : Pmm)
    → IsValid start
    → Counts start held p
    → Counts start (serve r held p).0 (serve r held p).1
unfolding serve
serve-Counts start (take pages) held p v c = take-Counts start p held pages c
serve-Counts start (give k) held p v c =
    let (v', count, null) =
      give_back-Shares (used start) k held p (c.0, c.1, ground (arith, v.null_used)) in
    (v', count)

serve_all-Counts_from :
    (start : Pmm) (rs : List Request) (held : Runs) (p : Pmm)
    → IsValid start
    → Counts start held p
    → Counts start (serve_all rs held p).0 (serve_all rs held p).1
unfolding serve_all
serve_all-Counts_from start [] held p v c = c
serve_all-Counts_from start (r ∷ rs) held p v c =
    serve_all-Counts_from start rs (serve r held p).0 (serve r held p).1 v
      (serve-Counts start r held p v c)

-- From a valid allocator, after any sequence of requests for pages and of calls of `free` with runs
-- that were handed out and not yet given back, the allocator is valid. A page was in use at the
-- start, or belongs to one of the runs that are held, but never both and never to two of them,
-- exactly when it is in use then.
pub serve_all-Counts :
    (rs : List Request) (p : Pmm) → IsValid p → Counts p (serve_all rs [] p).0 (serve_all rs [] p).1
serve_all-Counts rs p v = serve_all-Counts_from p rs [] p v (v, λ i. omega arith)
