-- ===== src/Memory/Heap/Served.antt =====
-- src/kernel/memory/heap.cpp: which blocks are held and which are free after a sequence of requests.
use mathlib.Core.Path.{subst}
use umbra_os.Prelude.{
  ℕ, suc, ◌+◌, ◌-◌, ◌<◌, ◌≤◌, ◌≡◌, refl, sym, true, List, [], ◌∷◌, length, arith, All, some, done,
  ==_refl,
}
use umbra_os.Memory.Heap.{Heap, class_of, is_class, kmalloc, set_free}
use umbra_os.Memory.Heap.Slab.{HasFree, slab_alloc_lem}
use umbra_os.Memory.Heap.Blocks.{InPage}
use umbra_os.Memory.Heap.Classes.{kmalloc-eq}
use umbra_os.Memory.Heap.Requests.{
  Request, take, give, give_back, serve, serve_each, occurs, AllOf, Shares, give_back-Shares,
}

-- The blocks that are held and those that are free are those of the start.
abbrev pub Kept : ℕ → ℕ → ℕ → List ℕ → List Request → List ℕ → Heap → Type 0
Kept hhdm fuel slab start rs held h =
    (held' : List ℕ) × (h' : Heap) × (free' : List ℕ) × (serve_each hhdm (suc fuel) rs held h
      ≡ done (held', h'))
    × HasFree slab h' free'
    × ((a : ℕ) → occurs a held' + occurs a free' ≡ occurs a start)

module _ (hhdm fuel slab c : ℕ) (known : is_class c ≡ true) (start : List ℕ) where
  -- What a request leaves, and the room then.
  abbrev Served : Request → ℕ → List ℕ → Heap → Type 0
  Served r room held h =
      (held' : List ℕ) × (h' : Heap) × (free' : List ℕ) × (room' : ℕ) × (serve hhdm (suc fuel) r
          held h
        ≡ done (held', h'))
      × Shares slab c room' (λ a. 0) start held' h' free'
      × ((rs : List Request)
          → AllOf c (length held) room (r ∷ rs)
          → AllOf c (length held') room' rs)

  take-Served :
      (room size : ℕ) (held : List ℕ) (h : Heap) (free : List ℕ)
      → Shares slab c room (λ a. 0) start held h free
      → class_of size ≡ some c
      → 0 < room
      → Served (take size) room held h
  unfolding serve
  take-Served room size held h [] s e some_room = absurd (omega (arith, s.room_left, some_room))
  take-Served room size held h (b ∷ bs) s e some_room =
      let got : kmalloc hhdm (suc fuel) size h ≡ done (b, set_free h slab (h.links b)) =
        subst (λ q. kmalloc hhdm (suc fuel) size h ≡ done (b, set_free h q (h.links b))) s.current
          (kmalloc-eq hhdm fuel size c h b bs e
            (subst (λ q. HasFree q h (b ∷ bs)) (sym s.current) s.has_free)) in
      (
        b ∷ held,
        set_free h slab (h.links b),
        bs,
        room - 1,
        rw got refl,
        record {
          has_free = (slab_alloc_lem slab h hhdm fuel c b bs s.has_free).1;
          of_class = rw (==_refl slab) s.of_class;
          current = s.current;
          room_left = omega (arith, s.room_left);
          free_blocks = s.free_blocks.1;
          held_blocks = (s.free_blocks.0, s.held_blocks);
          counts = λ a. omega (arith, s.counts a);
          once = s.once;
        },
        λ rs k. subst (λ n. AllOf c n (room - 1) rs) (omega arith) k.2,
      )

  give-Served :
      (room k : ℕ) (held : List ℕ) (h : Heap) (free : List ℕ)
      → Shares slab c room (λ a. 0) start held h free
      → Served (give k) room held h
  unfolding serve
  give-Served room k held h free s =
      let (one, e, (free', s', l), le) =
        give_back-Shares hhdm slab c known start room (λ a. 0) k held h free s in
      (
        (give_back hhdm k held h).0,
        (give_back hhdm k held h).1,
        free',
        room + one,
        refl,
        s',
        λ rs allowed. rw (l, e) allowed,
      )

  served :
      (r : Request) (rs : List Request) (room : ℕ) (held : List ℕ) (h : Heap) (free : List ℕ)
      → Shares slab c room (λ a. 0) start held h free
      → AllOf c (length held) room (r ∷ rs)
      → Served r room held h
  served (take size) rs room held h free s k = take-Served room size held h free s k.0 k.1
  served (give n) rs room held h free s k = give-Served room n held h free s

  serve_each-Kept_from :
      (rs : List Request) (room : ℕ) (held : List ℕ) (h : Heap) (free : List ℕ)
      → Shares slab c room (λ a. 0) start held h free
      → AllOf c (length held) room rs
      → Kept hhdm fuel slab start rs held h
  unfolding serve_each
  serve_each-Kept_from [] room held h free s k =
      (held, h, free, refl, s.has_free, λ a. omega (arith, s.counts a))
  serve_each-Kept_from (r ∷ rs) room held h free s k =
      let (held', h', free', room', e, s', on) = served r rs room held h free s k in
      let (last, h'', free'', e', f, n) =
        serve_each-Kept_from rs room' held' h' free' s' (on rs k) in
      (last, h'', free'', rw (e, e') refl, f, n)

-- From a heap whose slab of a class names the class and has free blocks that lie in its page and
-- differ, any sequence of calls of `kmalloc` for sizes of the class, each made when a block is
-- free, and of `kfree` of blocks that are held ends without a fault. The blocks that are held then
-- and those that are free are together those that were free at the start, each as often, so no
-- block is handed out twice.
pub serve_each-Kept :
    (hhdm fuel c : ℕ) (h : Heap) (free : List ℕ)
    → is_class c ≡ true
    → (h.headers (h.slabs c)).slab_size ≡ c
    → HasFree (h.slabs c) h free
    → All (InPage (h.slabs c) c) free
    → ((a : ℕ) → occurs a free ≤ 1)
    → (rs : List Request) → AllOf c 0 (length free) rs
    → Kept hhdm fuel (h.slabs c) free rs [] h
serve_each-Kept hhdm fuel c h free known of_class has_free free_blocks once rs k =
    serve_each-Kept_from hhdm fuel (h.slabs c) c known free rs (length free) [] h free
      (record {
        has_free = has_free;
        of_class = of_class;
        current = refl;
        room_left = refl;
        free_blocks = free_blocks;
        held_blocks = tt;
        counts = λ a. omega arith;
        once = once;
      })
      k
