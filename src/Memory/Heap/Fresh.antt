-- ===== src/Memory/Heap/Fresh.antt =====
-- src/kernel/memory/heap.cpp: sequences of `kmalloc` and `kfree` on a slab that was just made.
use mathlib.Core.Path.{subst}
use umbra_os.Prelude.{
  ℕ, zero, suc, ◌+◌, ◌%◌, ◌<◌, ◌≤◌, ◌≡◌, refl, true, List, [], arith, ◌==◌, ==_of_ne, ==_refl,
  ==_iff, Bool-cases, inl, inr,
}
use umbra_os.Memory.Pmm.{page_size}
use umbra_os.Memory.Heap.{Heap, is_class, new_slab, new_static, max_blocks, block_addr}
use umbra_os.Memory.Heap.Blocks.{blocks, block_addr-lt, class_fits, new_slab_lem}
use umbra_os.Memory.Heap.Requests.{Request, occurs, AllOf}
use umbra_os.Memory.Heap.Served.{Kept, serve_each-Kept}

module _ (slab n : ℕ) (pos : 0 < n) where
  occurs-below : (a i k : ℕ) → a < block_addr slab n i → occurs a (blocks slab n i k) ≡ 0
  unfolding blocks
  occurs-below a i zero h = refl
  occurs-below a i (suc k) h =
      let up = block_addr-lt slab n i (i + 1) pos (omega arith) in
      rw (==_of_ne a (block_addr slab n i) (λ e. omega (arith, e, h)))
        (omega (arith, occurs-below a (i + 1) k (omega (arith, h, up))))

  occurs-blocks : (a i k : ℕ) → occurs a (blocks slab n i k) ≤ 1
  unfolding blocks
  occurs-blocks a i zero = omega arith
  occurs-blocks a i (suc k) = elim (Bool-cases (a == block_addr slab n i)) [
    | inl e ↦
        let up = block_addr-lt slab n i (i + 1) pos (omega arith) in
        let rest =
          occurs-below a (i + 1) k (omega (arith, (==_iff a (block_addr slab n i)).0 e, up)) in
        rw e (omega (arith, rest))
    | inr e ↦ rw e (omega (arith, occurs-blocks a (i + 1) k))
  ]

class_of-new_slab :
    (hhdm n : ℕ) (h : Heap) → ((new_slab hhdm n h).1.headers (new_slab hhdm n h).0).slab_size ≡ n
unfolding new_slab
class_of-new_slab hhdm n h = rw (==_refl (new_slab hhdm n h).0) refl

-- When a slab is made for a class and its page is aligned, any sequence of calls of `kmalloc` for
-- sizes of the class, of which at most `max_blocks` are held at a time, and of `kfree` of blocks
-- that are held ends without a fault. The blocks that are held then and those that are free are
-- together the `max_blocks` blocks of the page, each as often.
pub serve_each-new_static :
    (hhdm fuel c : ℕ) (h : Heap)
    → is_class c ≡ true
    → (new_slab hhdm c h).0 % page_size ≡ 0
    → (rs : List Request) → AllOf c 0 (max_blocks c) rs
    → let slab = (new_slab hhdm c h).0 in
      Kept hhdm fuel slab (blocks slab c 0 (max_blocks c)) rs [] (new_static hhdm c h)
serve_each-new_static hhdm fuel c h known aligned rs k =
    let slab = (new_slab hhdm c h).0 in
    let (free, long, within) = new_slab_lem hhdm c h known aligned in
    let here : (new_static hhdm c h).slabs c ≡ slab = rw (==_refl c) refl in
    subst (λ q. Kept hhdm fuel q (blocks slab c 0 (max_blocks c)) rs [] (new_static hhdm c h)) here
      (serve_each-Kept hhdm fuel c (new_static hhdm c h) (blocks slab c 0 (max_blocks c)) known
        (rw here (class_of-new_slab hhdm c h)) (rw here free) (rw here within)
        (λ a. occurs-blocks slab c (class_fits c known).1 a 0 (max_blocks c)) rs (rw long k))
