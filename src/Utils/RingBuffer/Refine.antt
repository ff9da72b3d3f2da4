-- ===== src/Utils/RingBuffer/Refine.antt =====
-- src/kernel/utils/ringbuffer.hpp behaves as the bounded queue of its contents.

use umbra_os.Prelude.{
  ℕ, suc, ◌+◌, ◌-◌, ◌%◌, ◌<◌, ◌≤◌, ◌≡◌, ◌≢◌, ◌↔◌, refl, sym, Option, some, ◌==◌, if◌then◌else◌,
  List, [], ◌∷◌, ◌++◌, length, arith, leb, inl, inr, ◌⊎◌, Bool-cases, ==_iff, ==→ne, ==_refl,
  ==_of_ne, ap, ◌∙◌,
}
use mathlib.Core.Path.{ap₂}
use umbra_os.Prelude.Maps.{update, update_self}
use umbra_os.Utils.RingBuffer.{Ringbuffer, new, write, read}
use umbra_os.Utils.RingBuffer.Queue
use umbra_os.Utils.RingBuffer.Queue.{Op, put, get}

-- One cell round the ring, by cases on the wrap.
abbrev step : ℕ → ℕ → ℕ
step size i = (i + 1) % size

step_cases :
    (size i : ℕ)
    → i < size
    → ((i + 1 < size) × (step size i ≡ i + 1)) ⊎ ((i + 1 ≡ size) × (step size i ≡ 0))
step_cases size i h = grind arith

step-lt : (size i : ℕ) → i < size → step size i < size
step-lt size i h = ground (arith, step_cases size i h)

step-ne : (size i j : ℕ) → i < size → j < size → i ≢ j → step size i ≢ step size j
step-ne size i j hi hj ne = ground (arith, step_cases size i hi, step_cases size j hj)

module _ {ℓ} {T : Type ℓ} (size : ℕ) where
  -- From index `t` up to, not including, index `h`, the cells hold the items of the list.
  abbrev pub Span : (ℕ → T) → ℕ → ℕ → List T → Type ℓ
  Span items t h [] = (t ≡ h) × Unit {ℓ}
  Span items t h (x ∷ xs) = (t ≢ h) × (items t ≡ x) × Span items (step size t) h xs

-- The ring holds the items of the list, oldest first.
pub record Holds {ℓ} {T : Type ℓ} (size : ℕ) (r : Ringbuffer T) (q : List T) : Type ℓ where
  pub room : 2 ≤ size
  pub head_in : r.head < size
  pub tail_in : r.tail < size
  pub span : Span size r.items r.tail r.head q

-- How many cells lie between two indices, going round.
dist : ℕ → ℕ → ℕ → ℕ
dist size t h = if leb t h then h - t else h + size - t

dist-step :
    (size t h : ℕ) → t < size → h < size → t ≢ h → dist size t h ≡ suc (dist size (step size t) h)
unfolding dist
dist-step size t h ht hh ne = ground (arith, step_cases size t ht)

dist_full : (size t h : ℕ) → t < size → h < size → (step size h ≡ t) ↔ (dist size t h + 1 ≡ size)
unfolding dist
dist_full size t h ht hh =
    (λ e. ground (arith, step_cases size h hh), λ e. ground (arith, step_cases size h hh))

module _ {ℓ} {T : Type ℓ} (size : ℕ) (items : ℕ → T) where
  length-Span :
      (t h : ℕ) (q : List T)
      → t < size
      → h < size
      → Span size items t h q
      → length q ≡ dist size t h
  unfolding dist
  length-Span t h [] ht hh s = ground arith
  length-Span t h (x ∷ xs) ht hh s = omega (
    arith,
    length-Span (step size t) h xs (step-lt size t ht) hh s.2,
    dist-step size t h ht hh s.0,
  )

  -- A write to the cell past the span makes it one longer, unless it closes the ring.
  Span-write :
      (t h : ℕ) (q : List T) (v : T)
      → t < size
      → h < size
      → step size h ≢ t
      → Span size items t h q
      → Span size (update items h v) t (step size h) (q ++ v ∷ [])
  Span-write t h [] v ht hh ne s =
      (λ e. ne (sym e), rw s.0 (update_self items h v), (rw s.0 refl, tt))
  Span-write t h (x ∷ xs) v ht hh ne s = (
    λ e. ne (sym e),
    ground (arith, s.1, s.0),
    Span-write (step size t) h xs v (step-lt size t ht) hh
        (step-ne size h t hh ht (λ e. s.0 (sym e))) s.2,
  )

module _ {ℓ} {T : Type ℓ} (size : ℕ) (r : Ringbuffer T) where
  abbrev Writes : T → List T → ℕ → Type ℓ
  Writes x q t =
      Holds size (record { items = update r.items r.head x; head = step size r.head; tail = t })
        (q ++ x ∷ [])

  write_full :
      (q : List T) (x : T)
      → Holds size r q
      → step size r.head ≡ r.tail
      → Writes x (Queue.drop_oldest q) (step size r.tail)
  write_full [] x v e = absurd (ground (arith, step_cases size r.head v.head_in, v.span.0, v.room))
  write_full (y ∷ q) x v e = record {
    room = v.room;
    head_in = step-lt size r.head v.head_in;
    tail_in = step-lt size r.tail v.tail_in;
    span =
        Span-write size r.items (step size r.tail) r.head q x (step-lt size r.tail v.tail_in)
          v.head_in (step-ne size r.head r.tail v.head_in v.tail_in (λ e'. v.span.0 (sym e')))
          v.span.2;
  }

  write_free : (q : List T) (x : T) → Holds size r q → step size r.head ≢ r.tail → Writes x q r.tail
  write_free q x v ne = record {
    room = v.room;
    head_in = step-lt size r.head v.head_in;
    tail_in = v.tail_in;
    span = Span-write size r.items r.tail r.head q x v.tail_in v.head_in ne v.span;
  }

  full_iff : (q : List T) → Holds size r q → (step size r.head == r.tail) ≡ (length q + 1 == size)
  full_iff q v = ground (
    arith,
    dist_full size r.tail r.head v.tail_in v.head_in,
    length-Span size r.items r.tail r.head q v.tail_in v.head_in v.span,
  )

  -- A write to a ring that holds `q` leaves it holding `Queue.push size q x`.
  pub write_refines :
      (q : List T) (x : T) → Holds size r q → Holds size (write size r x) (Queue.push size q x)
  unfolding write
  write_refines q x v = elim (Bool-cases (step size r.head == r.tail)) [
    | inl full ↦ rw (full, sym (full_iff q v) ∙ full) (write_full q x v ((==_iff _ _).0 full))
    | inr free ↦ rw (free, sym (full_iff q v) ∙ free) (write_free q x v (==→ne _ _ free))
  ]

  -- A read hands out the oldest item, and fails on an empty ring only.
  pub read_refines :
      (q : List T)
      → Holds size r q
      → ((read size r).0 ≡ (Queue.pop q).0) × Holds size (read size r).1 (Queue.pop q).1
  unfolding read
  read_refines [] v = rw (v.span.0, ==_refl r.head) (refl, rw v.span.0 at v)
  read_refines (x ∷ q) v = rw (==_of_ne r.head r.tail (λ e. v.span.0 (sym e))) (
    ap some v.span.1,
    record {
      room = v.room;
      head_in = v.head_in;
      tail_in = step-lt size r.tail v.tail_in;
      span = v.span.2;
    },
  )

-- The items that a sequence of calls reads from a ring.
unfoldable pub run {ℓ} : {T : Type ℓ} → ℕ → Ringbuffer T → List (Op T) → List (Option T)
run size r [] = []
run size r (put x ∷ ops) = run size (write size r x) ops
run size r (get ∷ ops) = let (out, r') = read size r in out ∷ run size r' ops

-- A ring that holds the items of a queue answers every sequence of writes and reads as the queue
-- does, in which a write to a full queue pushes the oldest item out.
pub run_refines {ℓ} :
    {T : Type ℓ} (size : ℕ) (r : Ringbuffer T) (q : List T) (ops : List (Op T))
    → Holds size r q
    → run size r ops ≡ Queue.run size q ops
unfolding run Queue.run
run_refines size r q [] v = refl
run_refines size r q (put x ∷ ops) v =
    run_refines size (write size r x) (Queue.push size q x) ops (write_refines size r q x v)
run_refines size r q (get ∷ ops) v =
    let h = read_refines size r q v in
    ap₂ ◌∷◌ h.0 (run_refines size (read size r).1 (Queue.pop q).1 ops h.1)

pub new-Holds {ℓ} :
    {T : Type ℓ} (size : ℕ) (garbage : ℕ → T) → 2 ≤ size → Holds size (new garbage) []
unfolding new
new-Holds size garbage h = record {
  room = h;
  head_in = omega arith;
  tail_in = omega arith;
  span = (refl, tt);
}
