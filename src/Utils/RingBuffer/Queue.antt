-- ===== src/Utils/RingBuffer/Queue.antt =====
-- What src/kernel/utils/ringbuffer.hpp promises: a queue of at most `size - 1` items, oldest first,
-- in which a new item pushes the oldest one out when there is no room.
use umbra_os.Prelude.{ℕ, ◌+◌, Option, none, some, ◌==◌, if◌then◌else◌, List, [], ◌∷◌, ◌++◌, length}

pub data Op {ℓ} (T : Type ℓ) : Type ℓ where
  put : T → Op T
  get : Op T

module _ {ℓ} {T : Type ℓ} where
  abbrev pub drop_oldest : List T → List T
  drop_oldest [] = []
  drop_oldest (x ∷ xs) = xs

  abbrev pub push : ℕ → List T → T → List T
  push size q x = (if length q + 1 == size then drop_oldest q else q) ++ (x ∷ [])

  abbrev pub pop : List T → Option T × List T
  pop [] = (none, [])
  pop (x ∷ q) = (some x, q)

  -- The items that a sequence of calls reads.
  unfoldable pub run : ℕ → List T → List (Op T) → List (Option T)
  run size q [] = []
  run size q (put x ∷ ops) = run size (push size q x) ops
  run size q (get ∷ ops) = let (out, q') = pop q in out ∷ run size q' ops
