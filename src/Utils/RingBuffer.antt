-- ===== src/Utils/RingBuffer.antt =====
-- src/kernel/utils/ringbuffer.hpp: a ring of `Size` cells that overwrites its oldest item.
pub mod Queue
pub mod Refine
use umbra_os.Prelude.{ℕ, ◌+◌, ◌%◌, Bool, Option, none, some, ◌==◌, if◌then◌else◌}
use umbra_os.Prelude.Maps.{update}

-- `items` is what `data` points to. `head` is the next cell to write, `tail` the next to read.
pub record Ringbuffer {ℓ} (T : Type ℓ) : Type ℓ where
  pub items : ℕ → T
  pub head : ℕ
  pub tail : ℕ

-- The constructor: `garbage` is what the cells of `new T[Size]` hold.
unfoldable pub new {ℓ} : {T : Type ℓ} → (ℕ → T) → Ringbuffer T
new garbage = record { items = garbage; head = 0; tail = 0 }

unfoldable pub is_empty {ℓ} : {T : Type ℓ} → Ringbuffer T → Bool
is_empty r = r.head == r.tail

module _ {ℓ} {T : Type ℓ} (size : ℕ) where
  unfoldable pub write : Ringbuffer T → T → Ringbuffer T
  write r item = record r {
    items = update r.items r.head item;
    head = (r.head + 1) % size;
    tail = if (r.head + 1) % size == r.tail then (r.tail + 1) % size else r.tail;
  }

  unfoldable pub read : Ringbuffer T → Option T × Ringbuffer T
  read r =
      if r.head == r.tail
      then (none, r)
      else (some (r.items r.tail), record r { tail = (r.tail + 1) % size })
