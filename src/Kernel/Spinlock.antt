-- ===== src/Kernel/Spinlock.antt =====
-- src/kernel/lock.cpp: a spin lock among any number of contexts of execution, each with an interrupt flag of
-- its own, one access to memory or to the flag at a time. Between the calls a context does not change its
-- flag, and it does not take the lock twice.
pub mod Exclusion
use umbra_os.Prelude.{ℕ, Bool, true, false, ◌≡◌, if◌then◌else◌}
use umbra_os.Prelude.Maps.{update}

-- Where a context stands: outside; in `acquire` after the flag was saved, and in its loop; between the two
-- calls; in `release` after the store.
pub data Place : Type 0 where
  outside saved trying inside stored : Place

pub record Context : Type 0 where
  pub place : Place
  pub interrupts : Bool

-- The fields `locked` and `restore_interrupts` of the lock, and the contexts.
pub record Spinlock : Type 0 where
  pub locked : Bool
  pub restore_interrupts : Bool
  pub contexts : ℕ → Context

abbrev pub moved : ℕ → Place → Bool → Bool → Bool → Spinlock → Spinlock
moved i place interrupts locked restore s = record {
  locked = locked;
  restore_interrupts = restore;
  contexts = update s.contexts i (record { place = place; interrupts = interrupts });
}

abbrev pub place_of : Spinlock → ℕ → Place
place_of s i = (s.contexts i).place

abbrev pub enabled : Spinlock → ℕ → Bool
enabled s i = (s.contexts i).interrupts

-- The accesses, in the order of the source: `restore_interrupts = interrupts_enabled()`,
-- `disable_interrupts()`, the test and set that finds the lock free or held, the store of `release`, and
-- the flag set again.
pub data Step (s : Spinlock) : Spinlock → Type 0 where
  save :
      (i : ℕ)
      → place_of s i ≡ outside
      → Step s (moved i saved (enabled s i) s.locked (enabled s i) s)
  disable :
      (i : ℕ) → place_of s i ≡ saved → Step s (moved i trying false s.locked s.restore_interrupts s)
  take :
      (i : ℕ)
      → place_of s i ≡ trying
      → s.locked ≡ false
      → Step s (moved i inside (enabled s i) true s.restore_interrupts s)
  spin :
      (i : ℕ)
      → place_of s i ≡ trying
      → s.locked ≡ true
      → Step s (moved i trying (enabled s i) true s.restore_interrupts s)
  store :
      (i : ℕ)
      → place_of s i ≡ inside
      → Step s (moved i stored (enabled s i) false s.restore_interrupts s)
  restore :
      (i : ℕ)
      → place_of s i ≡ stored
      → Step s (
          moved i outside
            (if s.restore_interrupts then true else enabled s i)
            s.locked
            s.restore_interrupts
            s)

-- All contexts outside, each with its flag, and the lock free. `restore_interrupts` is not set.
abbrev pub start : Bool → (ℕ → Bool) → Spinlock
start unset flags = record {
  locked = false;
  restore_interrupts = unset;
  contexts = λ i. record { place = outside; interrupts = flags i };
}

pub data Reach (unset : Bool) (flags : ℕ → Bool) : Spinlock → Type 0 where
  started : Reach unset flags (start unset flags)
  later : {s t : Spinlock} → Reach unset flags s → Step s t → Reach unset flags t
