-- ===== src/Tests/Locks.antt =====
-- Two contexts at one lock: the first holds it, the second waits. The first has interrupts on.
use umbra_os.Prelude.{ℕ, ◌≡◌, refl, true, false, Bool, ◌==◌, ◌⊎◌, out_of_fuel}
use umbra_os.Utils.LinkedList
use umbra_os.Kernel.Spinlock.{
  Spinlock, start, moved, saved, trying, inside, outside, stored, place_of, enabled, Reach, started,
  later, Step, save, disable, take, store, restore,
}
use umbra_os.Kernel.Spinlock.Exclusion.{Reach-exclusion, Reach-progress}
use umbra_os.Kernel.Futex.{Futexes, sys_futex_wait}
use umbra_os.Kernel.Futex.Waits.{sys_futex_wait_hangs}

abbrev flags : ℕ → Bool
flags i = i == 0

abbrev s0 : Spinlock
s0 = start false flags

abbrev s1 : Spinlock
s1 = moved 0 saved true false true s0

abbrev s2 : Spinlock
s2 = moved 0 trying false false true s1

abbrev s3 : Spinlock
s3 = moved 1 saved false false false s2

abbrev s4 : Spinlock
s4 = moved 1 trying false false false s3

abbrev held : Spinlock
held = moved 0 inside false true false s4

reached : Reach false flags held
reached =
    later
      (later (later (later (later started (save 0 refl)) (disable 0 refl)) (save 1 refl))
        (disable 1 refl))
      (take 0 refl refl)

Reach-exclusion_example :
    ((i j : ℕ) → place_of held i ≡ inside → place_of held j ≡ inside → i ≡ j)
    × ((i : ℕ) → place_of held i ≡ inside → enabled held i ≡ false)
Reach-exclusion_example = Reach-exclusion false flags held reached

Reach-progress_example :
    ((t : Spinlock) × Step held t × (place_of t 1 ≡ inside))
    ⊎ ((j : ℕ) × (place_of held j ≡ inside))
Reach-progress_example = Reach-progress false flags held reached 1 refl

-- The first context gives the lock back, and its interrupts stay off, since the second has written the flag.
abbrev released : Spinlock
released = moved 0 outside false false false (moved 0 stored false false false held)

released_reached : Reach false flags released
released_reached = later (later reached (store 0 refl)) (restore 0 refl)

interrupts_lost : enabled released 0 ≡ false
interrupts_lost = refl

abbrev futexes : Futexes
futexes =
    let empty = LinkedList.new (λ a. record { value = 0; prev = 0; next = 0 }) in
    record { handles = empty; futexes = λ t. empty }

sys_futex_wait_hangs_example : sys_futex_wait 9 8 16 (λ f. f) 100 4096 7 7 futexes ≡ out_of_fuel
sys_futex_wait_hangs_example = sys_futex_wait_hangs 9 8 16 (λ f. f) 100 4096 7 futexes
