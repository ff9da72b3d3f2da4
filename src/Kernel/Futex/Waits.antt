-- ===== src/Kernel/Futex/Waits.antt =====
-- src/kernel/scheduler.hpp and syscalls/futex.cpp: when a blocked task goes on.
use umbra_os.Prelude.{ℕ, zero, suc, ◌+◌, ◌≡◌, refl, false, out_of_fuel, ==_refl}
use umbra_os.Kernel.Futex.{Futexes, block_loop, block_on, sys_futex_wait}

block_loop_never : (fuel k : ℕ) → block_loop fuel (λ i. false) k ≡ out_of_fuel
unfolding block_loop
block_loop_never zero k = refl
block_loop_never (suc fuel) k = block_loop_never fuel (k + 1)

-- A wait for a word that has the expected value does not end with any fuel, whatever other tasks
-- do.
pub sys_futex_wait_hangs :
    (fuel first second : ℕ) (during : Futexes → Futexes) (task pointer word : ℕ) (f : Futexes)
    → sys_futex_wait fuel first second during task pointer word word f ≡ out_of_fuel
unfolding sys_futex_wait block_on
sys_futex_wait_hangs fuel first second during task pointer word f =
    rw (==_refl word, block_loop_never fuel 1) refl
