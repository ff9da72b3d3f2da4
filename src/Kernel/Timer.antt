-- ===== src/Kernel/Timer.antt =====
-- src/kernel/timer.cpp: the clock, and the calibration by the PIT. A call is given what the time stamp
-- counter and the timer count of the local controller read. Writes to device registers are left out.
pub mod Calibrate
use umbra_os.Prelude.{ℕ, ◌+◌, ◌-◌, ◌*◌, ◌/◌, ◌%◌, ◌^◌, ◌==◌, if◌then◌else◌, List, [], ◌∷◌}

pub record Timer : Type 0 where
  pub real_time : ℕ
  pub apic_calibrated_ticks : ℕ
  pub cycles_per_ms : ℕ
  pub pit_ticks : ℕ
  pub tsc_initial : ℕ

-- The statics before any call.
abbrev pub start : Timer
start = record {
  real_time = 0;
  apic_calibrated_ticks = 0;
  cycles_per_ms = 0;
  pit_ticks = 0;
  tsc_initial = 0;
}

unfoldable pub init : ℕ → Timer → Timer
init boot_time t = record t { real_time = boot_time * 1000 % 2 ^ 64 }

-- `Pit::handler`.
unfoldable pub pit_handler : ℕ → ℕ → Timer → Timer
pit_handler timer_count tsc t =
    let initial = if t.tsc_initial == 0 then tsc else t.tsc_initial in
    let ticked = record t { tsc_initial = initial; pit_ticks = (t.pit_ticks + 1) % 2 ^ 64 } in
    if ticked.pit_ticks == 100
    then record ticked {
      apic_calibrated_ticks = (2 ^ 32 - 1 - timer_count) / 100;
      cycles_per_ms = (tsc + 2 ^ 64 - initial) % 2 ^ 64 / 100 % 2 ^ 32;
    }
    else ticked

-- `Lapic::handler` before it calls the scheduler.
unfoldable pub lapic_tick : Timer → Timer
lapic_tick t = record t { real_time = (t.real_time + 1) % 2 ^ 64 }

unfoldable pub ms_to_cycles : Timer → ℕ → ℕ
ms_to_cycles t ms = t.cycles_per_ms * ms % 2 ^ 64

unfoldable pub get_real_time : Timer → ℕ
get_real_time t = t.real_time
