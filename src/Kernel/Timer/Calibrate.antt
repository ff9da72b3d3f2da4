-- ===== src/Kernel/Timer/Calibrate.antt =====
-- src/kernel/timer.cpp: what the hundred interrupts of the PIT leave.
use umbra_os.Prelude.{
  ℕ, ◌+◌, ◌-◌, ◌/◌, ◌%◌, ◌^◌, ◌<◌, ◌≡◌, ◌≢◌, refl, ap, ◌∙◌, List, [], ◌∷◌, arith, length, ==_of_ne,
}
use umbra_os.Kernel.Timer.{Timer, pit_handler, start}

-- The handler at each pair of a timer count and a time stamp.
unfoldable pub interrupts : List (ℕ × ℕ) → Timer → Timer
interrupts [] t = t
interrupts (reading ∷ readings) t = interrupts readings (pit_handler reading.0 reading.1 t)

abbrev pub ticking : ℕ → ℕ → Timer
ticking n first = record start { pit_ticks = n; tsc_initial = first }

one_tick :
    (count tsc n first : ℕ)
    → first ≢ 0
    → n + 1 < 100
    → pit_handler count tsc (ticking n first) ≡ ticking (n + 1) first
unfolding pit_handler
one_tick count tsc n first z h =
    let ticks : (n + 1) % 2 ^ 64 ≡ n + 1 = omega (arith, h) in
    rw (==_of_ne first 0 z, ticks, ==_of_ne (n + 1) 100 (omega (arith, h))) refl

ticking-eq :
    (readings : List (ℕ × ℕ)) (n first : ℕ)
    → first ≢ 0
    → n + length readings < 100
    → interrupts readings (ticking n first) ≡ ticking (n + length readings) first
unfolding interrupts
ticking-eq [] n first z h = ap (λ k. ticking k first) (omega arith)
ticking-eq ((count, tsc) ∷ readings) n first z h =
    ap (interrupts readings) (one_tick count tsc n first z (omega (arith, h)))
    ∙ ticking-eq readings (n + 1) first z (omega (arith, h))
    ∙ ap (λ k. ticking k first) (omega arith)

-- When the first of a hundred interrupts of the PIT reads a time stamp other than 0, the hundredth
-- sets the cycles of a millisecond to a hundredth of the cycles since the first, cut to 32 bits,
-- and the ticks of the local timer to a hundredth of what it has counted down.
calibrates :
    (c first : ℕ) (between : List (ℕ × ℕ)) (count last : ℕ)
    → first ≢ 0
    → length between ≡ 98
    → pit_handler count last (interrupts ((c, first) ∷ between) start)
      ≡ record (ticking 100 first) {
        apic_calibrated_ticks = (2 ^ 32 - 1 - count) / 100;
        cycles_per_ms = (last + 2 ^ 64 - first) % 2 ^ 64 / 100 % 2 ^ 32;
      }
unfolding interrupts pit_handler
calibrates c first between count last z n =
    let ticks : 1 + length between ≡ 99 = omega (arith, n) in
    ap (pit_handler count last)
      (ticking-eq between 1 first z (omega (arith, n)) ∙ ap (λ k. ticking k first) ticks)
    ∙ hundredth
  where
    hundredth : pit_handler count last (ticking 99 first) ≡ record (ticking 100 first) {
      apic_calibrated_ticks = (2 ^ 32 - 1 - count) / 100;
      cycles_per_ms = (last + 2 ^ 64 - first) % 2 ^ 64 / 100 % 2 ^ 32;
    }
    hundredth = rw (==_of_ne first 0 z) refl
