-- ===== src/Fs/Vfs/Grow.antt =====
-- src/kernel/fs/vfs.cpp: the loop of `write` that doubles a file's capacity.
use umbra_os.Prelude.{
  ℕ, zero, suc, ◌*◌, ◌^◌, ◌<◌, ◌≤◌, ◌≡◌, refl, ap, ◌∙◌, arith, done, out_of_fuel, ltb, ltb→lt,
  ltb→le, Bool-cases, inl, inr, ◌⊎◌, true, lt→ltb,
}
use umbra_os.Fs.Vfs.{grow}

-- A capacity after that many doublings.
abbrev pub doubled : ℕ → ℕ → ℕ
doubled zero capacity = capacity
doubled (suc n) capacity = doubled n (capacity * 2)

grow_step :
    (n needed capacity : ℕ)
    → ltb capacity needed ≡ true
    → capacity * 2 < 2 ^ 64
    → grow (suc n) needed capacity ≡ grow n needed (capacity * 2)
unfolding grow
grow_step n needed capacity lt fits = rw lt (ap (grow n needed) (omega (arith, fits)))

-- From a capacity that is not 0, when at most 2 ^ 63 bytes are needed and `n` doublings would reach
-- them, the loop that doubles the capacity ends within `n` rounds and a last test, at a capacity
-- that is enough, and is the old one or less than twice what is needed.
pub grow_lem :
    (n needed capacity : ℕ)
    → 0 < capacity
    → needed ≤ 2 ^ 63
    → needed ≤ doubled n capacity
    → (c : ℕ) × (grow (suc n) needed capacity ≡ done c)
      × (needed ≤ c)
      × ((c ≡ capacity) ⊎ (c < 2 * needed))
unfolding grow
grow_lem zero needed capacity pos fits enough = (capacity, ground (arith, enough), enough, inl refl)
grow_lem (suc n) needed capacity pos fits enough = elim (Bool-cases (ltb capacity needed)) [
  | inr ge ↦ (capacity, rw ge refl, ltb→le capacity needed ge, inl refl)
  | inl lt ↦
      let below : capacity < needed = ltb→lt capacity needed lt in
      let (c, e, room, size) = grow_lem n needed (capacity * 2) (omega (arith, pos)) fits enough in
      (
        c,
        grow_step (suc n) needed capacity lt (omega (arith, below, fits)) ∙ e,
        room,
        inr (omega (arith, size, below)),
      )
]

-- From a capacity of 0, when any byte is needed, the loop that doubles the capacity never ends.
grow_spins : (fuel needed : ℕ) → 0 < needed → grow fuel needed 0 ≡ out_of_fuel
unfolding grow
grow_spins zero needed pos = refl
grow_spins (suc fuel) needed pos = rw (lt→ltb 0 needed pos) (grow_spins fuel needed pos)
