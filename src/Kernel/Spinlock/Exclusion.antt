-- ===== src/Kernel/Spinlock/Exclusion.antt =====
-- src/kernel/lock.cpp: what holds in every state that the contexts can reach.
use umbra_os.Prelude.{ℕ, Bool, true, false, ◌≡◌, if◌then◌else◌, ◌⊎◌, inl, inr, Bool-cases, arith}
use umbra_os.Kernel.Spinlock.{
  outside, saved, trying, inside, stored, Spinlock, moved, place_of, enabled, Step, save, disable,
  take, spin, store, restore, Reach, started, later,
}

-- The lock's owner, if it is held, and that interrupts are off from `disable_interrupts` to the store.
pub record Inv (s : Spinlock) : Type 0 where
  pub owned : (i : ℕ) → place_of s i ≡ inside → s.locked ≡ true
  pub unique : (i j : ℕ) → place_of s i ≡ inside → place_of s j ≡ inside → i ≡ j
  pub held : s.locked ≡ true → (i : ℕ) × (place_of s i ≡ inside)
  pub masked_trying : (i : ℕ) → place_of s i ≡ trying → enabled s i ≡ false
  pub masked_inside : (i : ℕ) → place_of s i ≡ inside → enabled s i ≡ false

module _ (s : Spinlock) (v : Inv s) where
  Inv-save :
      (i : ℕ) (p : place_of s i ≡ outside)
      → Inv (moved i saved (enabled s i) s.locked (enabled s i) s)
  Inv-save i p = record {
    owned = λ j e. grind (arith, v.owned j);
    unique = λ j k a b. grind (arith, v.unique j k);
    held = λ e. let (j, a) = v.held e in (j, grind arith);
    masked_trying = λ j e. grind (arith, v.masked_trying j, v.masked_inside j);
    masked_inside = λ j e. grind (arith, v.masked_trying j, v.masked_inside j);
  }

  Inv-disable :
      (i : ℕ) (p : place_of s i ≡ saved)
      → Inv (moved i trying false s.locked s.restore_interrupts s)
  Inv-disable i p = record {
    owned = λ j e. grind (arith, v.owned j);
    unique = λ j k a b. grind (arith, v.unique j k);
    held = λ e. let (j, a) = v.held e in (j, grind arith);
    masked_trying = λ j e. grind (arith, v.masked_trying j, v.masked_inside j);
    masked_inside = λ j e. grind (arith, v.masked_trying j, v.masked_inside j);
  }

  Inv-take :
      (i : ℕ) (p : place_of s i ≡ trying) (l : s.locked ≡ false)
      → Inv (moved i inside (enabled s i) true s.restore_interrupts s)
  Inv-take i p l = record {
    owned = λ j e. grind (arith, v.owned j);
    unique = λ j k a b. grind (arith, v.owned j, v.owned k);
    held = λ e. (i, grind arith);
    masked_trying = λ j e. grind (arith, v.masked_trying j, v.masked_inside j);
    masked_inside = λ j e. grind (arith, v.masked_trying j, v.masked_inside j);
  }

  Inv-spin :
      (i : ℕ) (p : place_of s i ≡ trying) (l : s.locked ≡ true)
      → Inv (moved i trying (enabled s i) true s.restore_interrupts s)
  Inv-spin i p l = record {
    owned = λ j e. grind (arith, v.owned j);
    unique = λ j k a b. grind (arith, v.unique j k);
    held = λ e. let (j, a) = v.held l in (j, grind arith);
    masked_trying = λ j e. grind (arith, v.masked_trying j, v.masked_inside j);
    masked_inside = λ j e. grind (arith, v.masked_trying j, v.masked_inside j);
  }

  Inv-store :
      (i : ℕ) (p : place_of s i ≡ inside)
      → Inv (moved i stored (enabled s i) false s.restore_interrupts s)
  Inv-store i p = record {
    owned = λ j e. grind (arith, v.unique i j p);
    unique = λ j k a b. grind (arith, v.unique j k);
    held = λ e. grind arith;
    masked_trying = λ j e. grind (arith, v.masked_trying j, v.masked_inside j);
    masked_inside = λ j e. grind (arith, v.masked_trying j, v.masked_inside j);
  }

  Inv-restore :
      (i : ℕ) (p : place_of s i ≡ stored)
      → Inv (
          moved i outside
            (if s.restore_interrupts then true else enabled s i)
            s.locked
            s.restore_interrupts
            s)
  Inv-restore i p = record {
    owned = λ j e. grind (arith, v.owned j);
    unique = λ j k a b. grind (arith, v.unique j k);
    held = λ e. let (j, a) = v.held e in (j, grind arith);
    masked_trying = λ j e. grind (arith, v.masked_trying j, v.masked_inside j);
    masked_inside = λ j e. grind (arith, v.masked_trying j, v.masked_inside j);
  }

Inv-Step : (s t : Spinlock) → Inv s → Step s t → Inv t
Inv-Step s _ v (save i p) = Inv-save s v i p
Inv-Step s _ v (disable i p) = Inv-disable s v i p
Inv-Step s _ v (take i p l) = Inv-take s v i p l
Inv-Step s _ v (spin i p l) = Inv-spin s v i p l
Inv-Step s _ v (store i p) = Inv-store s v i p
Inv-Step s _ v (restore i p) = Inv-restore s v i p

Reach-Inv : (unset : Bool) (flags : ℕ → Bool) (s : Spinlock) → Reach unset flags s → Inv s
Reach-Inv unset flags _ started = record {
  owned = λ j e. grind arith;
  unique = λ j k a b. grind arith;
  held = λ e. grind arith;
  masked_trying = λ j e. grind arith;
  masked_inside = λ j e. grind arith;
}
Reach-Inv unset flags t (later {s = s} r step) = Inv-Step s t (Reach-Inv unset flags s r) step

module _ (unset : Bool) (flags : ℕ → Bool) (s : Spinlock) (r : Reach unset flags s) where
  -- In every state that contexts reach by the steps of `acquire` and `release` from a free lock,
  -- two contexts that are between the calls are one, and a context between the calls has its
  -- interrupts off.
  pub Reach-exclusion :
      ((i j : ℕ) → place_of s i ≡ inside → place_of s j ≡ inside → i ≡ j)
      × ((i : ℕ) → place_of s i ≡ inside → enabled s i ≡ false)
  Reach-exclusion = let v = Reach-Inv unset flags s r in (v.unique, v.masked_inside)

  -- In every state that contexts reach from a free lock, a context in the loop of `acquire` can
  -- take the lock at once, or some context is between the calls.
  pub Reach-progress :
      (i : ℕ)
      → place_of s i ≡ trying
      → ((t : Spinlock) × Step s t × (place_of t i ≡ inside)) ⊎ ((j : ℕ) × (place_of s j ≡ inside))
  Reach-progress i p = elim (Bool-cases s.locked) [
    | inl e ↦ inr ((Reach-Inv unset flags s r).held e)
    | inr e ↦
        inl (moved i inside (enabled s i) true s.restore_interrupts s, take i p e, grind arith)
  ]
