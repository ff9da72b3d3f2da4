-- ===== src/Devices/Apic/Redirect.antt =====
-- src/kernel/apic.cpp: what `redirect_pin` makes of the table of pins.
use umbra_os.Prelude.{ℕ, ◌+◌, ◌-◌, ◌/◌, ◌%◌, ◌^◌, ◌<◌, ◌≡◌, ◌≢◌, sym, ◌∙◌, ap, arith}
use umbra_os.Prelude.Maps.{update, update_self, update_ne}
use umbra_os.Devices.Apic.{Controllers, RedirectEntry, entry_of, raw_of, pin_raw, redirect_pin}

entry_of-raw_of :
    (e : RedirectEntry)
    → e.vect < 2 ^ 8
    → e.modes < 2 ^ 8
    → e.interrupt_mask < 2
    → entry_of (raw_of e) ≡ e
entry_of-raw_of e v m i = ground (arith, fields)
  where
    fields :
        (raw_of e % 2 ^ 8 ≡ e.vect)
        × (raw_of e / 2 ^ 8 % 2 ^ 8 ≡ e.modes)
        × (raw_of e / 2 ^ 16 % 2 ≡ e.interrupt_mask)
        × (raw_of e / 2 ^ 17 ≡ e.rest)
    fields = omega (arith, v, m, i)

module _ (offset vect mask : ℕ) (s : Controllers) where
  abbrev set_to : RedirectEntry
  set_to = record (entry_of (pin_raw offset s)) { vect = vect; interrupt_mask = mask % 2 }

  abbrev after : Controllers
  after = redirect_pin offset vect mask s

  lower : offset < 2 ^ 8 - 1 → after.io offset ≡ raw_of set_to % 2 ^ 32
  unfolding redirect_pin
  lower small =
      update_ne (update s.io offset (raw_of set_to % 2 ^ 32)) ((offset + 1) % 2 ^ 8) offset _
        (λ e. omega (arith, small, e))
      ∙ update_self s.io offset _

  higher : after.io ((offset + 1) % 2 ^ 8) ≡ raw_of set_to / 2 ^ 32 % 2 ^ 32
  unfolding redirect_pin
  higher = update_self (update s.io offset (raw_of set_to % 2 ^ 32)) ((offset + 1) % 2 ^ 8) _

  kept : (k : ℕ) → k ≢ offset → k ≢ (offset + 1) % 2 ^ 8 → after.io k ≡ s.io k
  unfolding redirect_pin
  kept k other next =
      update_ne (update s.io offset (raw_of set_to % 2 ^ 32)) ((offset + 1) % 2 ^ 8) k _
        (λ e. next (sym e))
      ∙ update_ne s.io offset k _ (λ e. other (sym e))

  -- When both registers of a pin hold 32 bits, its offset is below 255 and the vector is a byte,
  -- `redirect_pin` gives the pin the vector and the lowest bit of the mask, keeps every other field
  -- of the pin, and changes no other register.
  pub redirect_pin_lem :
      (k : ℕ)
      → offset < 2 ^ 8 - 1
      → vect < 2 ^ 8
      → s.io offset < 2 ^ 32
      → s.io (offset + 1) < 2 ^ 32
      → k ≢ offset
      → k ≢ offset + 1
      → (entry_of (pin_raw offset after) ≡ set_to) × (after.io k ≡ s.io k)
  redirect_pin_lem k small byte low high other next =
      let second : (offset + 1) % 2 ^ 8 ≡ offset + 1 = omega (arith, small) in
      let high' : s.io ((offset + 1) % 2 ^ 8) < 2 ^ 32 = rw second high in
      let whole : pin_raw offset after ≡ raw_of set_to =
        omega (arith, lower small, higher, low, high', byte) in
      (
        ap entry_of whole ∙ entry_of-raw_of set_to byte (omega arith) (omega arith),
        kept k other (λ e. next (e ∙ second)),
      )
