-- ===== src/Devices/Pci/Config.antt =====
-- src/kernel/drivers/pci.hpp: which register an access reaches, and what a write leaves.
use umbra_os.Prelude.{
  ℕ, ◌+◌, ◌-◌, ◌*◌, ◌/◌, ◌%◌, ◌^◌, ◌<◌, ◌≡◌, ◌≢◌, refl, sym, ◌∙◌, ap, arith, ◌⊎◌,
}
use umbra_os.Prelude.Maps.{update, update_self, update_ne}
use umbra_os.Devices.Pci.{config_address, read, write, written}

-- A function's place on the bus, and an offset into its registers.
abbrev pub IsPlace : ℕ → ℕ → ℕ → ℕ → Type 0
IsPlace bus device func offset = (bus < 256) × (device < 32) × (func < 8) × (offset < 256)

-- The registers after a write, on a device that keeps what is written.
abbrev pub after : (ℕ → ℕ) → ℕ × ℕ → ℕ → ℕ
after config w = update config w.0 w.1

-- Two places on the bus with one address are one, and their offsets lie in one register.
pub config_address_lem :
    (b d f o b' d' f' o' : ℕ)
    → IsPlace b d f o
    → IsPlace b' d' f' o'
    → config_address b d f o ≡ config_address b' d' f' o'
    → (b ≡ b') × (d ≡ d') × (f ≡ f') × (o / 4 ≡ o' / 4)
unfolding config_address
config_address_lem b d f o b' d' f' o' p q e = omega (arith, p, q, e)

same_register :
    (b d f o k : ℕ) → o % 4 + k < 4 → config_address b d f (o + k) ≡ config_address b d f o
unfolding config_address
same_register b d f o k h = omega (arith, h)

-- What goes to the data port, for either half of a register.
low_half :
    (offset current value : ℕ)
    → offset % 4 ≡ 0
    → current < 2 ^ 32
    → written 2 offset current value ≡ current / 2 ^ 16 * 2 ^ 16 + value % 2 ^ 16
unfolding written
low_half offset current value aligned word = rw aligned (omega (arith, word))

high_half :
    (offset current value : ℕ)
    → offset % 4 ≡ 2
    → written 2 offset current value ≡ value % 2 ^ 16 * 2 ^ 16 + current % 2 ^ 16
unfolding written
high_half offset current value aligned = rw aligned (omega arith)

read_at :
    (size : ℕ) (config : ℕ → ℕ) (b d f o a s : ℕ)
    → config_address b d f o ≡ a
    → o % 4 ≡ s
    → read size config b d f o ≡ config a / 2 ^ (s * 8) % 2 ^ (8 * size)
unfolding read
read_at size config b d f o a s e m = rw (e, m) refl

module _ (config : ℕ → ℕ) (bus device func offset value : ℕ) where
  -- A write of two bytes.
  abbrev now : ℕ → ℕ
  now = after config (write 2 config bus device func offset value)

  abbrev here : ℕ
  here = config_address bus device func offset

  now-here : now here ≡ written 2 offset (read 4 config bus device func offset) value
  unfolding write
  now-here = update_self config here _

  now-elsewhere : (a : ℕ) → a ≢ here → now a ≡ config a
  unfolding write
  now-elsewhere a ne = update_ne config here a _ (λ e. ne (sym e))

  -- Another register of this or of another function.
  abbrev Differs : ℕ → ℕ → ℕ → ℕ → Type 0
  Differs b d f o = ((b ≢ bus) ⊎ (d ≢ device)) ⊎ ((f ≢ func) ⊎ (o / 4 ≢ offset / 4))

  elsewhere :
      (b d f o : ℕ)
      → IsPlace bus device func offset
      → IsPlace b d f o
      → Differs b d f o
      → config_address b d f o ≢ here
  elsewhere b d f o place other differs e =
      let same = config_address_lem b d f o bus device func offset other place e in
      ground (arith, same, differs)

  -- On a device that keeps what is written, a write of two bytes to the lower half of a register of
  -- 32 bits is read back there, leaves the upper half, and leaves every other register of this and
  -- of other functions.
  pub write_lem :
      (b d f o : ℕ)
      → offset % 4 ≡ 0
      → config here < 2 ^ 32
      → IsPlace bus device func offset
      → IsPlace b d f o
      → Differs b d f o
      → (read 2 now bus device func offset ≡ value % 2 ^ 16)
        × (read 2 now bus device func (offset + 2) ≡ read 2 config bus device func (offset + 2))
        × (read 4 now b d f o ≡ read 4 config b d f o)
  write_lem b d f o aligned word place other differs = (
    read_at 2 now bus device func offset here 0 refl aligned ∙ omega (arith, current),
    read_at 2 now bus device func (offset + 2) here 2 beside (omega (arith, aligned))
        ∙ omega (arith, current, word)
        ∙ sym
            (read_at 2 config bus device func (offset + 2) here 2 beside (omega (arith, aligned))),
    untouched,
  )
    where
      beside : config_address bus device func (offset + 2) ≡ here
      beside = same_register bus device func offset 2 (omega (arith, aligned))

      current : now here ≡ config here / 2 ^ 16 * 2 ^ 16 + value % 2 ^ 16
      current =
          now-here
          ∙ ap (λ c. written 2 offset c value) whole
          ∙ low_half offset (config here) value aligned word
        where
          whole : read 4 config bus device func offset ≡ config here
          whole = read_at 4 config bus device func offset here 0 refl aligned ∙ omega (arith, word)

      untouched : read 4 now b d f o ≡ read 4 config b d f o
      untouched =
          let at = config_address b d f o in
          read_at 4 now b d f o at (o % 4) refl refl
          ∙ ap (λ w. w / 2 ^ (o % 4 * 8) % 2 ^ 32)
              (now-elsewhere at (elsewhere b d f o place other differs))
          ∙ sym (read_at 4 config b d f o at (o % 4) refl refl)

  -- On a device that keeps what is written, a write of two bytes to the upper half of a register of
  -- 32 bits is read back there, but the lower half becomes what the upper half was.
  pub write_spills :
      offset % 4 ≡ 2
      → config here < 2 ^ 32
      → (read 2 now bus device func offset ≡ value % 2 ^ 16)
        × (read 2 now bus device func (offset - 2) ≡ read 2 config bus device func offset)
  write_spills odd word = (
    read_at 2 now bus device func offset here 2 refl odd ∙ omega (arith, current),
    read_at 2 now bus device func (offset - 2) here 0 below (omega (arith, odd))
        ∙ omega (arith, current, word)
        ∙ sym (read_at 2 config bus device func offset here 2 refl odd),
  )
    where
      below : config_address bus device func (offset - 2) ≡ here
      below =
          sym (same_register bus device func (offset - 2) 2 (omega (arith, odd)))
          ∙ ap (config_address bus device func) (omega (arith, odd))

      current : now here ≡ value % 2 ^ 16 * 2 ^ 16 + config here / 2 ^ 16 % 2 ^ 16
      current =
          now-here
          ∙ ap (λ c. written 2 offset c value) high
          ∙ high_half offset (config here / 2 ^ 16 % 2 ^ 32) value odd
          ∙ omega (arith, word)
        where
          high : read 4 config bus device func offset ≡ config here / 2 ^ 16 % 2 ^ 32
          high = read_at 4 config bus device func offset here 2 refl odd
