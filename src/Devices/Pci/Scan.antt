-- ===== src/Devices/Pci/Scan.antt =====
-- src/kernel/drivers/pci.cpp: which functions `init` hands to the drivers, when these leave the configuration
-- space as it is.
use umbra_os.Prelude.{
  ℕ, zero, suc, ◌+◌, ◌*◌, ◌/◌, ◌%◌, ◌^◌, ◌<◌, ◌≡◌, sym, ap, Bool, false, not, ◌&&◌, ◌==◌, ltb, leb,
  if◌then◌else◌, List, [], ◌∷◌, arith, Bool-cases, inl, inr, ==_refl,
}
use umbra_os.Devices.Pci.{
  read, config_address, probe, n_funcs, funcs_from, devices_from, buses_from, init, header_type,
  words_of, pci_vendor_id_offset,
}

abbrev pub Found : Type 0
Found = List (ℕ × ℕ × ℕ)

-- A driver that writes down what it gets.
abbrev pub record_of : (ℕ → ℕ) → ℕ → ℕ → ℕ → Found → Found
record_of words bus device func found = (bus, device, func) ∷ found

abbrev pub is_at : ℕ → ℕ → ℕ → ℕ × ℕ × ℕ → Bool
is_at b d f place = if b == place.0 then if d == place.1 then f == place.2 else false else false

-- How often a function stands in a list.
abbrev pub times : ℕ → ℕ → ℕ → Found → ℕ
times b d f [] = 0
times b d f (place ∷ found) = (if is_at b d f place then 1 else 0) + times b d f found

module _ (c : ℕ → ℕ) where
  abbrev pub config : Found → ℕ → ℕ
  config found = c

  -- A register of a function, four bytes long.
  abbrev pub register : ℕ → ℕ → ℕ → ℕ → ℕ
  register b d f at = c (2 ^ 31 + b * 2 ^ 16 + d * 2 ^ 11 + f * 2 ^ 8 + at)

  -- Whether a function answers, with another vendor than 0xffff, and is no bridge: bits 16 to 22 of its
  -- fourth register are 0.
  abbrev pub is_device : ℕ → ℕ → ℕ → Bool
  is_device b d f =
      not (register b d f 0 % 2 ^ 16 == 0xffff) && register b d f 12 / 2 ^ 16 % 2 ^ 7 == 0

  -- The functions that a device has: eight when bit 23 of the fourth register of its first is set.
  abbrev pub functions : ℕ → ℕ → ℕ
  functions b d = if register b d 0 12 / 2 ^ 23 % 2 == 1 then 8 else 1

  same_functions : (b d : ℕ) (s : Found) → n_funcs config record_of b d s ≡ functions b d
  unfolding n_funcs read config_address
  same_functions b d s = ground arith

  abbrev found : ℕ → ℕ → ℕ → Bool
  found b d f =
      if read 2 c b d f pci_vendor_id_offset == 0xffff
      then false
      else header_type config record_of (words_of config record_of [] b d f) % 2 ^ 7 == 0

  found-eq : (b d f : ℕ) → found b d f ≡ is_device b d f
  unfolding read config_address
  found-eq b d f = ground arith

  module _ (b d f : ℕ) where
    abbrev one : ℕ
    one = if is_device b d f then 1 else 0

    times-probe :
        (bus device func : ℕ) (s : Found)
        → times b d f (probe config record_of bus device func s)
          ≡ (if is_at b d f (bus, device, func) then one else 0) + times b d f s
    unfolding probe
    times-probe bus device func s = elim (Bool-cases (is_at b d f (bus, device, func))) [
      | inl here ↦
          let same : (b ≡ bus) × (d ≡ device) × (f ≡ func) = ground (arith, here) in
          rw (here, sym same.0, sym same.1, sym same.2, ← found-eq b d f) (ground arith)
      | inr other ↦ rw other (ground (arith, other))
    ]

    abbrev within : ℕ → ℕ → ℕ → Bool
    within at rounds x = if leb at x then ltb x (at + rounds) else false

    times-funcs :
        (bus device rounds func : ℕ) (s : Found)
        → times b d f (funcs_from config record_of bus device rounds func s)
          ≡ (if b == bus
              then if d == device then if within func rounds f then one else 0 else 0
              else 0)
            + times b d f s
    unfolding funcs_from
    times-funcs bus device zero func s = ground arith
    times-funcs bus device (suc rounds) func s = ground (
      arith,
      times-funcs bus device rounds (func + 1) (probe config record_of bus device func s),
      times-probe bus device func s,
    )

    times-device :
        (bus device : ℕ) (s : Found)
        → times b d f
            (funcs_from config record_of bus device (n_funcs config record_of bus device s) 0 s)
          ≡ (if b == bus
              then if d == device then if ltb f (functions b d) then one else 0 else 0
              else 0)
            + times b d f s
    times-device bus device s =
        let counted = times-funcs bus device (functions bus device) 0 s in
        rw (same_functions bus device s) (elim (Bool-cases (is_at b d f (bus, device, f))) [
          | inl here ↦
              let same : (b ≡ bus) × (d ≡ device) = ground (arith, here, ==_refl f) in
              let as_many = ap (λ (p : ℕ × ℕ). functions p.0 p.1) (pair same.0 same.1) in
              ground (arith, counted, as_many)
          | inr other ↦ ground (arith, counted, other, ==_refl f)
        ])
      where
        pair : {x y u v : ℕ} → x ≡ y → u ≡ v → ◌≡◌ {A = ℕ × ℕ} (x, u) (y, v)
        pair e e' = cc

    times-devices :
        (bus rounds device : ℕ) (s : Found)
        → times b d f (devices_from config record_of bus rounds device s)
          ≡ (if b == bus
              then if within device rounds d then if ltb f (functions b d) then one else 0 else 0
              else 0)
            + times b d f s
    unfolding devices_from
    times-devices bus zero device s = ground arith
    times-devices bus (suc rounds) device s =
        let s' =
          funcs_from config record_of bus device (n_funcs config record_of bus device s) 0 s in
        ground (arith, times-devices bus rounds (device + 1) s', times-device bus device s)

    times-buses :
        (rounds bus : ℕ) (s : Found)
        → d < 32
        → times b d f (buses_from config record_of rounds bus s)
          ≡ (if within bus rounds b then if ltb f (functions b d) then one else 0 else 0)
            + times b d f s
    unfolding buses_from
    times-buses zero bus s h = ground arith
    times-buses (suc rounds) bus s h = ground (
      arith,
      times-buses rounds (bus + 1) (devices_from config record_of bus 32 0 s),
      times-devices bus 32 0 s,
    )

  -- On a bus whose registers stay as they are, the scan hands each function of the 256 buses and
  -- their 32 devices to the drivers once when it answers, with another vendor than 0xffff in the
  -- low half of its first register, is no bridge, with 0 in the bits 16 to 22 of its fourth
  -- register, and is one of its device's functions, which are 8 when bit 23 of the fourth register
  -- of the device's first function is set and else 1. It hands on no other of them.
  pub times-init :
      (b d f : ℕ)
      → b < 256
      → d < 32
      → times b d f (init config record_of [])
        ≡ (if ltb f (functions b d) then if is_device b d f then 1 else 0 else 0)
  unfolding init
  times-init b d f hb hd = ground (arith, times-buses b d f 256 0 [])
