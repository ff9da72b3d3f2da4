-- ===== src/Devices/Pci.antt =====
-- src/kernel/drivers/pci.hpp and pci.cpp: the configuration space of the PCI bus. `config` is what the data port
-- reads for an address that was written to the address port, and a write is the address with the word that goes to
-- the data port.
pub mod Config
pub mod Scan
use umbra_os.Prelude.{ℕ, zero, suc, ◌+◌, ◌-◌, ◌*◌, ◌/◌, ◌%◌, ◌^◌, ◌==◌, if◌then◌else◌}

-- The address of a register. The fields do not overlap for a device below 32 and a function below 8.
unfoldable pub config_address : ℕ → ℕ → ℕ → ℕ → ℕ
config_address bus device func offset =
    2 ^ 31 + bus * 2 ^ 16 + device * 2 ^ 11 + func * 2 ^ 8 + offset / 4 * 4

-- How far the word that is asked for stands from the lowest bit.
abbrev pub shift : ℕ → ℕ
shift offset = offset % 4 * 8

-- `read`, for a type of so many bytes.
unfoldable pub read : ℕ → (ℕ → ℕ) → ℕ → ℕ → ℕ → ℕ → ℕ
read size config bus device func offset =
    config (config_address bus device func offset) / 2 ^ shift offset % 2 ^ (8 * size)

-- `(word & ~(ones << at)) | ((value & ones) << at)` in 32 bits, where `ones` has so many bits.
abbrev pub with_field : ℕ → ℕ → ℕ → ℕ → ℕ
with_field bits at word value =
    (word / 2 ^ (at + bits) * 2 ^ (at + bits) + value % 2 ^ bits * 2 ^ at + word % 2 ^ at) % 2 ^ 32

-- What `write` puts on the data port. The field of a byte is not scaled to bits; a byte's offset of 32 and more
-- shifts by more than the word has, which the language does not define.
unfoldable pub written : ℕ → ℕ → ℕ → ℕ → ℕ
written size offset current value =
    if size == 1
    then with_field 8 offset current value
    else if size == 2
    then with_field 16 (shift offset) current value
    else value % 2 ^ 32

-- `write`. The current word is a read of four bytes at the same offset, which shifts it.
unfoldable pub write : ℕ → (ℕ → ℕ) → ℕ → ℕ → ℕ → ℕ → ℕ → ℕ × ℕ
write size config bus device func offset value = (
  config_address bus device func offset,
  written size offset (read 4 config bus device func offset) value,
)

abbrev pub pci_vendor_id_offset : ℕ
pci_vendor_id_offset = 0x0

abbrev pub pci_header_offset : ℕ
pci_header_offset = 0xe

-- The scan over a state `S` of the machine: `config` reads its registers, and `device_init` is what the drivers
-- make of a device, which they get as the words of its configuration.
module _ {S : Type 0} (config : S → ℕ → ℕ) (device_init : (ℕ → ℕ) → ℕ → ℕ → ℕ → S → S) where
  -- `header_bytes` and `device_bytes`.
  abbrev pub words_of : S → ℕ → ℕ → ℕ → ℕ → ℕ
  words_of s bus device func reg = read 4 (config s) bus device func (reg * 4)

  -- `pci_header.header_type`, the byte 14 of the header.
  abbrev pub header_type : (ℕ → ℕ) → ℕ
  header_type words = words 3 / 2 ^ 16 % 2 ^ 8

  unfoldable pub probe : ℕ → ℕ → ℕ → S → S
  probe bus device func s =
      let vendor = read 2 (config s) bus device func pci_vendor_id_offset in
      let words = words_of s bus device func in
      if vendor == 0xffff
      then s
      else if header_type words % 2 ^ 7 == 0
      then device_init words bus device func s
      else s

  unfoldable pub n_funcs : ℕ → ℕ → S → ℕ
  n_funcs bus device s =
      if read 1 (config s) bus device 0 pci_header_offset / 2 ^ 7 % 2 == 0 then 1 else 8

  -- The three loops, with so many rounds left.
  unfoldable pub funcs_from : ℕ → ℕ → ℕ → ℕ → S → S
  funcs_from bus device zero func s = s
  funcs_from bus device (suc rounds) func s =
      funcs_from bus device rounds (func + 1) (probe bus device func s)

  unfoldable pub devices_from : ℕ → ℕ → ℕ → S → S
  devices_from bus zero device s = s
  devices_from bus (suc rounds) device s =
      devices_from bus rounds (device + 1) (funcs_from bus device (n_funcs bus device s) 0 s)

  unfoldable pub buses_from : ℕ → ℕ → S → S
  buses_from zero bus s = s
  buses_from (suc rounds) bus s = buses_from rounds (bus + 1) (devices_from bus 32 0 s)

  unfoldable pub init : S → S
  init s = buses_from 256 0 s
