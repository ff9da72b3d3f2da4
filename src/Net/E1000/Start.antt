-- ===== src/Net/E1000/Start.antt =====
-- src/kernel/drivers/e1000.cpp: how the network adapter is found and started. What its registers read is a parameter;
-- what is written to them is kept in order, the last write first.
pub mod Ends
use Prim.Native.Nat.{bit_or}
use umbra_os.Prelude.{
  ℕ, zero, suc, ◌+◌, ◌-◌, ◌*◌, ◌/◌, ◌%◌, ◌^◌, Bool, not, ◌==◌, ◌||◌, if◌then◌else◌, Option, none,
  some, List, ◌∷◌, Outcome, done, out_of_fuel, ◌>>=◌,
}
use umbra_os.Prelude.Maps.{update}
use umbra_os.Memory.Pmm
use umbra_os.Memory.Pmm.{Pmm, page_size, phys_to_virt, virt_to_phys}
use umbra_os.Devices.Pci
use umbra_os.Devices.Apic.{Controllers, redirect_pin}
use umbra_os.Net.Ipv4.{MacAddress}
use umbra_os.Net.E1000.{E1000, num_rx_descs, num_tx_descs, mac_address}

-- What the registers read: `CTRL_REGISTER`, `STATUS_REGISTER` and `EERD_REGISTER`, at the `k`-th time that a loop
-- asks; the last for a word of the EEPROM. `ctrl_link` is what the first reads after the reset.
pub record Reads : Type 0 where
  pub ctrl_link : ℕ
  pub ctrl : ℕ → ℕ
  pub status : ℕ → ℕ
  pub eerd : ℕ → ℕ → ℕ

-- The driver with its memory, the page allocator, and the writes.
pub record Adapter : Type 0 where
  pub driver : E1000
  pub mmio : ℕ
  pub pmm : Pmm
  pub writes : List (ℕ × ℕ)

abbrev pub write : ℕ → ℕ → Adapter → Adapter
write reg value a = record a { writes = (reg, value % 2 ^ 32) ∷ a.writes }

-- A loop that reads a register until a test of it holds: the value that it read.
unfoldable pub poll : ℕ → (ℕ → Bool) → (ℕ → ℕ) → ℕ → Outcome ℕ
poll zero test reads k = out_of_fuel
poll (suc fuel) test reads k =
    let on = poll fuel test reads (k + 1) in if test (reads k) then done (reads k) else on

abbrev pub bit : ℕ → ℕ → Bool
bit k value = not (value / 2 ^ k % 2 == 0)

-- The base address of the registers, from the first two words behind the header.
unfoldable pub mmio_base : ℕ → ℕ → ℕ → ℕ
mmio_base hhdm bar0 bar1 =
    let low_addr = bar0 % 2 ^ 32 / 2 ^ 4 * 2 ^ 4 in
    if bar0 / 2 % 2 ^ 2 == 0
    then phys_to_virt hhdm low_addr
    else phys_to_virt hhdm (bar1 % 2 ^ 32 * 2 ^ 32 + low_addr)

abbrev pub ctrl_device_reset : ℕ
ctrl_device_reset = 2 ^ 26

abbrev pub ctrl_slu : ℕ
ctrl_slu = 2 ^ 6

-- `reset`. The task sleeps before the loop; the loop's first read is not that of the line above it.
unfoldable pub reset : ℕ → Reads → Adapter → Outcome Adapter
reset fuel reads a = poll fuel (λ v. not (bit 26 v)) reads.ctrl 1 >>= λ _. done (
    write 0xd8 0xffffffff
      (write 0x0 (bit_or (reads.ctrl 0) ctrl_device_reset) (write 0xd8 0xffffffff a)))

-- A page for a descriptor, with its address.
abbrev paged : ℕ → Adapter → ℕ × Adapter
paged hhdm a =
    let (page, pmm, memory) = Pmm.calloc hhdm a.pmm a.driver.memory 1 in
    (page, record a { driver = record (a.driver) { memory = memory }; pmm = pmm })

-- The loops that give each descriptor a page.
unfoldable pub receive_pages : ℕ → ℕ → ℕ → Adapter → Adapter
receive_pages hhdm zero i a = a
receive_pages hhdm (suc rounds) i a =
    let (page, a') = paged hhdm a in
    let descs = a'.driver.rx_descriptors in
    let at = phys_to_virt hhdm page in
    receive_pages hhdm rounds (i + 1) (record a' {
      driver = record (a'.driver) {
        rx_descriptors = update descs i (record (descs i) { addr = at });
      };
    })

unfoldable pub transmit_pages : ℕ → ℕ → ℕ → Adapter → Adapter
transmit_pages hhdm zero i a = a
transmit_pages hhdm (suc rounds) i a =
    let (page, a') = paged hhdm a in
    let descs = a'.driver.tx_descriptors in
    let at = phys_to_virt hhdm page in
    transmit_pages hhdm rounds (i + 1) (record a' {
      driver = record (a'.driver) {
        tx_descriptors = update descs i (record (descs i) { addr = at });
      };
    })

-- `init_receive`. The descriptors stand in a page that is 0; `RCTL_REGISTER` gets `RCTL_EN`, `RCTL_BAM`,
-- `RCTL_SECRC`, `RCTL_BSIZE_256` and `RCTL_BSEX`.
unfoldable pub init_receive : ℕ → Adapter → Adapter
init_receive hhdm a =
    let (page, a') = paged hhdm a in
    let blank = record (a'.driver) {
      rx_descriptors = λ i. record { addr = 0; length = 0; status = 0 };
    } in
    let filled = receive_pages hhdm num_rx_descs 0 (record a' { driver = blank }) in
    let placed = write 0x2804 (page / 2 ^ 32) (write 0x2800 page filled) in
    let sized = write 0x2818 (num_rx_descs - 1) (write 0x2810 0 (write 0x2808 page_size placed)) in
    write 0x100 (2 ^ 1 + 2 ^ 15 + 2 ^ 26 + 3 * 2 ^ 16 + 2 ^ 25)
      (record sized { driver = record (sized.driver) { rdt = num_rx_descs - 1 } })

unfoldable pub init_transmit : ℕ → Adapter → Adapter
init_transmit hhdm a =
    let (page, a') = paged hhdm a in
    let blank = record (a'.driver) {
      tx_descriptors = λ i. record { addr = 0; length = 0; cmd = 0 };
    } in
    let filled = transmit_pages hhdm num_tx_descs 0 (record a' { driver = blank }) in
    let placed = write 0x3804 (page / 2 ^ 32) (write 0x3800 page filled) in
    let sized = write 0x3818 0 (write 0x3810 0 (write 0x3808 page_size placed)) in
    write 0x400 (2 ^ 1) (record sized { driver = record (sized.driver) { tdt = 0 } })

-- `read_eeprom`: the word, which the loop waits for, and the write that asks for it.
unfoldable pub read_eeprom : ℕ → Reads → ℕ → Adapter → Outcome (ℕ × Adapter)
read_eeprom fuel reads addr a = poll fuel (bit 4) (reads.eerd addr) 0 >>= λ ret.
    done (ret / 2 ^ 16 % 2 ^ 16, write 0x14 (bit_or 1 (addr * 2 ^ 8)) a)

-- The loop over the three words of the address.
abbrev pub with_mac : ℕ → Reads → Adapter → Outcome (MacAddress × Adapter)
with_mac fuel reads a = read_eeprom fuel reads 0 a >>= λ w0. read_eeprom fuel reads 1 w0.1 >>= λ w1.
    read_eeprom fuel reads 2 w1.1 >>= λ w2.
    let word : ℕ → ℕ = λ i. if i == 0 then w0.0 else if i == 1 then w1.0 else w2.0 in
    done (mac_address word, w2.1)

-- The command register of the bus, with a bit set.
unfoldable pub with_command : ℕ → ℕ → ℕ → ℕ → (ℕ → ℕ) → ℕ → ℕ
with_command flag bus device func config =
    let command = bit_or (Pci.read 2 config bus device func 0x4) flag in
    let w = Pci.write 2 config bus device func 0x4 command in update config w.0 w.1

-- What `init` leaves: the bus's registers, the interrupt controllers, the adapter and its address.
pub record Started : Type 0 where
  pub config : ℕ → ℕ
  pub controllers : Controllers
  pub adapter : Adapter
  pub mac_addr : MacAddress

abbrev pub e1000_vect : ℕ
e1000_vect = 43

-- `init` of a function of the bus, whose configuration is `words`; none when it is another device.
unfoldable pub init :
    ℕ → ℕ → Reads → (ℕ → ℕ) → ℕ → ℕ → ℕ → (ℕ → ℕ) → Controllers → Adapter → Outcome (Option Started)
init fuel hhdm reads words bus device func config s a =
    let mastered =
      with_command (2 ^ 1) bus device func (with_command (2 ^ 2) bus device func config) in
    let base = record a {
      driver = record (a.driver) { tx_tail = 0; rx_tail = 0 };
      mmio = mmio_base hhdm (words 4) (words 5);
    } in
    let irq = Pci.read 1 mastered bus device func 0x3c in
    let started : Outcome (Option Started) = reset fuel reads base >>= λ fresh.
    let linked = write 0x0 (bit_or reads.ctrl_link ctrl_slu) fresh in
    poll fuel (bit 1) reads.status 0 >>= λ _.
    let ready = init_transmit hhdm (init_receive hhdm linked) in
    with_mac fuel reads (write 0xd0 0x1F6DF ready) >>= λ m. done (
      some (record {
        config = mastered;
        controllers = redirect_pin ((irq * 2 + 16) % 2 ^ 8) e1000_vect 0 s;
        adapter = m.1;
        mac_addr = m.0;
      })) in
    if not (words 0 % 2 ^ 16 == 0x8086) || not (words 0 / 2 ^ 16 == 0x100e)
    then done none
    else started
