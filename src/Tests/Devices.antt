-- ===== src/Tests/Devices.antt =====
-- A bus with one device, the pins of the controllers, and a packet of the ping program.
use umbra_os.Prelude.{
  ℕ, ◌+◌, ◌*◌, ◌/◌, ◌^◌, ◌≡◌, refl, ◌==◌, if◌then◌else◌, none, some, done, false, [], ◌∷◌, arith,
  inr,
}
use umbra_os.Devices.Pci
use umbra_os.Devices.Pci.{read, write, config_address, n_funcs}
use umbra_os.Devices.Pci.Config.{after, write_lem, write_spills}
use umbra_os.Devices.Pci.Scan.{times, config, record_of, times-init}
use umbra_os.Devices.Apic.{Controllers, redirect_pin, entry_of, pin_raw, keyboard_vect}
use umbra_os.Devices.Apic.Redirect.{redirect_pin_lem}
use umbra_os.Apps.Ping.{checksum}
use umbra_os.Apps.Ping.Sum.{checksum-eq}
use umbra_os.Utils.RingBuffer
use umbra_os.Net.E1000.Start
use umbra_os.Net.E1000.Start.{Reads, Adapter, Started}
use umbra_os.Net.E1000.Start.Ends.{Answers, Rings, init-Rings}
use umbra_os.Net.Checksum.{get_checksum}

-- The registers of the function at device 3 hold its numbers.
abbrev numbered : ℕ → ℕ
numbered a = if a / 256 == 2 ^ 23 + 24 then 0x100e8086 else 0

write_lem_example :
    (read 2 (after numbered (write 2 numbered 0 3 0 4 6)) 0 3 0 4 ≡ 6)
    × (read 2 (after numbered (write 2 numbered 0 3 0 4 6)) 0 3 0 6 ≡ 0x100e)
    × (read 4 (after numbered (write 2 numbered 0 3 0 4 6)) 0 3 0 8 ≡ read 4 numbered 0 3 0 8)
unfolding read config_address
write_lem_example =
    write_lem numbered 0 3 0 4 6 0 3 0 8 refl (omega arith)
      (omega arith, omega arith, omega arith, omega arith)
      (omega arith, omega arith, omega arith, omega arith) (inr (inr (λ e. omega (arith, e))))

write_spills_example :
    (read 2 (after numbered (write 2 numbered 0 3 0 6 9)) 0 3 0 6 ≡ 9)
    × (read 2 (after numbered (write 2 numbered 0 3 0 6 9)) 0 3 0 4 ≡ read 2 numbered 0 3 0 6)
unfolding config_address
write_spills_example = write_spills numbered 0 3 0 6 9 refl (omega arith)

-- No other function answers, and the device has one.
abbrev bus : ℕ → ℕ
bus a =
    if a / 256 == 2 ^ 23 + 24
    then (if a == 2 ^ 31 + 3 * 2 ^ 11 then 0x100e8086 else 0)
    else 0xffffffff

times-init_example : times 0 3 0 (Pci.init (config bus) record_of []) ≡ 1
unfolding read config_address n_funcs
times-init_example = times-init bus 0 3 0 (omega arith) (omega arith)

-- All pins masked.
abbrev controllers : Controllers
controllers = record {
  local = λ r. 0;
  io = λ r. 2 ^ 16;
  ports = [];
  apic_base_addr = 0;
  io_base_addr = 0;
  interrupts = false;
}

redirect_pin_lem_example :
    (entry_of (pin_raw 0x12 (redirect_pin 0x12 keyboard_vect 0 controllers))
      ≡ record { vect = 33; modes = 0; interrupt_mask = 0; rest = 2 ^ 31 })
    × ((redirect_pin 0x12 keyboard_vect 0 controllers).io 0x14 ≡ 2 ^ 16)
redirect_pin_lem_example =
    redirect_pin_lem 0x12 keyboard_vect 0 controllers 0x14 (omega arith) (omega arith) (omega arith)
      (omega arith) (λ e. omega (arith, e)) (λ e. omega (arith, e))

checksum-eq_example : checksum (8 ∷ 0xffff ∷ 3 ∷ []) none ≡ get_checksum (8 ∷ 0xffff ∷ 3 ∷ [])
checksum-eq_example = checksum-eq (8 ∷ 0xffff ∷ 3 ∷ [])

-- The reset is done at once, the link is up at the second read, and each word of the EEPROM is 0x1234.
abbrev reads : Reads
reads = record {
  ctrl_link = 0;
  ctrl = λ k. 0;
  status = λ k. if k == 0 then 0 else 2;
  eerd = λ i k. 0x12340010;
}

reads-Answers : Answers 2 reads
reads-Answers = record {
  reset_at = 0;
  reset_in = omega arith;
  reset_done = refl;
  link_at = 1;
  link_in = omega arith;
  link_up = refl;
  word_at = λ i. 0;
  word_in = λ i. omega arith;
  word_read = λ i. refl;
}

abbrev adapter : Adapter
adapter = record {
  driver = record {
    memory = λ a. 0;
    tx_descriptors = λ i. record { addr = 0; length = 0; cmd = 0 };
    tx_tail = 9;
    tdt = 9;
    rx_descriptors = λ i. record { addr = 0; length = 0; status = 0 };
    rx_tail = 9;
    rdt = 9;
    cache = RingBuffer.new (λ i. record { bytes = λ a. 0; length = 0 });
  };
  mmio = 0;
  pmm = record { bitmap = record { bytes = λ i. 0; size = 4096 }; last_page_idx = 1 };
  writes = [];
}

init-Rings_example :
    (st : Started) × (Start.init 2 0 reads
        (λ i. if i == 0 then 0x100e8086 else 0)
        0
        3
        0
        numbered
        controllers
        adapter
      ≡ done (some st))
    × Rings st.adapter.driver 0 0 255 0
init-Rings_example =
    init-Rings 2 0 reads (λ i. if i == 0 then 0x100e8086 else 0) 0 3 0 numbered controllers adapter
      reads-Answers refl
