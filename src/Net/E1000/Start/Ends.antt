-- ===== src/Net/E1000/Start/Ends.antt =====
-- src/kernel/drivers/e1000.cpp: that the start of the adapter ends when its registers answer.
use umbra_os.Prelude.{
  ℕ, zero, suc, ◌+◌, ◌-◌, ◌*◌, ◌/◌, ◌%◌, ◌^◌, ◌<◌, ◌≡◌, refl, sym, ◌∙◌, ap, Bool, true, false, not,
  ◌==◌, if◌then◌else◌, some, done, arith, Bool-cases, inl, inr,
}
use umbra_os.Devices.Apic.{Controllers, redirect_pin}
use umbra_os.Devices.Pci
use Prim.Native.Nat.{bit_or}
use umbra_os.Net.Ipv4.{MacAddress}
use umbra_os.Net.E1000.{E1000, mac_address, num_rx_descs, num_tx_descs}
use umbra_os.Net.E1000.Start.{
  Reads, Adapter, Started, write, bit, poll, reset, receive_pages, transmit_pages, init_receive,
  init_transmit, read_eeprom, with_mac, init, ctrl_device_reset, ctrl_slu, mmio_base, with_command,
  e1000_vect,
}

poll_lem :
    (fuel : ℕ) (test : ℕ → Bool) (reads : ℕ → ℕ) (k n : ℕ)
    → test (reads (k + n)) ≡ true
    → n < fuel
    → (v : ℕ) × (poll fuel test reads k ≡ done v)
unfolding poll
poll_lem zero test reads k n e h = absurd (omega (arith, h))
poll_lem (suc fuel) test reads k zero e h =
    let same : k + 0 ≡ k = omega arith in
    let now : test (reads k) ≡ true = ap (λ i. test (reads i)) (sym same) ∙ e in
    (reads k, rw now refl)
poll_lem (suc fuel) test reads k (suc n) e h = elim (Bool-cases (test (reads k))) [
  | inl now ↦ (reads k, rw now refl)
  | inr late ↦
      let same : k + suc n ≡ k + 1 + n = omega arith in
      let (v, q) =
        poll_lem fuel test reads (k + 1) n (ap (λ i. test (reads i)) (sym same) ∙ e)
          (omega (arith, h)) in
      (v, rw late q)
]

-- When each loop sees the bit that it waits for, within so many reads.
pub record Answers (fuel : ℕ) (reads : Reads) : Type 0 where
  pub reset_at : ℕ
  pub reset_in : reset_at < fuel
  pub reset_done : bit 26 (reads.ctrl (1 + reset_at)) ≡ false
  pub link_at : ℕ
  pub link_in : link_at < fuel
  pub link_up : bit 1 (reads.status (0 + link_at)) ≡ true
  pub word_at : ℕ → ℕ
  pub word_in : (i : ℕ) → word_at i < fuel
  pub word_read : (i : ℕ) → bit 4 (reads.eerd i (0 + word_at i)) ≡ true

module _ (fuel hhdm : ℕ) (reads : Reads) (a : Answers fuel reads) where
  reset_lem :
      (s : Adapter) → (s' : Adapter) × (reset fuel reads s ≡ done s') × (s'.driver ≡ s.driver)
  unfolding reset
  reset_lem s =
      let (v, e) =
        poll_lem fuel (λ v. not (bit 26 v)) reads.ctrl 1 a.reset_at (ap not a.reset_done)
          a.reset_in in
      (
        write 0xd8 0xffffffff
            (write 0x0 (bit_or (reads.ctrl 0) ctrl_device_reset) (write 0xd8 0xffffffff s)),
        rw e refl,
        refl,
      )

  read_eeprom_lem :
      (i : ℕ) (s : Adapter)
      → (w : ℕ) × (s' : Adapter) × (read_eeprom fuel reads i s ≡ done (w, s'))
        × (s'.driver ≡ s.driver)
  unfolding read_eeprom
  read_eeprom_lem i s =
      let (v, e) =
        poll_lem fuel (bit 4) (reads.eerd i) 0 (a.word_at i) (a.word_read i) (a.word_in i) in
      (v / 2 ^ 16 % 2 ^ 16, write 0x14 (bit_or 1 (i * 2 ^ 8)) s, rw e refl, refl)

  with_mac_lem :
      (s : Adapter)
      → (mac : MacAddress) × (s' : Adapter) × (with_mac fuel reads s ≡ done (mac, s'))
        × (s'.driver ≡ s.driver)
  with_mac_lem s =
      let (w0, s0, e0, k0) = read_eeprom_lem 0 s in
      let (w1, s1, e1, k1) = read_eeprom_lem 1 s0 in
      let (w2, s2, e2, k2) = read_eeprom_lem 2 s1 in
      (
        mac_address (λ i. if i == 0 then w0 else if i == 1 then w1 else w2),
        s2,
        rw (e0, e1, e2) refl,
        k2 ∙ k1 ∙ k0,
      )

-- The tails that the driver keeps, and those in the device's registers.
abbrev pub Rings : E1000 → ℕ → ℕ → ℕ → ℕ → Type 0
Rings e tx_tail rx_tail rdt tdt =
    (e.tx_tail ≡ tx_tail) × (e.rx_tail ≡ rx_tail) × (e.rdt ≡ rdt) × (e.tdt ≡ tdt)

receive_pages-Rings :
    (hhdm rounds i : ℕ) (s : Adapter)
    → Rings
        (receive_pages hhdm rounds i s).driver
        s.driver.tx_tail
        s.driver.rx_tail
        s.driver.rdt
        s.driver.tdt
unfolding receive_pages
receive_pages-Rings hhdm zero i s = (refl, refl, refl, refl)
receive_pages-Rings hhdm (suc rounds) i s = receive_pages-Rings hhdm rounds (i + 1) _

transmit_pages-Rings :
    (hhdm rounds i : ℕ) (s : Adapter)
    → Rings
        (transmit_pages hhdm rounds i s).driver
        s.driver.tx_tail
        s.driver.rx_tail
        s.driver.rdt
        s.driver.tdt
unfolding transmit_pages
transmit_pages-Rings hhdm zero i s = (refl, refl, refl, refl)
transmit_pages-Rings hhdm (suc rounds) i s = transmit_pages-Rings hhdm rounds (i + 1) _

init_receive-Rings :
    (hhdm : ℕ) (s : Adapter)
    → Rings
        (init_receive hhdm s).driver
        s.driver.tx_tail
        s.driver.rx_tail
        (num_rx_descs - 1)
        s.driver.tdt
unfolding init_receive
init_receive-Rings hhdm s =
    let r = receive_pages-Rings hhdm num_rx_descs 0 _ in (r.0, r.1, refl, r.3)

init_transmit-Rings :
    (hhdm : ℕ) (s : Adapter)
    → Rings (init_transmit hhdm s).driver s.driver.tx_tail s.driver.rx_tail s.driver.rdt 0
unfolding init_transmit
init_transmit-Rings hhdm s =
    let r = transmit_pages-Rings hhdm num_tx_descs 0 _ in (r.0, r.1, r.2, refl)

module _ (fuel hhdm : ℕ) (reads : Reads) (words : ℕ → ℕ) (bus device func : ℕ) (config : ℕ → ℕ)
    (s : Controllers) (ad : Adapter) where
  -- When the function is the adapter, the reset ends, the link comes up and each word of the EEPROM
  -- is read, each within as many reads as there is fuel, then `init` ends and starts it. The
  -- device's tail of the receive ring is then the last descriptor and that of the transmit ring the
  -- first, and both of the driver's tails are 0.
  pub init-Rings :
      Answers fuel reads
      → words 0 ≡ 0x100e8086
      → (st : Started) × (init fuel hhdm reads words bus device func config s ad ≡ done (some st))
        × Rings st.adapter.driver 0 0 (num_rx_descs - 1) 0
  unfolding init
  init-Rings a this =
      let mastered =
        with_command (2 ^ 1) bus device func (with_command (2 ^ 2) bus device func config) in
      let base : Adapter = record ad {
        driver = record (ad.driver) { tx_tail = 0; rx_tail = 0 };
        mmio = mmio_base hhdm (words 4) (words 5);
      } in
      let (fresh, e, kept) = reset_lem fuel hhdm reads a base in
      let linked : Adapter = write 0x0 (bit_or reads.ctrl_link ctrl_slu) fresh in
      let (v, up) = poll_lem fuel (bit 1) reads.status 0 a.link_at a.link_up a.link_in in
      let received = init_receive hhdm linked in
      let ready = init_transmit hhdm received in
      let (mac, last, e', kept') = with_mac_lem fuel hhdm reads a (write 0xd0 0x1F6DF ready) in
      let rx = init_receive-Rings hhdm linked in
      let tx = init_transmit-Rings hhdm received in
      (
        record {
          config = mastered;
          controllers =
              redirect_pin ((Pci.read 1 mastered bus device func 0x3c * 2 + 16) % 2 ^ 8) e1000_vect
                0 s;
          adapter = last;
          mac_addr = mac;
        },
        rw (this, e, up, e') refl,
        (
          ap (λ (d : E1000). d.tx_tail) kept' ∙ tx.0 ∙ rx.0 ∙ ap (λ (d : E1000). d.tx_tail) kept,
          ap (λ (d : E1000). d.rx_tail) kept' ∙ tx.1 ∙ rx.1 ∙ ap (λ (d : E1000). d.rx_tail) kept,
          ap (λ (d : E1000). d.rdt) kept' ∙ tx.2 ∙ rx.2,
          ap (λ (d : E1000). d.tdt) kept' ∙ tx.3,
        ),
      )
