-- ===== src/Net/E1000/Drain.antt =====
-- src/kernel/drivers/e1000.cpp: the interrupt handler comes to an end.
use umbra_os.Prelude.{
  ℕ, zero, suc, ◌+◌, ◌-◌, ◌/◌, ◌%◌, ◌^◌, ◌<◌, ◌≤◌, ◌≡◌, refl, sym, ◌∙◌, Bool, true, false, ◌==◌,
  leb, if◌then◌else◌, done, arith, Bool-cases, inl, inr, ==_iff, ==→ne,
}
use umbra_os.Net.E1000.{
  E1000, num_rx_descs, drain, handler, taken, received, max_ethernet_frame_size,
}

-- How many descriptors lie before the device's.
abbrev ahead : ℕ → ℕ → ℕ
ahead rdt rdh = (rdh + 256 - rdt) % 256

-- Where the loop stops: at the device's descriptor, or before one that is not done.
abbrev pub Stops : ℕ → E1000 → Type 0
Stops rdh e = ((e.rdt == rdh) ≡ false) → (e.rx_descriptors ((e.rdt + 1) % 256)).status % 2 ≡ 0

either_rx :
    (b : Bool) (e e' : E1000)
    → e.rx_descriptors ≡ e'.rx_descriptors
    → (if b then e else e').rx_descriptors ≡ e'.rx_descriptors
either_rx true e e' q = q
either_rx false e e' q = refl

drain_lem :
    (fuel rdh k : ℕ) (woke : Bool) (e : E1000)
    → rdh < 256
    → e.rdt < 256
    → ahead e.rdt rdh < fuel
    → (b : Bool) × (e' : E1000) × (drain fuel (λ i. rdh) k woke e ≡ done (b, e'))
      × Stops rdh e'
      × (e'.rx_descriptors ≡ e.rx_descriptors)
unfolding drain
drain_lem zero rdh k woke e h t f = absurd (omega (arith, f))
drain_lem (suc fuel) rdh k woke e h t f = elim (Bool-cases (e.rdt == rdh)) [
  | inl at ↦
      (woke, record e { rx_tail = e.rdt }, rw at refl, λ q. absurd (true_false (sym at ∙ q)), refl)
  | inr away ↦
      let tail = (e.rdt + 1) % 256 in
      let desc = e.rx_descriptors tail in
      elim (Bool-cases (desc.status % 2 == 0)) [
        | inl open_ ↦ (
          woke,
          record e { rx_tail = tail },
          rw (away, open_) refl,
          λ q. (==_iff (desc.status % 2) 0).0 open_,
          refl,
        )
        | inr full ↦
            let next = record (taken desc (record e { rx_tail = tail })) { rdt = tail } in
            let (b, e', r, stops, same) =
              drain_lem fuel rdh (k + 1)
                (if leb desc.length max_ethernet_frame_size then true else woke) next h
                (omega arith) (closer (==→ne e.rdt rdh away)) in
            (
              b,
              e',
              rw (away, full) r,
              stops,
              same
                  ∙ either_rx (leb desc.length max_ethernet_frame_size)
                      (received (record e { rx_tail = tail }) desc) (record e { rx_tail = tail })
                      refl,
            )
      ]
]
  where
    true_false : true ≡ false → ⊥
    true_false q = cc

    closer : (e.rdt ≡ rdh → ⊥) → ahead ((e.rdt + 1) % 256) rdh < fuel
    closer ne = omega (arith, h, t, f, ne)

-- When the interrupt says that a packet came, the device's descriptor stays where it is, and both
-- ends of the ring are indices of it, the loop of `handler` ends within 256 rounds. It stops at the
-- device's descriptor or before one that is not done, and leaves the descriptors as they are.
pub handler_lem :
    (fuel status rdh : ℕ) (e : E1000)
    → rdh < num_rx_descs
    → e.rdt < num_rx_descs
    → num_rx_descs ≤ fuel
    → (status / 2 ^ 7 % 2 == 0) ≡ false
    → (b : Bool) × (e' : E1000) × (handler fuel status (λ k. rdh) e ≡ done (b, e'))
      × Stops rdh e'
      × (e'.rx_descriptors ≡ e.rx_descriptors)
unfolding handler
handler_lem fuel status rdh e h t enough rx =
    let (b, e', r, stops, same) = drain_lem fuel rdh 0 false e h t (omega (arith, enough)) in
    (b, e', rw rx r, stops, same)
