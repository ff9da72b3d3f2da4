-- ===== src/Net/Icmp/Replies.antt =====
-- src/kernel/net/icmp.cpp: an echo reply goes to every socket of the list.
use umbra_os.Prelude.{
  length, ℕ, zero, suc, ◌+◌, ◌-◌, ◌%◌, ◌^◌, ◌<◌, ◌≤◌, ◌≡◌, refl, sym, ◌∙◌, ap, List, [], ◌∷◌, ◌==◌,
  if◌then◌else◌, arith, Bool, true, false, done, ==_of_ne, ==_iff, Bool-cases, inl, inr, le→ltb,
  ltb,
}
use umbra_os.Prelude.Maps.{update}
use umbra_os.Libc.Strings.{Bytes}
use umbra_os.Utils.LinkedList.{Node}
use umbra_os.Utils.RingBuffer
use umbra_os.Utils.LinkedList.Chain.{Chain}
use umbra_os.Kernel.Scheduler.{Scheduler}
use umbra_os.Kernel.Scheduler
use umbra_os.Net.Ipv4.{swapped_at}
use umbra_os.Net.Icmp.{IcmpSocket, Icmp, given, write_walk, receive_icmp}

-- Whether a socket stands in the chain, and that none stands in it twice.
abbrev pub listed : ℕ → List (ℕ × ℕ) → Bool
listed x [] = false
listed x (cell ∷ cells) = if cell.1 == x then true else listed x cells

abbrev pub Distinct : List (ℕ × ℕ) → Type 0
Distinct [] = Unit {0}
Distinct (cell ∷ cells) = (listed cell.1 cells ≡ false) × Distinct cells

-- A ring of 64 packets, with one more in it.
abbrev pub one_more : ℕ → IcmpSocket → IcmpSocket
one_more packet x = record x { packets = RingBuffer.write 64 x.packets packet }

abbrev pub after_write : List (ℕ × ℕ) → ℕ → (ℕ → IcmpSocket) → ℕ → IcmpSocket
after_write cells packet sockets x =
    if listed x cells then one_more packet (sockets x) else sockets x

write_again :
    (packet : ℕ) (cell : ℕ × ℕ) (cells : List (ℕ × ℕ)) (sockets : ℕ → IcmpSocket) (x : ℕ)
    → listed cell.1 cells ≡ false
    → after_write cells packet (update sockets cell.1 (given packet (sockets cell.1))) x
      ≡ after_write (cell ∷ cells) packet sockets x
write_again packet cell cells sockets x once = elim (Bool-cases (cell.1 == x)) [
  | inl e ↦
      let here : listed x cells ≡ false =
        ap (λ y. listed y cells) (sym ((==_iff cell.1 x).0 e)) ∙ once in
      rw (here, e) (ap (λ y. given packet (sockets y)) ((==_iff cell.1 x).0 e))
  | inr e ↦ rw e refl
]

walk-eq :
    (packet : ℕ) (cells : List (ℕ × ℕ)) (fuel : ℕ) (nodes : ℕ → Node) (p : ℕ)
    (sockets : ℕ → IcmpSocket)
    → Chain nodes p cells
    → Distinct cells
    → length cells < fuel
    → (r : ℕ → IcmpSocket) × (write_walk fuel packet nodes p sockets ≡ done r)
      × ((x : ℕ) → r x ≡ after_write cells packet sockets x)
unfolding write_walk
walk-eq packet cells zero nodes p sockets c d h = ground arith
walk-eq packet [] (suc fuel) nodes p sockets c d h = (sockets, rw (c.0) refl, λ x. refl)
walk-eq packet ((a, v) ∷ cells) (suc fuel) nodes p sockets c d h =
    let (r, e, same) =
      walk-eq packet cells fuel nodes (nodes a).next (update sockets v (given packet (sockets v)))
        c.3 d.1 (omega (arith, h)) in
    (
      r,
      rw (c.0, ==_of_ne a 0 c.1, c.2) e,
      λ x. same x ∙ write_again packet (a, v) cells sockets x d.0,
    )

-- When the sockets are chained, none of them twice, `wake_net` ends, and a packet of 24 to 2 ^ 16 -
-- 1 bytes is an echo reply, `receive_icmp` ends within one step for each socket and one more, and
-- writes the address behind the packet's header of 20 bytes once to the ring of each socket of the
-- list, which has 64 cells, and to no other.
pub receive_icmp_lem :
    (fuel steps : ℕ) (m : Bytes) (header : ℕ) (u : Icmp) (s s' : Scheduler) (cells : List (ℕ × ℕ))
    → Chain u.list.nodes u.list.head cells
    → Distinct cells
    → length cells < fuel
    → Scheduler.wake_net steps s ≡ done s'
    → 24 ≤ swapped_at m (header + 2)
    → swapped_at m (header + 2) < 2 ^ 16
    → m (header + 20) ≡ 0
    → m (header + 20 + 1) ≡ 0
    → (r : ℕ → IcmpSocket) × (receive_icmp fuel steps m header u s
        ≡ done (record u { sockets = r }, s'))
      × ((x : ℕ) → r x ≡ after_write cells (header + 20) u.sockets x)
unfolding receive_icmp
receive_icmp_lem fuel steps m header u s s' cells chain d h woke long fits kind code =
    let (r, e, same) =
      walk-eq (header + 20) cells fuel u.list.nodes u.list.head u.sockets chain d h in
    let len : ltb ((swapped_at m (header + 2) + 2 ^ 64 - 20) % 2 ^ 64) 4 ≡ false =
      le→ltb _ _ (omega (arith, long, fits)) in
    (r, rw (len, kind, code, e, woke) refl, same)
