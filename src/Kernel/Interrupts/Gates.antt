-- ===== src/Kernel/Interrupts/Gates.antt =====
-- src/kernel/idt.cpp: the table that `Idt::init` fills.
use umbra_os.Prelude.{
  ℕ, zero, suc, ◌+◌, ◌/◌, ◌%◌, ◌^◌, ◌<◌, ◌≤◌, ◌≡◌, refl, sym, ◌∙◌, ◌==◌, if◌then◌else◌, arith,
  Bool-cases, inl, inr, ==_iff,
}
use umbra_os.Prelude.Maps.{update, update_self, update_ne}
use umbra_os.Kernel.Descriptors.{IdtEntry, idt_entry, handler_of}
use umbra_os.Kernel.Interrupts.{gate, gates_from, idt_init, syscall_vect}

gates_from-lt :
    (hs : ℕ → ℕ) (rounds i j : ℕ) (es : ℕ → IdtEntry) → j < i → gates_from hs rounds i es j ≡ es j
unfolding gates_from
gates_from-lt hs zero i j es h = refl
gates_from-lt hs (suc rounds) i j es h =
    gates_from-lt hs rounds (i + 1) j (update es i (gate hs i)) (omega (arith, h))
    ∙ update_ne es i j (gate hs i) (λ e. omega (arith, e, h))

gates_from-eq :
    (hs : ℕ → ℕ) (rounds i j : ℕ) (es : ℕ → IdtEntry)
    → i ≤ j
    → j < i + rounds
    → gates_from hs rounds i es j ≡ gate hs j
unfolding gates_from
gates_from-eq hs zero i j es l h = absurd (omega (arith, l, h))
gates_from-eq hs (suc rounds) i j es l h = elim (Bool-cases (i == j)) [
  | inl e ↦
      let same = (==_iff i j).0 e in
      gates_from-lt hs rounds (i + 1) j (update es i (gate hs i)) (omega (arith, same))
      ∙ rw (sym same) (update_self es i (gate hs i))
  | inr ne ↦
      gates_from-eq hs rounds (i + 1) j (update es i (gate hs i)) (ground (arith, l, ne))
        (omega (arith, h))
]

-- The privilege that a program needs to raise an interrupt by an instruction, from bit 5 of the flags on.
abbrev pub dpl : IdtEntry → ℕ
dpl e = e.flags / 2 ^ 5 % 4

-- What the processor reads from an entry: the handler, who may raise it, and that it is present.
abbrev pub Reads : IdtEntry → ℕ → ℕ → Type 0
Reads e address level = (handler_of e ≡ address) × (dpl e ≡ level) × (e.flags / 2 ^ 7 ≡ 1)

gate-Reads :
    (hs : ℕ → ℕ) (i : ℕ)
    → hs i < 2 ^ 64
    → Reads (gate hs i) (hs i) (if i == syscall_vect then 3 else 0)
unfolding gate idt_entry
gate-Reads hs i word = elim (Bool-cases (i == syscall_vect)) [
  | inl e ↦ rw e (omega (arith, word), refl, refl)
  | inr e ↦ rw e (omega (arith, word), refl, refl)
]

-- From each of the 256 entries of the interrupt table that `Idt::init` fills, the processor reads
-- the address of its handler, when this has 64 bits, and that it is present. The entry of system
-- calls is the only one that a program may raise.
pub idt_init_lem :
    (hs : ℕ → ℕ) (es : ℕ → IdtEntry) (i : ℕ)
    → i < 256
    → hs i < 2 ^ 64
    → Reads (idt_init hs es i) (hs i) (if i == syscall_vect then 3 else 0)
unfolding idt_init
idt_init_lem hs es i small word =
    rw (gates_from-eq hs 256 0 i es (omega arith) (omega (arith, small))) (gate-Reads hs i word)
