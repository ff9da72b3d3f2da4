-- ===== src/Memory/Vmm/Walk.antt =====
-- src/kernel/memory/vmm.cpp: an address whose tables are present, mapped and looked up.
use Prim.Native.Nat.{bit_or}
use umbra_os.Prelude.{
  ℕ, ◌+◌, ◌*◌, ◌/◌, ◌%◌, ◌^◌, ◌<◌, ◌∙◌, ap, arith, ◌≡◌, ◌≢◌, refl, sym, true, false, ==_of_ne,
  ==_refl,
}
use umbra_os.Prelude.Maps.{update, update_ne}
use umbra_os.Memory.Pmm.{phys_to_virt}
use mathlib.Core.Path.{subst}
use umbra_os.Memory.Vmm.Entry.{
  IsFlags, IsPage, bit_or-flags, pte_get_addr-flags, is_present-flags, is_present-even,
}
use umbra_os.Memory.Vmm.{
  Tables, pte_get_addr, is_present, entry, offset_of, get_next_level, virt_to_pte, map,
  virt_to_phys,
}

module _ (hhdm : ℕ) (words : ℕ → ℕ) where
  abbrev table_below : ℕ → ℕ
  table_below e = phys_to_virt hhdm (pte_get_addr (words e))

  -- The entries of the three upper tables lead from the top table to the entry of the page.
  record Walk (pml4 virt e4 e3 e2 pte : ℕ) : Type 0 where
    pub at4 : e4 ≡ entry pml4 (offset_of 4 virt)
    pub at3 : e3 ≡ entry (table_below e4) (offset_of 3 virt)
    pub at2 : e2 ≡ entry (table_below e3) (offset_of 2 virt)
    pub at1 : pte ≡ entry (table_below e2) (offset_of 1 virt)
    pub here4 : is_present (words e4) ≡ true
    pub here3 : is_present (words e3) ≡ true
    pub here2 : is_present (words e2) ≡ true
    pub some3 : table_below e4 ≢ 0
    pub some2 : table_below e3 ≢ 0
    pub some1 : table_below e2 ≢ 0
    pub some_pte : pte ≢ 0

next_present :
    (hhdm top idx e : ℕ) (s : Tables)
    → e ≡ entry top idx
    → is_present (s.words e) ≡ true
    → get_next_level hhdm top idx true s ≡ (table_below hhdm s.words e, s)
unfolding get_next_level
next_present hhdm top idx e s at here = rw (sym at, here) refl

virt_to_pte-Walk :
    (hhdm pml4 virt e4 e3 e2 pte : ℕ) (s : Tables)
    → Walk hhdm s.words pml4 virt e4 e3 e2 pte
    → virt_to_pte hhdm pml4 virt s ≡ (pte, s)
unfolding virt_to_pte
virt_to_pte-Walk hhdm pml4 virt e4 e3 e2 pte s w =
    rw
      (
        next_present hhdm pml4 (offset_of 4 virt) e4 s w.at4 w.here4,
        next_present hhdm (table_below hhdm s.words e4) (offset_of 3 virt) e3 s w.at3 w.here3,
        next_present hhdm (table_below hhdm s.words e3) (offset_of 2 virt) e2 s w.at2 w.here2,
        ==_of_ne (table_below hhdm s.words e4) 0 w.some3,
        ==_of_ne (table_below hhdm s.words e3) 0 w.some2,
        ==_of_ne (table_below hhdm s.words e2) 0 w.some1,
        sym w.at1,
      )
      refl

module _ (hhdm pml4 virt phys flags e4 e3 e2 pte : ℕ) (s : Tables)
    (w : Walk hhdm s.words pml4 virt e4 e3 e2 pte) (unmapped : is_present (s.words pte) ≡ false)
    (apart4 : pte ≢ e4) (apart3 : pte ≢ e3) (apart2 : pte ≢ e2) where
  abbrev mapped : Tables
  mapped = record s { words = update s.words pte (bit_or phys flags) }

  map-eq : map hhdm pml4 virt phys flags s ≡ mapped
  unfolding map
  map-eq =
      rw (virt_to_pte-Walk hhdm pml4 virt e4 e3 e2 pte s w, ==_of_ne pte 0 w.some_pte, unmapped)
        refl

  kept : (e : ℕ) → pte ≢ e → mapped.words e ≡ s.words e
  kept e ne = update_ne s.words pte e (bit_or phys flags) ne

  mapped-Walk : Walk hhdm mapped.words pml4 virt e4 e3 e2 pte
  mapped-Walk = record {
    at4 = w.at4;
    at3 = rw (kept e4 apart4) w.at3;
    at2 = rw (kept e3 apart3) w.at2;
    at1 = rw (kept e2 apart2) w.at1;
    here4 = rw (kept e4 apart4) w.here4;
    here3 = rw (kept e3 apart3) w.here3;
    here2 = rw (kept e2 apart2) w.here2;
    some3 = rw (kept e4 apart4) w.some3;
    some2 = rw (kept e3 apart3) w.some2;
    some1 = rw (kept e2 apart2) w.some1;
    some_pte = w.some_pte;
  }

  -- With a present entry, `map` changes that entry and nothing else, `virt_to_phys` answers what is
  -- masked out of it, and to map the address once more changes nothing.
  walked :
      is_present (bit_or phys flags) ≡ true
      → (map hhdm pml4 virt phys flags s ≡ mapped)
        × (virt_to_phys hhdm pml4 virt (map hhdm pml4 virt phys flags s)
            ≡ (pte_get_addr (bit_or phys flags), mapped))
        × ((other : ℕ) → map hhdm pml4 virt other flags mapped ≡ mapped)
  unfolding virt_to_phys map
  walked present = (
    map-eq,
    rw map-eq (
        rw
          (
            virt_to_pte-Walk hhdm pml4 virt e4 e3 e2 pte mapped mapped-Walk,
            ==_of_ne pte 0 w.some_pte,
            ==_refl pte,
            present,
          )
          refl),
    λ other.
        rw
          (
            virt_to_pte-Walk hhdm pml4 virt e4 e3 e2 pte mapped mapped-Walk,
            ==_of_ne pte 0 w.some_pte,
            ==_refl pte,
            present,
          )
          refl,
  )

-- Where the entry of an address stands in a table: 9 bits of the address, from a bit on, count words.
abbrev pub slot : ℕ → ℕ → ℕ → ℕ
slot table bit virt = table + 8 * (virt / 2 ^ bit % 512)

-- Where the kernel sees a page.
abbrev pub seen : ℕ → ℕ → ℕ
seen hhdm page = (page + hhdm) % 2 ^ 64

-- An entry with the page of a table that the kernel does not see at the null pointer.
pub record Leads (hhdm word table : ℕ) : Type 0 where
  pub flags : ℕ
  pub is_flags : IsFlags flags
  pub is_page : IsPage table
  pub joined : word ≡ table + flags
  pub set : seen hhdm table ≢ 0

module _ (hhdm pml4 virt phys flags t3 t2 t1 : ℕ) (s : Tables) where
  abbrev e4 : ℕ
  e4 = slot pml4 39 virt

  abbrev e3 : ℕ
  e3 = slot (seen hhdm t3) 30 virt

  abbrev e2 : ℕ
  e2 = slot (seen hhdm t2) 21 virt

  -- The entry of the page.
  abbrev pub page_entry : ℕ
  page_entry = slot (seen hhdm t1) 12 virt

  -- The tables on the way, and an entry of the page that is not in use, apart from those that lead to it.
  pub record Tabled : Type 0 where
    pub lead4 : Leads hhdm (s.words e4) t3
    pub lead3 : Leads hhdm (s.words e3) t2
    pub lead2 : Leads hhdm (s.words e2) t1
    pub unused : s.words page_entry % 2 ≡ 0
    pub word : s.words page_entry < 2 ^ 64
    pub apart4 : page_entry ≢ e4
    pub apart3 : page_entry ≢ e3
    pub apart2 : page_entry ≢ e2

  below : (e t : ℕ) → Leads hhdm (s.words e) t → table_below hhdm s.words e ≡ seen hhdm t
  below e t l =
      ap (λ w. phys_to_virt hhdm (pte_get_addr w)) l.joined
      ∙ ap (phys_to_virt hhdm) (pte_get_addr-flags t l.flags l.is_page l.is_flags)

  present : (e t : ℕ) → Leads hhdm (s.words e) t → is_present (s.words e) ≡ true
  present e t l = ap is_present l.joined ∙ is_present-flags t l.flags l.is_page l.is_flags

  tabled-Walk : Tabled → Walk hhdm s.words pml4 virt e4 e3 e2 page_entry
  tabled-Walk w = record {
    at4 = refl;
    at3 = rw (below e4 t3 w.lead4) refl;
    at2 = rw (below e3 t2 w.lead3) refl;
    at1 = rw (below e2 t1 w.lead2) refl;
    here4 = present e4 t3 w.lead4;
    here3 = present e3 t2 w.lead3;
    here2 = present e2 t1 w.lead2;
    some3 = rw (below e4 t3 w.lead4) w.lead4.set;
    some2 = rw (below e3 t2 w.lead3) w.lead3.set;
    some1 = rw (below e2 t1 w.lead2) w.lead2.set;
    some_pte = λ z. w.lead2.set (omega (arith, z));
  }

  -- The tables with the page in its entry.
  abbrev pub with_page : Tables
  with_page = record s { words = update s.words page_entry (phys + flags) }

  -- When three tables lead to an address, each by the entry that 9 bits of the address count, from
  -- bits 39, 30 and 21 on, the kernel does not see them at null, and the entry that the bits from
  -- 12 on count in the last is not present and none of those that lead to it; when a page below 2 ^
  -- 52 is mapped, and the flags are bits below the address and above it with the present bit: then
  -- `map` puts the page with the flags in that entry and changes nothing else, `virt_to_phys`
  -- answers the page and changes nothing, and to map the address once more changes nothing.
  pub virt_to_phys-map :
      Tabled
      → IsPage phys
      → IsFlags flags
      → (map hhdm pml4 virt phys flags s ≡ with_page)
        × (virt_to_phys hhdm pml4 virt (map hhdm pml4 virt phys flags s) ≡ (phys, with_page))
        × ((other : ℕ) → map hhdm pml4 virt other flags with_page ≡ with_page)
  virt_to_phys-map w p f =
      let joined = bit_or-flags phys flags p f in
      let set : is_present (bit_or phys flags) ≡ true =
        ap is_present joined ∙ is_present-flags phys flags p f in
      let (once, found, again) =
        walked hhdm pml4 virt phys flags e4 e3 e2 page_entry s (tabled-Walk w)
          (is_present-even (s.words page_entry) w.word w.unused) w.apart4 w.apart3 w.apart2 set in
      let same : mapped hhdm pml4 virt phys flags e4 e3 e2 page_entry s (tabled-Walk w)
            (is_present-even (s.words page_entry) w.word w.unused) w.apart4 w.apart3 w.apart2
          ≡ with_page =
        ap (λ v. record s { words = update s.words page_entry v }) joined in
      let addr : pte_get_addr (bit_or phys flags) ≡ phys =
        ap pte_get_addr joined ∙ pte_get_addr-flags phys flags p f in
      (
        once ∙ same,
        found
            ∙ ap (λ a. (a, record s { words = update s.words page_entry (bit_or phys flags) })) addr
            ∙ ap (λ x. (phys, x)) same,
        λ other. subst (λ x. map hhdm pml4 virt other flags x ≡ x) same (again other),
      )
