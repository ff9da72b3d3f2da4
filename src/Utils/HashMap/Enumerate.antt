-- ===== src/Utils/HashMap/Enumerate.antt =====
-- src/kernel/utils/hashmap.hpp: `get_nth` lists the table, bucket by bucket.
use umbra_os.Prelude.{
  ℕ, zero, suc, ◌+◌, ◌-◌, ◌≡◌, ◌≤◌, ◌<◌, refl, Option, none, some, ◌==◌, if◌then◌else◌, List, [],
  ◌∷◌, ◌++◌, arith, length, get_elem?, get_elem?-append_left, get_elem?-append_right, sym, ap, ◌∙◌,
  inl, inr, true, false, Bool-cases,
}
use umbra_os.Utils.HashMap.{Entry, StringHashMap, nth_chain, nth_table, get_nth, found_or}

next : (n count : ℕ) → count < n → n - count ≡ suc (n - (count + 1))
next n count h = omega arith

now : (n count : ℕ) → (count == n) ≡ true → n - count ≡ 0
now n count e = ground arith

module _ {ℓ} {V : Type ℓ} where
  -- The values of a chain that `get_nth` counts: those whose hash is not 0.
  unfoldable pub counted : List (Entry V) → List V
  counted [] = []
  counted (x ∷ rest) = if x.key_hash == 0 then counted rest else x.value ∷ counted rest

  -- The counted values of `rounds` buckets from bucket `i` on.
  unfoldable pub table_values : (ℕ → List (Entry V)) → ℕ → ℕ → List V
  table_values entries i zero = []
  table_values entries i (suc rounds) = counted (entries i) ++ table_values entries (i + 1) rounds

  abbrev Reads : ℕ → ℕ → List (Entry V) → Option V × ℕ → Type ℓ
  Reads n count chain (some v, c) = get_elem? (counted chain) (n - count) ≡ some v
  Reads n count chain (none, c) =
      (get_elem? (counted chain) (n - count) ≡ none)
      × (c ≡ count + length (counted chain))
      × (c ≤ n)

  Reads-skip :
      (n count : ℕ) (x : Entry V) (rest : List (Entry V)) (o : Option V × ℕ)
      → (x.key_hash == 0) ≡ true
      → Reads n count rest o
      → Reads n count (x ∷ rest) o
  unfolding counted
  Reads-skip n count x rest (some v, c) e h = rw e h
  Reads-skip n count x rest (none, c) e h = rw e h

  Reads-next :
      (n count : ℕ) (x : Entry V) (rest : List (Entry V)) (o : Option V × ℕ)
      → (x.key_hash == 0) ≡ false
      → count < n
      → Reads n (count + 1) rest o
      → Reads n count (x ∷ rest) o
  unfolding counted
  Reads-next n count x rest (some v, c) e h r = rw (e, next n count h) r
  Reads-next n count x rest (none, c) e h r = rw (e, next n count h) (r.0, omega (arith, r.1), r.2)

  nth_chain-Reads :
      (n count : ℕ) (chain : List (Entry V))
      → count ≤ n
      → Reads n count chain (nth_chain n count chain)
  unfolding nth_chain counted
  nth_chain-Reads n count [] h = (refl, omega arith, h)
  nth_chain-Reads n count (x ∷ rest) h = elim (Bool-cases (x.key_hash == 0)) [
    | inl empty ↦ rw empty (Reads-skip n count x rest _ empty (nth_chain-Reads n count rest h))
    | inr used ↦ elim (Bool-cases (count == n)) [
      | inl here ↦ rw (used, here) (rw (used, now n count here) refl)
      | inr later ↦
          let below : count < n = ground arith in
          rw (used, later)
            (Reads-next n count x rest _ used below
              (nth_chain-Reads n (count + 1) rest (omega arith)))
    ]
  ]

  module _ (entries : ℕ → List (Entry V)) (n : ℕ) where
    found_or-eq :
        (i rounds count : ℕ) (o : Option V × ℕ) (go_on : ℕ → Option V)
        → Reads n count (entries i) o
        → ((c : ℕ) → c ≤ n → go_on c ≡ get_elem? (table_values entries (i + 1) rounds) (n - c))
        → count ≤ n
        → found_or o go_on ≡ get_elem? (table_values entries i (suc rounds)) (n - count)
    unfolding table_values
    found_or-eq i rounds count (some v, c) go_on r on h =
        sym (get_elem?-append_left (counted (entries i)) _ (n - count) v r)
    found_or-eq i rounds count (none, c) go_on r on h =
        on c r.2
        ∙ sym (
            get_elem?-append_right (counted (entries i)) _ (n - count) (n - c)
              (omega (arith, r.1, r.2)))

    nth_table-eq :
        (i rounds count : ℕ)
        → count ≤ n
        → nth_table n entries i rounds count ≡ get_elem? (table_values entries i rounds) (n - count)
    unfolding nth_table table_values
    nth_table-eq i zero count h = refl
    nth_table-eq i (suc rounds) count h =
        found_or-eq i rounds count (nth_chain n count (entries i)) _
          (nth_chain-Reads n count (entries i) h) (nth_table-eq (i + 1) rounds) h

  -- `get_nth` reads the values of the table bucket by bucket, those of hash 0 left out, and finds
  -- none behind the last.
  get_nth-eq :
      (capacity : ℕ) (m : StringHashMap V) (n : ℕ)
      → get_nth capacity m n ≡ get_elem? (table_values m.entries 0 capacity) n
  unfolding get_nth
  get_nth-eq capacity m n =
      nth_table-eq m.entries n 0 capacity 0 (omega arith)
      ∙ ap (get_elem? (table_values m.entries 0 capacity)) (omega arith)
