-- ===== src/Utils/HashMap/Lookup.antt =====
-- src/kernel/utils/hashmap.hpp: what `get` finds after an `insert`.
use umbra_os.Prelude.{
  ℕ, ◌%◌, ◌≡◌, refl, Option, none, some, ◌==◌, if◌then◌else◌, List, [], ◌∷◌, arith, inl, inr,
  ==_iff, Bool-cases, ap, sym, false, ==_of_ne, ==→ne,
}
use umbra_os.Prelude.Maps.{update}
use umbra_os.Utils.HashMap.{Entry, StringHashMap, hash_key, insert_chain, get_chain, insert, get}

-- The first binding wins.
abbrev pub or_else {ℓ} : {V : Type ℓ} → Option V → V → V
or_else none v = v
or_else (some w) v = w

module _ {ℓ} {V : Type ℓ} where
  get_chain-insert_chain :
      (hash : ℕ) (v : V) (j : ℕ) (chain : List (Entry V))
      → get_chain j (insert_chain hash (record { key_hash = hash; value = v }) chain)
        ≡ (if hash == j then some (or_else (get_chain hash chain) v) else get_chain j chain)
  unfolding get_chain insert_chain
  get_chain-insert_chain hash v j [] = refl
  get_chain-insert_chain hash v j (x ∷ []) = ground arith
  get_chain-insert_chain hash v j (x ∷ y ∷ rest) =
      ground (arith, get_chain-insert_chain hash v j (y ∷ rest))

  module _ (capacity : ℕ) (entries : ℕ → List (Entry V)) (hash : ℕ) (v : V) (j : ℕ) where
    abbrev chain : List (Entry V)
    chain = entries (hash % capacity)

    get_chain-update :
        get_chain j (
          update entries
            (hash % capacity)
            (insert_chain hash (record { key_hash = hash; value = v }) chain)
            (j % capacity))
        ≡ (if hash == j
            then some (or_else (get_chain hash chain) v)
            else get_chain j (entries (j % capacity)))
    get_chain-update = elim (Bool-cases (hash % capacity == j % capacity)) [
      | inl same ↦ rw (same, sym ((==_iff _ _).0 same)) (get_chain-insert_chain hash v j chain)
      | inr other ↦ rw (other, apart other)
    ]
      where
        apart : (hash % capacity == j % capacity) ≡ false → (hash == j) ≡ false
        apart e = ==_of_ne hash j (λ p. ==→ne _ _ e (ap (λ h. h % capacity) p))

  -- After an insert, the key's hash finds the value that it found before, or else the new one, and
  -- every other hash finds what it found before. Keys of one hash are one key.
  pub get-insert :
      (capacity : ℕ) (m : StringHashMap V) (key : List ℕ) (v : V) (other : List ℕ)
      → get capacity (insert capacity m key v) other ≡ (
          if hash_key key == hash_key other
          then some (or_else (get capacity m key) v)
          else get capacity m other)
  unfolding get insert
  get-insert capacity m key v other =
      get_chain-update capacity m.entries (hash_key key) v (hash_key other)
