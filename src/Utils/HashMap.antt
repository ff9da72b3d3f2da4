-- ===== src/Utils/HashMap.antt =====
-- src/kernel/utils/hashmap.hpp: the chained table of `StringHashMap<Value, Capacity>`. A key is the
-- bytes of a C string before its NUL. A bucket is the chain of entries from `entries[index]` on.
pub mod Lookup
pub mod Enumerate
use Prim.Native.Nat.{bit_xor}
use umbra_os.Prelude.{
  ℕ, zero, suc, ◌+◌, ◌-◌, ◌*◌, ◌%◌, ◌^◌, Option, none, some, ◌==◌, if◌then◌else◌, ltb, List, [],
  ◌∷◌, ◌++◌,
}
use umbra_os.Prelude.Maps.{update}

pub record Entry {ℓ} (V : Type ℓ) : Type ℓ where
  pub key_hash : ℕ
  pub value : V

pub record StringHashMap {ℓ} (V : Type ℓ) : Type ℓ where
  pub entries : ℕ → List (Entry V)

-- `int c = *key++` keeps the sign of a `char`; the xor reads it as 32 bits.
sign_extend : ℕ → ℕ
sign_extend c = if ltb c 128 then c else 2 ^ 32 - 256 + c

-- One round of djb2: `hash = ((hash << 5) + hash) ^ c`, in 32 bits.
hash_step : ℕ → ℕ → ℕ
hash_step hash c = bit_xor ((hash * 2 ^ 5 % 2 ^ 32 + hash) % 2 ^ 32) (sign_extend c)

hash_loop : ℕ → List ℕ → ℕ
hash_loop hash [] = hash
hash_loop hash (c ∷ key) = hash_loop (hash_step hash c) key

unfoldable pub hash_key : List ℕ → ℕ
unfolding hash_loop hash_step sign_extend
hash_key key = hash_loop 5381 key

-- The constructor: `new Entry*[Capacity]` leaves in the table what the memory held.
unfoldable pub new {ℓ} : {V : Type ℓ} → (ℕ → List (Entry V)) → StringHashMap V
new garbage = record { entries = garbage }

module _ {ℓ} {V : Type ℓ} where
  -- The walk of `insert` to the last entry. It compares the hash of every entry but the last.
  unfoldable pub insert_chain : ℕ → Entry V → List (Entry V) → List (Entry V)
  insert_chain hash new_entry [] = new_entry ∷ []
  insert_chain hash new_entry (entry ∷ []) = entry ∷ new_entry ∷ []
  insert_chain hash new_entry (entry ∷ next ∷ rest) =
      if entry.key_hash == hash
      then entry ∷ next ∷ rest
      else entry ∷ insert_chain hash new_entry (next ∷ rest)

  unfoldable pub get_chain : ℕ → List (Entry V) → Option V
  get_chain hash [] = none
  get_chain hash (entry ∷ rest) =
      if entry.key_hash == hash then some entry.value else get_chain hash rest

  -- The inner loop of `get_nth`: the value found, or the count after the chain.
  unfoldable pub nth_chain : ℕ → ℕ → List (Entry V) → Option V × ℕ
  nth_chain n count [] = (none, count)
  nth_chain n count (entry ∷ rest) =
      let skip = nth_chain n count rest in
      let on = nth_chain n (count + 1) rest in
      if entry.key_hash == 0 then skip else if count == n then (some entry.value, count) else on

  -- `return` inside the loops, or go on with the count.
  abbrev pub found_or : Option V × ℕ → (ℕ → Option V) → Option V
  found_or (some v, c) go_on = some v
  found_or (none, c) go_on = go_on c

  -- The outer loop, with `rounds` buckets left from bucket `i` on.
  unfoldable pub nth_table : ℕ → (ℕ → List (Entry V)) → ℕ → ℕ → ℕ → Option V
  nth_table n entries i zero count = none
  nth_table n entries i (suc rounds) count =
      found_or (nth_chain n count (entries i)) (nth_table n entries (i + 1) rounds)

module _ {ℓ} {V : Type ℓ} (capacity : ℕ) where
  unfoldable pub insert : StringHashMap V → List ℕ → V → StringHashMap V
  insert m key value =
      let hash = hash_key key in
      let index = hash % capacity in
      let new_entry : Entry V = record { key_hash = hash; value = value } in
      record m { entries = update m.entries index (insert_chain hash new_entry (m.entries index)) }

  unfoldable pub get : StringHashMap V → List ℕ → Option V
  get m key = let hash = hash_key key in get_chain hash (m.entries (hash % capacity))

  unfoldable pub get_nth : StringHashMap V → ℕ → Option V
  get_nth m n = nth_table n m.entries 0 capacity 0
