-- ===== src/Libc/Strings/Terminated.antt =====
-- src/kernel/libc/string.cpp: `strcpy` of a string that ends, to memory that the string does not reach.
use umbra_os.Prelude.{
  ℕ, zero, suc, ◌+◌, ◌<◌, ◌≤◌, ◌≡◌, ◌≢◌, ◌⊎◌, inl, inr, refl, sym, ap, ◌==◌, done, arith,
  Bool-cases, ==_iff,
}
use mathlib.Core.Path.{subst}
use umbra_os.Prelude.Maps.{update}
use umbra_os.Libc.Strings.{Bytes, strcpy, strcpy_from, find_nul, strlen}

-- A string of `n` characters stands at an address.
pub record IsString (m : Bytes) (str n : ℕ) : Type 0 where
  pub ends : m (str + n) ≡ 0
  pub inner : (k : ℕ) → k < n → m (str + k) ≢ 0

find_nul-eq :
    (m : Bytes) (str n : ℕ)
    → IsString m str n
    → (fuel i : ℕ) → i ≤ n
    → n < i + fuel
    → find_nul fuel m str i ≡ done n
unfolding find_nul
find_nul-eq m str n s zero i h f = absurd (omega (arith, h, f))
find_nul-eq m str n s (suc fuel) i h f = elim (Bool-cases (m (str + i) == 0)) [
  | inl e ↦
      let nul = (==_iff (m (str + i)) 0).0 e in
      let last : i ≡ n = ground (arith, h, s.inner i, nul) in rw e (ap done last)
  | inr ne ↦
      let more : i < n = ground (arith, h, s.ends, ne, at) in
      rw ne (find_nul-eq m str n s fuel (i + 1) (omega (arith, more)) (omega (arith, f)))
]
  where
    at : i ≡ n → m (str + i) ≡ m (str + n)
    at q = ap (λ j. m (str + j)) q

-- With fuel for each character and one more, `strlen` counts the characters of a string.
pub strlen_lem :
    (m : Bytes) (str n : ℕ) → IsString m str n → (fuel : ℕ) → n < fuel → strlen fuel m str ≡ done n
unfolding strlen
strlen_lem m str n s fuel h = find_nul-eq m str n s fuel 0 (omega arith) (omega (arith, h))

module _ (m : Bytes) (dest src n : ℕ) (s : IsString m src n)
    (apart : (dest + n < src) ⊎ (src + n < dest)) where
  -- After `i` characters; `m'` is memory then.
  record Copied (i : ℕ) (m' : Bytes) : Type 0 where
    same : (k : ℕ) → k < i → m' (dest + k) ≡ m (src + k)
    below : (a : ℕ) → a < dest → m' a ≡ m a
    above : (a : ℕ) → dest + n < a → m' a ≡ m a

  source : (i : ℕ) (m' : Bytes) → Copied i m' → i ≤ n → m' (src + i) ≡ m (src + i)
  source i m' c h = elim apart [
    | inl l ↦ c.above (src + i) (omega (arith, l))
    | inr l ↦ c.below (src + i) (omega (arith, l, h))
  ]

  put :
      (i v : ℕ) (m' : Bytes)
      → i ≤ n
      → v ≡ m (src + i)
      → Copied i m'
      → Copied (i + 1) (update m' (dest + i) v)
  put i v m' h e c = record {
    same = λ k l. ground (arith, l, c.same k, e, at k);
    below = λ a l. ground (arith, l, c.below a);
    above = λ a l. ground (arith, l, h, c.above a);
  }
    where
      at : (k : ℕ) → i ≡ k → m (src + i) ≡ m (src + k)
      at k q = ap (λ j. m (src + j)) q

  strcpy_from_lem :
      (fuel i : ℕ) (m' : Bytes)
      → i ≤ n
      → n < i + fuel
      → Copied i m'
      → (r : Bytes) × (strcpy_from fuel m' dest src i ≡ done r) × Copied (n + 1) r
  unfolding strcpy_from
  strcpy_from_lem zero i m' h f c = absurd (omega (arith, h, f))
  strcpy_from_lem (suc fuel) i m' h f c = elim (Bool-cases (m (src + i) == 0)) [
    | inl e ↦
        let nul = (==_iff (m (src + i)) 0).0 e in
        let last : i ≡ n = ground (arith, h, s.inner i, nul) in
        let end = put i 0 m' h (sym nul) c in
        (
          update m' (dest + i) 0,
          rw (source i m' c h, e) refl,
          subst (λ j. Copied (j + 1) (update m' (dest + i) 0)) last end,
        )
    | inr ne ↦
        let more : i < n = ground (arith, h, s.ends, ne, at) in
        let now = source i m' c h in
        let (r, e, done') =
          strcpy_from_lem fuel (i + 1) (update m' (dest + i) (m (src + i))) (omega (arith, more))
            (omega (arith, f)) (put i (m (src + i)) m' h refl c) in
        (r, rw (now, ne) e, done')
  ]
    where
      at : i ≡ n → m (src + i) ≡ m (src + n)
      at q = ap (λ j. m (src + j)) q

  -- With fuel for each character of a string and one more, `strcpy` to a place apart from it copies
  -- the characters and the NUL, and changes nothing else.
  pub strcpy_lem :
      (fuel : ℕ)
      → n < fuel
      → (r : Bytes) × (strcpy fuel m dest src ≡ done r)
        × ((k : ℕ) → k ≤ n → r (dest + k) ≡ m (src + k))
        × ((a : ℕ) → (a < dest) ⊎ (dest + n < a) → r a ≡ m a)
  unfolding strcpy
  strcpy_lem fuel h =
      let start : Copied 0 m = record {
        same = λ k l. absurd (omega (arith, l));
        below = λ a l. refl;
        above = λ a l. refl;
      } in
      let (r, e, c) = strcpy_from_lem fuel 0 m (omega arith) (omega (arith, h)) start in
      (
        r,
        e,
        λ k l. c.same k (omega (arith, l)),
        λ a l. elim l [ inl b ↦ c.below a b | inr b ↦ c.above a b ],
      )
