-- ===== src/Libc/Strings/Compare.antt =====
-- src/kernel/libc/string.cpp: what the comparisons decide.
use umbra_os.Prelude.{
  ℕ, zero, suc, ◌+◌, ◌≤◌, ◌<◌, ◌≡◌, ◌≢◌, ◌↔◌, refl, Bool, true, false, ◌==◌, ltb, arith, inl, inr,
  Bool-cases, Outcome, done, ==_iff, ==→ne, ltb→lt, ltb→le,
}
use umbra_os.Libc.Strings.{
  Bytes, strcmp_from, strcmp, ncmp_up, strncmp, cmp_up, memcmp, Sign, below, same, above,
}

-- A string of `n` characters before its NUL.
pub record IsString (m : Bytes) (str n : ℕ) : Type 0 where
  pub chars : (i : ℕ) → i < n → m (str + i) ≢ 0
  pub ends : m (str + n) ≡ 0

-- The characters from `i` to `n`, the NUL included, are the same in both.
abbrev pub AgreeFrom : Bytes → ℕ → ℕ → ℕ → ℕ → Type 0
AgreeFrom m first second i n = (k : ℕ) → i ≤ k → k ≤ n → m (first + k) ≡ m (second + k)

module _ (m : Bytes) (first second n : ℕ) (s : IsString m first n) where
  at_end : (i : ℕ) → i ≤ n → (m (first + i) == 0) ≡ true → i ≡ n
  at_end i h e = elim (Bool-cases (ltb i n)) [
    | inl l ↦ absurd (s.chars i (ltb→lt i n l) ((==_iff _ 0).0 e))
    | inr g ↦ omega (arith, ltb→le i n g)
  ]

  before_end : (i : ℕ) → i ≤ n → (m (first + i) == 0) ≡ false → i < n
  before_end i h ne = elim (Bool-cases (i == n)) [
    | inl e ↦ absurd (==→ne _ 0 ne (rw ((==_iff i n).0 e) s.ends))
    | inr d ↦ omega (arith, ==→ne i n d)
  ]

  AgreeFrom-step :
      (i : ℕ)
      → m (first + (i + 1)) ≡ m (second + (i + 1))
      → AgreeFrom m first second (i + 1 + 1) n
      → AgreeFrom m first second (i + 1) n
  AgreeFrom-step i q rest k a c = elim (Bool-cases (k == i + 1)) [
    | inl e ↦ rw ((==_iff k (i + 1)).0 e) q
    | inr d ↦ rest k (omega (arith, ==→ne k (i + 1) d)) c
  ]

  abbrev pub Decides : ℕ → Outcome Bool → Type 0
  Decides i r = (b : Bool) × (r ≡ done b) × ((b ≡ true) ↔ AgreeFrom m first second i n)

  strcmp_from-eq :
      (fuel i : ℕ) → i ≤ n → n < i + fuel → Decides (i + 1) (strcmp_from fuel m first second i)
  unfolding strcmp_from
  strcmp_from-eq zero i h f = absurd (omega arith)
  strcmp_from-eq (suc fuel) i h f = elim (Bool-cases (m (first + i) == 0)) [
    | inl e ↦ rw e (true, refl, (λ _ k a c. absurd (omega (arith, at_end i h e)), λ _. refl))
    | inr ne ↦ elim (Bool-cases (m (first + (i + 1)) == m (second + (i + 1)))) [
      | inl q ↦
          let below_n = before_end i h ne in
          let rest = strcmp_from-eq fuel (i + 1) (omega (arith, below_n)) (omega arith) in
          rw (ne, q)
            (
              rest.0,
              rest.1,
              (
                λ t. AgreeFrom-step i ((==_iff _ _).0 q) (rest.2.0 t),
                λ all. rest.2.1 (λ k a c. all k (omega arith) c),
              ),
            )
      | inr d ↦
          let below_n = before_end i h ne in
          rw (ne, d)
            (
              false,
              refl,
              (
                λ t. cc,
                λ all. absurd (==→ne _ _ d (all (i + 1) (omega arith) (omega (arith, below_n)))),
              ),
            )
    ]
  ]

  -- When its first string ends, `strcmp` ends within the length of that string, and answers whether
  -- the two agree from their second characters on, up to the first string's NUL. The first
  -- characters are not compared.
  strcmp_lem : (fuel : ℕ) → n < fuel → Decides 1 (strcmp fuel m first second)
  unfolding strcmp
  strcmp_lem fuel h = strcmp_from-eq fuel 0 (omega arith) (omega arith)

module _ (m : Bytes) (first second : ℕ) where
  -- The `length` characters from `i` on are the same in both strings, and none is a NUL.
  abbrev pub SamePrefix : ℕ → ℕ → Type 0
  SamePrefix i length =
      (k : ℕ) → i ≤ k → k < i + length → (m (first + k) ≡ m (second + k)) × (m (first + k) ≢ 0)

  ncmp_up_iff : (rounds i : ℕ) → (ncmp_up m first second rounds i ≡ true) ↔ SamePrefix i rounds
  unfolding ncmp_up
  ncmp_up_iff zero i = (λ _ k a c. absurd (omega arith), λ _. refl)
  ncmp_up_iff (suc rounds) i = (
    λ t k a c. elim (Bool-cases (k == i)) [
      | inl e ↦ rw ((==_iff k i).0 e) (ground (arith, t), ground (arith, t))
      | inr d ↦
          (ncmp_up_iff rounds (i + 1)).0 (ground (arith, t)) k (omega (arith, ==→ne k i d))
            (omega arith)
    ],
    λ all. ground (
      arith,
      all i (omega arith) (omega arith),
      (ncmp_up_iff rounds (i + 1)).1 (λ k a c. all k (omega arith) (omega arith)),
    ),
  )

  -- `strncmp` answers whether the first `length` characters agree and none of them is a NUL.
  pub strncmp_lem : (length : ℕ) → (strncmp m first second length ≡ true) ↔ SamePrefix 0 length
  unfolding strncmp
  strncmp_lem length = ncmp_up_iff length 0

  -- The order of two runs of bytes, by the first that differ.
  abbrev pub Compares : ℕ → ℕ → Sign → Type 0
  Compares i n same = (k : ℕ) → i ≤ k → k < i + n → m (first + k) ≡ m (second + k)
  Compares i n below =
      (k : ℕ) × (k < i + n)
      × (m (first + k) < m (second + k))
      × ((j : ℕ) → i ≤ j → j < k → m (first + j) ≡ m (second + j))
  Compares i n above =
      (k : ℕ) × (k < i + n)
      × (m (second + k) < m (first + k))
      × ((j : ℕ) → i ≤ j → j < k → m (first + j) ≡ m (second + j))

  abbrev AgreeBetween : ℕ → ℕ → Type 0
  AgreeBetween i k = (j : ℕ) → i ≤ j → j < k → m (first + j) ≡ m (second + j)

  AgreeBetween-next :
      (i k : ℕ) → m (first + i) ≡ m (second + i) → AgreeBetween (i + 1) k → AgreeBetween i k
  AgreeBetween-next i k e c j x y = elim (Bool-cases (j == i)) [
    | inl q ↦ rw ((==_iff j i).0 q) e
    | inr d ↦ c j (omega (arith, ==→ne j i d)) y
  ]

  Compares-next :
      (i n : ℕ) (r : Sign)
      → m (first + i) ≡ m (second + i)
      → Compares (i + 1) n r
      → Compares i (suc n) r
  Compares-next i n same e c =
      λ k a b. AgreeBetween-next i (i + suc n) e (λ j x y. c j x (omega arith)) k a b
  Compares-next i n below e (k, b, l, c) = (k, omega arith, l, AgreeBetween-next i k e c)
  Compares-next i n above e (k, b, l, c) = (k, omega arith, l, AgreeBetween-next i k e c)

  cmp_up-Compares : (n i : ℕ) → Compares i n (cmp_up m first second n i)
  unfolding cmp_up
  cmp_up-Compares zero i = λ k a b. absurd (omega arith)
  cmp_up-Compares (suc n) i = elim (Bool-cases (m (first + i) == m (second + i))) [
    | inl e ↦ rw e (Compares-next i n _ ((==_iff _ _).0 e) (cmp_up-Compares n (i + 1)))
    | inr d ↦ elim (Bool-cases (ltb (m (first + i)) (m (second + i)))) [
      | inl l ↦ rw (d, l) (i, omega arith, ltb→lt _ _ l, λ j x y. absurd (omega arith))
      | inr g ↦
          rw (d, g)
            (
              i,
              omega arith,
              omega (arith, ltb→le _ _ g, ==→ne _ _ d),
              λ j x y. absurd (omega arith),
            )
    ]
  ]

  -- `memcmp` is 0 when all `n` bytes agree, and otherwise has the sign of the first difference.
  pub memcmp_lem : (n : ℕ) → Compares 0 n (memcmp m first second n)
  unfolding memcmp
  memcmp_lem n = cmp_up-Compares n 0
