-- ===== src/Fs/Create/Rest.antt =====
-- src/kernel/fs/vfs.cpp: the rest of a path, as `create` cuts it and asks whether it is empty.
use umbra_os.Prelude.{
  ℕ, zero, suc, ◌+◌, ◌<◌, ◌≤◌, ◌≡◌, ◌≢◌, refl, sym, ◌∙◌, ap, Bool, true, false, ◌==◌, List, [], ◌∷◌,
  ◌++◌, done, length, arith, All, Bool-cases, inl, inr, ==_of_ne, ==_iff,
}
use umbra_os.Libc.Strings.{Bytes, strcmp, strcmp_from}
use umbra_os.Net.Ipv4.{place}
use umbra_os.Net.Ipv4.Loop.{place_after}
use umbra_os.Fs.Vfs.{until_slash, skip_slashes}
use umbra_os.Fs.Create.{is_last}

abbrev pub is_empty : List ℕ → Bool
is_empty [] = true
is_empty (c ∷ path) = false

place-append : (xs ys : List ℕ) (m : Bytes) (i : ℕ) → place (xs ++ ys) m i ≡ place xs (place ys m) i
unfolding place
place-append [] ys m i = refl
place-append (x ∷ xs) ys m zero = refl
place-append (x ∷ xs) ys m (suc i) = place-append xs ys m i

module _ (behind : Bytes) (rest : List ℕ) (nonzero : (k : ℕ) → k < length rest → behind k ≢ 0) where
  abbrev both : Bytes
  both = place (rest ++ 0 ∷ 0 ∷ []) behind

  both_after : (i : ℕ) → both (length rest + i) ≡ place (0 ∷ 0 ∷ []) behind i
  both_after i =
      place-append rest (0 ∷ 0 ∷ []) behind (length rest + i)
      ∙ place_after rest (place (0 ∷ 0 ∷ []) behind) i

  both_end : both (length rest) ≡ 0
  unfolding place
  both_end = let e : length rest ≡ length rest + 0 = omega arith in ap both e ∙ both_after 0

  both_behind : (i : ℕ) → both (length rest + 1 + (i + 1)) ≡ behind i
  unfolding place
  both_behind i =
      let e : length rest + 1 + (i + 1) ≡ length rest + suc (suc i) = omega arith in
      ap both e ∙ both_after (suc (suc i))

  differs :
      (fuel i : ℕ)
      → i < length rest
      → length rest < i + fuel
      → both i ≢ 0
      → strcmp_from fuel both 0 (length rest + 1) i ≡ done false
  unfolding strcmp_from
  differs zero i h f c = absurd (omega (arith, h, f))
  differs (suc fuel) i h f c = elim (Bool-cases (both (i + 1) == behind i)) [
    | inl e ↦
        let inner : both (i + 1) ≢ 0 =
          λ q. nonzero i h (sym ((==_iff (both (i + 1)) (behind i)).0 e) ∙ q) in
        rw (from_zero i, from_zero (i + 1), ==_of_ne (both i) 0 c, both_behind i, e)
          (differs fuel (i + 1) (within inner) (omega (arith, f)) inner)
    | inr e ↦ rw (from_zero i, from_zero (i + 1), ==_of_ne (both i) 0 c, both_behind i, e) refl
  ]
    where
      from_zero : (j : ℕ) → 0 + j ≡ j
      from_zero j = omega arith

      within : both (i + 1) ≢ 0 → i + 1 < length rest
      within inner = ground (arith, h, same)
        where
          same : i + 1 ≡ length rest → ⊥
          same q = inner (ap both q ∙ both_end)

-- The rest of a path, with no byte 0 in it, is empty or not.
pub is_last_lem :
    (behind : Bytes) (rest : List ℕ)
    → ((k : ℕ) → k < length rest → behind k ≢ 0)
    → All (λ c. c ≢ 0) rest
    → is_last behind rest ≡ done (is_empty rest)
unfolding is_last strcmp strcmp_from place
is_last_lem behind [] h a = refl
is_last_lem behind (c ∷ rest) h a =
    differs behind (c ∷ rest) h (length (c ∷ rest) + 1) 0 (omega arith) (omega arith) a.0

length-skip_slashes : (path : List ℕ) → length (skip_slashes path) ≤ length path
unfolding skip_slashes
length-skip_slashes [] = omega arith
length-skip_slashes (c ∷ path) = ground (arith, length-skip_slashes path)

length-until_slash : (path : List ℕ) → length (until_slash path).1 ≤ length path
unfolding until_slash
length-until_slash [] = omega arith
length-until_slash (c ∷ path) = ground (arith, length-until_slash path)

-- What is left of a path after one name is shorter.
abbrev pub sub_path : ℕ → List ℕ → List ℕ
sub_path c path = skip_slashes (until_slash (c ∷ path)).1

pub length-sub_path : (c : ℕ) (path : List ℕ) → length (sub_path c path) ≤ length path
unfolding until_slash skip_slashes
length-sub_path c path = ground (
  arith,
  length-skip_slashes path,
  length-skip_slashes (until_slash path).1,
  length-until_slash path,
)

All-skip_slashes : (P : ℕ → Type 0) (path : List ℕ) → All P path → All P (skip_slashes path)
unfolding skip_slashes
All-skip_slashes P [] a = tt
All-skip_slashes P (c ∷ path) a = elim (Bool-cases (c == b'/')) [
  | inl e ↦ rw e (All-skip_slashes P path a.1)
  | inr e ↦ rw e a
]

All-until_slash : (P : ℕ → Type 0) (path : List ℕ) → All P path → All P (until_slash path).1
unfolding until_slash
All-until_slash P [] a = tt
All-until_slash P (c ∷ path) a = elim (Bool-cases (c == b'/')) [
  | inl e ↦ rw e a
  | inr e ↦ rw e (All-until_slash P path a.1)
]

pub All-sub_path :
    (P : ℕ → Type 0) (c : ℕ) (path : List ℕ) → All P (c ∷ path) → All P (sub_path c path)
All-sub_path P c path a =
    All-skip_slashes P (until_slash (c ∷ path)).1 (All-until_slash P (c ∷ path) a)
