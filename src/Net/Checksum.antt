-- ===== src/Net/Checksum.antt =====
-- src/kernel/net/socket.cpp: the checksum of headers, over words of 16 bits as the processor reads them.
use umbra_os.Prelude.{
  ℕ, ◌+◌, ◌-◌, ◌/◌, ◌%◌, ◌^◌, ◌<◌, ◌≡◌, List, [], ◌∷◌, if◌then◌else◌, ltb, arith, Bool-cases, inl,
  inr, ltb→lt, ltb→le,
}

-- The loop: `checksum += *ptr++` in 32 bits.
unfoldable pub sum_from : ℕ → List ℕ → ℕ
sum_from checksum [] = checksum
sum_from checksum (word ∷ words) = sum_from ((checksum + word) % 2 ^ 32) words

-- The carries are added once, and once more if that carries; the complement is cut to 16 bits.
unfoldable pub finish : ℕ → ℕ
finish checksum =
    let folded = checksum % 2 ^ 16 + checksum / 2 ^ 16 in
    let carried = if ltb (2 ^ 16 - 1) folded then folded + 1 else folded in
    (2 ^ 32 - 1 - carried) % 2 ^ 16

unfoldable pub get_checksum : List ℕ → ℕ
get_checksum words = finish (sum_from 0 words)

-- The sum of the words.
abbrev pub total : List ℕ → ℕ
total [] = 0
total (word ∷ words) = word + total words

sum_from-eq :
    (words : List ℕ) (checksum : ℕ)
    → checksum + total words < 2 ^ 32
    → sum_from checksum words ≡ checksum + total words
unfolding sum_from
sum_from-eq [] checksum h = omega arith
sum_from-eq (word ∷ words) checksum h =
    let whole : (checksum + word) % 2 ^ 32 ≡ checksum + word = omega (arith, h) in
    rw whole (omega (arith, sum_from-eq words (checksum + word) (omega (arith, h))))

finish_lem : (s : ℕ) → s < 2 ^ 32 → (finish s < 2 ^ 16) × ((finish s + s) % (2 ^ 16 - 1) ≡ 0)
unfolding finish
finish_lem s h = elim (Bool-cases (ltb (2 ^ 16 - 1) (s % 2 ^ 16 + s / 2 ^ 16))) [
  | inl e ↦ rw e (omega (arith, h, ltb→lt _ _ e), omega (arith, h, ltb→lt _ _ e))
  | inr e ↦ rw e (omega (arith, h, ltb→le _ _ e), omega (arith, h, ltb→le _ _ e))
]

-- When the sum of a header's words is below 2 ^ 32, the checksum is a word of 16 bits, and with it
-- the words sum up to a multiple of 2 ^ 16 - 1.
pub get_checksum_lem :
    (words : List ℕ)
    → total words < 2 ^ 32
    → (get_checksum words < 2 ^ 16) × ((get_checksum words + total words) % (2 ^ 16 - 1) ≡ 0)
unfolding get_checksum
get_checksum_lem words h =
    let exact : sum_from 0 words ≡ total words =
      omega (arith, sum_from-eq words 0 (omega (arith, h))) in
    rw exact (finish_lem (total words) h)
