-- ===== src/Apps/Ping/Sum.antt =====
-- src/apps/ping.c and src/kernel/net/socket.cpp: the program's checksum is the kernel's.
use umbra_os.Prelude.{
  ℕ, ◌+◌, ◌-◌, ◌/◌, ◌%◌, ◌^◌, ◌<◌, ◌≡◌, refl, List, [], ◌∷◌, none, arith, ltb, Bool-cases, inl, inr,
  ltb→lt, ltb→le,
}
use umbra_os.Net.Checksum.{sum_from, finish, get_checksum, total, get_checksum_lem}
use umbra_os.Apps.Ping.{add_words, folded, checksum, packet_with, packet, msg_words}

add_words-eq : (words : List ℕ) (sum : ℕ) → add_words sum words ≡ sum_from sum words
unfolding add_words sum_from
add_words-eq [] sum = refl
add_words-eq (word ∷ words) sum = add_words-eq words ((sum + word) % 2 ^ 32)

folded-eq : (sum : ℕ) → sum < 2 ^ 32 → folded sum ≡ finish sum
unfolding folded finish
folded-eq sum h = elim (Bool-cases (ltb (2 ^ 16 - 1) (sum % 2 ^ 16 + sum / 2 ^ 16))) [
  | inl e ↦ rw e (omega (arith, h, ltb→lt _ _ e))
  | inr e ↦ rw e (omega (arith, h, ltb→le _ _ e))
]

sum_from-lt : (words : List ℕ) (sum : ℕ) → sum < 2 ^ 32 → sum_from sum words < 2 ^ 32
unfolding sum_from
sum_from-lt [] sum h = h
sum_from-lt (word ∷ words) sum h = sum_from-lt words ((sum + word) % 2 ^ 32) (omega arith)

-- On a list of words, without a byte left over, the checksum of the ping program, which folds the
-- carry twice, is the kernel's `get_checksum`.
pub checksum-eq : (words : List ℕ) → checksum words none ≡ get_checksum words
unfolding checksum get_checksum
checksum-eq words =
    rw (add_words-eq words 0) (folded-eq (sum_from 0 words) (sum_from-lt words 0 (omega arith)))

-- The words of every packet, its checksum among them, add up to a multiple of 2 ^ 16 - 1.
pub packet_lem : (msg_count : ℕ) → total (packet msg_count) % (2 ^ 16 - 1) ≡ 0
unfolding packet packet_with msg_words
packet_lem msg_count =
    let known = get_checksum_lem (packet_with 0 msg_count) (omega arith) in
    rw (checksum-eq (packet_with 0 msg_count)) (omega (arith, known))
