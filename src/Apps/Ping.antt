-- ===== src/Apps/Ping.antt =====
-- src/apps/ping.c: the packets of the ping program, in words of 16 bits as the processor reads them, and what it says
-- of the answers. What the C library's `sendto` and `recvfrom` return is a parameter.
pub mod Sum
use umbra_os.Prelude.{
  ℕ, zero, suc, ◌+◌, ◌-◌, ◌*◌, ◌/◌, ◌%◌, ◌^◌, Bool, Option, none, some, ◌==◌, ◌&&◌, leb, ltb,
  if◌then◌else◌, List, [], ◌∷◌, ◌++◌,
}

-- The loop of `checksum`, which adds whole words, and the byte that is left.
unfoldable pub add_words : ℕ → List ℕ → ℕ
add_words sum [] = sum
add_words sum (word ∷ words) = add_words ((sum + word) % 2 ^ 32) words

abbrev pub add_byte : ℕ → Option ℕ → ℕ
add_byte sum none = sum
add_byte sum (some byte) = (sum + byte) % 2 ^ 32

unfoldable pub folded : ℕ → ℕ
folded sum =
    let once = sum / 2 ^ 16 + sum % 2 ^ 16 in
    let twice = (once + once / 2 ^ 16) % 2 ^ 32 in (2 ^ 32 - 1 - twice) % 2 ^ 16

unfoldable pub checksum : List ℕ → Option ℕ → ℕ
checksum words last = folded (add_byte (add_words 0 words) last)

abbrev pub icmp_echo : ℕ
icmp_echo = 8

abbrev pub icmp_echoreply : ℕ
icmp_echoreply = 0

-- `msg[i] = i + '0'` for all but the last byte, which is 0.
abbrev pub msg_byte : ℕ → ℕ
msg_byte i = if ltb i 55 then i + b'0' else 0

-- The words of the message from one on.
unfoldable pub msg_words : ℕ → ℕ → List ℕ
msg_words zero j = []
msg_words (suc rounds) j =
    (msg_byte (2 * j) + msg_byte (2 * j + 1) * 2 ^ 8) ∷ msg_words rounds (j + 1)

-- The header's words are the type with the code, the checksum, and the echo's id and sequence.
unfoldable pub packet_with : ℕ → ℕ → List ℕ
packet_with sum msg_count = icmp_echo ∷ sum ∷ 0 ∷ (msg_count % 2 ^ 16) ∷ msg_words 28 0

-- The packet of a round.
unfoldable pub packet : ℕ → List ℕ
packet msg_count = packet_with (checksum (packet_with 0 msg_count) none) msg_count

-- What a round prints of the packet's way; the results are signed, so one that is not above 0 is a failure.
pub data Report : Type 0 where
  send_failed : Report
  receive_failed : Report
  wrong_type : ℕ → ℕ → Report
  reply : ℕ → Report

-- What the library's calls return in a round: whether each is above 0, and type and code in the packet after it.
pub record Returned : Type 0 where
  pub sent : Bool
  pub received : Bool
  pub type : ℕ
  pub code : ℕ

-- A round; `msg_count` is the counter after it went up.
unfoldable pub round : Returned → ℕ → List Report
round r msg_count =
    let answered =
      if r.type == icmp_echoreply && r.code == 0
      then reply msg_count ∷ []
      else wrong_type r.type r.code ∷ [] in
    let after : List Report =
      if r.received
      then (if r.sent then answered else [])
      else if ltb 1 msg_count
      then receive_failed ∷ []
      else if r.sent
      then answered
      else [] in
    if r.sent then after else send_failed ∷ after

-- The loop of `send_ping` over the rounds that run.
unfoldable pub send_ping : List Returned → ℕ → List Report
send_ping [] msg_count = []
send_ping (r ∷ rs) msg_count = round r (msg_count + 1) ++ send_ping rs (msg_count + 1)
