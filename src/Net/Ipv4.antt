-- ===== src/Net/Ipv4.antt =====
-- src/kernel/net/socket.cpp and socket.hpp: frames, and the IPv4 header. A packet is the bytes from its
-- address on, with what lies behind it in memory. A field of two bytes in the order of the network is
-- swapped when it is read.
pub mod Loop
use umbra_os.Prelude.{
  ℕ, zero, suc, ◌+◌, ◌-◌, ◌*◌, ◌/◌, ◌%◌, ◌^◌, Option, none, some, List, [], ◌∷◌, ◌++◌, ◌==◌, ltb,
  if◌then◌else◌,
}
use umbra_os.Prelude.Maps.{update}
use umbra_os.Libc.Strings.{Bytes}
use umbra_os.Net.Checksum.{get_checksum}

-- The bytes of the list, and behind them the others.
unfoldable pub place : List ℕ → Bytes → Bytes
place [] rest i = rest i
place (b ∷ bytes) rest zero = b
place (b ∷ bytes) rest (suc i) = place bytes rest i

-- A word of 16 bits as the processor reads it, and the same with its bytes swapped.
abbrev pub word_at : Bytes → ℕ → ℕ
word_at m i = m i + 256 * m (i + 1)

abbrev pub swapped_at : Bytes → ℕ → ℕ
swapped_at m i = 256 * m i + m (i + 1)

-- The words that `get_checksum` reads.
unfoldable pub words_at : Bytes → ℕ → ℕ → List ℕ
words_at m i zero = []
words_at m i (suc n) = word_at m i ∷ words_at m (i + 2) n

pub record Ipv4Address : Type 0 where
  pub part1 : ℕ
  pub part2 : ℕ
  pub part3 : ℕ
  pub part4 : ℕ

abbrev pub ipv4 : ℕ → ℕ → ℕ → ℕ → Ipv4Address
ipv4 a b c d = record { part1 = a; part2 = b; part3 = c; part4 = d }

abbrev pub address_bytes : Ipv4Address → List ℕ
address_bytes a = a.part1 ∷ a.part2 ∷ a.part3 ∷ a.part4 ∷ []

abbrev pub address_at : Bytes → ℕ → Ipv4Address
address_at m i = ipv4 (m i) (m (i + 1)) (m (i + 2)) (m (i + 3))

-- The two bytes of a field that is swapped when it is written.
abbrev pub swapped : ℕ → List ℕ
swapped n = n % 2 ^ 16 / 256 ∷ n % 256 ∷ []

-- `sizeof(Ipv4Header)` and `sizeof(EthernetFrame)`.
abbrev pub header_size : ℕ
header_size = 20

abbrev pub frame_size : ℕ
frame_size = 14

abbrev pub icmp_protocol : ℕ
icmp_protocol = 0x1

abbrev pub tcp_protocol : ℕ
tcp_protocol = 0x6

abbrev pub udp_protocol : ℕ
udp_protocol = 0x11

-- The header that `send_ipv4` fills, with a checksum.
abbrev pub ipv4_header : ℕ → ℕ → Ipv4Address → Ipv4Address → ℕ → List ℕ
ipv4_header len protocol src dst checksum =
    0x45 ∷ 0 ∷ swapped (len + header_size)
    ++ 0 ∷ 0 ∷ 0 ∷ 0 ∷ 64 ∷ protocol % 256 ∷ checksum % 256 ∷ checksum / 256 ∷ address_bytes src
    ++ address_bytes dst

-- The packet behind the frame's header.
unfoldable pub ipv4_packet : Bytes → ℕ → ℕ → Ipv4Address → Ipv4Address → Bytes
ipv4_packet payload len protocol src dst =
    let blank = place (ipv4_header len protocol src dst 0) payload in
    place (ipv4_header len protocol src dst (get_checksum (words_at blank 0 10))) payload

pub record MacAddress : Type 0 where
  pub part1 : ℕ
  pub part2 : ℕ
  pub part3 : ℕ
  pub part4 : ℕ
  pub part5 : ℕ
  pub part6 : ℕ

abbrev pub ether_ipv4 : ℕ
ether_ipv4 = 0x800

-- The frame's header: to all, from the address, and the type of what follows.
abbrev pub frame_header : MacAddress → List ℕ
frame_header mac =
    0xff
    ∷ 0xff
    ∷ 0xff
    ∷ 0xff
    ∷ 0xff
    ∷ 0xff
    ∷ mac.part1
    ∷ mac.part2
    ∷ mac.part3
    ∷ mac.part4
    ∷ mac.part5
    ∷ mac.part6
    ∷ swapped ether_ipv4

-- The frame and its length that the driver gets, whose address is given; none if there is no driver,
-- where the result is -1.
unfoldable pub send_ipv4 :
    Option MacAddress → Bytes → ℕ → ℕ → Ipv4Address → Ipv4Address → Option (Bytes × ℕ)
send_ipv4 none payload len protocol src dst = none
send_ipv4 (some mac) payload len protocol src dst = some (
  place (frame_header mac) (ipv4_packet payload len protocol src dst),
  frame_size + header_size + len,
)

-- What becomes of a packet: the handler of its protocol gets it from the header on.
pub data Received : Type 0 where
  dropped : Received
  to_icmp : Bytes → Received
  to_udp : Bytes → Received

-- `header->checksum = 0`.
abbrev pub cleared : Bytes → Bytes
cleared m = update (update m 10 0) 11 0

abbrev pub by_protocol : ℕ → Bytes → Received
by_protocol protocol m =
    if protocol == icmp_protocol
    then to_icmp m
    else if protocol == udp_protocol
    then to_udp m
    else dropped

unfoldable pub receive_ipv4 : Bytes → ℕ → Received
receive_ipv4 m len =
    if ltb len header_size
    then dropped
    else if m 0 / 16 == 4
    then (if word_at m 10 == get_checksum (words_at (cleared m) 0 10)
        then by_protocol (m 9) (cleared m)
        else dropped)
    else dropped

-- What `packet_handler` does with a frame that it has read from the driver's ring.
unfoldable pub handle_frame : Bytes → ℕ → Received
handle_frame m len =
    if swapped_at m 12 == ether_ipv4
    then receive_ipv4 (λ i. m (frame_size + i)) ((len + 2 ^ 64 - frame_size) % 2 ^ 64)
    else dropped
