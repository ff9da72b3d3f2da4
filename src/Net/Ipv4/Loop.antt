-- ===== src/Net/Ipv4/Loop.antt =====
-- src/kernel/net/socket.cpp: a packet of `send_ipv4` under `receive_ipv4`.
use umbra_os.Prelude.{
  ℕ, suc, ◌+◌, ◌/◌, ◌%◌, ◌^◌, ◌<◌, ◌≡◌, refl, ap, ◌∙◌, List, [], ◌∷◌, ◌==◌, ltb, arith, length,
  ==_refl, some, ◌≢◌, ==_of_ne, true, false, ◌-◌,
}
use umbra_os.Prelude.Maps.{update, update_ne}
use mathlib.Core.Path.{fun_ext}
use umbra_os.Libc.Strings.{Bytes}
use umbra_os.Net.Checksum.{get_checksum}
use umbra_os.Net.Ipv4.{
  place, word_at, words_at, Ipv4Address, ipv4_header, header_size, ipv4_packet, cleared,
  by_protocol, receive_ipv4, MacAddress, address_at, to_icmp, to_udp, dropped, frame_header,
  frame_size, send_ipv4, handle_frame,
}

pub place_after :
    (bytes : List ℕ) (rest : Bytes) (i : ℕ) → place bytes rest (length bytes + i) ≡ rest i
unfolding place
place_after [] rest i = let same : 0 + i ≡ i = omega arith in ap rest same
place_after (b ∷ bytes) rest i =
    let onward : suc (length bytes) + i ≡ suc (length bytes + i) = omega arith in
    ap (place (b ∷ bytes) rest) onward ∙ place_after bytes rest i

unframed :
    (mac : MacAddress) (packet : Bytes) (len : ℕ)
    → len < 2 ^ 63
    → handle_frame (place (frame_header mac) packet) (frame_size + header_size + len)
      ≡ receive_ipv4 packet (header_size + len)
unfolding handle_frame place
unframed mac packet len fits =
    let size : (frame_size + header_size + len + 2 ^ 64 - frame_size) % 2 ^ 64 ≡ header_size + len =
      omega (arith, fits) in
    rw (size) (
      ap (λ m. receive_ipv4 m (header_size + len))
        (fun_ext (place_after (frame_header mac) packet)))

module _ (payload : Bytes) (len protocol : ℕ) (src dst : Ipv4Address) where
  abbrev packet_with : ℕ → Bytes
  packet_with c = place (ipv4_header len protocol src dst c) payload

  zeroed_words : (c : ℕ) → words_at (cleared (packet_with c)) 0 10 ≡ words_at (packet_with 0) 0 10
  unfolding words_at place
  zeroed_words c = refl

  version : (c : ℕ) → (packet_with c 0 / 16 == 4) ≡ true
  unfolding place
  version c = refl

  protocol_byte : (c : ℕ) → protocol < 256 → packet_with c 9 ≡ protocol
  unfolding place
  protocol_byte c h = omega (arith, h)

  checksum_word : (c : ℕ) → word_at (packet_with c) 10 ≡ c
  unfolding place
  checksum_word c = omega arith

  accepted :
      (c : ℕ)
      → protocol < 256
      → get_checksum (words_at (packet_with 0) 0 10) ≡ c
      → receive_ipv4 (packet_with c) (header_size + len)
        ≡ by_protocol protocol (cleared (packet_with c))
  unfolding receive_ipv4
  accepted c h e =
      let long : ltb (header_size + len) header_size ≡ false = ground arith in
      rw (long, version c, checksum_word c, zeroed_words c, e, ==_refl c, protocol_byte c h) refl

  -- When the protocol is a byte, a packet that the kernel made is accepted, and goes with its
  -- checksum cleared to the handler of the protocol.
  pub receive_ipv4-ipv4_packet :
      protocol < 256
      → let m = ipv4_packet payload len protocol src dst in
        receive_ipv4 m (header_size + len) ≡ by_protocol protocol (cleared m)
  unfolding ipv4_packet
  receive_ipv4-ipv4_packet h = accepted (get_checksum (words_at (packet_with 0) 0 10)) h refl

-- When there is a driver, `send_ipv4` sends a frame whose packet reaches `by_protocol`.
pub handle_frame-by_protocol :
    (mac : MacAddress) (payload : Bytes) (len protocol : ℕ) (src dst : Ipv4Address)
    → protocol < 256
    → len < 2 ^ 63
    → (frame : Bytes) × (size : ℕ) × (send_ipv4 (some mac) payload len protocol src dst
        ≡ some (frame, size))
      × (handle_frame frame size
          ≡ by_protocol protocol (cleared (ipv4_packet payload len protocol src dst)))
unfolding send_ipv4
handle_frame-by_protocol mac payload len protocol src dst h fits = (
  _,
  _,
  refl,
  unframed mac (ipv4_packet payload len protocol src dst) len fits
      ∙ receive_ipv4-ipv4_packet payload len protocol src dst h,
)

cleared-payload :
    (payload : Bytes) (len protocol : ℕ) (src dst : Ipv4Address) (i : ℕ)
    → cleared (ipv4_packet payload len protocol src dst) (20 + i) ≡ payload i
unfolding ipv4_packet
cleared-payload payload len protocol src dst i =
    let m = ipv4_packet payload len protocol src dst in
    let c = get_checksum (words_at (place (ipv4_header len protocol src dst 0) payload) 0 10) in
    update_ne (update m 10 0) 11 (20 + i) 0 (λ e. omega (arith, e))
    ∙ update_ne m 10 (20 + i) 0 (λ e. omega (arith, e))
    ∙ place_after (ipv4_header len protocol src dst c) payload i

cleared-address :
    (payload : Bytes) (len protocol : ℕ) (src dst : Ipv4Address)
    → address_at (cleared (ipv4_packet payload len protocol src dst)) 12 ≡ src
unfolding ipv4_packet place
cleared-address payload len protocol src dst = refl

-- When there is a driver, the protocol is a byte and the data has fewer than 2 ^ 63 bytes,
-- `send_ipv4` sends a frame whose header `packet_handler` accepts: for the protocol 1 a packet goes
-- to the handler of ICMP, for 17 to that of UDP, and for any other to none. The packet names the
-- sender, and its data are those that were sent.
pub handle_frame-send_ipv4 :
    (mac : MacAddress) (payload : Bytes) (len protocol : ℕ) (src dst : Ipv4Address)
    → protocol < 256
    → len < 2 ^ 63
    → (frame : Bytes) × (size : ℕ) × (packet : Bytes) × (send_ipv4
          (some mac)
          payload
          len
          protocol
          src
          dst
        ≡ some (frame, size))
      × (protocol ≡ 1 → handle_frame frame size ≡ to_icmp packet)
      × (protocol ≡ 17 → handle_frame frame size ≡ to_udp packet)
      × (protocol ≢ 1 → protocol ≢ 17 → handle_frame frame size ≡ dropped)
      × (address_at packet 12 ≡ src)
      × ((i : ℕ) → packet (20 + i) ≡ payload i)
handle_frame-send_ipv4 mac payload len protocol src dst h fits =
    let (frame, size, e, goes) = handle_frame-by_protocol mac payload len protocol src dst h fits in
    (
      frame,
      size,
      cleared (ipv4_packet payload len protocol src dst),
      e,
      λ q. goes ∙ rw q refl,
      λ q. goes ∙ rw q refl,
      λ q1 q17. goes ∙ rw (==_of_ne protocol 1 q1, ==_of_ne protocol 17 q17) refl,
      cleared-address payload len protocol src dst,
      cleared-payload payload len protocol src dst,
    )
