-- ===== src/Net/Udp/Delivery.antt =====
-- src/kernel/net: a datagram from `send_msg` of udp.cpp, through the frame of socket.cpp, to the ring of
-- the socket that it is sent to.
use umbra_os.Prelude.{
  ℕ, ◌+◌, ◌-◌, ◌*◌, ◌%◌, ◌/◌, ◌^◌, ◌<◌, ◌≡◌, ◌≢◌, refl, ap, ◌∙◌, Option, some, List, ltb, done,
  arith, false, length, ==_of_ne,
}
use umbra_os.Libc.Strings.{Bytes}
use umbra_os.Utils.LinkedList.Chain.{Chain}
use umbra_os.Fs.Handles.Lookup.{first_with, handle_from-eq}
use umbra_os.Kernel.Scheduler.{Scheduler}
use umbra_os.Kernel.Scheduler
use umbra_os.Net.Ipv4.{
  place, swapped_at, Ipv4Address, ipv4, ipv4_packet, cleared, MacAddress, header_size, handle_frame,
  send_ipv4, udp_protocol, to_udp,
}
use umbra_os.Net.Ipv4.Loop.{handle_frame-by_protocol, place_after}
use umbra_os.Net.Message.{behind_header, Headers, SockaddrIn, destination}
use umbra_os.Net.Udp.{
  UdpSocket, Udp, ports, get_socket, kept, stored, receive_udp, datagram, udp_header,
  udp_header_size, sender_port, Sent, send_msg,
}

-- `__builtin_bswap16`.
abbrev pub bswap16 : ℕ → ℕ
bswap16 n = 256 * (n % 256) + n / 256

-- The packet of a datagram as its receiver finds it.
module _ (payload : Bytes) (port dst_port len : ℕ) (src dst : Ipv4Address)
    (fits : len + 28 < 2 ^ 16) where
  abbrev pub arrived : Bytes
  arrived = cleared (
      ipv4_packet (datagram port dst_port payload len) (udp_header_size + len) udp_protocol src dst)

  arrived_length : (swapped_at arrived 2 + 2 ^ 64 - header_size) % 2 ^ 64 ≡ 8 + len
  unfolding ipv4_packet place
  arrived_length = omega (arith, fits)

  arrived_port : dst_port < 2 ^ 16 → swapped_at arrived 22 ≡ bswap16 dst_port
  unfolding ipv4_packet place
  arrived_port h = omega (arith, h)

  pub arrived_size : swapped_at arrived 24 ≡ 8 + len
  unfolding ipv4_packet place
  arrived_size = omega (arith, fits)

  arrived_source : (kept arrived).src_ip ≡ src
  unfolding ipv4_packet place
  arrived_source = refl

  pub arrived_data : (i : ℕ) → (kept arrived).bytes i ≡ payload i
  arrived_data i =
      let e : 28 + i ≡ 20 + (8 + i) = omega arith in
      ap arrived e
      ∙ behind_header (datagram port dst_port payload len) (udp_header_size + len) udp_protocol src
          dst (8 + i)
      ∙ place_after (udp_header port dst_port len) payload i

  received :
      (fuel steps : ℕ) (u : Udp) (s s' : Scheduler) (cells : List (ℕ × ℕ))
      → Chain u.list.nodes u.list.head cells
      → length cells < fuel
      → dst_port < 2 ^ 16
      → let socket = first_with (ports u) (bswap16 dst_port) cells in
        socket ≢ 0
        → Scheduler.wake_net steps s ≡ done s'
        → receive_udp fuel steps arrived u s ≡ done (stored arrived socket u, s')
  unfolding receive_udp get_socket
  received fuel steps u s s' cells chain enough h found woke =
      let socket = first_with (ports u) (bswap16 dst_port) cells in
      let long : ltb (8 + len) udp_header_size ≡ false = ground arith in
      let whole : ltb (8 + len) (8 + len) ≡ false = ground arith in
      let walk =
        handle_from-eq fuel (ports u) (bswap16 dst_port) u.list.nodes u.list.head cells enough
          chain in
      rw
        (
          arrived_length,
          long,
          arrived_size,
          whole,
          arrived_port h,
          walk,
          ==_of_ne socket 0 found,
          woke,
        )
        refl

module _ (c : Headers) (mac : MacAddress) (name : Option SockaddrIn) (namelen : ℕ) (to : SockaddrIn)
    (named : destination c name namelen ≡ some to) (payload : Bytes) (len : ℕ)
    (sender : UdpSocket) where
  abbrev sent : Sent
  sent = send_msg c (some mac) name namelen payload len sender

  sent_frame :
      sent.frame
      ≡ send_ipv4
          (some mac)
          (datagram sender_port to.sin_port payload len)
          (udp_header_size + len)
          udp_protocol
          (ipv4 0 0 0 0)
          (ipv4 192 168 1 254)
  unfolding send_msg
  sent_frame = rw (named, send_msg) refl

  -- A message of fewer than 2 ^ 16 - 28 bytes to an address with a port makes a frame that goes to
  -- the handler of UDP. When the sockets are chained, a socket has the port, and `wake_net` ends,
  -- `receive_udp` stores the datagram in the ring of the first such socket.
  pub send_msg-receive_udp :
      (fuel steps : ℕ) (u : Udp) (s s' : Scheduler) (cells : List (ℕ × ℕ))
      (fits : len + 28 < 2 ^ 16)
      → to.sin_port < 2 ^ 16
      → Chain u.list.nodes u.list.head cells
      → length cells < fuel
      → first_with (ports u) (bswap16 to.sin_port) cells ≢ 0
      → Scheduler.wake_net steps s ≡ done s'
      → let m =
          arrived payload sender_port to.sin_port len (ipv4 0 0 0 0) (ipv4 192 168 1 254) fits in
        (frame : Bytes) × (size : ℕ) × (sent.frame ≡ some (frame, size))
        × (handle_frame frame size ≡ to_udp m)
        × (receive_udp fuel steps m u s
            ≡ done (stored m (first_with (ports u) (bswap16 to.sin_port) cells) u, s'))
  send_msg-receive_udp fuel steps u s s' cells fits port chain enough found woke =
      let (frame, size, e, handled) =
        handle_frame-by_protocol mac (datagram sender_port to.sin_port payload len)
          (udp_header_size + len) udp_protocol (ipv4 0 0 0 0) (ipv4 192 168 1 254) (omega arith)
          (omega (arith, fits)) in
      (
        frame,
        size,
        sent_frame ∙ e,
        handled,
        received payload sender_port to.sin_port len (ipv4 0 0 0 0) (ipv4 192 168 1 254) fits fuel
            steps u s s' cells chain enough port found woke,
      )
