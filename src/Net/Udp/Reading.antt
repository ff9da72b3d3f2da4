-- ===== src/Net/Udp/Reading.antt =====
-- src/kernel/net/udp.cpp: what `recv_msg` reads of the packets that wait in a ring.
use umbra_os.Prelude.{
  none, Bool, true, ℕ, ◌+◌, ◌%◌, ◌^◌, ◌<◌, ◌≡◌, ◌≢◌, refl, ap, ◌∙◌, Option, some, List, [], ◌∷◌,
  ltb, if◌then◌else◌, arith, true, length, done,
}
use umbra_os.Prelude.Maps.{update_self}
use umbra_os.Libc.Strings.{Bytes}
use umbra_os.Utils.RingBuffer
use umbra_os.Utils.RingBuffer.{Ringbuffer}
use umbra_os.Utils.RingBuffer.Refine.{Holds, write_refines, read_refines}
use umbra_os.Utils.LinkedList.Chain.{Chain}
use umbra_os.Fs.Handles.Lookup.{first_with}
use umbra_os.Kernel.Scheduler.{Scheduler}
use umbra_os.Kernel.Scheduler
use umbra_os.Net.Ipv4.{ipv4, MacAddress, handle_frame, to_udp, place, ipv4_packet}
use umbra_os.Net.Message.{Headers, SockaddrIn, destination, bytes_from, bytes_from-eq}
use umbra_os.Net.Udp.{
  UdpPacket, UdpSocket, Udp, ring_size, ports, kept, stored, receive_udp, sender_port, Received,
  recv_msg, message, send_msg,
}
use umbra_os.Net.Udp.Delivery.{bswap16, arrived, arrived_data, arrived_size, send_msg-receive_udp}

-- What the call hands out of a packet to a buffer of a length.
abbrev pub handed : Headers → Bool → ℕ → UdpPacket → Received
handed c wanted len p =
    let n = if ltb len p.length then len else p.length in
    message (n % 2 ^ 32)
      (if wanted
        then some (record { sin_family = c.pf_inet; sin_port = p.src_port; sin_addr = p.src_ip })
        else none)
      (bytes_from p.bytes 0 n)

module _ (c : Headers) (wanted : Bool) (flags len : ℕ) (socket : UdpSocket) where
  -- From a ring that holds packets, `recv_msg` hands out the first, leaves the others, and keeps
  -- the port.
  pub recv_msg_lem :
      (p : UdpPacket) (q : List UdpPacket)
      → Holds ring_size socket.packets (p ∷ q)
      → ((recv_msg c wanted flags len socket).0 ≡ handed c wanted len p)
        × ((recv_msg c wanted flags len socket).1.port ≡ socket.port)
        × Holds ring_size (recv_msg c wanted flags len socket).1.packets q
  unfolding recv_msg
  recv_msg_lem p q h =
      let (out, rest) = read_refines ring_size socket.packets (p ∷ q) h in
      rw (out, recv_msg) (refl, refl, rest)

-- The packet of a datagram in a ring, handed to a buffer with room for its data.
module _ (c : Headers) (payload : Bytes) (dst_port len : ℕ) (fits : len + 28 < 2 ^ 16) where
  abbrev packet_bytes : Bytes
  packet_bytes = arrived payload sender_port dst_port len (ipv4 0 0 0 0) (ipv4 192 168 1 254) fits

  abbrev packet : UdpPacket
  packet = kept packet_bytes

  abbrev pub expected : Received
  expected =
      message len
        (some (record {
          sin_family = c.pf_inet;
          sin_port = bswap16 sender_port;
          sin_addr = ipv4 0 0 0 0;
        }))
        (bytes_from payload 0 len)

  from_sender : (packet.src_port ≡ bswap16 sender_port) × (packet.src_ip ≡ ipv4 0 0 0 0)
  unfolding ipv4_packet place
  from_sender = (refl, refl)

  pub handed_whole : handed c true len packet ≡ expected
  handed_whole =
      let size : packet.length ≡ 8 + len =
        arrived_size payload sender_port dst_port len (ipv4 0 0 0 0) (ipv4 192 168 1 254) fits in
      let short : ltb len (8 + len) ≡ true = ground arith in
      let word : len % 2 ^ 32 ≡ len = omega (arith, fits) in
      let same : bytes_from packet.bytes 0 len ≡ bytes_from payload 0 len =
        bytes_from-eq packet.bytes payload 0 0 len (λ k l.
          arrived_data payload sender_port dst_port len (ipv4 0 0 0 0) (ipv4 192 168 1 254) fits
            (0 + k)) in
      rw (size, short, word, from_sender.0, from_sender.1, same) refl

  read_back :
      (flags socket : ℕ) (u : Udp)
      → Holds ring_size (u.sockets socket).packets []
      → (recv_msg c true flags len ((stored packet_bytes socket u).sockets socket)).0 ≡ expected
  read_back flags socket u empty =
      let ring = (u.sockets socket).packets in
      let holds = write_refines ring_size ring [] packet empty in
      let after = record (u.sockets socket) { packets = RingBuffer.write ring_size ring packet } in
      let at : (stored packet_bytes socket u).sockets socket ≡ after =
        update_self u.sockets socket after in
      ap (λ x. (recv_msg c true flags len x).0) at
      ∙ (recv_msg_lem c true flags len after packet [] holds).0
      ∙ handed_whole

-- A message of fewer than 2 ^ 16 - 28 bytes that is sent to an address with a port makes a frame
-- that goes to the handler of UDP. When the sockets are chained, a socket with that port is the
-- first that the walk finds, its ring is empty, and `wake_net` ends, `receive_udp` stores the
-- datagram, and a `recv_msg` that asks for the sender and has room for as many bytes as were sent
-- returns their number, writes these bytes, and names 0.0.0.0 and port 1337 as their source.
pub recv_msg-send_msg :
    (c : Headers) (mac : MacAddress) (name : Option SockaddrIn) (namelen : ℕ) (to : SockaddrIn)
    (payload : Bytes) (len flags : ℕ) (sender : UdpSocket) (fuel steps : ℕ) (u : Udp)
    (s s' : Scheduler) (cells : List (ℕ × ℕ))
    → destination c name namelen ≡ some to
    → len + 28 < 2 ^ 16
    → to.sin_port < 2 ^ 16
    → Chain u.list.nodes u.list.head cells
    → length cells < fuel
    → Scheduler.wake_net steps s ≡ done s'
    → let socket = first_with (ports u) (bswap16 to.sin_port) cells in
      socket ≢ 0
      → Holds ring_size (u.sockets socket).packets []
      → (frame : Bytes) × (size : ℕ) × (m : Bytes) × (u' : Udp) × ((send_msg c
            (some mac)
            name
            namelen
            payload
            len
            sender).frame
          ≡ some (frame, size))
        × (handle_frame frame size ≡ to_udp m)
        × (receive_udp fuel steps m u s ≡ done (u', s'))
        × ((recv_msg c true flags len (u'.sockets socket)).0
            ≡ message len
                (some (record {
                  sin_family = c.pf_inet;
                  sin_port = bswap16 sender_port;
                  sin_addr = ipv4 0 0 0 0;
                }))
                (bytes_from payload 0 len))
recv_msg-send_msg c mac name namelen to payload len flags sender fuel steps u s s' cells named fits
      port chain enough woke found empty =
    let (frame, size, e, handled, got) =
      send_msg-receive_udp c mac name namelen to named payload len sender fuel steps u s s' cells
        fits port chain enough found woke in
    let socket = first_with (ports u) (bswap16 to.sin_port) cells in
    (
      frame,
      size,
      _,
      _,
      e,
      handled,
      got,
      read_back c payload to.sin_port len fits flags socket u empty,
    )
