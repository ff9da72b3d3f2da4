-- ===== src/Net/Icmp.antt =====
-- src/kernel/net/icmp.cpp: sockets that send echo requests, and get each echo reply. A ring holds the
-- addresses of packets, which stay where the driver put them.
pub mod Replies
use umbra_os.Prelude.{
  ℕ, zero, suc, ◌+◌, ◌-◌, ◌*◌, ◌%◌, ◌/◌, ◌^◌, Option, none, some, List, [], ◌∷◌, ◌++◌, ◌==◌, ltb,
  if◌then◌else◌, ◌&&◌, Outcome, done, out_of_fuel, ◌>>=◌,
}
use umbra_os.Prelude.Maps.{update}
use umbra_os.Utils.LinkedList
use umbra_os.Utils.LinkedList.{DoublyLinkedList, Node}
use umbra_os.Utils.RingBuffer
use umbra_os.Utils.RingBuffer.{Ringbuffer}
use umbra_os.Libc.Strings.{Bytes}
use umbra_os.Kernel.Scheduler.{Scheduler}
use umbra_os.Kernel.Scheduler
use umbra_os.Net.Checksum.{get_checksum}
use umbra_os.Net.Ipv4.{
  place, words_at, swapped_at, Ipv4Address, ipv4, header_size, icmp_protocol, MacAddress, send_ipv4,
}
use umbra_os.Net.Message.{Headers, negative, SockaddrIn, destination, bytes_from}

pub record IcmpSocket : Type 0 where
  pub port : ℕ
  pub packets : Ringbuffer ℕ

-- The list of all sockets, and what stands at their addresses.
pub record Icmp : Type 0 where
  pub list : DoublyLinkedList
  pub sockets : ℕ → IcmpSocket

-- `sizeof(IcmpHeader)`, the cells of a ring, and the port that every sender gets.
abbrev pub icmp_header_size : ℕ
icmp_header_size = 4

abbrev pub ring_size : ℕ
ring_size = 64

abbrev pub sender_port : ℕ
sender_port = 1337

-- `node` is the address of the list's new node.
unfoldable pub add_socket : ℕ → ℕ → Icmp → Icmp
add_socket node socket u = record u { list = LinkedList.push node socket u.list }

abbrev pub given : ℕ → IcmpSocket → IcmpSocket
given packet x = record x { packets = RingBuffer.write ring_size x.packets packet }

-- The walk that writes a packet to each socket.
unfoldable pub write_walk : ℕ → ℕ → (ℕ → Node) → ℕ → (ℕ → IcmpSocket) → Outcome (ℕ → IcmpSocket)
write_walk zero packet nodes p sockets = out_of_fuel
write_walk (suc fuel) packet nodes p sockets =
    let socket = (nodes p).value in
    let on =
      write_walk fuel packet nodes (nodes p).next
        (update sockets socket (given packet (sockets socket))) in
    if p == 0 then done sockets else on

-- `header` is the address of the packet's header in the memory `m`. `fuel` bounds the walk over the
-- sockets, `steps` the one of `wake_net`.
unfoldable pub receive_icmp : ℕ → ℕ → Bytes → ℕ → Icmp → Scheduler → Outcome (Icmp × Scheduler)
receive_icmp fuel steps m header u s =
    let len = (swapped_at m (header + 2) + 2 ^ 64 - header_size) % 2 ^ 64 in
    let packet = header + header_size in
    let replied : Outcome (Icmp × Scheduler) =
      write_walk fuel packet u.list.nodes u.list.head u.sockets >>= λ sockets.
      Scheduler.wake_net steps s >>= λ s'. done (record u { sockets = sockets }, s') in
    if ltb len icmp_header_size
    then done (u, s)
    else if m packet == 0 && (m (packet + 1) == 0)
    then replied
    else done (u, s)

abbrev pub icmp_header : ℕ → List ℕ
icmp_header checksum = 8 ∷ 0 ∷ checksum % 256 ∷ checksum / 256 ∷ []

-- The echo request, with the checksum over the header and the data.
unfoldable pub echo_request : Bytes → ℕ → Bytes
echo_request payload len =
    let blank = place (icmp_header 0) payload in
    place (icmp_header (get_checksum (words_at blank 0 ((icmp_header_size + len) / 2)))) payload

-- The result, the frame that the driver sends, and the socket.
pub record Sent : Type 0 where
  pub result : ℕ
  pub frame : Option (Bytes × ℕ)
  pub socket : IcmpSocket

unfoldable pub send_msg :
    Headers → Option MacAddress → Option SockaddrIn → ℕ → Bytes → ℕ → IcmpSocket → Sent
send_msg c mac name namelen payload len socket = elim (destination c name namelen) [
  | none ↦ record { result = negative c.enosys; frame = none; socket = socket }
  | some to ↦
      let frame =
        send_ipv4 mac (echo_request payload len) (icmp_header_size + len) icmp_protocol
          (ipv4 0 0 0 0) to.sin_addr in
      record {
        result = elim frame [ none ↦ negative 1 | some f ↦ len % 2 ^ 32 ];
        frame = frame;
        socket = record socket { port = sender_port };
      }
]

-- What `recv_msg` comes to: it returns a word, with the bytes that are written in the second case, or
-- it blocks until the ring has a packet, and then goes on.
pub data Received : Type 0 where
  returned : ℕ → Received
  blocked : Received
  message : ℕ → List ℕ → Received

-- `m` is the memory at the time of the call.
unfoldable pub recv_msg : Headers → Bytes → ℕ → ℕ → IcmpSocket → Received × IcmpSocket
recv_msg c m flags len socket =
    let (packet, packets) = RingBuffer.read ring_size socket.packets in
    elim packet [
      | none ↦ (
        if c.dont_wait flags
            then returned (negative c.eagain)
            else if c.non_block flags
            then returned (negative c.ewouldblock)
            else blocked,
        socket,
      )
      | some p ↦ (message (len % 2 ^ 32) (bytes_from m p len), record socket { packets = packets })
    ]
