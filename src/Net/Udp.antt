-- ===== src/Net/Udp.antt =====
-- src/kernel/net/udp.cpp: sockets that send and receive datagrams. Sockets stand at addresses; the lock of
-- a socket is held in each function that touches its ring.
pub mod Delivery
pub mod Reading
use umbra_os.Prelude.{
  Bool, ℕ, ◌+◌, ◌-◌, ◌%◌, ◌/◌, ◌^◌, Option, none, some, List, [], ◌∷◌, ◌++◌, ◌==◌, ltb,
  if◌then◌else◌, Outcome, done, ◌>>=◌,
}
use umbra_os.Prelude.Maps.{update}
use umbra_os.Utils.LinkedList
use umbra_os.Utils.LinkedList.{DoublyLinkedList}
use umbra_os.Utils.RingBuffer
use umbra_os.Utils.RingBuffer.{Ringbuffer}
use umbra_os.Libc.Strings.{Bytes}
use umbra_os.Fs.Handles.{handle_from}
use umbra_os.Kernel.Scheduler.{Scheduler}
use umbra_os.Kernel.Scheduler
use umbra_os.Net.Ipv4.{
  place, word_at, swapped_at, Ipv4Address, ipv4, address_at, swapped, header_size, udp_protocol,
  MacAddress, send_ipv4,
}
use umbra_os.Net.Message.{Headers, negative, is_negative, SockaddrIn, destination, bytes_from}

-- The port is in the order of the network.
pub record UdpPacket : Type 0 where
  pub src_ip : Ipv4Address
  pub src_port : ℕ
  pub length : ℕ
  pub bytes : Bytes

pub record UdpSocket : Type 0 where
  pub port : ℕ
  pub packets : Ringbuffer UdpPacket

-- The list of all sockets, and what stands at their addresses.
pub record Udp : Type 0 where
  pub list : DoublyLinkedList
  pub sockets : ℕ → UdpSocket

-- `sizeof(UdpHeader)`, the cells of a ring, and the port that every sender gets.
abbrev pub udp_header_size : ℕ
udp_header_size = 8

abbrev pub ring_size : ℕ
ring_size = 64

abbrev pub sender_port : ℕ
sender_port = 1337

abbrev pub ports : Udp → ℕ → ℕ
ports u socket = (u.sockets socket).port

-- `node` is the address of the list's new node.
unfoldable pub add_socket : ℕ → ℕ → Udp → Udp
add_socket node socket u = record u { list = LinkedList.push node socket u.list }

-- The walk stops at the first socket with the port; the null pointer says that there is none.
unfoldable pub get_socket : ℕ → ℕ → Udp → Outcome ℕ
get_socket fuel port u = handle_from fuel (ports u) port u.list.nodes u.list.head

abbrev pub set_packets : ℕ → Ringbuffer UdpPacket → Udp → Udp
set_packets socket packets u = record u {
  sockets = update u.sockets socket (record (u.sockets socket) { packets = packets });
}

-- The packet that is kept of a datagram: as many bytes as the length of the datagram with its header.
abbrev pub kept : Bytes → UdpPacket
kept m = record {
  src_ip = address_at m 12;
  src_port = word_at m 20;
  length = swapped_at m 24;
  bytes = λ i. m (28 + i);
}

abbrev pub stored : Bytes → ℕ → Udp → Udp
stored m socket u =
    set_packets socket (RingBuffer.write ring_size (u.sockets socket).packets (kept m)) u

-- From the header of the packet on. `fuel` bounds the walk over the sockets, `steps` the one of
-- `wake_net`.
unfoldable pub receive_udp : ℕ → ℕ → Bytes → Udp → Scheduler → Outcome (Udp × Scheduler)
receive_udp fuel steps m u s =
    let len = (swapped_at m 2 + 2 ^ 64 - header_size) % 2 ^ 64 in
    let delivered : Outcome (Udp × Scheduler) = get_socket fuel (swapped_at m 22) u >>= λ socket.
    if socket == 0
    then done (u, s)
    else (Scheduler.wake_net steps s >>= λ s'. done (stored m socket u, s')) in
    if ltb len udp_header_size
    then done (u, s)
    else if ltb len (swapped_at m 24)
    then done (u, s)
    else delivered

-- The header that `send_msg` fills, before the data.
abbrev pub udp_header : ℕ → ℕ → ℕ → List ℕ
udp_header port dst_port len =
    swapped port
    ++ dst_port % 256 ∷ dst_port / 256 % 256 ∷ swapped (udp_header_size + len)
    ++ 0 ∷ 0 ∷ []

abbrev pub datagram : ℕ → ℕ → Bytes → ℕ → Bytes
datagram port dst_port payload len = place (udp_header port dst_port len) payload

-- The result, the frame that the driver sends, and the socket.
pub record Sent : Type 0 where
  pub result : ℕ
  pub frame : Option (Bytes × ℕ)
  pub socket : UdpSocket

unfoldable pub send_msg :
    Headers → Option MacAddress → Option SockaddrIn → ℕ → Bytes → ℕ → UdpSocket → Sent
send_msg c mac name namelen payload len socket = elim (destination c name namelen) [
  | none ↦ record { result = negative c.enosys; frame = none; socket = socket }
  | some to ↦
      let frame =
        send_ipv4 mac (datagram sender_port to.sin_port payload len) (udp_header_size + len)
          udp_protocol (ipv4 0 0 0 0) (ipv4 192 168 1 254) in
      record {
        result = elim frame [ none ↦ negative 1 | some f ↦ len % 2 ^ 32 ];
        frame = frame;
        socket = record socket { port = sender_port };
      }
]

-- What `recv_msg` comes to: it returns a word, and with it the name and the bytes that are written, or
-- it blocks until the ring has a packet, and then goes on.
pub data Received : Type 0 where
  returned : ℕ → Received
  blocked : Received
  message : ℕ → Option SockaddrIn → List ℕ → Received

-- `wanted` says that `msg_name` is not null.
unfoldable pub recv_msg : Headers → Bool → ℕ → ℕ → UdpSocket → Received × UdpSocket
recv_msg c wanted flags len socket =
    let (packet, packets) = RingBuffer.read ring_size socket.packets in
    elim packet [
      | none ↦ (
        if c.dont_wait flags
            then returned (negative c.eagain)
            else if c.non_block flags
            then returned (negative c.ewouldblock)
            else blocked,
        socket,
      )
      | some p ↦
          let n = if ltb len p.length then len else p.length in
          (
            message (n % 2 ^ 32)
                (if wanted
                  then some (record {
                    sin_family = c.pf_inet;
                    sin_port = p.src_port;
                    sin_addr = p.src_ip;
                  })
                  else none)
                (bytes_from p.bytes 0 n),
            record socket { packets = packets },
          )
    ]
