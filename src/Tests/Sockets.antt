-- ===== src/Tests/Sockets.antt =====
-- A socket at address 40 with the port 1337, in a list of one node at 8, and a datagram of two bytes to it.
use umbra_os.Prelude.{
  ℕ, ◌+◌, ◌/◌, ◌%◌, ◌≡◌, ◌≢◌, refl, List, [], ◌∷◌, ◌==◌, if◌then◌else◌, arith, done, true, false,
  some, Bool, map,
}
use umbra_os.Libc.Strings.{Bytes}
use umbra_os.Utils.RingBuffer
use umbra_os.Utils.RingBuffer.Refine.{Holds}
use umbra_os.Utils.LinkedList.{DoublyLinkedList, Node}
use umbra_os.Utils.LinkedList.Chain.{Chain}
use umbra_os.Kernel.Scheduler.{Scheduler, ready, wake_net}
use umbra_os.Kernel.Scheduler
use umbra_os.Net.Ipv4.{
  MacAddress, ipv4, send_ipv4, handle_frame, address_at, dropped, to_icmp, to_udp,
}
use umbra_os.Net.Ipv4.Loop.{handle_frame-send_ipv4}
use umbra_os.Net.Message.{Headers, SockaddrIn, destination, bytes_from}
use umbra_os.Net.Udp.{
  Udp, UdpSocket, UdpPacket, send_msg, receive_udp, recv_msg, message, ring_size,
}
use umbra_os.Net.Udp.Delivery.{bswap16}
use umbra_os.Net.Udp.Reading.{recv_msg-send_msg}
use umbra_os.Net.Icmp.{Icmp, IcmpSocket, receive_icmp}
use umbra_os.Net.Icmp.Replies.{after_write, receive_icmp_lem}
use umbra_os.Net.Calls.{Net, Iovec, udp_handle, sys_send_msg}
use umbra_os.Net.Calls.Gather.{frame_of, sys_send_msg_lem}
use umbra_os.Net.E1000.{E1000, handler}
use umbra_os.Net.E1000.Drain.{Stops, handler_lem}

abbrev nodes : ℕ → Node
nodes a = record { value = 40; prev = 0; next = 0 }

abbrev list : DoublyLinkedList
list = record { nodes = nodes; head = 8; size = 1 }

abbrev cells : List (ℕ × ℕ)
cells = (8, 40) ∷ []

list-Chain : Chain nodes 8 cells
list-Chain = (refl, omega arith, refl, (refl, tt))

abbrev no_packet : UdpPacket
no_packet = record { src_ip = ipv4 0 0 0 0; src_port = 0; length = 0; bytes = λ i. 0 }

abbrev empty_socket : UdpSocket
empty_socket = record {
  port = 1337;
  packets = record { items = λ i. no_packet; head = 0; tail = 0 };
}

socket-Holds : Holds ring_size empty_socket.packets []
socket-Holds = record {
  room = omega arith;
  head_in = omega arith;
  tail_in = omega arith;
  span = (refl, tt);
}

abbrev udp : Udp
udp = record { list = list; sockets = λ a. empty_socket }

-- No task is in the run queue.
abbrev scheduler : Scheduler
scheduler = record {
  tasks = λ t. record {
    status = ready;
    tsc_sleep = 0;
    context = 0;
    address_space = 0;
    events = RingBuffer.new (λ i. record { key_code = 0; ascii = 0; pressed = false });
  };
  current_task = 0;
  idle_task = 0;
  queue = record { nodes = λ a. record { task = 0; prev = 0; next = 0 }; front = 0; current = 0 };
  timer = true;
  space = 0;
}

woken : wake_net 1 scheduler ≡ done scheduler
unfolding wake_net Scheduler.wake_walk
woken = refl

abbrev headers : Headers
headers = record {
  enosys = 38;
  eagain = 11;
  ewouldblock = 11;
  pf_inet = 2;
  dont_wait = λ f. f / 64 % 2 == 1;
  non_block = λ f. f / 2048 % 2 == 1;
}

abbrev mac : MacAddress
mac = record { part1 = 82; part2 = 84; part3 = 0; part4 = 18; part5 = 52; part6 = 86 }

-- The port 1337 in the order of the network.
abbrev to : SockaddrIn
to = record { sin_family = 2; sin_port = 14597; sin_addr = ipv4 192 168 1 254 }

named : destination headers (some to) 16 ≡ some to
unfolding destination
named = refl

abbrev payload : Bytes
payload i = i + 65

recv_msg-send_msg_example :
    (frame : Bytes) × (size : ℕ) × (m : Bytes) × (u' : Udp) × ((send_msg headers
        (some mac)
        (some to)
        16
        payload
        2
        empty_socket).frame
      ≡ some (frame, size))
    × (handle_frame frame size ≡ to_udp m)
    × (receive_udp 2 1 m udp scheduler ≡ done (u', scheduler))
    × ((recv_msg headers true 0 2 (u'.sockets 40)).0
        ≡ message 2
            (some (record { sin_family = 2; sin_port = bswap16 1337; sin_addr = ipv4 0 0 0 0 }))
            (bytes_from payload 0 2))
recv_msg-send_msg_example =
    recv_msg-send_msg headers mac (some to) 16 to payload 2 0 empty_socket 2 1 udp scheduler
      scheduler cells named (omega arith) (omega arith) list-Chain (omega arith) woken (omega arith)
      socket-Holds

abbrev protocol : ℕ
protocol = 17

handle_frame-send_ipv4_example :
    (frame : Bytes) × (size : ℕ) × (packet : Bytes) × (send_ipv4
        (some mac)
        payload
        2
        17
        (ipv4 0 0 0 0)
        (ipv4 10 0 2 2)
      ≡ some (frame, size))
    × (protocol ≡ 1 → handle_frame frame size ≡ to_icmp packet)
    × (protocol ≡ 17 → handle_frame frame size ≡ to_udp packet)
    × (protocol ≢ 1 → protocol ≢ 17 → handle_frame frame size ≡ dropped)
    × (address_at packet 12 ≡ ipv4 0 0 0 0)
    × ((i : ℕ) → packet (20 + i) ≡ payload i)
handle_frame-send_ipv4_example =
    handle_frame-send_ipv4 mac payload 2 protocol (ipv4 0 0 0 0) (ipv4 10 0 2 2) (omega arith)
      (omega arith)

abbrev icmp : Icmp
icmp = record {
  list = list;
  sockets = λ a. record { port = 0; packets = record { items = λ i. 0; head = 0; tail = 0 } };
}

-- An echo reply of eight bytes at address 100.
abbrev reply : Bytes
reply a = if a == 103 then 28 else 0

receive_icmp_lem_example :
    (r : ℕ → IcmpSocket) × (receive_icmp 2 1 reply 100 icmp scheduler
      ≡ done (record icmp { sockets = r }, scheduler))
    × ((x : ℕ) → r x ≡ after_write cells (100 + 20) icmp.sockets x)
receive_icmp_lem_example =
    receive_icmp_lem 2 1 reply 100 icmp scheduler scheduler cells list-Chain (refl, tt)
      (omega arith) woken (omega arith) (omega arith) refl refl

abbrev net : Net
net = record {
  udp = udp;
  icmp = icmp;
  ids = λ s. 3;
  task = record { handles = list; socket_handles = list; next_id = 4 };
}

abbrev buffers : List Iovec
buffers = record { iov_base = 200; iov_len = 2 } ∷ record { iov_base = 300; iov_len = 5 } ∷ []

sys_send_msg_lem_example :
    (sockets' : ℕ → UdpSocket) × (sys_send_msg
        (udp_handle headers (some mac) (some to) 16 0)
        2
        3
        payload
        buffers
        udp.sockets
        net
      ≡ done (7, map (frame_of mac payload to) buffers, sockets'))
sys_send_msg_lem_example =
    sys_send_msg_lem headers mac (some to) 16 0 payload 2 3 to buffers udp.sockets net cells
      list-Chain (omega arith) (omega arith) named (omega arith)

-- The device stands two descriptors ahead, and the next one is done.
abbrev adapter : E1000
adapter = record {
  memory = λ a. 0;
  tx_descriptors = λ i. record { addr = 4096; length = 0; cmd = 0 };
  tx_tail = 0;
  tdt = 0;
  rx_descriptors = λ i. record { addr = 8192; length = 60; status = if i == 0 then 1 else 0 };
  rx_tail = 255;
  rdt = 255;
  cache = record { items = λ i. record { bytes = λ j. 0; length = 0 }; head = 0; tail = 0 };
}

handler_lem_example :
    (b : Bool) × (e' : E1000) × (handler 256 128 (λ k. 1) adapter ≡ done (b, e'))
    × Stops 1 e'
    × (e'.rx_descriptors ≡ adapter.rx_descriptors)
handler_lem_example = handler_lem 256 128 1 adapter (omega arith) (omega arith) (omega arith) refl
