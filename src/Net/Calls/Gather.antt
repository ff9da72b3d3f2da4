-- ===== src/Net/Calls/Gather.antt =====
-- src/kernel/syscalls/socket.cpp: a message of several buffers on a datagram socket.
use umbra_os.Prelude.{
  length, ℕ, ◌+◌, ◌%◌, ◌^◌, ◌<◌, ◌≡◌, ◌≢◌, refl, ◌∙◌, List, [], ◌∷◌, arith, true, false, done,
  ==_of_ne, Option, none, some, map,
}
use umbra_os.Prelude.Maps.{update}
use umbra_os.Libc.Strings.{Bytes}
use umbra_os.Utils.LinkedList.Chain.{Chain}
use umbra_os.Fs.Handles.{get_socket_handle}
use umbra_os.Fs.Handles.Lookup.{first_with, handle_from-eq}
use umbra_os.Net.Ipv4.{
  place, ipv4, ipv4_packet, MacAddress, frame_header, frame_size, header_size, send_ipv4,
  udp_protocol,
}
use umbra_os.Net.Message.{Headers, negative, is_negative, SockaddrIn, destination}
use umbra_os.Net.Udp.{UdpSocket, datagram, sender_port, udp_header_size, send_msg}
use umbra_os.Net.Calls.{Iovec, Net, udp_handle, send_all, sys_send_msg}

abbrev pub total : List Iovec → ℕ
total [] = 0
total (v ∷ vs) = v.iov_len + total vs

-- The frame of one buffer.
abbrev pub frame_of : MacAddress → Bytes → SockaddrIn → Iovec → Bytes × ℕ
frame_of mac m to v =
    let payload : Bytes = λ i. m (v.iov_base + i) in
    (
      place (frame_header mac) (
          ipv4_packet (datagram sender_port to.sin_port payload v.iov_len)
            (udp_header_size + v.iov_len) udp_protocol (ipv4 0 0 0 0) (ipv4 192 168 1 254)),
      frame_size + header_size + (udp_header_size + v.iov_len),
    )

module _ (c : Headers) (mac : MacAddress) (name : Option SockaddrIn) (namelen flags : ℕ)
    (m : Bytes) where
  sent_once :
      (to : SockaddrIn) (v : Iovec) (s : UdpSocket)
      → destination c name namelen ≡ some to
      → send_msg c (some mac) name namelen (λ i. m (v.iov_base + i)) v.iov_len s ≡ record {
        result = v.iov_len % 2 ^ 32;
        frame = some (frame_of mac m to v);
        socket = record s { port = sender_port };
      }
  unfolding send_msg send_ipv4
  sent_once to v s named = rw (named, send_msg) refl

  all_sent :
      (to : SockaddrIn) (vs : List Iovec) (sent : ℕ) (s : UdpSocket)
      → destination c name namelen ≡ some to
      → sent + total vs < 2 ^ 31
      → let (result, frames, s') =
          send_all (udp_handle c (some mac) name namelen flags) m vs sent s in
        (result ≡ sent + total vs) × (frames ≡ map (frame_of mac m to) vs)
  unfolding send_all
  all_sent to [] sent s named h = (omega arith, refl)
  all_sent to (v ∷ vs) sent s named h =
      let whole : v.iov_len % 2 ^ 32 ≡ v.iov_len = omega (arith, h) in
      let sum : (sent + v.iov_len) % 2 ^ 32 ≡ sent + v.iov_len = omega (arith, h) in
      let positive : is_negative v.iov_len ≡ false = ground (arith, h) in
      let (e, same) =
        all_sent to vs (sent + v.iov_len) (record s { port = sender_port }) named
          (omega (arith, h)) in
      rw (sent_once to v s named, whole, positive, sum, same) (omega (arith, e), refl)

  -- When the ids of the task's sockets lead to a socket, the message has a destination, there is a
  -- driver and the buffers have fewer than 2 ^ 31 bytes together, `sys_send_msg` on a UDP socket
  -- returns the sum of the lengths, and sends one frame for each buffer, in order, each a datagram
  -- with that buffer's bytes.
  pub sys_send_msg_lem :
      (steps sockfd : ℕ) (to : SockaddrIn) (vs : List Iovec) (sockets : ℕ → UdpSocket) (n : Net)
      (cells : List (ℕ × ℕ))
      → Chain n.task.socket_handles.nodes n.task.socket_handles.head cells
      → length cells < steps
      → first_with n.ids sockfd cells ≢ 0
      → destination c name namelen ≡ some to
      → total vs < 2 ^ 31
      → (sockets' : ℕ → UdpSocket) × (sys_send_msg
            (udp_handle c (some mac) name namelen flags)
            steps
            sockfd
            m
            vs
            sockets
            n
          ≡ done (total vs, map (frame_of mac m to) vs, sockets'))
  unfolding sys_send_msg get_socket_handle
  sys_send_msg_lem steps sockfd to vs sockets n cells chain enough found named h =
      let walk =
        handle_from-eq steps n.ids sockfd n.task.socket_handles.nodes n.task.socket_handles.head
          cells enough chain in
      let socket = first_with n.ids sockfd cells in
      let (e, same) = all_sent to vs 0 (sockets socket) named (omega (arith, h)) in
      let sent = send_all (udp_handle c (some mac) name namelen flags) m vs 0 (sockets socket) in
      let sum : sent.0 ≡ total vs = e ∙ omega arith in
      (update sockets socket sent.2, rw (walk, ==_of_ne socket 0 found, sum, same) refl)

  -- A message without a destination on a UDP socket that the walk finds is answered with `ENOSYS`
  -- at its first buffer, and sends no frame.
  pub sys_send_msg_unnamed :
      (steps sockfd : ℕ) (v : Iovec) (vs : List Iovec) (sockets : ℕ → UdpSocket) (n : Net)
      (cells : List (ℕ × ℕ))
      → Chain n.task.socket_handles.nodes n.task.socket_handles.head cells
      → length cells < steps
      → first_with n.ids sockfd cells ≢ 0
      → destination c name namelen ≡ none
      → 0 < c.enosys
      → c.enosys < 2 ^ 31
      → let socket = first_with n.ids sockfd cells in
        sys_send_msg (udp_handle c (some mac) name namelen flags) steps sockfd m (v ∷ vs) sockets n
        ≡ done (negative c.enosys, [], update sockets socket (sockets socket))
  unfolding sys_send_msg get_socket_handle send_all send_msg
  sys_send_msg_unnamed steps sockfd v vs sockets n cells chain enough found named low high =
      let walk =
        handle_from-eq steps n.ids sockfd n.task.socket_handles.nodes n.task.socket_handles.head
          cells enough chain in
      let error : is_negative (negative c.enosys) ≡ true = ground (arith, low, high) in
      rw (walk, ==_of_ne (first_with n.ids sockfd cells) 0 found, named, send_msg, error) refl
