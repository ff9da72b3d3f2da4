-- ===== src/Net/Calls.antt =====
-- src/kernel/syscalls/socket.cpp: the system calls on sockets. An `int` is a 32-bit word.

pub mod Gather
use umbra_os.Prelude.{
  Bool, true, false, ℕ, zero, suc, ◌+◌, ◌%◌, ◌^◌, Option, none, some, List, [], ◌∷◌, ◌++◌, ◌==◌,
  if◌then◌else◌, ◌||◌, Outcome, done, ◌>>=◌,
}
use umbra_os.Prelude.Maps.{update}
use umbra_os.Libc.Strings.{Bytes}
use umbra_os.Fs.Handles.{Task, no_id, add_socket_handle, get_socket_handle}
use umbra_os.Utils.RingBuffer
use umbra_os.Net.Ipv4.{Ipv4Address, MacAddress, icmp_protocol, udp_protocol}
use umbra_os.Net.Message.{Headers, negative, is_negative, SockaddrIn}
use umbra_os.Net.Udp
use umbra_os.Net.Udp.{Udp, UdpSocket, UdpPacket}
use umbra_os.Net.Icmp
use umbra_os.Net.Icmp.{Icmp, IcmpSocket}

-- The numbers of <sys/socket.h> that `sys_socket` compares with.
pub record Families : Type 0 where
  pub af_unix : ℕ
  pub af_inet : ℕ
  pub sock_stream : ℕ
  pub sock_dgram : ℕ
  pub sock_raw : ℕ

pub data Kind : Type 0 where
  udp icmp : Kind

-- The switches: the kind of socket that is made, if any.
unfoldable pub kind_of : Families → ℕ → ℕ → ℕ → Option Kind
kind_of f family type protocol =
    if family == f.af_unix
    then none
    else if family == f.af_inet
    then (if type == f.sock_stream
        then none
        else if type == f.sock_dgram
        then (if protocol == 0 || protocol == udp_protocol then some udp else none)
        else if type == f.sock_raw
        then (if protocol == icmp_protocol then some icmp else none)
        else none)
    else none

-- The sockets of both kinds, the ids of all sockets, and the current task.
pub record Net : Type 0 where
  pub udp : Udp
  pub icmp : Icmp
  pub ids : ℕ → ℕ
  pub task : Task

abbrev with_handle : ℕ → ℕ → Net → ℕ × Net
with_handle node socket n =
    let (id, ids, task) = add_socket_handle node socket (update n.ids socket no_id) n.task in
    (id, record n { ids = ids; task = task })

-- `socket` is the address of the new socket, `first` and `second` those of the two lists' new nodes.
-- A new socket's port is not set, and neither are the cells of its ring.
unfoldable pub sys_socket :
    Headers → Families → ℕ → ℕ → ℕ → UdpSocket → IcmpSocket → ℕ → ℕ → ℕ → Net → ℕ × Net
sys_socket c f family type protocol new_udp new_icmp socket first second n =
    elim (kind_of f family type protocol) [
      | none ↦ (negative c.enosys, n)
      | some udp ↦
          let made = record (n.udp) { sockets = update n.udp.sockets socket new_udp } in
          with_handle second socket (record n { udp = Udp.add_socket first socket made })
      | some icmp ↦
          let made = record (n.icmp) { sockets = update n.icmp.sockets socket new_icmp } in
          with_handle second socket (record n { icmp = Icmp.add_socket first socket made })
    ]

-- What a socket's `recv_msg` answers: a word and what is written to the name and the buffer, or that it
-- blocks.
pub data Answer : Type 0 where
  waits : Answer
  answers : ℕ → Option SockaddrIn → List ℕ → Answer

-- The class `Handle`: its two methods at a message's header and flags, on a socket of type `S`. The
-- first takes a buffer and gives the word, the frame that is sent, and the socket.
pub record Handle (S : Type 0) : Type 0 where
  pub send_msg : Bytes → ℕ → S → ℕ × Option (Bytes × ℕ) × S
  pub recv_msg : ℕ → S → Answer × S

module _ (c : Headers) (mac : Option MacAddress) (name : Option SockaddrIn)
    (namelen flags : ℕ) where
  -- Whether `msg_name` is not null.
  abbrev named : Bool
  named = elim name [ none ↦ false | some n ↦ true ]

  abbrev udp_answer : Udp.Received → Answer
  udp_answer (Udp.returned w) = answers w none []
  udp_answer Udp.blocked = waits
  udp_answer (Udp.message w from bytes) = answers w from bytes

  abbrev pub udp_handle : Handle UdpSocket
  udp_handle = record {
    send_msg = λ payload len s.
        let r = Udp.send_msg c mac name namelen payload len s in (r.result, r.frame, r.socket);
    recv_msg = λ len s. let (r, s') = Udp.recv_msg c named flags len s in (udp_answer r, s');
  }

  abbrev icmp_answer : Icmp.Received → Answer
  icmp_answer (Icmp.returned w) = answers w none []
  icmp_answer Icmp.blocked = waits
  icmp_answer (Icmp.message w bytes) = answers w none bytes

  abbrev pub icmp_handle : Bytes → Handle IcmpSocket
  icmp_handle m = record {
    send_msg = λ payload len s.
        let r = Icmp.send_msg c mac name namelen payload len s in (r.result, r.frame, r.socket);
    recv_msg = λ len s. let (r, s') = Icmp.recv_msg c m flags len s in (icmp_answer r, s');
  }

-- `struct iovec`.
pub record Iovec : Type 0 where
  pub iov_base : ℕ
  pub iov_len : ℕ

abbrev pub frame_list : Option (Bytes × ℕ) → List (Bytes × ℕ)
frame_list none = []
frame_list (some f) = f ∷ []

module _ {S : Type 0} (h : Handle S) where
  -- The loop of `sys_send_msg`: the result, the frames in order, and the socket.
  unfoldable pub send_all : Bytes → List Iovec → ℕ → S → ℕ × List (Bytes × ℕ) × S
  send_all m [] sent s = (sent, [], s)
  send_all m (v ∷ vs) sent s =
      let (res, frame, s') = h.send_msg (λ i. m (v.iov_base + i)) v.iov_len s in
      let (result, frames, s'') = send_all m vs ((sent + res) % 2 ^ 32) s' in
      if is_negative res
      then (res, frame_list frame, s')
      else (result, frame_list frame ++ frames, s'')

  -- The loop of `sys_recv_msg`. When the socket blocks, the loop stands at that buffer, with the sum so
  -- far, and goes on from there.
  pub data Progress : Type 0 where
    finished : ℕ → Progress
    stands : List Iovec → ℕ → Progress

  -- With what is written to each buffer.
  unfoldable pub recv_all :
      List Iovec → ℕ → S → Progress × List (Iovec × Option SockaddrIn × List ℕ) × S
  recv_all [] read s = (finished read, [], s)
  recv_all (v ∷ vs) read s =
      let (answer, s') = h.recv_msg v.iov_len s in
      elim answer [
        | waits ↦ (stands (v ∷ vs) read, [], s')
        | answers res from bytes ↦
            let (end, written, s'') = recv_all vs ((read + res) % 2 ^ 32) s' in
            if is_negative res
            then (finished res, [], s')
            else (end, (v, from, bytes) ∷ written, s'')
      ]

-- `sys_send_msg` to a socket at an address, with the methods of its kind.
unfoldable pub sys_send_msg :
    {S : Type 0}
    → Handle S
    → ℕ
    → ℕ
    → Bytes
    → List Iovec
    → (ℕ → S)
    → Net
    → Outcome (ℕ × List (Bytes × ℕ) × (ℕ → S))
sys_send_msg h steps sockfd m iov sockets n = do
  socket ← get_socket_handle steps n.ids sockfd n.task
  let (result, frames, s) = send_all h m iov 0 (sockets socket)
  done
      (if socket == 0 then (negative 1, [], sockets) else (result, frames, update sockets socket s))

-- `sys_recv_msg`, likewise.
unfoldable pub sys_recv_msg :
    {S : Type 0} (h : Handle S)
    → ℕ
    → ℕ
    → List Iovec
    → (ℕ → S)
    → Net
    → Outcome (Progress h × List (Iovec × Option SockaddrIn × List ℕ) × (ℕ → S))
sys_recv_msg h steps sockfd iov sockets n = do
  socket ← get_socket_handle steps n.ids sockfd n.task
  let (end, written, s) = recv_all h iov 0 (sockets socket)
  done (
      if socket == 0
      then (finished (negative 1), [], sockets)
      else (end, written, update sockets socket s))
