-- ===== src/Net/Message.antt =====
-- src/kernel/net/socket.hpp: what the messages of sockets of every kind share. Results are 32-bit words.
use umbra_os.Prelude.{
  ℕ, zero, suc, ◌+◌, ◌-◌, ◌%◌, ◌^◌, ◌≡◌, ◌<◌, refl, sym, ◌∙◌, Bool, List, [], ◌∷◌, Option, none,
  some, ◌==◌, leb, if◌then◌else◌, arith, ap,
}
use umbra_os.Prelude.Maps.{update, update_ne}
use umbra_os.Libc.Strings.{Bytes}
use umbra_os.Net.Checksum.{get_checksum}
use umbra_os.Net.Ipv4.{place, words_at, Ipv4Address, ipv4_header, ipv4_packet, cleared}
use umbra_os.Net.Ipv4.Loop.{place_after}

-- The error numbers of <errno.h>, the number of PF_INET, and the tests of a message's flags on the
-- bits of <sys/socket.h> and <fcntl.h>.
pub record Headers : Type 0 where
  pub enosys : ℕ
  pub eagain : ℕ
  pub ewouldblock : ℕ
  pub pf_inet : ℕ
  pub dont_wait : ℕ → Bool
  pub non_block : ℕ → Bool

-- The negative of a number, and the number 0 at least in the same word.
abbrev pub negative : ℕ → ℕ
negative n = (2 ^ 32 - n) % 2 ^ 32

abbrev pub is_negative : ℕ → Bool
is_negative w = leb (2 ^ 31) w

-- `sockaddr_in`: the port is in the order of the network.
pub record SockaddrIn : Type 0 where
  pub sin_family : ℕ
  pub sin_port : ℕ
  pub sin_addr : Ipv4Address

-- The address that a message is sent to: none when there is no name, or it has no length, or it is of
-- another family.
unfoldable pub destination : Headers → Option SockaddrIn → ℕ → Option SockaddrIn
destination c none namelen = none
destination c (some to) namelen =
    if namelen == 0 then none else if to.sin_family == c.pf_inet then some to else none

-- The `n` bytes from `i` on.
abbrev pub bytes_from : Bytes → ℕ → ℕ → List ℕ
bytes_from m i zero = []
bytes_from m i (suc n) = m i ∷ bytes_from m (i + 1) n

pub bytes_from-eq :
    (f g : Bytes) (i j n : ℕ)
    → ((k : ℕ) → k < n → f (i + k) ≡ g (j + k))
    → bytes_from f i n ≡ bytes_from g j n
bytes_from-eq f g i j zero h = refl
bytes_from-eq f g i j (suc n) h =
    let at_zero : (a : ℕ) → a + 0 ≡ a = λ a. omega arith in
    let onward : (a k : ℕ) → a + (k + 1) ≡ a + 1 + k = λ a k. omega arith in
    let first : f i ≡ g j = ap f (sym (at_zero i)) ∙ h 0 (omega arith) ∙ ap g (at_zero j) in
    let rest =
      bytes_from-eq f g (i + 1) (j + 1) n
        (λ k l. ap f (sym (onward i k)) ∙ h (k + 1) (omega (arith, l)) ∙ ap g (onward j k)) in
    rw (first, rest) refl

module _ (payload : Bytes) (len protocol : ℕ) (src dst : Ipv4Address) where
  -- What stands behind the header of a packet whose checksum is cleared.
  pub behind_header :
      (i : ℕ) → cleared (ipv4_packet payload len protocol src dst) (20 + i) ≡ payload i
  unfolding ipv4_packet
  behind_header i =
      let blank = place (ipv4_header len protocol src dst 0) payload in
      let header = ipv4_header len protocol src dst (get_checksum (words_at blank 0 10)) in
      let packet = ipv4_packet payload len protocol src dst in
      update_ne (update packet 10 0) 11 (20 + i) 0 (omega arith)
      ∙ update_ne packet 10 (20 + i) 0 (omega arith)
      ∙ place_after header payload i
