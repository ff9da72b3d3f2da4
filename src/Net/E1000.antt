-- ===== src/Net/E1000.antt =====
-- src/kernel/drivers/e1000.cpp: the rings of the network adapter, between the driver and the device. The driver
-- reads `RDH_REGISTER`, which the device moves, and moves `RDT_REGISTER` and `TDT_REGISTER`.
pub mod Drain
pub mod Start
use umbra_os.Prelude.{
  ℕ, zero, suc, ◌+◌, ◌-◌, ◌/◌, ◌%◌, ◌^◌, Bool, true, false, ◌==◌, leb, if◌then◌else◌, Outcome, done,
  out_of_fuel,
}
use umbra_os.Prelude.Maps.{update}
use umbra_os.Utils.RingBuffer
use umbra_os.Utils.RingBuffer.{Ringbuffer}
use umbra_os.Libc.Strings.{Bytes, memcpy}
use umbra_os.Net.Ipv4.{MacAddress}

pub record TxDescriptor : Type 0 where
  pub addr : ℕ
  pub length : ℕ
  pub cmd : ℕ

pub record RxDescriptor : Type 0 where
  pub addr : ℕ
  pub length : ℕ
  pub status : ℕ

-- A `Socket::Packet`: its data and its length.
pub record Packet : Type 0 where
  pub bytes : Bytes
  pub length : ℕ

-- `rdt` and `tdt` are the registers. The addresses of descriptors are those at which the kernel sees the memory.
pub record E1000 : Type 0 where
  pub memory : Bytes
  pub tx_descriptors : ℕ → TxDescriptor
  pub tx_tail : ℕ
  pub tdt : ℕ
  pub rx_descriptors : ℕ → RxDescriptor
  pub rx_tail : ℕ
  pub rdt : ℕ
  pub cache : Ringbuffer Packet

abbrev pub num_rx_descs : ℕ
num_rx_descs = 256

abbrev pub num_tx_descs : ℕ
num_tx_descs = 256

abbrev pub max_ethernet_frame_size : ℕ
max_ethernet_frame_size = 1518

abbrev pub cache_size : ℕ
cache_size = 64

abbrev pub received : E1000 → RxDescriptor → E1000
received e desc =
    let packet : Packet = record { bytes = λ i. e.memory (desc.addr + i); length = desc.length } in
    record e { cache = RingBuffer.write cache_size e.cache packet }

-- The body of the loop for a descriptor that is done; the flag says whether `wake_net` is called. The status
-- is reset in a copy of the descriptor.
abbrev pub taken : RxDescriptor → E1000 → E1000
taken desc e = if leb desc.length max_ethernet_frame_size then received e desc else e

-- The loop of `handler`; `rdh k` is what `RDH_REGISTER` reads in round `k`.
unfoldable pub drain : ℕ → (ℕ → ℕ) → ℕ → Bool → E1000 → Outcome (Bool × E1000)
drain zero rdh k woke e = out_of_fuel
drain (suc fuel) rdh k woke e =
    let tail = (e.rdt + 1) % num_rx_descs in
    let desc = e.rx_descriptors tail in
    let e' = record e { rx_tail = tail } in
    let on =
      drain fuel rdh (k + 1) (if leb desc.length max_ethernet_frame_size then true else woke)
        (record (taken desc e') { rdt = tail }) in
    if e.rdt == rdh k
    then done (woke, record e { rx_tail = e.rdt })
    else if desc.status % 2 == 0
    then done (woke, e')
    else on

-- `handler`, for the status that `ICR_REGISTER` reads.
unfoldable pub handler : ℕ → ℕ → (ℕ → ℕ) → E1000 → Outcome (Bool × E1000)
handler fuel status rdh e =
    let drained = drain fuel rdh 0 false e in
    if status / 2 ^ 7 % 2 == 0 then done (false, e) else drained

-- `TDESC_CMD_EOP | TDESC_CMD_IFCS | TDESC_CMD_RS`.
abbrev pub command : ℕ
command = 1 + 2 + 8

-- `send` for the data at an address. Interrupts are off meanwhile.
unfoldable pub send : ℕ → ℕ → E1000 → E1000
send bytes len e =
    let desc = e.tx_descriptors e.tx_tail in
    let tail = (e.tx_tail + 1) % num_tx_descs in
    record e {
      memory = memcpy e.memory desc.addr bytes len;
      tx_descriptors =
          update e.tx_descriptors e.tx_tail (record desc { length = len % 2 ^ 16; cmd = command });
      tx_tail = tail;
      tdt = tail;
    }

-- The words of `read_eeprom` in the order of `init`, as the address of the adapter.
abbrev low : ℕ → ℕ
low w = w % 2 ^ 8

abbrev high : ℕ → ℕ
high w = w % 2 ^ 16 / 2 ^ 8

unfoldable pub mac_address : (ℕ → ℕ) → MacAddress
mac_address word = record {
  part1 = low (word 0);
  part2 = high (word 0);
  part3 = low (word 1);
  part4 = high (word 1);
  part5 = low (word 2);
  part6 = high (word 2);
}
