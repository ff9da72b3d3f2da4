-- ===== src/Devices/Apic.antt =====
-- src/kernel/apic.cpp and apic.hpp: the interrupt controllers. The registers of the local controller and of the one
-- for devices hold words of 32 bits; writes to ports are kept in their order, the last one first.
pub mod Redirect
use umbra_os.Prelude.{ℕ, ◌+◌, ◌-◌, ◌*◌, ◌/◌, ◌%◌, ◌^◌, List, [], ◌∷◌, Bool, true, false}
use Prim.Native.Nat.{bit_or}
use umbra_os.Prelude.Maps.{update}
use umbra_os.Memory.Pmm.{phys_to_virt}

pub record Controllers : Type 0 where
  pub local : ℕ → ℕ
  pub io : ℕ → ℕ
  pub ports : List (ℕ × ℕ)
  pub apic_base_addr : ℕ
  pub io_base_addr : ℕ
  pub interrupts : Bool

abbrev pub out_port : ℕ → ℕ → Controllers → Controllers
out_port port value s = record s { ports = (port, value % 2 ^ 8) ∷ s.ports }

-- `PIC_COMMAND_MASTER`, `PIC_COMMAND_SLAVE`, `PIC_DATA_MASTER` and `PIC_DATA_SLAVE`.
unfoldable pub disable_pic : Controllers → Controllers
disable_pic s = record s {
  ports =
      (0xa1, 0xff)
      ∷ (0x21, 0xff)
      ∷ (0xa1, 0x01)
      ∷ (0x21, 0x01)
      ∷ (0xa1, 0x04)
      ∷ (0x21, 0x02)
      ∷ (0xa1, 0x28)
      ∷ (0x21, 0x20)
      ∷ (0xa0, 0x11)
      ∷ (0x20, 0x11)
      ∷ s.ports;
}

-- `Local::Register`.
abbrev pub siv : ℕ
siv = 0xf0

abbrev pub eoi : ℕ
eoi = 0xb0

abbrev pub timer_lvt : ℕ
timer_lvt = 0x320

abbrev pub timer_init_count : ℕ
timer_init_count = 0x380

abbrev pub timer_count : ℕ
timer_count = 0x390

abbrev pub timer_divisor : ℕ
timer_divisor = 0x3e0

unfoldable pub read_reg : ℕ → Controllers → ℕ
read_reg reg s = s.local reg

unfoldable pub write_reg : ℕ → ℕ → Controllers → Controllers
write_reg reg value s = record s { local = update s.local reg (value % 2 ^ 32) }

-- `Local::init`, for what the model-specific register of the base reads.
unfoldable pub local_init : ℕ → ℕ → Controllers → Controllers
local_init hhdm msr s =
    let based = record s { apic_base_addr = phys_to_virt hhdm (msr % 2 ^ 32 / 2 ^ 12 * 2 ^ 12) } in
    write_reg siv (bit_or (bit_or (read_reg siv based) (2 ^ 8)) 255) based

-- `RedirectEntry`: the fields that are set, and what stands between and above them.
pub record RedirectEntry : Type 0 where
  pub vect : ℕ
  pub modes : ℕ
  pub interrupt_mask : ℕ
  pub rest : ℕ

abbrev pub entry_of : ℕ → RedirectEntry
entry_of raw = record {
  vect = raw % 2 ^ 8;
  modes = raw / 2 ^ 8 % 2 ^ 8;
  interrupt_mask = raw / 2 ^ 16 % 2;
  rest = raw / 2 ^ 17;
}

abbrev pub raw_of : RedirectEntry → ℕ
raw_of e = e.vect + e.modes * 2 ^ 8 + e.interrupt_mask * 2 ^ 16 + e.rest * 2 ^ 17

-- The two registers of a pin as one number.
abbrev pub pin_raw : ℕ → Controllers → ℕ
pin_raw offset s = s.io ((offset + 1) % 2 ^ 8) * 2 ^ 32 + s.io offset

-- `Io::read_reg` and `Io::write_reg` select a register by its offset.
unfoldable pub redirect_pin : ℕ → ℕ → ℕ → Controllers → Controllers
redirect_pin offset vect mask s =
    let entry = record (entry_of (pin_raw offset s)) { vect = vect; interrupt_mask = mask % 2 } in
    let lower = raw_of entry % 2 ^ 32 in
    let higher = raw_of entry / 2 ^ 32 % 2 ^ 32 in
    record s { io = update (update s.io offset lower) ((offset + 1) % 2 ^ 8) higher }

abbrev pub timer_vect : ℕ
timer_vect = 32

abbrev pub keyboard_vect : ℕ
keyboard_vect = 33

-- `PIT_FREQUENCY / 1000`.
abbrev pub divisor : ℕ
divisor = 1193182 / 1000 % 2 ^ 16

-- `PIT_CMD` gets `PIT_LOHI_ACCESS | PIT_MODE_2`, and `PIT_COUNTER_0` the divisor.
unfoldable pub io_init : ℕ → Controllers → Controllers
io_init hhdm s =
    let based = record s { io_base_addr = phys_to_virt hhdm 0xfec00000 } in
    let keys = redirect_pin 0x12 keyboard_vect 0 based in
    let counted =
      out_port 0x40 (divisor / 2 ^ 8)
        (out_port 0x40 divisor (out_port 0x43 (3 * 2 ^ 4 + 2 * 2) keys)) in
    let timer = redirect_pin 0x14 timer_vect 0 counted in
    record (write_reg timer_init_count (2 ^ 32 - 1) timer) { interrupts = true }

-- `Apic::init`.
unfoldable pub init : ℕ → ℕ → Controllers → Controllers
init hhdm msr s = io_init hhdm (local_init hhdm msr (disable_pic s))

-- `Timer::Lapic::stop` and `resume`, of src/kernel/timer.cpp.
unfoldable pub stop : Controllers → Controllers
stop s = write_reg timer_lvt (2 ^ 16) s

unfoldable pub resume : ℕ → Controllers → Controllers
resume calibrated s =
    write_reg timer_lvt (timer_vect + 2 ^ 17) (write_reg timer_init_count calibrated s)

-- The writes of `Timer::Pit::handler` once the calibration is done.
unfoldable pub calibrated : ℕ → Controllers → Controllers
calibrated ticks s =
    let masked = redirect_pin 0x14 timer_vect 1 s in
    write_reg timer_lvt (timer_vect + 2 ^ 17)
      (write_reg timer_divisor 0 (write_reg timer_init_count ticks masked))
