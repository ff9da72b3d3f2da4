-- ===== src/Kernel/Keyboard.antt =====
-- src/kernel/drivers/keyboard.cpp and keyboard.hpp, src/libs/core/keyboard.hpp: the keyboard
-- interrupt. A key code is its scan code, a character its ASCII number.
pub mod Machine
use Prim.Native.Nat.{bit_and, bit_or}
use umbra_os.Prelude.{
  ℕ, ◌+◌, ◌-◌, ◌*◌, ◌/◌, ◌%◌, ◌^◌, Bool, true, false, not, ◌||◌, Option, none, some, ◌==◌, leb,
  if◌then◌else◌, List, [], ◌∷◌,
}

pub record Key : Type 0 where
  pub key_code : ℕ
  pub ascii : ℕ
  pub uppercase_ascii : ℕ

pub record KeyboardEvent : Type 0 where
  pub key_code : ℕ
  pub ascii : ℕ
  pub pressed : Bool

abbrev pub key : ℕ → ℕ → ℕ → Key
key code ascii upper = record { key_code = code; ascii = ascii; uppercase_ascii = upper }

-- The table `KEYS`, in its order.
abbrev pub keys : List Key
keys =
    key 0x0 63 63
    ∷ key 0x1 63 63
    ∷ key 0x2 49 33
    ∷ key 0x3 50 64
    ∷ key 0x4 51 35
    ∷ key 0x5 52 36
    ∷ key 0x6 53 37
    ∷ key 0x7 54 94
    ∷ key 0x8 55 38
    ∷ key 0x9 56 42
    ∷ key 0xa 57 40
    ∷ key 0xb 48 41
    ∷ key 0xc 45 63
    ∷ key 0xd 61 63
    ∷ key 0xe 63 63
    ∷ key 0xf 63 63
    ∷ key 0x10 113 81
    ∷ key 0x11 119 87
    ∷ key 0x12 101 69
    ∷ key 0x13 114 82
    ∷ key 0x14 116 84
    ∷ key 0x15 121 89
    ∷ key 0x16 117 85
    ∷ key 0x17 105 73
    ∷ key 0x18 111 79
    ∷ key 0x19 112 80
    ∷ key 0x1a 91 63
    ∷ key 0x1b 93 63
    ∷ key 0x1c 10 10
    ∷ key 0x1d 63 63
    ∷ key 0x1e 97 65
    ∷ key 0x1f 115 83
    ∷ key 0x20 100 68
    ∷ key 0x21 102 70
    ∷ key 0x22 103 71
    ∷ key 0x23 104 72
    ∷ key 0x24 106 74
    ∷ key 0x25 107 75
    ∷ key 0x26 108 76
    ∷ key 0x27 59 63
    ∷ key 0x28 39 63
    ∷ key 0x29 96 63
    ∷ key 0x2a 63 63
    ∷ key 0x2b 92 63
    ∷ key 0x2c 122 90
    ∷ key 0x2d 120 88
    ∷ key 0x2e 99 67
    ∷ key 0x2f 118 86
    ∷ key 0x30 98 66
    ∷ key 0x31 110 78
    ∷ key 0x32 109 77
    ∷ key 0x33 44 63
    ∷ key 0x34 46 63
    ∷ key 0x35 47 63
    ∷ key 0x36 63 63
    ∷ key 0x37 42 63
    ∷ key 0x38 63 63
    ∷ key 0x39 32 32
    ∷ key 0x3a 63 63
    ∷ key 0x3b 63 63
    ∷ key 0x3c 63 63
    ∷ key 0x3d 63 63
    ∷ key 0x3e 63 63
    ∷ key 0x3f 63 63
    ∷ key 0x40 63 63
    ∷ key 0x41 63 63
    ∷ key 0x42 63 63
    ∷ key 0x43 63 63
    ∷ key 0x44 63 63
    ∷ key 0x45 63 63
    ∷ key 0x46 63 63
    ∷ key 0x47 55 55
    ∷ key 0x48 56 56
    ∷ key 0x49 57 57
    ∷ key 0x4a 45 45
    ∷ key 0x4b 52 52
    ∷ key 0x4c 53 53
    ∷ key 0x4d 54 54
    ∷ key 0x4e 43 43
    ∷ key 0x4f 49 49
    ∷ key 0x50 50 50
    ∷ key 0x51 51 51
    ∷ key 0x52 48 48
    ∷ key 0x53 46 46
    ∷ key 0x57 63 63
    ∷ key 0x58 63 63
    ∷ key 0x48 63 63
    ∷ key 0x50 63 63
    ∷ key 0x4b 63 63
    ∷ key 0x4d 63 63
    ∷ []

abbrev pub invalid : ℕ
invalid = 0x0

abbrev pub left_shift : ℕ
left_shift = 0x2a

abbrev pub caps_lock : ℕ
caps_lock = 0x3a

unfoldable pub find_key : ℕ → List Key → Key
find_key scancode [] = key 0 b'?' b'?'
find_key scancode (k ∷ ks) = if k.key_code == scancode then k else find_key scancode ks

unfoldable pub code_to_key : ℕ → Key
unfolding find_key
code_to_key scancode = find_key scancode keys

abbrev pub shift_mask : ℕ
shift_mask = 2

abbrev pub caps_lock_mask : ℕ
caps_lock_mask = 3

pub record Keyboard : Type 0 where
  pub buffer : ℕ
  pub position : ℕ
  pub modifiers_mask : ℕ

abbrev pub clear : Keyboard → Keyboard
clear k = record k { buffer = 0; position = 0 }

abbrev pub mask_bit : ℕ → ℕ → Bool
mask_bit mask n = bit_and (mask / 2 ^ n) 1 == 1

abbrev pub shift_pressed : Keyboard → Bool
shift_pressed k = mask_bit k.modifiers_mask shift_mask

abbrev pub caps_lock_on : Keyboard → Bool
caps_lock_on k = mask_bit k.modifiers_mask caps_lock_mask

abbrev pub uppercase : Keyboard → Bool
uppercase k = shift_pressed k || caps_lock_on k

-- `mask |= 1 << n` and `mask &= ~(1 << n)`, stored into a byte.
abbrev pub mask_set : ℕ → ℕ → ℕ
mask_set mask n = bit_or mask (2 ^ n) % 2 ^ 8

abbrev pub mask_clear : ℕ → ℕ → ℕ
mask_clear mask n = bit_and mask (2 ^ 32 - 1 - 2 ^ n) % 2 ^ 8

-- The handler puts the scan code behind those that were received before.
abbrev pub receive : Keyboard → ℕ → Keyboard
receive k scancode =
    let k' = if leb 4 k.position then clear k else k in
    record k' {
      buffer = bit_or (k'.buffer * 2 ^ 8 % 2 ^ 64) scancode;
      position = (k'.position + 1) % 2 ^ 8;
    }

-- The branch for a release: bit 7 of the scan code is set.
abbrev pub release : Keyboard → ℕ → Keyboard × Option KeyboardEvent
release k scancode =
    let found = code_to_key (bit_and scancode (2 ^ 32 - 1 - 2 ^ 7) % 2 ^ 8) in
    let mask =
      if found.key_code == left_shift
      then mask_clear k.modifiers_mask shift_mask
      else k.modifiers_mask in
    (
      clear (record k { modifiers_mask = mask }),
      some (record { key_code = found.key_code; ascii = 0; pressed = false }),
    )

abbrev pub press : Keyboard → Keyboard × Option KeyboardEvent
press k =
    let found = code_to_key k.buffer in
    let toggled =
      if caps_lock_on k
      then mask_clear k.modifiers_mask caps_lock_mask
      else mask_set k.modifiers_mask caps_lock_mask in
    let ascii = if not (uppercase k) then found.ascii else found.uppercase_ascii in
    if found.key_code == invalid
    then (clear k, none)
    else if found.key_code == left_shift
    then (clear (record k { modifiers_mask = mask_set k.modifiers_mask shift_mask }), none)
    else if found.key_code == caps_lock
    then (clear (record k { modifiers_mask = toggled }), none)
    else (clear k, some (record { key_code = found.key_code; ascii = ascii; pressed = true }))

-- `handler` on the scan code that the port gives. The event is what `Scheduler::wake_io` is called
-- with, if it is.
unfoldable pub handler : Keyboard → ℕ → Keyboard × Option KeyboardEvent
unfolding code_to_key
handler k scancode =
    let k' = receive k scancode in
    if bit_and (scancode / 2 ^ 7) 1 == 1 then release k' scancode else press k'
