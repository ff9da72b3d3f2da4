-- ===== src/Utils/Bitmap.antt =====
-- src/kernel/utils/bitmap.hpp and bitmap.cpp: one bit for each page, eight to a byte.
pub mod Laws
use Prim.Native.Nat.{bit_and, bit_or}
use umbra_os.Prelude.{ℕ, ◌-◌, ◌/◌, ◌%◌, ◌^◌, Bool, true, false, ◌==◌}
use umbra_os.Prelude.Maps.{update}

-- `bytes i` is the byte at `data + i`. The code checks no index against `size`, so the map goes on
-- beyond it, where it holds what lies in memory there.
pub record Bitmap : Type 0 where
  pub bytes : ℕ → ℕ
  pub size : ℕ

-- `byte |= 1 << k` and `byte &= ~(1 << k)`: computed at `int`, stored into a byte.
pub set_bit : ℕ → ℕ → Bool → ℕ
set_bit byte k true = bit_or byte (2 ^ k) % 2 ^ 8
set_bit byte k false = bit_and byte (2 ^ 32 - 1 - 2 ^ k) % 2 ^ 8

-- `(byte >> k) & 1`.
unfoldable pub get_bit : ℕ → ℕ → Bool
get_bit byte k = bit_and (byte / 2 ^ k) 1 == 1

unfoldable pub set : Bitmap → ℕ → Bool → Bitmap
set b page_idx value =
    let byte_index = page_idx / 8 in
    let bit_index = page_idx % 8 in
    record b { bytes = update b.bytes byte_index (set_bit (b.bytes byte_index) bit_index value) }

unfoldable pub get : Bitmap → ℕ → Bool
get b page_idx = get_bit (b.bytes (page_idx / 8)) (page_idx % 8)
