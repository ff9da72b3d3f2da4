-- ===== src/Libc/Strings/Copy.antt =====
-- src/kernel/libc/string.cpp: what the copying functions leave in memory.
use umbra_os.Prelude.{
  ℕ, zero, suc, ◌+◌, ◌-◌, ◌%◌, ◌^◌, ◌≤◌, ◌≡◌, Bool, ltb, leb, if◌then◌else◌, ◌&&◌, arith, ◌⊎◌,
}
use umbra_os.Prelude.Maps.{update}
use umbra_os.Libc.Strings.{Bytes, copy_up, copy_down, set_up, memcpy, memset, memmove}

-- `a` is one of the `n` addresses from `start` on.
abbrev pub in_range : ℕ → ℕ → ℕ → Bool
in_range start n a = leb start a && ltb a (start + n)

-- Memory after the `n` bytes at `src` were read at once and written to `dest`.
abbrev pub copied : Bytes → ℕ → ℕ → ℕ → Bytes
copied m dest src n a = if in_range dest n a then m (src + (a - dest)) else m a

copy_up-eq :
    (m : Bytes) (dest src rounds i a : ℕ)
    → dest ≤ src ⊎ src + (i + rounds) ≤ dest
    → copy_up m dest src rounds i a
      ≡ (if in_range (dest + i) rounds a then m (src + (a - dest)) else m a)
unfolding copy_up
copy_up-eq m dest src zero i a h = ground arith
copy_up-eq m dest src (suc rounds) i a h =
    ground (arith, copy_up-eq (update m (dest + i) (m (src + i))) dest src rounds (i + 1) a)

copy_down-eq :
    (m : Bytes) (dest src i a : ℕ) → src ≤ dest → copy_down m dest src i a ≡ copied m dest src i a
unfolding copy_down
copy_down-eq m dest src zero a h = ground arith
copy_down-eq m dest src (suc i) a h =
    ground (arith, copy_down-eq (update m (dest + i) (m (src + i))) dest src i a)

-- `memmove` copies as if through a buffer, however source and destination overlap.
memmove_lem : (m : Bytes) (dest src n a : ℕ) → memmove m dest src n a ≡ copied m dest src n a
unfolding memmove
memmove_lem m dest src n a =
    ground (arith, copy_up-eq m dest src n 0 a, copy_down-eq m dest src n a, same)
  where
    same : dest ≡ src → m a ≡ copied m dest src n a
    same e = ground (arith, e)

-- When the destination begins at or before the source, or behind its end, `memcpy` copies as if
-- through a buffer.
pub memcpy_lem :
    (m : Bytes) (dest src n a : ℕ)
    → dest ≤ src ⊎ src + n ≤ dest
    → memcpy m dest src n a ≡ copied m dest src n a
unfolding memcpy
memcpy_lem m dest src n a h = ground (arith, copy_up-eq m dest src n 0 a)

set_up-eq :
    (m : Bytes) (s c rounds i a : ℕ)
    → set_up m s c rounds i a ≡ (if in_range (s + i) rounds a then c % 2 ^ 8 else m a)
unfolding set_up
set_up-eq m s c zero i a = ground arith
set_up-eq m s c (suc rounds) i a =
    ground (arith, set_up-eq (update m (s + i) (c % 2 ^ 8)) s c rounds (i + 1) a)

-- `memset` writes the low byte of its value to each of the `n` addresses and to no other.
pub memset_lem :
    (m : Bytes) (s c n a : ℕ) → memset m s c n a ≡ (if in_range s n a then c % 2 ^ 8 else m a)
unfolding memset
memset_lem m s c n a = ground (arith, set_up-eq m s c n 0 a)
