-- ===== src/Libc/Strings.antt =====
-- src/kernel/libc/string.cpp. Memory maps an address to a byte; a pointer is an address. A loop up to
-- a NUL takes fuel, and ends as `out_of_fuel` if it meets none within it.
pub mod Copy
pub mod Terminated
pub mod Compare
use umbra_os.Prelude.{
  ℕ, zero, suc, ◌+◌, ◌-◌, ◌%◌, ◌^◌, Bool, true, false, ◌==◌, ltb, if◌then◌else◌, Outcome, done,
  fault, out_of_fuel, ◌>>=◌, ◌||◌, not,
}
use umbra_os.Prelude.Maps.{update}

abbrev pub Bytes : Type 0
Bytes = ℕ → ℕ

-- `for (i = 0; i < n; i++) pdest[i] = psrc[i]`, with `rounds` left from `i` on.
unfoldable pub copy_up : Bytes → ℕ → ℕ → ℕ → ℕ → Bytes
copy_up m dest src zero i = m
copy_up m dest src (suc rounds) i =
    copy_up (update m (dest + i) (m (src + i))) dest src rounds (i + 1)

unfoldable pub memcpy : Bytes → ℕ → ℕ → ℕ → Bytes
memcpy m dest src n = copy_up m dest src n 0

unfoldable pub set_up : Bytes → ℕ → ℕ → ℕ → ℕ → Bytes
set_up m s c zero i = m
set_up m s c (suc rounds) i = set_up (update m (s + i) (c % 2 ^ 8)) s c rounds (i + 1)

unfoldable pub memset : Bytes → ℕ → ℕ → ℕ → Bytes
memset m s c n = set_up m s c n 0

-- `for (i = n; i > 0; i--) pdest[i-1] = psrc[i-1]`.
unfoldable pub copy_down : Bytes → ℕ → ℕ → ℕ → Bytes
copy_down m dest src zero = m
copy_down m dest src (suc i) = copy_down (update m (dest + i) (m (src + i))) dest src i

unfoldable pub memmove : Bytes → ℕ → ℕ → ℕ → Bytes
memmove m dest src n =
    if ltb dest src
    then copy_up m dest src n 0
    else if ltb src dest
    then copy_down m dest src n
    else m

-- The result of `memcmp`: -1, 0 or 1.
pub data Sign : Type 0 where
  below same above : Sign

unfoldable pub cmp_up : Bytes → ℕ → ℕ → ℕ → ℕ → Sign
cmp_up m s1 s2 zero i = same
cmp_up m s1 s2 (suc rounds) i =
    if m (s1 + i) == m (s2 + i)
    then cmp_up m s1 s2 rounds (i + 1)
    else if ltb (m (s1 + i)) (m (s2 + i))
    then below
    else above

unfoldable pub memcmp : Bytes → ℕ → ℕ → ℕ → Sign
memcmp m s1 s2 n = cmp_up m s1 s2 n 0

-- The loop of `strncmp`.
unfoldable pub ncmp_up : Bytes → ℕ → ℕ → ℕ → ℕ → Bool
ncmp_up m first second zero i = true
ncmp_up m first second (suc rounds) i =
    if m (first + i) == 0 || m (second + i) == 0
    then false
    else if m (first + i) == m (second + i)
    then ncmp_up m first second rounds (i + 1)
    else false

unfoldable pub strncmp : Bytes → ℕ → ℕ → ℕ → Bool
strncmp m first second length = ncmp_up m first second length 0

-- `while (first[i++] != 0) if (first[i] != second[i]) return false`: the test looks at the character
-- before the increment, the comparison at the one after it.
unfoldable pub strcmp_from : ℕ → Bytes → ℕ → ℕ → ℕ → Outcome Bool
strcmp_from zero m first second i = out_of_fuel
strcmp_from (suc fuel) m first second i =
    let on = strcmp_from fuel m first second (i + 1) in
    if m (first + i) == 0
    then done true
    else if m (first + (i + 1)) == m (second + (i + 1))
    then on
    else done false

unfoldable pub strcmp : ℕ → Bytes → ℕ → ℕ → Outcome Bool
strcmp fuel m first second = strcmp_from fuel m first second 0

unfoldable pub strcpy_from : ℕ → Bytes → ℕ → ℕ → ℕ → Outcome Bytes
strcpy_from zero m dest src i = out_of_fuel
strcpy_from (suc fuel) m dest src i =
    let on = strcpy_from fuel (update m (dest + i) (m (src + i))) dest src (i + 1) in
    if m (src + i) == 0 then done (update m (dest + i) 0) else on

unfoldable pub strcpy : ℕ → Bytes → ℕ → ℕ → Outcome Bytes
strcpy fuel m dest src = strcpy_from fuel m dest src 0

-- `while (*ptr != 0) ptr++`, and the count of `strlen`.
unfoldable pub find_nul : ℕ → Bytes → ℕ → ℕ → Outcome ℕ
find_nul zero m str i = out_of_fuel
find_nul (suc fuel) m str i =
    let on = find_nul fuel m str (i + 1) in if m (str + i) == 0 then done i else on

unfoldable pub strlen : ℕ → Bytes → ℕ → Outcome ℕ
strlen fuel m str = find_nul fuel m str 0

-- `strcat`: `ptr` stops at the end of `dest`, and `src` is copied there with its NUL.
unfoldable pub strcat : ℕ → Bytes → ℕ → ℕ → Outcome Bytes
strcat fuel m dest src = do end ← find_nul fuel m dest 0; strcpy_from fuel m (dest + end) src 0

-- `strdup`: `new_str` is the address that `new char[length + 1]` returns.
unfoldable pub strdup : ℕ → Bytes → ℕ → ℕ → Outcome Bytes
strdup fuel m new_str str = do
  length ← strlen fuel m str
  done (update (memcpy m new_str str length) (new_str + length) 0)
