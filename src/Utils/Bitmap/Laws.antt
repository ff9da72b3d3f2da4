-- ===== src/Utils/Bitmap/Laws.antt =====
-- src/kernel/utils/bitmap.cpp: `set` changes the bit that it names and no other.
use umbra_os.Prelude.{
  ℕ, ◌/◌, ◌%◌, ◌^◌, ◌<◌, ◌≡◌, refl, Bool, true, false, ◌==◌, arith, if◌then◌else◌, ◌&&◌,
}
use umbra_os.Prelude.Bits.{holds_under, holds_at}
use umbra_os.Utils.Bitmap.{Bitmap, set_bit, get_bit, set, get}

-- Every byte is a byte.
abbrev pub IsBytes : Bitmap → Type 0
IsBytes b = (i : ℕ) → b.bytes i < 2 ^ 8

eqb : Bool → Bool → Bool
eqb true c = c
eqb false true = false
eqb false false = true

eqb_sound : (b c : Bool) → eqb b c ≡ true → b ≡ c
unfolding eqb
eqb_sound b c h = ground arith

abbrev bit_law : Bool → ℕ → ℕ → ℕ → Bool
bit_law v byte k j = eqb (get_bit (set_bit byte k v) j) (if k == j then v else get_bit byte j)

bit_table :
    holds_under 256
      (λ x. holds_under 8 (λ k. holds_under 8 (λ j. bit_law true x k j && bit_law false x k j)))
    ≡ true
unfolding holds_under set_bit get_bit eqb
bit_table = refl

get_bit-set_bit :
    (v : Bool) (x k j : ℕ)
    → x < 2 ^ 8
    → k < 8
    → j < 8
    → get_bit (set_bit x k v) j ≡ (if k == j then v else get_bit x j)
get_bit-set_bit v x k j hx hk hj = eqb_sound _ _ (pick v)
  where
    both : (bit_law true x k j && bit_law false x k j) ≡ true
    both = holds_at 8 _ (holds_at 8 _ (holds_at 256 _ bit_table x hx) k hk) j hj

    pick : (v : Bool) → bit_law v x k j ≡ true
    pick true = ground (arith, both)
    pick false = ground (arith, both)

set_bit-lt : (v : Bool) (x k : ℕ) → set_bit x k v < 2 ^ 8
unfolding set_bit
set_bit-lt true x k = omega arith
set_bit-lt false x k = omega arith

pub set-IsBytes : (b : Bitmap) (i : ℕ) (v : Bool) → IsBytes b → IsBytes (set b i v)
unfolding set
set-IsBytes b i v h j = ground (arith, h j, set_bit-lt v (b.bytes (i / 8)) (i % 8))

-- When the cells of a bitmap are bytes, the bit that was written reads as the value, and every
-- other bit as before.
pub get-set :
    (b : Bitmap) (i : ℕ) (v : Bool) (j : ℕ)
    → IsBytes b
    → get (set b i v) j ≡ (if i == j then v else get b j)
unfolding set get
get-set b i v j h = ground (arith, get_bit-set_bit v (b.bytes (i / 8)) (i % 8) (j % 8), h (i / 8))
