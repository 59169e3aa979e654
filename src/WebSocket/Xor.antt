-- ===== src/WebSocket/Xor.antt =====
-- Exclusive or is its own inverse, and so is masking.
use mathlib.Core.Path.{ap₂}
use dpdk_cex_source.Base.{
  ℕ, zero, suc, ◌+◌, ◌*◌, ◌/◌, ◌%◌, ◌^◌, ◌<◌, ◌≡◌, refl, ap, ◌∙◌, List, [], ◌∷◌, length, arith, All,
}
use dpdk_cex_source.WebSocket.{xor_bits, MaskKey, key_at, mask_from}

double_half : (x : ℕ) → x % 2 + 2 * (x / 2) ≡ x
double_half x = omega arith

half_fits : (x p : ℕ) → x < 2 * p → x / 2 < p
half_fits x p h = omega arith

low_bit : (b r : ℕ) → (b % 2 + 2 * r) % 2 ≡ b % 2
low_bit b r = omega arith

high_bits : (b r : ℕ) → (b % 2 + 2 * r) / 2 ≡ r
high_bits b r = omega arith

bit_back : (x y : ℕ) → ((x % 2 + y % 2) % 2 + y % 2) % 2 ≡ x % 2
bit_back x y = omega arith

double_power : (x n : ℕ) → x < 2 ^ suc n → x < 2 * 2 ^ n
double_power x n h = omega arith

pub xor_bits_self : (n x y : ℕ) → x < 2 ^ n → xor_bits n (xor_bits n x y) y ≡ x
unfolding xor_bits
xor_bits_self zero x y h = omega arith
xor_bits_self (suc n) x y h =
    rw
      (
        low_bit (x % 2 + y % 2) (xor_bits n (x / 2) (y / 2)),
        high_bits (x % 2 + y % 2) (xor_bits n (x / 2) (y / 2)),
      )
      (ap₂ (λ a b. a + 2 * b) (bit_back x y)
          (xor_bits_self n (x / 2) (y / 2) (half_fits x (2 ^ n) (double_power x n h)))
        ∙ double_half x)

-- The bytes are bytes.
abbrev pub IsBytes : List ℕ → Type 0
IsBytes = All (λ x. x < 2 ^ 8)

pub length-mask_from : (k : MaskKey) (i : ℕ) (xs : List ℕ) → length (mask_from k i xs) ≡ length xs
unfolding mask_from
length-mask_from k i [] = refl
length-mask_from k i (x ∷ xs) = ap suc (length-mask_from k (i + 1) xs)

pub mask_from_self :
    (k : MaskKey) (i : ℕ) (xs : List ℕ) → IsBytes xs → mask_from k i (mask_from k i xs) ≡ xs
unfolding mask_from
mask_from_self k i [] h = refl
mask_from_self k i (x ∷ xs) (a, h) =
    ap₂ ◌∷◌ (xor_bits_self 8 x (key_at k i) a) (mask_from_self k (i + 1) xs h)
