-- ===== src/Base/Bytes.antt =====
-- Unsigned machine integers: their widths, and their bytes in network order.
use Prim.Native.Nat.{ℕ, ◌+◌, ◌*◌, ◌/◌, ◌%◌, ◌^◌, ◌<◌}
use mathlib.Core.Path.{◌≡◌}
use mathlib.Core.List.{List, [], ◌∷◌}
use native.Mathlib.Omega.{arith}

abbrev pub u8 : ℕ → ℕ
u8 x = x % 2 ^ 8

abbrev pub u16 : ℕ → ℕ
u16 x = x % 2 ^ 16

abbrev pub u32 : ℕ → ℕ
u32 x = x % 2 ^ 32

abbrev pub u64 : ℕ → ℕ
u64 x = x % 2 ^ 64

-- The bytes of an integer as `rte_cpu_to_be_16` and its like leave them in memory.
abbrev pub be16 : ℕ → List ℕ
be16 x = x / 2 ^ 8 % 2 ^ 8 ∷ x % 2 ^ 8 ∷ []

abbrev pub be32 : ℕ → List ℕ
be32 x = x / 2 ^ 24 % 2 ^ 8 ∷ x / 2 ^ 16 % 2 ^ 8 ∷ x / 2 ^ 8 % 2 ^ 8 ∷ x % 2 ^ 8 ∷ []

abbrev pub be64 : ℕ → List ℕ
be64 x =
    x / 2 ^ 56 % 2 ^ 8
    ∷ x / 2 ^ 48 % 2 ^ 8
    ∷ x / 2 ^ 40 % 2 ^ 8
    ∷ x / 2 ^ 32 % 2 ^ 8
    ∷ x / 2 ^ 24 % 2 ^ 8
    ∷ x / 2 ^ 16 % 2 ^ 8
    ∷ x / 2 ^ 8 % 2 ^ 8
    ∷ x % 2 ^ 8
    ∷ []

-- The integers that such bytes stand for.
abbrev pub of_be16 : ℕ → ℕ → ℕ
of_be16 a b = a * 2 ^ 8 + b

abbrev pub of_be32 : ℕ → ℕ → ℕ → ℕ → ℕ
of_be32 a b c d = a * 2 ^ 24 + b * 2 ^ 16 + c * 2 ^ 8 + d

abbrev pub of_be64 : ℕ → ℕ → ℕ → ℕ → ℕ → ℕ → ℕ → ℕ → ℕ
of_be64 a b c d e f g h = of_be32 a b c d * 2 ^ 32 + of_be32 e f g h

pub of_be16-be16 : (x : ℕ) → x < 2 ^ 16 → of_be16 (x / 2 ^ 8 % 2 ^ 8) (x % 2 ^ 8) ≡ x
of_be16-be16 x h = omega arith

pub of_be32-be32 :
    (x : ℕ)
    → x < 2 ^ 32
    → of_be32 (x / 2 ^ 24 % 2 ^ 8) (x / 2 ^ 16 % 2 ^ 8) (x / 2 ^ 8 % 2 ^ 8) (x % 2 ^ 8) ≡ x
of_be32-be32 x h = omega arith

pub of_be64-be64 :
    (x : ℕ)
    → x < 2 ^ 64
    → of_be64
        (x / 2 ^ 56 % 2 ^ 8)
        (x / 2 ^ 48 % 2 ^ 8)
        (x / 2 ^ 40 % 2 ^ 8)
        (x / 2 ^ 32 % 2 ^ 8)
        (x / 2 ^ 24 % 2 ^ 8)
        (x / 2 ^ 16 % 2 ^ 8)
        (x / 2 ^ 8 % 2 ^ 8)
        (x % 2 ^ 8)
      ≡ x
of_be64-be64 x h = omega arith
