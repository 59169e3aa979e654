-- ===== src/Base/Ord.antt =====
-- Three-way comparison of map keys, with the laws of a strict total order (`std::less` and
-- `std::greater`).
use Prim.Native.Nat.{ℕ, compare, Ordering}
use Prim.Native.Nat.Ordering.{lt, eq, gt}
use mathlib.Core.Path.{◌≡◌}
use mathlib.Core.List.{List, [], ◌∷◌}
use native.Mathlib.Omega.{arith}

-- Keys are the same key when neither comes first.
pub record IsStrictOrder {ℓ} {Key : Type ℓ} (cmp : Key → Key → Ordering) : Type ℓ where
  pub same : (x : Key) → cmp x x ≡ eq
  pub equal : (x y : Key) → cmp x y ≡ eq → x ≡ y
  pub chained : (x y z : Key) → cmp x y ≡ lt → cmp y z ≡ lt → cmp x z ≡ lt
  pub turned : (x y : Key) → cmp x y ≡ gt → cmp y x ≡ lt

pub record Ord {ℓ} (Key : Type ℓ) : Type ℓ where
  pub cmp : Key → Key → Ordering
  pub laws : IsStrictOrder cmp
  pub open laws use *

pub compare-IsStrictOrder : IsStrictOrder compare
compare-IsStrictOrder = ground arith

-- `std::less<uint64_t>`
abbrev pub ascending : Ord ℕ
ascending = record { cmp = compare; laws = compare-IsStrictOrder }

abbrev pub flip_compare : ℕ → ℕ → Ordering
flip_compare a b = compare b a

pub flip_compare-IsStrictOrder : IsStrictOrder flip_compare
flip_compare-IsStrictOrder = ground arith

-- `std::greater<uint64_t>`
abbrev pub descending : Ord ℕ
descending = record { cmp = flip_compare; laws = flip_compare-IsStrictOrder }

-- `std::less<std::string>`: lexicographic over bytes.
abbrev pub lex : List ℕ → List ℕ → Ordering
lex [] [] = eq
lex [] (y ∷ ys) = lt
lex (x ∷ xs) [] = gt
lex (x ∷ xs) (y ∷ ys) = elim (compare x y) [ lt ↦ lt | eq ↦ lex xs ys | gt ↦ gt ]

lex_refl : (a : List ℕ) → lex a a ≡ eq
lex_refl [] = ground arith
lex_refl (x ∷ xs) = ground (arith, lex_refl xs)

lex-eq : (a b : List ℕ) → lex a b ≡ eq → a ≡ b
lex-eq [] [] h = ground arith
lex-eq [] (y ∷ ys) h = ground arith
lex-eq (x ∷ xs) [] h = ground arith
lex-eq (x ∷ xs) (y ∷ ys) h = ground (arith, lex-eq xs ys)

lex-turned : (a b : List ℕ) → lex a b ≡ gt → lex b a ≡ lt
lex-turned [] [] h = ground arith
lex-turned [] (y ∷ ys) h = ground arith
lex-turned (x ∷ xs) [] h = ground arith
lex-turned (x ∷ xs) (y ∷ ys) h = ground (arith, lex-turned xs ys)

lex_trans : (a b c : List ℕ) → lex a b ≡ lt → lex b c ≡ lt → lex a c ≡ lt
lex_trans [] [] c h k = ground arith
lex_trans [] (y ∷ ys) [] h k = ground arith
lex_trans [] (y ∷ ys) (z ∷ zs) h k = ground arith
lex_trans (x ∷ xs) [] c h k = ground arith
lex_trans (x ∷ xs) (y ∷ ys) [] h k = ground arith
lex_trans (x ∷ xs) (y ∷ ys) (z ∷ zs) h k = ground (arith, lex_trans xs ys zs)

pub lex-IsStrictOrder : IsStrictOrder lex
lex-IsStrictOrder = record {
  same = lex_refl;
  equal = lex-eq;
  turned = lex-turned;
  chained = lex_trans;
}

abbrev pub string_ord : Ord (List ℕ)
string_ord = record { cmp = lex; laws = lex-IsStrictOrder }
