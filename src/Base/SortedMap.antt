-- ===== src/Base/SortedMap.antt =====
-- `std::map` as the list of its entries in key order, the order in which it is iterated.
pub mod Ext
pub mod Entries
use Prim.Native.Nat.Ordering.{lt, eq, gt}
use mathlib.Core.Path.{◌≡◌, refl}
use mathlib.Core.List.{List, [], ◌∷◌}
use mathlib.Core.Option.{Option, none, some}
use native.Mathlib.Omega.{arith}
use dpdk_cex_source.Base.Ord.{Ord}

abbrev pub SortedMap {ℓ κ} : Type ℓ → Type κ → Type (ℓ ⊔ κ)
SortedMap K V = List (K × V)

module _ {ℓ κ} {K : Type ℓ} {V : Type κ} (o : Ord K) where
  -- `m.find(k)`, as the value that the iterator points to.
  unfoldable pub find : K → SortedMap K V → Option V
  find k [] = none
  find k ((j, v) ∷ m) = elim (o.cmp k j) [ lt ↦ none | eq ↦ some v | gt ↦ find k m ]

  -- `m[k] = v`
  unfoldable pub insert : K → V → SortedMap K V → SortedMap K V
  insert k v [] = (k, v) ∷ []
  insert k v ((j, w) ∷ m) = elim (o.cmp k j) [
    | lt ↦ (k, v) ∷ (j, w) ∷ m
    | eq ↦ (k, v) ∷ m
    | gt ↦ (j, w) ∷ insert k v m
  ]

  -- `m.erase(k)`
  unfoldable pub erase : K → SortedMap K V → SortedMap K V
  erase k [] = []
  erase k ((j, w) ∷ m) = elim (o.cmp k j) [ lt ↦ (j, w) ∷ m | eq ↦ m | gt ↦ (j, w) ∷ erase k m ]

  -- Every key comes after `b`.
  abbrev pub Above : K → SortedMap K V → Type 0
  Above b [] = Unit
  Above b ((j, w) ∷ m) = (o.cmp b j ≡ lt) × Above b m

  -- The keys increase strictly.
  abbrev pub IsSorted : SortedMap K V → Type 0
  IsSorted [] = Unit
  IsSorted ((j, w) ∷ m) = Above j m × IsSorted m

  pub Above-trans : (a b : K) (m : SortedMap K V) → o.cmp a b ≡ lt → Above b m → Above a m
  Above-trans a b [] h s = tt
  Above-trans a b ((j, w) ∷ m) h s = (o.chained a b j h s.0, Above-trans a b m h s.1)

  Above-insert :
      (b k : K) (v : V) (m : SortedMap K V) → o.cmp b k ≡ lt → Above b m → Above b (insert k v m)
  unfolding insert
  Above-insert b k v [] h s = (h, tt)
  Above-insert b k v ((j, w) ∷ m) h s = ground (arith, Above-insert b k v m)

  Above-erase : (b k : K) (m : SortedMap K V) → Above b m → Above b (erase k m)
  unfolding erase
  Above-erase b k [] s = tt
  Above-erase b k ((j, w) ∷ m) s = ground (arith, Above-erase b k m)

  pub insert-IsSorted : (k : K) (v : V) (m : SortedMap K V) → IsSorted m → IsSorted (insert k v m)
  unfolding insert
  insert-IsSorted k v [] s = (tt, tt)
  insert-IsSorted k v ((j, w) ∷ m) s = ground (
    arith,
    insert-IsSorted k v m,
    Above-insert j k v m,
    Above-trans k j m,
    o.turned k j,
    o.equal k j,
  )

  pub erase-IsSorted : (k : K) (m : SortedMap K V) → IsSorted m → IsSorted (erase k m)
  unfolding erase
  erase-IsSorted k [] s = tt
  erase-IsSorted k ((j, w) ∷ m) s = ground (arith, erase-IsSorted k m, Above-erase j k m)

  pub find_below : (k : K) (m : SortedMap K V) → Above k m → find k m ≡ none
  unfolding find
  find_below k [] s = refl
  find_below k ((j, w) ∷ m) s = ground arith

  pub find-insert_self : (k : K) (v : V) (m : SortedMap K V) → find k (insert k v m) ≡ some v
  unfolding find insert
  find-insert_self k v [] = ground (arith, o.same k)
  find-insert_self k v ((j, w) ∷ m) = ground (arith, find-insert_self k v m, o.same k)

  pub find-insert_ne :
      (k p : K) (v : V) (m : SortedMap K V)
      → ¬ (p ≡ k)
      → IsSorted m
      → find p (insert k v m) ≡ find p m
  unfolding find insert
  find-insert_ne k p v [] n s = ground (arith, o.equal p k)
  find-insert_ne k p v ((j, w) ∷ m) n s =
      ground (arith, find-insert_ne k p v m n s.1, o.equal p k, o.equal k j, o.chained p k j)

  pub find-erase_self : (k : K) (m : SortedMap K V) → IsSorted m → find k (erase k m) ≡ none
  unfolding find erase
  find-erase_self k [] s = refl
  find-erase_self k ((j, w) ∷ m) s =
      ground (arith, find-erase_self k m s.1, find_below k m, o.equal k j)

  pub find-erase_ne :
      (k p : K) (m : SortedMap K V) → ¬ (p ≡ k) → IsSorted m → find p (erase k m) ≡ find p m
  unfolding find erase
  find-erase_ne k p [] n s = refl
  find-erase_ne k p ((j, w) ∷ m) n s = ground (
    arith,
    find-erase_ne k p m n s.1,
    o.equal p j,
    o.equal k j,
    find_below p m,
    Above-trans p j m,
  )
