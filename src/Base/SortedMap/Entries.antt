-- ===== src/Base/SortedMap/Entries.antt =====
-- A relation between the keys of a map and their values.
use mathlib.Core.Path.{◌≡◌, sym, subst}
use mathlib.Core.Logic.{◌⊎◌, inl, inr}
use mathlib.Core.List.{[], ◌∷◌}
use mathlib.Core.Option.{some}
use native.Mathlib.Omega.{arith}
use dpdk_cex_source.Base.Ord.{Ord}
use dpdk_cex_source.Base.Tests.{Ordering-cases}
use dpdk_cex_source.Base.SortedMap.{SortedMap, find, insert, erase}

module _ {K V : Type 0} (o : Ord K) (P : K → V → Type 0) where
  -- Every entry is related.
  abbrev pub Entries : SortedMap K V → Type 0
  Entries [] = Unit
  Entries ((j, w) ∷ m) = P j w × Entries m

  pub Entries-insert :
      (k : K) (v : V) (m : SortedMap K V) → P k v → Entries m → Entries (insert o k v m)
  unfolding insert
  Entries-insert k v [] p a = (p, tt)
  Entries-insert k v ((j, w) ∷ m) p a = ground (arith, Entries-insert k v m)

  pub Entries-erase : (k : K) (m : SortedMap K V) → Entries m → Entries (erase o k m)
  unfolding erase
  Entries-erase k [] a = tt
  Entries-erase k ((j, w) ∷ m) a = ground (arith, Entries-erase k m)

  find-cases :
      (k j : K) (v w : V) (m : SortedMap K V)
      → find o k ((j, w) ∷ m) ≡ some v
      → ((j ≡ k) × (w ≡ v)) ⊎ (find o k m ≡ some v)
  unfolding find
  find-cases k j v w m h = elim (Ordering-cases (o.cmp k j)) [
    | inl l ↦ absurd (ground (arith, l))
    | inr (inl e) ↦ inl (sym (o.equal k j e), ground (arith, e))
    | inr (inr g) ↦ inr (ground (arith, g))
  ]

  pub Entries-find : (k : K) (v : V) (m : SortedMap K V) → Entries m → find o k m ≡ some v → P k v
  unfolding find
  Entries-find k v [] a h = absurd (ground (arith, h))
  Entries-find k v ((j, w) ∷ m) a h = elim (find-cases k j v w m h) [
    | inl (ek, ev) ↦ subst (λ x. P x v) ek (subst (P j) ev a.0)
    | inr h' ↦ Entries-find k v m a.1 h'
  ]
