-- ===== src/Base/SortedMap/Ext.antt =====
-- A sorted map is determined by its lookups, its first entry has the least key, and what holds of
-- all its values survives insertion and removal.
use Prim.Native.Nat.Ordering.{lt, eq, gt}
use mathlib.Core.Path.{◌≡◌, refl, sym, ap, subst, ◌∙◌}
use mathlib.Core.Logic.{◌⊎◌, inl, inr}
use mathlib.Core.List.{[], ◌∷◌}
use mathlib.Core.Option.{some}
use native.Mathlib.Omega.{arith}
use dpdk_cex_source.Base.Ord.{Ord}
use dpdk_cex_source.Base.Tests.{Ordering-cases}
use dpdk_cex_source.Base.SortedMap.{
  SortedMap, find, insert, erase, Above, IsSorted, Above-trans, find_below, find-insert_self,
  find-insert_ne,
}

module _ {ℓ κ} {K : Type ℓ} {V : Type κ} where
  -- A property of all values.
  abbrev pub AllValues {μ} : (V → Type μ) → SortedMap K V → Type μ
  AllValues P [] = Unit
  AllValues P ((j, w) ∷ m) = P w × AllValues P m

module _ {ℓ κ} {K : Type ℓ} {V : Type κ} (o : Ord K) where
  pub find_head : (j : K) (w : V) (m : SortedMap K V) → find o j ((j, w) ∷ m) ≡ some w
  unfolding find
  find_head j w m = ground (arith, o.same j)

  find_tail :
      (p j : K) (w : V) (m : SortedMap K V)
      → Above o j m
      → o.cmp p j ≡ gt
      → find o p ((j, w) ∷ m) ≡ find o p m
  unfolding find
  find_tail p j w m a h = ground arith

  -- Lookups in the tail of a sorted map, from lookups in the whole.
  tail_agrees :
      (p j : K) (v w : V) (m n : SortedMap K V)
      → Above o j m
      → Above o j n
      → find o p ((j, v) ∷ m) ≡ find o p ((j, w) ∷ n)
      → find o p m ≡ find o p n
  unfolding find
  tail_agrees p j v w m n am an h = elim (Ordering-cases (o.cmp p j)) [
    | inl l ↦ ground (
      arith,
      find_below o p m (Above-trans o p j m l am),
      find_below o p n (Above-trans o p j n l an),
    )
    | inr (inl e) ↦ ground (arith, o.equal p j e, find_below o j m am, find_below o j n an)
    | inr (inr g) ↦ ground arith
  ]

  head_ne :
      (j i : K) (v w : V) (m n : SortedMap K V)
      → o.cmp j i ≡ lt
      → find o j ((j, v) ∷ m) ≡ find o j ((i, w) ∷ n)
      → ⊥
  unfolding find
  head_ne j i v w m n l h = ground (arith, o.same j)

  head_eq :
      (j : K) (v w : V) (m n : SortedMap K V)
      → find o j ((j, v) ∷ m) ≡ find o j ((j, w) ∷ n)
      → v ≡ w
  unfolding find
  head_eq j v w m n h = ground (arith, o.same j)

  nil_ne : (j : K) (w : V) (m : SortedMap K V) → find o j [] ≡ find o j ((j, w) ∷ m) → ⊥
  unfolding find
  nil_ne j w m h = ground (arith, o.same j)

  -- Two sorted maps with one first key agree in the first value and in the rest.
  cons_agrees :
      (j i : K) (v w : V) (m n : SortedMap K V)
      → j ≡ i
      → Above o j m
      → Above o i n
      → ((p : K) → find o p ((j, v) ∷ m) ≡ find o p ((i, w) ∷ n))
      → (v ≡ w) × ((p : K) → find o p m ≡ find o p n)
  cons_agrees j i v w m n e am an h =
      (head_eq j v w m n (here j), λ p. tail_agrees p j v w m n am below (here p))
    where
      below : Above o j n
      below = subst (λ x. Above o x n) (sym e) an

      here : (p : K) → find o p ((j, v) ∷ m) ≡ find o p ((j, w) ∷ n)
      here p = h p ∙ ap (λ x. find o p ((x, w) ∷ n)) (sym e)

  cons_eq :
      (j i : K) (v w : V) (m n : SortedMap K V)
      → j ≡ i
      → v ≡ w
      → m ≡ n
      → ◌≡◌ {A = SortedMap K V} ((j, v) ∷ m) ((i, w) ∷ n)
  cons_eq j i v w m n p q r = cc

  -- Sorted maps with the same lookups are equal.
  pub find_ext :
      (m n : SortedMap K V)
      → IsSorted o m
      → IsSorted o n
      → ((p : K) → find o p m ≡ find o p n)
      → m ≡ n
  find_ext [] [] sm sn h = refl
  find_ext [] ((i, w) ∷ n) sm sn h = absurd (nil_ne i w n (h i))
  find_ext ((j, v) ∷ m) [] sm sn h = absurd (nil_ne j v m (sym (h j)))
  find_ext ((j, v) ∷ m) ((i, w) ∷ n) sm sn h = elim (Ordering-cases (o.cmp j i)) [
    | inl l ↦ absurd (head_ne j i v w m n l (h j))
    | inr (inl e) ↦
        let same = cons_agrees j i v w m n (o.equal j i e) sm.0 sn.0 h in
        cons_eq j i v w m n (o.equal j i e) same.0 (find_ext m n sm.1 sn.1 same.1)
    | inr (inr g) ↦ absurd (head_ne i j w v n m (o.turned j i g) (sym (h i)))
  ]

  -- `begin()` has the first key of the order.
  pub head-least :
      (j k : K) (w : V) {v : V} (m : SortedMap K V)
      → IsSorted o ((j, w) ∷ m)
      → find o k ((j, w) ∷ m) ≡ some v
      → (k ≡ j) ⊎ (o.cmp j k ≡ lt)
  unfolding find
  head-least j k w m s h = elim (Ordering-cases (o.cmp k j)) [
    | inl l ↦ absurd (ground arith)
    | inr (inl e) ↦ inl (o.equal k j e)
    | inr (inr g) ↦ inr (o.turned k j g)
  ]

  pub AllValues-insert {μ} :
      (P : V → Type μ) (k : K) (v : V) (m : SortedMap K V)
      → P v
      → AllValues P m
      → AllValues P (insert o k v m)
  unfolding insert
  AllValues-insert P k v [] p a = (p, tt)
  AllValues-insert P k v ((j, w) ∷ m) p a = ground (arith, AllValues-insert P k v m)

  pub AllValues-erase {μ} :
      (P : V → Type μ) (k : K) (m : SortedMap K V) → AllValues P m → AllValues P (erase o k m)
  unfolding erase
  AllValues-erase P k [] a = tt
  AllValues-erase P k ((j, w) ∷ m) a = ground (arith, AllValues-erase P k m)

  pub AllValues-find {μ} :
      (P : V → Type μ) (k : K) (v : V) (m : SortedMap K V)
      → AllValues P m
      → find o k m ≡ some v
      → P v
  unfolding find
  AllValues-find P k v [] a h = cc
  AllValues-find P k v ((j, w) ∷ m) a h = ground (arith, AllValues-find P k v m)

  -- What `find` gives after `insert`, for any two keys.
  pub find-insert :
      (k p : K) (v : V) (m : SortedMap K V)
      → IsSorted o m
      → find o p (insert o k v m) ≡ elim (o.cmp p k) [ eq ↦ some v | _ ↦ find o p m ]
  find-insert k p v m s = elim (Ordering-cases (o.cmp p k)) [
    | inl l ↦ ground (arith, l, o.same k, find-insert_ne o k p v m)
    | inr (inl e) ↦ ground (arith, e, o.equal p k, find-insert_self o k v m)
    | inr (inr g) ↦ ground (arith, g, o.same k, find-insert_ne o k p v m)
  ]
