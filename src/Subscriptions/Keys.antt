-- ===== src/Subscriptions/Keys.antt =====
-- Maps keyed by strings whose keys come before a key, so that an insertion is at the end.
use Prim.Native.Nat.Ordering.{lt, gt}
use dpdk_cex_source.Base.{ℕ, ◌≡◌, refl, List, [], ◌∷◌, ◌++◌, none, arith}
use dpdk_cex_source.Base.Ord.{Ord}
use dpdk_cex_source.Base.SortedMap.{SortedMap, find, insert}

after : (o : Ord (List ℕ)) (j k : List ℕ) → o.cmp j k ≡ lt → o.cmp k j ≡ gt
after o j k h = ground (arith, o.chained j k j h, o.same j, o.equal k j)

module _ {V : Type 0} (o : Ord (List ℕ)) where
  -- Every key comes before `k`.
  abbrev pub Below : List ℕ → SortedMap (List ℕ) V → Type 0
  Below k [] = Unit
  Below k ((j, w) ∷ xs) = (o.cmp j k ≡ lt) × Below k xs

  pub find-Below : (k : List ℕ) (xs : SortedMap (List ℕ) V) → Below k xs → find o k xs ≡ none
  unfolding find
  find-Below k [] b = refl
  find-Below k ((j, w) ∷ xs) (h, b) = ground (arith, after o j k h, find-Below k xs b)

  pub insert-Below :
      (k : List ℕ) (v : V) (xs : SortedMap (List ℕ) V)
      → Below k xs
      → insert o k v xs ≡ xs ++ (k, v) ∷ []
  unfolding insert
  insert-Below k v [] b = refl
  insert-Below k v ((j, w) ∷ xs) (h, b) = ground (arith, after o j k h, insert-Below k v xs b)

  pub Below-trans :
      (k l : List ℕ) (xs : SortedMap (List ℕ) V) → o.cmp k l ≡ lt → Below k xs → Below l xs
  Below-trans k l [] h b = tt
  Below-trans k l ((j, w) ∷ xs) h (a, b) = (o.chained j k l a h, Below-trans k l xs h b)

  pub Below-snoc :
      (k l : List ℕ) (v : V) (xs : SortedMap (List ℕ) V)
      → o.cmp k l ≡ lt
      → Below k xs
      → Below l (xs ++ (k, v) ∷ [])
  Below-snoc k l v [] h b = (h, tt)
  Below-snoc k l v ((j, w) ∷ xs) h (a, b) = (o.chained j k l a h, Below-snoc k l v xs h b)

  -- The keys of the first map come before those of the second, which is sorted.
  abbrev pub Before : SortedMap (List ℕ) V → SortedMap (List ℕ) V → Type 0
  Before xs [] = Unit
  Before xs ((k, w) ∷ m) = Below k xs
