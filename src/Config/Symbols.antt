-- ===== src/Config/Symbols.antt =====
-- The symbols that parse_csv_symbols of src/config/config.c finds and that main of src/main.cpp reads.
use dpdk_cex_source.Base.{
  ℕ, zero, suc, ◌+◌, ◌-◌, ◌≤◌, ◌<◌, ◌≡◌, refl, ap, ◌∙◌, inl, inr, Bool-cases, true, false,
  if◌then◌else◌, List, [], ◌∷◌, ◌++◌, map, none, some, length, replicate, arith,
}
use dpdk_cex_source.Config.Fields.{
  fields, has_empty, non_empty, continued_none, tokens_from-fields, count-fields,
}
use dpdk_cex_source.Config.{
  Slot, unset, symbol, tokens_from, filled_symbols, parse_csv_symbols, instruments,
}

length-non_empty : (fs : List (List ℕ)) → length (non_empty fs) ≤ length fs
unfolding non_empty
length-non_empty [] = omega arith
length-non_empty ([] ∷ fs) = omega (arith, length-non_empty fs)
length-non_empty ((x ∷ xs) ∷ fs) = omega (arith, length-non_empty fs)

has_empty-less : (fs : List (List ℕ)) → has_empty fs ≡ true → length (non_empty fs) < length fs
unfolding non_empty has_empty
has_empty-less [] h = cc
has_empty-less ([] ∷ fs) h = omega (arith, length-non_empty fs)
has_empty-less ((x ∷ xs) ∷ fs) h = omega (arith, has_empty-less fs h)

has_empty-same : (fs : List (List ℕ)) → has_empty fs ≡ false → non_empty fs ≡ fs
unfolding non_empty has_empty
has_empty-same [] h = refl
has_empty-same ([] ∷ fs) h = cc
has_empty-same ((x ∷ xs) ∷ fs) h = ap (◌∷◌ (x ∷ xs)) (has_empty-same fs h)

instruments-set :
    (names : List (List ℕ)) → instruments (length names) (map symbol names ++ []) ≡ some names
unfolding instruments
instruments-set [] = refl
instruments-set (n ∷ names) = rw (instruments-set names) refl

instruments-unset :
    (names : List (List ℕ)) (k n : ℕ)
    → n ≡ length names + suc k
    → instruments n (map symbol names ++ replicate (suc k) unset) ≡ none
unfolding instruments
instruments-unset [] k zero e = absurd (omega (arith, e))
instruments-unset [] k (suc n) e = refl
instruments-unset (x ∷ names) k zero e = absurd (omega (arith, e))
instruments-unset (x ∷ names) k (suc n) e = rw (instruments-unset names k n (omega (arith, e))) refl

-- Of an array of `count` entries, with fewer names or as many.
read_short :
    (found : List (List ℕ)) (count : ℕ)
    → length found < count
    → instruments count (map symbol found ++ replicate (count - length found) unset) ≡ none
read_short found count h =
    let left : count - length found ≡ suc (count - length found - 1) = omega (arith, h) in
    rw left (instruments-unset found (count - length found - 1) count (omega (arith, h)))

read_full :
    (found : List (List ℕ))
    → instruments (length found) (map symbol found ++ replicate (length found - length found) unset)
      ≡ some found
read_full found =
    let left : length found - length found ≡ 0 = omega arith in rw left (instruments-set found)

tokens-fields : (s : List ℕ) → tokens_from [] s ≡ non_empty (fields s)
tokens-fields s = tokens_from-fields [] s ∙ ap non_empty (continued_none s)

filled_symbols-fields :
    (s : List ℕ)
    → filled_symbols s ≡ (
      map symbol (non_empty (fields s))
          ++ replicate (length (fields s) - length (non_empty (fields s))) unset,
      length (fields s),
    )
unfolding filled_symbols
filled_symbols-fields s = rw (tokens-fields s, count-fields s) refl

read_fields :
    (fs : List (List ℕ))
    → instruments
        (length fs)
        (map symbol (non_empty fs) ++ replicate (length fs - length (non_empty fs)) unset)
      ≡ (if has_empty fs then none else some fs)
read_fields fs = elim (Bool-cases (has_empty fs)) [
  | inl hole ↦ rw hole (read_short (non_empty fs) (length fs) (has_empty-less fs hole))
  | inr whole ↦ rw (whole, has_empty-same fs whole) (read_full fs)
]

-- The symbols of a list from the environment that is not empty: main subscribes to exactly the
-- fields between its commas, in their order, if none of them is empty; otherwise, as with a comma
-- at the end, it reads an entry of the array that parse_csv_symbols has not set.
pub parse_csv_symbols-instruments :
    (c : ℕ) (s : List ℕ) (out : List Slot × ℕ)
    → let (slots, count) = parse_csv_symbols (c ∷ s) out in
      instruments count slots ≡ (if has_empty (fields (c ∷ s)) then none else some (fields (c ∷ s)))
unfolding parse_csv_symbols
parse_csv_symbols-instruments c s out =
    ap (λ (p : List Slot × ℕ). instruments p.1 p.0) (filled_symbols-fields (c ∷ s))
    ∙ read_fields (fields (c ∷ s))
