-- ===== src/Config/Fields.antt =====
-- The tokens that parse_csv_symbols of src/config/config.c finds, against the fields of the text.
use dpdk_cex_source.Base.{
  ℕ, ◌+◌, ◌≡◌, refl, sym, ap, ◌∙◌, inl, inr, Bool, Bool-cases, true, false, ◌==◌, List, [], ◌∷◌,
  ◌++◌, length, arith,
}
use mathlib.Core.List.{append_assoc, append-nil}
use dpdk_cex_source.Config.{comma, count_delimiters, token, tokens_from}

-- The fields between the commas, empty ones too.
abbrev pub put_first : ℕ → List (List ℕ) → List (List ℕ)
put_first c [] = (c ∷ []) ∷ []
put_first c (f ∷ fs) = (c ∷ f) ∷ fs

unfoldable pub fields : List ℕ → List (List ℕ)
fields [] = [] ∷ []
fields (c ∷ s) = elim (c == comma) [ true ↦ [] ∷ fields s | false ↦ put_first c (fields s) ]

unfoldable pub has_empty : List (List ℕ) → Bool
has_empty [] = false
has_empty ([] ∷ fs) = true
has_empty ((x ∷ xs) ∷ fs) = has_empty fs

unfoldable pub non_empty : List (List ℕ) → List (List ℕ)
non_empty [] = []
non_empty ([] ∷ fs) = non_empty fs
non_empty ((x ∷ xs) ∷ fs) = (x ∷ xs) ∷ non_empty fs

-- The fields with `begun` in front of the first one.
abbrev pub continued : List ℕ → List (List ℕ) → List (List ℕ)
continued begun [] = begun ∷ []
continued begun (f ∷ fs) = (begun ++ f) ∷ fs

fields-comma : (c : ℕ) (s : List ℕ) → (c == comma) ≡ true → fields (c ∷ s) ≡ [] ∷ fields s
unfolding fields
fields-comma c s e = rw (e, fields) refl

fields_other : (c : ℕ) (s : List ℕ) → (c == comma) ≡ false → fields (c ∷ s) ≡ put_first c (fields s)
unfolding fields
fields_other c s e = rw (e, fields) refl

tokens_comma :
    (begun : List ℕ) (c : ℕ) (s : List ℕ)
    → (c == comma) ≡ true
    → tokens_from begun (c ∷ s) ≡ token begun ++ tokens_from [] s
unfolding tokens_from
tokens_comma begun c s e = rw (e, tokens_from) refl

tokens_other :
    (begun : List ℕ) (c : ℕ) (s : List ℕ)
    → (c == comma) ≡ false
    → tokens_from begun (c ∷ s) ≡ tokens_from (begun ++ c ∷ []) s
unfolding tokens_from
tokens_other begun c s e = rw (e, tokens_from) refl

-- There is a first field.
put_first_some :
    (c : ℕ) (fs : List (List ℕ)) → (p : List ℕ × List (List ℕ)) × (put_first c fs ≡ p.0 ∷ p.1)
put_first_some c [] = ((c ∷ [], []), refl)
put_first_some c (f ∷ fs) = ((c ∷ f, fs), refl)

pub some_field : (s : List ℕ) → (p : List ℕ × List (List ℕ)) × (fields s ≡ p.0 ∷ p.1)
unfolding fields
some_field [] = (([], []), refl)
some_field (c ∷ s) = elim (Bool-cases (c == comma)) [
  | inl at_comma ↦ (([], fields s), fields-comma c s at_comma)
  | inr other ↦ (let (p, e) = put_first_some c (fields s) in (p, fields_other c s other ∙ e))
]

pub continued_none : (s : List ℕ) → continued [] (fields s) ≡ fields s
continued_none s = let ((f, fs), e) = some_field s in rw e refl

continued-put_first :
    (begun : List ℕ) (c : ℕ) (fs : List (List ℕ))
    → continued begun (put_first c fs) ≡ continued (begun ++ c ∷ []) fs
continued-put_first begun c [] = refl
continued-put_first begun c (f ∷ fs) =
    ap (λ (x : List ℕ). x ∷ fs) (sym (append_assoc begun (c ∷ []) f))

non_empty-token :
    (begun : List ℕ) (fs : List (List ℕ)) → token begun ++ non_empty fs ≡ non_empty (begun ∷ fs)
unfolding non_empty
non_empty-token [] fs = refl
non_empty-token (x ∷ xs) fs = refl

non_empty-end : (begun : List ℕ) → token begun ≡ non_empty ((begun ++ []) ∷ [])
unfolding non_empty
non_empty-end [] = refl
non_empty-end (x ∷ xs) = rw (append-nil xs) refl

-- The tokens are the fields that are not empty.
pub tokens_from-fields :
    (begun s : List ℕ) → tokens_from begun s ≡ non_empty (continued begun (fields s))
unfolding tokens_from fields
tokens_from-fields begun [] = non_empty-end begun
tokens_from-fields begun (c ∷ s) = elim (Bool-cases (c == comma)) [
  | inl at_comma ↦
      tokens_comma begun c s at_comma
      ∙ ap (◌++◌ (token begun)) (tokens_from-fields [] s ∙ ap non_empty (continued_none s))
      ∙ non_empty-token begun (fields s)
      ∙ ap (λ (x : List ℕ). non_empty (x ∷ fields s)) (sym (append-nil begun))
      ∙ ap (λ (fs : List (List ℕ)). non_empty (continued begun fs))
          (sym (fields-comma c s at_comma))
  | inr other ↦
      tokens_other begun c s other
      ∙ tokens_from-fields (begun ++ c ∷ []) s
      ∙ ap non_empty (sym (continued-put_first begun c (fields s)))
      ∙ ap (λ (fs : List (List ℕ)). non_empty (continued begun fs)) (sym (fields_other c s other))
]

length-put_first : (c : ℕ) (s : List ℕ) → length (put_first c (fields s)) ≡ length (fields s)
length-put_first c s = let ((f, fs), e) = some_field s in rw e refl

pub count-fields : (s : List ℕ) → 1 + count_delimiters s ≡ length (fields s)
unfolding count_delimiters fields
count-fields [] = refl
count-fields (c ∷ s) = elim (Bool-cases (c == comma)) [
  | inl at_comma ↦ rw (at_comma, fields-comma c s at_comma) (omega (arith, count-fields s))
  | inr other ↦
      rw (other, fields_other c s other) (omega (arith, count-fields s, length-put_first c s))
]
