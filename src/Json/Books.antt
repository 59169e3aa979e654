-- ===== src/Json/Books.antt =====
-- The levels of a side as one value: either every element of the array is a level, or there is none.
use dpdk_cex_source.Base.{
  ◌≡◌, refl, sym, ap, ◌∙◌, Bool, true, false, not, if◌then◌else◌, List, [], ◌∷◌, ◌++◌, Option, none,
  some, inl, inr, Option-cases,
}
use mathlib.Core.List.{append_assoc, append-nil}
use dpdk_cex_source.UdpFeed.{PriceLevel, ParsedOrderBook}
use dpdk_cex_source.Json.{
  Dom, Numbers, ◌>>=◌, or_fail, then_run, level_of, add_levels, add_side, add_bids, add_asks,
}

-- What was filled, if the code did not fail.
abbrev pub filled : {S : Type 0} → Bool × S → Option S
filled (true, s) = some s
filled (false, s) = none

filled-or_fail :
    {A S : Type 0} (o : Option A) (s : S) (f : A → Bool × S)
    → filled (or_fail o s f) ≡ (o >>= λ a. filled (f a))
filled-or_fail none s f = refl
filled-or_fail (some a) s f = refl

pub bind_some :
    {A S T : Type 0} (o : Option A) (g : A → S) (k : S → Option T)
    → ((o >>= λ a. some (g a)) >>= k) ≡ (o >>= λ a. k (g a))
bind_some none g k = refl
bind_some (some a) g k = refl

filled-then_run :
    {S : Type 0} (p : Bool × S) (f : S → Bool × S)
    → filled (then_run p f) ≡ (filled p >>= λ s. filled (f s))
filled-then_run (true, s) f = refl
filled-then_run (false, s) f = refl

abbrev pub nothing : {A B : Type 0} → A → Option B
nothing a = none

pub bind_none : {A B : Type 0} (o : Option A) → (o >>= nothing {A = A} {B = B}) ≡ none
bind_none none = refl
bind_none (some a) = refl

pub bind_assoc :
    {A B C : Type 0} (o : Option A) (f : A → Option B) (g : B → Option C)
    → ((o >>= f) >>= g) ≡ (o >>= λ a. f a >>= g)
bind_assoc none f g = refl
bind_assoc (some a) f g = refl

-- The values of a bind's rest are compared for each value of its first part.
pub bind_both :
    {A B : Type 0} (o : Option A) {f g : A → Option B}
    → ((a : A) → f a ≡ g a)
    → (o >>= f) ≡ (o >>= g)
bind_both none h = refl
bind_both (some a) h = h a

-- A part that fills what `o` and `g` say, and then the rest.
pub filled-then :
    {A S : Type 0} (p : Bool × S) (f : S → Bool × S) (o : Option A) (g : A → S)
    → filled p ≡ (o >>= λ a. some (g a))
    → filled (then_run p f) ≡ (o >>= λ a. filled (f (g a)))
filled-then p f o g e =
    filled-then_run p f ∙ ap (λ x. x >>= λ s. filled (f s)) e ∙ bind_some o g (λ s. filled (f s))

-- The same with a lookup first.
pub filled-lookup :
    {A S : Type 0} (o : Option A) (s : S) (f : A → Bool × S) {g : A → Option S}
    → ((a : A) → filled (f a) ≡ g a)
    → filled (or_fail o s f) ≡ (o >>= g)
filled-lookup o s f h = filled-or_fail o s f ∙ bind_both o h

-- A guard that fails.
pub filled-guard :
    {S : Type 0} (b : Bool) (s : S) (p : Bool × S) {o : Option S}
    → filled p ≡ o
    → filled (if not b then (false, s) else p) ≡ (if b then o else none)
filled-guard true s p h = h
filled-guard false s p h = refl

filled-pair :
    {S T : Type 0} (p : Bool × S) (f : S → T) → filled (p.0, f p.1) ≡ (filled p >>= λ s. some (f s))
filled-pair (true, s) f = refl
filled-pair (false, s) f = refl

module _ {E Q : Type 0} (dom : Dom E) (numbers : Numbers Q) where
  abbrev pub levels_of : List E → Option (List (PriceLevel Q))
  levels_of [] = some []
  levels_of (e ∷ es) = do
    level ← level_of dom numbers e
    levels ← levels_of es
    some (level ∷ levels)

  abbrev pub side_levels : Option E → Option (List (PriceLevel Q))
  side_levels none = some []
  side_levels (some side) = do es ← dom.items side; levels_of es

  filled-add_levels :
      (es : List E) (levels : List (PriceLevel Q))
      → filled (add_levels dom numbers es levels) ≡ (levels_of es >>= λ ls. some (levels ++ ls))
  unfolding add_levels
  filled-add_levels [] levels = ap some (sym (append-nil levels))
  filled-add_levels (e ∷ es) levels = elim (Option-cases (level_of dom numbers e)) [
    | inl h ↦ rw h refl
    | inr (level, h) ↦
        rw (h, filled-add_levels es (levels ++ level ∷ []))
          (elim (Option-cases (levels_of es)) [
            | inl k ↦ rw k refl
            | inr (ls, k) ↦ rw k (ap some (append_assoc levels (level ∷ []) ls))
          ])
  ]

  filled-add_side : (side : Option E) → filled (add_side dom numbers side []) ≡ side_levels side
  unfolding add_side
  filled-add_side none = refl
  filled-add_side (some side) = elim (Option-cases (dom.items side)) [
    | inl h ↦ rw h refl
    | inr (es, h) ↦
        rw (h, filled-add_levels es [])
          (elim (Option-cases (levels_of es)) [ inl k ↦ rw k refl | inr (ls, k) ↦ rw k refl ])
  ]

  -- The two sides of a book that has no levels yet.
  pub filled-add_bids :
      (side : Option E) (book : ParsedOrderBook Q)
      → filled (add_bids dom numbers side (record book { bids = [] }))
        ≡ (side_levels side >>= λ ls. some (record book { bids = ls }))
  unfolding add_bids
  filled-add_bids side book =
      filled-pair (add_side dom numbers side []) (λ ls. record book { bids = ls })
      ∙ ap (λ o. o >>= λ ls. some (record book { bids = ls })) (filled-add_side side)

  pub filled-add_asks :
      (side : Option E) (book : ParsedOrderBook Q)
      → filled (add_asks dom numbers side (record book { asks = [] }))
        ≡ (side_levels side >>= λ ls. some (record book { asks = ls }))
  unfolding add_asks
  filled-add_asks side book =
      filled-pair (add_side dom numbers side []) (λ ls. record book { asks = ls })
      ∙ ap (λ o. o >>= λ ls. some (record book { asks = ls })) (filled-add_side side)
