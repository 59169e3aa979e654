-- ===== src/JsonParser/Validity.antt =====
-- The result of a `try` block of the parser, as none if it is not valid.
use dpdk_cex_source.Base.{◌≡◌, refl, ap, ◌∙◌, Bool, true, false, if◌then◌else◌, Option, none, some}
use dpdk_cex_source.Json.{◌>>=◌, or_fail, then_run}
use dpdk_cex_source.Json.Books.{filled, bind_some}
use dpdk_cex_source.JsonParser.{ParsedMarketData, finish}

abbrev pub when_valid : {Q : Type 0} → ParsedMarketData Q → Option (ParsedMarketData Q)
when_valid r = if r.valid then some r else none

abbrev pub validated : {Q : Type 0} → ParsedMarketData Q → ParsedMarketData Q
validated r = record r { valid = true; error_msg = none }

-- The result of a `try` block, if it is valid.
abbrev pub done : {Q : Type 0} → Bool × ParsedMarketData Q → Option (ParsedMarketData Q)
done p = when_valid (finish p)

done-filled :
    {Q : Type 0} (p : Bool × ParsedMarketData Q) → done p ≡ (filled p >>= λ r. some (validated r))
done-filled (true, r) = refl
done-filled (false, r) = refl

done_run :
    {Q : Type 0} (p : Bool × ParsedMarketData Q)
    (f : ParsedMarketData Q → Bool × ParsedMarketData Q)
    → done (then_run p f) ≡ (filled p >>= λ r. done (f r))
done_run (true, r) f = refl
done_run (false, r) f = refl

pub done_end :
    {A Q : Type 0} (p : Bool × ParsedMarketData Q) (o : Option A) (g : A → ParsedMarketData Q)
    → filled p ≡ (o >>= λ a. some (g a))
    → done p ≡ (o >>= λ a. some (validated (g a)))
done_end p o g e =
    done-filled p
    ∙ ap (λ x. x >>= λ r. some (validated r)) e
    ∙ bind_some o g (λ r. some (validated r))

pub done-lookup :
    {A Q : Type 0} (o : Option A) (r : ParsedMarketData Q) (f : A → Bool × ParsedMarketData Q)
    {g : A → Option (ParsedMarketData Q)}
    → ((a : A) → done (f a) ≡ g a)
    → done (or_fail o r f) ≡ (o >>= g)
done-lookup none r f h = refl
done-lookup (some a) r f h = h a

pub done-then :
    {A Q : Type 0} (p : Bool × ParsedMarketData Q)
    (f : ParsedMarketData Q → Bool × ParsedMarketData Q) (o : Option A) (g : A → ParsedMarketData Q)
    → filled p ≡ (o >>= λ a. some (g a))
    → done (then_run p f) ≡ (o >>= λ a. done (f (g a)))
done-then p f o g e =
    done_run p f ∙ ap (λ x. x >>= λ r. done (f r)) e ∙ bind_some o g (λ r. done (f r))

-- Four lookups, the last of which depends on the first, and then the rest.
pub bind_four :
    {A B C D F G : Type 0} (a : Option A) (b : Option B) (c : Option C) (d : A → Option D)
    (k : B → C → D → F) (g : F → Option G)
    → ((a >>= λ x. b >>= λ y. c >>= λ z. d x >>= λ w. some (k y z w)) >>= g)
      ≡ (a >>= λ x. b >>= λ y. c >>= λ z. d x >>= λ w. g (k y z w))
bind_four none b c d k g = refl
bind_four (some x) none c d k g = refl
bind_four (some x) (some y) none d k g = refl
bind_four (some x) (some y) (some z) d k g = bind_some (d x) (k y z) g
