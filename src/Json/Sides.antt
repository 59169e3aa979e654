-- ===== src/Json/Sides.antt =====
-- The levels of a side of a book in a document, as a relation: which text of which element gives what.
use mathlib.Core.Path.{subst}
use dpdk_cex_source.Base.{
  ℕ, ◌≡◌, ◌↔◌, refl, sym, ap, ◌∙◌, Bool, true, false, if◌then◌else◌, List, [], ◌∷◌, Option, none,
  some, bytes_eq, bytes_eq→eq, bytes_eq_refl,
}
use dpdk_cex_source.UdpFeed.{PriceLevel, ParsedOrderBook}
use dpdk_cex_source.Json.{Dom, Numbers, ◌>>=◌, string_of_item, level_of}
use dpdk_cex_source.Json.Books.{levels_of, side_levels}

pub bound :
    {A B : Type 0} (o : Option A) (f : A → Option B) (b : B)
    → (o >>= f) ≡ some b
    → (a : A) × (o ≡ some a) × (f a ≡ some b)
bound none f b e = cc
bound (some a) f b e = (a, refl, e)

pub some-injective : {A : Type 0} (a b : A) → some a ≡ some b → a ≡ b
some-injective a b e = cc

pub guarded :
    {A : Type 0} (t : Bool) (o : Option A) (b : A)
    → (if t then o else none) ≡ some b
    → (t ≡ true) × (o ≡ some b)
guarded true o b e = (refl, e)
guarded false o b e = cc

pub bytes_eq_iff : (a b : List ℕ) → (bytes_eq a b ≡ true) ↔ (a ≡ b)
bytes_eq_iff a b = (bytes_eq→eq a b, λ e. ap (bytes_eq a) (sym e) ∙ bytes_eq_refl a)

pub same_test : {P : Type 0} (v w : Bool) → (v ≡ true) ↔ P → (w ≡ true) ↔ P → v ≡ w
same_test true w h k = sym (k.1 (h.0 refl))
same_test false true h k = h.1 (k.0 refl)
same_test false false h k = refl

-- A book is its five fields.
pub some_book :
    {Q : Type 0} (b : ParsedOrderBook Q) (bids asks : List (PriceLevel Q)) (time : ℕ)
    → b.bids ≡ bids
    → b.asks ≡ asks
    → b.timestamp_ms ≡ time
    → some (record b { bids = bids; asks = asks; timestamp_ms = time }) ≡ some b
some_book b bids asks time e f g =
    ap (λ (x : List (PriceLevel _)). some (record b { bids = x; asks = asks; timestamp_ms = time }))
      (sym e)
    ∙ ap (λ (x : List (PriceLevel _)). some (record b { asks = x; timestamp_ms = time })) (sym f)
    ∙ ap (λ (x : ℕ). some (record b { timestamp_ms = x })) (sym g)

module _ {E Q : Type 0} (dom : Dom E) (numbers : Numbers Q) where
  -- The first text of the element is the price, which is scaled and rounded; the second is the size.
  pub record IsPriceLevel (e : E) (l : PriceLevel Q) : Type 0 where
    pub price_str : List ℕ
    pub price : Q
    pub size_str : List ℕ
    pub price_text : string_of_item dom e 0 ≡ some price_str
    pub price_number : numbers.stod price_str ≡ some price
    pub price_scaled : l.price_int ≡ numbers.round_scaled price
    pub size_text : string_of_item dom e 1 ≡ some size_str
    pub size_number : numbers.stod size_str ≡ some l.size

  -- The elements are the levels, one for one.
  abbrev pub AreLevels : List E → List (PriceLevel Q) → Type 0
  AreLevels [] [] = Unit
  AreLevels [] (l ∷ ls) = ⊥
  AreLevels (e ∷ es) [] = ⊥
  AreLevels (e ∷ es) (l ∷ ls) = IsPriceLevel e l × AreLevels es ls

  -- A side that the document does not have is empty.
  abbrev pub IsSide : Option E → List (PriceLevel Q) → Type 0
  IsSide none ls = ls ≡ []
  IsSide (some side) ls = (es : List E) × (dom.items side ≡ some es) × AreLevels es ls

  level_of-IsPriceLevel :
      (e : E) (l : PriceLevel Q) → level_of dom numbers e ≡ some l → IsPriceLevel e l
  level_of-IsPriceLevel e l h =
      let (price_str, a, h1) = bound (string_of_item dom e 0) _ l h in
      let (size_str, b, h2) = bound (string_of_item dom e 1) _ l h1 in
      let (price, c, h3) = bound (numbers.stod price_str) _ l h2 in
      let (size, k, h4) = bound (numbers.stod size_str) _ l h3 in
      let same = some-injective _ l h4 in
      record {
        price_str = price_str;
        price = price;
        size_str = size_str;
        price_text = a;
        price_number = c;
        price_scaled = sym (ap (λ (x : PriceLevel Q). x.price_int) same);
        size_text = b;
        size_number = k ∙ ap some (ap (λ (x : PriceLevel Q). x.size) same);
      }

  IsPriceLevel-level_of :
      (e : E) (l : PriceLevel Q) → IsPriceLevel e l → level_of dom numbers e ≡ some l
  IsPriceLevel-level_of e l v =
      rw (v.price_text, v.price_number, v.size_text, v.size_number, sym v.price_scaled) refl

  levels_of-AreLevels :
      (es : List E) (ls : List (PriceLevel Q))
      → levels_of dom numbers es ≡ some ls
      → AreLevels es ls
  levels_of-AreLevels [] [] h = tt
  levels_of-AreLevels [] (l ∷ ls) h = cc
  levels_of-AreLevels (e ∷ es) ls h =
      let (l, a, h1) = bound (level_of dom numbers e) _ ls h in
      let (rest, b, h2) = bound (levels_of dom numbers es) _ ls h1 in
      subst (AreLevels (e ∷ es)) (some-injective _ ls h2)
        (level_of-IsPriceLevel e l a, levels_of-AreLevels es rest b)

  AreLevels-levels_of :
      (es : List E) (ls : List (PriceLevel Q))
      → AreLevels es ls
      → levels_of dom numbers es ≡ some ls
  AreLevels-levels_of [] [] v = refl
  AreLevels-levels_of [] (l ∷ ls) v = absurd v
  AreLevels-levels_of (e ∷ es) [] v = absurd v
  AreLevels-levels_of (e ∷ es) (l ∷ ls) (v, vs) =
      rw (IsPriceLevel-level_of e l v, AreLevels-levels_of es ls vs) refl

  pub side_levels-IsSide :
      (o : Option E) (ls : List (PriceLevel Q)) → side_levels dom numbers o ≡ some ls → IsSide o ls
  side_levels-IsSide none ls h = sym (some-injective [] ls h)
  side_levels-IsSide (some side) ls h =
      let (es, a, h1) = bound (dom.items side) _ ls h in (es, a, levels_of-AreLevels es ls h1)

  pub IsSide-side_levels :
      (o : Option E) (ls : List (PriceLevel Q)) → IsSide o ls → side_levels dom numbers o ≡ some ls
  IsSide-side_levels none ls v = ap some (sym v)
  IsSide-side_levels (some side) ls (es, a, v) = rw a (AreLevels-levels_of es ls v)
