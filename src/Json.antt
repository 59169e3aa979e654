-- ===== src/Json.antt =====
-- What the parsers use of simdjson and of the C library's number conversions. These are parameters: E
-- is an element of a document, Q a double. A lookup that simdjson answers with an error is none.
pub mod Books
pub mod Sides
pub mod Samples
use dpdk_cex_source.Base.{
  ℕ, zero, suc, Bool, true, false, if◌then◌else◌, List, [], ◌∷◌, ◌++◌, Option, none, some,
  get_elem?, bytes_eq, not,
}
use dpdk_cex_source.UdpFeed.{PriceLevel, ParsedOrderBook}

pub record Dom (E : Type 0) : Type 0 where
  -- dom::parser::parse or ondemand::parser::iterate; none if it throws
  pub parse : List ℕ → Option E
  pub field : E → List ℕ → Option E
  pub get_string : E → Option (List ℕ)
  pub get_bool : E → Option Bool
  pub get_uint64 : E → Option ℕ
  pub items : E → Option (List E)
  pub is_object : E → Bool

-- Conversions: `stod` and `stoull` throw, `strtod` and `strtoull` do not.
pub record Numbers (Q : Type 0) : Type 0 where
  pub stod : List ℕ → Option Q
  pub stoull : List ℕ → Option ℕ
  pub strtod : List ℕ → Q
  pub strtoull : List ℕ → ℕ
  -- `static_cast<uint64_t>(std::round(price * PRICE_SCALE))`, and without `std::round`
  pub round_scaled : Q → ℕ
  pub truncate_scaled : Q → ℕ
  pub is_zero : Q → Bool

infixl 5 ◌>>=◌
abbrev pub ◌>>=◌ : {A B : Type 0} → Option A → (A → Option B) → Option B
none >>= f = none
some a >>= f = f a

-- Code that fills s and fails: `false` and what was filled so far.
abbrev pub or_fail : {A S : Type 0} → Option A → S → (A → Bool × S) → Bool × S
or_fail none s f = (false, s)
or_fail (some a) s f = f a

-- The code after a part that may have failed.
abbrev pub then_run : {S : Type 0} → Bool × S → (S → Bool × S) → Bool × S
then_run (true, s) f = f s
then_run (false, s) f = (false, s)

module _ {E : Type 0} (dom : Dom E) where
  -- `element["a"].get(string)` and `element["a"]["b"].get(string)`
  abbrev pub string_at : E → List ℕ → Option (List ℕ)
  string_at e name = do inner ← dom.field e name; dom.get_string inner

  abbrev pub string_in : E → List ℕ → List ℕ → Option (List ℕ)
  string_in e outer name = do inner ← dom.field e outer; string_at inner name

  -- `element.at(i).get_string().value()`
  abbrev pub string_of_item : E → ℕ → Option (List ℕ)
  string_of_item e i = do es ← dom.items e; x ← get_elem? es i; dom.get_string x

  abbrev pub has_value : E → List ℕ → List ℕ → Bool
  has_value e name value = elim (string_at e name) [
    | none ↦ false
    | some text ↦ bytes_eq text value
  ]

module _ {E Q : Type 0} (dom : Dom E) (numbers : Numbers Q) where
  -- The body of the loops over one side; none if it throws.
  abbrev pub level_of : E → Option (PriceLevel Q)
  level_of e = do
    price_str ← string_of_item dom e 0
    size_str ← string_of_item dom e 1
    price ← numbers.stod price_str
    size ← numbers.stod size_str
    some (record { price_int = numbers.round_scaled price; size = size })

  -- The loop, which appends to the levels of the book.
  unfoldable pub add_levels : List E → List (PriceLevel Q) → Bool × List (PriceLevel Q)
  add_levels [] levels = (true, levels)
  add_levels (e ∷ es) levels =
      or_fail (level_of e) levels (λ level. add_levels es (levels ++ level ∷ []))

  -- A side that the document does not have is skipped, and one that is no array throws.
  unfoldable pub add_side : Option E → List (PriceLevel Q) → Bool × List (PriceLevel Q)
  unfolding add_levels
  add_side none levels = (true, levels)
  add_side (some side) levels = or_fail (dom.items side) levels (λ es. add_levels es levels)

  unfoldable pub add_bids : Option E → ParsedOrderBook Q → Bool × ParsedOrderBook Q
  unfolding add_side
  add_bids side book =
      let (ok, levels) = add_side side book.bids in (ok, record book { bids = levels })

  unfoldable pub add_asks : Option E → ParsedOrderBook Q → Bool × ParsedOrderBook Q
  unfolding add_side
  add_asks side book =
      let (ok, levels) = add_side side book.asks in (ok, record book { asks = levels })
