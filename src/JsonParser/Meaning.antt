-- ===== src/JsonParser/Meaning.antt =====
-- What a message says, as a relation between the document and the market data that JsonParser of
-- src/modules/parser/json_parser.cpp makes of it.
use mathlib.Core.Path.{subst}
use dpdk_cex_source.Base.{
  ℕ, ◌≡◌, ◌↔◌, ◌⊎◌, inl, inr, refl, sym, ap, ◌∙◌, ◌*◌, ◌%◌, ◌^◌, Bool, true, false, if◌then◌else◌,
  List, [], ◌∷◌, ◌++◌, Option, none, some, take, bytes_eq,
}
use dpdk_cex_source.Base.Text.{bytes}
use dpdk_cex_source.OrderBook.{Side, bid, ask, OrderBookUpdate}
use dpdk_cex_source.Json.{Dom, Numbers, string_of_item, string_at}
use dpdk_cex_source.Json.Sides.{bound, some-injective, bytes_eq_iff}
use dpdk_cex_source.JsonParser.{
  MessageType, snapshot, update, okx_type, bybit_type, parse_update, array_at, ms_to_ns,
}
use dpdk_cex_source.JsonParser.MarketData.{updates_of, side_updates, elements_data}

-- The two types of messages; the second has another name for each exchange.
abbrev pub IsType : List ℕ → List ℕ → MessageType → Type 0
IsType update_name text t =
    ((text ≡ bytes "snapshot") × (t ≡ snapshot)) ⊎ ((text ≡ update_name) × (t ≡ update))

read_type :
    {P R : Type 0} (b c : Bool) (t : MessageType)
    → (b ≡ true) ↔ P
    → (c ≡ true) ↔ R
    → (if b then some snapshot else if c then some update else none) ≡ some t
    → (P × (t ≡ snapshot)) ⊎ (R × (t ≡ update))
read_type true c t p r h = inl (p.0 refl, sym (some-injective snapshot t h))
read_type false true t p r h = inr (r.0 refl, sym (some-injective update t h))
read_type false false t p r h = cc

module _ {E Q : Type 0} (dom : Dom E) (numbers : Numbers Q) where
  pub okx_type_iff :
      (text : List ℕ) (t : MessageType)
      → (okx_type dom numbers text ≡ some t) ↔ IsType (bytes "update") text t
  okx_type_iff text t = (
    λ h.
        read_type (bytes_eq text (bytes "snapshot")) (bytes_eq text (bytes "update")) t
          (bytes_eq_iff text _) (bytes_eq_iff text _) h,
    λ v. elim v [ inl (e, f) ↦ rw (e, f) refl | inr (e, f) ↦ rw (e, f) refl ],
  )

  pub bybit_type_iff :
      (text : List ℕ) (t : MessageType)
      → (bybit_type dom numbers text ≡ some t) ↔ IsType (bytes "delta") text t
  bybit_type_iff text t = (
    λ h.
        read_type (bytes_eq text (bytes "snapshot")) (bytes_eq text (bytes "delta")) t
          (bytes_eq_iff text _) (bytes_eq_iff text _) h,
    λ v. elim v [ inl (e, f) ↦ rw (e, f) refl | inr (e, f) ↦ rw (e, f) refl ],
  )

  -- The first text of the element is the price, cut to 63 bytes and scaled, and the second the size,
  -- and the level is deleted if the size is zero.
  pub record IsUpdate (side : Side) (e : E) (u : OrderBookUpdate Q) : Type 0 where
    pub price_str : List ℕ
    pub size_str : List ℕ
    pub price_text : string_of_item dom e 0 ≡ some price_str
    pub size_text : string_of_item dom e 1 ≡ some size_str
    pub price : u.price_int ≡ numbers.truncate_scaled (numbers.strtod (take 63 price_str))
    pub size : u.quantity ≡ numbers.strtod (take 63 size_str)
    pub of_side : u.side ≡ side
    pub deletes : u.is_delete ≡ numbers.is_zero u.quantity

  parse_update_iff :
      (side : Side) (e : E) (u : OrderBookUpdate Q)
      → (parse_update dom numbers side e ≡ some u) ↔ IsUpdate side e u
  parse_update_iff side e u = (
    λ h.
        let (price_str, a, h1) = bound (string_of_item dom e 0) _ u h in
        let (size_str, b, h2) = bound (string_of_item dom e 1) _ u h1 in
        let same = some-injective _ u h2 in
        let size = sym (ap (λ (x : OrderBookUpdate Q). x.quantity) same) in
        record {
          price_str = price_str;
          size_str = size_str;
          price_text = a;
          size_text = b;
          price = sym (ap (λ (x : OrderBookUpdate Q). x.price_int) same);
          size = size;
          of_side = sym (ap (λ (x : OrderBookUpdate Q). x.side) same);
          deletes =
              sym (ap (λ (x : OrderBookUpdate Q). x.is_delete) same)
              ∙ ap numbers.is_zero (sym size);
        },
    λ v. rw (v.price_text, v.size_text, sym v.price, sym v.size, sym v.deletes, sym v.of_side) refl,
  )

  abbrev pub AreUpdates : Side → List E → List (OrderBookUpdate Q) → Type 0
  AreUpdates side [] [] = Unit
  AreUpdates side [] (u ∷ us) = ⊥
  AreUpdates side (e ∷ es) [] = ⊥
  AreUpdates side (e ∷ es) (u ∷ us) = IsUpdate side e u × AreUpdates side es us

  read_updates :
      (side : Side) (es : List E) (us : List (OrderBookUpdate Q))
      → updates_of dom numbers side es ≡ some us
      → AreUpdates side es us
  read_updates side [] [] h = tt
  read_updates side [] (u ∷ us) h = cc
  read_updates side (e ∷ es) us h =
      let (u, a, h1) = bound (parse_update dom numbers side e) _ us h in
      let (rest, b, h2) = bound (updates_of dom numbers side es) _ us h1 in
      subst (AreUpdates side (e ∷ es)) (some-injective _ us h2)
        ((parse_update_iff side e u).0 a, read_updates side es rest b)

  write_updates :
      (side : Side) (es : List E) (us : List (OrderBookUpdate Q))
      → AreUpdates side es us
      → updates_of dom numbers side es ≡ some us
  write_updates side [] [] v = refl
  write_updates side [] (u ∷ us) v = absurd v
  write_updates side (e ∷ es) [] v = absurd v
  write_updates side (e ∷ es) (u ∷ us) (v, vs) =
      rw ((parse_update_iff side e u).1 v, write_updates side es us vs) refl

  -- A side that is missing or no array has no updates.
  abbrev pub IsSideOf : Side → Option (List E) → List (OrderBookUpdate Q) → Type 0
  IsSideOf side none us = us ≡ []
  IsSideOf side (some es) us = AreUpdates side es us

  pub side_iff :
      (side : Side) (o : Option (List E)) (us : List (OrderBookUpdate Q))
      → (side_updates dom numbers side o ≡ some us) ↔ IsSideOf side o us
  side_iff side none us = (λ h. sym (some-injective [] us h), λ v. ap some (sym v))
  side_iff side (some es) us = (read_updates side es us, write_updates side es us)

  -- Milliseconds to nanoseconds, in 64 bits.
  abbrev pub ns : ℕ → ℕ
  ns ms = ms * 1000000 % 2 ^ 64

  -- The time of the last element, and of each element its bids and then its asks.
  abbrev pub AreElements : ℕ → List E → ℕ × List (OrderBookUpdate Q) → Type 0
  AreElements time [] p = (p.0 ≡ time) × (p.1 ≡ [])
  AreElements time (e ∷ es) p =
      (ts_str : List ℕ) × (bids : List (OrderBookUpdate Q)) × (asks : List (OrderBookUpdate Q))
      × (rest : List (OrderBookUpdate Q)) × (string_at dom e (bytes "ts") ≡ some ts_str)
      × IsSideOf bid (array_at dom numbers e (bytes "bids")) bids
      × IsSideOf ask (array_at dom numbers e (bytes "asks")) asks
      × AreElements (ns (numbers.strtoull (take 31 ts_str))) es (p.0, rest)
      × (p.1 ≡ bids ++ (asks ++ rest))

  pub read_elements :
      (time : ℕ) (es : List E) (p : ℕ × List (OrderBookUpdate Q))
      → elements_data dom numbers time es ≡ some p
      → AreElements time es p
  read_elements time [] p h =
      let same = some-injective _ p h in
      (
        sym (ap (λ (x : ℕ × List (OrderBookUpdate Q)). x.0) same),
        sym (ap (λ (x : ℕ × List (OrderBookUpdate Q)). x.1) same),
      )
  read_elements time (e ∷ es) p h =
      let (ts_str, a, h1) = bound (string_at dom e (bytes "ts")) _ p h in
      let bid_items = array_at dom numbers e (bytes "bids") in
      let ask_items = array_at dom numbers e (bytes "asks") in
      let (bids, b, h2) = bound (side_updates dom numbers bid bid_items) _ p h1 in
      let (asks, c, h3) = bound (side_updates dom numbers ask ask_items) _ p h2 in
      let later = elements_data dom numbers (ms_to_ns (numbers.strtoull (take 31 ts_str))) es in
      let (rest, k, h4) = bound later _ p h3 in
      let same = some-injective _ p h4 in
      let time_eq = ap (λ (x : ℕ × List (OrderBookUpdate Q)). x.0) same in
      (
        ts_str,
        bids,
        asks,
        rest.1,
        a,
        (side_iff bid bid_items bids).0 b,
        (side_iff ask ask_items asks).0 c,
        subst (λ (t : ℕ). AreElements (ns (numbers.strtoull (take 31 ts_str))) es (t, rest.1))
            time_eq (read_elements (ms_to_ns (numbers.strtoull (take 31 ts_str))) es rest k),
        sym (ap (λ (x : ℕ × List (OrderBookUpdate Q)). x.1) same),
      )

  pub write_elements :
      (time : ℕ) (es : List E) (p : ℕ × List (OrderBookUpdate Q))
      → AreElements time es p
      → elements_data dom numbers time es ≡ some p
  write_elements time [] p (e, f) = rw (sym e) (ap (λ us. some (p.0, us)) (sym f))
  write_elements time (e ∷ es) p (ts_str, bids, asks, rest, a, b, c, k, f) =
      let later = write_elements (ns (numbers.strtoull (take 31 ts_str))) es (p.0, rest) k in
      rw
        (
          a,
          (side_iff bid (array_at dom numbers e (bytes "bids")) bids).1 b,
          (side_iff ask (array_at dom numbers e (bytes "asks")) asks).1 c,
          later,
        )
        (ap (λ us. some (p.0, us)) (sym f))
