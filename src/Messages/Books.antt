-- ===== src/Messages/Books.antt =====
-- What WebSocketClient::process_websocket_frame of src/modules/network/websocket_client.cpp makes of a
-- framed message of OKX: exactly the well-formed ones update a book.
use mathlib.Core.Path.{subst}
use dpdk_cex_source.Base.{
  ℕ, ◌≡◌, ◌↔◌, refl, sym, ap, ◌∙◌, List, [], ◌∷◌, Option, none, some, bytes_eq,
}
use dpdk_cex_source.Base.Text.{bytes}
use dpdk_cex_source.AeroTypes.{okx}
use dpdk_cex_source.Json.{Dom, Numbers, string_at, string_in, string_of_item}
use dpdk_cex_source.OrderBook.Manager.{OrderBookLevel}
use dpdk_cex_source.Messages.{
  Outcome, value, returns, throws_json, throws_stod, ◌>>=◌, read, convert, BookUpdate, level_of,
  levels_of, array_at, first_of, okx_update,
}

module _ {E Q : Type 0} (dom : Dom E) (numbers : Numbers Q) where
  -- The element is an array that begins with the texts of a price and a size.
  pub record IsLevel (e : E) (l : OrderBookLevel Q) : Type 0 where
    pub price_str : List ℕ
    pub price : Q
    pub size_str : List ℕ
    pub price_text : string_of_item dom e 0 ≡ some price_str
    pub price_number : numbers.stod price_str ≡ some price
    pub price_scaled : l.price_int ≡ numbers.truncate_scaled price
    pub size_text : string_of_item dom e 1 ≡ some size_str
    pub size_number : numbers.stod size_str ≡ some l.size

  -- The elements are the levels, one for one.
  pub data AreLevels : List E → List (OrderBookLevel Q) → Type 0 where
    no_levels : AreLevels [] []
    level_and :
        {e : E} {es : List E} {l : OrderBookLevel Q} {ls : List (OrderBookLevel Q)}
        → IsLevel e l
        → AreLevels es ls
        → AreLevels (e ∷ es) (l ∷ ls)

  -- The document is a message of OKX with this update in the first element of its data.
  pub record IsOkxMessage (doc : E) (u : BookUpdate Q) : Type 0 where
    pub channel : List ℕ
    pub action : List ℕ
    pub data_obj : E
    pub others : List E
    pub bids : List E
    pub asks : List E
    pub has_exchange : u.exchange ≡ okx
    pub has_channel : string_in dom doc (bytes "arg") (bytes "channel") ≡ some channel
    pub has_instrument : string_in dom doc (bytes "arg") (bytes "instId") ≡ some u.instrument_id
    pub has_action : string_at dom doc (bytes "action") ≡ some action
    pub has_kind : u.is_snapshot ≡ bytes_eq action (bytes "snapshot")
    pub has_data : array_at dom numbers doc (bytes "data") ≡ some (data_obj ∷ others)
    pub has_bids : array_at dom numbers data_obj (bytes "bids") ≡ some bids
    pub are_bids : AreLevels bids u.new_bids
    pub has_asks : array_at dom numbers data_obj (bytes "asks") ≡ some asks
    pub are_asks : AreLevels asks u.new_asks

  level_of-value : (e : E) (l : OrderBookLevel Q) → IsLevel e l → level_of dom numbers e ≡ value l
  unfolding level_of
  level_of-value e l v =
      rw (v.price_text, v.price_number, v.size_text, v.size_number, sym v.price_scaled) refl

  levels_of-value :
      (es : List E) (ls : List (OrderBookLevel Q))
      → AreLevels es ls
      → levels_of dom numbers es ≡ value ls
  unfolding levels_of
  levels_of-value _ _ no_levels = refl
  levels_of-value _ _ (level_and v vs) = rw (level_of-value _ _ v, levels_of-value _ _ vs) refl

  okx_update-value :
      (doc : E) (u : BookUpdate Q) → IsOkxMessage doc u → okx_update dom numbers doc ≡ value u
  unfolding okx_update
  okx_update-value doc u v =
      rw
        (
          v.has_channel,
          v.has_instrument,
          v.has_action,
          v.has_data,
          v.has_bids,
          levels_of-value v.bids u.new_bids v.are_bids,
          v.has_asks,
          levels_of-value v.asks u.new_asks v.are_asks,
          sym v.has_exchange,
          sym v.has_kind,
        )
        refl

  bind-value :
      {A B : Type 0} (o : Outcome A) (f : A → Outcome B) (b : B)
      → (o >>= f) ≡ value b
      → (a : A) × (o ≡ value a) × (f a ≡ value b)
  bind-value (value a) f b e = (a, refl, e)
  bind-value returns f b e = cc
  bind-value throws_json f b e = cc
  bind-value throws_stod f b e = cc

  read-bind :
      {A B : Type 0} (o : Option A) (f : A → Outcome B) (b : B)
      → (read o >>= f) ≡ value b
      → (a : A) × (o ≡ some a) × (f a ≡ value b)
  read-bind none f b e = cc
  read-bind (some a) f b e = (a, refl, e)

  convert-bind :
      {A B : Type 0} (o : Option A) (f : A → Outcome B) (b : B)
      → (convert o >>= f) ≡ value b
      → (a : A) × (o ≡ some a) × (f a ≡ value b)
  convert-bind none f b e = cc
  convert-bind (some a) f b e = (a, refl, e)

  first_of-bind :
      {B : Type 0} (es : List E) (f : E → Outcome B) (b : B)
      → (first_of dom numbers es >>= f) ≡ value b
      → (x : E) × (rest : List E) × (es ≡ x ∷ rest) × (f x ≡ value b)
  first_of-bind [] f b e = cc
  first_of-bind (x ∷ rest) f b e = (x, rest, refl, e)

  value-injective : {A : Type 0} (a b : A) → value a ≡ value b → a ≡ b
  value-injective a b e = cc

  level_of-IsLevel : (e : E) (l : OrderBookLevel Q) → level_of dom numbers e ≡ value l → IsLevel e l
  unfolding level_of
  level_of-IsLevel e l h =
      let (price_str, a, h1) = read-bind (string_of_item dom e 0) _ l h in
      let (price, b, h2) = convert-bind (numbers.stod price_str) _ l h1 in
      let (size_str, c, h3) = read-bind (string_of_item dom e 1) _ l h2 in
      let (size, k, h4) = convert-bind (numbers.stod size_str) _ l h3 in
      record {
        price_str = price_str;
        price = price;
        size_str = size_str;
        price_text = a;
        price_number = b;
        price_scaled = cc;
        size_text = c;
        size_number = cc;
      }

  levels_of-AreLevels :
      (es : List E) (ls : List (OrderBookLevel Q))
      → levels_of dom numbers es ≡ value ls
      → AreLevels es ls
  unfolding levels_of
  levels_of-AreLevels [] [] h = no_levels
  levels_of-AreLevels [] (l ∷ ls) h = cc
  levels_of-AreLevels (e ∷ es) ls h =
      let (l, a, h1) = bind-value (level_of dom numbers e) _ ls h in
      let (rest, b, h2) = bind-value (levels_of dom numbers es) _ ls h1 in
      subst (AreLevels (e ∷ es)) (value-injective (l ∷ rest) ls h2)
        (level_and (level_of-IsLevel e l a) (levels_of-AreLevels es rest b))

  okx_update-IsOkxMessage :
      (doc : E) (u : BookUpdate Q) → okx_update dom numbers doc ≡ value u → IsOkxMessage doc u
  unfolding okx_update
  okx_update-IsOkxMessage doc u h =
      let arg = string_in dom doc (bytes "arg") in
      let (channel, h1, k1) = read-bind (arg (bytes "channel")) _ u h in
      let (inst, h2, k2) = read-bind (arg (bytes "instId")) _ u k1 in
      let (action, h3, k3) = read-bind (string_at dom doc (bytes "action")) _ u k2 in
      let (data_array, h4, k4) = read-bind (array_at dom numbers doc (bytes "data")) _ u k3 in
      let (obj, others, h5, k5) = first_of-bind data_array _ u k4 in
      let (bids, h6, k6) = read-bind (array_at dom numbers obj (bytes "bids")) _ u k5 in
      let (new_bids, h7, k7) = bind-value (levels_of dom numbers bids) _ u k6 in
      let (asks, h8, k8) = read-bind (array_at dom numbers obj (bytes "asks")) _ u k7 in
      let (new_asks, h9, k9) = bind-value (levels_of dom numbers asks) _ u k8 in
      let same = value-injective _ u k9 in
      record {
        channel = channel;
        action = action;
        data_obj = obj;
        others = others;
        bids = bids;
        asks = asks;
        has_exchange = sym (ap (λ (x : BookUpdate Q). x.exchange) same);
        has_channel = h1;
        has_instrument = h2 ∙ ap (λ (x : BookUpdate Q). some x.instrument_id) same;
        has_action = h3;
        has_kind = sym (ap (λ (x : BookUpdate Q). x.is_snapshot) same);
        has_data = h4 ∙ ap some h5;
        has_bids = h6;
        are_bids =
            levels_of-AreLevels bids u.new_bids
              (h7 ∙ ap (λ (x : BookUpdate Q). value x.new_bids) same);
        has_asks = h8;
        are_asks =
            levels_of-AreLevels asks u.new_asks
              (h9 ∙ ap (λ (x : BookUpdate Q). value x.new_asks) same);
      }

  -- The OKX part of the method succeeds with exactly the updates that the document holds: it has the
  -- channel, the instrument, the action and a first element of data, whose bids and asks are arrays
  -- of levels of numbers; the price is scaled, and the update is a snapshot if the action says so.
  pub okx_update_iff :
      (doc : E) (u : BookUpdate Q) → (okx_update dom numbers doc ≡ value u) ↔ IsOkxMessage doc u
  okx_update_iff doc u = (okx_update-IsOkxMessage doc u, okx_update-value doc u)
