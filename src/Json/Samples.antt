-- ===== src/Json/Samples.antt =====
-- Documents as trees, integers for doubles, and two messages of the exchanges.
use dpdk_cex_source.Base.{
  ℕ, ◌+◌, ◌-◌, ◌*◌, Bool, true, false, ◌&&◌, leb, ◌==◌, if◌then◌else◌, List, [], ◌∷◌, Option, none,
  some, bytes_eq,
}
use dpdk_cex_source.Base.Text.{bytes}
use dpdk_cex_source.Json.{Dom, Numbers}

mutual
  pub data Tree : Type 0 where
    text : List ℕ → Tree
    number : ℕ → Tree
    truth : Bool → Tree
    array : Trees → Tree
    object : Members → Tree

  pub data Trees : Type 0 where
    no_trees : Trees
    tree_and : Tree → Trees → Trees

  pub data Members : Type 0 where
    no_members : Members
    member_and : List ℕ → Tree → Members → Members

abbrev pub trees : Trees → List Tree
trees no_trees = []
trees (tree_and t ts) = t ∷ trees ts

abbrev pub member : List ℕ → Members → Option Tree
member name no_members = none
member name (member_and n t ms) = if bytes_eq n name then some t else member name ms

abbrev pub digits : List ℕ → ℕ → Option ℕ
digits [] n = some n
digits (c ∷ cs) n = if leb 48 c && leb c 57 then digits cs (n * 10 + (c - 48)) else none

abbrev pub numeral : List ℕ → Option ℕ
numeral [] = none
numeral (c ∷ cs) = digits (c ∷ cs) 0

abbrev pub or_zero : Option ℕ → ℕ
or_zero none = 0
or_zero (some n) = n

abbrev pub integers : Numbers ℕ
integers = record {
  stod = numeral;
  stoull = numeral;
  strtod = λ cs. or_zero (numeral cs);
  strtoull = λ cs. or_zero (numeral cs);
  round_scaled = λ q. q * 100000000;
  truncate_scaled = λ q. q * 100000000;
  is_zero = λ q. q == 0;
}

abbrev pub level : List ℕ → List ℕ → Tree
level price size = array (tree_and (text price) (tree_and (text size) no_trees))

abbrev pub okx_document : Tree
okx_document = object (
    member_and (bytes "arg")
      (object (
        member_and (bytes "channel") (text (bytes "books5"))
          (member_and (bytes "instId") (text (bytes "BTC-USDT")) no_members)))
      (member_and (bytes "action") (text (bytes "snapshot")) (
        member_and (bytes "data")
          (array (
            tree_and
              (object (
                member_and (bytes "bids")
                  (array (tree_and (level (bytes "95") (bytes "2")) no_trees))
                  (member_and (bytes "asks")
                    (array (tree_and (level (bytes "97") (bytes "0")) no_trees))
                    (member_and (bytes "ts") (text (bytes "1597")) no_members))))
              no_trees))
          no_members)))

abbrev pub bybit_document : Tree
bybit_document = object (
    member_and (bytes "topic") (text (bytes "orderbook.50.BTCUSDT")) (
      member_and (bytes "type") (text (bytes "delta")) (
        member_and (bytes "ts") (number 1672) (
          member_and (bytes "data")
            (object (
              member_and (bytes "s") (text (bytes "BTCUSDT")) (
                member_and (bytes "b") (array (tree_and (level (bytes "95") (bytes "2")) no_trees))
                  no_members)))
            no_members))))

-- The texts "okx" and "bybit" stand for the two documents, and others for no document.
abbrev pub trees_dom : Dom Tree
trees_dom = record {
  parse = λ m.
      if bytes_eq m (bytes "okx")
      then some okx_document
      else if bytes_eq m (bytes "bybit")
      then some bybit_document
      else none;
  field = λ e name. elim e [ object ms ↦ member name ms | _ ↦ none ];
  get_string = λ e. elim e [ text t ↦ some t | _ ↦ none ];
  get_bool = λ e. elim e [ truth b ↦ some b | _ ↦ none ];
  get_uint64 = λ e. elim e [ number n ↦ some n | _ ↦ none ];
  items = λ e. elim e [ array ts ↦ some (trees ts) | _ ↦ none ];
  is_object = λ e. elim e [ object ms ↦ true | _ ↦ false ];
}
