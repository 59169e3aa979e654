-- ===== src/ExchangeRegistry.antt =====
-- src/modules/exchange/exchange_registry.h: the adapters by exchange, a std::map. An adapter is a value
-- of A.
use dpdk_cex_source.Base.{◌≡◌, refl, Bool, true, false, List, [], ◌∷◌, Option, none, some, ◌∙◌, ap}
use Prim.Native.Nat.Ordering.{eq}
use dpdk_cex_source.AeroTypes.{ExchangeId, exchange_ord}
use dpdk_cex_source.Base.SortedMap.Ext.{find-insert}
use dpdk_cex_source.Base.SortedMap.{SortedMap, find, insert, IsSorted, insert-IsSorted}

pub record ExchangeRegistry (A : Type 0) : Type 0 where
  pub adapters : SortedMap ExchangeId A

module _ {A : Type 0} where
  unfoldable pub register_adapter : ExchangeRegistry A → ExchangeId → A → ExchangeRegistry A
  register_adapter r id adapter = record { adapters = insert exchange_ord id adapter r.adapters }

  unfoldable pub get_adapter : ExchangeRegistry A → ExchangeId → Option A
  get_adapter r id = find exchange_ord id r.adapters

  unfoldable pub has_adapter : ExchangeRegistry A → ExchangeId → Bool
  has_adapter r id = elim (find exchange_ord id r.adapters) [ none ↦ false | some a ↦ true ]

  abbrev pub keys : SortedMap ExchangeId A → List ExchangeId
  keys [] = []
  keys ((id, adapter) ∷ m) = id ∷ keys m

  unfoldable pub get_registered_exchanges : ExchangeRegistry A → List ExchangeId
  get_registered_exchanges r = keys r.adapters

  -- The adapter that a list of registrations gives an exchange last.
  abbrev pub chosen : ExchangeId → ExchangeId → A → Option A → Option A
  chosen id j adapter found = elim (exchange_ord.cmp id j) [ eq ↦ some adapter | _ ↦ found ]

  abbrev pub last_of : List (ExchangeId × A) → ExchangeId → Option A → Option A
  last_of [] id found = found
  last_of ((j, adapter) ∷ rest) id found = last_of rest id (chosen id j adapter found)

  abbrev pub register_all : ExchangeRegistry A → List (ExchangeId × A) → ExchangeRegistry A
  register_all r [] = r
  register_all r ((j, adapter) ∷ rest) = register_all (register_adapter r j adapter) rest

  get_adapter-register_adapter :
      (r : ExchangeRegistry A) (id j : ExchangeId) (adapter : A)
      → IsSorted exchange_ord r.adapters
      → get_adapter (register_adapter r j adapter) id ≡ chosen id j adapter (get_adapter r id)
  unfolding get_adapter register_adapter
  get_adapter-register_adapter r id j adapter s = find-insert exchange_ord j id adapter r.adapters s

  -- After any registrations on a registry whose map is sorted, get_adapter gives for each exchange the
  -- adapter that was registered last for it, or what it gave before if there was none.
  get_adapter-register_all :
      (r : ExchangeRegistry A) (regs : List (ExchangeId × A)) (id : ExchangeId)
      → IsSorted exchange_ord r.adapters
      → get_adapter (register_all r regs) id ≡ last_of regs id (get_adapter r id)
  unfolding register_adapter
  get_adapter-register_all r [] id s = refl
  get_adapter-register_all r ((j, adapter) ∷ rest) id s =
      get_adapter-register_all (register_adapter r j adapter) rest id
        (insert-IsSorted exchange_ord j adapter r.adapters s)
      ∙ ap (last_of rest id) (get_adapter-register_adapter r id j adapter s)
