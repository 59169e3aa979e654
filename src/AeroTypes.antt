-- ===== src/AeroTypes.antt =====
-- src/modules/common/aero_types.h: the exchange identifiers.
use Prim.Native.Nat.{Ordering, compare}
use dpdk_cex_source.Base.{ℕ, ◌≡◌, arith}
use dpdk_cex_source.Base.Ord.{Ord, IsStrictOrder}

pub data ExchangeId : Type 0 where
  okx bybit binance gate bitget mexc unknown : ExchangeId

-- The `uint8_t` behind the enumerator.
unfoldable pub exchange_code : ExchangeId → ℕ
exchange_code okx = 0
exchange_code bybit = 1
exchange_code binance = 2
exchange_code gate = 3
exchange_code bitget = 4
exchange_code mexc = 5
exchange_code unknown = 255

pub exchange_code-injective : (a b : ExchangeId) → exchange_code a ≡ exchange_code b → a ≡ b
unfolding exchange_code
exchange_code-injective a b h = ground arith

abbrev pub compare_exchange : ExchangeId → ExchangeId → Ordering
compare_exchange a b = compare (exchange_code a) (exchange_code b)

pub compare_exchange-IsStrictOrder : IsStrictOrder compare_exchange
compare_exchange-IsStrictOrder = record {
  same = λ a. ground arith;
  equal = λ a b h. exchange_code-injective a b (ground arith);
  turned = λ a b h. ground arith;
  chained = λ a b c h k. ground arith;
}

abbrev pub exchange_ord : Ord ExchangeId
exchange_ord = record { cmp = compare_exchange; laws = compare_exchange-IsStrictOrder }
