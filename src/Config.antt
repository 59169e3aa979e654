-- ===== src/Config.antt =====
-- src/config/config.h and config.c: the configuration from environment variables, and the loops of
-- src/main.cpp over the configured symbols. `env name` is the value of getenv; atoi and strtod are
-- parameters; malloc and strdup succeed. Printing leaves no trace.
pub mod Fields
pub mod Symbols
pub mod Required
mod Tests
use dpdk_cex_source.Base.{
  ℕ, zero, suc, ◌+◌, ◌-◌, Bool, true, false, ◌&&◌, ◌||◌, leb, ◌==◌, if◌then◌else◌, List, [], ◌∷◌,
  ◌++◌, map, Option, none, some, length, take, replicate, bytes_eq,
}
use dpdk_cex_source.Base.Text.{bytes}

-- An entry of an array of symbols from malloc: not set, or a string.
pub data Slot : Type 0 where
  unset : Slot
  symbol : List ℕ → Slot

pub record CNumbers (I D : Type 0) : Type 0 where
  pub atoi : List ℕ → I
  pub strtod : List ℕ → D

-- app_config_t; I is int and D is double. A null pointer of a string is none, and the null pointer of
-- an array of symbols is the empty list.
pub record AppConfig (I D : Type 0) : Type 0 where
  pub okx_api_key : Option (List ℕ)
  pub okx_api_secret : Option (List ℕ)
  pub okx_passphrase : Option (List ℕ)
  pub okx_symbols : List Slot
  pub okx_symbol_count : ℕ
  pub bybit_api_key : Option (List ℕ)
  pub bybit_api_secret : Option (List ℕ)
  pub bybit_symbols : List Slot
  pub bybit_symbol_count : ℕ
  pub ws_retry_enabled : Bool
  pub ws_retry_max_attempts : I
  pub ws_retry_initial_delay_ms : I
  pub ws_retry_max_delay_ms : I
  pub ws_retry_backoff_multiplier : D
  pub debug_log_enabled : Bool
  pub enable_execution : Bool
  pub log_price_enabled : Bool
  pub log_system_enabled : Bool
  pub log_trade_enabled : Bool
  pub udp_feed_enabled : Bool
  pub udp_feed_port : I
  pub udp_feed_address : List ℕ
  pub log_price_file : List ℕ
  pub log_system_file : List ℕ
  pub log_trade_file : List ℕ

abbrev pub Env : Type 0
Env = List ℕ → Option (List ℕ)

-- The value, and `*missing`.
abbrev pub is_missing : Option (List ℕ) → Bool → Bool
is_missing none missing = true
is_missing (some val) missing = missing

abbrev pub or_default : Option (List ℕ) → List ℕ → List ℕ
or_default none default_val = default_val
or_default (some val) default_val = val

abbrev pub get_optional_env : Env → List ℕ → List ℕ → List ℕ
get_optional_env env name default_val = or_default (env name) default_val

abbrev pub comma : ℕ
comma = 44

-- The first pass: one more than the delimiters.
unfoldable pub count_delimiters : List ℕ → ℕ
count_delimiters [] = 0
count_delimiters (c ∷ s) = let rest = count_delimiters s in if c == comma then suc rest else rest

abbrev pub token : List ℕ → List (List ℕ)
token [] = []
token (x ∷ xs) = (x ∷ xs) ∷ []

-- The tokens of strtok, with the bytes of the one that has begun: a run of delimiters is skipped.
unfoldable pub tokens_from : List ℕ → List ℕ → List (List ℕ)
tokens_from begun [] = token begun
tokens_from begun (c ∷ s) = elim (c == comma) [
  | true ↦ token begun ++ tokens_from [] s
  | false ↦ tokens_from (begun ++ c ∷ []) s
]

-- The array with its first entries set to the tokens, and out_count.
unfoldable pub filled_symbols : List ℕ → List Slot × ℕ
unfolding count_delimiters tokens_from
filled_symbols env_val =
    let count = 1 + count_delimiters env_val in
    let found = tokens_from [] env_val in
    (map symbol found ++ replicate (count - length found) unset, count)

-- An empty value leaves the two outputs as they were.
unfoldable pub parse_csv_symbols : List ℕ → List Slot × ℕ → List Slot × ℕ
unfolding filled_symbols
parse_csv_symbols [] out = out
parse_csv_symbols (c ∷ s) out = filled_symbols (c ∷ s)

abbrev pub defaults : List (List ℕ) → List Slot × ℕ
defaults names = (map symbol names, length names)

abbrev pub okx_defaults : List (List ℕ)
okx_defaults =
    bytes "ETH-USDT-SWAP"
    ∷ bytes "XRP-USDT-SWAP"
    ∷ bytes "SOL-USDT-SWAP"
    ∷ bytes "TRX-USDT-SWAP"
    ∷ bytes "DOGE-USDT-SWAP"
    ∷ []

abbrev pub bybit_defaults : List (List ℕ)
bybit_defaults =
    bytes "ETHUSDT" ∷ bytes "XRPUSDT" ∷ bytes "SOLUSDT" ∷ bytes "TRXUSDT" ∷ bytes "DOGEUSDT" ∷ []

unfoldable pub load_symbols : Option (List ℕ) → List (List ℕ) → List Slot × ℕ → List Slot × ℕ
unfolding parse_csv_symbols
load_symbols none names out = defaults names
load_symbols (some env_val) names out = parse_csv_symbols env_val out

abbrev pub lower : ℕ → ℕ
lower c = if leb 65 c && leb c 90 then c + 32 else c

-- `strcasecmp(s, "true") == 0 || strcmp(s, "1") == 0`
abbrev pub is_on : List ℕ → Bool
is_on s = bytes_eq (map lower s) (bytes "true") || bytes_eq s (bytes "1")

module _ {I D : Type 0} (numbers : CNumbers I D) (env : Env) where
  abbrev pub optional : List ℕ → List ℕ → List ℕ
  optional name default_val = get_optional_env env name default_val

  -- The keys, the symbols and the retry settings, which are read before the test of `missing`.
  unfoldable pub load_first : AppConfig I D → AppConfig I D
  unfolding load_symbols
  load_first c =
      let okx_symbols =
        load_symbols (env (bytes "TRADING_SYMBOLS_OKX")) okx_defaults
          (c.okx_symbols, c.okx_symbol_count) in
      let bybit_symbols =
        load_symbols (env (bytes "TRADING_SYMBOLS_BYBIT")) bybit_defaults
          (c.bybit_symbols, c.bybit_symbol_count) in
      record c {
        okx_api_key = env (bytes "OKX_API_KEY");
        okx_api_secret = env (bytes "OKX_API_SECRET");
        okx_passphrase = env (bytes "OKX_PASSPHRASE");
        bybit_api_key = env (bytes "BYBIT_API_KEY");
        bybit_api_secret = env (bytes "BYBIT_API_SECRET");
        okx_symbols = okx_symbols.0;
        okx_symbol_count = okx_symbols.1;
        bybit_symbols = bybit_symbols.0;
        bybit_symbol_count = bybit_symbols.1;
        ws_retry_enabled = is_on (optional (bytes "WS_RETRY_ENABLED") (bytes "true"));
        ws_retry_max_attempts =
            numbers.atoi (optional (bytes "WS_RETRY_MAX_ATTEMPTS") (bytes "10"));
        ws_retry_initial_delay_ms =
            numbers.atoi (optional (bytes "WS_RETRY_INITIAL_DELAY_MS") (bytes "1000"));
        ws_retry_max_delay_ms =
            numbers.atoi (optional (bytes "WS_RETRY_MAX_DELAY_MS") (bytes "30000"));
        ws_retry_backoff_multiplier =
            numbers.strtod (optional (bytes "WS_RETRY_BACKOFF_MULTIPLIER") (bytes "2.0"));
      }

  unfoldable pub load_rest : AppConfig I D → AppConfig I D
  load_rest c = record c {
    debug_log_enabled = is_on (optional (bytes "DEBUG_LOG_ENABLED") (bytes "false"));
    enable_execution = is_on (optional (bytes "ENABLE_EXECUTION") (bytes "false"));
    log_price_enabled = is_on (optional (bytes "LOG_PRICE_ENABLED") (bytes "true"));
    log_system_enabled = is_on (optional (bytes "LOG_SYSTEM_ENABLED") (bytes "true"));
    log_trade_enabled = is_on (optional (bytes "LOG_TRADE_ENABLED") (bytes "true"));
    udp_feed_enabled = is_on (optional (bytes "UDP_FEED_ENABLED") (bytes "true"));
    udp_feed_port = numbers.atoi (optional (bytes "UDP_FEED_PORT") (bytes "13988"));
    udp_feed_address = take 63 (optional (bytes "UDP_FEED_ADDRESS") (bytes "127.0.0.1"));
    log_price_file = optional (bytes "LOG_PRICE_FILE") (bytes "logs/price.log");
    log_system_file = optional (bytes "LOG_SYSTEM_FILE") (bytes "logs/system.log");
    log_trade_file = optional (bytes "LOG_TRADE_FILE") (bytes "logs/trade.log");
  }

  -- `missing` after the five calls of get_required_env.
  unfoldable pub missing_keys : Bool
  missing_keys = is_missing (env (bytes "BYBIT_API_SECRET")) (
      is_missing (env (bytes "BYBIT_API_KEY")) (
        is_missing (env (bytes "OKX_PASSPHRASE")) (
          is_missing (env (bytes "OKX_API_SECRET"))
            (is_missing (env (bytes "OKX_API_KEY")) false))))

  -- `true` is the result 0, and `false` the result -1.
  unfoldable pub config_load : AppConfig I D → Bool × AppConfig I D
  unfolding load_first load_rest missing_keys
  config_load c = if missing_keys then (false, load_first c) else (true, load_rest (load_first c))

-- The loops of main that copy the symbols: none if one reads an entry that is not set.
unfoldable pub instruments : ℕ → List Slot → Option (List (List ℕ))
instruments zero slots = some []
instruments (suc n) [] = none
instruments (suc n) (unset ∷ slots) = none
instruments (suc n) (symbol name ∷ slots) = elim (instruments n slots) [
  | none ↦ none
  | some names ↦ some (name ∷ names)
]
