-- ===== src/Config/Tests.antt =====
-- Two symbols from the environment, and an environment with the required variables.
use dpdk_cex_source.Base.{ℕ, ◌≡◌, ◌≢◌, ◌↔◌, true, false, if◌then◌else◌, [], none, some, All}
use dpdk_cex_source.Base.Text.{bytes}
use dpdk_cex_source.Config.{AppConfig, CNumbers, Env, parse_csv_symbols, instruments, config_load}
use dpdk_cex_source.Config.Fields.{fields, has_empty}
use dpdk_cex_source.Config.Symbols.{parse_csv_symbols-instruments}
use dpdk_cex_source.Config.Required.{required_keys, IsLater, config_load_iff}

parse_csv_symbols-instruments_example :
    let (slots, count) = parse_csv_symbols (bytes "BTC,ETH,") ([], 0) in
    instruments count slots
    ≡ (if has_empty (fields (bytes "BTC,ETH,")) then none else some (fields (bytes "BTC,ETH,")))
parse_csv_symbols-instruments_example = parse_csv_symbols-instruments 66 (bytes "TC,ETH,") ([], 0)

abbrev every_key : Env
every_key = λ name. some (bytes "1")

abbrev lengths : CNumbers ℕ ℕ
lengths = record { atoi = λ s. 0; strtod = λ s. 0 }

abbrev zeroed : AppConfig ℕ ℕ
zeroed = record {
  okx_api_key = none;
  okx_api_secret = none;
  okx_passphrase = none;
  okx_symbols = [];
  okx_symbol_count = 0;
  bybit_api_key = none;
  bybit_api_secret = none;
  bybit_symbols = [];
  bybit_symbol_count = 0;
  ws_retry_enabled = false;
  ws_retry_max_attempts = 0;
  ws_retry_initial_delay_ms = 0;
  ws_retry_max_delay_ms = 0;
  ws_retry_backoff_multiplier = 0;
  debug_log_enabled = false;
  enable_execution = false;
  log_price_enabled = false;
  log_system_enabled = false;
  log_trade_enabled = false;
  udp_feed_enabled = false;
  udp_feed_port = 0;
  udp_feed_address = [];
  log_price_file = [];
  log_system_file = [];
  log_trade_file = [];
}

config_load_iff_example :
    let (ok, c') = config_load lengths every_key zeroed in
    ((ok ≡ true) ↔ All (λ name. every_key name ≢ none) required_keys)
    × (c'.okx_api_key ≡ some (bytes "1"))
    × (c'.okx_api_secret ≡ some (bytes "1"))
    × (c'.okx_passphrase ≡ some (bytes "1"))
    × (c'.bybit_api_key ≡ some (bytes "1"))
    × (c'.bybit_api_secret ≡ some (bytes "1"))
    × IsLater lengths every_key ok zeroed c'
config_load_iff_example = config_load_iff lengths every_key zeroed
