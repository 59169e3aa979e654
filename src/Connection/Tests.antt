-- ===== src/Connection/Tests.antt =====
-- Runs of a connection to OKX, with integers for doubles.
use dpdk_cex_source.Base.{ℕ, ◌*◌, ◌≡◌, true, false, List, [], ◌∷◌, some, ltb, arith}
use dpdk_cex_source.Base.Text.{bytes}
use dpdk_cex_source.UdpFeed.{UdpPublisher, Os}
use dpdk_cex_source.ExchangeAdapter.{IExchangeAdapter}
use dpdk_cex_source.BoostClient.{RetryConfig}
use dpdk_cex_source.Json.Samples.{trees_dom, integers}
use dpdk_cex_source.OkxAdapter.{okx_adapter}
use dpdk_cex_source.Connection.{Connection, okx_profile, new_connection, default_book, poll}
use dpdk_cex_source.Connection.History.{
  ConnectionEvent, connect_called, subscribe_called, poll_called, heartbeat_called, order_called,
  write_run, operation_ended, after,
}
use dpdk_cex_source.Connection.Poll.{passed_on, queued, all_pongs, all_books, poll-drains}
use dpdk_cex_source.Connection.Subscribed.{IsSubscribed}
use dpdk_cex_source.Connection.Safety.{history-IsSubscribed}

abbrev retries : RetryConfig ℕ
retries = record {
  retry_enabled = true;
  max_attempts = 10;
  initial_delay = 1000;
  max_delay = 30000;
  multiply = λ d. 2 * d;
  exceeds = λ a b. ltb b a;
}

abbrev adapter : IExchangeAdapter ℕ
adapter = okx_adapter trees_dom integers

abbrev os : Os
os = record { socket = some 5; fcntl_get = true; fcntl_set = true; inet_pton = λ a. true }

abbrev id_bits : ℕ → ℕ
id_bits q = q

abbrev ticks : ℕ → ℕ
ticks n = n * 1000

abbrev publisher : UdpPublisher
publisher = record {
  socket_fd = some 5;
  target_address = bytes "127.0.0.1";
  target_port = 13988;
  sent = [];
  open_fds = 5 ∷ [];
}

-- Connect, subscribe, read, lose the link, reconnect, and poll.
abbrev events : List (ConnectionEvent ℕ)
events =
    connect_called true
    ∷ subscribe_called (bytes "BTC-USDT" ∷ bytes "ETH-USDT" ∷ []) (bytes "books5")
    ∷ write_run true
    ∷ operation_ended 0 true (bytes "okx")
    ∷ operation_ended 0 false []
    ∷ operation_ended 0 true []
    ∷ operation_ended 0 true []
    ∷ operation_ended 0 true []
    ∷ operation_ended 0 true []
    ∷ operation_ended 0 true []
    ∷ operation_ended 0 true []
    ∷ heartbeat_called
    ∷ order_called (bytes "order")
    ∷ poll_called (λ k. default_book false k) true 5
    ∷ []

history-IsSubscribed_example :
    IsSubscribed adapter
      (after retries adapter okx_profile id_bits os ticks (new_connection (some publisher)) events)
history-IsSubscribed_example =
    history-IsSubscribed retries adapter okx_profile id_bits os ticks (some publisher) events

abbrev three_messages : List (List ℕ)
three_messages = bytes "ping" ∷ bytes "okx" ∷ bytes "noise" ∷ []

abbrev busy : Connection ℕ ℕ
busy = queued adapter okx_profile id_bits os ticks three_messages (new_connection (some publisher))

poll-drains_example :
    poll adapter okx_profile id_bits os ticks (λ k. default_book false k) true 4 busy
    ≡ some (
        passed_on adapter okx_profile id_bits os ticks true
          (all_pongs adapter okx_profile three_messages)
          (all_books adapter okx_profile (λ k. default_book false k) three_messages)
          (queued adapter okx_profile id_bits os ticks [] busy))
poll-drains_example =
    poll-drains adapter okx_profile id_bits os ticks (λ k. default_book false k) true 4 busy
      (omega arith)
