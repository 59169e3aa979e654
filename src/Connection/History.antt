-- ===== src/Connection/History.antt =====
-- The histories of a connection: the calls of its owner, and the steps of the IO thread, whose
-- reconnection callback is `resubscribe` with the subscriptions of that moment.
use dpdk_cex_source.Base.{ℕ, Bool, List, [], ◌∷◌, Option, none, some}
use dpdk_cex_source.UdpFeed.{ParsedOrderBook, Os}
use dpdk_cex_source.ExchangeAdapter.{IExchangeAdapter}
use dpdk_cex_source.BoostClient.{RetryConfig, run_posted, complete}
use dpdk_cex_source.Connection.{
  Connection, Profile, connect, subscribe, resubscribe, poll, send_heartbeat, send_order,
}

pub data ConnectionEvent (Q : Type 0) : Type 0 where
  connect_called : Bool → ConnectionEvent Q
  subscribe_called : List (List ℕ) → List ℕ → ConnectionEvent Q
  -- the variable `book`, whether there is a callback, and the bound on the rounds
  poll_called : (ℕ → ParsedOrderBook Q) → Bool → ℕ → ConnectionEvent Q
  heartbeat_called : ConnectionEvent Q
  order_called : List ℕ → ConnectionEvent Q
  write_run : Bool → ConnectionEvent Q
  operation_ended : ℕ → Bool → List ℕ → ConnectionEvent Q

-- A `poll` that has not ended counts as not called.
abbrev pub or_unchanged : {A : Type 0} → Option A → A → A
or_unchanged none c = c
or_unchanged (some c') c = c'

module _ {D Q : Type 0} (cfg : RetryConfig D) (adapter : IExchangeAdapter Q) (profile : Profile)
    (bits : Q → ℕ) (os : Os) (now : ℕ → ℕ) where
  unfoldable pub happens : Connection D Q → ConnectionEvent Q → Connection D Q
  unfolding connect subscribe resubscribe poll send_heartbeat send_order run_posted complete
  happens c (connect_called ok) = (connect adapter cfg c ok).1
  happens c (subscribe_called instruments channel) = subscribe adapter c instruments channel
  happens c (poll_called local_books listening fuel) =
      or_unchanged (poll adapter profile bits os now local_books listening fuel c) c
  happens c heartbeat_called = send_heartbeat adapter profile bits os now c
  happens c (order_called m) = send_order c m
  happens c (write_run ok) = record c { ws_client = run_posted cfg c.ws_client ok }
  happens c (operation_ended i ok m) = record c {
    ws_client = complete cfg (resubscribe adapter c.active_subscriptions) c.ws_client i ok m;
  }

  unfoldable pub after : Connection D Q → List (ConnectionEvent Q) → Connection D Q
  unfolding happens
  after c [] = c
  after c (e ∷ events) = after (happens c e) events
