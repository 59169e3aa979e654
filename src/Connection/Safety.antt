-- ===== src/Connection/Safety.antt =====
-- The subscriptions of a connected client were sent, whatever happened before.
use dpdk_cex_source.Base.{
  ℕ, ◌≡◌, refl, Bool, true, false, ◌&&◌, List, [], ◌∷◌, Option, none, some, inl, inr, Bool-cases,
  Option-cases,
}
use dpdk_cex_source.UdpFeed.{UdpPublisher, Os}
use dpdk_cex_source.ExchangeAdapter.{IExchangeAdapter}
use dpdk_cex_source.BoostClient.{
  Client, RetryConfig, Operation, reading, timing, expired, resolving, connecting_tcp, securing,
  upgrading, new, send, on_handshake, handle, complete, take_out, reconnected, runs,
}
use dpdk_cex_source.Connection.{
  Connection, Subscription, Profile, new_connection, resubscribe, poll, send_heartbeat, send_order,
}
use dpdk_cex_source.Connection.History.{
  ConnectionEvent, connect_called, subscribe_called, poll_called, heartbeat_called, order_called,
  write_run, operation_ended, happens, after, or_unchanged,
}
use dpdk_cex_source.Connection.Covers.{
  Covers, Covers-Quiet, send-Sends, Covers-Sends, Sends-Covers, schedule_reconnect-Quiet,
  go_on-Quiet, attempt-Quiet, on_read-Quiet, run_posted-Quiet,
}
use dpdk_cex_source.Connection.Subscribed.{
  messages, resubscribe-Sends, IsSubscribed, connect-IsSubscribed, subscribe-IsSubscribed,
  poll-IsSubscribed,
}

module _ {D Q : Type 0} (cfg : RetryConfig D) (adapter : IExchangeAdapter Q)
    (subs : List Subscription) where
  callback : Client D → Client D
  callback = resubscribe adapter subs

  on_handshake-Covers :
      (c : Client D) (ok : Bool)
      → Covers (messages adapter subs) c
      → Covers (messages adapter subs) (on_handshake cfg callback c ok)
  unfolding callback on_handshake
  on_handshake-Covers c true h =
      Sends-Covers (messages adapter subs) (reconnected c) _
        (resubscribe-Sends adapter subs (reconnected c))
  on_handshake-Covers c false h =
      Covers-Quiet (messages adapter subs) c _ (schedule_reconnect-Quiet cfg c) h

  handle-Covers :
      (c : Client D) (op : Operation D) (ok : Bool) (m : List ℕ)
      → Covers (messages adapter subs) c
      → Covers (messages adapter subs) (handle cfg callback c op ok m)
  unfolding handle
  handle-Covers c (reading live) ok m h =
      Covers-Quiet (messages adapter subs) c _ (on_read-Quiet cfg c (ok && live) m) h
  handle-Covers c (timing d) ok m h = h
  handle-Covers c expired ok m h =
      Covers-Quiet (messages adapter subs) c _ (attempt-Quiet cfg c ok) h
  handle-Covers c resolving ok m h =
      Covers-Quiet (messages adapter subs) c _ (go_on-Quiet cfg c ok (connecting_tcp true)) h
  handle-Covers c (connecting_tcp live) ok m h =
      Covers-Quiet (messages adapter subs) c _ (go_on-Quiet cfg c (ok && live) (securing true)) h
  handle-Covers c (securing live) ok m h =
      Covers-Quiet (messages adapter subs) c _ (go_on-Quiet cfg c (ok && live) (upgrading true)) h
  handle-Covers c (upgrading live) ok m h = on_handshake-Covers c (ok && live) h

  complete-Covers :
      (c : Client D) (i : ℕ) (ok : Bool) (m : List ℕ)
      → Covers (messages adapter subs) c
      → Covers (messages adapter subs) (complete cfg (resubscribe adapter subs) c i ok m)
  unfolding complete callback
  complete-Covers c i ok m h = elim (Bool-cases (runs c)) [
    | inl e ↦ elim (Option-cases (take_out i c.pending)) [
      | inl t ↦ rw (e, t) h
      | inr ((op, ops), t) ↦ rw (e, t) (handle-Covers (record c { pending = ops }) op ok m h)
    ]
    | inr e ↦ rw e h
  ]

module _ {D Q : Type 0} (cfg : RetryConfig D) (adapter : IExchangeAdapter Q) (profile : Profile)
    (bits : Q → ℕ) (os : Os) (now : ℕ → ℕ) where
  polled-IsSubscribed :
      (c : Connection D Q) (o : Option (Connection D Q))
      → IsSubscribed adapter c
      → ((c' : Connection D Q) → o ≡ some c' → IsSubscribed adapter c')
      → IsSubscribed adapter (or_unchanged o c)
  polled-IsSubscribed c none v h = v
  polled-IsSubscribed c (some c') v h = h c' refl

  -- The guard of send_heartbeat is that of send.
  send_heartbeat_lem :
      (c : Connection D Q)
      → send_heartbeat adapter profile bits os now c
        ≡ record c { ws_client = send c.ws_client profile.heartbeat }
  unfolding send_heartbeat send
  send_heartbeat_lem c = elim (Bool-cases c.ws_client.is_connected) [
    | inl e ↦ rw e refl
    | inr e ↦ rw e refl
  ]

  happens-IsSubscribed :
      (c : Connection D Q) (e : ConnectionEvent Q)
      → IsSubscribed adapter c
      → IsSubscribed adapter (happens cfg adapter profile bits os now c e)
  unfolding happens send_heartbeat send_order
  happens-IsSubscribed c (connect_called ok) v = connect-IsSubscribed adapter cfg c ok
  happens-IsSubscribed c (subscribe_called instruments channel) v =
      subscribe-IsSubscribed adapter c instruments channel v
  happens-IsSubscribed c (poll_called b listening fuel) v =
      polled-IsSubscribed c (poll adapter profile bits os now b listening fuel c) v (λ c' e.
        poll-IsSubscribed adapter profile bits os now b listening fuel c.ws_client.incoming c c' v
          e)
  happens-IsSubscribed c heartbeat_called v = rw (send_heartbeat_lem c) (
      Covers-Sends (messages adapter c.active_subscriptions) (profile.heartbeat ∷ []) c.ws_client _
        (send-Sends c.ws_client profile.heartbeat) v)
  happens-IsSubscribed c (order_called m) v =
      Covers-Sends (messages adapter c.active_subscriptions) (m ∷ []) c.ws_client _
        (send-Sends c.ws_client m) v
  happens-IsSubscribed c (write_run ok) v =
      Covers-Quiet (messages adapter c.active_subscriptions) c.ws_client _
        (run_posted-Quiet cfg c.ws_client ok) v
  happens-IsSubscribed c (operation_ended i ok m) v =
      complete-Covers cfg adapter c.active_subscriptions c.ws_client i ok m v

  after-IsSubscribed :
      (c : Connection D Q) (events : List (ConnectionEvent Q))
      → IsSubscribed adapter c
      → IsSubscribed adapter (after cfg adapter profile bits os now c events)
  unfolding after
  after-IsSubscribed c [] v = v
  after-IsSubscribed c (e ∷ events) v =
      after-IsSubscribed (happens cfg adapter profile bits os now c e) events
        (happens-IsSubscribed c e v)

  -- After any sequence of calls of connect, subscribe, poll, send_heartbeat and send_order on a new
  -- connection, of runs of posted writes and of ends of the network operations, whatever their results,
  -- the connection is subscribed: if the client is connected, then the message of each instrument of
  -- each active subscription is among those that the client has accepted since it last connected.
  pub history-IsSubscribed :
      (publisher : Option UdpPublisher) (events : List (ConnectionEvent Q))
      → IsSubscribed adapter
          (after cfg adapter profile bits os now (new_connection publisher) events)
  unfolding new_connection new
  history-IsSubscribed publisher events =
      after-IsSubscribed (new_connection publisher) events (λ up. tt)
