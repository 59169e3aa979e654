-- ===== src/BoostClient/Invariant.antt =====
-- What holds of the client after any history of calls and of answers of the network.
use dpdk_cex_source.Base.{
  ℕ, ◌+◌, ◌≡◌, refl, Bool, true, false, ◌&&◌, List, [], ◌∷◌, map, arith, inl, inr, Option-cases,
  List-cases,
}
use dpdk_cex_source.BoostClient.{
  connecting, RetryConfig, Operation, reading, timing, expired, resolving, connecting_tcp, securing,
  upgrading, Client, new, cancel_timer, orphan, start, enqueue, get_next_message, send, close,
  schedule_reconnect, lose, connect, reconnected, attempt_reconnect_async, run_posted, on_read,
  on_handshake, go_on, handle, take_out, complete, retry_delay,
}
use dpdk_cex_source.BoostClient.History.{
  Event, connect_called, send_called, message_taken, close_called, write_run, operation_ended,
  happens, after,
}
use dpdk_cex_source.BoostClient.Timers.{
  timer_of, timers-append, timers-cancel, timers-orphan, timers-take_out, IsBounded, enqueue-bound,
}

module _ {D : Type 0} (cfg : RetryConfig D) where
  schedule_reconnect-IsBounded :
      (c : Client D)
      → IsBounded cfg.max_attempts c
      → IsBounded cfg.max_attempts (schedule_reconnect cfg c)
  unfolding schedule_reconnect
  schedule_reconnect-IsBounded c v = ground (
    arith,
    timers-append (cancel_timer c.pending) (timing (retry_delay cfg (c.retry_count + 1)) ∷ []),
    timers-cancel c.pending,
  )

  lose-IsBounded :
      (c : Client D) → IsBounded cfg.max_attempts c → IsBounded cfg.max_attempts (lose cfg c)
  unfolding lose close
  lose-IsBounded c v =
      ground (arith, schedule_reconnect-IsBounded (record c { is_connected = false }))

  start-IsBounded :
      (c : Client D) (op : Operation D)
      → timer_of op ≡ 0
      → IsBounded cfg.max_attempts c
      → IsBounded cfg.max_attempts (start c op)
  start-IsBounded c op e v = ground (arith, timers-append c.pending (op ∷ []))

  connect-IsBounded :
      (c : Client D) (ok : Bool)
      → IsBounded cfg.max_attempts c
      → IsBounded cfg.max_attempts (connect cfg c ok).1
  unfolding connect
  connect-IsBounded c ok v =
      let opened = record c {
        state = connecting;
        is_connected = false;
        started = true;
        pending = map orphan c.pending;
      } in
      ground (
        arith,
        timers-orphan c.pending,
        timers-append (map orphan c.pending) (reading true ∷ []),
        schedule_reconnect-IsBounded opened,
      )

  attempt-IsBounded :
      (c : Client D) (sni : Bool)
      → IsBounded cfg.max_attempts c
      → IsBounded cfg.max_attempts (attempt_reconnect_async cfg c sni)
  unfolding attempt_reconnect_async
  attempt-IsBounded c sni v =
      let renewed = record c { state = connecting; pending = map orphan c.pending } in
      ground (
        arith,
        timers-orphan c.pending,
        schedule_reconnect-IsBounded renewed,
        start-IsBounded renewed resolving,
      )

  run_posted-IsBounded :
      (c : Client D) (ok : Bool)
      → IsBounded cfg.max_attempts c
      → IsBounded cfg.max_attempts (run_posted cfg c ok)
  unfolding run_posted
  run_posted-IsBounded c ok v = elim (List-cases c.posted) [
    | inl e ↦ ground (arith, e)
    | inr ((m, ms), e) ↦ ground (arith, e, lose-IsBounded (record c { posted = ms }))
  ]

  go_on-IsBounded :
      (c : Client D) (ok : Bool) (next : Operation D)
      → timer_of next ≡ 0
      → IsBounded cfg.max_attempts c
      → IsBounded cfg.max_attempts (go_on cfg c ok next)
  unfolding go_on
  go_on-IsBounded c ok next e v =
      ground (arith, start-IsBounded c next e v, schedule_reconnect-IsBounded c v)

  on_read-IsBounded :
      (c : Client D) (ok : Bool) (m : List ℕ)
      → IsBounded cfg.max_attempts c
      → IsBounded cfg.max_attempts (on_read cfg c ok m)
  unfolding on_read
  on_read-IsBounded c ok m v = ground (
    arith,
    enqueue-bound c.incoming m v.queue_bounded,
    start-IsBounded (record c { incoming = enqueue c.incoming m }) (reading true) refl,
    lose-IsBounded c v,
  )

  -- What a callback has to keep.
  abbrev pub Keeps : (Client D → Client D) → Type 0
  Keeps f = (c : Client D) → IsBounded cfg.max_attempts c → IsBounded cfg.max_attempts (f c)

module _ {D : Type 0} (cfg : RetryConfig D) (on_reconnect : Client D → Client D) where
  on_handshake-IsBounded :
      Keeps cfg on_reconnect
      → (c : Client D) (ok : Bool) → IsBounded cfg.max_attempts c
      → IsBounded cfg.max_attempts (on_handshake cfg on_reconnect c ok)
  unfolding on_handshake
  on_handshake-IsBounded k c true v = start-IsBounded cfg _ (reading true) refl (
      k (reconnected c) (record {
        retries_bounded = ground arith;
        queue_bounded = v.queue_bounded;
        one_timer = v.one_timer;
      }))
  on_handshake-IsBounded k c false v = schedule_reconnect-IsBounded cfg c v

  handle-IsBounded :
      Keeps cfg on_reconnect
      → (c : Client D) (op : Operation D) (ok : Bool) (m : List ℕ) → IsBounded cfg.max_attempts c
      → IsBounded cfg.max_attempts (handle cfg on_reconnect c op ok m)
  unfolding handle
  handle-IsBounded k c (reading live) ok m v = on_read-IsBounded cfg c (ok && live) m v
  handle-IsBounded k c (timing d) ok m v = start-IsBounded cfg c expired refl v
  handle-IsBounded k c expired ok m v = attempt-IsBounded cfg c ok v
  handle-IsBounded k c resolving ok m v = go_on-IsBounded cfg c ok (connecting_tcp true) refl v
  handle-IsBounded k c (connecting_tcp live) ok m v =
      go_on-IsBounded cfg c (ok && live) (securing true) refl v
  handle-IsBounded k c (securing live) ok m v =
      go_on-IsBounded cfg c (ok && live) (upgrading true) refl v
  handle-IsBounded k c (upgrading live) ok m v = on_handshake-IsBounded k c (ok && live) v

  complete-IsBounded :
      Keeps cfg on_reconnect
      → (c : Client D) (i : ℕ) (ok : Bool) (m : List ℕ) → IsBounded cfg.max_attempts c
      → IsBounded cfg.max_attempts (complete cfg on_reconnect c i ok m)
  unfolding complete
  complete-IsBounded k c i ok m v = elim (Option-cases (take_out i c.pending)) [
    | inl e ↦ ground (arith, e)
    | inr ((op, ops), e) ↦ ground (
      arith,
      e,
      timers-take_out i c.pending op ops e,
      handle-IsBounded k (record c { pending = ops }) op ok m,
    )
  ]

  happens-IsBounded :
      Keeps cfg on_reconnect
      → (c : Client D) (e : Event) → IsBounded cfg.max_attempts c
      → IsBounded cfg.max_attempts (happens cfg on_reconnect c e)
  unfolding happens send get_next_message close
  happens-IsBounded k c (connect_called ok) v = connect-IsBounded cfg c ok v
  happens-IsBounded k c (send_called m) v = ground arith
  happens-IsBounded k c message_taken v = elim (List-cases c.incoming) [
    | inl e ↦ ground (arith, e)
    | inr ((m, ms), e) ↦ ground (arith, e)
  ]
  happens-IsBounded k c close_called v = ground arith
  happens-IsBounded k c (write_run ok) v = run_posted-IsBounded cfg c ok v
  happens-IsBounded k c (operation_ended i ok m) v = complete-IsBounded k c i ok m v

  after-IsBounded :
      Keeps cfg on_reconnect
      → (c : Client D) (events : List Event) → IsBounded cfg.max_attempts c
      → IsBounded cfg.max_attempts (after cfg on_reconnect c events)
  unfolding after
  after-IsBounded k c [] v = v
  after-IsBounded k c (e ∷ events) v =
      after-IsBounded k (happens cfg on_reconnect c e) events (happens-IsBounded k c e v)

  -- When the reconnection callback keeps the bounds of IsBounded, then after any sequence of calls of
  -- connect, send, get_next_message and close, of runs of posted writes, and of ends of pending
  -- operations, whatever their results, on a new client: the retry count is at most
  -- ws_retry_max_attempts, the incoming queue holds at most MAX_INCOMING_QUEUE_SIZE messages, and at
  -- most one wait of the retry timer is pending.
  pub history-IsBounded :
      Keeps cfg on_reconnect
      → (events : List Event) → IsBounded cfg.max_attempts (after cfg on_reconnect new events)
  unfolding new
  history-IsBounded k events = after-IsBounded k new events (record {
    retries_bounded = ground arith;
    queue_bounded = ground arith;
    one_timer = ground arith;
  })
