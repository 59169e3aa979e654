-- ===== src/BoostClient/Flapping.antt =====
-- A failed write schedules an attempt while the read of the same stream is still pending. The attempt
-- replaces the stream, which ends that read with an error, and its handler schedules another one.
use dpdk_cex_source.Base.{
  ℕ, zero, suc, ◌+◌, ◌<◌, ◌≤◌, ◌≡◌, refl, ap, ◌∙◌, true, false, List, [], ◌∷◌, ◌++◌, arith,
}
use dpdk_cex_source.Base.Bytes.{u64}
use dpdk_cex_source.BoostClient.{
  connecting, waiting_retry, RetryConfig, reading, timing, resolving, expired, Client,
  schedule_reconnect, retry_delay, complete, handle, go_on, on_handshake, on_read, lose, run_posted,
  attempt_reconnect_async, cancel_timer,
}
use dpdk_cex_source.BoostClient.History.{Event, operation_ended, write_run, happens, after}
use dpdk_cex_source.BoostClient.Retry.{linked}

abbrev pub ended : ℕ → Event
ended i = operation_ended i true []

-- From an expired timer behind the read: the server name, the abort of the read, and the four steps of
-- the attempt, every one of which succeeds.
abbrev pub renewed : List Event
renewed = ended 1 ∷ ended 0 ∷ ended 0 ∷ ended 1 ∷ ended 1 ∷ ended 1 ∷ []

abbrev pub cycles : ℕ → List Event
cycles zero = []
cycles (suc n) = ended 0 ∷ renewed ++ cycles n

module _ {D : Type 0} where
  -- Connected, with the timer of another attempt pending beside the read.
  abbrev pub flapping : Client D → D → Client D
  flapping c d = record (linked c) { pending = timing d ∷ reading true ∷ [] }

  -- The client has scheduled a attempts, s of them have succeeded, it is connected, and the timer of
  -- the next attempt is pending.
  pub record KeepsReconnecting (a s : ℕ) (c : Client D) : Type 0 where
    pub is_up : c.is_connected ≡ true
    pub attempts : c.reconnect_attempts ≡ u64 a
    pub successes : c.reconnect_success ≡ u64 s
    pub delay : D
    pub next_pending : c.pending ≡ timing delay ∷ reading true ∷ []

  same_counts :
      {a a' s s' : ℕ} {c : Client D}
      → a ≡ a'
      → s ≡ s'
      → KeepsReconnecting a s c
      → KeepsReconnecting a' s' c
  same_counts ea es k = record {
    is_up = k.is_up;
    attempts = k.attempts ∙ ap u64 ea;
    successes = k.successes ∙ ap u64 es;
    delay = k.delay;
    next_pending = k.next_pending;
  }

module _ {D : Type 0} (cfg : RetryConfig D) where
  unfoldable pub run : Client D → List Event → Client D
  unfolding after
  run = after cfg (λ c. c)

  lose-enabled :
      (c : Client D)
      → cfg.retry_enabled ≡ true
      → c.retry_count < cfg.max_attempts
      → lose cfg c ≡ record c {
        is_connected = false;
        state = waiting_retry;
        retry_count = c.retry_count + 1;
        reconnect_attempts = u64 (c.reconnect_attempts + 1);
        pending = cancel_timer c.pending ++ timing (retry_delay cfg (c.retry_count + 1)) ∷ [];
      }
  unfolding lose schedule_reconnect
  lose-enabled c enabled few = ground arith

  abbrev attempting : Client D → Client D
  attempting c = record c {
    state = connecting;
    pending = resolving ∷ [];
    started = true;
    stopped = false;
  }

  -- What the handlers of `renewed` change besides.
  abbrev renewed_client : Client D → Client D
  renewed_client c = record c {
    reconnect_attempts = u64 (c.reconnect_attempts + 1);
    reconnect_success = u64 (c.reconnect_success + 1);
    accepted = [];
  }

  run-renewed :
      (c : Client D) (events : List Event)
      → cfg.retry_enabled ≡ true
      → c.retry_count < cfg.max_attempts
      → run
          (record c { pending = reading true ∷ expired ∷ []; started = true; stopped = false })
          (renewed ++ events)
        ≡ run (flapping (renewed_client c) (retry_delay cfg (c.retry_count + 1))) events
  unfolding run after happens complete handle go_on on_handshake on_read attempt_reconnect_async
  run-renewed c events enabled few =
      ap (λ x. run x (ended 0 ∷ ended 1 ∷ ended 1 ∷ ended 1 ∷ events))
        (lose-enabled (attempting c) enabled few)

  run-cycle :
      (c : Client D) (d : D) (events : List Event)
      → cfg.retry_enabled ≡ true
      → 0 < cfg.max_attempts
      → run (flapping c d) (ended 0 ∷ renewed ++ events)
        ≡ run (flapping (renewed_client c) (retry_delay cfg 1)) events
  unfolding run after happens complete handle
  run-cycle c d events enabled some_allowed = run-renewed (linked c) events enabled some_allowed

  run-cycles :
      (n : ℕ) (c : Client D) (d : D) (a s : ℕ)
      → cfg.retry_enabled ≡ true
      → 0 < cfg.max_attempts
      → c.reconnect_attempts ≡ u64 a
      → c.reconnect_success ≡ u64 s
      → KeepsReconnecting (a + n) (s + n) (run (flapping c d) (cycles n))
  unfolding run after
  run-cycles zero c d a s enabled some_allowed ha hs = record {
    is_up = refl;
    attempts = omega (arith, ha);
    successes = omega (arith, hs);
    delay = d;
    next_pending = refl;
  }
  run-cycles (suc n) c d a s enabled some_allowed ha hs =
      rw (run-cycle c d (cycles n) enabled some_allowed) (
        same_counts (omega arith) (omega arith) (
          run-cycles n (renewed_client c) (retry_delay cfg 1) (a + 1) (s + 1) enabled some_allowed
            (omega (arith, ha)) (omega (arith, hs))))

  happens-write_error :
      (c : Client D) (m : List ℕ) (ms : List (List ℕ))
      → c.posted ≡ m ∷ ms
      → happens cfg (λ x. x) (linked c) (write_run false)
        ≡ lose cfg (record (linked c) { posted = ms })
  unfolding happens run_posted
  happens-write_error c m ms e = ground (arith, e)

  after_write_error : Client D → List (List ℕ) → Client D
  after_write_error c ms = record c {
    posted = ms;
    retry_count = 1;
    reconnect_attempts = u64 (c.reconnect_attempts + 1);
    is_connected = false;
    state = waiting_retry;
  }

  run-write_error :
      (c : Client D) (m : List ℕ) (ms : List (List ℕ)) (events : List Event)
      → cfg.retry_enabled ≡ true
      → 0 < cfg.max_attempts
      → c.posted ≡ m ∷ ms
      → run (linked c) (write_run false ∷ ended 1 ∷ events)
        ≡ run
            (record (after_write_error c ms) {
              pending = reading true ∷ expired ∷ [];
              started = true;
              stopped = false;
            })
            events
  unfolding run after happens complete handle after_write_error
  run-write_error c m ms events enabled allowed e =
      ap (λ x. run x (ended 1 ∷ events))
        (happens-write_error c m ms e
          ∙ lose-enabled (record (linked c) { posted = ms }) enabled allowed)

  -- When a posted write of a connected client fails while its read is pending, retries being enabled
  -- with at least two attempts, and from then on every operation that was started for the current
  -- stream succeeds, then for every n there is a history in which the client has reconnected n + 1
  -- times and scheduled n + 2 attempts, is connected, and has the timer of another attempt pending.
  pub write_error-KeepsReconnecting :
      (c : Client D) (m : List ℕ) (ms : List (List ℕ)) (n : ℕ)
      → cfg.retry_enabled ≡ true
      → 2 ≤ cfg.max_attempts
      → c.posted ≡ m ∷ ms
      → KeepsReconnecting
          (c.reconnect_attempts + 2 + n)
          (c.reconnect_success + 1 + n)
          (run (linked c) (write_run false ∷ ended 1 ∷ renewed ++ cycles n))
  unfolding after_write_error
  write_error-KeepsReconnecting c m ms n enabled allowed e =
      rw
        (
          run-write_error c m ms (renewed ++ cycles n) enabled (omega arith) e,
          run-renewed (after_write_error c ms) (cycles n) enabled allowed,
        )
        (run-cycles n (renewed_client (after_write_error c ms)) (retry_delay cfg 2)
          (c.reconnect_attempts + 2) (c.reconnect_success + 1) enabled (omega arith) (omega arith)
          refl)
