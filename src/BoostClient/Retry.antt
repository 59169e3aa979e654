-- ===== src/BoostClient/Retry.antt =====
-- The retries of the client: an attempt fails at one of five stages, and each stage schedules the next.
use dpdk_cex_source.Base.{
  ℕ, zero, suc, ◌+◌, ◌≤◌, ◌<◌, ◌≡◌, refl, ap, true, false, List, [], ◌∷◌, ◌++◌, length, replicate,
  All, arith, if◌then◌else◌,
}
use dpdk_cex_source.Base.Bytes.{u64}
use dpdk_cex_source.BoostClient.{
  ConnectionState, disconnected, connecting, connected, waiting_retry, RetryConfig, reading, timing,
  Client, close, schedule_reconnect, retry_delay, complete, handle, go_on, on_read, on_handshake,
  lose, attempt_reconnect_async,
}
use dpdk_cex_source.BoostClient.History.{Event, operation_ended, happens, after, after-append}

-- The timer expires, the first `stage` steps of an attempt succeed, and the next one fails: the server
-- name (0), resolving (1), TCP (2), TLS (3) or the WebSocket handshake (4).
abbrev pub failed_attempt : ℕ → List Event
failed_attempt stage =
    operation_ended 0 true [] ∷ replicate stage (operation_ended 0 true [])
    ++ operation_ended 0 false [] ∷ []

abbrev pub failed_attempts : List ℕ → List Event
failed_attempts [] = []
failed_attempts (s ∷ stages) = failed_attempt s ++ failed_attempts stages

module _ {D : Type 0} where
  -- A running client that reads from a stream, and one that waits for its timer.
  abbrev pub linked : Client D → Client D
  linked c = record c {
    is_connected = true;
    state = connected;
    retry_count = 0;
    pending = reading true ∷ [];
    started = true;
    stopped = false;
  }

  abbrev pub waiting : Client D → D → Client D
  waiting c d = record c {
    is_connected = false;
    state = waiting_retry;
    pending = timing d ∷ [];
    started = true;
    stopped = false;
  }

module _ {D : Type 0} (cfg : RetryConfig D) (on_reconnect : Client D → Client D) where
  pub after-failed_attempt :
      (c : Client D) (d : D) (stage : ℕ)
      → stage ≤ 4
      → after cfg on_reconnect (waiting c d) (failed_attempt stage)
        ≡ schedule_reconnect cfg (record (waiting c d) { state = connecting; pending = [] })
  unfolding after happens complete handle go_on on_handshake attempt_reconnect_async
  after-failed_attempt c d zero h = refl
  after-failed_attempt c d (suc zero) h = refl
  after-failed_attempt c d (suc (suc zero)) h = refl
  after-failed_attempt c d (suc (suc (suc zero))) h = refl
  after-failed_attempt c d (suc (suc (suc (suc zero)))) h = refl
  after-failed_attempt c d (suc (suc (suc (suc (suc s))))) h = absurd (omega arith)

  -- The client after a failed attempt that was not the last.
  abbrev pub rescheduled : Client D → Client D
  rescheduled c = record c {
    retry_count = c.retry_count + 1;
    reconnect_attempts = u64 (c.reconnect_attempts + 1);
  }

  pub schedule_reconnect-again :
      (c : Client D) (st : ConnectionState)
      → c.retry_count < cfg.max_attempts
      → schedule_reconnect cfg (record c {
        is_connected = false;
        state = st;
        pending = [];
        started = true;
        stopped = false;
      })
        ≡ waiting (rescheduled c) (retry_delay cfg (c.retry_count + 1))
  unfolding schedule_reconnect
  schedule_reconnect-again c st h = ground arith

  -- The client has given up.
  pub record HasGivenUp (c : Client D) : Type 0 where
    pub is_down : c.is_connected ≡ false
    pub is_idle : c.state ≡ disconnected
    pub nothing_pending : c.pending ≡ []
    pub all_used : c.retry_count ≡ cfg.max_attempts

  schedule_reconnect-last :
      (c : Client D)
      → c.retry_count ≡ cfg.max_attempts
      → c.is_connected ≡ false
      → c.pending ≡ []
      → HasGivenUp (schedule_reconnect cfg c)
  unfolding schedule_reconnect
  schedule_reconnect-last c h down e = ground arith

  after-failed_attempts :
      (c : Client D) (d : D) (stages : List ℕ)
      → All (λ s. s ≤ 4) stages
      → c.retry_count + length stages ≡ suc cfg.max_attempts
      → c.retry_count ≤ cfg.max_attempts
      → HasGivenUp (after cfg on_reconnect (waiting c d) (failed_attempts stages))
  unfolding after
  after-failed_attempts c d [] hs e le = absurd (omega arith)
  after-failed_attempts c d (s ∷ []) hs e le =
      rw
        (
          after-append cfg on_reconnect (waiting c d) (failed_attempt s) [],
          after-failed_attempt c d s hs.0,
          after,
        )
        (schedule_reconnect-last (record (waiting c d) { state = connecting; pending = [] })
          (omega arith) refl refl)
  after-failed_attempts c d (s ∷ t ∷ stages) hs e le =
      rw
        (
          after-append cfg on_reconnect (waiting c d) (failed_attempt s)
              (failed_attempts (t ∷ stages)),
          after-failed_attempt c d s hs.0,
          schedule_reconnect-again c connecting (omega arith),
        )
        (after-failed_attempts (rescheduled c) (retry_delay cfg (c.retry_count + 1)) (t ∷ stages)
          hs.1 (omega arith) (omega arith))

  pub after-read_error :
      (c : Client D) (events : List Event)
      → cfg.retry_enabled ≡ true
      → after cfg on_reconnect (linked c) (operation_ended 0 false [] ∷ events)
        ≡ after cfg on_reconnect
            (schedule_reconnect cfg (record (linked c) { is_connected = false; pending = [] }))
            events
  unfolding after happens complete handle on_read lose
  after-read_error c events enabled =
      ap
        (λ b.
          after cfg on_reconnect
            (if b
              then schedule_reconnect cfg (record (linked c) { is_connected = false; pending = [] })
              else close (record (linked c) { pending = [] }))
            events)
        enabled

  -- When the read of a connected client fails, and then ws_retry_max_attempts attempts fail one after
  -- the other, each at any of its five stages, retries being enabled,
  -- the client has given up: it is disconnected, no operation is pending, and the retry count is
  -- ws_retry_max_attempts.
  pub failed_attempts-HasGivenUp :
      (c : Client D) (stages : List ℕ)
      → cfg.retry_enabled ≡ true
      → length stages ≡ cfg.max_attempts
      → All (λ s. s ≤ 4) stages
      → HasGivenUp
          (after cfg on_reconnect (linked c) (operation_ended 0 false [] ∷ failed_attempts stages))
  unfolding after
  failed_attempts-HasGivenUp c [] enabled long hs =
      rw (after-read_error c (failed_attempts []) enabled) (
        schedule_reconnect-last (record (linked c) { is_connected = false; pending = [] }) long refl
          refl)
  failed_attempts-HasGivenUp c (s ∷ stages) enabled long hs =
      rw
        (
          after-read_error c (failed_attempts (s ∷ stages)) enabled,
          schedule_reconnect-again (linked c) connected (omega arith),
        )
        (after-failed_attempts (rescheduled (linked c)) (retry_delay cfg 1) (s ∷ stages) hs
          (omega arith) (omega arith))
