-- ===== src/BoostClient/Reconnect.antt =====
-- An attempt that succeeds, after some that failed: what on_handshake leaves, and what the callback's
-- messages become.
use dpdk_cex_source.Base.{
  ℕ, ◌+◌, ◌<◌, ◌≤◌, ◌≡◌, refl, ap, ◌∙◌, true, false, List, [], ◌∷◌, ◌++◌, length, replicate, All,
  arith,
}
use mathlib.Core.List.{append_assoc, append-nil}
use dpdk_cex_source.BoostClient.{
  connecting, connected, RetryConfig, reading, Client, retry_delay, complete, handle, go_on,
  on_handshake, attempt_reconnect_async, send, start, reconnected,
}
use dpdk_cex_source.BoostClient.History.{Event, operation_ended, happens, after, after-append}
use dpdk_cex_source.BoostClient.Retry.{
  failed_attempt, failed_attempts, linked, waiting, rescheduled, after-failed_attempt,
  schedule_reconnect-again, after-read_error,
}

-- All five steps succeed.
abbrev pub good_attempt : List Event
good_attempt = replicate 6 (operation_ended 0 true [])

module _ {D : Type 0} where
  abbrev pub send_all : List (List ℕ) → Client D → Client D
  send_all [] c = c
  send_all (m ∷ ms) c = send_all ms (send c m)

  -- The client is connected and reads, and posted the messages ms after those that c had.
  pub record HasReconnected (ms : List (List ℕ)) (c c' : Client D) : Type 0 where
    pub is_up : c'.is_connected ≡ true
    pub is_in_state : c'.state ≡ connected
    pub retries_reset : c'.retry_count ≡ 0
    pub only_reading : c'.pending ≡ reading true ∷ []
    pub all_posted : c'.posted ≡ c.posted ++ ms
    pub all_accepted : c'.accepted ≡ ms

  -- The client waits for its timer and has kept the posted messages of c.
  IsWaitingAgain : Client D → Client D → Type 0
  IsWaitingAgain c c' = (p : Client D × D) × (c' ≡ waiting p.0 p.1) × (p.0.posted ≡ c.posted)

  send_all-connected :
      (ms : List (List ℕ)) (c : Client D)
      → send_all ms (record c { is_connected = true })
        ≡ record c { is_connected = true; posted = c.posted ++ ms; accepted = c.accepted ++ ms }
  unfolding send
  send_all-connected [] c = cc (append-nil c.posted, append-nil c.accepted)
  send_all-connected (m ∷ ms) c =
      send_all-connected ms
        (record c { posted = c.posted ++ m ∷ []; accepted = c.accepted ++ m ∷ [] })
      ∙ cc (append_assoc c.posted (m ∷ []) ms, append_assoc c.accepted (m ∷ []) ms)

module _ {D : Type 0} (cfg : RetryConfig D) (on_reconnect : Client D → Client D) where
  after-good_attempt :
      (c : Client D) (d : D)
      → after cfg on_reconnect (waiting c d) good_attempt
        ≡ start
            (on_reconnect (reconnected (record (waiting c d) { state = connecting; pending = [] })))
            (reading true)
  unfolding after happens complete handle go_on on_handshake attempt_reconnect_async
  after-good_attempt c d = refl

  after-IsWaitingAgain :
      (c : Client D) (d : D) (stages : List ℕ)
      → All (λ s. s ≤ 4) stages
      → c.retry_count + length stages ≤ cfg.max_attempts
      → IsWaitingAgain c (after cfg on_reconnect (waiting c d) (failed_attempts stages))
  unfolding after IsWaitingAgain
  after-IsWaitingAgain c d [] hs le = ((c, d), refl, refl)
  after-IsWaitingAgain c d (s ∷ stages) hs le =
      rw
        (
          after-append cfg on_reconnect (waiting c d) (failed_attempt s) (failed_attempts stages),
          after-failed_attempt cfg on_reconnect c d s hs.0,
          schedule_reconnect-again cfg on_reconnect c connecting (omega arith),
        )
        (after-IsWaitingAgain (rescheduled cfg on_reconnect c) (retry_delay cfg (c.retry_count + 1))
          stages hs.1 (omega arith))

module _ {D : Type 0} (cfg : RetryConfig D) (ms : List (List ℕ)) where
  -- When the read of a connected client fails, retries being enabled, then fewer than
  -- ws_retry_max_attempts attempts fail one after the other, each at any of its five stages, and the
  -- next one succeeds, then the client is connected in the state Connected, its retry count is 0 and
  -- only a read is pending; when the reconnection callback sends the messages ms, those were posted
  -- in their order after what was posted before, and they are what was accepted since.
  pub good_attempt-HasReconnected :
      (c : Client D) (stages : List ℕ)
      → cfg.retry_enabled ≡ true
      → length stages < cfg.max_attempts
      → All (λ s. s ≤ 4) stages
      → HasReconnected ms c (
          after cfg
            (send_all ms)
            (linked c)
            (operation_ended 0 false [] ∷ failed_attempts stages ++ good_attempt))
  unfolding IsWaitingAgain
  good_attempt-HasReconnected c stages enabled few hs =
      let on_reconnect = send_all ms in
      let again = rescheduled cfg on_reconnect (linked c) in
      let d = retry_delay cfg 1 in
      let (p, is_waiting, kept) =
        after-IsWaitingAgain cfg on_reconnect again d stages hs (omega arith) in
      rw
        (
          after-read_error cfg on_reconnect c (failed_attempts stages ++ good_attempt) enabled,
          schedule_reconnect-again cfg on_reconnect (linked c) connected (omega arith),
          after-append cfg on_reconnect (waiting again d) (failed_attempts stages) good_attempt,
          is_waiting,
          after-good_attempt cfg on_reconnect p.0 p.1,
          send_all-connected ms
              (reconnected (record (waiting p.0 p.1) { state = connecting; pending = [] })),
        )
        (record {
          is_up = refl;
          is_in_state = refl;
          retries_reset = refl;
          only_reading = refl;
          all_posted = ap (λ x. x ++ ms) kept;
          all_accepted = refl;
        })
