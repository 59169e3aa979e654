-- ===== src/BoostClient.antt =====
-- src/modules/network/boost_websocket_client.h and boost_websocket_client.cpp, with the queue of
-- src/modules/network/concurrentqueue.h: the client of the exchanges on Boost.Beast. An operation that
-- was started and whose handler has not run stands in `pending`; the network decides which one ends
-- next and how. An operation of a stream knows whether it is the current stream's: Boost ends the
-- operations of a stream that is destroyed with an error. A delay is a double, of type D. The blocking `connect` is one step: what the IO thread
-- does while it waits is left to the steps before and after it.
pub mod History
pub mod Timers
pub mod Invariant
pub mod Retry
pub mod Reconnect
pub mod Flapping
mod Tests
use dpdk_cex_source.Base.{
  ℕ, zero, suc, ◌+◌, ◌-◌, Bool, true, false, ◌&&◌, not, if◌then◌else◌, ltb, leb, List, [], ◌∷◌,
  ◌++◌, Option, none, some, length, map,
}
use dpdk_cex_source.Base.Bytes.{u64}

pub data ConnectionState : Type 0 where
  disconnected connecting connected waiting_retry : ConnectionState

pub record RetryConfig (D : Type 0) : Type 0 where
  pub retry_enabled : Bool
  pub max_attempts : ℕ
  pub initial_delay : D
  pub max_delay : D
  -- `delay *= multiplier` and `a > b`
  pub multiply : D → D
  pub exceeds : D → D → Bool

-- What Boost is asked to do; the flag of a stream operation says that its stream is the current one.
pub data Operation (D : Type 0) : Type 0 where
  reading : Bool → Operation D
  timing : D → Operation D
  expired : Operation D
  resolving : Operation D
  connecting_tcp : Bool → Operation D
  securing : Bool → Operation D
  upgrading : Bool → Operation D

-- `posted` holds the messages whose writing was posted to the IO thread, `written` those that the
-- current or an older stream took, and `accepted` those that `send` accepted since the last
-- connection was made.
pub record Client (D : Type 0) : Type 0 where
  pub is_connected : Bool
  pub state : ConnectionState
  pub retry_count : ℕ
  pub reconnect_attempts : ℕ
  pub reconnect_success : ℕ
  pub incoming : List (List ℕ)
  pub pending : List (Operation D)
  pub posted : List (List ℕ)
  pub written : List (List ℕ)
  pub accepted : List (List ℕ)
  -- the IO thread was started, and the IO context was stopped
  pub started : Bool
  pub stopped : Bool

abbrev pub max_incoming_queue_size : ℕ
max_incoming_queue_size = 10000

-- ConcurrentQueue::enqueue behind the test of its size, and try_dequeue.
abbrev pub enqueue : List (List ℕ) → List ℕ → List (List ℕ)
enqueue q m = if ltb (length q) max_incoming_queue_size then q ++ m ∷ [] else q

abbrev pub try_dequeue : List (List ℕ) → Option (List ℕ) × List (List ℕ)
try_dequeue [] = (none, [])
try_dequeue (m ∷ q) = (some m, q)

module _ {D : Type 0} where
  unfoldable pub new : Client D
  new = record {
    is_connected = false;
    state = disconnected;
    retry_count = 0;
    reconnect_attempts = 0;
    reconnect_success = 0;
    incoming = [];
    pending = [];
    posted = [];
    written = [];
    accepted = [];
    started = false;
    stopped = false;
  }

  -- `expires_after` cancels a wait that has not expired; its handler does nothing.
  abbrev pub cancel_timer : List (Operation D) → List (Operation D)
  cancel_timer [] = []
  cancel_timer (timing d ∷ ops) = cancel_timer ops
  cancel_timer (op ∷ ops) = op ∷ cancel_timer ops

  -- The operations of a stream that is replaced.
  abbrev pub orphan : Operation D → Operation D
  orphan (reading b) = reading false
  orphan (connecting_tcp b) = connecting_tcp false
  orphan (securing b) = securing false
  orphan (upgrading b) = upgrading false
  orphan op = op

  abbrev pub start : Client D → Operation D → Client D
  start c op = record c { pending = c.pending ++ op ∷ [] }

  -- Handlers are run.
  abbrev pub runs : Client D → Bool
  runs c = c.started && not c.stopped

  -- The `i`-th operation of a list, and the others.
  abbrev pub take_out : ℕ → List (Operation D) → Option (Operation D × List (Operation D))
  take_out i [] = none
  take_out zero (op ∷ ops) = some (op, ops)
  take_out (suc i) (op ∷ ops) = elim (take_out i ops) [
    | none ↦ none
    | some (found, rest) ↦ some (found, op ∷ rest)
  ]

  unfoldable pub get_next_message : Client D → Option (List ℕ) × Client D
  get_next_message c = let (m, q) = try_dequeue c.incoming in (m, record c { incoming = q })

  -- The first part of `send`; the rest runs on the IO thread.
  unfoldable pub send : Client D → List ℕ → Client D
  send c m =
      if c.is_connected
      then record c { posted = c.posted ++ m ∷ []; accepted = c.accepted ++ m ∷ [] }
      else c

  -- The IO context is stopped, and nothing restarts it: no handler runs any more. (The posted closing
  -- handshake is not run either.)
  unfoldable pub close : Client D → Client D
  close c = record c { is_connected = false; stopped = true }

  -- The fields that `on_handshake` sets.
  abbrev pub reconnected : Client D → Client D
  reconnected c = record c {
    is_connected = true;
    state = connected;
    retry_count = 0;
    reconnect_success = u64 (c.reconnect_success + 1);
    accepted = [];
  }

module _ {D : Type 0} (cfg : RetryConfig D) where
  -- `delay *= multiplier`, `n` times
  unfoldable pub multiplied : ℕ → D → D
  multiplied zero d = d
  multiplied (suc n) d = multiplied n (cfg.multiply d)

  -- The delay before the `n`-th attempt.
  unfoldable pub retry_delay : ℕ → D
  unfolding multiplied
  retry_delay n =
      let delay = multiplied (n - 1) cfg.initial_delay in
      if cfg.exceeds delay cfg.max_delay then cfg.max_delay else delay

  unfoldable pub schedule_reconnect : Client D → Client D
  unfolding retry_delay
  schedule_reconnect c =
      if leb cfg.max_attempts c.retry_count then record c { state = disconnected } else record c {
        state = waiting_retry;
        retry_count = c.retry_count + 1;
        reconnect_attempts = u64 (c.reconnect_attempts + 1);
        pending = cancel_timer c.pending ++ timing (retry_delay (c.retry_count + 1)) ∷ [];
      }

  -- The two ways that a broken connection is treated.
  unfoldable pub lose : Client D → Client D
  unfolding schedule_reconnect close
  lose c =
      if cfg.retry_enabled then schedule_reconnect (record c { is_connected = false }) else close c

  -- `connect`: the calls of Boost block, and `ok` tells that none of them throws.
  unfoldable pub connect : Client D → Bool → Bool × Client D
  unfolding schedule_reconnect
  connect c ok =
      let opened = record c {
        state = connecting;
        is_connected = false;
        started = true;
        pending = map orphan c.pending;
      } in
      if ok
      then (
        true,
        record opened {
          is_connected = true;
          state = connected;
          retry_count = 0;
          accepted = [];
          pending = opened.pending ++ reading true ∷ [];
        },
      )
      else if cfg.retry_enabled
      then (false, schedule_reconnect opened)
      else (false, record opened { state = disconnected })

  -- A new stream; `sni` tells that SSL_set_tlsext_host_name succeeds.
  unfoldable pub attempt_reconnect_async : Client D → Bool → Client D
  unfolding schedule_reconnect
  attempt_reconnect_async c sni =
      let renewed = record c { state = connecting; pending = map orphan c.pending } in
      if sni then start renewed resolving else schedule_reconnect renewed

  -- The IO thread runs the head of `posted`; `ok` tells that the write does not throw.
  unfoldable pub run_posted : Client D → Bool → Client D
  unfolding lose
  run_posted c ok = elim c.posted [
    | [] ↦ c
    | m ∷ ms ↦
        let c' = record c { posted = ms } in
        if not (runs c)
        then c
        else if c.is_connected
        then if ok then record c' { written = c.written ++ m ∷ [] } else lose c'
        else c'
  ]

  unfoldable pub on_read : Client D → Bool → List ℕ → Client D
  unfolding lose
  on_read c ok message =
      if ok
      then start (record c { incoming = enqueue c.incoming message }) (reading true)
      else lose c

  -- `on_reconnect` is the callback, an action on the client.
  unfoldable pub on_handshake : (Client D → Client D) → Client D → Bool → Client D
  unfolding schedule_reconnect
  on_handshake on_reconnect c ok =
      if ok then start (on_reconnect (reconnected c)) (reading true) else schedule_reconnect c

  -- on_resolve, on_connect and on_ssl_handshake: the next operation, or another attempt.
  unfoldable pub go_on : Client D → Bool → Operation D → Client D
  unfolding schedule_reconnect
  go_on c ok next = if ok then start c next else schedule_reconnect c

  -- The handler of an operation that was taken out of `pending`; `ok` is how the network ended it.
  unfoldable pub handle : (Client D → Client D) → Client D → Operation D → Bool → List ℕ → Client D
  unfolding on_read on_handshake go_on attempt_reconnect_async
  handle on_reconnect c (reading live) ok m = on_read c (ok && live) m
  handle on_reconnect c (timing d) ok m = start c expired
  handle on_reconnect c expired ok m = attempt_reconnect_async c ok
  handle on_reconnect c resolving ok m = go_on c ok (connecting_tcp true)
  handle on_reconnect c (connecting_tcp live) ok m = go_on c (ok && live) (securing true)
  handle on_reconnect c (securing live) ok m = go_on c (ok && live) (upgrading true)
  handle on_reconnect c (upgrading live) ok m = on_handshake on_reconnect c (ok && live)

  -- The IO thread runs the handler of the `i`-th pending operation, if it still runs.
  unfoldable pub complete : (Client D → Client D) → Client D → ℕ → Bool → List ℕ → Client D
  unfolding handle
  complete on_reconnect c i ok m =
      if runs c
      then (elim (take_out i c.pending) [
        | none ↦ c
        | some (op, ops) ↦ handle on_reconnect (record c { pending = ops }) op ok m
      ])
      else c
