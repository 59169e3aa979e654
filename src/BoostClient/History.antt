-- ===== src/BoostClient/History.antt =====
-- The histories of the client: what its owner calls, what the IO thread does, and how the network ends
-- the operations that were started.
use dpdk_cex_source.Base.{ℕ, Bool, List, [], ◌∷◌, ◌++◌, ◌≡◌, refl}
use dpdk_cex_source.BoostClient.{
  RetryConfig, Client, connect, send, get_next_message, close, run_posted, complete,
}

-- `operation_ended i ok m` ends the `i`-th pending operation; a read that succeeds brings m.
pub data Event : Type 0 where
  connect_called : Bool → Event
  send_called : List ℕ → Event
  message_taken : Event
  close_called : Event
  write_run : Bool → Event
  operation_ended : ℕ → Bool → List ℕ → Event

module _ {D : Type 0} (cfg : RetryConfig D) (on_reconnect : Client D → Client D) where
  unfoldable pub happens : Client D → Event → Client D
  unfolding connect send get_next_message close run_posted complete
  happens c (connect_called ok) = (connect cfg c ok).1
  happens c (send_called m) = send c m
  happens c message_taken = (get_next_message c).1
  happens c close_called = close c
  happens c (write_run ok) = run_posted cfg c ok
  happens c (operation_ended i ok m) = complete cfg on_reconnect c i ok m

  unfoldable pub after : Client D → List Event → Client D
  unfolding happens
  after c [] = c
  after c (e ∷ events) = after (happens c e) events

  pub after-append :
      (c : Client D) (xs ys : List Event) → after c (xs ++ ys) ≡ after (after c xs) ys
  unfolding after
  after-append c [] ys = refl
  after-append c (e ∷ xs) ys = after-append (happens c e) xs ys
