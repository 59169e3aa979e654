-- ===== src/BoostClient/Tests.antt =====
-- Runs of the client: at most three attempts, after 1 s, 2 s and 3 s.
use dpdk_cex_source.Base.{ℕ, ◌*◌, refl, true, false, List, [], ◌∷◌, ◌++◌, ltb, arith}
use dpdk_cex_source.BoostClient.{RetryConfig, Client, new, send}
use dpdk_cex_source.BoostClient.History.{
  Event, connect_called, send_called, message_taken, close_called, write_run, operation_ended,
  after,
}
use dpdk_cex_source.BoostClient.Timers.{IsBounded}
use dpdk_cex_source.BoostClient.Invariant.{Keeps, history-IsBounded}
use dpdk_cex_source.BoostClient.Retry.{
  HasGivenUp, linked, failed_attempts, failed_attempts-HasGivenUp,
}
use dpdk_cex_source.BoostClient.Reconnect.{
  HasReconnected, good_attempt, send_all, good_attempt-HasReconnected,
}
use dpdk_cex_source.BoostClient.Flapping.{
  KeepsReconnecting, ended, renewed, cycles, run, write_error-KeepsReconnecting,
}

abbrev three_attempts : RetryConfig ℕ
three_attempts = record {
  retry_enabled = true;
  max_attempts = 3;
  initial_delay = 1000;
  max_delay = 3000;
  multiply = λ d. 2 * d;
  exceeds = λ a b. ltb b a;
}

abbrev hello : List ℕ
hello = 104 ∷ 105 ∷ []

abbrev greet : Client ℕ → Client ℕ
greet c = send c hello

greet-Keeps : Keeps three_attempts greet
unfolding send
greet-Keeps c v = ground arith

-- A connection that takes a message, loses its read, and reconnects.
abbrev reconnection : List Event
reconnection =
    connect_called true
      ∷ send_called hello
      ∷ write_run true
      ∷ operation_ended 0 true hello
      ∷ operation_ended 0 false []
      ∷ good_attempt
    ++ message_taken ∷ write_run true ∷ close_called ∷ operation_ended 0 true hello ∷ []

history-IsBounded_example : IsBounded 3 (after three_attempts greet new reconnection)
history-IsBounded_example = history-IsBounded three_attempts greet greet-Keeps reconnection

abbrev all_stages : List ℕ
all_stages = 0 ∷ 4 ∷ 2 ∷ []

abbrev no_callback : Client ℕ → Client ℕ
no_callback c = c

failed_attempts-HasGivenUp_example : HasGivenUp three_attempts no_callback (
    after three_attempts no_callback
      (linked new)
      (operation_ended 0 false [] ∷ failed_attempts all_stages))
failed_attempts-HasGivenUp_example =
    failed_attempts-HasGivenUp three_attempts no_callback new all_stages refl refl
      (omega arith, (omega arith, (omega arith, tt)))

abbrev two_stages : List ℕ
two_stages = 3 ∷ 1 ∷ []

good_attempt-HasReconnected_example : HasReconnected (hello ∷ []) new (
    after three_attempts
      (send_all (hello ∷ []))
      (linked new)
      (operation_ended 0 false [] ∷ failed_attempts two_stages ++ good_attempt))
good_attempt-HasReconnected_example =
    good_attempt-HasReconnected three_attempts (hello ∷ []) new two_stages refl (omega arith)
      (omega arith, (omega arith, tt))

abbrev one_posted : Client ℕ
one_posted = record new { posted = hello ∷ [] }

write_error-KeepsReconnecting_example :
    KeepsReconnecting 7 6
      (run three_attempts (linked one_posted) (write_run false ∷ ended 1 ∷ renewed ++ cycles 5))
unfolding new
write_error-KeepsReconnecting_example =
    write_error-KeepsReconnecting three_attempts one_posted hello [] 5 refl (omega arith) refl
