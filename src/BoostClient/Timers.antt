-- ===== src/BoostClient/Timers.antt =====
-- The waits of the retry timer among the pending operations, and the bounds of a client.
use dpdk_cex_source.Base.{
  ℕ, zero, suc, ◌+◌, ◌≤◌, ◌≡◌, refl, List, [], ◌∷◌, ◌++◌, some, length, map, arith, inl, inr,
  Option-cases, length-append,
}
use dpdk_cex_source.BoostClient.{
  Operation, timing, Client, max_incoming_queue_size, cancel_timer, orphan, enqueue, take_out,
}

module _ {D : Type 0} where
  abbrev pub timer_of : Operation D → ℕ
  timer_of (timing d) = 1
  timer_of _ = 0

  abbrev pub timers : List (Operation D) → ℕ
  timers [] = 0
  timers (op ∷ ops) = timer_of op + timers ops

  pub timers-append : (xs ys : List (Operation D)) → timers (xs ++ ys) ≡ timers xs + timers ys
  timers-append [] ys = omega arith
  timers-append (op ∷ xs) ys = omega (arith, timers-append xs ys)

  pub timers-cancel : (xs : List (Operation D)) → timers (cancel_timer xs) ≡ 0
  timers-cancel [] = refl
  timers-cancel (op ∷ xs) = ground (arith, timers-cancel xs)

  timer_of-orphan : (op : Operation D) → timer_of (orphan op) ≡ timer_of op
  timer_of-orphan op = ground arith

  pub timers-orphan : (xs : List (Operation D)) → timers (map orphan xs) ≡ timers xs
  timers-orphan [] = refl
  timers-orphan (op ∷ xs) = omega (arith, timers-orphan xs, timer_of-orphan op)

  -- The bounds of a client: its attempts, its queue, and its timers.
  pub record IsBounded (most : ℕ) (c : Client D) : Type 0 where
    pub retries_bounded : c.retry_count ≤ most
    pub queue_bounded : length c.incoming ≤ max_incoming_queue_size
    pub one_timer : timers c.pending ≤ 1

  pub timers-take_out :
      (i : ℕ) (xs : List (Operation D)) (op : Operation D) (rest : List (Operation D))
      → take_out i xs ≡ some (op, rest)
      → timers xs ≡ timer_of op + timers rest
  timers-take_out i [] op rest e = ground arith
  timers-take_out zero (x ∷ xs) op rest e = ground arith
  timers-take_out (suc i) (x ∷ xs) op rest e = elim (Option-cases (take_out i xs)) [
    | inl none_left ↦ ground arith
    | inr ((found, others), h) ↦ ground (arith, timers-take_out i xs found others h)
  ]

pub enqueue-bound :
    (q : List (List ℕ)) (m : List ℕ)
    → length q ≤ max_incoming_queue_size
    → length (enqueue q m) ≤ max_incoming_queue_size
enqueue-bound q m h = ground (arith, length-append q (m ∷ []))
