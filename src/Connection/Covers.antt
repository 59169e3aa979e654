-- ===== src/Connection/Covers.antt =====
-- What each step of the client does to the messages that a connection has accepted.
use dpdk_cex_source.Base.{
  ℕ, ◌≡◌, refl, sym, ◌∙◌, Bool, true, false, List, [], ◌∷◌, ◌++◌, All, arith, ◌⊎◌, inl, inr,
  Bool-cases, List-cases, All-append,
}
use dpdk_cex_source.BoostClient as Boost
use dpdk_cex_source.BoostClient.{
  Client, RetryConfig, new, send, get_next_message, close, lose, schedule_reconnect, run_posted,
  on_read, on_handshake, go_on, attempt_reconnect_async, handle, complete, start, take_out,
  reconnected,
}

-- A message is among those of a list.
pub data IsIn (m : List ℕ) : List (List ℕ) → Type 0 where
  here : {ms : List (List ℕ)} → IsIn m (m ∷ ms)
  there : {x : List ℕ} {ms : List (List ℕ)} → IsIn m ms → IsIn m (x ∷ ms)

IsIn-left : {m : List ℕ} (xs ys : List (List ℕ)) → IsIn m xs → IsIn m (xs ++ ys)
IsIn-left [] ys h = elim h [ ]
IsIn-left (x ∷ xs) ys here = here
IsIn-left (x ∷ xs) ys (there h) = there (IsIn-left xs ys h)

IsIn-right : {m : List ℕ} (xs ys : List (List ℕ)) → IsIn m ys → IsIn m (xs ++ ys)
IsIn-right [] ys h = h
IsIn-right (x ∷ xs) ys h = there (IsIn-right xs ys h)

abbrev pub AllIn : List (List ℕ) → List (List ℕ) → Type 0
AllIn ms xs = All (λ m. IsIn m xs) ms

pub AllIn-left : (ms xs ys : List (List ℕ)) → AllIn ms xs → AllIn ms (xs ++ ys)
AllIn-left [] xs ys h = tt
AllIn-left (m ∷ ms) xs ys h = (IsIn-left xs ys h.0, AllIn-left ms xs ys h.1)

pub AllIn-right : (ms xs ys : List (List ℕ)) → AllIn ms ys → AllIn ms (xs ++ ys)
AllIn-right [] xs ys h = tt
AllIn-right (m ∷ ms) xs ys h = (IsIn-right xs ys h.0, AllIn-right ms xs ys h.1)

AllIn-refl : (ms : List (List ℕ)) → AllIn ms ms
AllIn-refl [] = tt
AllIn-refl (m ∷ ms) = (here, AllIn-right ms (m ∷ []) ms (AllIn-refl ms))

module _ {D : Type 0} where
  -- While the client is connected, it has accepted each of ms since the connection was made.
  abbrev pub Covers : List (List ℕ) → Client D → Type 0
  Covers ms c = c.is_connected ≡ true → AllIn ms c.accepted

  -- A step that keeps the link and what was accepted over it, or that breaks the link.
  unfoldable pub Quiet : Client D → Client D → Type 0
  Quiet c c' =
      ((c'.is_connected ≡ c.is_connected) × (c'.accepted ≡ c.accepted)) ⊎ (c'.is_connected ≡ false)

  pub Covers-Quiet :
      (ms : List (List ℕ)) (c c' : Client D) → Quiet c c' → Covers ms c → Covers ms c'
  unfolding Quiet
  Covers-Quiet ms c c' (inl (link, same)) h up = rw same (h (sym link ∙ up))
  Covers-Quiet ms c c' (inr down) h up = absurd (ground (arith, down, up))

  -- A step that sends ms.
  unfoldable pub Sends : List (List ℕ) → Client D → Client D → Type 0
  Sends ms c c' =
      (c'.is_connected ≡ c.is_connected) × (c.is_connected ≡ true → c'.accepted ≡ c.accepted ++ ms)

  pub send-Sends : (c : Client D) (m : List ℕ) → Sends (m ∷ []) c (send c m)
  unfolding Sends send
  send-Sends c m = (ground arith, λ up. ground (arith, up))

  pub Covers-Sends :
      (ms ns : List (List ℕ)) (c c' : Client D) → Sends ns c c' → Covers ms c → Covers ms c'
  unfolding Sends
  Covers-Sends ms ns c c' (link, more) h up =
      rw (more (sym link ∙ up)) (AllIn-left ms c.accepted ns (h (sym link ∙ up)))

  pub Sends-Covers : (ms : List (List ℕ)) (c c' : Client D) → Sends ms c c' → Covers ms c'
  unfolding Sends
  Sends-Covers ms c c' (link, more) up =
      rw (more (sym link ∙ up)) (AllIn-right ms c.accepted ms (AllIn-refl ms))

  pub Covers-both :
      (ms ns : List (List ℕ)) (c c' : Client D) → Sends ns c c' → Covers ms c → Covers (ms ++ ns) c'
  Covers-both ms ns c c' s h up =
      All-append (λ m. IsIn m c'.accepted) ms ns (Covers-Sends ms ns c c' s h up)
        (Sends-Covers ns c c' s up)

module _ {D : Type 0} (cfg : RetryConfig D) where
  pub schedule_reconnect-Quiet : (c : Client D) → Quiet c (schedule_reconnect cfg c)
  unfolding Quiet schedule_reconnect
  schedule_reconnect-Quiet c = inl (ground arith, ground arith)

  pub lose-Quiet : (b c : Client D) → Quiet b (lose cfg c)
  unfolding Quiet lose schedule_reconnect close
  lose-Quiet b c = inr (ground arith)

  pub go_on-Quiet :
      (c : Client D) (ok : Bool) (op : Boost.Operation D) → Quiet c (go_on cfg c ok op)
  unfolding Quiet go_on schedule_reconnect
  go_on-Quiet c ok op = inl (ground arith, ground arith)

  pub attempt-Quiet : (c : Client D) (ok : Bool) → Quiet c (attempt_reconnect_async cfg c ok)
  unfolding Quiet attempt_reconnect_async schedule_reconnect
  attempt-Quiet c ok = inl (ground arith, ground arith)

  pub on_read-Quiet : (c : Client D) (ok : Bool) (m : List ℕ) → Quiet c (on_read cfg c ok m)
  unfolding Quiet on_read
  on_read-Quiet c true m = inl (refl, refl)
  on_read-Quiet c false m = lose-Quiet c c

  pub run_posted-Quiet : (c : Client D) (ok : Bool) → Quiet c (run_posted cfg c ok)
  unfolding Quiet run_posted lose schedule_reconnect close
  run_posted-Quiet c ok = elim (List-cases c.posted) [
    | inl e ↦ inl (ground (arith, e), ground (arith, e))
    | inr ((m, ms), e) ↦ ground (arith, e)
  ]

  -- A connect that fails says so, and leaves the client without a link.
  pub connect-fails :
      (c : Client D)
      → (c' : Client D) × (Boost.connect cfg c false ≡ (false, c')) × (c'.is_connected ≡ false)
  unfolding Boost.connect schedule_reconnect
  connect-fails c = elim (Bool-cases cfg.retry_enabled) [
    | inl e ↦ ((Boost.connect cfg c false).1, ground (arith, e), ground (arith, e))
    | inr e ↦ ((Boost.connect cfg c false).1, ground (arith, e), ground (arith, e))
  ]
