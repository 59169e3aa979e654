-- ===== src/Connection/Subscribed.antt =====
-- A connected client was sent every subscription since it connected.
use dpdk_cex_source.Base.{
  ◌+◌, ℕ, zero, suc, ◌≡◌, refl, sym, ap, ◌∙◌, Bool, true, false, not, if◌then◌else◌, List, [], ◌∷◌,
  ◌++◌, some, arith, inl, inr, Bool-cases,
}
use mathlib.Core.Path.{subst}
use mathlib.Core.List.{append_assoc, append-nil}
use dpdk_cex_source.UdpFeed.{ParsedOrderBook, Os}
use dpdk_cex_source.ExchangeAdapter.{IExchangeAdapter}
use dpdk_cex_source.BoostClient as Boost
use dpdk_cex_source.BoostClient.{
  Client, RetryConfig, Operation, reading, timing, expired, resolving, connecting_tcp, securing,
  upgrading, new, send, get_next_message, on_handshake, handle, complete, start, take_out,
  reconnected,
}
use dpdk_cex_source.Connection.{
  Connection, Subscription, Profile, connect, subscribe, subscribe_each, resubscribe, poll,
}
use dpdk_cex_source.Connection.Poll.{
  sent_all, passed_on, queued, pongs_of, books_of, process_message_lem,
}
use dpdk_cex_source.Connection.Covers.{
  Covers, Sends, send-Sends, Covers-Sends, Covers-both, Sends-Covers, connect-fails,
}

module _ {Q : Type 0} (adapter : IExchangeAdapter Q) where
  -- The messages of the subscriptions, in their order.
  abbrev pub messages_of : List ℕ → List (List ℕ) → List (List ℕ)
  messages_of channel [] = []
  messages_of channel (inst ∷ rest) =
      adapter.generate_subscribe_message inst channel ∷ messages_of channel rest

  abbrev pub messages : List Subscription → List (List ℕ)
  messages [] = []
  messages (sub ∷ subs) = messages_of sub.channel sub.instruments ++ messages subs

  messages-snoc :
      (subs : List Subscription) (sub : Subscription)
      → messages (subs ++ sub ∷ []) ≡ messages subs ++ messages_of sub.channel sub.instruments
  messages-snoc [] sub = append-nil (messages_of sub.channel sub.instruments)
  messages-snoc (s ∷ subs) sub =
      ap (λ ms. messages_of s.channel s.instruments ++ ms) (messages-snoc subs sub)
      ∙ sym (
          append_assoc (messages_of s.channel s.instruments) (messages subs)
            (messages_of sub.channel sub.instruments))

some-injective : {A : Type 0} {a b : A} → some a ≡ some b → a ≡ b
some-injective e = ground (arith, e)

module _ {D : Type 0} where
  Sends-none : (c : Client D) → Sends [] c c
  unfolding Sends
  Sends-none c = (refl, λ up. sym (append-nil c.accepted))

  Sends-trans :
      (xs ys : List (List ℕ)) (a b c : Client D)
      → Sends xs a b
      → Sends ys b c
      → Sends (xs ++ ys) a c
  unfolding Sends
  Sends-trans xs ys a b c (link, more) (link', more') = (
    link' ∙ link,
    λ up. more' (link ∙ up) ∙ ap (λ zs. zs ++ ys) (more up) ∙ append_assoc a.accepted xs ys,
  )

module _ {D Q : Type 0} (adapter : IExchangeAdapter Q) where
  subscribe_each-Sends :
      (channel : List ℕ) (instruments : List (List ℕ)) (c : Client D)
      → Sends
          (messages_of adapter channel instruments)
          c
          (subscribe_each adapter channel instruments c)
  unfolding subscribe_each
  subscribe_each-Sends channel [] c = Sends-none c
  subscribe_each-Sends channel (inst ∷ rest) c =
      let m = adapter.generate_subscribe_message inst channel in
      Sends-trans (m ∷ []) (messages_of adapter channel rest) c (send c m) _ (send-Sends c m)
        (subscribe_each-Sends channel rest (send c m))

  pub resubscribe-Sends :
      (subs : List Subscription) (c : Client D)
      → Sends (messages adapter subs) c (resubscribe adapter subs c)
  unfolding resubscribe
  resubscribe-Sends [] c = Sends-none c
  resubscribe-Sends (sub ∷ subs) c =
      let c' = subscribe_each adapter sub.channel sub.instruments c in
      Sends-trans (messages_of adapter sub.channel sub.instruments) (messages adapter subs) c c' _
        (subscribe_each-Sends sub.channel sub.instruments c) (resubscribe-Sends subs c')

  -- While the connection is up, each of its subscriptions was accepted for sending.
  abbrev pub IsSubscribed : Connection D Q → Type 0
  IsSubscribed c = Covers (messages adapter c.active_subscriptions) c.ws_client

  pub connect-IsSubscribed :
      (cfg : RetryConfig D) (c : Connection D Q) (ok : Bool)
      → IsSubscribed (connect adapter cfg c ok).1
  unfolding connect Boost.connect
  connect-IsSubscribed cfg c true =
      Sends-Covers (messages adapter c.active_subscriptions) (Boost.connect cfg c.ws_client true).1
        _ (resubscribe-Sends c.active_subscriptions (Boost.connect cfg c.ws_client true).1)
  connect-IsSubscribed cfg c false =
      let (client, fails, down) = connect-fails cfg c.ws_client in
      λ up. absurd (ground (arith, fails, down, up))

  subscribe_if-Covers :
      (ms : List (List ℕ)) (channel : List ℕ) (instruments : List (List ℕ)) (c : Client D)
      (b : Bool)
      → c.is_connected ≡ b
      → Covers ms c
      → Covers
          (ms ++ messages_of adapter channel instruments)
          (if not b then c else subscribe_each adapter channel instruments c)
  subscribe_if-Covers ms channel instruments c true e h =
      Covers-both ms (messages_of adapter channel instruments) c _
        (subscribe_each-Sends channel instruments c) h
  subscribe_if-Covers ms channel instruments c false e h = λ up. absurd (ground (arith, e, up))

  -- The two ends of `subscribe` as one.
  subscribe_lem :
      (c : Connection D Q) (instruments : List (List ℕ)) (channel : List ℕ)
      → subscribe adapter c instruments channel ≡ record c {
        active_subscriptions =
            c.active_subscriptions ++ record { instruments = instruments; channel = channel } ∷ [];
        ws_client =
            if not c.ws_client.is_connected
            then c.ws_client
            else subscribe_each adapter channel instruments c.ws_client;
      }
  unfolding subscribe
  subscribe_lem c instruments channel = elim (Bool-cases c.ws_client.is_connected) [
    | inl e ↦ ground (arith, e)
    | inr e ↦ ground (arith, e)
  ]

  pub subscribe-IsSubscribed :
      (c : Connection D Q) (instruments : List (List ℕ)) (channel : List ℕ)
      → IsSubscribed c
      → IsSubscribed (subscribe adapter c instruments channel)
  subscribe-IsSubscribed c instruments channel v =
      let sub : Subscription = record { instruments = instruments; channel = channel } in
      rw (subscribe_lem c instruments channel, messages-snoc adapter c.active_subscriptions sub)
        (subscribe_if-Covers (messages adapter c.active_subscriptions) channel instruments
          c.ws_client c.ws_client.is_connected refl v)

module _ {D Q : Type 0} (adapter : IExchangeAdapter Q) (profile : Profile) (bits : Q → ℕ) (os : Os)
    (now : ℕ → ℕ) where
  passed_on-IsSubscribed :
      (listening : Bool) (ps : List (List ℕ)) (bs : List (ParsedOrderBook Q)) (c : Connection D Q)
      → IsSubscribed adapter c
      → IsSubscribed adapter (passed_on adapter profile bits os now listening ps bs c)
  unfolding Sends
  passed_on-IsSubscribed listening ps bs c v =
      Covers-Sends (messages adapter c.active_subscriptions) ps c.ws_client
        (sent_all ps c.ws_client) (refl, λ up. ground (arith, up)) v

  pub poll-IsSubscribed :
      (b : ℕ → ParsedOrderBook Q) (listening : Bool) (fuel : ℕ) (q : List (List ℕ))
      (c c' : Connection D Q)
      → IsSubscribed adapter c
      → poll adapter profile bits os now b listening fuel (queued adapter profile bits os now q c)
        ≡ some c'
      → IsSubscribed adapter c'
  unfolding poll get_next_message
  poll-IsSubscribed b listening zero q c c' v e = absurd (ground (arith, e))
  poll-IsSubscribed b listening (suc fuel) [] c c' v e =
      subst (IsSubscribed adapter) (some-injective e) v
  poll-IsSubscribed b listening (suc fuel) (m ∷ q) c c' v e =
      let ps = pongs_of adapter profile m in
      let bs = books_of adapter profile (b 0) m in
      poll-IsSubscribed (λ k. b (k + 1)) listening fuel q
        (passed_on adapter profile bits os now listening ps bs c) c'
        (passed_on-IsSubscribed listening ps bs c v)
        (ap (λ x. poll adapter profile bits os now (λ k. b (k + 1)) listening fuel x)
            (sym (
              process_message_lem adapter profile bits os now (b 0) listening
                (queued adapter profile bits os now q c) m))
          ∙ e)
