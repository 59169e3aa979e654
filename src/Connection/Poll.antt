-- ===== src/Connection/Poll.antt =====
-- What `poll` does with the messages that the client has queued.
use dpdk_cex_source.Base.{
  ◌+◌, ℕ, zero, suc, ◌<◌, ◌≡◌, refl, sym, ap, ◌∙◌, Bool, true, false, ◌||◌, not, if◌then◌else◌,
  List, [], ◌∷◌, ◌++◌, Option, some, length, arith, inl, inr, Bool-cases,
}
use mathlib.Core.List.{append_assoc, append-nil}
use dpdk_cex_source.UdpFeed.{ParsedOrderBook, UdpPublisher, Os}
use dpdk_cex_source.ExchangeAdapter.{IExchangeAdapter}
use dpdk_cex_source.BoostClient.{Client, send, get_next_message}
use dpdk_cex_source.Connection.{Connection, Profile, broadcast, process_message, poll, is_empty}

module _ {D : Type 0} where
  -- The client after it was asked to send each of ms.
  abbrev pub sent_all : List (List ℕ) → Client D → Client D
  sent_all ms c = record c {
    posted = if c.is_connected then c.posted ++ ms else c.posted;
    accepted = if c.is_connected then c.accepted ++ ms else c.accepted;
  }

  send_lem : (c : Client D) (m : List ℕ) → send c m ≡ sent_all (m ∷ []) c
  unfolding send
  send_lem c m = ground arith

  sent_all-none : (c : Client D) → sent_all [] c ≡ c
  sent_all-none c = elim (Bool-cases c.is_connected) [
    | inl e ↦ ground (arith, e, append-nil c.posted, append-nil c.accepted)
    | inr e ↦ ground (arith, e)
  ]

  sent_all-both :
      (xs ys : List (List ℕ)) (c : Client D) → sent_all ys (sent_all xs c) ≡ sent_all (xs ++ ys) c
  sent_all-both xs ys c = elim (Bool-cases c.is_connected) [
    | inl e ↦ ground (arith, e, append_assoc c.posted xs ys, append_assoc c.accepted xs ys)
    | inr e ↦ ground (arith, e)
  ]

module _ {Q : Type 0} (adapter : IExchangeAdapter Q) (bits : Q → ℕ) (os : Os) (now : ℕ → ℕ) where
  -- The books are broadcast in their order.
  abbrev pub broadcast_all : Option UdpPublisher → List (ParsedOrderBook Q) → Option UdpPublisher
  broadcast_all u [] = u
  broadcast_all u (book ∷ books) = broadcast_all (broadcast adapter bits os now u book) books

  broadcast_all-append :
      (u : Option UdpPublisher) (xs ys : List (ParsedOrderBook Q))
      → broadcast_all u (xs ++ ys) ≡ broadcast_all (broadcast_all u xs) ys
  broadcast_all-append u [] ys = refl
  broadcast_all-append u (book ∷ xs) ys =
      broadcast_all-append (broadcast adapter bits os now u book) xs ys

module _ {Q : Type 0} (adapter : IExchangeAdapter Q) (profile : Profile) where
  -- The answer to a message, and the book in it, if any.
  abbrev pub pongs_of : List ℕ → List (List ℕ)
  pongs_of m =
      if adapter.is_ping_message m
      then if profile.sends_empty_pong || not (is_empty adapter.generate_pong_message)
        then adapter.generate_pong_message ∷ []
        else []
      else []

  abbrev pub books_of : ParsedOrderBook Q → List ℕ → List (ParsedOrderBook Q)
  books_of local_book m =
      if adapter.is_ping_message m || adapter.is_subscription_response m
      then []
      else let (parsed, book) = adapter.parse_orderbook_message m local_book in
        if parsed then book ∷ [] else []

  abbrev pub all_pongs : List (List ℕ) → List (List ℕ)
  all_pongs [] = []
  all_pongs (m ∷ ms) = pongs_of m ++ all_pongs ms

  abbrev pub all_books : (ℕ → ParsedOrderBook Q) → List (List ℕ) → List (ParsedOrderBook Q)
  all_books local_books [] = []
  all_books local_books (m ∷ ms) =
      books_of (local_books 0) m ++ all_books (λ k. local_books (k + 1)) ms

module _ {D Q : Type 0} (adapter : IExchangeAdapter Q) (profile : Profile) (bits : Q → ℕ) (os : Os)
    (now : ℕ → ℕ) where
  -- The connection after it answered with pongs and passed on books.
  abbrev pub passed_on :
      Bool → List (List ℕ) → List (ParsedOrderBook Q) → Connection D Q → Connection D Q
  passed_on listening pongs books c = record c {
    ws_client = sent_all pongs c.ws_client;
    udp_publisher = broadcast_all adapter bits os now c.udp_publisher books;
    delivered = if listening then c.delivered ++ books else c.delivered;
  }

  passed_on-pongs :
      (listening : Bool) (ms : List (List ℕ)) (c : Connection D Q)
      → passed_on listening ms [] c ≡ record c { ws_client = sent_all ms c.ws_client }
  passed_on-pongs true ms c =
      ap (λ d. record c { ws_client = sent_all ms c.ws_client; delivered = d })
        (append-nil c.delivered)
  passed_on-pongs false ms c = refl

  passed_on-books :
      (listening : Bool) (books : List (ParsedOrderBook Q)) (c : Connection D Q)
      → passed_on listening [] books c ≡ record c {
        udp_publisher = broadcast_all adapter bits os now c.udp_publisher books;
        delivered = if listening then c.delivered ++ books else c.delivered;
      }
  passed_on-books listening books c =
      ap (λ client. record (passed_on listening [] books c) { ws_client = client })
        (sent_all-none c.ws_client)

  passed_on-none : (listening : Bool) (c : Connection D Q) → passed_on listening [] [] c ≡ c
  passed_on-none listening c =
      passed_on-pongs listening [] c
      ∙ ap (λ client. record c { ws_client = client }) (sent_all-none c.ws_client)

  pub process_message_lem :
      (b : ParsedOrderBook Q) (listening : Bool) (c : Connection D Q) (m : List ℕ)
      → process_message adapter profile bits os now b listening c m
        ≡ passed_on listening (pongs_of adapter profile m) (books_of adapter profile b m) c
  unfolding process_message
  process_message_lem b listening c m = elim (Bool-cases (adapter.is_ping_message m)) [
    | inl ping ↦
        elim (Bool-cases
          (profile.sends_empty_pong || not (is_empty adapter.generate_pong_message))) [
            | inl e ↦
                rw
                  (
                    ping,
                    e,
                    passed_on-pongs listening (adapter.generate_pong_message ∷ []) c,
                    send_lem c.ws_client adapter.generate_pong_message,
                  )
                  refl
            | inr e ↦ rw (ping, e, passed_on-none listening c) refl
          ]
    | inr other ↦ elim (Bool-cases (adapter.is_subscription_response m)) [
      | inl e ↦ rw (other, e, passed_on-none listening c) refl
      | inr e ↦ elim (Bool-cases (adapter.parse_orderbook_message m b).0) [
        | inl parsed ↦
            rw
              (
                other,
                e,
                parsed,
                passed_on-books listening ((adapter.parse_orderbook_message m b).1 ∷ []) c,
              )
              refl
        | inr failed ↦ rw (other, e, failed, passed_on-none listening c) refl
      ]
    ]
  ]

  passed_on-both :
      (listening : Bool) (ps ps' : List (List ℕ)) (bs bs' : List (ParsedOrderBook Q))
      (c : Connection D Q)
      → passed_on listening ps' bs' (passed_on listening ps bs c)
        ≡ passed_on listening (ps ++ ps') (bs ++ bs') c
  passed_on-both true ps ps' bs bs' c = cc (
    sent_all-both ps ps' c.ws_client,
    broadcast_all-append adapter bits os now c.udp_publisher bs bs',
    append_assoc c.delivered bs bs',
  )
  passed_on-both false ps ps' bs bs' c = cc (
    sent_all-both ps ps' c.ws_client,
    broadcast_all-append adapter bits os now c.udp_publisher bs bs',
  )

  -- The connection with the messages q in its client's queue.
  abbrev pub queued : List (List ℕ) → Connection D Q → Connection D Q
  queued q c = record c { ws_client = record c.ws_client { incoming = q } }

  poll-queued :
      (b : ℕ → ParsedOrderBook Q) (listening : Bool) (fuel : ℕ) (q : List (List ℕ))
      (c : Connection D Q)
      → length q < fuel
      → poll adapter profile bits os now b listening fuel (queued q c)
        ≡ some (
            passed_on listening
              (all_pongs adapter profile q)
              (all_books adapter profile b q)
              (queued [] c))
  unfolding poll get_next_message
  poll-queued b listening zero q c h = absurd (omega arith)
  poll-queued b listening (suc fuel) [] c h = ap some (sym (passed_on-none listening (queued [] c)))
  poll-queued b listening (suc fuel) (m ∷ q) c h =
      let ps = pongs_of adapter profile m in
      let bs = books_of adapter profile (b 0) m in
      ap (λ c'. poll adapter profile bits os now (λ k. b (k + 1)) listening fuel c')
        (process_message_lem (b 0) listening (queued q c) m)
      ∙ poll-queued (λ k. b (k + 1)) listening fuel q (passed_on listening ps bs c) (omega arith)
      ∙ ap some (
          passed_on-both listening ps (all_pongs adapter profile q) bs
            (all_books adapter profile (λ k. b (k + 1)) q) (queued [] c))

  -- With more rounds than the client has messages, poll ends, and the result is the connection whose
  -- queue is empty, whose client was asked to send the pongs of the messages, in their order, whose
  -- publisher was given the books of the messages that parse and are neither a ping nor the answer to
  -- a subscription, in their order, and whose callback, if there is one, was given the same books.
  pub poll-drains :
      (b : ℕ → ParsedOrderBook Q) (listening : Bool) (fuel : ℕ) (c : Connection D Q)
      → length c.ws_client.incoming < fuel
      → poll adapter profile bits os now b listening fuel c
        ≡ some (
            passed_on listening
              (all_pongs adapter profile c.ws_client.incoming)
              (all_books adapter profile b c.ws_client.incoming)
              (queued [] c))
  poll-drains b listening fuel c h = poll-queued b listening fuel c.ws_client.incoming c h
