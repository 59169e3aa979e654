-- ===== src/Subscriptions/Restore.antt =====
-- Subscribing to a list of saved subscriptions.

use mathlib.Core.List.{append_assoc, append-nil}
use dpdk_cex_source.Base.{
  ℕ, ◌≡◌, refl, sym, ap, ◌∙◌, true, List, [], ◌∷◌, ◌++◌, none, arith, ◌⊎◌, inl, inr,
}
use dpdk_cex_source.Base.Ord.{string_ord}
use dpdk_cex_source.Base.SortedMap.{SortedMap, find, insert, Above, IsSorted}
use dpdk_cex_source.Subscriptions.{
  SubscriptionState, pending, confirmed, failed, Subscription, ws_connected, WebSocketClient,
  Request, subscribes, make_subscription_key, is_known, subscribe, confirmed_of, subscribe_all,
}
use dpdk_cex_source.Subscriptions.Keys.{
  Below, find-Below, insert-Below, Below-trans, Below-snoc, Before,
}

abbrev pub key_of : Subscription → List ℕ
key_of s = make_subscription_key s.exchange s.instrument s.channel

-- Every entry stands under its own key and is of an exchange that the client can subscribe to.
abbrev pub Tracked : SortedMap (List ℕ) Subscription → Type 0
Tracked [] = Unit
Tracked ((k, s) ∷ m) = (k ≡ key_of s) × (is_known s.exchange ≡ true) × Tracked m

abbrev pub IsTracking : WebSocketClient → Type 0
IsTracking c = IsSorted string_ord c.subscriptions × Tracked c.subscriptions

-- The subscriptions to come back: the confirmed ones, pending again.
unfoldable pub pending_again : SortedMap (List ℕ) Subscription → SortedMap (List ℕ) Subscription
pending_again [] = []
pending_again ((k, s) ∷ m) = elim s.state [
  | confirmed ↦ (k, record s { state = pending }) ∷ pending_again m
  | pending ↦ pending_again m
  | failed ↦ pending_again m
]

unfoldable pub requests_for : SortedMap (List ℕ) Subscription → List Request
requests_for [] = []
requests_for ((k, s) ∷ m) = elim s.state [
  | confirmed ↦ subscribes s.exchange s.instrument s.channel ∷ requests_for m
  | pending ↦ requests_for m
  | failed ↦ requests_for m
]

subscribe_new :
    (c : WebSocketClient) (s : Subscription)
    → c.state ≡ ws_connected
    → find string_ord (key_of s) c.subscriptions ≡ none
    → is_known s.exchange ≡ true
    → subscribe c s.exchange s.instrument s.channel ≡ (
      record c {
        subscriptions = insert string_ord (key_of s) (record s { state = pending }) c.subscriptions;
      },
      subscribes s.exchange s.instrument s.channel ∷ [],
    )
unfolding subscribe
subscribe_new c s h n k = ground arith

next-Before :
    (k : List ℕ) (xs m : SortedMap (List ℕ) Subscription)
    → Below string_ord k xs
    → Above string_ord k m
    → IsSorted string_ord m
    → Before string_ord xs m
next-Before k xs [] b a o = tt
next-Before k xs ((l, w) ∷ m) b a o = Below-trans string_ord k l xs a.0 b

snoc-Before :
    (k : List ℕ) (s : Subscription) (xs m : SortedMap (List ℕ) Subscription)
    → Below string_ord k xs
    → Above string_ord k m
    → Before string_ord (xs ++ (k, s) ∷ []) m
snoc-Before k s xs [] b a = tt
snoc-Before k s xs ((l, w) ∷ m) b a = Below-snoc string_ord k l s xs a.0 b

-- `c` with the subscriptions `xs`.
abbrev pub holding : WebSocketClient → SortedMap (List ℕ) Subscription → WebSocketClient
holding c xs = record c { subscriptions = xs }

subscribe_last :
    (c : WebSocketClient) (xs : SortedMap (List ℕ) Subscription) (k : List ℕ) (s : Subscription)
    → c.state ≡ ws_connected
    → k ≡ key_of s
    → Below string_ord k xs
    → is_known s.exchange ≡ true
    → subscribe (holding c xs) s.exchange s.instrument s.channel ≡ (
      holding c (xs ++ (k, record s { state = pending }) ∷ []),
      subscribes s.exchange s.instrument s.channel ∷ [],
    )
subscribe_last c xs k s h e b known =
    subscribe_new (holding c xs) s h
      (ap (λ j. find string_ord j xs) (sym e) ∙ find-Below string_ord k xs b) known
    ∙ ap
        (λ (ys : SortedMap (List ℕ) Subscription).
          (holding c ys, subscribes s.exchange s.instrument s.channel ∷ []))
        (ap (λ j. insert string_ord j (record s { state = pending }) xs) (sym e)
          ∙ insert-Below string_ord k (record s { state = pending }) xs b)

abbrev continued :
    WebSocketClient × List Request → List Subscription → WebSocketClient × List Request
continued r ss = let (c, rest) = subscribe_all r.0 ss in (c, r.1 ++ rest)

subscribe_all-cons :
    (c : WebSocketClient) (s : Subscription) (ss : List Subscription)
    → subscribe_all c (s ∷ ss) ≡ continued (subscribe c s.exchange s.instrument s.channel) ss
unfolding subscribe_all
subscribe_all-cons c s ss = refl

SubscriptionState-cases :
    (st : SubscriptionState) → (st ≡ confirmed) ⊎ ((st ≡ pending) ⊎ (st ≡ failed))
SubscriptionState-cases confirmed = inl refl
SubscriptionState-cases pending = inr (inl refl)
SubscriptionState-cases failed = inr (inr refl)

abbrev pub Restored :
    WebSocketClient → SortedMap (List ℕ) Subscription → SortedMap (List ℕ) Subscription → Type 0
Restored c xs m =
    subscribe_all (holding c xs) (confirmed_of m)
    ≡ (holding c (xs ++ pending_again m), requests_for m)

Restored-skip :
    (c : WebSocketClient) (k : List ℕ) (s : Subscription) (xs m : SortedMap (List ℕ) Subscription)
    → (s.state ≡ pending) ⊎ (s.state ≡ failed)
    → Restored c xs m
    → Restored c xs ((k, s) ∷ m)
unfolding confirmed_of pending_again requests_for
Restored-skip c k s xs m (inl e) r = rw e r
Restored-skip c k s xs m (inr e) r = rw e r

Restored-confirmed :
    (c : WebSocketClient) (k : List ℕ) (s : Subscription) (xs m : SortedMap (List ℕ) Subscription)
    → s.state ≡ confirmed
    → c.state ≡ ws_connected
    → k ≡ key_of s
    → Below string_ord k xs
    → is_known s.exchange ≡ true
    → Restored c (xs ++ (k, record s { state = pending }) ∷ []) m
    → Restored c xs ((k, s) ∷ m)
unfolding confirmed_of pending_again requests_for
Restored-confirmed c k s xs m st h e b known r = rw st (
    subscribe_all-cons (holding c xs) s (confirmed_of m)
    ∙ ap (λ q. continued q (confirmed_of m)) (subscribe_last c xs k s h e b known)
    ∙ ap
        (λ (q : WebSocketClient × List Request).
          (q.0, subscribes s.exchange s.instrument s.channel ∷ q.1))
        r
    ∙ ap (λ ys. (holding c ys, subscribes s.exchange s.instrument s.channel ∷ requests_for m))
        (append_assoc xs ((k, record s { state = pending }) ∷ []) (pending_again m)))

pub subscribe_all-confirmed :
    (c : WebSocketClient) (xs m : SortedMap (List ℕ) Subscription)
    → c.state ≡ ws_connected
    → IsSorted string_ord m
    → Tracked m
    → Before string_ord xs m
    → Restored c xs m
unfolding subscribe_all confirmed_of pending_again requests_for
subscribe_all-confirmed c xs [] h o t b = ap (λ ys. (holding c ys, [])) (sym (append-nil xs))
subscribe_all-confirmed c xs ((k, s) ∷ m) h (a, o) (e, known, t) b =
    elim (SubscriptionState-cases s.state) [
      | inl st ↦ Restored-confirmed c k s xs m st h e b known (
          subscribe_all-confirmed c (xs ++ (k, record s { state = pending }) ∷ []) m h o t
            (snoc-Before k (record s { state = pending }) xs m b a))
      | inr st ↦
          Restored-skip c k s xs m st
            (subscribe_all-confirmed c xs m h o t (next-Before k xs m b a o))
    ]
