-- ===== src/Handshake/Connecting.antt =====
-- What a poll in WS_CONNECTING_TLS does to the state of the client and to its TLS handshake, in
-- WebSocketClient::process_rx of src/modules/network/websocket_client.cpp.
use dpdk_cex_source.Base.{
  ℕ, zero, suc, ◌+◌, length, ◌≡◌, refl, Bool, true, false, leb, List, [], ◌∷◌, Bool-cases,
  Option-cases, inl, inr, arith,
}
use dpdk_cex_source.MicroTcp.{Dpdk}
use dpdk_cex_source.Subscriptions.{ws_handshake_sent}
use dpdk_cex_source.TlsSocket.{
  OpenSsl, HandshakeStatus, complete, needs_io, handshake_error, Returned, count, none_yet, failed,
  do_handshake, encrypt, set_hostname,
}
use dpdk_cex_source.Handshake.{
  WsClient, Reply, upgrade_request, send_tcp, send_tls, send_encrypted,
  generate_websocket_handshake,
}
use dpdk_cex_source.Handshake.Process.{
  start_websocket, handshake_round, feed_record, fed, feed_loop, feed, next_record, conclude,
  finish_handshake, with_sni, say_hello, hello_or_feed, on_connecting_tls,
}
use dpdk_cex_source.Handshake.Steps.{
  HasCompleted, after_ssl_write, after_ssl_set1_host, after_ssl_set_tlsext_host_name, Passes,
  passes, sends, Goes, keeps, drops, Passes-Goes, Passes-and_then, Goes-and_then, Rounds,
  handshake_round-Rounds, feed_record-Rounds, flush-Flushes, do_handshake-HasCompleted,
}

module _ {T : Type 0} (d : Dpdk) (o : OpenSsl T) where
  encrypt-HasCompleted :
      (t : T) (plain out : List ℕ) → HasCompleted o t → HasCompleted o (encrypt o t plain out).0.0
  unfolding encrypt
  encrypt-HasCompleted t plain out h = elim (Bool-cases (o.ssl_is_init_finished t)) [
    | inl done ↦ rw done (after_ssl_write t plain h)
    | inr early ↦ rw early h
  ]

  -- What sending leaves alone.
  pub record Sends (c c' : WsClient T) : Type 0 where
    pub same_state : c'.state ≡ c.state
    pub same_count : c'.error_with_data_count ≡ c.error_with_data_count
    pub stays_completed : HasCompleted o c.tls_socket → HasCompleted o c'.tls_socket

  send_encrypted-Sends :
      (c : WsClient T) (r : Returned) (out : List ℕ) → Sends c (send_encrypted d o c r out).0
  unfolding send_tcp
  send_encrypted-Sends c (count n) out = record {
    same_state = refl;
    same_count = refl;
    stays_completed = λ h. h;
  }
  send_encrypted-Sends c none_yet out = record {
    same_state = refl;
    same_count = refl;
    stays_completed = λ h. h;
  }
  send_encrypted-Sends c failed out = record {
    same_state = refl;
    same_count = refl;
    stays_completed = λ h. h;
  }

  pub send_tls-Sends : (c : WsClient T) (plain : List ℕ) → Sends c (send_tls d o c plain).0
  unfolding send_tls
  send_tls-Sends c plain =
      let x = encrypt o c.tls_socket plain [] in
      let s = send_encrypted-Sends (record c { tls_socket = x.0.0 }) x.0.1 x.1 in
      record {
        same_state = s.same_state;
        same_count = s.same_count;
        stays_completed = λ h. s.stays_completed (encrypt-HasCompleted c.tls_socket plain [] h);
      }

  start_websocket-Passes :
      (c : WsClient T) → HasCompleted o c.tls_socket → Passes o c (start_websocket d o c).0
  unfolding generate_websocket_handshake
  start_websocket-Passes c h =
      let s =
        send_tls-Sends (record c { state = ws_handshake_sent })
          (upgrade_request c.ws_path c.ws_host c.ws_key) in
      sends s.same_state (s.stays_completed h) s.same_count

  fed-Passes :
      (c : WsClient T) (x : Reply T × HandshakeStatus) (next : WsClient T → Reply T)
      → Rounds o c x
      → ((c' : WsClient T) → Passes o c' (next c').0)
      → Passes o c (fed d o x next).0
  fed-Passes c (r, complete) next v h =
      Passes-and_then o c r (start_websocket d o)
        (passes v.same_state v.stays_completed v.same_count)
        (start_websocket-Passes r.0 (v.complete_completed refl))
  fed-Passes c (r, needs_io) next v h =
      Passes-and_then o c r next (passes v.same_state v.stays_completed v.same_count) (h r.0)
  fed-Passes c (r, handshake_error) next v h =
      Passes-and_then o c r next (passes v.same_state v.stays_completed v.same_count) (h r.0)

  feed_loop-Passes :
      (n : ℕ) (c : WsClient T) (data' : List ℕ) → Passes o c (feed_loop d o n c data').0
  unfolding feed_loop
  feed_loop-Passes zero c data' = passes refl (λ h. h) refl
  feed_loop-Passes (suc n) c data' = elim (Option-cases (next_record data')) [
    | inl e ↦ rw (e, feed_loop) (passes refl (λ h. h) refl)
    | inr (r, e) ↦
        rw (e, feed_loop)
          (fed-Passes c (feed_record d o c r.0) (λ c'. feed_loop d o n c' r.1)
            (feed_record-Rounds d o c r.0) (λ c'. feed_loop-Passes n c' r.1))
  ]

  conclude-Goes :
      (c : WsClient T) (t : T) (s : HandshakeStatus) (data' : List ℕ)
      → (s ≡ complete → HasCompleted o c.tls_socket)
      → (do_handshake o t).1 ≡ s
      → Goes o c data' (conclude d o c s data').0
  unfolding conclude
  conclude-Goes c t complete data' h e =
      Passes-Goes o (start_websocket-Passes c (h refl)) (keeps refl (λ f. f) (inl refl))
  conclude-Goes c t needs_io data' h e = keeps refl (λ f. f) (inl refl)
  conclude-Goes c t handshake_error [] h e = keeps refl (λ f. f) (inl refl)
  conclude-Goes c t handshake_error (x ∷ xs) h e =
      elim (Bool-cases (leb 3 (c.error_with_data_count + 1))) [
        | inl many ↦ rw many (drops refl t e (λ z. cc) (ground (arith, many)) refl)
        | inr few ↦ rw few (keeps refl (λ f. f) (inr ((λ z. cc), refl, ground (arith, few))))
      ]

  status-eq : (c : WsClient T) → (do_handshake o c.tls_socket).1 ≡ (handshake_round d o c).1
  unfolding handshake_round
  status-eq c = refl

  finish_handshake-Goes :
      (c : WsClient T) (data' : List ℕ) → Goes o c data' (finish_handshake d o c data').0
  unfolding finish_handshake
  finish_handshake-Goes c data' =
      let x = handshake_round d o c in
      let v = handshake_round-Rounds d o c in
      Goes-and_then o c data' x.0 (λ c'. conclude d o c' x.1 data')
        (passes v.same_state v.stays_completed v.same_count)
        (conclude-Goes x.0.0 c.tls_socket x.1 data' v.complete_completed (status-eq c))

  say_hello-Passes : (c : WsClient T) → Passes o c (say_hello d o c).0
  unfolding say_hello
  say_hello-Passes c =
      let f = flush-Flushes d o true (record c { tls_socket = (do_handshake o c.tls_socket).0 }) in
      passes f.same_state (λ h. f.stays_completed (do_handshake-HasCompleted d o c.tls_socket h))
        f.same_count

  with_sni-Passes : (c : WsClient T) → Passes o c (with_sni d o c)
  unfolding set_hostname
  with_sni-Passes c = elim (Bool-cases c.sni_set) [
    | inl done ↦ rw done (passes refl (λ h. h) refl)
    | inr first ↦ rw first (
        passes refl
          (λ h.
            after_ssl_set1_host _ c.ws_host
              (after_ssl_set_tlsext_host_name c.tls_socket c.ws_host h))
          refl)
  ]

  Goes-refl : (c : WsClient T) (data' : List ℕ) → Goes o c data' c
  Goes-refl c data' = keeps refl (λ h. h) (inl refl)

  hello_or_feed-Goes :
      (sent : Bool) (c : WsClient T) (data' : List ℕ)
      → Goes o c data' (hello_or_feed d o sent c data').0
  unfolding hello_or_feed feed
  hello_or_feed-Goes false c data' = Passes-Goes o (say_hello-Passes c) (Goes-refl _ data')
  hello_or_feed-Goes true c data' =
      Goes-and_then o c data' (feed d o c data') (λ c'. finish_handshake d o c' data')
        (feed_loop-Passes (length data') c data') (finish_handshake-Goes (feed d o c data').0 data')

  pub on_connecting_tls-Goes :
      (c : WsClient T) (data' : List ℕ) → Goes o c data' (on_connecting_tls d o c data').0
  unfolding on_connecting_tls
  on_connecting_tls-Goes c data' =
      let c' = with_sni d o c in
      Passes-Goes o (with_sni-Passes c) (hello_or_feed-Goes c'.client_hello_sent c' data')
