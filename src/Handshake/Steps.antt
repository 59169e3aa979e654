-- ===== src/Handshake/Steps.antt =====
-- What the parts of process_rx in src/modules/network/websocket_client.cpp do to the state of the
-- client and to its TLS handshake.
use dpdk_cex_source.Base.{
  [], ◌+◌, ◌<◌, ◌≤◌, ◌≢◌, ◌⊎◌, arith, ℕ, zero, suc, ◌≡◌, refl, ◌∙◌, Bool, false, ltb, List, Option,
  none, some, Bool-cases, inl, inr,
}
use dpdk_cex_source.Packet.{Mbuf}
use dpdk_cex_source.MicroTcp.{Dpdk}
use dpdk_cex_source.Subscriptions.{ws_disconnected, ws_handshake_sent}
use dpdk_cex_source.TlsSocket.{
  OpenSsl, SslReturn, positive, wants_io, other_error, HandshakeStatus, complete, needs_io,
  handshake_error, Pending, encrypted, drained, read_error, handshake_status, pending_read,
  do_handshake, read_encrypted, write_encrypted,
}
use dpdk_cex_source.Handshake.{
  WsClient, Reply, after, and_then, send_tcp, flush_pass, flush_loop, flush,
}
use dpdk_cex_source.Handshake.Process.{handshake_round, pumped, pump, max_pumps, feed_record}

-- error_with_data_count before and after a part that has been given the received bytes: it stays,
-- or one is added to it for bytes that were there, and it is less than three.
abbrev pub IsCounted : ℕ → List ℕ → ℕ → Type 0
IsCounted n data' n' = (n' ≡ n) ⊎ ((data' ≢ []) × (n' ≡ n + 1) × (n' < 3))

module _ {T : Type 0} (o : OpenSsl T) where
  -- A call of SSL_do_handshake has succeeded on the TLS connection, now or before the calls that
  -- have been made on it since.
  pub data HasCompleted : T → Type 0 where
    by_do_handshake :
        (t : T) (n : ℕ)
        → (o.ssl_do_handshake t).1 ≡ positive n
        → HasCompleted (o.ssl_do_handshake t).0
    after_do_handshake : (t : T) → HasCompleted t → HasCompleted (o.ssl_do_handshake t).0
    after_ssl_set_tlsext_host_name :
        (t : T) (hostname : List ℕ)
        → HasCompleted t
        → HasCompleted (o.ssl_set_tlsext_host_name t hostname)
    after_ssl_set1_host :
        (t : T) (hostname : List ℕ) → HasCompleted t → HasCompleted (o.ssl_set1_host t hostname)
    after_ssl_write : (t : T) (bs : List ℕ) → HasCompleted t → HasCompleted (o.ssl_write t bs).0
    after_ssl_read : (t : T) (n : ℕ) → HasCompleted t → HasCompleted (o.ssl_read t n).0.0
    after_bio_read : (t : T) (n : ℕ) → HasCompleted t → HasCompleted (o.bio_read t n).0
    after_bio_write : (t : T) (bs : List ℕ) → HasCompleted t → HasCompleted (o.bio_write t bs).0

  -- Where the parts before `conclude` lead, with the count as it is: the state stays, or the request
  -- is sent over a completed handshake.
  pub data Passes (c c' : WsClient T) : Type 0 where
    passes :
        c'.state ≡ c.state
        → (HasCompleted c.tls_socket → HasCompleted c'.tls_socket)
        → c'.error_with_data_count ≡ c.error_with_data_count
        → Passes c c'
    sends :
        c'.state ≡ ws_handshake_sent
        → HasCompleted c'.tls_socket
        → c'.error_with_data_count ≡ c.error_with_data_count
        → Passes c c'

  -- Where process_rx leads: the state stays, or the request is sent over a completed handshake, or
  -- the connection is given up, at a failure of the handshake with received bytes when two have been
  -- counted already.
  pub data Goes (c : WsClient T) (data' : List ℕ) (c' : WsClient T) : Type 0 where
    keeps :
        c'.state ≡ c.state
        → (HasCompleted c.tls_socket → HasCompleted c'.tls_socket)
        → IsCounted c.error_with_data_count data' c'.error_with_data_count
        → Goes c data' c'
    upgrades :
        c'.state ≡ ws_handshake_sent
        → HasCompleted c'.tls_socket
        → IsCounted c.error_with_data_count data' c'.error_with_data_count
        → Goes c data' c'
    drops :
        c'.state ≡ ws_disconnected
        → (t : T) → (do_handshake o t).1 ≡ handshake_error
        → data' ≢ []
        → 2 ≤ c.error_with_data_count
        → c'.error_with_data_count ≡ 0
        → Goes c data' c'

  pub Passes-trans : {a b c : WsClient T} → Passes a b → Passes b c → Passes a c
  Passes-trans (passes e f n) (passes e' f' n') = passes (e' ∙ e) (λ h. f' (f h)) (n' ∙ n)
  Passes-trans (sends e f n) (passes e' f' n') = sends (e' ∙ e) (f' f) (n' ∙ n)
  Passes-trans (passes e f n) (sends e' f' n') = sends e' f' (n' ∙ n)
  Passes-trans (sends e f n) (sends e' f' n') = sends e' f' (n' ∙ n)

  IsCounted-after :
      {n m : ℕ} {data' : List ℕ} {n' : ℕ} → m ≡ n → IsCounted m data' n' → IsCounted n data' n'
  IsCounted-after e (inl same) = inl (same ∙ e)
  IsCounted-after e (inr (some_data, one_more, few)) =
      inr (some_data, omega (arith, one_more, e), few)

  pub Passes-Goes :
      {a b : WsClient T} {data' : List ℕ} {c : WsClient T}
      → Passes a b
      → Goes b data' c
      → Goes a data' c
  Passes-Goes (passes e f n) (keeps e' f' k) = keeps (e' ∙ e) (λ h. f' (f h)) (IsCounted-after n k)
  Passes-Goes (sends e f n) (keeps e' f' k) = upgrades (e' ∙ e) (f' f) (IsCounted-after n k)
  Passes-Goes (passes e f n) (upgrades e' f' k) = upgrades e' f' (IsCounted-after n k)
  Passes-Goes (sends e f n) (upgrades e' f' k) = upgrades e' f' (IsCounted-after n k)
  Passes-Goes (passes e f n) (drops e' t failed some_data two zeroed) =
      drops e' t failed some_data (omega (arith, n, two)) zeroed
  Passes-Goes (sends e f n) (drops e' t failed some_data two zeroed) =
      drops e' t failed some_data (omega (arith, n, two)) zeroed

  pub Passes-and_then :
      (c : WsClient T) (r : Reply T) (next : WsClient T → Reply T)
      → Passes c r.0
      → Passes r.0 (next r.0).0
      → Passes c (and_then r next).0
  Passes-and_then c (c', sent) next g h = Passes-trans g h

  pub Goes-and_then :
      (c : WsClient T) (data' : List ℕ) (r : Reply T) (next : WsClient T → Reply T)
      → Passes c r.0
      → Goes r.0 data' (next r.0).0
      → Goes c data' (and_then r next).0
  Goes-and_then c data' (c', sent) next g h = Passes-Goes g h

  -- A part that ends with a call of do_handshake keeps the state and the count, and its result is right.
  pub record Rounds (c : WsClient T) (x : Reply T × HandshakeStatus) : Type 0 where
    pub same_state : x.0.0.state ≡ c.state
    pub same_count : x.0.0.error_with_data_count ≡ c.error_with_data_count
    pub stays_completed : HasCompleted c.tls_socket → HasCompleted x.0.0.tls_socket
    pub complete_completed : x.1 ≡ complete → HasCompleted x.0.0.tls_socket

  handshake_status-complete :
      (r : SslReturn) → handshake_status r ≡ complete → (n : ℕ) × (r ≡ positive n)
  handshake_status-complete (positive n) e = (n, refl)
  handshake_status-complete wants_io e = cc
  handshake_status-complete other_error e = cc

module _ {T : Type 0} (d : Dpdk) (o : OpenSsl T) where
  pending_read-HasCompleted :
      (r : T × Option (List ℕ)) → HasCompleted o r.0 → HasCompleted o (pending_read o r).0
  pending_read-HasCompleted (t, none) h = h
  pending_read-HasCompleted (t, some bs) h = h

  read_encrypted-HasCompleted : (t : T) → HasCompleted o t → HasCompleted o (read_encrypted o t).0
  unfolding read_encrypted
  read_encrypted-HasCompleted t h = elim (Bool-cases (ltb 0 (o.bio_pending t))) [
    | inl more ↦ rw more (
        pending_read-HasCompleted (o.bio_read t (o.bio_pending t))
          (after_bio_read t (o.bio_pending t) h))
    | inr other ↦ rw other h
  ]

  -- What a flush leaves alone.
  pub record Flushes (c c' : WsClient T) : Type 0 where
    pub same_state : c'.state ≡ c.state
    pub same_count : c'.error_with_data_count ≡ c.error_with_data_count
    pub stays_completed : HasCompleted o c.tls_socket → HasCompleted o c'.tls_socket

  flush_pass-Flushes :
      (hello : Bool) (c : WsClient T) (p : T × Pending) (next : WsClient T → Reply T)
      → (HasCompleted o c.tls_socket → HasCompleted o p.0)
      → ((c' : WsClient T) → Flushes c' (next c').0)
      → Flushes c (flush_pass d o hello c p next).0
  unfolding send_tcp
  flush_pass-Flushes hello c (t, encrypted bs) next h k = record {
    same_state = (k _).same_state;
    same_count = (k _).same_count;
    stays_completed = λ f. (k _).stays_completed (h f);
  }
  flush_pass-Flushes hello c (t, drained) next h k = record {
    same_state = refl;
    same_count = refl;
    stays_completed = h;
  }
  flush_pass-Flushes hello c (t, read_error) next h k = record {
    same_state = refl;
    same_count = refl;
    stays_completed = h;
  }

  flush_loop-Flushes :
      (n : ℕ) (hello : Bool) (c : WsClient T) → Flushes c (flush_loop d o n hello c).0
  unfolding flush_loop
  flush_loop-Flushes zero hello c = record {
    same_state = refl;
    same_count = refl;
    stays_completed = λ h. h;
  }
  flush_loop-Flushes (suc n) hello c =
      flush_pass-Flushes hello c (read_encrypted o c.tls_socket) (flush_loop d o n hello)
        (read_encrypted-HasCompleted c.tls_socket) (flush_loop-Flushes n hello)

  pub do_handshake-HasCompleted : (t : T) → HasCompleted o t → HasCompleted o (do_handshake o t).0
  unfolding do_handshake
  do_handshake-HasCompleted t h = after_do_handshake t h

  do_handshake-complete :
      (t : T) → (do_handshake o t).1 ≡ complete → HasCompleted o (do_handshake o t).0
  unfolding do_handshake
  do_handshake-complete t e =
      let (n, r) = handshake_status-complete o (o.ssl_do_handshake t).1 e in by_do_handshake t n r

  pub flush-Flushes : (hello : Bool) (c : WsClient T) → Flushes c (flush d o hello c).0
  unfolding flush
  flush-Flushes hello c = flush_loop-Flushes (suc (o.bio_pending c.tls_socket)) hello c

  pub handshake_round-Rounds : (c : WsClient T) → Rounds o c (handshake_round d o c)
  unfolding handshake_round
  handshake_round-Rounds c =
      let f = flush-Flushes false (record c { tls_socket = (do_handshake o c.tls_socket).0 }) in
      record {
        same_state = f.same_state;
        same_count = f.same_count;
        stays_completed = λ h. f.stays_completed (do_handshake-HasCompleted c.tls_socket h);
        complete_completed = λ e. f.stays_completed (do_handshake-complete c.tls_socket e);
      }

  -- A part before that keeps the state, and one whose result counts.
  Rounds-after :
      (c c' : WsClient T) (sent : List (Option Mbuf)) (x : Reply T × HandshakeStatus)
      → c'.state ≡ c.state
      → c'.error_with_data_count ≡ c.error_with_data_count
      → (HasCompleted o c.tls_socket → HasCompleted o c'.tls_socket)
      → Rounds o c' x
      → Rounds o c (after sent x.0, x.1)
  Rounds-after c c' sent ((c2, rest), s) e n f v = record {
    same_state = v.same_state ∙ e;
    same_count = v.same_count ∙ n;
    stays_completed = λ h. v.stays_completed (f h);
    complete_completed = v.complete_completed;
  }

  pump_pass-Rounds :
      (c : WsClient T) (x : Reply T × HandshakeStatus)
      (next : WsClient T → Reply T × HandshakeStatus)
      → Rounds o c x
      → ((c' : WsClient T) → Rounds o c' (next c'))
      → Rounds o c (pumped d o x next)
  pump_pass-Rounds c ((c', sent), complete) next v h = v
  pump_pass-Rounds c ((c', sent), needs_io) next v h =
      Rounds-after c c' sent (next c') v.same_state v.same_count v.stays_completed (h c')
  pump_pass-Rounds c ((c', sent), handshake_error) next v h = v

  pump-Rounds : (n : ℕ) (c : WsClient T) → Rounds o c (pump d o n c)
  unfolding pump
  pump-Rounds zero c = record {
    same_state = refl;
    same_count = refl;
    stays_completed = λ h. h;
    complete_completed = λ e. cc;
  }
  pump-Rounds (suc n) c =
      pump_pass-Rounds c (handshake_round d o c) (pump d o n) (handshake_round-Rounds c)
        (pump-Rounds n)

  pub feed_record-Rounds :
      (c : WsClient T) (record_bytes : List ℕ) → Rounds o c (feed_record d o c record_bytes)
  unfolding feed_record write_encrypted
  feed_record-Rounds c record_bytes =
      let f = flush-Flushes false c in
      let c' = (flush d o false c).0 in
      let c2 = record c' { tls_socket = (o.bio_write c'.tls_socket record_bytes).0 } in
      Rounds-after c c2 (flush d o false c).1 (pump d o max_pumps c2) f.same_state f.same_count
        (λ h. after_bio_write c'.tls_socket record_bytes (f.stays_completed h))
        (pump-Rounds max_pumps c2)
