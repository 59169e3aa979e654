-- ===== src/Handshake/Mute.antt =====
-- What a client of src/modules/network/websocket_client.cpp sends behind the TLS handshake: encrypt
-- leaves `out_data` empty, so no packet has a payload.
use mathlib.Core.Path.{ap₂}
use mathlib.Core.List.{append-nil}
use dpdk_cex_source.Base.{
  ℕ, ◌≡◌, ◌≢◌, ◌⊎◌, inl, inr, refl, ◌∙◌, Bool, Bool-cases, true, List, [], ◌∷◌, ◌++◌, Option, none,
  some, All,
}
use dpdk_cex_source.Packet.{Mbuf}
use dpdk_cex_source.MicroTcp.{
  MicroTcp, TcpState, established, Dpdk, create_tcp_packet, send_data, extract_rx_data,
}
use dpdk_cex_source.MicroTcp.Process as TcpRx
use dpdk_cex_source.MicroTcp.Payload.{
  payload_of, payloads, payloads-append, HasOwnTemplate, create-IsBare, process_rx-IsBare,
}
use dpdk_cex_source.Subscriptions.{WsState, ws_disconnected, ws_handshake_sent, ws_connected}
use dpdk_cex_source.WebSocket.{MaskKey, client_frame}
use dpdk_cex_source.TlsSocket.{OpenSsl, Returned, count, none_yet, failed, encrypt}
use dpdk_cex_source.Handshake.{
  WsClient, Reply, pushed, send_tcp, send_encrypted, send_tls, generate_websocket_frame,
}
use dpdk_cex_source.Handshake.Process.{
  on_connected, on_state, process_rx, send_text_message, disconnect,
}
use dpdk_cex_source.Handshake.History.{Call, connects, received, sends_text, disconnects, call, run}

payloads-pushed : (p : Option Mbuf) → payloads (pushed p) ≡ payload_of p
payloads-pushed none = refl
payloads-pushed (some m) = append-nil (payload_of (some m))

send_data_empty :
    (d : Dpdk) (t : MicroTcp) (k : TcpState)
    → t.state ≡ k
    → HasOwnTemplate t
    → HasOwnTemplate (send_data d t []).0 × (payloads (pushed (send_data d t []).1) ≡ [])
unfolding send_data
send_data_empty d t established e v =
    let (own, empty) = create-IsBare d t 24 v in
    rw (e, send_data) (own, payloads-pushed (create_tcp_packet d t 24 []).1 ∙ empty)
send_data_empty d t _ e v = rw (e, send_data) (v, refl)

module _ {T : Type 0} (d : Dpdk) (o : OpenSsl T) where
  -- The states behind the TLS handshake, from which only connect leads back.
  data IsPast : WsState → Type 0 where
    requested : IsPast ws_handshake_sent
    opened : IsPast ws_connected
    over : IsPast ws_disconnected

  -- A reply without payload, in a state behind the TLS handshake.
  record IsMute (r : Reply T) : Type 0 where
    past : IsPast r.0.state
    own_template : HasOwnTemplate r.0.tcp_client
    no_payload : payloads r.1 ≡ []

  still : (c : WsClient T) → IsPast c.state → HasOwnTemplate c.tcp_client → IsMute (c, [])
  still c p v = record { past = p; own_template = v; no_payload = refl }

  encrypt-out_data : (t : T) (plain out : List ℕ) → (encrypt o t plain out).1 ≡ out
  unfolding encrypt
  encrypt-out_data t plain out = elim (Bool-cases (o.ssl_is_init_finished t)) [
    | inl done ↦ rw done refl
    | inr early ↦ rw early refl
  ]

  send_encrypted-IsMute :
      (c : WsClient T) (r : Returned)
      → IsPast c.state
      → HasOwnTemplate c.tcp_client
      → IsMute (send_encrypted d o c r [])
  unfolding send_tcp
  send_encrypted-IsMute c (count n) p v =
      let (own, empty) = send_data_empty d c.tcp_client c.tcp_client.state refl v in
      record { past = p; own_template = own; no_payload = empty }
  send_encrypted-IsMute c none_yet p v = still c p v
  send_encrypted-IsMute c failed p v = still c p v

  frame-IsMute :
      (c : WsClient T) (payload : List ℕ) (opcode : ℕ) (fin : Bool) (key : MaskKey)
      → IsPast c.state
      → HasOwnTemplate c.tcp_client
      → IsMute (generate_websocket_frame d o c payload opcode fin key)
  unfolding generate_websocket_frame send_tls
  frame-IsMute c payload opcode fin key p v =
      let plain = client_frame payload opcode fin key in
      let x = encrypt o c.tls_socket plain [] in
      rw (encrypt-out_data c.tls_socket plain [])
        (send_encrypted-IsMute (record c { tls_socket = x.0.0 }) x.0.1 p v)

  on_connected-IsMute :
      (c : WsClient T) (data' : List ℕ)
      → IsPast c.state
      → HasOwnTemplate c.tcp_client
      → IsMute (on_connected d o c data')
  unfolding on_connected
  on_connected-IsMute c [] p v = still c p v
  on_connected-IsMute c (x ∷ xs) p v = still _ p v

  on_state-IsMute :
      (s : WsState) (c : WsClient T) (data' : List ℕ)
      → IsPast s
      → c.state ≡ s
      → HasOwnTemplate c.tcp_client
      → IsMute (on_state d o s c data')
  unfolding on_state
  on_state-IsMute _ c data' requested e v = still _ opened v
  on_state-IsMute _ c data' opened e v = on_connected-IsMute c data' (rw e opened) v
  on_state-IsMute _ c data' over e v = still c (rw e over) v

  process_rx-IsMute :
      (c : WsClient T) (rx_mbuf : Option Mbuf)
      → IsPast c.state
      → HasOwnTemplate c.tcp_client
      → IsMute (process_rx d o c rx_mbuf)
  unfolding process_rx extract_rx_data
  process_rx-IsMute c rx_mbuf p v =
      let r = TcpRx.process_rx d c.tcp_client rx_mbuf in
      let bare = process_rx-IsBare d c.tcp_client rx_mbuf v in
      let c' = record c { tcp_client = record r.0 { rx_buffer = [] } } in
      let m = on_state-IsMute c.state c' r.0.rx_buffer p refl bare.own_template in
      record {
        past = m.past;
        own_template = m.own_template;
        no_payload =
            payloads-append r.1 (on_state d o c.state c' r.0.rx_buffer).1
            ∙ ap₂ ◌++◌ bare.no_payload m.no_payload;
      }

  send_text-IsMute :
      (c : WsClient T) (message : List ℕ) (key : MaskKey) (s : WsState)
      → IsPast s
      → c.state ≡ s
      → HasOwnTemplate c.tcp_client
      → IsMute (send_text_message d o c message key)
  unfolding send_text_message
  send_text-IsMute c message key _ requested e v =
      rw (e, send_text_message) (still c (rw e requested) v)
  send_text-IsMute c message key _ opened e v =
      let m = frame-IsMute c message 1 true key (rw e opened) v in
      rw (e, send_text_message) (still _ m.past m.own_template)
  send_text-IsMute c message key _ over e v = rw (e, send_text_message) (still c (rw e over) v)

  disconnect-IsMute :
      (c : WsClient T) (key : MaskKey) (s : WsState)
      → IsPast s
      → c.state ≡ s
      → HasOwnTemplate c.tcp_client
      → IsMute (disconnect d o c key)
  unfolding disconnect
  disconnect-IsMute c key _ over e v = rw (e, disconnect) (still c (rw e over) v)
  disconnect-IsMute c key _ requested e v =
      let m = frame-IsMute c [] 8 true key (rw e requested) v in
      rw (e, disconnect)
        (record { past = over; own_template = m.own_template; no_payload = m.no_payload })
  disconnect-IsMute c key _ opened e v =
      let m = frame-IsMute c [] 8 true key (rw e opened) v in
      rw (e, disconnect)
        (record { past = over; own_template = m.own_template; no_payload = m.no_payload })

  call-IsMute :
      (c : WsClient T) (k : Call)
      → k ≢ connects
      → IsPast c.state
      → HasOwnTemplate c.tcp_client
      → IsMute (call d o c k)
  unfolding call
  call-IsMute c connects h p v = absurd (h refl)
  call-IsMute c (received rx_mbuf) h p v = process_rx-IsMute c rx_mbuf p v
  call-IsMute c (sends_text message key) h p v = send_text-IsMute c message key c.state p refl v
  call-IsMute c (disconnects key) h p v = disconnect-IsMute c key c.state p refl v

  run-IsMute :
      (c : WsClient T) (ks : List Call)
      → All (λ k. k ≢ connects) ks
      → IsPast c.state
      → HasOwnTemplate c.tcp_client
      → IsMute (run d o c ks)
  unfolding run
  run-IsMute c [] h p v = still c p v
  run-IsMute c (k ∷ ks) h p v =
      let m = call-IsMute c k h.0 p v in
      let rest = run-IsMute (call d o c k).0 ks h.1 m.past m.own_template in
      record {
        past = rest.past;
        own_template = rest.own_template;
        no_payload =
            payloads-append (call d o c k).1 (run d o (call d o c k).0 ks).1
            ∙ ap₂ ◌++◌ m.no_payload rest.no_payload;
      }

  -- Once the state is WS_HANDSHAKE_SENT or WS_CONNECTED, no history of received packets, sent
  -- messages and disconnecting makes the client send a byte of payload, up to the next connect: of
  -- what it means to send, the text messages and the close frame, nothing reaches the peer. Its TCP
  -- connection must have the template of the constructor.
  pub run_past-mute :
      (c : WsClient T) (ks : List Call)
      → (c.state ≡ ws_handshake_sent) ⊎ (c.state ≡ ws_connected)
      → HasOwnTemplate c.tcp_client
      → All (λ k. k ≢ connects) ks
      → payloads (run d o c ks).1 ≡ []
  run_past-mute c ks (inl e) v h = (run-IsMute c ks h (rw e requested) v).no_payload
  run_past-mute c ks (inr e) v h = (run-IsMute c ks h (rw e opened) v).no_payload
