-- ===== src/Handshake/Secure.antt =====
-- Over every history of a client of src/modules/network/websocket_client.cpp, its last two states
-- come after a TLS handshake that has succeeded.
use dpdk_cex_source.Base.{
  Bool, true, ◌≡◌, ◌⊎◌, refl, List, [], ◌∷◌, Option, none, some, ℕ, inl, arith, length,
}
use dpdk_cex_source.Packet.{Mbuf}
use dpdk_cex_source.MicroTcp.{MicroTcp, Dpdk, TcpState, extract_rx_data}
use dpdk_cex_source.MicroTcp.Process as TcpRx
use dpdk_cex_source.Subscriptions.{WsState, ws_disconnected, ws_handshake_sent, ws_connected}
use dpdk_cex_source.WebSocket.{MaskKey, client_frame}
use dpdk_cex_source.TlsSocket.{OpenSsl, decrypt, decrypt_written}
use dpdk_cex_source.Handshake.{WsClient, generate_websocket_frame, new}
use dpdk_cex_source.Handshake.Process.{
  on_connected, on_state, process_rx, connect, send_text_message, disconnect,
}
use dpdk_cex_source.Handshake.History.{Call, connects, received, sends_text, disconnects, call, run}
use dpdk_cex_source.Handshake.Steps.{HasCompleted, after_bio_write, after_ssl_read}
use dpdk_cex_source.Handshake.Connecting.{Sends, send_tls-Sends}
use dpdk_cex_source.Handshake.States.{
  WsMove, stays, starts_tls, sends_request, gives_up, assumes_upgrade, process_rx-WsMove,
}

module _ {T : Type 0} (o : OpenSsl T) where
  -- In the last two states a TLS handshake has succeeded.
  abbrev pub IsSecure : WsClient T → Type 0
  IsSecure c =
      (c.state ≡ ws_handshake_sent) ⊎ (c.state ≡ ws_connected) → HasCompleted o c.tls_socket

module _ {T : Type 0} (d : Dpdk) (o : OpenSsl T) where
  -- A poll in one of the last two states keeps a completed handshake.
  decrypt-HasCompleted :
      (t : T) (bs out : List ℕ) → HasCompleted o t → HasCompleted o (decrypt o t bs out).0.0
  unfolding decrypt
  decrypt-HasCompleted t bs out h = written (o.bio_write t bs) (after_bio_write t bs h)
    where
      written :
          (r : T × Option ℕ)
          → HasCompleted o r.0
          → HasCompleted o (decrypt_written o r (length bs) out).0.0
      written (t', none) h' = h'
      written (t', some n) h' = after_ssl_read t' (length bs) h'

  connected-HasCompleted :
      (c : WsClient T) (data' : List ℕ)
      → HasCompleted o c.tls_socket
      → HasCompleted o (on_connected d o c data').0.tls_socket
  unfolding on_connected
  connected-HasCompleted c [] h = h
  connected-HasCompleted c (x ∷ xs) h = decrypt-HasCompleted c.tls_socket (x ∷ xs) [] h

  on_state-HasCompleted :
      (s : WsState) (c : WsClient T) (data' : List ℕ)
      → (s ≡ ws_handshake_sent) ⊎ (s ≡ ws_connected)
      → HasCompleted o c.tls_socket
      → HasCompleted o (on_state d o s c data').0.tls_socket
  unfolding on_state
  on_state-HasCompleted ws_handshake_sent c data' e h = h
  on_state-HasCompleted ws_connected c data' e h = connected-HasCompleted c data' h
  on_state-HasCompleted _ c data' e h = ground (arith, e)

  process_rx-HasCompleted :
      (c : WsClient T) (rx_mbuf : Option Mbuf)
      → (c.state ≡ ws_handshake_sent) ⊎ (c.state ≡ ws_connected)
      → HasCompleted o c.tls_socket
      → HasCompleted o (process_rx d o c rx_mbuf).0.tls_socket
  unfolding process_rx extract_rx_data
  process_rx-HasCompleted c rx_mbuf e h =
      let t = (TcpRx.process_rx d c.tcp_client rx_mbuf).0 in
      on_state-HasCompleted c.state (record c { tcp_client = record t { rx_buffer = [] } })
        t.rx_buffer e h

  WsMove-IsSecure :
      (c c' : WsClient T) (tcp : TcpState) (data' : List ℕ)
      → IsSecure o c
      → ((c.state ≡ ws_handshake_sent) ⊎ (c.state ≡ ws_connected)
          → HasCompleted o c.tls_socket
          → HasCompleted o c'.tls_socket)
      → WsMove o c.state c.error_with_data_count tcp data' c'
      → IsSecure o c'
  WsMove-IsSecure c c' tcp data' v h (stays e _) = λ k.
      let k' : (c.state ≡ ws_handshake_sent) ⊎ (c.state ≡ ws_connected) = ground (arith, e, k) in
      h k' (v k')
  WsMove-IsSecure c c' tcp data' v h (starts_tls e tls now _) = λ k. ground (arith, now, k)
  WsMove-IsSecure c c' tcp data' v h (sends_request e now f _) = λ k. f
  WsMove-IsSecure c c' tcp data' v h (gives_up e now _ _ _ _ _) = λ k. ground (arith, now, k)
  WsMove-IsSecure c c' tcp data' v h (assumes_upgrade e now _) = λ k. h (inl e) (v (inl e))

  frame-Sends :
      (c : WsClient T) (payload : List ℕ) (opcode : ℕ) (fin : Bool) (key : MaskKey)
      → Sends d o c (generate_websocket_frame d o c payload opcode fin key).0
  unfolding generate_websocket_frame
  frame-Sends c payload opcode fin key = send_tls-Sends d o c (client_frame payload opcode fin key)

  Sends-IsSecure : (c c' : WsClient T) → Sends d o c c' → IsSecure o c → IsSecure o c'
  Sends-IsSecure c c' s v = λ k.
      let k' : (c.state ≡ ws_handshake_sent) ⊎ (c.state ≡ ws_connected) =
        ground (arith, s.same_state, k) in
      s.stays_completed (v k')

  send_text-IsSecure :
      (s : WsState) (c : WsClient T) (message : List ℕ) (key : MaskKey)
      → c.state ≡ s
      → IsSecure o c
      → IsSecure o (send_text_message d o c message key).0
  unfolding send_text_message
  send_text-IsSecure ws_connected c message key e v =
      rw (e, send_text_message)
        (Sends-IsSecure c (generate_websocket_frame d o c message 1 true key).0
          (frame-Sends c message 1 true key) v)
  send_text-IsSecure _ c message key e v = rw (e, send_text_message) v

  disconnected-IsSecure : (c : WsClient T) → c.state ≡ ws_disconnected → IsSecure o c
  disconnected-IsSecure c e = λ k. ground (arith, e, k)

  disconnect-state :
      (s : WsState) (c : WsClient T) (key : MaskKey)
      → c.state ≡ s
      → (disconnect d o c key).0.state ≡ ws_disconnected
  unfolding disconnect
  disconnect-state ws_disconnected c key e = rw (e, disconnect) e
  disconnect-state _ c key e = rw (e, disconnect) refl

  connect-IsSecure :
      (s : WsState) (c : WsClient T) → c.state ≡ s → IsSecure o c → IsSecure o (connect d o c).0
  unfolding connect
  connect-IsSecure ws_disconnected c e v = rw (e, connect) (λ k. ground (arith, k))
  connect-IsSecure _ c e v = rw (e, connect) v

  call-IsSecure : (c : WsClient T) (k : Call) → IsSecure o c → IsSecure o (call d o c k).0
  unfolding call
  call-IsSecure c connects v = connect-IsSecure c.state c refl v
  call-IsSecure c (received m) v =
      WsMove-IsSecure c (process_rx d o c m).0 (TcpRx.process_rx d c.tcp_client m).0.state
        (TcpRx.process_rx d c.tcp_client m).0.rx_buffer v (process_rx-HasCompleted c m)
        (process_rx-WsMove d o c m)
  call-IsSecure c (sends_text message key) v = send_text-IsSecure c.state c message key refl v
  call-IsSecure c (disconnects key) v =
      disconnected-IsSecure (disconnect d o c key).0 (disconnect-state c.state c key refl)

  run-IsSecure : (c : WsClient T) (ks : List Call) → IsSecure o c → IsSecure o (run d o c ks).0
  unfolding run
  run-IsSecure c [] v = v
  run-IsSecure c (k ∷ ks) v = run-IsSecure (call d o c k).0 ks (call-IsSecure c k v)

  -- A new client is, over every history of connecting, received packets, sent messages and
  -- disconnecting, in WS_HANDSHAKE_SENT or WS_CONNECTED only if a call of SSL_do_handshake has
  -- succeeded on its TLS connection, whatever OpenSSL does.
  pub history-IsSecure :
      (tcp_client : MicroTcp) (t : T) (host path ws_key : List ℕ) (ks : List Call)
      → let c = (run d o (new tcp_client t host path ws_key) ks).0 in
        (c.state ≡ ws_handshake_sent) ⊎ (c.state ≡ ws_connected) → HasCompleted o c.tls_socket
  unfolding new
  history-IsSecure tcp_client t host path ws_key ks =
      run-IsSecure (new tcp_client t host path ws_key) ks
        (disconnected-IsSecure (new tcp_client t host path ws_key) refl)
