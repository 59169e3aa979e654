-- ===== src/Handshake/Process.antt =====
-- WebSocketClient::process_rx, connect, send_text_message and disconnect of
-- src/modules/network/websocket_client.cpp, one function for each part of process_rx: the pump of
-- do_handshake, the loop over the TLS records, and a handler for each state.
use dpdk_cex_source.Base.{
  ℕ, zero, suc, ◌+◌, Bool, true, false, ◌||◌, if◌then◌else◌, ltb, leb, List, [], ◌∷◌, Option, none,
  some, length, take, drop, get_or,
}
use dpdk_cex_source.Base.Bytes.{of_be16}
use dpdk_cex_source.Packet.{Mbuf}
use dpdk_cex_source.MicroTcp as Tcp
use dpdk_cex_source.MicroTcp.Process as TcpRx
use dpdk_cex_source.MicroTcp.{TcpState, established, Dpdk, extract_rx_data}
use dpdk_cex_source.Subscriptions.{
  WsState, ws_disconnected, ws_connecting_tcp, ws_connecting_tls, ws_handshake_sent, ws_connected,
}
use dpdk_cex_source.TlsSocket.{
  OpenSsl, HandshakeStatus, complete, needs_io, handshake_error, set_hostname, do_handshake,
  decrypt, write_encrypted,
}
use dpdk_cex_source.WebSocket.{MaskKey}
use dpdk_cex_source.Handshake.{
  WsClient, Reply, pushed, after, and_then, flush, generate_websocket_handshake,
  generate_websocket_frame,
}

-- One TLS record at the start of the data, and what follows it; `none` where the loop stops.
unfoldable pub next_record : List ℕ → Option (List ℕ × List ℕ)
next_record data' =
    if ltb (length data') 5
    then none
    else if ltb (get_or data' 0 0) 20 || ltb 23 (get_or data' 0 0)
    then none
    else (let record_size = 5 + of_be16 (get_or data' 3 0) (get_or data' 4 0) in
        if ltb (length data') record_size
        then none
        else some (take record_size data', drop record_size data'))

abbrev pub max_pumps : ℕ
max_pumps = 10

module _ {T : Type 0} (d : Dpdk) (o : OpenSsl T) where
  -- `state_ = WS_HANDSHAKE_SENT` and the request.
  abbrev pub start_websocket : WsClient T → Reply T
  start_websocket c = generate_websocket_handshake d o (record c { state = ws_handshake_sent })

  -- One call of do_handshake and the flush behind it.
  unfoldable pub handshake_round : WsClient T → Reply T × HandshakeStatus
  unfolding flush
  handshake_round c =
      let (t, r) = do_handshake o c.tls_socket in (flush d o false (record c { tls_socket = t }), r)

  -- What follows a round: the loop goes on while `hs_ret` is 0.
  abbrev pub pumped :
      Reply T × HandshakeStatus
      → (WsClient T → Reply T × HandshakeStatus)
      → Reply T × HandshakeStatus
  pumped (r, complete) next = (r, complete)
  pumped ((c, sent), needs_io) next = (after sent (next c).0, (next c).1)
  pumped (r, handshake_error) next = (r, handshake_error)

  -- The loop that pumps do_handshake, at most `n` times, with the last `hs_ret`.
  unfoldable pub pump : ℕ → WsClient T → Reply T × HandshakeStatus
  unfolding handshake_round
  pump zero c = ((c, []), needs_io)
  pump (suc n) c = pumped (handshake_round c) (pump n)

  -- The flush before a record, the record, and the pump behind it.
  unfoldable pub feed_record : WsClient T → List ℕ → Reply T × HandshakeStatus
  unfolding flush pump
  feed_record c record_bytes =
      let (c', sent) = flush d o false c in
      let (r, hs_ret) =
        pump max_pumps
          (record c' { tls_socket = (write_encrypted o c'.tls_socket record_bytes).0 }) in
      (after sent r, hs_ret)

  -- What follows a record: the handshake is complete, or `next` goes on with the next record.
  abbrev pub fed : Reply T × HandshakeStatus → (WsClient T → Reply T) → Reply T
  fed (r, complete) next = and_then r start_websocket
  fed (r, needs_io) next = and_then r next
  fed (r, handshake_error) next = and_then r next

  -- The loop over the records of the data.
  unfoldable pub feed_loop : ℕ → WsClient T → List ℕ → Reply T
  unfolding feed_record
  feed_loop zero c data' = (c, [])
  feed_loop (suc n) c data' = elim (next_record data') [
    | none ↦ (c, [])
    | some r ↦ fed (feed_record c r.0) (λ c'. feed_loop n c' r.1)
  ]

  unfoldable pub feed : WsClient T → List ℕ → Reply T
  unfolding feed_loop
  feed c data' = feed_loop (length data') c data'

  -- The tests of `hs_ret` behind the records.
  unfoldable pub conclude : WsClient T → HandshakeStatus → List ℕ → Reply T
  conclude c complete data' = start_websocket c
  conclude c needs_io data' = (c, [])
  conclude c handshake_error [] = (c, [])
  conclude c handshake_error (x ∷ xs) =
      if leb 3 (c.error_with_data_count + 1)
      then (record c { state = ws_disconnected; error_with_data_count = 0 }, [])
      else (record c { error_with_data_count = c.error_with_data_count + 1 }, [])

  unfoldable pub finish_handshake : WsClient T → List ℕ → Reply T
  unfolding handshake_round conclude
  finish_handshake c data' =
      let (r, hs_ret) = handshake_round c in and_then r (λ c'. conclude c' hs_ret data')

  abbrev pub with_sni : WsClient T → WsClient T
  with_sni c =
      if c.sni_set
      then c
      else record c { tls_socket = set_hostname o c.tls_socket c.ws_host; sni_set = true }

  unfoldable pub say_hello : WsClient T → Reply T
  unfolding flush
  say_hello c = flush d o true (record c { tls_socket = (do_handshake o c.tls_socket).0 })

  -- The ClientHello if it has not been sent; otherwise the received records and the handshake.
  unfoldable pub hello_or_feed : Bool → WsClient T → List ℕ → Reply T
  unfolding say_hello feed finish_handshake
  hello_or_feed false c data' = say_hello c
  hello_or_feed true c data' = and_then (feed c data') (λ c'. finish_handshake c' data')

  -- case WS_CONNECTING_TLS
  unfoldable pub on_connecting_tls : WsClient T → List ℕ → Reply T
  unfolding hello_or_feed
  on_connecting_tls c data' = hello_or_feed (with_sni c).client_hello_sent (with_sni c) data'

  abbrev pub on_connecting_tcp : TcpState → WsClient T → List ℕ → Reply T
  on_connecting_tcp established c data' =
      on_connecting_tls (record c { state = ws_connecting_tls }) data'
  on_connecting_tcp _ c data' = (c, [])

  -- case WS_CONNECTED: the data is decrypted and printed.
  unfoldable pub on_connected : WsClient T → List ℕ → Reply T
  on_connected c [] = (c, [])
  on_connected c (x ∷ xs) = (record c { tls_socket = (decrypt o c.tls_socket (x ∷ xs) []).0.0 }, [])

  unfoldable pub on_state : WsState → WsClient T → List ℕ → Reply T
  unfolding on_connecting_tls on_connected
  on_state ws_connecting_tcp c data' = on_connecting_tcp c.tcp_client.state c data'
  on_state ws_connecting_tls c data' = on_connecting_tls c data'
  on_state ws_handshake_sent c data' = (record c { state = ws_connected }, [])
  on_state ws_connected c data' = on_connected c data'
  on_state ws_disconnected c data' = (c, [])

  unfoldable pub process_rx : WsClient T → Option Mbuf → Reply T
  unfolding on_state
  process_rx c rx_mbuf =
      let (t, tcp_out) = TcpRx.process_rx d c.tcp_client rx_mbuf in
      let (data', t') = extract_rx_data t in
      after tcp_out (on_state c.state (record c { tcp_client = t' }) data')

  unfoldable pub connect : WsClient T → Reply T
  connect c = elim c.state [
    | ws_disconnected ↦
        (let (t, syn_pkt) = Tcp.connect d c.tcp_client in
          (record c { state = ws_connecting_tcp; tcp_client = t }, pushed syn_pkt))
    | _ ↦ (c, [])
  ]

  unfoldable pub send_text_message : WsClient T → List ℕ → MaskKey → Reply T
  unfolding generate_websocket_frame
  send_text_message c message key = elim c.state [
    | ws_connected ↦ ((generate_websocket_frame d o c message 1 true key).0, [])
    | _ ↦ (c, [])
  ]

  -- The close frame of disconnect; the subscriptions are cleared in Subscriptions.disconnect.
  unfoldable pub disconnect : WsClient T → MaskKey → Reply T
  unfolding generate_websocket_frame
  disconnect c key = elim c.state [
    | ws_disconnected ↦ (c, [])
    | _ ↦
        (let (c', sent) = generate_websocket_frame d o c [] 8 true key in
          (record c' { state = ws_disconnected }, sent))
  ]
