-- ===== src/Handshake/States.antt =====
-- The states of WebSocketClient::process_rx, src/modules/network/websocket_client.cpp: which move to
-- which, and on what condition.
use dpdk_cex_source.Base.{◌≡◌, ◌≢◌, ◌≤◌, ◌⊎◌, refl, ◌∙◌, List, [], ◌∷◌, Option, ℕ, inl, inr}
use dpdk_cex_source.Packet.{Mbuf}
use dpdk_cex_source.MicroTcp.{Dpdk, TcpState, established, extract_rx_data}
use dpdk_cex_source.MicroTcp.Process as TcpRx
use dpdk_cex_source.Subscriptions.{
  WsState, ws_disconnected, ws_connecting_tcp, ws_connecting_tls, ws_handshake_sent, ws_connected,
}
use dpdk_cex_source.TlsSocket.{OpenSsl, handshake_error, do_handshake}
use dpdk_cex_source.Handshake.{WsClient}
use dpdk_cex_source.Handshake.Process.{on_connecting_tcp, on_connected, on_state, process_rx}
use dpdk_cex_source.Handshake.Steps.{HasCompleted, IsCounted, Goes, keeps, upgrades, drops}
use dpdk_cex_source.Handshake.Connecting.{on_connecting_tls-Goes}

module _ {T : Type 0} (o : OpenSsl T) where
  -- The client waits for TCP or for TLS.
  abbrev pub IsConnecting : WsState → Type 0
  IsConnecting s = (s ≡ ws_connecting_tcp) ⊎ (s ≡ ws_connecting_tls)

  -- The moves of a poll from the state `s` and the error count `n`, with `tcp` the state of TCP
  -- behind it and `data'` the bytes received over TCP.
  pub data WsMove (s : WsState) (n : ℕ) (tcp : TcpState) (data' : List ℕ) (c' : WsClient T)
      : Type 0 where
    stays : c'.state ≡ s → IsCounted n data' c'.error_with_data_count → WsMove s n tcp data' c'
    starts_tls :
        s ≡ ws_connecting_tcp
        → tcp ≡ established
        → c'.state ≡ ws_connecting_tls
        → IsCounted n data' c'.error_with_data_count
        → WsMove s n tcp data' c'
    sends_request :
        IsConnecting s
        → c'.state ≡ ws_handshake_sent
        → HasCompleted o c'.tls_socket
        → IsCounted n data' c'.error_with_data_count
        → WsMove s n tcp data' c'
    gives_up :
        IsConnecting s
        → c'.state ≡ ws_disconnected
        → (t : T) → (do_handshake o t).1 ≡ handshake_error
        → data' ≢ []
        → 2 ≤ n
        → c'.error_with_data_count ≡ 0
        → WsMove s n tcp data' c'
    assumes_upgrade :
        s ≡ ws_handshake_sent
        → c'.state ≡ ws_connected
        → c'.error_with_data_count ≡ n
        → WsMove s n tcp data' c'

  tls-WsMove :
      (tcp : TcpState) (c : WsClient T) (data' : List ℕ) (c' : WsClient T)
      → c.state ≡ ws_connecting_tls
      → Goes o c data' c'
      → WsMove ws_connecting_tls c.error_with_data_count tcp data' c'
  tls-WsMove tcp c data' c' e (keeps same f k) = stays (same ∙ e) k
  tls-WsMove tcp c data' c' e (upgrades sent f k) = sends_request (inr refl) sent f k
  tls-WsMove tcp c data' c' e (drops gone t failed more two zeroed) =
      gives_up (inr refl) gone t failed more two zeroed

  tcp-WsMove :
      (c : WsClient T) (data' : List ℕ) (c' : WsClient T)
      → c.state ≡ ws_connecting_tls
      → Goes o c data' c'
      → WsMove ws_connecting_tcp c.error_with_data_count established data' c'
  tcp-WsMove c data' c' e (keeps same f k) = starts_tls refl refl (same ∙ e) k
  tcp-WsMove c data' c' e (upgrades sent f k) = sends_request (inl refl) sent f k
  tcp-WsMove c data' c' e (drops gone t failed more two zeroed) =
      gives_up (inl refl) gone t failed more two zeroed

module _ {T : Type 0} (d : Dpdk) (o : OpenSsl T) where
  connecting_tcp-WsMove :
      (tcp : TcpState) (c : WsClient T) (data' : List ℕ)
      → c.state ≡ ws_connecting_tcp
      → WsMove o ws_connecting_tcp c.error_with_data_count tcp data'
          (on_connecting_tcp d o tcp c data').0
  connecting_tcp-WsMove established c data' e =
      let c' = record c { state = ws_connecting_tls } in
      tcp-WsMove o c' data' _ refl (on_connecting_tls-Goes d o c' data')
  connecting_tcp-WsMove _ c data' e = stays e (inl refl)

  connected-WsMove :
      (tcp : TcpState) (c : WsClient T) (data' : List ℕ)
      → c.state ≡ ws_connected
      → WsMove o ws_connected c.error_with_data_count tcp data' (on_connected d o c data').0
  unfolding on_connected
  connected-WsMove tcp c [] e = stays e (inl refl)
  connected-WsMove tcp c (x ∷ xs) e = stays e (inl refl)

  on_state-WsMove :
      (s : WsState) (c : WsClient T) (data' : List ℕ)
      → c.state ≡ s
      → WsMove o s c.error_with_data_count c.tcp_client.state data' (on_state d o s c data').0
  unfolding on_state
  on_state-WsMove ws_disconnected c data' e = stays e (inl refl)
  on_state-WsMove ws_connecting_tcp c data' e = connecting_tcp-WsMove c.tcp_client.state c data' e
  on_state-WsMove ws_connecting_tls c data' e =
      tls-WsMove o c.tcp_client.state c data' _ e (on_connecting_tls-Goes d o c data')
  on_state-WsMove ws_handshake_sent c data' e = assumes_upgrade refl refl refl
  on_state-WsMove ws_connected c data' e = connected-WsMove c.tcp_client.state c data' e

  -- A poll of process_rx moves the state only so. It stays. From WS_CONNECTING_TCP it goes to
  -- WS_CONNECTING_TLS if TCP is established. From these two it goes to WS_HANDSHAKE_SENT if a call of
  -- SSL_do_handshake has succeeded, or to WS_DISCONNECTED if do_handshake can fail, bytes have been
  -- received and at least two such failures have been counted, and then the count is zero. And
  -- WS_HANDSHAKE_SENT goes to WS_CONNECTED with the count as it is. In every other move the count
  -- stays, or one is added to it, with received bytes, and it is less than three.
  pub process_rx-WsMove :
      (c : WsClient T) (rx_mbuf : Option Mbuf)
      → let t = (TcpRx.process_rx d c.tcp_client rx_mbuf).0 in
        WsMove o c.state c.error_with_data_count t.state t.rx_buffer (process_rx d o c rx_mbuf).0
  unfolding process_rx extract_rx_data
  process_rx-WsMove c rx_mbuf =
      let t = (TcpRx.process_rx d c.tcp_client rx_mbuf).0 in
      on_state-WsMove c.state (record c { tcp_client = record t { rx_buffer = [] } }) t.rx_buffer
        refl
