-- ===== src/Handshake.antt =====
-- The connection of WebSocketClient, src/modules/network/websocket_client.cpp: connect, process_rx
-- with the TLS handshake, and what it sends through TlsSocket over MicroTcp. The three static
-- variables of process_rx are fields. `out_mbufs` is the list of packets that a method returns; only
-- those of MicroTcp::process_rx may be null. The subscriptions are in Subscriptions.
pub mod Process
pub mod Records
pub mod Flush
pub mod Steps
pub mod Connecting
pub mod States
pub mod History
pub mod Secure
pub mod Mute
mod Samples
mod Tests
use dpdk_cex_source.Base.{
  ℕ, zero, suc, ◌+◌, ◌*◌, Bool, true, false, ◌||◌, if◌then◌else◌, ltb, leb, List, [], ◌∷◌, ◌++◌,
  Option, none, some, length, take, drop, get_or,
}
use dpdk_cex_source.Base.Text.{bytes}
use dpdk_cex_source.Base.Bytes.{of_be16}
use dpdk_cex_source.Packet.{Mbuf}
use dpdk_cex_source.MicroTcp.{MicroTcp, TcpState, established, Dpdk, send_data, extract_rx_data}
use dpdk_cex_source.Subscriptions.{
  WsState, ws_disconnected, ws_connecting_tcp, ws_connecting_tls, ws_handshake_sent, ws_connected,
}
use dpdk_cex_source.WebSocket.{MaskKey, client_frame}
use dpdk_cex_source.TlsSocket.{
  OpenSsl, HandshakeStatus, complete, needs_io, handshake_error, Returned, count, none_yet, failed,
  Pending, encrypted, drained, read_error, set_hostname, do_handshake, encrypt, decrypt,
  read_encrypted, write_encrypted,
}

pub record WsClient (T : Type 0) : Type 0 where
  pub state : WsState
  pub tcp_client : MicroTcp
  pub tls_socket : T
  pub ws_host : List ℕ
  pub ws_path : List ℕ
  pub ws_key : List ℕ
  -- the static variables of process_rx
  pub sni_set : Bool
  pub client_hello_sent : Bool
  pub error_with_data_count : ℕ

-- The constructor; `ws_key` is the value of generate_websocket_key.
unfoldable pub new : {T : Type 0} → MicroTcp → T → List ℕ → List ℕ → List ℕ → WsClient T
new tcp_client tls_socket host path ws_key = record {
  state = ws_disconnected;
  tcp_client = tcp_client;
  tls_socket = tls_socket;
  ws_host = host;
  ws_path = path;
  ws_key = ws_key;
  sni_set = false;
  client_hello_sent = false;
  error_with_data_count = 0;
}

abbrev pub crlf : List ℕ
crlf = 13 ∷ 10 ∷ []

-- `handshake_request`
unfoldable pub upgrade_request : List ℕ → List ℕ → List ℕ → List ℕ
upgrade_request path host key =
    bytes "GET "
    ++ path
    ++ bytes " HTTP/1.1"
    ++ crlf
    ++ bytes "Host: "
    ++ host
    ++ crlf
    ++ bytes "Upgrade: websocket"
    ++ crlf
    ++ bytes "Connection: Upgrade"
    ++ crlf
    ++ bytes "Sec-WebSocket-Key: "
    ++ key
    ++ crlf
    ++ bytes "Sec-WebSocket-Version: 13"
    ++ crlf
    ++ crlf

-- A client's new state, and the packets that go out.
abbrev pub Reply : Type 0 → Type 0
Reply T = WsClient T × List (Option Mbuf)

-- `if (data_pkt) out_mbufs.push_back(data_pkt)`
abbrev pub pushed : Option Mbuf → List (Option Mbuf)
pushed none = []
pushed (some m) = some m ∷ []

-- `b` and what goes out after `sent`.
abbrev pub after : {T : Type 0} → List (Option Mbuf) → Reply T → Reply T
after sent (c, rest) = (c, sent ++ rest)

-- The client with `bs` sent over TCP.
unfoldable pub send_tcp : {T : Type 0} → Dpdk → WsClient T → List ℕ → Reply T
send_tcp d c bs =
    let (t, p) = send_data d c.tcp_client bs in (record c { tcp_client = t }, pushed p)

-- What `step` does, and then `next` on its client.
abbrev pub and_then : {T : Type 0} → Reply T → (WsClient T → Reply T) → Reply T
and_then (c, sent) next = after sent (next c)

module _ {T : Type 0} (d : Dpdk) (o : OpenSsl T) where
  abbrev pub flush_round : Bool → WsClient T → List ℕ → Reply T
  flush_round hello c bs =
      send_tcp d (record c { client_hello_sent = c.client_hello_sent || hello }) bs

  -- One pass of the loop over what read_encrypted gave; `next` goes on with the loop.
  abbrev pub flush_pass : Bool → WsClient T → T × Pending → (WsClient T → Reply T) → Reply T
  flush_pass hello c (t, encrypted bs) next =
      and_then (flush_round hello (record c { tls_socket = t }) bs) next
  flush_pass hello c (t, drained) next = (record c { tls_socket = t }, [])
  flush_pass hello c (t, read_error) next = (record c { tls_socket = t }, [])

  -- The loop `while (tls_socket_.read_encrypted(...) > 0)`; the one for the ClientHello also sets
  -- client_hello_sent.
  unfoldable pub flush_loop : ℕ → Bool → WsClient T → Reply T
  flush_loop zero hello c = (c, [])
  flush_loop (suc n) hello c =
      flush_pass hello c (read_encrypted o c.tls_socket) (flush_loop n hello)

  unfoldable pub flush : Bool → WsClient T → Reply T
  unfolding flush_loop
  flush hello c = flush_loop (suc (o.bio_pending c.tls_socket)) hello c

  -- A packet with what encrypt put out, if it returned a positive number.
  abbrev pub send_encrypted : WsClient T → Returned → List ℕ → Reply T
  send_encrypted c (count n) out_data = send_tcp d c out_data
  send_encrypted c none_yet out_data = (c, [])
  send_encrypted c failed out_data = (c, [])

  unfoldable pub send_tls : WsClient T → List ℕ → Reply T
  send_tls c plain =
      let ((t, r), out_data) = encrypt o c.tls_socket plain [] in
      send_encrypted (record c { tls_socket = t }) r out_data

  unfoldable pub generate_websocket_handshake : WsClient T → Reply T
  unfolding send_tls
  generate_websocket_handshake c = send_tls c (upgrade_request c.ws_path c.ws_host c.ws_key)

  unfoldable pub generate_websocket_frame : WsClient T → List ℕ → ℕ → Bool → MaskKey → Reply T
  unfolding send_tls
  generate_websocket_frame c payload opcode fin key =
      send_tls c (client_frame payload opcode fin key)
