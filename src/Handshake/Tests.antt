-- ===== src/Handshake/Tests.antt =====
-- Runs of the WebSocket client over the TLS library of Samples.
use dpdk_cex_source.Base.{ℕ, ◌≡◌, inl, inr, refl, true, false, List, [], ◌∷◌, none, arith}
use dpdk_cex_source.Base.Text.{bytes}
use dpdk_cex_source.MicroTcp.{
  MicroTcp, established, Dpdk, EtherAddr, template, create_tcp_packet, send_data, extract_rx_data,
}
use dpdk_cex_source.MicroTcp as Tcp
use dpdk_cex_source.MicroTcp.Process as TcpRx
use dpdk_cex_source.MicroTcp.Payload.{payloads}
use dpdk_cex_source.Subscriptions.{ws_connecting_tls, ws_handshake_sent, ws_connected}
use dpdk_cex_source.WebSocket.{MaskKey}
use dpdk_cex_source.TlsSocket.{set_hostname, do_handshake, encrypt, read_encrypted}
use dpdk_cex_source.Handshake.{
  WsClient, new, send_tcp, flush_loop, flush, send_tls, generate_websocket_handshake,
}
use dpdk_cex_source.Handshake.Process.{
  handshake_round, feed_loop, feed, conclude, finish_handshake, say_hello, hello_or_feed,
  on_connecting_tls, on_state, process_rx, connect,
}
use dpdk_cex_source.Handshake.Samples.{Toy, fresh, waiting, finished, hello, toy, toy-IsMemoryBio}
use dpdk_cex_source.Handshake.Records.{TlsRecord}
use dpdk_cex_source.Handshake.Flush.{CanSend, flush-sends}
use dpdk_cex_source.Handshake.States.{WsMove, process_rx-WsMove}
use dpdk_cex_source.Handshake.Steps.{HasCompleted}
use dpdk_cex_source.Handshake.History.{Call, connects, received, sends_text, disconnects, call, run}
use dpdk_cex_source.Handshake.Secure.{history-IsSecure}
use dpdk_cex_source.Handshake.Mute.{run_past-mute}

abbrev port : Dpdk
port = record {
  alloc = λ k. true;
  ipv4_cksum = λ h. (0x12, 0x34);
  udptcp_cksum = λ h s. (0x56, 0x78);
}

abbrev mac : ℕ → EtherAddr
mac n = record { b0 = 2; b1 = 0; b2 = 0; b3 = 0; b4 = 0; b5 = n }

abbrev tcp : MicroTcp
tcp = record {
  state = established;
  src_ip = 0x0A000001;
  src_port = 40000;
  dst_ip = 0x0A000002;
  dst_port = 443;
  iss = 999;
  snd_una = 1000;
  snd_nxt = 1000;
  rcv_nxt = 5000;
  cached_headers = template 0x0A000001 40000 0x0A000002 443 (mac 1) (mac 2);
  rx_buffer = [];
  allocations = 0;
}

abbrev first : WsClient Toy
first =
    new tcp (record { stage = fresh; output = [] }) (bytes "okx.com") (bytes "/ws") (bytes "a2V5")

abbrev greeting : WsClient Toy
greeting = record first {
  state = ws_connecting_tls;
  tls_socket = record { stage = waiting; output = hello };
  client_hello_sent = true;
  sni_set = true;
}

abbrev open_client : WsClient Toy
open_client = record first {
  state = ws_connected;
  tls_socket = record { stage = finished; output = [] };
}

abbrev key : MaskKey
key = record { k0 = 1; k1 = 2; k2 = 3; k3 = 4 }

flush-sends_example :
    let r = flush port toy false greeting in
    (r.0.tls_socket.output ≡ []) × (payloads r.1 ≡ hello) × CanSend r.0.tcp_client
unfolding new
flush-sends_example =
    flush-sends port toy toy-IsMemoryBio false greeting
      (record { src_mac = mac 1; dst_mac = mac 2; is_established = refl; has_template = refl })
      (λ k. refl) (omega arith)

abbrev server_hello : TlsRecord
server_hello = record {
  type = 22;
  major = 3;
  minor = 3;
  length_high = 0;
  length_low = 2;
  body = 2 ∷ 0 ∷ [];
}

process_rx-WsMove_example :
    let t = (TcpRx.process_rx port greeting.tcp_client none).0 in
    WsMove toy ws_connecting_tls 0 t.state t.rx_buffer (process_rx port toy greeting none).0
unfolding new
process_rx-WsMove_example = process_rx-WsMove port toy greeting none

abbrev polls : List Call
polls = connects ∷ received none ∷ received none ∷ []

polls_state : (run port toy first polls).0.state ≡ ws_handshake_sent
unfolding run call new connect process_rx on_state on_connecting_tls hello_or_feed say_hello feed
    feed_loop finish_handshake handshake_round conclude generate_websocket_handshake send_tls
    send_tcp flush flush_loop set_hostname do_handshake encrypt read_encrypted TcpRx.process_rx
    extract_rx_data send_data create_tcp_packet Tcp.connect
polls_state = refl

history-IsSecure_example : HasCompleted toy (run port toy first polls).0.tls_socket
history-IsSecure_example =
    history-IsSecure port toy tcp (record { stage = fresh; output = [] }) (bytes "okx.com")
      (bytes "/ws") (bytes "a2V5") polls (inl polls_state)

run_past-mute_example :
    payloads (run port toy open_client (sends_text (bytes "ping") key ∷ disconnects key ∷ [])).1
    ≡ []
unfolding new
run_past-mute_example =
    run_past-mute port toy open_client (sends_text (bytes "ping") key ∷ disconnects key ∷ [])
      (inr refl) ((mac 1, mac 2), refl) ((λ e. ground (arith, e)), ((λ e. ground (arith, e)), tt))
