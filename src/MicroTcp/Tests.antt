-- ===== src/MicroTcp/Tests.antt =====
-- Runs of the TCP client between a concrete client and its peer.
use dpdk_cex_source.MicroTcp.Closed.{connect-run}
use dpdk_cex_source.Base.{
  ◌≢◌, none, ℕ, ◌+◌, ◌%◌, ◌≤◌, ◌≡◌, refl, true, List, [], ◌∷◌, ◌++◌, some, arith, ◌↔◌, ◌⊎◌,
}
use dpdk_cex_source.Packet.{Mbuf}
use dpdk_cex_source.MicroTcp.{
  MicroTcp, closed, connect, established, Dpdk, EtherAddr, template, new, send_data,
  parse_tcp_packet, Headers,
}
use dpdk_cex_source.MicroTcp.Process.{segment, payload_of, is_ours, process_rx}
use dpdk_cex_source.MicroTcp.Header.{IsTcpFrame, headers_of, parse_tcp_packet_iff}
use dpdk_cex_source.MicroTcp.Machine.{Move, process_rx-Move}
use dpdk_cex_source.MicroTcp.Bounds.{
  IsSane, connects, received, sends, extracts, run, run-new-IsSane,
}
use dpdk_cex_source.MicroTcp.Stream.{
  Piece, HasReceived, IsPiece, bytes_from, receive, expected, receive-HasReceived,
}
use dpdk_cex_source.MicroTcp.Create.{IsEncodable, packet, sent_segment, parse-create}
use dpdk_cex_source.MicroTcp.Exchange.{ArePeers, send_data-process_rx}

abbrev port : Dpdk
port = record {
  alloc = λ k. true;
  ipv4_cksum = λ h. (0x12, 0x34);
  udptcp_cksum = λ h s. (0x56, 0x78);
}

abbrev mac : ℕ → EtherAddr
mac n = record { b0 = 2; b1 = 0; b2 = 0; b3 = 0; b4 = 0; b5 = n }

abbrev client : MicroTcp
client = record {
  state = established;
  src_ip = 0x0A000001;
  src_port = 40000;
  dst_ip = 0x0A000002;
  dst_port = 443;
  iss = 999;
  snd_una = 1000;
  snd_nxt = 1000;
  rcv_nxt = 5000;
  cached_headers = template 0x0A000001 40000 0x0A000002 443 (mac 1) (mac 2);
  rx_buffer = [];
  allocations = 0;
}

abbrev server : MicroTcp
server = record {
  state = established;
  src_ip = 0x0A000002;
  src_port = 443;
  dst_ip = 0x0A000001;
  dst_port = 40000;
  iss = 4999;
  snd_una = 5000;
  snd_nxt = 5000;
  rcv_nxt = 1000;
  cached_headers = template 0x0A000002 443 0x0A000001 40000 (mac 2) (mac 1);
  rx_buffer = 7 ∷ [];
  allocations = 0;
}

client-IsEncodable : IsEncodable client
client-IsEncodable = record {
  src_ip_fits = omega arith;
  dst_ip_fits = omega arith;
  src_port_fits = omega arith;
  dst_port_fits = omega arith;
  iss_fits = omega arith;
  snd_nxt_fits = omega arith;
  rcv_nxt_fits = omega arith;
}

ends-ArePeers : ArePeers client server
ends-ArePeers = record { src_ips = refl; src_ports = refl; dst_ips = refl; dst_ports = refl }

abbrev hello : List ℕ
hello = 104 ∷ 105 ∷ []

send_data-process_rx_example :
    ((process_rx port server (send_data port client hello).1).0.rx_buffer
      ≡ server.rx_buffer ++ hello)
    × ((process_rx port server (send_data port client hello).1).0.rcv_nxt
        ≡ (send_data port client hello).0.snd_nxt)
    × ((process_rx port server (send_data port client hello).1).0.state ≡ established)
send_data-process_rx_example =
    send_data-process_rx port client server hello (mac 1) (mac 2) refl client-IsEncodable
      ends-ArePeers (omega arith) (omega arith) refl refl refl (omega arith) refl

parse-create_example :
    (parse_tcp_packet (some (packet port client 24 hello))
      ≡ some (headers_of (packet port client 24 hello)))
    × (segment (packet port client 24 hello) (headers_of (packet port client 24 hello))
        ≡ sent_segment client 24 hello)
    × (payload_of (packet port client 24 hello) (sent_segment client 24 hello) ≡ hello)
parse-create_example =
    parse-create port client 24 hello (mac 1) (mac 2) refl client-IsEncodable (omega arith)

abbrev hello_packet : Mbuf
hello_packet = packet port client 24 hello

abbrev hello_headers : Headers
hello_headers = record { ipv4_hdr = 14; tcp_hdr = 34 }

hello_parses : parse_tcp_packet (some hello_packet) ≡ some hello_headers
unfolding parse_tcp_packet
hello_parses = refl

parse_tcp_packet_iff_example :
    (parse_tcp_packet (some hello_packet) ≡ some hello_headers)
    ↔ (IsTcpFrame hello_packet × (hello_headers ≡ headers_of hello_packet))
parse_tcp_packet_iff_example = parse_tcp_packet_iff hello_packet hello_headers

process_rx-Move_example :
    (process_rx port server (some hello_packet) ≡ (server, []))
    ⊎ ((h : Headers) × (parse_tcp_packet (some hello_packet) ≡ some h)
        × (is_ours server (segment hello_packet h) ≡ true)
        × Move server (segment hello_packet h) (process_rx port server (some hello_packet)).0)
process_rx-Move_example = process_rx-Move port server hello_packet

run-new-IsSane_example : IsSane (
    run port
      (new 0x0A000001 40000 0x0A000002 443 (mac 1) (mac 2) 999)
      (connects ∷ received (some hello_packet) ∷ sends hello ∷ extracts ∷ []))
run-new-IsSane_example =
    run-new-IsSane port 0x0A000001 40000 0x0A000002 443 (mac 1) (mac 2) 999
      (connects ∷ received (some hello_packet) ∷ sends hello ∷ extracts ∷ [])

abbrev bytes : ℕ → ℕ
bytes n = n % 256

abbrev piece : ℕ → ℕ → Piece
piece o n = record {
  offset = o;
  count = n;
  header = record (sent_segment client 24 []) { received_seq = 5000 + o };
}

abbrev pieces : List Piece
pieces = piece 2 2 ∷ piece 0 2 ∷ piece 0 2 ∷ piece 2 2 ∷ []

piece-IsPiece : (o n : ℕ) → o + n ≤ 4 → IsPiece bytes port 5000 4 (piece o n)
piece-IsPiece o n h = record { numbered = refl; part = h; no_fin = refl }

client-HasReceived : HasReceived bytes port 5000 4 client 0
unfolding bytes_from
client-HasReceived = record {
  is_established = refl;
  prefix_received = refl;
  in_step = refl;
  within = omega arith;
}

receive-HasReceived_example :
    HasReceived bytes port 5000 4
      (receive bytes port 5000 4 client pieces)
      (expected bytes 0 pieces)
receive-HasReceived_example =
    receive-HasReceived bytes port 5000 4 client 0 pieces (omega arith) (omega arith)
      client-HasReceived
      (
        piece-IsPiece 2 2 (omega arith),
        (
          piece-IsPiece 0 2 (omega arith),
          (piece-IsPiece 0 2 (omega arith), (piece-IsPiece 2 2 (omega arith), tt)),
        ),
      )

server_open : server.state ≢ closed
server_open = λ e. ground arith

connect-run_example :
    connect port (run port server (received (some hello_packet) ∷ extracts ∷ []))
    ≡ (run port server (received (some hello_packet) ∷ extracts ∷ []), none)
connect-run_example =
    connect-run port server (received (some hello_packet) ∷ extracts ∷ []) server_open
