-- ===== src/Forwarding/Tests.antt =====
-- Runs of the classifier, the market-data parser and the forwarding loop on concrete packets.
use dpdk_cex_source.Base.{
  ℕ, ◌+◌, ◌≡◌, ◌↔◌, refl, true, ◌||◌, if◌then◌else◌, List, [], ◌∷◌, ◌++◌, some, length, take,
  replicate, arith,
}
use dpdk_cex_source.Packet.{Mbuf}
use dpdk_cex_source.MicroTcp.{MicroTcp, established, Dpdk, EtherAddr, template}
use dpdk_cex_source.MicroTcp.Create.{IsEncodable, packet}
use dpdk_cex_source.Classifier.{hft, standard, is_exchange_port, classify, classify-packet}
use dpdk_cex_source.MdParser.{parse_md, IsBookUpdate, parse_md_iff}
use dpdk_cex_source.Forwarding.{Packet, Ports, buffers, ingress, forward_loop, idle}
use dpdk_cex_source.Forwarding.References.{count, forward_loop_refs}
use dpdk_cex_source.Forwarding.Delivery.{fast, ingress_delivers}

abbrev no_checksum : Dpdk
no_checksum = record { alloc = λ k. true; ipv4_cksum = λ h. (0, 0); udptcp_cksum = λ h s. (0, 0) }

abbrev mac : EtherAddr
mac = record { b0 = 2; b1 = 0; b2 = 0; b3 = 0; b4 = 0; b5 = 1 }

abbrev okx_link : MicroTcp
okx_link = record {
  state = established;
  src_ip = 0x0A000001;
  src_port = 40000;
  dst_ip = 0x0A000002;
  dst_port = 8443;
  iss = 1;
  snd_una = 2;
  snd_nxt = 2;
  rcv_nxt = 7;
  cached_headers = template 0x0A000001 40000 0x0A000002 8443 mac mac;
  rx_buffer = [];
  allocations = 0;
}

okx_link-IsEncodable : IsEncodable okx_link
okx_link-IsEncodable = record {
  src_ip_fits = omega arith;
  dst_ip_fits = omega arith;
  src_port_fits = omega arith;
  dst_port_fits = omega arith;
  iss_fits = omega arith;
  snd_nxt_fits = omega arith;
  rcv_nxt_fits = omega arith;
}

classify-packet_example : classify (packet no_checksum okx_link 24 (1 ∷ [])) ≡ (
    if is_exchange_port okx_link.src_port || is_exchange_port okx_link.dst_port
    then hft
    else standard)
classify-packet_example =
    classify-packet no_checksum okx_link 24 (1 ∷ []) mac mac refl okx_link-IsEncodable (omega arith)

-- A UDP packet with a book update.
abbrev book_packet : Mbuf
book_packet = record {
  data_len = 102;
  bytes =
      replicate 12 0
      ++ (8 ∷ 0 ∷ 69 ∷ [])
      ++ replicate 8 0
      ++ (17 ∷ [])
      ++ replicate 18 0
      ++ (0xBB ∷ 0xAA ∷ 1 ∷ [])
      ++ replicate 57 0;
}

parse_md_iff_example :
    (parse_md (some book_packet) ≡ some 62) ↔ (IsBookUpdate book_packet × (◌≡◌ {A = ℕ} 62 62))
parse_md_iff_example = parse_md_iff book_packet 62 refl

book_parses : parse_md (some book_packet) ≡ some 62
unfolding parse_md
book_parses = refl

abbrev ports : Ports
ports = record { has_virt = true; enqueue_ok = λ k. true; tx_burst = λ k n. 1 }

abbrev burst : List Packet
burst =
    record { buffer = 3; frame = packet no_checksum okx_link 24 (1 ∷ []) }
    ∷ record { buffer = 4; frame = book_packet }
    ∷ []

forward_loop_refs_example :
    (forward_loop ports idle ((burst, []) ∷ ([], burst) ∷ [])).refs 3
    ≡ count 3 (forward_loop ports idle ((burst, []) ∷ ([], burst) ∷ [])).ring
      + count 3 (forward_loop ports idle ((burst, []) ∷ ([], burst) ∷ [])).virt_sent
      + count 3 (forward_loop ports idle ((burst, []) ∷ ([], burst) ∷ [])).phy_sent
forward_loop_refs_example = forward_loop_refs ports ((burst, []) ∷ ([], burst) ∷ []) 3

ingress_delivers_example :
    ((ingress ports idle burst).virt_sent
      ≡ idle.virt_sent ++ take (ports.tx_burst idle.bursts (length burst)) (buffers burst))
    × ((ingress ports idle burst).ring ≡ idle.ring ++ fast burst)
ingress_delivers_example = ingress_delivers ports idle burst refl (λ k. refl)
