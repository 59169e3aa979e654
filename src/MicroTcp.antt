-- ===== src/MicroTcp.antt =====
-- src/modules/network/micro_tcp.h and micro_tcp.cpp, class MicroTcp: a TCP client over raw packets.
-- The mempool and the checksums are DPDK's and are parameters: `alloc k` tells whether the k-th
-- call of rte_pktmbuf_alloc succeeds, and a checksum is the pair of bytes that is stored.
-- Logging, and the return of the received mbuf to its pool, leave no trace.
pub mod Process
pub mod Header
pub mod Machine
pub mod Stream
pub mod Bounds
pub mod Create
pub mod Exchange
pub mod Closed
pub mod Payload
mod Tests
use dpdk_cex_source.Base.{
  ℕ, ◌+◌, ◌-◌, ◌*◌, ◌/◌, ◌%◌, ◌^◌, Bool, true, false, ◌&&◌, ◌||◌, if◌then◌else◌, ltb, leb, ◌==◌,
  not, List, [], ◌∷◌, ◌++◌, Option, none, some, length, take, drop,
}
use dpdk_cex_source.Base.Bytes.{be16, be32, u16, u32}
use dpdk_cex_source.Packet.{
  Mbuf, read8, read16, read32, slice, ether_hdr_len, ipv4_hdr_len, tcp_hdr_len, ether_type_ipv4,
  ipproto_tcp,
}

pub data TcpState : Type 0 where
  closed syn_sent established fin_wait_1 fin_wait_2 time_wait : TcpState

pub record MicroTcp : Type 0 where
  pub state : TcpState
  pub src_ip : ℕ
  pub src_port : ℕ
  pub dst_ip : ℕ
  pub dst_port : ℕ
  pub iss : ℕ
  pub snd_una : ℕ
  pub snd_nxt : ℕ
  pub rcv_nxt : ℕ
  pub cached_headers : List ℕ
  pub rx_buffer : List ℕ
  -- the number of calls of rte_pktmbuf_alloc so far
  pub allocations : ℕ

-- What DPDK provides.
pub record Dpdk : Type 0 where
  pub alloc : ℕ → Bool
  pub ipv4_cksum : List ℕ → ℕ × ℕ
  pub udptcp_cksum : List ℕ → List ℕ → ℕ × ℕ

abbrev pub max_rx_buffer_size : ℕ
max_rx_buffer_size = 10 * 1024 * 1024

-- RTE_TCP_FIN_FLAG, SYN, PSH and ACK.
abbrev pub fin_flag : ℕ
fin_flag = 0x01

abbrev pub syn_flag : ℕ
syn_flag = 0x02

abbrev pub psh_flag : ℕ
psh_flag = 0x08

abbrev pub ack_flag : ℕ
ack_flag = 0x10

-- `flags & mask` for a mask of one bit.
abbrev pub has_flag : ℕ → ℕ → Bool
has_flag flags mask = not (flags / mask % 2 == 0)

-- rte_ether_addr
pub record EtherAddr : Type 0 where
  pub b0 : ℕ
  pub b1 : ℕ
  pub b2 : ℕ
  pub b3 : ℕ
  pub b4 : ℕ
  pub b5 : ℕ

abbrev pub mac_bytes : EtherAddr → List ℕ
mac_bytes a = a.b0 ∷ a.b1 ∷ a.b2 ∷ a.b3 ∷ a.b4 ∷ a.b5 ∷ []

-- The packet template of the constructor: Ethernet, IPv4 and TCP headers.
abbrev pub template : ℕ → ℕ → ℕ → ℕ → EtherAddr → EtherAddr → List ℕ
template src_ip src_port dst_ip dst_port src_mac dst_mac =
    (mac_bytes dst_mac ++ mac_bytes src_mac ++ be16 ether_type_ipv4)
    ++ (0x45 ∷ 0 ∷ 0 ∷ 0 ∷ 0 ∷ 0 ∷ be16 0x4000
        ++ 64 ∷ ipproto_tcp ∷ 0 ∷ 0 ∷ be32 src_ip
        ++ be32 dst_ip)
    ++ (be16 src_port
        ++ be16 dst_port
        ++ be32 0
        ++ be32 0
        ++ 0x50 ∷ 0 ∷ be16 65535
        ++ 0 ∷ 0 ∷ 0 ∷ 0 ∷ [])

-- The constructor; `rand` is the value of rte_rand.
unfoldable pub new : ℕ → ℕ → ℕ → ℕ → EtherAddr → EtherAddr → ℕ → MicroTcp
new src_ip src_port dst_ip dst_port src_mac dst_mac rand = record {
  state = closed;
  src_ip = src_ip;
  src_port = src_port;
  dst_ip = dst_ip;
  dst_port = dst_port;
  iss = u32 rand;
  snd_una = 0;
  snd_nxt = u32 rand;
  rcv_nxt = 0;
  cached_headers = template src_ip src_port dst_ip dst_port src_mac dst_mac;
  rx_buffer = [];
  allocations = 0;
}

unfoldable pub update_snd_nxt : MicroTcp → ℕ → MicroTcp
update_snd_nxt t sent_len = record t { snd_nxt = u32 (t.snd_nxt + sent_len) }

-- The bytes `bs` written at offset `i`.
abbrev pub write : ℕ → List ℕ → List ℕ → List ℕ
write i bs m = take i m ++ bs ++ drop (i + length bs) m

-- An mbuf from the pool, filled in: the template with the lengths, the IPv4 checksum, the flags and
-- the sequence numbers, then the payload and the TCP checksum.
abbrev pub total_len : List ℕ → ℕ
total_len payload = u16 (ether_hdr_len + ipv4_hdr_len + tcp_hdr_len + length payload)

abbrev pub with_length : MicroTcp → List ℕ → List ℕ
with_length t payload =
    write 24 (0 ∷ 0 ∷ [])
      (write 16 (be16 (u16 (total_len payload + 2 ^ 16 - ether_hdr_len))) t.cached_headers)

abbrev pub ip_sum : Dpdk → MicroTcp → List ℕ → ℕ × ℕ
ip_sum d t payload = d.ipv4_cksum (take ipv4_hdr_len (drop ether_hdr_len (with_length t payload)))

abbrev pub numbered : Dpdk → MicroTcp → ℕ → List ℕ → List ℕ
numbered d t flags payload =
    let sums = (ip_sum d t payload).0 ∷ (ip_sum d t payload).1 ∷ [] in
    let flagged =
      write 50 (0 ∷ 0 ∷ []) (write 47 (flags ∷ []) (write 24 sums (with_length t payload))) in
    if has_flag flags syn_flag
    then write 42 (be32 0) (write 38 (be32 t.iss) flagged)
    else write 42 (be32 t.rcv_nxt) (write 38 (be32 t.snd_nxt) flagged)

abbrev pub tcp_sum : Dpdk → MicroTcp → ℕ → List ℕ → ℕ × ℕ
tcp_sum d t flags payload =
    d.udptcp_cksum (take ipv4_hdr_len (drop ether_hdr_len (numbered d t flags payload)))
      (drop (ether_hdr_len + ipv4_hdr_len) (numbered d t flags payload) ++ payload)

abbrev pub packet_bytes : Dpdk → MicroTcp → ℕ → List ℕ → List ℕ
packet_bytes d t flags payload =
    let sums = (tcp_sum d t flags payload).0 ∷ (tcp_sum d t flags payload).1 ∷ [] in
    write 50 sums (numbered d t flags payload) ++ payload

-- The sequence numbers that a sent packet uses up.
abbrev pub consume : MicroTcp → ℕ → List ℕ → MicroTcp
consume t flags payload =
    if ltb 0 (length payload)
    then update_snd_nxt t (length payload)
    else if has_flag flags syn_flag || has_flag flags fin_flag
    then update_snd_nxt t 1
    else t

-- The bytes that a length of type `uint16_t` leaves of a buffer.
abbrev pub u16_bytes : List ℕ → List ℕ
u16_bytes bs = take (u16 (length bs)) bs

-- `none` is the null pointer of a failed allocation; `payload_len` has 16 bits.
unfoldable pub create_tcp_packet : Dpdk → MicroTcp → ℕ → List ℕ → MicroTcp × Option Mbuf
unfolding update_snd_nxt
create_tcp_packet d t flags buffer =
    let payload = u16_bytes buffer in
    let t' = record t { allocations = t.allocations + 1 } in
    if d.alloc t.allocations
    then (
      consume t' flags payload,
      some (record { data_len = total_len payload; bytes = packet_bytes d t flags payload }),
    )
    else (t', none)

unfoldable pub connect : Dpdk → MicroTcp → MicroTcp × Option Mbuf
connect d t = elim t.state [
  | closed ↦ create_tcp_packet d (record t { state = syn_sent }) syn_flag []
  | _ ↦ (t, none)
]

-- `len` has 16 bits.
unfoldable pub send_data : Dpdk → MicroTcp → List ℕ → MicroTcp × Option Mbuf
send_data d t data' = elim t.state [
  | established ↦ create_tcp_packet d t (psh_flag + ack_flag) (u16_bytes data')
  | _ ↦ (t, none)
]

unfoldable pub extract_rx_data : MicroTcp → List ℕ × MicroTcp
extract_rx_data t = (t.rx_buffer, record t { rx_buffer = [] })

-- Where the three headers begin. The three pointers of the source are all set or all null.
pub record Headers : Type 0 where
  pub ipv4_hdr : ℕ
  pub tcp_hdr : ℕ

abbrev pub ip_header_length : Mbuf → ℕ
ip_header_length m = read8 m 14 % 16 * 4

abbrev pub tcp_header_length : Mbuf → ℕ → ℕ
tcp_header_length m tcp_hdr = read8 m (tcp_hdr + 12) / 16 * 4

unfoldable pub parse_mbuf : Mbuf → Option Headers
parse_mbuf m =
    if ltb m.data_len ether_hdr_len
    then none
    else if not (read16 m 12 == ether_type_ipv4)
    then none
    else if ltb m.data_len (ether_hdr_len + ipv4_hdr_len)
    then none
    else if not (read8 m 23 == ipproto_tcp)
    then none
    else let ihl = ip_header_length m in
      if ltb ihl ipv4_hdr_len || ltb m.data_len (ether_hdr_len + ihl + tcp_hdr_len)
      then none
      else let tcp_off = tcp_header_length m (ether_hdr_len + ihl) in
        if ltb tcp_off tcp_hdr_len || ltb m.data_len (ether_hdr_len + ihl + tcp_off)
        then none
        else some (record { ipv4_hdr = ether_hdr_len; tcp_hdr = ether_hdr_len + ihl })

unfoldable pub parse_tcp_packet : Option Mbuf → Option Headers
unfolding parse_mbuf
parse_tcp_packet none = none
parse_tcp_packet (some m) = parse_mbuf m
