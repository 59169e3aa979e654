-- ===== src/MicroTcp/Closed.antt =====
-- A connection that has left CLOSED never comes back to it, so it cannot be opened again.
use dpdk_cex_source.Base.{
  ℕ, ◌≡◌, ◌≢◌, refl, sym, ap, ◌∙◌, List, [], ◌∷◌, Option, none, some, arith, inl, inr,
}
use dpdk_cex_source.Packet.{Mbuf}
use dpdk_cex_source.MicroTcp.{
  MicroTcp, closed, Dpdk, connect, send_data, u16_bytes, extract_rx_data,
}
use dpdk_cex_source.MicroTcp.Process.{Segment, segment, Reply, process_rx}
use dpdk_cex_source.MicroTcp.Machine.{
  Move, stay, establish, peer_closes, finish, create_tcp_packet-keeps, process_rx-Move,
}
use dpdk_cex_source.MicroTcp.Bounds.{Call, connects, received, sends, extracts, call, run}

Move-open :
    (t : MicroTcp) (s : Segment) (t' : MicroTcp)
    → t.state ≢ closed
    → Move t s t'
    → t'.state ≢ closed
Move-open t s t' h (stay e) = λ c. h (sym e ∙ c)
Move-open t s t' h (establish a b c d e f g) = ground arith
Move-open t s t' h (peer_closes a b c) = ground arith
Move-open t s t' h (finish a b c) = ground arith

connect_open : (d : Dpdk) (t : MicroTcp) → t.state ≢ closed → connect d t ≡ (t, none)
unfolding connect
connect_open d t h = ground arith

send_data_state : (d : Dpdk) (t : MicroTcp) (p : List ℕ) → (send_data d t p).0.state ≡ t.state
unfolding send_data
send_data_state d t p = ground (arith, create_tcp_packet-keeps d t 24 (u16_bytes p))

process_rx_open :
    (d : Dpdk) (t : MicroTcp) (m : Mbuf)
    → t.state ≢ closed
    → (process_rx d t (some m)).0.state ≢ closed
process_rx_open d t m h = elim (process_rx-Move d t m) [
  | inl e ↦ λ c. h (sym (ap (λ (r : Reply). r.0.state) e) ∙ c)
  | inr (hs, p, o, mv) ↦ Move-open t (segment m hs) (process_rx d t (some m)).0 h mv
]

process_rx_null : (d : Dpdk) (t : MicroTcp) → process_rx d t none ≡ (t, [])
unfolding process_rx
process_rx_null d t = refl

call_open : (d : Dpdk) (t : MicroTcp) (c : Call) → t.state ≢ closed → (call d t c).state ≢ closed
unfolding call extract_rx_data
call_open d t connects h =
    λ e. h (sym (ap (λ (r : MicroTcp × Option Mbuf). r.0.state) (connect_open d t h)) ∙ e)
call_open d t (received none) h =
    λ e. h (sym (ap (λ (r : Reply). r.0.state) (process_rx_null d t)) ∙ e)
call_open d t (received (some m)) h = process_rx_open d t m h
call_open d t (sends p) h = λ e. h (sym (send_data_state d t p) ∙ e)
call_open d t extracts h = h

run_open :
    (d : Dpdk) (t : MicroTcp) (cs : List Call) → t.state ≢ closed → (run d t cs).state ≢ closed
unfolding run
run_open d t [] h = h
run_open d t (c ∷ cs) h = run_open d (call d t c) cs (call_open d t c h)

-- Once a connection has left CLOSED, no history of calls and packets lets `connect` send a SYN again:
-- it does nothing.
pub connect-run :
    (d : Dpdk) (t : MicroTcp) (cs : List Call)
    → t.state ≢ closed
    → connect d (run d t cs) ≡ (run d t cs, none)
connect-run d t cs h = connect_open d (run d t cs) (run_open d t cs h)
