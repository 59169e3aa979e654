-- ===== src/Forwarding.antt =====
-- src/core/forwarding.cpp, lcore_forward_loop: packets from the physical port go to the kernel, those
-- of the fast path to the strategy's ring as well, and packets of the kernel go to the physical port.
-- A buffer is its number, and `refs` its reference count. Timestamps and statistics output are
-- left out; the four counters are kept.
pub mod References
pub mod Delivery
mod Tests
use dpdk_cex_source.Base.{
  ℕ, ◌+◌, ◌-◌, Bool, true, false, if◌then◌else◌, ◌==◌, ltb, List, [], ◌∷◌, ◌++◌, length, take, drop,
}
use dpdk_cex_source.Base.Bytes.{u64}
use dpdk_cex_source.Packet.{Mbuf}
use dpdk_cex_source.Classifier.{TrafficType, standard, hft, ignored, classify}

pub record Packet : Type 0 where
  pub buffer : ℕ
  pub frame : Mbuf

-- What DPDK does: whether the k-th enqueue to the ring succeeds, and how many of `n` packets the k-th
-- transmit burst takes. `has_virt` is `virt_port_id != RTE_MAX_ETHPORTS`.
pub record Ports : Type 0 where
  pub has_virt : Bool
  pub enqueue_ok : ℕ → Bool
  pub tx_burst : ℕ → ℕ → ℕ

-- The buffers that were put on the ring and that each port took, in order; the calls made so far;
-- and the counters of the loop.
pub record Engine : Type 0 where
  pub refs : ℕ → ℕ
  pub ring : List ℕ
  pub virt_sent : List ℕ
  pub phy_sent : List ℕ
  pub enqueues : ℕ
  pub bursts : ℕ
  pub rx_phy_total : ℕ
  pub tx_virt_total : ℕ
  pub rx_virt_total : ℕ
  pub tx_phy_total : ℕ

-- rte_pktmbuf_refcnt_update(b, 1), and rte_pktmbuf_free(b).
abbrev pub acquire : (ℕ → ℕ) → ℕ → ℕ → ℕ
acquire refs b i = if i == b then refs i + 1 else refs i

abbrev pub free : (ℕ → ℕ) → ℕ → ℕ → ℕ
free refs b i = if i == b then refs i - 1 else refs i

unfoldable pub acquire_all : (ℕ → ℕ) → List ℕ → ℕ → ℕ
acquire_all refs [] = refs
acquire_all refs (b ∷ bs) = acquire_all (acquire refs b) bs

unfoldable pub free_all : (ℕ → ℕ) → List ℕ → ℕ → ℕ
free_all refs [] = refs
free_all refs (b ∷ bs) = free_all (free refs b) bs

abbrev pub buffers : List Packet → List ℕ
buffers [] = []
buffers (p ∷ ps) = p.buffer ∷ buffers ps

-- The second reference of a fast-path packet, given to the ring or freed again.
abbrev pub enqueue : Ports → Engine → ℕ → Engine
enqueue d e b =
    let refs = acquire e.refs b in
    if d.enqueue_ok e.enqueues
    then record e { refs = refs; ring = e.ring ++ b ∷ []; enqueues = e.enqueues + 1 }
    else record e { refs = free refs b; enqueues = e.enqueues + 1 }

unfoldable pub forward_one : Ports → Engine → Packet → Engine
forward_one d e p = elim (classify p.frame) [
  | hft ↦ enqueue d e p.buffer
  | standard ↦ e
  | ignored ↦ e
]

-- The loop over a burst: the engine, and `kernel_tx_burst`.
unfoldable pub fan_out : Ports → Engine → List Packet → Engine × List ℕ
unfolding forward_one
fan_out d e [] = (e, [])
fan_out d e (p ∷ ps) =
    let (e', kernel_tx_burst) = fan_out d (forward_one d e p) ps in (e', p.buffer ∷ kernel_tx_burst)

-- To the kernel; what the port does not take is freed, and all of it if there is no such port.
unfoldable pub tx_virt : Ports → Engine → List ℕ → Engine
unfolding free_all
tx_virt d e bs =
    if ltb 0 (length bs)
    then if d.has_virt
      then (let nb_tx = d.tx_burst e.bursts (length bs) in
          record e {
            refs = free_all e.refs (drop nb_tx bs);
            virt_sent = e.virt_sent ++ take nb_tx bs;
            bursts = e.bursts + 1;
            tx_virt_total = u64 (e.tx_virt_total + nb_tx);
          })
      else record e { refs = free_all e.refs bs }
    else e

-- The packets that rte_eth_rx_burst hands over, each with one reference.
unfoldable pub ingress : Ports → Engine → List Packet → Engine
unfolding acquire_all fan_out tx_virt
ingress d e ps =
    let received = record e {
      refs = acquire_all e.refs (buffers ps);
      rx_phy_total = u64 (e.rx_phy_total + length ps);
    } in
    let (e', kernel_tx_burst) = fan_out d received ps in tx_virt d e' kernel_tx_burst

unfoldable pub egress : Ports → Engine → List Packet → Engine
unfolding acquire_all free_all
egress d e ps =
    if d.has_virt
    then (let received = record e {
      refs = acquire_all e.refs (buffers ps);
      rx_virt_total = u64 (e.rx_virt_total + length ps);
    } in
        if ltb 0 (length ps)
        then (let nb_tx = d.tx_burst e.bursts (length ps) in
            record received {
              refs = free_all received.refs (drop nb_tx (buffers ps));
              phy_sent = e.phy_sent ++ take nb_tx (buffers ps);
              bursts = e.bursts + 1;
              tx_phy_total = u64 (e.tx_phy_total + nb_tx);
            })
        else received)
    else e

-- The rounds of the loop until `force_quit`, each with the bursts that the two ports hand over.
unfoldable pub forward_loop : Ports → Engine → List (List Packet × List Packet) → Engine
unfolding ingress egress
forward_loop d e [] = e
forward_loop d e ((from_phy, from_virt) ∷ rounds) =
    forward_loop d (egress d (ingress d e from_phy) from_virt) rounds

-- The engine before the loop.
abbrev pub idle : Engine
idle = record {
  refs = λ i. 0;
  ring = [];
  virt_sent = [];
  phy_sent = [];
  enqueues = 0;
  bursts = 0;
  rx_phy_total = 0;
  tx_virt_total = 0;
  rx_virt_total = 0;
  tx_phy_total = 0;
}
