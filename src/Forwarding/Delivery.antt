-- ===== src/Forwarding/Delivery.antt =====
-- What the forwarding loop delivers.
use mathlib.Core.List.{append_assoc, append-nil}
use mathlib.Core.Path.{ap₂}
use dpdk_cex_source.Base.{
  ℕ, ◌+◌, ◌≡◌, refl, sym, ap, ◌∙◌, true, List, [], ◌∷◌, ◌++◌, length, take, zero, suc, arith,
}
use dpdk_cex_source.Base.Bytes.{u64}
use dpdk_cex_source.Classifier.{standard, hft, ignored, classify}
use dpdk_cex_source.Forwarding.{
  Packet, Ports, Engine, acquire_all, buffers, forward_one, fan_out, tx_virt, ingress,
}
use dpdk_cex_source.Forwarding.References.{fan_out_kernel}

-- The buffers of the packets that take the fast path.
unfoldable pub fast : List Packet → List ℕ
fast [] = []
fast (p ∷ ps) = elim (classify p.frame) [
  | hft ↦ p.buffer ∷ fast ps
  | standard ↦ fast ps
  | ignored ↦ fast ps
]

fan_out-keeps :
    (d : Ports) (e : Engine) (ps : List Packet)
    → ((fan_out d e ps).0.virt_sent ≡ e.virt_sent)
      × ((fan_out d e ps).0.phy_sent ≡ e.phy_sent)
      × ((fan_out d e ps).0.bursts ≡ e.bursts)
unfolding fan_out forward_one
fan_out-keeps d e [] = (refl, refl, refl)
fan_out-keeps d e (p ∷ ps) = ground (arith, fan_out-keeps d (forward_one d e p) ps)

fast-cons : (p : Packet) (ps : List Packet) → fast (p ∷ ps) ≡ fast (p ∷ []) ++ fast ps
unfolding fast
fast-cons p ps = ground arith

forward_one_ring :
    (d : Ports) (e : Engine) (p : Packet)
    → d.enqueue_ok e.enqueues ≡ true
    → (forward_one d e p).ring ≡ e.ring ++ fast (p ∷ [])
unfolding forward_one fast
forward_one_ring d e p ok = ground (arith, append-nil e.ring)

fan_out_ring :
    (d : Ports) (e : Engine) (ps : List Packet)
    → ((k : ℕ) → d.enqueue_ok k ≡ true)
    → (fan_out d e ps).0.ring ≡ e.ring ++ fast ps
unfolding fan_out fast
fan_out_ring d e [] ok = sym (append-nil e.ring)
fan_out_ring d e (p ∷ ps) ok =
    fan_out_ring d (forward_one d e p) ps ok
    ∙ ap (λ xs. xs ++ fast ps) (forward_one_ring d e p (ok e.enqueues))
    ∙ append_assoc e.ring (fast (p ∷ [])) (fast ps)
    ∙ ap (λ xs. e.ring ++ xs) (sym (fast-cons p ps))

length-buffers : (ps : List Packet) → length (buffers ps) ≡ length ps
length-buffers [] = refl
length-buffers (p ∷ ps) = ap suc (length-buffers ps)

take-nil : (n : ℕ) → take {A = ℕ} n [] ≡ []
take-nil zero = refl
take-nil (suc n) = refl

tx_virt_sent :
    (d : Ports) (e : Engine) (bs : List ℕ)
    → d.has_virt ≡ true
    → (tx_virt d e bs).virt_sent ≡ e.virt_sent ++ take (d.tx_burst e.bursts (length bs)) bs
unfolding tx_virt
tx_virt_sent d e [] v =
    sym (append-nil e.virt_sent)
    ∙ ap (λ xs. e.virt_sent ++ xs) (sym (take-nil (d.tx_burst e.bursts (length {A = ℕ} []))))
tx_virt_sent d e (b ∷ bs) v = ground arith

tx_virt_ring : (d : Ports) (e : Engine) (bs : List ℕ) → (tx_virt d e bs).ring ≡ e.ring
unfolding tx_virt
tx_virt_ring d e bs = ground arith

abbrev received : Engine → List Packet → Engine
received e ps = record e {
  refs = acquire_all e.refs (buffers ps);
  rx_phy_total = u64 (e.rx_phy_total + length ps);
}

-- A burst from the physical port is delivered in the order of its arrival: the kernel gets as many
-- of its packets as the transmit burst takes, and the ring gets exactly those of the fast path, if
-- there is a kernel port and the ring has room.
pub ingress_delivers :
    (d : Ports) (e : Engine) (ps : List Packet)
    → d.has_virt ≡ true
    → ((k : ℕ) → d.enqueue_ok k ≡ true)
    → ((ingress d e ps).virt_sent
        ≡ e.virt_sent ++ take (d.tx_burst e.bursts (length ps)) (buffers ps))
      × ((ingress d e ps).ring ≡ e.ring ++ fast ps)
unfolding ingress
ingress_delivers d e ps v ok =
    let (sent, phy, calls) = fan_out-keeps d (received e ps) ps in
    let out = (fan_out d (received e ps) ps).0 in
    rw (fan_out_kernel d (received e ps) ps) (
      tx_virt_sent d out (buffers ps) v
          ∙ ap₂ (λ xs n. xs ++ take n (buffers ps)) sent (ap₂ d.tx_burst calls (length-buffers ps)),
      tx_virt_ring d out (buffers ps) ∙ fan_out_ring d (received e ps) ps ok,
    )
