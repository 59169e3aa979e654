-- ===== src/Forwarding/References.antt =====
-- Reference counts in the forwarding loop: nothing leaks and nothing is freed twice.
use dpdk_cex_source.Base.{
  ℕ, ◌+◌, ◌-◌, ◌≡◌, refl, ap, ◌∙◌, if◌then◌else◌, ◌==◌, List, [], ◌∷◌, ◌++◌, length, take, drop,
  zero, suc, arith,
}
use dpdk_cex_source.Base.Bytes.{u64}
use dpdk_cex_source.Forwarding.{
  Packet, Ports, Engine, acquire, free, acquire_all, free_all, buffers, forward_one, fan_out,
  tx_virt, ingress, egress, forward_loop, idle,
}

-- How often a buffer stands in a list.
abbrev pub count : ℕ → List ℕ → ℕ
count i [] = 0
count i (b ∷ bs) = (if i == b then 1 else 0) + count i bs

count-append : (i : ℕ) (xs ys : List ℕ) → count i (xs ++ ys) ≡ count i xs + count i ys
count-append i [] ys = omega arith
count-append i (x ∷ xs) ys = ground (arith, count-append i xs ys)

count_split : (i n : ℕ) (xs : List ℕ) → count i (take n xs) + count i (drop n xs) ≡ count i xs
count_split i zero xs = ground arith
count_split i (suc n) [] = ground arith
count_split i (suc n) (x ∷ xs) = ground (arith, count_split i n xs)

acquire_all_count :
    (refs : ℕ → ℕ) (bs : List ℕ) (i : ℕ) → acquire_all refs bs i ≡ refs i + count i bs
unfolding acquire_all
acquire_all_count refs [] i = omega arith
acquire_all_count refs (b ∷ bs) i = ground (arith, acquire_all_count (acquire refs b) bs i)

free_all_count : (refs : ℕ → ℕ) (bs : List ℕ) (i : ℕ) → free_all refs bs i ≡ refs i - count i bs
unfolding free_all
free_all_count refs [] i = omega arith
free_all_count refs (b ∷ bs) i = ground (arith, free_all_count (free refs b) bs i)

-- The references of a buffer are those of the ring and the ports, and one for each time that it
-- waits in `ks`.
abbrev pub Owes : Engine → List ℕ → Type 0
Owes e ks =
    (i : ℕ) → e.refs i ≡ count i e.ring + count i e.virt_sent + count i e.phy_sent + count i ks

forward_one-Owes :
    (d : Ports) (e : Engine) (p : Packet) (ks : List ℕ) → Owes e ks → Owes (forward_one d e p) ks
unfolding forward_one
forward_one-Owes d e p ks h i = ground (arith, h i, count-append i e.ring (p.buffer ∷ []))

fan_out-Owes :
    (d : Ports) (e : Engine) (ps : List Packet) (ks : List ℕ)
    → Owes e ks
    → Owes (fan_out d e ps).0 ks
unfolding fan_out
fan_out-Owes d e [] ks h = h
fan_out-Owes d e (p ∷ ps) ks h =
    fan_out-Owes d (forward_one d e p) ps ks (forward_one-Owes d e p ks h)

pub fan_out_kernel : (d : Ports) (e : Engine) (ps : List Packet) → (fan_out d e ps).1 ≡ buffers ps
unfolding fan_out
fan_out_kernel d e [] = refl
fan_out_kernel d e (p ∷ ps) = ap (◌∷◌ p.buffer) (fan_out_kernel d (forward_one d e p) ps)

tx_virt-Owes : (d : Ports) (e : Engine) (bs : List ℕ) → Owes e bs → Owes (tx_virt d e bs) []
unfolding tx_virt
tx_virt-Owes d e [] h i = ground (arith, h i)
tx_virt-Owes d e (b ∷ bs) h i =
    let n = d.tx_burst e.bursts (length (b ∷ bs)) in
    ground (
      arith,
      h i,
      free_all_count e.refs (drop n (b ∷ bs)) i,
      free_all_count e.refs (b ∷ bs) i,
      count-append i e.virt_sent (take n (b ∷ bs)),
      count_split i n (b ∷ bs),
    )

received-Owes :
    (e : Engine) (bs : List ℕ) (n : ℕ)
    → Owes e []
    → Owes (record e { refs = acquire_all e.refs bs; rx_phy_total = n }) bs
received-Owes e bs n h i = ground (arith, h i, acquire_all_count e.refs bs i)

ingress-Owes : (d : Ports) (e : Engine) (ps : List Packet) → Owes e [] → Owes (ingress d e ps) []
unfolding ingress
ingress-Owes d e ps h =
    let received = record e {
      refs = acquire_all e.refs (buffers ps);
      rx_phy_total = u64 (e.rx_phy_total + length ps);
    } in
    rw (fan_out_kernel d received ps) (
      tx_virt-Owes d (fan_out d received ps).0 (buffers ps) (
        fan_out-Owes d received ps (buffers ps)
          (received-Owes e (buffers ps) received.rx_phy_total h)))

egress-Owes : (d : Ports) (e : Engine) (ps : List Packet) → Owes e [] → Owes (egress d e ps) []
unfolding egress
egress-Owes d e [] h i = ground (arith, h i, acquire_all_count e.refs [] i)
egress-Owes d e (p ∷ ps) h i =
    let bs = buffers (p ∷ ps) in
    let n = d.tx_burst e.bursts (length (p ∷ ps)) in
    ground (
      arith,
      h i,
      acquire_all_count e.refs bs i,
      free_all_count (acquire_all e.refs bs) (drop n bs) i,
      count-append i e.phy_sent (take n bs),
      count_split i n bs,
    )

loop-Owes :
    (d : Ports) (e : Engine) (rounds : List (List Packet × List Packet))
    → Owes e []
    → Owes (forward_loop d e rounds) []
unfolding forward_loop
loop-Owes d e [] h = h
loop-Owes d e ((from_phy, from_virt) ∷ rounds) h =
    loop-Owes d (egress d (ingress d e from_phy) from_virt) rounds
      (egress-Owes d (ingress d e from_phy) from_virt (ingress-Owes d e from_phy h))

-- Between two rounds of the loop, whatever packets came and whatever enqueues and transmit bursts
-- failed or took a part only, the reference count of every buffer is the number of times that the
-- ring and the two ports were given it: no reference leaks and none is given up twice.
pub forward_loop_refs :
    (d : Ports) (rounds : List (List Packet × List Packet)) (i : ℕ)
    → let e = forward_loop d idle rounds in
      e.refs i ≡ count i e.ring + count i e.virt_sent + count i e.phy_sent
forward_loop_refs d rounds i = loop-Owes d idle rounds (λ j. refl) i ∙ omega arith
