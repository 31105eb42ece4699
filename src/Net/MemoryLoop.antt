-- ===== src/Net/MemoryLoop.antt =====
-- The loop of sw/rv32/pingtest.c keeps the account of packets.
use zipversa.Base.{
  ℕ, suc, ◌+◌, ◌≡◌, refl, arith, Bool, Bool-cases, true, false, Option, none, some, inl, inr,
}
use zipversa.Base.{if◌then◌else◌, ltb, ◌==◌, not, ◌&&◌, ◌||◌}
use zipversa.Base.Bits.{u32, low_bits, shr}
use zipversa.Net.State.{Packet, Net}
use zipversa.Net.Packet.{new_pkt, rx_pkt}
use zipversa.Net.PingTest.{Program, Inputs, receive, net_rx, net_tx, tick, round}
use zipversa.Net.Memory.{held, IsBalanced, IsWaiting, new_pkt-Owns, tx_pkt-IsBalanced}
use zipversa.Net.MemoryRounds.{icmp_send_ping-IsBalanced, is_for_other, receive-IsBalanced}

-- A packet that waits is sent, or waits again.
net_tx_case :
    (n : ℕ) (w : Option Packet) (s : Net)
    → s.waiting_pkt ≡ w
    → s.mallocs ≡ s.frees + held w + n
    → IsWaiting w s.mallocs
    → IsBalanced n (net_tx s)
unfolding net_tx
net_tx_case n none s e c w = rw e (c, tt)
net_tx_case n (some p) s e c w = rw e (
    tx_pkt-IsBalanced n p _
      (record { once = w.0; apart = (w.1, tt); balanced = (omega (arith, c), tt) }))

net_tx-IsBalanced : (n : ℕ) (s : Net) → IsBalanced n s → IsBalanced n (net_tx s)
net_tx-IsBalanced n s (c, w) = net_tx_case n s.waiting_pkt s refl c w

either-IsBalanced :
    (n : ℕ) (c : Bool) (x y : Net)
    → IsBalanced n x
    → IsBalanced n y
    → IsBalanced n (if c then x else y)
either-IsBalanced n true x y bx by = bx
either-IsBalanced n false x y bx by = by

tick-IsBalanced : (n host : ℕ) (m : Program) → IsBalanced n m.net → IsBalanced n (tick host m).net
unfolding tick
tick-IsBalanced n host m b = either-IsBalanced n _ _ _ (icmp_send_ping-IsBalanced n host m.net b) b

-- A packet is received in this round, and is an IP packet for another address.
abbrev other_in : Option Packet → Net → Bool
other_in none s = false
other_in (some p) s = is_for_other p s

abbrev pub receives_other : Inputs → Net → Bool
receives_other i s =
    i.netrx && other_in (rx_pkt i.n_rxcmd i.netbrx s).0 (rx_pkt i.n_rxcmd i.netbrx s).1

-- What `rx_pkt` returns.
abbrev IsReceived : ℕ → Option Packet × Net → Type 0
IsReceived n (none, s) = IsBalanced n s
IsReceived n (some p, s) = (p.usage_count ≡ 1) × IsBalanced (suc n) s

rx_pkt-IsReceived :
    (n rxcmd : ℕ) (netbrx : ℕ → ℕ) (s : Net) → IsBalanced n s → IsReceived n (rx_pkt rxcmd netbrx s)
unfolding rx_pkt new_pkt
rx_pkt-IsReceived n rxcmd netbrx s b = elim (Bool-cases (low_bits (shr rxcmd 14) 1 == 0)) [
  | inl e ↦ rw e b
  | inr e ↦
      rw e
        (elim (Bool-cases (not (low_bits (shr rxcmd 15) 4 == 0) || ltb 2047 (low_bits rxcmd 14))) [
          | inl f ↦ rw f b
          | inr f ↦ rw f (refl, (new_pkt-Owns n 0 s b).balanced)
        ])
]

-- A round's packet, as `net_rx` handles it.
received_case :
    (n stray : ℕ) (r : Option Packet × Net)
    → IsReceived n r
    → IsBalanced
        (if other_in r.0 r.1 then suc n else n)
        (elim r.0 [ some p ↦ receive stray p r.1 | none ↦ r.1 ])
received_case n stray (none, s) b = b
received_case n stray (some p, s) (u, b) = receive-IsBalanced n stray p s u b

net_rx-IsBalanced :
    (n : ℕ) (i : Inputs) (s : Net)
    → IsBalanced n s
    → IsBalanced (if receives_other i s then suc n else n) (net_rx i s)
unfolding net_rx
net_rx-IsBalanced n i s b = elim (Bool-cases i.netrx) [
  | inl e ↦ rw e (received_case n i.stray _ (rx_pkt-IsReceived n i.n_rxcmd i.netbrx s b))
  | inr e ↦ rw e (either-IsBalanced n (low_bits (shr i.n_rxcmd 15) 4 == 0) _ _ b b)
]

-- The network stack after the timer's part of a round.
abbrev pub ticked : ℕ → Inputs → Program → Net
ticked host_ip i m =
    (if i.timer
      then tick host_ip (record m { heartbeats = u32 (m.heartbeats + 1) })
      else (record m { heartbeats = u32 (m.heartbeats + 1) })).net

ticked-IsBalanced :
    (n host_ip : ℕ) (i : Inputs) (m : Program)
    → IsBalanced n m.net
    → IsBalanced n (ticked host_ip i m)
ticked-IsBalanced n host_ip i m b = elim (Bool-cases i.timer) [
  | inl e ↦ rw e (tick-IsBalanced n host_ip (record m { heartbeats = u32 (m.heartbeats + 1) }) b)
  | inr e ↦ rw e b
]

-- When every packet that was made is freed, waiting, or one of `n` others, it is so after a round of
-- the loop, whatever the round finds, unless the round receives an IP packet for another address:
-- then there is one more that is neither freed nor waiting.
pub round-IsBalanced :
    (n host_ip : ℕ) (i : Inputs) (m : Program)
    → IsBalanced n m.net
    → IsBalanced
        (if receives_other i (ticked host_ip i m) then suc n else n)
        (round host_ip i m).net
unfolding round
round-IsBalanced n host_ip i m b =
    let s = ticked host_ip i m in
    let k = if receives_other i s then suc n else n in
    let r : IsBalanced k (net_rx i s) =
      net_rx-IsBalanced n i s (ticked-IsBalanced n host_ip i m b) in
    either-IsBalanced k i.nettx _ _ (net_tx-IsBalanced k (net_rx i s) r) r
