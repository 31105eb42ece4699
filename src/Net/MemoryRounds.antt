-- ===== src/Net/MemoryRounds.antt =====
-- The rounds of sw/rv32/pingtest.c and the account of packets.
use zipversa.Base.{ℕ, suc, ◌+◌, ◌-◌, ◌≡◌, refl, arith, Bool, Bool-cases, true, false, inl, inr}
use zipversa.Base.{if◌then◌else◌, leb, ◌==◌, not, ◌&&◌, sym}
use mathlib.Core.Path.{subst}
use zipversa.Net.State.{Packet, Net, byte}
use zipversa.Net.Packet.{free_pkt, pkt_reset}
use zipversa.Net.Ether.{half_at, word_at, rx_ethpkt, ethpkt_ethtype, ethertype_ip, ethertype_arp}
use zipversa.Net.Arp.{rx_arp, is_arp_header, arp_request, arp_reply}
use zipversa.Net.Ip.{rx_ippkt, ippkt_dst}
use zipversa.Net.Message.{
  icmp_reply, icmp_send_ping, new_icmp, echo, at_least_8, ipproto_icmp, icmp_ping,
}
use zipversa.Net.PingTest.{rx_message, dispatch, receive}
use zipversa.Net.Memory.{IsBalanced, Owns, set_bytes-Owns}
use zipversa.Net.MemorySends.{
  new_ippkt-Owns, send_arp_reply-Keeps, arp_table_add-IsBalanced, tx_ippkt-IsBalanced,
}

echo-Owns : (n pktln : ℕ) (q p : Packet) (s : Net) → Owns n p s → Owns n (echo pktln q p) s
unfolding echo
echo-Owns n pktln q p s o =
    set_bytes-Owns n 2 _ _ s (set_bytes-Owns n 0 _ _ s (set_bytes-Owns n 0 _ p s o))

-- A reply keeps the account.
pub icmp_reply-IsBalanced :
    (n ipaddr : ℕ) (q : Packet) (s : Net) → IsBalanced n s → IsBalanced n (icmp_reply ipaddr q s)
unfolding icmp_reply new_icmp
icmp_reply-IsBalanced n ipaddr q s b = elim (Bool-cases (byte q 0 == icmp_ping)) [
  | inr e ↦ rw e b
  | inl e ↦ rw e (elim (Bool-cases (leb 1024 (at_least_8 q.length))) [
    | inl f ↦ rw f b
    | inr f ↦ rw f (tx_ippkt-IsBalanced n _ _ _ _ _ (echo-Owns n _ q _ _ (new_ippkt-Owns n _ s b)))
  ])
]

pub icmp_send_ping-IsBalanced :
    (n ipaddr : ℕ) (s : Net) → IsBalanced n s → IsBalanced n (icmp_send_ping ipaddr s)
unfolding icmp_send_ping new_icmp
icmp_send_ping-IsBalanced n ipaddr s b =
    let o = new_ippkt-Owns n 8 s b in
    let o' = set_bytes-Owns n 2 _ _ _ (set_bytes-Owns n 4 _ _ _ (set_bytes-Owns n 0 _ _ _ o)) in
    tx_ippkt-IsBalanced n _ _ _ _ _
      (record { once = o'.once; apart = o'.apart; balanced = o'.balanced })

-- A packet held twice is held once after `free_pkt`, and is not freed.
free_held :
    (p : Packet) (s : Net)
    → p.usage_count ≡ 2
    → ((free_pkt p s).0.usage_count ≡ 1) × ((free_pkt p s).1 ≡ s)
unfolding free_pkt
free_held p s e =
    let z : (p.usage_count - 1 == 0) ≡ false = ground (arith, e) in (omega arith, rw z refl)

free_last :
    (n : ℕ) (p : Packet) (s : Net)
    → p.usage_count ≡ 1
    → IsBalanced (suc n) s
    → IsBalanced n (free_pkt p s).1
unfolding free_pkt
free_last n p s e b =
    let z : (p.usage_count - 1 == 0) ≡ true = ground (arith, e) in rw z (omega (arith, b.0), b.1)

-- A packet held so often, and the account.
abbrev IsHeld : ℕ → ℕ → Packet × Net → Type 0
IsHeld n k r = (r.0.usage_count ≡ k) × IsBalanced n r.1

free-IsHeld :
    (n : ℕ) (p : Packet) (s : Net) → p.usage_count ≡ 2 → IsBalanced n s → IsHeld n 1 (free_pkt p s)
free-IsHeld n p s e b = ((free_held p s e).0, subst (IsBalanced n) (sym (free_held p s e).1) b)

rx_arp-IsHeld :
    (n stray : ℕ) (p : Packet) (s : Net)
    → p.usage_count ≡ 2
    → IsBalanced n s
    → IsHeld n 1 (rx_arp stray p s)
unfolding rx_arp
rx_arp-IsHeld n stray p s e b = elim (Bool-cases (is_arp_header p)) [
  | inr f ↦ rw f (free-IsHeld n _ s e b)
  | inl f ↦ rw f (elim (Bool-cases (byte p 7 == arp_request)) [
    | inl g ↦ rw g (free-IsHeld n p _ e ((send_arp_reply-Keeps _ _).balance n s b))
    | inr g ↦ rw g (elim (Bool-cases (byte p 7 == arp_reply)) [
      | inl h ↦ rw h (free-IsHeld n p _ e (arp_table_add-IsBalanced stray _ _ n s b))
      | inr h ↦ rw h (free-IsHeld n p s e b)
    ])
  ])
]

rx_message-IsHeld :
    (n subproto ipsrc : ℕ) (p : Packet) (s : Net)
    → p.usage_count ≡ 2
    → IsBalanced n s
    → IsHeld n 1 (rx_message subproto ipsrc p s)
unfolding rx_message pkt_reset
rx_message-IsHeld n subproto ipsrc p s e b = elim (Bool-cases (subproto == ipproto_icmp)) [
  | inr f ↦ rw f (free-IsHeld n _ s e b)
  | inl f ↦ rw f (elim (Bool-cases (byte p 0 == icmp_ping)) [
    | inl g ↦ rw g (free-IsHeld n p _ e (icmp_reply-IsBalanced n ipsrc p s b))
    | inr g ↦ rw g (free-IsHeld n p s e b)
  ])
]

-- An IP packet for another address than the board's.
abbrev pub is_for_other : Packet → Net → Bool
is_for_other p s = ethpkt_ethtype p == ethertype_ip && not (ippkt_dst (rx_ethpkt p) == s.my_ip_addr)

dispatch-IsHeld :
    (n stray : ℕ) (p : Packet) (s : Net)
    → p.usage_count ≡ 2
    → IsBalanced n s
    → IsHeld n (if is_for_other p s then 2 else 1) (dispatch stray p s)
unfolding dispatch pkt_reset rx_ippkt rx_ethpkt
dispatch-IsHeld n stray p s e b = elim (Bool-cases (ethpkt_ethtype p == ethertype_arp)) [
  | inl f ↦
      let not_ip : (ethpkt_ethtype p == ethertype_ip) ≡ false = ground (arith, f) in
      rw (f, not_ip) (rx_arp-IsHeld n stray _ s e b)
  | inr f ↦ rw f (elim (Bool-cases (ethpkt_ethtype p == ethertype_ip)) [
    | inr g ↦ rw g (free-IsHeld n _ s e b)
    | inl g ↦ rw g (elim (Bool-cases (ippkt_dst (rx_ethpkt p) == s.my_ip_addr)) [
      | inl h ↦ rw h (rx_message-IsHeld n _ _ _ s e b)
      | inr h ↦ rw h (e, b)
    ])
  ])
]

receive_end :
    (n : ℕ) (other : Bool) (r : Packet × Net)
    → IsHeld (suc n) (if other then 2 else 1) r
    → IsBalanced (if other then suc n else n) (free_pkt r.0 r.1).1
receive_end n true (p, s) (u, b) = subst (IsBalanced (suc n)) (sym (free_held p s u).1) b
receive_end n false (p, s) (u, b) = free_last n p s u b

is_for_other_count :
    (k : ℕ) (p : Packet) (s : Net)
    → is_for_other (record p { usage_count = k }) s ≡ is_for_other p s
unfolding ethpkt_ethtype ippkt_dst rx_ethpkt half_at word_at
is_for_other_count k p s = refl

-- When every packet that was made is freed, waiting, the one received, or one of `n` others: after the
-- packet is handled, replies included, it is so of the `n` others alone, unless it was an IP packet
-- for another address. Such a packet is never freed.
pub receive-IsBalanced :
    (n stray : ℕ) (p : Packet) (s : Net)
    → p.usage_count ≡ 1
    → IsBalanced (suc n) s
    → IsBalanced (if is_for_other p s then suc n else n) (receive stray p s)
unfolding receive
receive-IsBalanced n stray p s u b =
    let p2 : Packet = record p { usage_count = p.usage_count + 1 } in
    subst (λ (c : Bool). IsBalanced (if c then suc n else n) (receive stray p s))
      (is_for_other_count (p.usage_count + 1) p s)
      (receive_end n (is_for_other p2 s) (dispatch stray p2 s)
        (dispatch-IsHeld (suc n) stray p2 s (omega arith) b))
