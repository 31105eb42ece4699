-- ===== src/Net/MemorySends.antt =====
-- The senders of the network stack of sw/rv32 keep the account of packets: ethproto.c, arp.c,
-- ipproto.c and icmp.c.
use zipversa.Base.{
  ℕ, suc, ◌+◌, ◌^◌, ◌≡◌, ◌≢◌, arith, Bool, Bool-cases, true, false, Option, none, some, inl, inr,
}
use zipversa.Base.{if◌then◌else◌, ltb, leb, ◌==◌, not, ◌&&◌, ◌||◌, ap, sym, ◌∙◌, List}
use zipversa.Net.State.{Packet, Net, set_bytes, skip, unskip}
use zipversa.Net.Packet.{new_pkt, free_pkt}
use zipversa.Net.Ether.{ethertype_ip, new_ethpkt, tx_ethpkt, set_header}
use zipversa.Net.Arp.{
  scan, is_remote, arp_lookup, send_arp_request, send_arp_reply, add_entry, enter, log_entry,
  arp_table_add,
}
use zipversa.Net.Ip.{new_ippkt, ip_set, tx_ippkt}
use zipversa.Net.Memory.{
  IsBalanced, IsApart, Owns, new_pkt-Owns, free_pkt-IsBalanced, tx_pkt-IsBalanced, tx_pkt-IsApart,
  set_bytes-Owns, held-set_bytes,
}

-- A sender that takes no packet keeps the account, and the other packets apart.
pub record Keeps (f : Net → Net) : Type 0 where
  pub balance : (n : ℕ) (s : Net) → IsBalanced n s → IsBalanced n (f s)
  pub others : (a : ℕ) (s : Net) → IsApart a s → IsApart a (f s)

skip-Owns : (n k : ℕ) (p : Packet) (s : Net) → Owns n p s → Owns n (skip k p) s
skip-Owns n k p s o = record { once = o.once; apart = o.apart; balanced = o.balanced }

unskip-Owns : (n k : ℕ) (p : Packet) (s : Net) → Owns n p s → Owns n (unskip k p) s
unskip-Owns n k p s o = record { once = o.once; apart = o.apart; balanced = o.balanced }

new_ethpkt-Owns :
    (n ln : ℕ) (s : Net) → IsBalanced n s → Owns n (new_ethpkt ln s).0 (new_ethpkt ln s).1
unfolding new_ethpkt
new_ethpkt-Owns n ln s b = skip-Owns n 8 _ _ (new_pkt-Owns n (ln + 8) s b)

pub new_ippkt-Owns :
    (n ln : ℕ) (s : Net) → IsBalanced n s → Owns n (new_ippkt ln s).0 (new_ippkt ln s).1
unfolding new_ippkt
new_ippkt-Owns n ln s b = skip-Owns n 20 _ _ (new_ethpkt-Owns n (ln + 20) s b)

set_header-Owns :
    (n ethtype mac : ℕ) (p : Packet) (s : Net) → Owns n p s → Owns n (set_header ethtype mac p) s
unfolding set_header
set_header-Owns n ethtype mac p s o =
    set_bytes-Owns n 6 _ _ s (set_bytes-Owns n 0 _ _ s (unskip-Owns n 8 p s o))

address-set_header : (ethtype mac : ℕ) (p : Packet) → (set_header ethtype mac p).address ≡ p.address
unfolding set_header
address-set_header ethtype mac p =
    ap (λ (q : ℕ × ℕ). q.1) (held-set_bytes 6 _ (set_bytes 0 _ (unskip 8 p)))
    ∙ ap (λ (q : ℕ × ℕ). q.1) (held-set_bytes 0 _ (unskip 8 p))

tx_ethpkt-IsBalanced :
    (n ethtype mac : ℕ) (p : Packet) (s : Net)
    → Owns n p s
    → IsBalanced n (tx_ethpkt p ethtype mac s)
unfolding tx_ethpkt
tx_ethpkt-IsBalanced n ethtype mac p s o =
    tx_pkt-IsBalanced n _ s (set_header-Owns n ethtype mac p s o)

tx_ethpkt-IsApart :
    (a ethtype mac : ℕ) (p : Packet) (s : Net)
    → p.address ≢ a
    → IsApart a s
    → IsApart a (tx_ethpkt p ethtype mac s)
unfolding tx_ethpkt
tx_ethpkt-IsApart a ethtype mac p s ne apart =
    tx_pkt-IsApart a _ s (λ e. ne (sym (address-set_header ethtype mac p) ∙ e)) apart

address-set_bytes : (k : ℕ) (vs : List ℕ) (p : Packet) → (set_bytes k vs p).address ≡ p.address
address-set_bytes k vs p = ap (λ (q : ℕ × ℕ). q.1) (held-set_bytes k vs p)

-- A packet is fresh when it was made by the last call.
new_ethpkt-fresh :
    (a ln : ℕ) (s : Net)
    → IsApart a s
    → ((new_ethpkt ln s).0.address ≢ a) × IsApart a (new_ethpkt ln s).1
unfolding new_ethpkt new_pkt
new_ethpkt-fresh a ln s (lt, apart) = (λ e. omega (arith, e, lt), (omega (arith, lt), apart))

new_ippkt-fresh :
    (a ln : ℕ) (s : Net)
    → IsApart a s
    → ((new_ippkt ln s).0.address ≢ a) × IsApart a (new_ippkt ln s).1
unfolding new_ippkt
new_ippkt-fresh a ln s h = new_ethpkt-fresh a (ln + 20) s h

pub send_arp_request-Keeps : (ipaddr : ℕ) → Keeps (send_arp_request ipaddr)
unfolding send_arp_request set_bytes
send_arp_request-Keeps ipaddr = record {
  balance = λ n s b.
      let o = new_ethpkt-Owns n 28 s b in
      tx_ethpkt-IsBalanced n _ _ _ _
        (record { once = o.once; apart = o.apart; balanced = o.balanced });
  others =
      λ a s apart. let f = new_ethpkt-fresh a 28 s apart in tx_ethpkt-IsApart a _ _ _ _ f.0 f.1;
}

pub send_arp_reply-Keeps : (mac ipaddr : ℕ) → Keeps (send_arp_reply mac ipaddr)
unfolding send_arp_reply set_bytes
send_arp_reply-Keeps mac ipaddr = record {
  balance = λ n s b.
      let o = new_ethpkt-Owns n 28 s b in
      tx_ethpkt-IsBalanced n _ _ _ _
        (record { once = o.once; apart = o.apart; balanced = o.balanced });
  others =
      λ a s apart. let f = new_ethpkt-fresh a 28 s apart in tx_ethpkt-IsApart a _ _ _ _ f.0 f.1;
}

-- A lookup leaves the state as it is, or ages the table, or sends a request also.
lookup_pick :
    (P : Net → Type 0) (b : Bool) (m : Option ℕ) (r : ℕ) (x y z : Net)
    → P x
    → P y
    → P z
    → (λ (q : Option ℕ × Net). P q.1)
        (if b then (some r, x) else elim m [ some mac ↦ (some mac, y) | none ↦ (none, z) ])
lookup_pick P true m r x y z px py pz = px
lookup_pick P false (some mac) r x y z px py pz = py
lookup_pick P false none r x y z px py pz = pz

lookup_one :
    (P : Net → Type 0) (ipaddr : ℕ) (s : Net)
    → P s
    → P (record s { arp_table = (scan ipaddr 0 s.arp_table).1 })
    → P (send_arp_request ipaddr (record s { arp_table = (scan ipaddr 0 s.arp_table).1 }))
    → P (arp_lookup ipaddr s).1
unfolding arp_lookup
lookup_one P ipaddr s px py pz =
    lookup_pick P ((is_remote ipaddr s || ipaddr == s.my_ip_router) && not (s.router_mac_addr == 0))
      (scan ipaddr 0 s.arp_table).0 s.router_mac_addr s _ _ px py pz

pub arp_lookup-Keeps : (ipaddr : ℕ) → Keeps (λ s. (arp_lookup ipaddr s).1)
arp_lookup-Keeps ipaddr =
    let k = send_arp_request-Keeps ipaddr in
    record {
      balance = λ n s b.
          lookup_one (IsBalanced n) ipaddr s b b
            (k.balance n (record s { arp_table = (scan ipaddr 0 s.arp_table).1 }) b);
      others = λ a s apart.
          lookup_one (IsApart a) ipaddr s apart apart
            (k.others a (record s { arp_table = (scan ipaddr 0 s.arp_table).1 }) apart);
    }

enter-balance :
    (stray ipaddr mac n : ℕ) (r : Option ℕ × Net)
    → IsBalanced n r.1
    → IsBalanced n (enter stray ipaddr mac r)
unfolding enter add_entry
enter-balance stray ipaddr mac n (none, s) b = b
enter-balance stray ipaddr mac n (some m, s) b = elim (Bool-cases (mac == m)) [
  | inl e ↦ rw e b
  | inr e ↦ rw e b
]

pub arp_table_add-IsBalanced :
    (stray ipaddr mac n : ℕ) (s : Net)
    → IsBalanced n s
    → IsBalanced n (arp_table_add stray ipaddr mac s)
unfolding arp_table_add log_entry
arp_table_add-IsBalanced stray ipaddr mac n s b = elim (Bool-cases (ipaddr == s.my_ip_addr)) [
  | inl e ↦ rw e b
  | inr e ↦ rw e (elim (Bool-cases (ipaddr == s.my_ip_router)) [
    | inl f ↦ rw f b
    | inr f ↦ rw f (enter-balance stray ipaddr mac n _ ((arp_lookup-Keeps ipaddr).balance n _ b))
  ])
]

-- What `tx_ippkt` does with the packet after the lookup.
found_pick :
    (n : ℕ) (m : Option ℕ) (p : Packet) (s : Net)
    → Owns n p s
    → IsBalanced n (elim m [ some mac ↦ tx_ethpkt p ethertype_ip mac s | none ↦ (free_pkt p s).1 ])
found_pick n (some mac) p s o = tx_ethpkt-IsBalanced n ethertype_ip mac p s o
found_pick n none p s o = free_pkt-IsBalanced n p s o

ip_set-Owns :
    (n subproto src dest : ℕ) (p : Packet) (s : Net)
    → Owns n p s
    → Owns n (ip_set p subproto src dest s).0 (ip_set p subproto src dest s).1
unfolding ip_set
ip_set-Owns n subproto src dest p s o =
    let o' = set_bytes-Owns n 10 _ _ s (set_bytes-Owns n 0 _ p s o) in
    record { once = o'.once; apart = o'.apart; balanced = o'.balanced }

-- A packet is sent, or kept to be sent, or freed.
pub tx_ippkt-IsBalanced :
    (n subproto src dest : ℕ) (p : Packet) (s : Net)
    → Owns n p s
    → IsBalanced n (tx_ippkt p subproto src dest s)
unfolding tx_ippkt
tx_ippkt-IsBalanced n subproto src dest p s o =
    elim (Bool-cases (ltb p.user (20 + 8) || leb (2 ^ 31) p.user)) [
      | inl e ↦ rw e (free_pkt-IsBalanced n p s o)
      | inr e ↦
          let o1 = ip_set-Owns n subproto src dest (unskip 20 p) s (unskip-Owns n 20 p s o) in
          let k = arp_lookup-Keeps dest in
          rw e (
            found_pick n _ _ _ (record {
              once = o1.once;
              apart = k.others _ _ o1.apart;
              balanced = k.balance (suc n) _ o1.balanced;
            }))
    ]
