-- ===== src/Net/PingTest.antt =====
-- The loop of sw/rv32/pingtest.c: one round, for what the interrupt controller and the network
-- interface say in it.
use zipversa.Base.{ℕ, ◌+◌, ◌-◌, ◌^◌, Bool, Option, none, some}
use zipversa.Base.{if◌then◌else◌, leb, ◌==◌, ◌&&◌}
use zipversa.Base.Bits.{u32, shr, low_bits}
use zipversa.Net.State.{Packet, Net, byte}
use zipversa.Net.Packet.{free_pkt, pkt_reset, rx_pkt, tx_pkt}
use zipversa.Net.Ether.{rx_ethpkt, ethpkt_ethtype, ethertype_ip, ethertype_arp}
use zipversa.Net.Arp.{rx_arp}
use zipversa.Net.Ip.{rx_ippkt, ippkt_src, ippkt_dst, ippkt_subproto}
use zipversa.Net.Message.{icmp_reply, icmp_send_ping, ipproto_icmp, icmp_ping}

-- The counters of `main`, and the network stack.
pub record Program : Type 0 where
  pub heartbeats : ℕ
  pub now : ℕ
  pub lastping : ℕ
  pub lasthello : ℕ
  pub net : Net

-- What a round finds: `pic & BUSPIC_TIMER`, `pic & BUSPIC_NETRX` and `pic & BUSPIC_NETTX`, the
-- receive register, the memory received into, and the index that arp.c leaves without a value.
pub record Inputs : Type 0 where
  pub timer : Bool
  pub netrx : Bool
  pub nettx : Bool
  pub n_rxcmd : ℕ
  pub netbrx : ℕ → ℕ
  pub stray : ℕ

-- A message for this board.
unfoldable pub rx_message : ℕ → ℕ → Packet → Net → Packet × Net
rx_message subproto ipsrc p s =
    if subproto == ipproto_icmp
    then free_pkt p (if byte p 0 == icmp_ping then icmp_reply ipsrc p s else s)
    else free_pkt (pkt_reset p) s

-- A packet by its type. `stray` is the index that `arp_table_add` starts from.
unfoldable pub dispatch : ℕ → Packet → Net → Packet × Net
dispatch stray p s =
    let inner = rx_ethpkt p in
    if ethpkt_ethtype p == ethertype_arp
    then rx_arp stray inner s
    else if ethpkt_ethtype p == ethertype_ip
    then if ippkt_dst inner == s.my_ip_addr
      then rx_message (ippkt_subproto inner) (ippkt_src inner) (rx_ippkt inner) s
      else (rx_ippkt inner, s)
    else free_pkt (pkt_reset p) s

-- A received packet. It is held once more while it is looked at.
unfoldable pub receive : ℕ → Packet → Net → Net
receive stray p s =
    let (p', s') = dispatch stray (record p { usage_count = p.usage_count + 1 }) s in
    (free_pkt p' s').1

unfoldable pub net_rx : Inputs → Net → Net
net_rx i s =
    let (rcvd, s1) = rx_pkt i.n_rxcmd i.netbrx s in
    let errors = low_bits (shr i.n_rxcmd 15) 4 in
    if i.netrx
    then elim rcvd [ some p ↦ receive i.stray p s1 | none ↦ s1 ]
    else if errors == 0
    then s
    else record s { rx_clears = s.rx_clears + 1 }

-- The packet that waits is sent again.
unfoldable pub net_tx : Net → Net
net_tx s = elim s.waiting_pkt [ some p ↦ tx_pkt p (record s { waiting_pkt = none }) | none ↦ s ]

abbrev pub no_packet : Option Packet → Bool
no_packet none = Bool.true
no_packet (some p) = Bool.false

-- A tick: a ping after twenty of them, unless a packet waits, and a greeting after 3000.
unfoldable pub tick : ℕ → Program → Program
tick host_ip m =
    let now = u32 (m.now + 1) in
    let due = leb 20 (u32 (now + 2 ^ 32 - m.lastping)) && no_packet m.net.waiting_pkt in
    let hello = leb 3000 (u32 (now + 2 ^ 32 - m.lasthello)) in
    record m {
      now = now;
      lastping = if due then now else m.lastping;
      lasthello = if hello then now else m.lasthello;
      net = if due then icmp_send_ping host_ip m.net else m.net;
    }

unfoldable pub round : ℕ → Inputs → Program → Program
round host_ip i m =
    let m1 = record m { heartbeats = u32 (m.heartbeats + 1) } in
    let m2 = if i.timer then tick host_ip m1 else m1 in
    let net = net_rx i m2.net in record m2 { net = if i.nettx then net_tx net else net }
