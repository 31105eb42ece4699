-- ===== src/Net/Ip.antt =====
-- IP headers (sw/rv32/ipproto.c).
use zipversa.Base.{ℕ, ◌+◌, ◌*◌, ◌^◌, none, some, List, [], ◌∷◌, ◌++◌}
use zipversa.Base.{if◌then◌else◌, ltb, leb, ◌||◌}
use zipversa.Base.Bits.{u32, low_bits}
use zipversa.Net.State.{Packet, Net, skip, unskip, byte, set_bytes}
use zipversa.Net.Packet.{free_pkt}
use zipversa.Net.Ether.{new_ethpkt, tx_ethpkt, half_bytes, word_at, ethertype_ip}
use zipversa.Net.Checksum.{ipcksum}
use zipversa.Net.Arp.{arp_lookup, ip_bytes}

abbrev pub ip_headersize : ℕ
ip_headersize = 20

abbrev pub big_prime : ℕ
big_prime = 0x0134513b

unfoldable pub new_ippkt : ℕ → Net → Packet × Net
new_ippkt ln s = let (p, s') = new_ethpkt (ln + 20) s in (skip 20 p, s')

-- The twenty bytes of the header, with no checksum.
unfoldable pub header : ℕ → ℕ → ℕ → ℕ → ℕ → List ℕ
header len pktid subproto src dest =
    (0x45 ∷ 0x00 ∷ half_bytes len)
    ++ (half_bytes pktid ++ (0x00 ∷ 0x00 ∷ 0x80 ∷ subproto ∷ 0x00 ∷ 0x00 ∷ []))
    ++ (ip_bytes src ++ ip_bytes dest)

unfoldable pub ip_set : Packet → ℕ → ℕ → ℕ → Net → Packet × Net
ip_set p subproto src dest s =
    let pktid = u32 (s.ip_pktid + big_prime) in
    let p1 = set_bytes 0 (header p.length pktid subproto src dest) p in
    (set_bytes 10 (half_bytes (ipcksum ip_headersize (byte p1))) p1, record s { ip_pktid = pktid })

-- `p_user - p_raw < 20+8` compares as signed.
unfoldable pub tx_ippkt : Packet → ℕ → ℕ → ℕ → Net → Net
tx_ippkt p subproto src dest s =
    let (p1, s1) = ip_set (unskip ip_headersize p) subproto src dest s in
    let (found, s2) = arp_lookup dest s1 in
    if ltb p.user (20 + 8) || leb (2 ^ 31) p.user
    then record ((free_pkt p s).1) { gpio = 0x0100010 }
    else elim found [ some mac ↦ tx_ethpkt p1 ethertype_ip mac s2 | none ↦ (free_pkt p1 s2).1 ]

unfoldable pub rx_ippkt : Packet → Packet
rx_ippkt p = skip (low_bits (byte p 0) 4 * 4) p

unfoldable pub ippkt_src : Packet → ℕ
ippkt_src p = word_at p 12

unfoldable pub ippkt_dst : Packet → ℕ
ippkt_dst p = word_at p 16

unfoldable pub ippkt_subproto : Packet → ℕ
ippkt_subproto p = byte p 9
