-- ===== src/Net/Message.antt =====
-- Ping messages (sw/rv32/icmp.c) and UDP headers (udpproto.c).
use zipversa.Base.{ℕ, ◌+◌, ◌-◌, ◌*◌, ◌^◌, [], ◌∷◌, ◌++◌}
use zipversa.Base.{if◌then◌else◌, ltb, leb, ◌==◌, not, ◌||◌}
use zipversa.Base.Bits.{u32}
use zipversa.Net.State.{Packet, Net, unskip, byte, bytes, set_bytes}
use zipversa.Net.Ether.{half_bytes, half_at}
use zipversa.Net.Checksum.{ipcksum}
use zipversa.Net.Arp.{ip_bytes}
use zipversa.Net.Ip.{new_ippkt, tx_ippkt, big_prime}

abbrev pub ipproto_icmp : ℕ
ipproto_icmp = 1

abbrev pub ipproto_udp : ℕ
ipproto_udp = 17

abbrev pub icmp_echoreply : ℕ
icmp_echoreply = 0

abbrev pub icmp_ping : ℕ
icmp_ping = 8

unfoldable pub new_icmp : ℕ → Net → Packet × Net
new_icmp ln s = new_ippkt ln s

-- `if (pktln < 8) pktln = 8;` on an `int`
abbrev pub at_least_8 : ℕ → ℕ
at_least_8 n = if ltb n 8 || leb (2 ^ 31) n then 8 else n

-- The checksum of a message goes to its bytes 2 and 3.
abbrev pub set_cksum : ℕ → Packet → Packet
set_cksum len p = set_bytes 2 (half_bytes (ipcksum len (byte p))) p

-- The reply in memory: the request's bytes, with a type, a code and a checksum.
unfoldable pub echo : ℕ → Packet → Packet → Packet
echo pktln request p =
    let p1 =
      set_bytes 0 (icmp_echoreply ∷ 0 ∷ 0 ∷ 0 ∷ []) (set_bytes 0 (bytes request 0 pktln) p) in
    set_cksum p1.length p1

unfoldable pub icmp_reply : ℕ → Packet → Net → Net
icmp_reply ipaddr request s =
    let pktln = at_least_8 request.length in
    let (p, s1) = new_icmp pktln s in
    if not (byte request 0 == icmp_ping)
    then s
    else if leb 1024 pktln
    then s
    else tx_ippkt (echo pktln request p) ipproto_icmp s1.my_ip_addr ipaddr s1

unfoldable pub icmp_send_ping : ℕ → Net → Net
icmp_send_ping ping_ip_addr s =
    let (p, s1) = new_icmp 8 s in
    let id = u32 (s1.icmppkt_id + big_prime + u32 (big_prime * 4)) in
    let p1 = set_bytes 4 (ip_bytes id) (set_bytes 0 (icmp_ping ∷ 0x00 ∷ 0x00 ∷ 0x00 ∷ []) p) in
    let p2 = set_cksum 8 p1 in
    tx_ippkt (record p2 { length = 8 }) ipproto_icmp s1.my_ip_addr ping_ip_addr
      (record s1 { icmppkt_id = id })

abbrev pub udp_headersize : ℕ
udp_headersize = 8

-- The packet is made, but the source returns nothing.
unfoldable pub new_udppkt : ℕ → Net → Net
new_udppkt len s = (new_ippkt (len + udp_headersize) s).1

unfoldable pub tx_udp : Packet → ℕ → ℕ → ℕ → Net → Net
tx_udp p dest sport dport s =
    let p1 = unskip udp_headersize p in
    let p2 =
      set_bytes 0 (half_bytes sport ++ half_bytes dport ++ half_bytes p1.length ++ 0 ∷ 0 ∷ []) p1 in
    tx_ippkt p2 ipproto_udp s.my_ip_addr dest s

unfoldable pub rx_udp : Packet → Packet
rx_udp p =
    let ln = half_at p 4 in
    let user = u32 (p.user + udp_headersize) in
    if leb ln 8
    then record p { user = user; length = 0 }
    else if ltb ln p.length
    then record p { user = user; length = ln - udp_headersize }
    else record p { user = user; length = u32 (p.length + 2 ^ 32 - udp_headersize) }

unfoldable pub udp_sport : Packet → ℕ
udp_sport p = half_at p 0

unfoldable pub udp_dport : Packet → ℕ
udp_dport p = half_at p 2
