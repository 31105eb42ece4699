-- ===== src/Net/Ether.antt =====
-- Ethernet headers (sw/rv32/ethproto.c).
use zipversa.Base.{ℕ, ◌+◌, ◌*◌, ◌%◌, ◌^◌, List, [], ◌∷◌, bit_or}
use zipversa.Base.Bits.{shr, low_bits}
use zipversa.Net.State.{Packet, Net, skip, unskip, byte, set_bytes}
use zipversa.Net.Packet.{new_pkt, tx_pkt}

abbrev pub eth_headersize : ℕ
eth_headersize = 8

abbrev pub ethertype_ip : ℕ
ethertype_ip = 0x0800

abbrev pub ethertype_arp : ℕ
ethertype_arp = 0x0806

unfoldable pub new_ethpkt : ℕ → Net → Packet × Net
new_ethpkt ln s = let (p, s') = new_pkt (ln + 8) s in (skip 8 p, s')

-- The six bytes of a MAC address, and the two of a type.
abbrev pub mac_bytes : ℕ → List ℕ
mac_bytes mac =
    low_bits (shr mac 40) 8
    ∷ low_bits (shr mac 32) 8
    ∷ low_bits (shr mac 24) 8
    ∷ low_bits (shr mac 16) 8
    ∷ low_bits (shr mac 8) 8
    ∷ low_bits mac 8
    ∷ []

abbrev pub half_bytes : ℕ → List ℕ
half_bytes x = low_bits (shr x 8) 8 ∷ low_bits x 8 ∷ []

unfoldable pub set_header : ℕ → ℕ → Packet → Packet
set_header ethtype mac p =
    set_bytes 6 (half_bytes ethtype) (set_bytes 0 (mac_bytes mac) (unskip eth_headersize p))

unfoldable pub tx_ethpkt : Packet → ℕ → ℕ → Net → Net
tx_ethpkt p ethtype mac s = tx_pkt (set_header ethtype mac p) s

unfoldable pub rx_ethpkt : Packet → Packet
rx_ethpkt p = skip 8 p

-- `(b & 0x0ff) | (v << 8)` on a word of `w` bits.
abbrev pub join_byte : ℕ → ℕ → ℕ → ℕ
join_byte w v b = bit_or (v * 256 % 2 ^ w) b

-- The MAC address in the six bytes from `p_user[k]` on, and the word in four.
unfoldable pub mac_at : Packet → ℕ → ℕ
mac_at p k =
    let m1 = join_byte 64 (byte p k) (byte p (k + 1)) in
    let m2 = join_byte 64 m1 (byte p (k + 2)) in
    let m3 = join_byte 64 m2 (byte p (k + 3)) in
    let m4 = join_byte 64 m3 (byte p (k + 4)) in join_byte 64 m4 (byte p (k + 5))

unfoldable pub word_at : Packet → ℕ → ℕ
word_at p k =
    let w1 = join_byte 32 (byte p k) (byte p (k + 1)) in
    let w2 = join_byte 32 w1 (byte p (k + 2)) in join_byte 32 w2 (byte p (k + 3))

unfoldable pub half_at : Packet → ℕ → ℕ
half_at p k = bit_or (byte p k * 256) (byte p (k + 1))

unfoldable pub ethpkt_mac : Packet → ℕ
ethpkt_mac p = mac_at p 0

unfoldable pub ethpkt_ethtype : Packet → ℕ
ethpkt_ethtype p = half_at p 6
