-- ===== src/Net/Arp.antt =====
-- The address table and the requests and replies of ARP (sw/rv32/arp.c).
use zipversa.Base.{ℕ, ◌+◌, ◌%◌, ◌^◌, Bool, true, false, Option, none, some}
use zipversa.Base.{
  if◌then◌else◌, ltb, leb, ◌==◌, ◌&&◌, ◌||◌, not, List, [], ◌∷◌, set, get_or, map, bit_and,
  replicate,
}
use zipversa.Base.Bits.{u32, shr, low_bits}
use zipversa.Net.State.{Packet, ArpEntry, Net, byte, set_byte, set_bytes}
use zipversa.Net.Packet.{free_pkt}
use zipversa.Net.Ether.{new_ethpkt, tx_ethpkt, mac_bytes, mac_at, word_at, ethertype_arp}

abbrev pub arp_request : ℕ
arp_request = 1

abbrev pub arp_reply : ℕ
arp_reply = 2

unfoldable pub init_arp_table : Net → Net
init_arp_table s = record s {
  arp_table = map {A = ArpEntry} {B = ArpEntry} (λ e. record e { valid = false }) s.arp_table;
}

-- The loop of `get_next_arp_index`, at entry `eid`.
unfoldable pub next_index : ℕ → ℕ → ℕ → List ArpEntry → ℕ
next_index eid eldest oldage [] = eldest
next_index eid eldest oldage (e ∷ es) =
    let older = next_index (eid + 1) eid e.age es in
    let rest = next_index (eid + 1) eldest oldage es in
    if not e.valid then eid else if ltb oldage e.age then older else rest

unfoldable pub get_next_arp_index : Net → ℕ
get_next_arp_index s = next_index 0 0 0 s.arp_table

-- The four bytes of an IP address.
abbrev pub ip_bytes : ℕ → List ℕ
ip_bytes a =
    low_bits (shr a 24) 8 ∷ low_bits (shr a 16) 8 ∷ low_bits (shr a 8) 8 ∷ low_bits a 8 ∷ []

-- `arp_packet`
abbrev pub arp_packet : List ℕ
arp_packet = 0x00 ∷ 0x01 ∷ 0x08 ∷ 0x00 ∷ 0x06 ∷ 0x04 ∷ 0x00 ∷ 0x01 ∷ replicate 20 0

-- The packet that a request and a reply start from, with the operation and the sender.
abbrev pub from_me : ℕ → Net → Packet → Packet
from_me operation s p =
    set_bytes 14 (ip_bytes s.my_ip_addr)
      (set_bytes 8 (mac_bytes s.my_mac_addr) (set_byte 7 operation (set_bytes 0 arp_packet p)))

unfoldable pub send_arp_request : ℕ → Net → Net
send_arp_request ipaddr s =
    let (p, s1) = new_ethpkt 28 s in
    let p1 =
      set_bytes 24 (ip_bytes ipaddr) (set_bytes 18 (replicate 6 0) (from_me arp_request s1 p)) in
    tx_ethpkt p1 ethertype_arp 0x0fffffffffff
      (record s1 { arp_requests_sent = u32 (s1.arp_requests_sent + 1) })

unfoldable pub send_arp_reply : ℕ → ℕ → Net → Net
send_arp_reply dest_mac_addr dest_ip_addr s =
    let (p, s1) = new_ethpkt 28 s in
    let p1 =
      set_bytes 24 (ip_bytes dest_ip_addr)
        (set_bytes 18 (mac_bytes dest_mac_addr) (from_me arp_reply s1 p)) in
    tx_ethpkt p1 ethertype_arp dest_mac_addr s1

-- The loop of `arp_lookup` over the table, with the oldest age so far: the address found, and the
-- table after. Entries that do not match age, and one that is older than those before it is dropped
-- at the age of 0x10000. An age of 2 ^ 31 or more is negative as an `int`.
unfoldable pub scan : ℕ → ℕ → List ArpEntry → Option ℕ × List ArpEntry
scan ipaddr oldage [] = (none, [])
scan ipaddr oldage (e ∷ es) =
    let older = scan ipaddr e.age es in
    let rest = scan ipaddr oldage es in
    let aged = record e { age = u32 (e.age + 1) } in
    let stale = leb 0x10000 e.age && ltb e.age (2 ^ 31) in
    if not e.valid
    then (rest.0, e ∷ rest.1)
    else if e.ipaddr == ipaddr
    then (some e.mac, record e { age = 0 } ∷ es)
    else if ltb oldage e.age
    then (older.0, record aged { valid = not stale } ∷ older.1)
    else (rest.0, aged ∷ rest.1)

-- `((ipaddr ^ my_ip_addr) & my_ip_mask) != 0`: the two differ in a bit of the mask.
abbrev pub is_remote : ℕ → Net → Bool
is_remote ipaddr s = not (bit_and ipaddr s.my_ip_mask == bit_and s.my_ip_addr s.my_ip_mask)

-- The MAC address, where the source returns 0 and stores it; with `none` it returns 1.
unfoldable pub arp_lookup : ℕ → Net → Option ℕ × Net
arp_lookup ipaddr s =
    let found = scan ipaddr 0 s.arp_table in
    let s1 = record s { arp_table = found.1 } in
    if (is_remote ipaddr s || ipaddr == s.my_ip_router) && not (s.router_mac_addr == 0)
    then (some s.router_mac_addr, s)
    else elim found.0 [ some mac ↦ (some mac, s1) | none ↦ (none, send_arp_request ipaddr s1) ]

-- The loop that replaces the address of an entry.
unfoldable pub replace_mac : ℕ → ℕ → List ArpEntry → List ArpEntry
replace_mac ipaddr mac [] = []
replace_mac ipaddr mac (e ∷ es) =
    if e.valid && e.ipaddr == ipaddr
    then record e { age = 0; mac = mac } ∷ es
    else e ∷ replace_mac ipaddr mac es

abbrev pub no_entry : ArpEntry
no_entry = record { valid = false; age = 0; ipaddr = 0; mac = 0 }

-- `*ev = 1`, behind the pointer to the entry `stray`. The source makes the pointer from `eid` before
-- `eid` is set; the table has eight entries, and the pointer may lie outside.
abbrev pub mark_valid : ℕ → List ArpEntry → List ArpEntry
mark_valid stray table = set table stray (record (get_or table stray no_entry) { valid = true })

-- A new entry, at the index of a free or the oldest one.
unfoldable pub add_entry : ℕ → ℕ → ℕ → Net → Net
add_entry stray ipaddr mac s =
    let eid = get_next_arp_index s in
    let old = get_or s.arp_table eid no_entry in
    record s {
      arp_table = mark_valid stray (
          set s.arp_table eid (record old {
            valid = old.valid && not (stray == eid);
            age = 0;
            ipaddr = ipaddr;
            mac = mac;
          }));
    }

unfoldable pub log_entry : ℕ → ℕ → Net → Net
log_entry ipaddr mac s = record s {
  arp_table_log = λ j. if j == s.arp_logid then (ipaddr, mac) else s.arp_table_log j;
  arp_logid = (s.arp_logid + 1) % 32;
}

-- The address as the lookup found it is changed, or is entered.
unfoldable pub enter : ℕ → ℕ → ℕ → Option ℕ × Net → Net
enter stray ipaddr mac (none, s) = add_entry stray ipaddr mac s
enter stray ipaddr mac (some lclmac, s) =
    if mac == lclmac then s else record s { arp_table = replace_mac ipaddr mac s.arp_table }

unfoldable pub arp_table_add : ℕ → ℕ → ℕ → Net → Net
arp_table_add stray ipaddr mac s =
    let s1 = log_entry ipaddr mac s in
    if ipaddr == s1.my_ip_addr
    then s1
    else if ipaddr == s1.my_ip_router
    then record s1 { router_mac_addr = mac }
    else enter stray ipaddr mac (arp_lookup ipaddr s1)

-- The test of the first six bytes.
unfoldable pub is_arp_header : Packet → Bool
is_arp_header p =
    byte p 0 == 0x00
    && (byte p 1 == 0x01
        && (byte p 2 == 0x08 && (byte p 3 == 0x00 && (byte p 4 == 0x06 && byte p 5 == 0x04))))

unfoldable pub rx_arp : ℕ → Packet → Net → Packet × Net
rx_arp stray p s =
    let src_mac = mac_at p 8 in
    let src_ip = word_at p 14 in
    let operation = byte p 7 in
    let reset = record p { length = u32 p.rawlen; user = 0 } in
    if not (is_arp_header p)
    then free_pkt reset s
    else if operation == arp_request
    then free_pkt p (send_arp_reply src_mac src_ip s)
    else if operation == arp_reply
    then free_pkt p (arp_table_add stray src_ip src_mac s)
    else free_pkt p s
