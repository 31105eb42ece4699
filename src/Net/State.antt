-- ===== src/Net/State.antt =====
-- NET_PACKET (sw/rv32/pkt.h), the table of arp.c, and the variables of the network stack.
use zipversa.Base.{ℕ, zero, suc, ◌+◌, ◌-◌, ◌^◌, Bool, Option, List, [], ◌∷◌}
use zipversa.Base.{if◌then◌else◌, ◌==◌}
use zipversa.Base.Bits.{u32, low_bits}

-- `raw` is the memory at `p_raw`, and `user` is `p_user - p_raw`; `user` and `length` are held as the
-- 32 bits of an `int`. `address` stands for the pointer to the packet.
pub record Packet : Type 0 where
  pub usage_count : ℕ
  pub rawlen : ℕ
  pub length : ℕ
  pub raw : ℕ → ℕ
  pub user : ℕ
  pub address : ℕ

-- ARP_TABLE_ENTRY. `valid` is 0 or 1.
pub record ArpEntry : Type 0 where
  pub valid : Bool
  pub age : ℕ
  pub ipaddr : ℕ
  pub mac : ℕ

-- `sent` holds the frames given to the network interface and `n_txcmd` its transmit register; `rx_clears`
-- counts the writes that take or drop a received packet; `scrap` is what the memory from each `malloc` holds, `mallocs` and `frees` count the calls.
pub record Net : Type 0 where
  pub my_mac_addr : ℕ
  pub my_ip_addr : ℕ
  pub my_ip_mask : ℕ
  pub my_ip_router : ℕ
  pub router_mac_addr : ℕ
  pub arp_table : List ArpEntry
  pub arp_table_log : ℕ → ℕ × ℕ
  pub arp_logid : ℕ
  pub arp_requests_sent : ℕ
  pub ip_pktid : ℕ
  pub icmppkt_id : ℕ
  pub n_txcmd : ℕ
  pub sent : List (List ℕ)
  pub rx_clears : ℕ
  pub waiting_pkt : Option Packet
  pub gpio : ℕ
  pub scrap : ℕ → ℕ → ℕ
  pub mallocs : ℕ
  pub frees : ℕ

-- `p_user += n; p_length -= n;` and the reverse.
abbrev pub skip : ℕ → Packet → Packet
skip n p = record p { user = u32 (p.user + n); length = u32 (p.length + 2 ^ 32 - n) }

abbrev pub unskip : ℕ → Packet → Packet
unskip n p = record p { user = u32 (p.user + 2 ^ 32 - n); length = u32 (p.length + n) }

-- `p_user[k] & 0x0ff`
abbrev pub byte : Packet → ℕ → ℕ
byte p k = low_bits (p.raw (u32 (p.user + k))) 8

-- `p_user[k] = v`
abbrev pub set_byte : ℕ → ℕ → Packet → Packet
set_byte k v p = record p { raw = λ j. if j == u32 (p.user + k) then low_bits v 8 else p.raw j }

-- Assignments to successive bytes from `p_user[k]` on.
unfoldable pub set_bytes : ℕ → List ℕ → Packet → Packet
set_bytes k [] p = p
set_bytes k (v ∷ vs) p = set_bytes (suc k) vs (set_byte k v p)

-- The `n` bytes from `p_user[k]` on.
unfoldable pub bytes : Packet → ℕ → ℕ → List ℕ
bytes p k zero = []
bytes p k (suc n) = byte p k ∷ bytes p (suc k) n
