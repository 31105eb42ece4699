-- ===== src/Net/Packet.antt =====
-- new_pkt, free_pkt, pkt_reset, rx_pkt and tx_pkt (sw/rv32/pkt.c), and tx_busy (pingtest.c).
use zipversa.Base.{ℕ, ◌+◌, ◌-◌, Bool, Option, none, some, [], ◌∷◌, ◌++◌}
use zipversa.Base.{if◌then◌else◌, ltb, ◌==◌, ◌||◌, not, bit_or}
use zipversa.Base.Bits.{u32, low_bits, shr}
use zipversa.Net.State.{Packet, Net, bytes}

-- The bits of the network interface's registers.
abbrev pub enet_txgo : ℕ
enet_txgo = 0x004000

abbrev pub enet_nohwipchk : ℕ
enet_nohwipchk = 0x040000

unfoldable pub new_pkt : ℕ → Net → Packet × Net
new_pkt msglen s = (
  record {
    usage_count = 1;
    rawlen = msglen;
    length = u32 msglen;
    raw = s.scrap s.mallocs;
    user = 0;
    address = s.mallocs;
  },
  record s { mallocs = s.mallocs + 1 },
)

-- The packet as it is left, where it is not freed.
unfoldable pub free_pkt : Packet → Net → Packet × Net
free_pkt p s =
    let count = p.usage_count - 1 in
    (record p { usage_count = count }, if count == 0 then record s { frees = s.frees + 1 } else s)

unfoldable pub pkt_reset : Packet → Packet
pkt_reset p = record p { length = u32 p.rawlen; user = 0 }

-- A packet that is waiting already is replaced.
unfoldable pub tx_busy : Packet → Net → Net
tx_busy txpkt s = elim s.waiting_pkt [
  | none ↦ record s { waiting_pkt = some txpkt }
  | some old ↦
      if old.address == txpkt.address
      then s
      else record ((free_pkt old s).1) { waiting_pkt = some txpkt }
]

-- `_net1->n_txcmd & ENET_TXBUSY`
abbrev pub is_tx_busy : Net → Bool
is_tx_busy s = low_bits (shr s.n_txcmd 14) 1 == 1

unfoldable pub tx_pkt : Packet → Net → Net
tx_pkt p s =
    if is_tx_busy s
    then tx_busy p s
    else (free_pkt p (record s {
      sent = s.sent ++ (bytes p 0 p.length ∷ []);
      n_txcmd = bit_or (bit_or enet_txgo p.length) enet_nohwipchk;
    })).1

-- The receive register `rxcmd`, and the memory `_netbrx` that the interface has received into. The
-- interface is told that the packet is taken, or is dropped.
unfoldable pub rx_pkt : ℕ → (ℕ → ℕ) → Net → Option Packet × Net
rx_pkt rxcmd netbrx s =
    let pktlen = low_bits rxcmd 14 in
    let errors = low_bits (shr rxcmd 15) 4 in
    let p : Packet = record {
      usage_count = 1;
      rawlen = pktlen;
      length = pktlen;
      raw = λ j. if ltb j (pktlen + 2) then netbrx j else s.scrap s.mallocs j;
      user = 0;
      address = s.mallocs;
    } in
    if low_bits (shr rxcmd 14) 1 == 0
    then (none, s)
    else if not (errors == 0) || ltb 2047 pktlen
    then (none, record s { rx_clears = s.rx_clears + 1 })
    else (some p, record s { mallocs = s.mallocs + 1; rx_clears = s.rx_clears + 1 })
