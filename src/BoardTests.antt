-- ===== src/BoardTests.antt =====
-- Runs of the board's software.
use zipversa.Base.{
  ℕ, zero, suc, ◌+◌, ◌-◌, ◌*◌, ◌/◌, ◌%◌, ◌^◌, ◌<◌, ◌≡◌, ◌≢◌, refl, arith, true, false, none, some,
  replicate,
}
use zipversa.Base.{List, [], ◌∷◌, ◌++◌, if◌then◌else◌, ◌==◌, length, get_or, inl, inr}
use zipversa.Bootloader.{Image, bootloader}
use zipversa.Bootloader.Loaded.{loaded, bootloader-loaded}
use zipversa.Divide.{udivdi3, divdi3}
use zipversa.Divide.Quotient.{signed, udivdi3_divides, divdi3_divides}
use zipversa.TwosComplement.{sbits, sar, rndbits}
use zipversa.TwosComplement.Rounding.{rounded, rndbits_rounds}
use zipversa.Net.State.{Packet, Net, byte}
use zipversa.Net.Ether.{set_header, ethpkt_ethtype, ethpkt_mac}
use zipversa.Net.Checksum.{ipcksum, sum_loop, fold_loop}
use zipversa.Net.ChecksumLaws.{ipcksum_verifies, words_from}
use zipversa.Net.Arp.{arp_lookup, arp_table_add, no_entry, scan, next_index}
use zipversa.Net.ArpLaws.{find}
use zipversa.Net.ArpUpdate.{searched, arp_lookup-find, arp_table_add_new}
use zipversa.Net.Ip.{ip_set, ippkt_src, ippkt_dst, ippkt_subproto}
use zipversa.Net.IpLaws.{ip_set_returns}
use zipversa.Net.Bytes.{ethpkt-set_header}
use zipversa.Net.PingTest.{Program, Inputs, round}
use zipversa.Net.Memory.{IsBalanced}
use zipversa.Net.MemoryLoop.{receives_other, ticked, round-IsBalanced}
use zipversa.Uart.{Uart, txhex}
use zipversa.Uart.Numbers.{hex_value, txhex_prints}

udivdi3_divides_example : udivdi3 (2 ^ 40 + 17) 10 ≡ (2 ^ 40 + 17) / 10
udivdi3_divides_example = udivdi3_divides (2 ^ 40 + 17) 10 (omega arith) (omega arith) (omega arith)

divdi3_divides_example : divdi3 (signed true 100) (signed false 7) ≡ signed true (100 / 7)
divdi3_divides_example = divdi3_divides true false 100 7 (omega arith) (omega arith) (omega arith)

-- The number -20, of 8 bits, that loses 3 of them: -2.5.
minus_two_and_a_half : rndbits 0xec 8 5 ≡ 2 ^ 64 - 2
unfolding rndbits sbits sar
minus_two_and_a_half = refl

rndbits_rounds_example : rndbits 0xec 8 5 ≡ rounded (sar (sbits 0xec 8) 3) (sbits 0xec 8 % 2 ^ 3) 3
rndbits_rounds_example = rndbits_rounds 0xec 4 2 (omega arith) (omega arith)

abbrev packet : Packet
packet = record { usage_count = 1; rawlen = 64; length = 36; raw = λ j. 0; user = 28; address = 0 }

ethpkt-set_header_example :
    (ethpkt_ethtype (set_header 0x0806 0xa25345b6fb5e packet) ≡ 0x0806)
    × (ethpkt_mac (set_header 0x0806 0xa25345b6fb5e packet) ≡ 0xa25345b6fb5e)
ethpkt-set_header_example =
    ethpkt-set_header 0x0806 0xa25345b6fb5e packet (omega arith) (omega arith) (omega arith)
      (omega arith)

-- The words 0x4500 and 0, and the checksum in place of the 0.
abbrev two_words : ℕ → ℕ
two_words j = if j == 0 then 0x45 else 0

abbrev two_words_checked : ℕ → ℕ
two_words_checked j = get_or (0x45 ∷ 0 ∷ 0xba ∷ 0xff ∷ []) j 0

checked_same : (j : ℕ) → j < 4 → j ≢ 2 → j ≢ 3 → two_words_checked j ≡ two_words j
checked_same zero lt n1 n2 = refl
checked_same (suc zero) lt n1 n2 = refl
checked_same (suc (suc zero)) lt n1 n2 = absurd (n1 refl)
checked_same (suc (suc (suc zero))) lt n1 n2 = absurd (n2 refl)
checked_same (suc (suc (suc (suc j)))) lt n1 n2 = absurd (omega arith)

ipcksum_verifies_example : ipcksum (2 * 2) two_words_checked ≡ 0
unfolding words_from ipcksum sum_loop fold_loop
ipcksum_verifies_example =
    ipcksum_verifies 2 1 two_words two_words_checked (omega arith) (omega arith) (λ j. ground arith)
      (omega arith) refl refl refl checked_same

abbrev net : Net
net = record {
  my_mac_addr = 0xa25345b6fb5e;
  my_ip_addr = 0xc0a80f16;
  my_ip_mask = 0xffffff00;
  my_ip_router = 0xc0a80f01;
  router_mac_addr = 0;
  arp_table = replicate 8 no_entry;
  arp_table_log = λ j. (0, 0);
  arp_logid = 0;
  arp_requests_sent = 0;
  ip_pktid = 0;
  icmppkt_id = 0;
  n_txcmd = 0;
  sent = [];
  rx_clears = 0;
  waiting_pkt = none;
  gpio = 0;
  scrap = λ a j. 0;
  mallocs = 0;
  frees = 0;
}

ip_set_returns_example :
    (ipcksum 20 (byte (ip_set packet 1 0xc0a80f16 0xc0a80f01 net).0) ≡ 0)
    × (ippkt_src (ip_set packet 1 0xc0a80f16 0xc0a80f01 net).0 ≡ 0xc0a80f16)
    × (ippkt_dst (ip_set packet 1 0xc0a80f16 0xc0a80f01 net).0 ≡ 0xc0a80f01)
    × (ippkt_subproto (ip_set packet 1 0xc0a80f16 0xc0a80f01 net).0 ≡ 1)
ip_set_returns_example =
    ip_set_returns packet 1 0xc0a80f16 0xc0a80f01 net (omega arith) (omega arith) (omega arith)
      (omega arith)

arp_lookup-find_example :
    ((arp_lookup 0xc0a80f05 net).0 ≡ find 0xc0a80f05 net.arp_table)
    × (find 0xc0a80f05 (arp_lookup 0xc0a80f05 net).1.arp_table ≡ find 0xc0a80f05 net.arp_table)
arp_lookup-find_example = arp_lookup-find 0xc0a80f05 net refl

-- The index that happens to be there is the second one, the new entry is the first.
arp_table_add_new_example :
    find 0xc0a80f05 (arp_table_add 1 0xc0a80f05 0x123456 net).arp_table
    ≡ (if 1 == next_index 0 0 0 (searched 0xc0a80f05 net) then some 0x123456 else none)
unfolding find scan next_index
arp_table_add_new_example =
    arp_table_add_new 1 0xc0a80f05 0x123456 net refl (omega arith) (omega arith) refl (omega arith)
      refl (omega arith)

abbrev program : Program
program = record { heartbeats = 0; now = 100; lastping = 0; lasthello = 0; net = net }

-- A tick, a packet of 64 bytes from the network, and the end of a transmission.
abbrev inputs : Inputs
inputs = record {
  timer = true;
  netrx = true;
  nettx = true;
  n_rxcmd = 0x4040;
  netbrx = λ j. 0;
  stray = 0;
}

round-IsBalanced_example :
    IsBalanced
      (if receives_other inputs (ticked 0xc0a80f01 inputs program) then 1 else 0)
      (round 0xc0a80f01 inputs program).net
round-IsBalanced_example = round-IsBalanced 0 0xc0a80f01 inputs program (refl, tt)

abbrev uart : Uart
uart = record { last_was_cr = false; u_tx = [] }

-- An image with a block RAM and an SDRAM.
abbrev image : Image
image = record {
  rom = 0x400000;
  kram = 0x280000;
  ram = 0x800000;
  kram_start = 0x400100;
  kram_end = 0x280004;
  ram_image_end = 0x800008;
  bss_image_end = 0x80000a;
}

bootloader-loaded_example : bootloader image (λ a. a) 0x800001 ≡ loaded image (λ a. a) 0x800001
bootloader-loaded_example =
    bootloader-loaded image (λ a. a) 0x800001
      (
        omega arith,
        omega arith,
        omega arith,
        omega arith,
        inr (omega arith, omega arith, λ e. absurd (omega arith)),
        inr (omega arith),
        inl (omega arith),
        inl (omega arith),
      )

txhex_prints_example :
    (cs : List ℕ) × ((txhex 0x1234abcd uart).u_tx ≡ [] ++ cs)
    × (length cs ≡ 8)
    × (hex_value 0 cs ≡ 0x1234abcd)
txhex_prints_example = txhex_prints 0x1234abcd uart (omega arith)
