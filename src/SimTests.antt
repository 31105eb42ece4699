-- ===== src/SimTests.antt =====
-- Concrete runs of the simulated peripherals (sim/verilated).
use zipversa.Base.{ℕ, ◌+◌, ◌-◌, ◌*◌, ◌/◌, ◌%◌, ◌^◌, ◌≡◌, refl, arith}
use zipversa.Base.{Bool, true, false, List, [], ◌∷◌, some, if◌then◌else◌, ◌==◌}
use zipversa.TbClock.{Clock, IsValid, time_to_edge, advance}
use zipversa.TbClock.{advance-IsValid}
use zipversa.MemSim.{lane, lanes, merge}
use zipversa.MemSim.Lanes.{word, pick, merge-lanes}
use zipversa.FlashSim.{Flash, deep_sleep, idle, invalid, spi}
use zipversa.FlashSim.Clock.{Pins, clocks, clock, count_down, shift_in, process}
use zipversa.FlashSim.Command.{command, decode, guarded}
use zipversa.FlashSim.CommandLaws.{IsLocked}
use zipversa.FlashSim.MemoryLaws.{never_enables, clocks-IsLocked}
use zipversa.DblUart.{Uart, Net, tx_tick, received}
use zipversa.DblUart.Transmit.{tx_ticks, moved, tx_wire}
use zipversa.DblUart.Routing.{IsBounded, received-IsBounded, Flushed, receive_all, received_line}
use zipversa.EnetCtrl.{Phy, ones}
use zipversa.EnetCtrl.Frame.{write_frame}

abbrev started : Clock
started = record { increment_ps = 10000; now_ps = 10001; last_posedge_ps = 0; ticks = 0 }

started-IsValid : IsValid started
started-IsValid = omega arith

edge_at : time_to_edge started ≡ some 9999
unfolding time_to_edge
edge_at = refl

advance-IsValid_example :
    (level : Bool) × (d : Clock) × (advance 5000 started ≡ some (level, d))
    × IsValid d
    × (d.now_ps ≡ 15001)
advance-IsValid_example = advance-IsValid 5000 9999 started started-IsValid edge_at (omega arith)

merge-lanes_example :
    merge (lanes 5) (word 1 2 3 4) (word 5 6 7 8)
    ≡ word (pick (lane 5 3) 1 5) (pick (lane 5 2) 2 6) (pick (lane 5 1) 3 7) (pick (lane 5 0) 4 8)
merge-lanes_example =
    merge-lanes 5 1 2 3 4 5 6 7 8 (omega arith, omega arith, omega arith, omega arith)
      (omega arith, omega arith, omega arith, omega arith)

abbrev flash : Flash
flash = record {
  state = idle;
  mem = λ i. 0xff;
  pmem = λ i. 0x5a;
  last_sck = 1;
  write_count = 0;
  ireg = 0;
  oreg = 0;
  sreg = 0x01c;
  addr = 0x10234;
  count = 0;
  mode_byte = 0;
  creg = 1;
  membytes = 2 ^ 24;
  memmask = 2 ^ 24 - 1;
  idle_throttle = false;
  mode = spi;
  ndummy = 6;
}

abbrev pulse : ℕ → Pins
pulse dat = record { csn = false; sck = 0; dat = dat }

abbrev raised : ℕ → Pins
raised dat = record { csn = false; sck = 1; dat = dat }

-- The page program command, while the write-enable latch is clear: it is refused.
abbrev send : List ℕ → List Pins
send [] = []
send (b ∷ bs) = pulse b ∷ raised b ∷ send bs

abbrev page_program : List Pins
page_program = send (0 ∷ 0 ∷ 0 ∷ 0 ∷ 0 ∷ 0 ∷ 1 ∷ 0 ∷ [])

abbrev refused : Flash
refused = record flash { state = invalid; ireg = 2; oreg = 0x0a5; count = 8 }

refused_quietly : never_enables page_program flash ≡ true
unfolding clock count_down shift_in process command decode guarded deep_sleep
refused_quietly = refl

refused_finally : clocks page_program flash ≡ some refused
unfolding clocks clock count_down shift_in process command decode guarded deep_sleep
refused_finally = refl

clocks-IsLocked_example : (refused.mem ≡ flash.mem) × IsLocked refused
clocks-IsLocked_example =
    clocks-IsLocked page_program flash refused (refl, refl) refused_quietly refused_finally

abbrev net : Net
net = record {
  accept_cmd = false;
  accept_con = false;
  arrived = [];
  cmd_closed = false;
  con_closed = false;
  cmd_takes = some 256;
  con_takes = some 1;
}

-- An 8N1 port at 25 clocks a bit that is sending a character.
abbrev uart : Uart
uart = record {
  cmd = true;
  con = false;
  rxbuf = [];
  cmdbuf = b'A' ∷ [];
  conbuf = [];
  cmd_sent = [];
  con_sent = [];
  setup_reg = 25;
  baud_counts = 25;
  nbits = 8;
  nstop = 1;
  nparity = 0;
  fixdp = 0;
  evenp = 0;
  rx_data_state = false;
  rx_baudcounter = 0;
  rx_busy = 0;
  rx_changectr = 0;
  last_tx = 1;
  rx_data = 0;
  tx_data_state = true;
  tx_baudcounter = 24;
  tx_busy = 1023;
  tx_data = 0x282;
}

tx_wire_example :
    ((tx_tick net (tx_ticks net (3 * 25 + 24) uart)).0
      ≡ (if 24 == 24 then 0x282 / 2 ^ 4 % 2 else 0x282 / 2 ^ 3 % 2))
    × (tx_ticks net (9 * 25) uart ≡ moved uart (0x282 / 2 ^ 9) 1 24)
tx_wire_example = tx_wire net 24 9 3 24 uart refl refl refl refl (omega arith) (omega arith)

received-IsBounded_example : IsBounded (received net 0x8a uart)
received-IsBounded_example = received-IsBounded net 0x8a uart (omega arith, omega arith)

-- A character for the console comes between two of the line.
received_line_example :
    Flushed
      (some 256)
      []
      (b'A' ∷ b'2' ∷ 10 ∷ [])
      (receive_all net (0xc1 ∷ b'x' ∷ 0xb2 ∷ 0x8a ∷ []) (record uart { cmdbuf = [] }))
received_line_example =
    received_line net (0xc1 ∷ b'x' ∷ 0xb2 ∷ []) (record uart { cmdbuf = [] }) refl refl
      (
        λ e. λ z. absurd (omega arith),
        (λ e. λ z. absurd (omega arith), (λ e. λ z. absurd (omega arith), tt)),
      )
      (omega arith)

abbrev phy : Phy
phy = record {
  consecutive_clocks = 3;
  synched = true;
  lastclk = false;
  lastout = 1;
  tickcount = 0;
  ticks_per_clock = 8;
  halfword = 16;
  datareg = write_frame 9 0x1234;
  outreg = ones;
  mem = λ i. 0;
}
