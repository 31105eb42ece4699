-- ===== src/DblUart.antt =====
-- DBLUARTSIM, the simulated serial port that carries both the debugging bus and the console
-- (sim/verilated/dbluartsim.cpp, dbluartsim.h). The sockets are arguments: what a poll finds, and
-- how many characters a send takes.
pub mod Transmit
pub mod Routing
use zipversa.Base.{ℕ, ◌+◌, ◌-◌, ◌*◌, ◌/◌, ◌%◌, ◌^◌, ◌==◌, ltb, leb, bit_and, bit_or, if◌then◌else◌}
use zipversa.Base.{
  Bool, true, false, not, ◌&&◌, ◌||◌, Option, none, some, List, [], ◌∷◌, ◌++◌, length, get_or, take,
}
use zipversa.Base.Bits.{u32}

-- The lists are the parts of the buffers in use: `m_rxbuf` from `m_rxpos` on, `m_cmdbuf` and
-- `m_conbuf` up to their positions. `cmd` and `con` say whether a client is connected, `cmd_sent`
-- and `con_sent` are what `send` has taken. The baud counters stop at 0, since the code only asks
-- whether they are positive. What the constructor leaves unset is given.
pub record Uart : Type 0 where
  pub cmd : Bool
  pub con : Bool
  pub rxbuf : List ℕ
  pub cmdbuf : List ℕ
  pub conbuf : List ℕ
  pub cmd_sent : List ℕ
  pub con_sent : List ℕ
  pub setup_reg : ℕ
  pub baud_counts : ℕ
  pub nbits : ℕ
  pub nstop : ℕ
  pub nparity : ℕ
  pub fixdp : ℕ
  pub evenp : ℕ
  pub rx_data_state : Bool
  pub rx_baudcounter : ℕ
  pub rx_busy : ℕ
  pub rx_changectr : ℕ
  pub last_tx : ℕ
  pub rx_data : ℕ
  pub tx_data_state : Bool
  pub tx_baudcounter : ℕ
  pub tx_busy : ℕ
  pub tx_data : ℕ

-- The sockets during one tick: whether each listener accepts a client, the bytes that polling reads
-- (those of the command port with bit 7 set), the connections that end there, and how many characters
-- a send to each takes at most; `none` is a send that fails.
pub record Net : Type 0 where
  pub accept_cmd : Bool
  pub accept_con : Bool
  pub arrived : List ℕ
  pub cmd_closed : Bool
  pub con_closed : Bool
  pub cmd_takes : Option ℕ
  pub con_takes : Option ℕ

abbrev pipe_buf_len : ℕ
pipe_buf_len = 256

unfoldable pub setup : ℕ → Uart → Uart
setup isetup u = if isetup == u.setup_reg then u else record u {
  setup_reg = isetup;
  baud_counts = isetup % 2 ^ 24;
  nbits = 8 - isetup / 2 ^ 28 % 4;
  nstop = isetup / 2 ^ 27 % 2 + 1;
  nparity = isetup / 2 ^ 26 % 2;
  fixdp = isetup / 2 ^ 25 % 2;
  evenp = isetup / 2 ^ 24 % 2;
}

unfoldable pub poll_accept : Net → Uart → Uart
poll_accept net u = record u { cmd = u.cmd || net.accept_cmd; con = u.con || net.accept_con }

-- `poll_read` with an empty receive buffer, which is how `next` calls it.
unfoldable pub poll_read : Net → Uart → Uart
poll_read net u =
    if u.cmd || u.con
    then record u {
      rxbuf = u.rxbuf ++ net.arrived;
      cmd = u.cmd && not net.cmd_closed;
      con = u.con && not net.con_closed;
    }
    else u

-- What a send takes of the characters, and whether it succeeds.
abbrev pub taken : Option ℕ → List ℕ → List ℕ
taken none cs = []
taken (some n) cs = take n cs

abbrev pub succeeds : Option ℕ → Bool
succeeds none = false
succeeds (some n) = true

-- A buffer that is only partly sent is dropped as a whole.
unfoldable pub flushrx : Net → Uart → Uart
flushrx net u = if length u.cmdbuf == 0 then u else record u {
  cmd_sent = if u.cmd then u.cmd_sent ++ taken net.cmd_takes u.cmdbuf else u.cmd_sent;
  cmd = u.cmd && succeeds net.cmd_takes;
  cmdbuf = [];
}

-- A character that completes a line, or the buffer.
abbrev pub complete : List ℕ → Bool
complete buf =
    not (length buf == 0)
    && ((get_or buf (length buf - 1) 0 == 10) || leb (pipe_buf_len - 2) (length buf))

-- The end of `received`: the last character of the console goes to the client, if there is one.
unfoldable pub send_console : Net → Uart → Uart
send_console net u =
    let sent : Uart =
      if u.con && not (length u.conbuf == 0)
      then record u {
        con_sent = u.con_sent ++ taken net.con_takes (get_or u.conbuf (length u.conbuf - 1) 0 ∷ []);
        con = succeeds net.con_takes;
        conbuf = [];
      }
      else u in
    if complete sent.conbuf then record sent { conbuf = [] } else sent

-- Bit 7 tells the command port from the console.
unfoldable pub received : Net → ℕ → Uart → Uart
received net ch u =
    let stored : Uart =
      if ch / 2 ^ 7 % 2 == 1
      then record u { cmdbuf = u.cmdbuf ++ (ch % 2 ^ 7 ∷ []) }
      else record u { conbuf = u.conbuf ++ (ch % 2 ^ 7 ∷ []) } in
    send_console net (if complete stored.cmdbuf then flushrx net stored else stored)

-- `none` is -1: nothing to send.
abbrev pop : Uart → Option ℕ × Uart
pop u = elim u.rxbuf [ [] ↦ (none, u) | c ∷ cs ↦ (some (c % 2 ^ 8), record u { rxbuf = cs }) ]

unfoldable pub next : Net → Uart → Option ℕ × Uart
next net u = pop (if length u.rxbuf == 0 then poll_read net u else u)

-- The receiver's half of `tick`, after the count since the last falling edge.
unfoldable pub rx_tick : Net → ℕ → Uart → Uart
rx_tick net i_tx u0 =
    let u = record u0 {
      rx_changectr = if (i_tx == 0) && not (u0.last_tx == 0) then 0 else u0.rx_changectr + 1;
      last_tx = i_tx;
    } in
    if not u.rx_data_state
    then (if i_tx == 0
        then record u {
          rx_data_state = true;
          rx_baudcounter = u.baud_counts + u.baud_counts / 2 - 1 - u.rx_changectr;
          rx_busy = 0;
          rx_data = 0;
        }
        else u)
    else if u.rx_baudcounter == 0
    then (if leb (2 ^ (u.nbits + u.nparity + u.nstop - 1)) u.rx_busy
        then record (received net (u.rx_data / 2 ^ (32 - u.nbits - u.nstop - u.nparity) % 2 ^ 8)
            (record u { rx_data_state = false })) { rx_baudcounter = u.baud_counts - 1 }
        else record u {
          rx_busy = u.rx_busy * 2 + 1;
          rx_data = i_tx % 2 * 2 ^ 31 + u.rx_data / 2;
          rx_baudcounter = u.baud_counts - 1;
        })
    else record u { rx_baudcounter = u.rx_baudcounter - 1 }

-- The exclusive or of two bits.
abbrev xor_bit : ℕ → ℕ → ℕ
xor_bit a b = (a + b) % 2

-- The parity of a byte: the fold of `p ^ (p>>4)`, `p ^ (p>>2)` and `p ^ (p>>1)` at its lowest bit.
abbrev pub byte_parity : ℕ → ℕ
byte_parity b =
    (b % 2 + b / 2 % 2 + b / 4 % 2 + b / 8 % 2 + b / 16 % 2 + b / 32 % 2 + b / 64 % 2 + b / 128 % 2)
    % 2

-- The shift register of a character: the start bit, the data, the parity and ones above.
unfoldable pub frame : Uart → ℕ → ℕ
frame u ch =
    let top = u.nbits + u.nparity + 1 in
    let bits = bit_or (2 ^ 32 - 2 ^ top) (ch * 2 % 2 ^ 9) in
    let p : ℕ =
      if u.fixdp == 0 then xor_bit (byte_parity (bits / 2 % 2 ^ 8)) u.evenp else u.evenp in
    if u.nparity == 0 then bits else bit_or bits (p * 2 ^ (u.nbits + u.nparity))

-- A character, if there is one, starts with the start bit.
unfoldable pub start : Option ℕ → Uart → ℕ × Uart
start none v = (1, v)
start (some ch) v = (
  0,
  record v {
    tx_data = frame v ch;
    tx_busy = 2 ^ (v.nbits + v.nparity + v.nstop + 1) - 1;
    tx_data_state = true;
    tx_baudcounter = v.baud_counts - 1;
  },
)

-- The transmitter's half of `tick`: the wire into the device, and the state.
unfoldable pub tx_tick : Net → Uart → ℕ × Uart
tx_tick net u =
    if not u.tx_data_state
    then (let (given, v) = next net u in start given v)
    else if u.tx_baudcounter == 0
    then (let busy = u.tx_busy / 2 in
        (
          u.tx_data / 2 % 2,
          record u {
            tx_data = u.tx_data / 2;
            tx_busy = busy;
            tx_data_state = not (busy == 0);
            tx_baudcounter = if busy == 0 then u.tx_baudcounter else u.baud_counts - 1;
          },
        ))
    else (u.tx_data % 2, record u { tx_baudcounter = u.tx_baudcounter - 1 })

unfoldable pub tick : Net → ℕ → Uart → ℕ × Uart
tick net i_tx u = tx_tick net (rx_tick net i_tx (poll_accept net u))
