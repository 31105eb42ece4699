-- ===== src/EnetCtrl.antt =====
-- ENETCTRLSIM, the simulated management port (MDIO) of the Ethernet transceiver
-- (sim/verilated/enetctrlsim.cpp, enetctrlsim.h).
pub mod Frame
use zipversa.Base.{ℕ, ◌+◌, ◌-◌, ◌*◌, ◌/◌, ◌%◌, ◌^◌, ◌==◌, ltb, bit_and, bit_or, if◌then◌else◌}
use zipversa.Base.{Bool, true, false, not, ◌&&◌, ◌||◌, Option, none, some}
use mathlib.Core.Option
use zipversa.Base.Bits.{u32, shl32}

-- Only the truth of the clock counts. The shift registers are `int`s as words of 32 bits.
pub record Phy : Type 0 where
  pub consecutive_clocks : ℕ
  pub synched : Bool
  pub lastclk : Bool
  pub lastout : ℕ
  pub tickcount : ℕ
  pub ticks_per_clock : ℕ
  pub halfword : ℕ
  pub datareg : ℕ
  pub outreg : ℕ
  pub mem : ℕ → ℕ

abbrev phy_addr : ℕ
phy_addr = 1

abbrev fewest_ticks : ℕ
fewest_ticks = 4

-- `-1`
abbrev pub ones : ℕ
ones = 0xffffffff

unfoldable pub new : Phy
new = record {
  consecutive_clocks = 0;
  synched = false;
  lastclk = false;
  lastout = 0;
  tickcount = 0;
  ticks_per_clock = 0;
  halfword = 0;
  datareg = ones;
  outreg = ones;
  mem = λ i. 0;
}

-- The count of the ones on the wire and the check of the clock's rate, at a rising edge.
unfoldable pub measure : ℕ → Phy → Phy
measure bit p =
    let count : ℕ =
      if bit == 0
      then 0
      else if ltb p.consecutive_clocks 128
      then p.consecutive_clocks + 1
      else p.consecutive_clocks in
    let bad = not (p.tickcount == p.ticks_per_clock) || ltb p.ticks_per_clock fewest_ticks in
    record p {
      consecutive_clocks = if bad then 0 else count;
      synched = if bad then false else p.synched;
      ticks_per_clock = p.tickcount;
      tickcount = 0;
    }

unfoldable pub synchronize : Phy → Phy
synchronize p =
    if ltb 32 p.consecutive_clocks
    then record p { synched = true; lastout = 1; halfword = 0; datareg = ones }
    else p

-- The first half of a frame: the answer to a read is loaded.
unfoldable pub half_command : Phy → Phy
half_command p =
    let cmd = p.datareg / 2 ^ 12 % 2 ^ 4 in
    let phy = p.datareg / 2 ^ 7 % 2 ^ 5 in
    let addr = p.datareg / 2 ^ 2 % 2 ^ 5 in
    let started = record p { halfword = 1 } in
    if (cmd == 6) && (phy == phy_addr)
    then record started { outreg = bit_or (shl32 (p.mem addr % 2 ^ 16) 15) 0x080007fff }
    else started

abbrev update : (ℕ → ℕ) → ℕ → ℕ → ℕ → ℕ
update f i v j = if j == i then v else f j

-- The whole frame: a write is carried out. `none` is the failed assertion on the turnaround.
unfoldable pub full_command : Phy → Option Phy
full_command p =
    let cmd = p.datareg / 2 ^ 28 % 2 ^ 4 in
    let phy = p.datareg / 2 ^ 23 % 2 ^ 5 in
    let addr = p.datareg / 2 ^ 18 % 2 ^ 5 in
    let cleared = record p { halfword = 0; datareg = ones } in
    if (cmd == 5) && (phy == phy_addr)
    then (if bit_and p.datareg 0x010000 == 0
        then some (record cleared { mem = update p.mem addr (p.datareg % 2 ^ 16) })
        else none)
    else some cleared

-- A bit of the frame.
unfoldable pub receive : ℕ → Phy → Option Phy
receive bit p =
    let shifted = record p { datareg = u32 (p.datareg * 2 + bit % 2) } in
    if (p.halfword == 0) && (bit_and shifted.datareg 0x8000 == 0)
    then some (half_command shifted)
    else if not (p.halfword == 0) && ltb p.halfword 16
    then some (record shifted { halfword = p.halfword + 1 })
    else if not (p.halfword == 0)
    then full_command shifted
    else some shifted

-- `m_outreg = (m_outreg<<1)|1`
unfoldable pub shift_out : Phy → Phy
shift_out p = record p { outreg = u32 (p.outreg * 2 + 1) }

abbrev finish : Bool → ℕ → Phy → ℕ × Phy
finish clk bit p =
    (bit_and bit (if bit_and p.outreg 0x40000000 == 0 then 0 else 1), record p { lastclk = clk })

-- `operator()`
unfoldable pub tick : Bool → Bool → ℕ → Phy → Option (ℕ × Phy)
tick reset clk bit p =
    let posedge = clk && not p.lastclk in
    let negedge = not clk && p.lastclk in
    let counted = record p { tickcount = p.tickcount + 1 } in
    if reset
    then some (
      1,
      record counted {
        consecutive_clocks = 0;
        synched = false;
        lastout = 1;
        datareg = ones;
        lastclk = clk;
      },
    )
    else (let ready = synchronize (if posedge then measure bit counted else counted) in
        let moved : Option Phy =
          if posedge && ready.synched
          then receive bit ready
          else some (if negedge then shift_out ready else ready) in
        Option.map (finish clk bit) moved)

-- `operator[]`
unfoldable pub register : Phy → ℕ → ℕ
register p index = p.mem (index % 32) % 2 ^ 16
