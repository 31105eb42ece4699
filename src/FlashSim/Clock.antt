-- ===== src/FlashSim/Clock.antt =====
-- FLASHSIM::operator() (sim/verilated/flashsim.cpp): one clock of the device. `none` is a failed
-- assertion or the call of `exit`.
use zipversa.Base.{ℕ, ◌+◌, ◌-◌, ◌*◌, ◌/◌, ◌%◌, ◌^◌}
use zipversa.Base.{Bool, true, false, not, ◌&&◌, ◌||◌, if◌then◌else◌, ◌==◌, bit_and, bit_or}
use zipversa.Base.{Option, none, some}
use mathlib.Core.Option
use zipversa.Base.Bits.{u32}
use zipversa.Base.{List, [], ◌∷◌}
use zipversa.FlashSim.{Flash, State, quad_read_idle, quad_read, dual_read_idle, dual_read}
use zipversa.FlashSim.{Mode, spi, dspi, qspi, deep_sleep}
use zipversa.FlashSim.Select.{deselect}
use zipversa.FlashSim.Command.{command}
use zipversa.FlashSim.Data.{next_byte, set_addr}

-- The timer of an erase or a program.
unfoldable pub count_down : Flash → Flash
count_down s =
    if s.write_count == 0
    then s
    else if s.write_count == 1
    then record s { write_count = 0; sreg = bit_and s.sreg 0x0fc }
    else record s { write_count = s.write_count - 1 }

-- The pins that the device drives, the others as they are in `dat`.
unfoldable pub output : Mode → ℕ → ℕ → ℕ
output qspi oreg dat = oreg / 2 ^ 8 % 16
output dspi oreg dat = bit_or (oreg / 2 ^ 8 % 4) (bit_and dat 0x0c)
output spi oreg dat = bit_or (if oreg / 2 ^ 8 % 2 == 1 then 2 else 0) (bit_and dat 0x0d)

abbrev width : Mode → ℕ
width qspi = 4
width dspi = 2
width spi = 1

unfoldable pub shift_in : ℕ → Flash → Flash
shift_in dat s =
    let w = width s.mode in
    record s {
      ireg = u32 (s.ireg * 2 ^ w + dat % 2 ^ w);
      count = u32 (s.count + w);
      oreg = u32 (s.oreg * 2 ^ w);
    }

abbrev pub same_mode : Mode → Mode → Bool
same_mode spi spi = true
same_mode dspi dspi = true
same_mode qspi qspi = true
same_mode m n = false

-- A read that goes on without a command: after 24 bits of address.
unfoldable pub resume : Mode → State → Flash → Option Flash
resume needed next s =
    if deep_sleep s || not (same_mode s.mode needed)
    then none
    else if s.count == 24
    then Option.map (λ (s1 : Flash). record s1 { state = next; oreg = 0 }) (set_addr s)
    else some (record s { oreg = 0 })

abbrev pub by_count : Flash → Option Flash
by_count s =
    if s.count == 8
    then command s
    else if (s.count % 8 == 0) && not (s.count == 0)
    then next_byte s
    else some s

-- What the bits shifted in so far lead to.
unfoldable pub process : State → Flash → Option Flash
process quad_read_idle s = resume qspi quad_read s
process dual_read_idle s = resume dspi dual_read s
process x s = by_count s

unfoldable pub clock : Bool → ℕ → ℕ → Flash → Option (ℕ × Flash)
clock csn sck dat s =
    let s0 = count_down s in
    if csn
    then some (dat, deselect s0)
    else if (s0.last_sck == 0) || (sck == s0.last_sck)
    then some (output s0.mode s0.oreg dat, record s0 { last_sck = sck })
    else Option.map (λ s1. (output s1.mode s1.oreg dat, record s1 { last_sck = sck }))
        (process s0.state (shift_in dat s0))

-- The pins of one clock.
pub record Pins : Type 0 where
  pub csn : Bool
  pub sck : ℕ
  pub dat : ℕ

-- Clock after clock, the outputs dropped.
unfoldable pub clocks : List Pins → Flash → Option Flash
clocks [] s = some s
clocks (p ∷ ps) s = elim (clock p.csn p.sck p.dat s) [ none ↦ none | some (_, s1) ↦ clocks ps s1 ]
