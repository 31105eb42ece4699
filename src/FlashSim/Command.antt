-- ===== src/FlashSim/Command.antt =====
-- The first byte of a transaction: the branch `m_count == 8` of FLASHSIM::operator()
-- (sim/verilated/flashsim.cpp). `none` is the failed assertion.
use zipversa.Base.{ℕ, ◌/◌, ◌%◌, ◌^◌}
use zipversa.Base.{not, ◌&&◌, if◌then◌else◌, ◌==◌, bit_and, bit_or, Option, none, some}
use zipversa.FlashSim.{Flash, State, idle, rdsr, rdcr, wrsr, clsr, rdid, release, slow_read}
use zipversa.FlashSim.{fast_read, quad_read_cmd, sector_erase, pp, qpp, bulk_erase, dual_read_cmd}
use zipversa.FlashSim.{invalid, spi, dspi, qspi, qoreg, clear_flag, deep_sleep}
use zipversa.FlashSim.{devid, t_res, wel_flag, deep_power_down_flag}

-- A command that needs write enable set, and neither write in progress nor deep power down.
unfoldable pub guarded : State → Flash → Flash
guarded next s = record s { state = if bit_and s.sreg 0x203 == 2 then next else invalid }

unfoldable pub leave_sleep : Flash → Flash
leave_sleep s =
    if deep_sleep s
    then record s {
      sreg = clear_flag deep_power_down_flag s.sreg;
      write_count = t_res;
      state = release;
    }
    else record s { state = release }

unfoldable pub enter_sleep : Flash → Flash
enter_sleep s =
    if s.sreg % 2 == 0
    then record s { sreg = bit_or s.sreg deep_power_down_flag; state = idle }
    else record s { state = invalid }

-- `switch(m_ireg & 0x0ff)`
unfoldable pub decode : ℕ → Flash → Option Flash
decode c s =
    if c == 0x01
    then some (guarded wrsr s)
    else if c == 0x02
    then some (guarded pp s)
    else if c == 0x03
    then some (record s { state = slow_read })
    else if c == 0x04
    then some (record s { state = idle; sreg = clear_flag wel_flag s.sreg })
    else if c == 0x05
    then some (qoreg s.sreg (record s { state = rdsr }))
    else if c == 0x06
    then some (record s { state = idle; sreg = bit_or s.sreg wel_flag })
    else if c == 0x0b
    then some (record s { state = fast_read })
    else if c == 0x30
    then some (record s { state = clsr })
    else if c == 0x32
    then some (guarded qpp s)
    else if c == 0x35
    then some (qoreg s.creg (record s { state = rdcr }))
    else if c == 0x50
    then some (qoreg 0 (record s { state = idle }))
    else if c == 0x61
    then some (qoreg 0 (record s { state = idle }))
    else if c == 0x70
    then some (qoreg 0 (record s { state = idle }))
    else if c == 0x81
    then some (qoreg 0 s)
    else if c == 0x9f
    then some (qoreg (devid / 2 ^ 24) (record s { state = rdid }))
    else if c == 0xab
    then some (leave_sleep s)
    else if c == 0xb9
    then some (enter_sleep s)
    else if c == 0xbb
    then some (record s { state = dual_read_cmd; mode = dspi })
    else if c == 0xc7
    then some (guarded bulk_erase s)
    else if c == 0xd8
    then some (guarded sector_erase s)
    else if c == 0xeb
    then some (record s { state = quad_read_cmd; mode = qspi })
    else if c == 0x00
    then some (record s { state = idle; mode = spi })
    else if c == 0xff
    then some (record s { state = idle; mode = spi })
    else none

-- In deep power down only the release is heard.
unfoldable pub command : Flash → Option Flash
command s =
    let s1 = qoreg 0x0a5 s in
    let c = s.ireg % 256 in if deep_sleep s1 && not (c == 0xab) then some s1 else decode c s1
