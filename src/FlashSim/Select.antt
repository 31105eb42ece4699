-- ===== src/FlashSim/Select.antt =====
-- The deselected flash: the branch `if (csn)` of FLASHSIM::operator() (sim/verilated/flashsim.cpp).
use zipversa.Base.{ℕ, ◌+◌, ◌-◌, ◌*◌, ◌/◌, ◌^◌}
use zipversa.Base.{◌&&◌, if◌then◌else◌, ltb, leb, ◌==◌, bit_and, bit_or}
use zipversa.FlashSim.{Flash, State, idle, quad_read_idle, rdsr, rdcr, wrsr, clsr, rdid, release}
use zipversa.FlashSim.{slow_read, fast_read, quad_read_cmd, quad_read, sector_erase, pp, qpp}
use zipversa.FlashSim.{
  bulk_erase, deep_power_down, dual_read_idle, dual_read_cmd, dual_read, invalid,
}
use zipversa.FlashSim.{spi, t_w, t_be, t_dp, t_res, t_pp, t_se, wip_flag, wel_flag, clear_flag}

-- `m_sreg &= (~QSPIF_WEL_FLAG); m_sreg |= (QSPIF_WIP_FLAG);`
abbrev pub busy : ℕ → ℕ
busy sreg = bit_or (clear_flag wel_flag sreg) wip_flag

unfoldable pub program_page : Flash → Flash
program_page s =
    let base = s.addr / 2 ^ 8 * 2 ^ 8 in
    record s {
      write_count = t_pp;
      state = idle;
      sreg = busy s.sreg;
      mem = λ j.
          if leb base j && ltb j (base + 256)
          then bit_and (s.mem j) (s.pmem (j - base))
          else s.mem j;
      mode = spi;
    }

unfoldable pub erase_sector : Flash → Flash
erase_sector s =
    let base = s.addr / 2 ^ 16 * 2 ^ 16 in
    record s {
      write_count = t_se;
      state = idle;
      sreg = busy s.sreg;
      addr = base;
      mem = λ j. if leb base j && ltb j (base + 2 ^ 16) then 0xff else s.mem j;
    }

unfoldable pub erase_bulk : Flash → Flash
erase_bulk s = record s {
  write_count = t_be;
  state = idle;
  sreg = busy s.sreg;
  mem = λ j. if ltb j s.membytes then 0xff else s.mem j;
}

-- The end of a read in the state `continued`: a mode byte 0xa? keeps the mode for the next address.
abbrev end_read : State → Flash → Flash
end_read continued s =
    if bit_and s.mode_byte 0x0f0 == 0x0a0
    then record s { state = continued }
    else record s { mode = spi }

-- The state's case of the handler.
unfoldable pub finish : State → Flash → Flash
finish pp s = program_page s
finish qpp s = program_page s
finish sector_erase s = erase_sector s
finish wrsr s = record s { write_count = t_w; state = idle; sreg = busy s.sreg }
finish clsr s = record s { state = idle; sreg = bit_and s.sreg 0x09f }
finish bulk_erase s = erase_bulk s
finish deep_power_down s = record s { write_count = t_dp; state = idle }
finish release s = record s { write_count = t_res; state = idle }
finish quad_read_cmd s = end_read quad_read_idle s
finish dual_read_cmd s = end_read dual_read_idle s
finish quad_read s = end_read quad_read_idle s
finish dual_read s = end_read dual_read_idle s
finish idle s = s
finish quad_read_idle s = s
finish rdsr s = s
finish rdcr s = s
finish rdid s = s
finish slow_read s = s
finish fast_read s = s
finish dual_read_idle s = s
finish invalid s = s

unfoldable pub deselect : Flash → Flash
deselect s =
    let cleared = record s { last_sck = 1; ireg = 0; oreg = 0; count = 0 } in
    record (finish s.state cleared) { oreg = 0x0fe }
