-- ===== src/FlashSim/Data.antt =====
-- The bytes after the command: the branch `(m_count & 7) == 0` of FLASHSIM::operator()
-- (sim/verilated/flashsim.cpp). `none` is a failed assertion or the call of `exit`.
use zipversa.Base.{◌+◌, ◌-◌, ◌*◌, ◌/◌, ◌%◌, ◌^◌}
use zipversa.Base.{Bool, true, false, ◌&&◌, if◌then◌else◌, ltb, leb, ◌==◌, bit_and, bit_or}
use zipversa.Base.{Option, none, some}
use mathlib.Core.Option
use zipversa.Base.Bits.{u32}
use zipversa.FlashSim.{Flash, State, idle, quad_read_idle, rdsr, rdcr, wrsr, clsr, rdid, release}
use zipversa.FlashSim.{slow_read, fast_read, quad_read_cmd, quad_read, sector_erase, pp, qpp}
use zipversa.FlashSim.{
  bulk_erase, deep_power_down, dual_read_idle, dual_read_cmd, dual_read, invalid,
}
use zipversa.FlashSim.{qspi, qoreg, devid, devesd, update}

-- `m_addr = m_ireg & m_memmask; assert((m_addr & (~(m_memmask)))==0);`
unfoldable pub set_addr : Flash → Option Flash
set_addr s =
    let a = bit_and s.ireg s.memmask in
    if bit_and a (0xffffffff - s.memmask) == 0 then some (record s { addr = a }) else none

-- `QOREG(m_mem[m_addr++])`
unfoldable pub fetch : Flash → Flash
fetch s = qoreg (s.mem s.addr) (record s { addr = u32 (s.addr + 1) })

abbrev silent : Flash → Flash
silent s = record s { oreg = 0 }

-- `0 == (m_sreg & 0x01)`
abbrev pub ready : Flash → Bool
ready s = s.sreg % 2 == 0

unfoldable pub write_status : Flash → Option Flash
write_status s =
    if s.count == 16
    then some (record s { sreg = bit_or (bit_and s.sreg 0x061) (bit_and s.ireg 0x09c) })
    else if s.count == 24
    then some (record s { creg = bit_or (bit_and s.creg 0x0fd) (bit_and s.ireg 0x02) })
    else none

-- C++ leaves the shift undefined for a count above 32; here it is then a shift by 0.
unfoldable pub read_id : Flash → Flash
read_id s = qoreg (devid / 2 ^ (32 - s.count)) s

unfoldable pub slow : Flash → Option Flash
slow s =
    if s.count == 32
    then Option.map (λ s1. fetch s1) (set_addr s)
    else if leb 40 s.count && ready s
    then some (fetch s)
    else some (silent s)

unfoldable pub fast : Flash → Option Flash
fast s =
    if s.count == 32
    then Option.map (λ s1. qoreg 0x0c3 s1) (set_addr s)
    else if leb 40 s.count && ready s
    then some (fetch s)
    else some (silent s)

unfoldable pub dual_command : Flash → Option Flash
dual_command s =
    if s.count == 32
    then set_addr s
    else if (s.count == 40) && ready s
    then some (fetch (record s { mode_byte = s.ireg % 256 }))
    else if ltb 40 s.count && ready s
    then some (fetch s)
    else some (silent s)

unfoldable pub quad_command : Flash → Option Flash
quad_command s =
    if s.count == 32
    then set_addr s
    else if s.count == 40
    then (let s1 = record s { mode_byte = s.ireg % 256 } in
        some (if s.ndummy == 2 then fetch s1 else s1))
    else if ltb (32 + 4 * s.ndummy) s.count && ready s
    then some (fetch s)
    else some (silent s)

unfoldable pub dual : Flash → Flash
dual s = fetch (if s.count == 32 then record s { mode_byte = s.ireg % 256 } else s)

unfoldable pub quad : Flash → Flash
quad s =
    if s.count == 32
    then (let s1 = record s { mode_byte = s.ireg % 256 } in if s.ndummy == 2 then fetch s1 else s1)
    else if leb (24 + 4 * s.ndummy) s.count && ready s
    then fetch s
    else silent s

-- `m_pmem[m_addr & 0x0ff] = m_ireg & 0x0ff;` and the address of the next byte of the page.
unfoldable pub fill_page : Flash → Flash
fill_page s = record s {
  pmem = update s.pmem (s.addr % 256) (s.ireg % 256);
  addr = s.addr / 2 ^ 8 * 2 ^ 8 + (s.addr + 1) % 256;
}

abbrev blank_page : Flash → Flash
blank_page s = record s { pmem = λ i. if ltb i 256 then 0xff else s.pmem i }

unfoldable pub page : Flash → Option Flash
page s =
    if s.count == 32
    then Option.map (λ s1. blank_page s1) (set_addr s)
    else if leb 40 s.count
    then some (fill_page s)
    else some s

unfoldable pub quad_page : Flash → Option Flash
quad_page s =
    if s.count == 32
    then Option.map (λ s1. blank_page (record s1 { mode = qspi })) (set_addr s)
    else if leb 40 s.count
    then some (fill_page s)
    else some s

-- The assertion holds for the addresses of the low 4 MB.
unfoldable pub sector_addr : Flash → Option Flash
sector_addr s =
    if s.count == 32
    then (let a = bit_and s.ireg 0x0ffc000 in
        if bit_and a 0xfc00000 == 0 then some (record s { addr = a }) else none)
    else some s

-- `switch(m_state)`
unfoldable pub transfer : State → Flash → Option Flash
transfer idle s = some (record s { idle_throttle = true })
transfer wrsr s = write_status s
transfer clsr s = none
transfer rdid s = some (read_id s)
transfer rdsr s = some (qoreg s.sreg s)
transfer rdcr s = some (qoreg s.creg s)
transfer slow_read s = slow s
transfer fast_read s = fast s
transfer dual_read_cmd s = dual_command s
transfer quad_read_cmd s = quad_command s
transfer dual_read s = some (dual s)
transfer quad_read s = some (quad s)
transfer pp s = page s
transfer qpp s = quad_page s
transfer sector_erase s = sector_addr s
transfer release s = some (if leb 32 s.count then qoreg devesd s else s)
transfer quad_read_idle s = some s
transfer bulk_erase s = some s
transfer deep_power_down s = some s
transfer dual_read_idle s = some s
transfer invalid s = some s

abbrev throttle : State → Bool → Bool
throttle idle b = b
throttle x b = false

unfoldable pub next_byte : Flash → Option Flash
next_byte s =
    let s1 = qoreg 0 s in
    transfer s.state (record s1 { idle_throttle = throttle s.state s.idle_throttle })
