-- ===== src/FlashSim.antt =====
-- FLASHSIM, the simulated SPI flash (sim/verilated/flashsim.cpp, flashsim.h): its state, its
-- constants and its accessors. `Select` is what happens when the chip is deselected, `Command` the
-- first byte of a transaction, `Data` the bytes after it, `Clock` one clock of the device.
pub mod Select
pub mod Command
pub mod Data
pub mod Clock
pub mod SelectLaws
pub mod CommandLaws
pub mod DataLaws
pub mod ClockLaws
pub mod MemoryLaws
use zipversa.Base.{ℕ, ◌+◌, ◌-◌, ◌*◌, ◌/◌, ◌%◌, ◌^◌, ◌<◌, ◌≡◌, ◌⊎◌}
use zipversa.Base.{Bool, true, false, not, ◌&&◌, if◌then◌else◌, ltb, leb, ◌==◌, bit_and, bit_or}
use zipversa.Base.{arith}
use zipversa.Base.Bits.{u32}

pub data State : Type 0 where
  idle : State
  quad_read_idle : State
  rdsr : State
  rdcr : State
  wrsr : State
  clsr : State
  rdid : State
  release : State
  slow_read : State
  fast_read : State
  quad_read_cmd : State
  quad_read : State
  sector_erase : State
  pp : State
  qpp : State
  bulk_erase : State
  deep_power_down : State
  dual_read_idle : State
  dual_read_cmd : State
  dual_read : State
  invalid : State

pub data Mode : Type 0 where
  spi : Mode
  dspi : Mode
  qspi : Mode

-- The memory and the page buffer hold bytes. An index beyond `membytes` is the host's memory next to
-- the array.
pub record Flash : Type 0 where
  pub state : State
  pub mem : ℕ → ℕ
  pub pmem : ℕ → ℕ
  pub last_sck : ℕ
  pub write_count : ℕ
  pub ireg : ℕ
  pub oreg : ℕ
  pub sreg : ℕ
  pub addr : ℕ
  pub count : ℕ
  pub mode_byte : ℕ
  pub creg : ℕ
  pub membytes : ℕ
  pub memmask : ℕ
  pub idle_throttle : Bool
  pub mode : Mode
  pub ndummy : ℕ

-- A clock rate of 100 MHz.
abbrev pub devid : ℕ
devid = 0x01152340

abbrev pub devesd : ℕ
devesd = 0x014

abbrev clkrate_hz : ℕ
clkrate_hz = 100000000

abbrev microseconds : ℕ
microseconds = (clkrate_hz + 1) / 1000000

abbrev milliseconds : ℕ
milliseconds = (clkrate_hz + 1) / 1000

abbrev pub t_w : ℕ
t_w = 50 * microseconds

abbrev pub t_be : ℕ
t_be = 32 * clkrate_hz

abbrev pub t_dp : ℕ
t_dp = 10 * clkrate_hz

abbrev pub t_res : ℕ
t_res = 30 * clkrate_hz

abbrev pub t_pp : ℕ
t_pp = 12 * microseconds

abbrev pub t_se : ℕ
t_se = 15 * milliseconds

abbrev pub wip_flag : ℕ
wip_flag = 0x0001

abbrev pub wel_flag : ℕ
wel_flag = 0x0002

abbrev pub deep_power_down_flag : ℕ
deep_power_down_flag = 0x0200

-- The constructor. What it leaves unset (`m_addr`, `m_count`, the page buffer) is given.
unfoldable pub new : ℕ → ℕ → ℕ → ℕ → (ℕ → ℕ) → Flash
new lglen ndummy addr count pmem = record {
  state = idle;
  mem = λ i. 0xff;
  pmem = pmem;
  last_sck = 1;
  write_count = 0;
  ireg = 0;
  oreg = 0;
  sreg = 0x01c;
  addr = addr;
  count = count;
  mode_byte = 0;
  creg = 0x001;
  membytes = 2 ^ lglen;
  memmask = 2 ^ lglen - 1;
  idle_throttle = false;
  mode = spi;
  ndummy = ndummy;
}

-- `load(addr, fname)`, where the file gave `nr` bytes of at most `m_membytes - addr`: the rest of
-- the memory is erased.
unfoldable pub load_file : ℕ → ℕ → (ℕ → ℕ) → Flash → Flash
load_file addr nr file s = if leb s.membytes addr then s else record s {
  mem = λ i.
      if ltb i addr
      then s.mem i
      else if ltb i (addr + nr)
      then file (i - addr)
      else if ltb i s.membytes
      then 0xff
      else s.mem i;
}

-- `load(offset, data, len)`
unfoldable pub load_data : ℕ → (ℕ → ℕ) → ℕ → Flash → Flash
load_data offset data_of len s =
    let moff = bit_and offset s.memmask in
    record s { mem = λ i. if leb moff i && ltb i (moff + len) then data_of (i - moff) else s.mem i }

-- `x & ~flag` for a flag of one bit.
abbrev pub clear_flag : ℕ → ℕ → ℕ
clear_flag flag x = bit_and x (0xffffffff - flag)

-- `deep_sleep()`
unfoldable pub deep_sleep : Flash → Bool
deep_sleep s = not (bit_and s.sreg deep_power_down_flag == 0)

unfoldable pub set_deep_sleep : Bool → Flash → Flash
set_deep_sleep newval s = record s {
  sreg =
      if newval then bit_or s.sreg deep_power_down_flag else clear_flag deep_power_down_flag s.sreg;
}

-- `QOREG(a)`
abbrev pub qoreg : ℕ → Flash → Flash
qoreg a s = record s { oreg = s.oreg / 256 * 256 + a % 256 }

-- `operator[]`: the word at a word index, big-endian.
unfoldable pub word_at : Flash → ℕ → ℕ
word_at s index =
    let i = index * 4 in
    u32 (((s.mem i * 256 + s.mem (i + 1)) * 256 + s.mem (i + 2)) * 256 + s.mem (i + 3))

abbrev pub update : (ℕ → ℕ) → ℕ → ℕ → ℕ → ℕ
update f i v j = if j == i then v else f j

unfoldable pub set_word : ℕ → ℕ → Flash → Flash
set_word addr val s =
    let i = addr * 4 in
    let m0 = update s.mem i (val / 2 ^ 24 % 256) in
    let m1 = update m0 (i + 1) (val / 2 ^ 16 % 256) in
    let m2 = update m1 (i + 2) (val / 2 ^ 8 % 256) in
    record s { mem = update m2 (i + 3) (val % 256) }

-- A 32-bit word written by `set` is the one that `operator[]` reads back at its index.
pub word_at-set_word :
    (s : Flash) (addr val : ℕ) → val < 2 ^ 32 → word_at (set_word addr val s) addr ≡ val
unfolding word_at set_word
word_at-set_word s addr val h = ground arith

-- `set` changes the word at no other index.
pub word_at-set_word_other :
    (s : Flash) (addr val other : ℕ)
    → (addr < other) ⊎ (other < addr)
    → word_at (set_word addr val s) other ≡ word_at s other
unfolding word_at set_word
word_at-set_word_other s addr val other h = ground arith
