-- ===== src/FlashSim/SelectLaws.antt =====
-- What the end of a transaction does to the memory and to the status of FLASHSIM
-- (sim/verilated/flashsim.cpp), and how long the device is then busy.
use zipversa.Base.{ℕ, zero, suc, ◌+◌, ◌-◌, ◌/◌, ◌%◌, ◌<◌, ◌≡◌, refl, arith, ap}
use zipversa.Base.{false, bit_and}
use zipversa.Base.Bits.{bit_and_step, bit_or_step}
use zipversa.FlashSim.{Flash, State, idle, pp, sector_erase, wip_flag, wel_flag}
use zipversa.FlashSim.{qpp, bulk_erase, quad_read_idle, rdsr, rdcr, wrsr, clsr, rdid, release}
use zipversa.FlashSim.{slow_read, fast_read, quad_read_cmd, quad_read, deep_power_down}
use zipversa.FlashSim.{dual_read_idle, dual_read_cmd, dual_read, invalid, clear_flag}
use mathlib.Core.Bool.{true≢false}
use zipversa.FlashSim.Select.{busy, program_page, erase_sector, erase_bulk, finish, deselect}
use zipversa.FlashSim.Clock.{count_down}
use zipversa.FlashSim.CommandLaws.{wel, harmless}

busy-flags : (a : ℕ) → (wel (busy a) ≡ 0) × (busy a % 2 ≡ 1)
busy-flags a = ground (
  arith,
  bit_or_step (clear_flag wel_flag a) wip_flag,
  bit_or_step (clear_flag wel_flag a / 2) 0,
  bit_and_step a (0xffffffff - wel_flag),
  bit_and_step (a / 2) 0x7ffffffe,
)

-- Busy with a program or an erase: idle, with write in progress and without write enable.
abbrev pub IsBusy : Flash → Type 0
IsBusy s = (s.state ≡ idle) × (wel s.sreg ≡ 0) × (s.sreg % 2 ≡ 1) × (0 < s.write_count)

finish-IsBusy : (t : State) (s : Flash) → harmless t ≡ false → IsBusy (finish t s)
unfolding finish program_page erase_sector erase_bulk
finish-IsBusy pp s e = (refl, (busy-flags s.sreg).0, (busy-flags s.sreg).1, omega arith)
finish-IsBusy qpp s e = (refl, (busy-flags s.sreg).0, (busy-flags s.sreg).1, omega arith)
finish-IsBusy sector_erase s e = (refl, (busy-flags s.sreg).0, (busy-flags s.sreg).1, omega arith)
finish-IsBusy bulk_erase s e = (refl, (busy-flags s.sreg).0, (busy-flags s.sreg).1, omega arith)
finish-IsBusy idle s e = absurd (true≢false e)
finish-IsBusy quad_read_idle s e = absurd (true≢false e)
finish-IsBusy rdsr s e = absurd (true≢false e)
finish-IsBusy rdcr s e = absurd (true≢false e)
finish-IsBusy wrsr s e = absurd (true≢false e)
finish-IsBusy clsr s e = absurd (true≢false e)
finish-IsBusy rdid s e = absurd (true≢false e)
finish-IsBusy release s e = absurd (true≢false e)
finish-IsBusy slow_read s e = absurd (true≢false e)
finish-IsBusy fast_read s e = absurd (true≢false e)
finish-IsBusy quad_read_cmd s e = absurd (true≢false e)
finish-IsBusy quad_read s e = absurd (true≢false e)
finish-IsBusy deep_power_down s e = absurd (true≢false e)
finish-IsBusy dual_read_idle s e = absurd (true≢false e)
finish-IsBusy dual_read_cmd s e = absurd (true≢false e)
finish-IsBusy dual_read s e = absurd (true≢false e)
finish-IsBusy invalid s e = absurd (true≢false e)

-- The end of every transaction that changes the memory clears the write-enable latch, sets write in
-- progress and starts the timer.
pub deselect-IsBusy : (s : Flash) → harmless s.state ≡ false → IsBusy (deselect s)
unfolding deselect
deselect-IsBusy s e =
    finish-IsBusy s.state (record s { last_sck = 1; ireg = 0; oreg = 0; count = 0 }) e

-- The timer alone, for `n` clocks.
abbrev pub wait : ℕ → Flash → Flash
wait zero s = s
wait (suc n) s = wait n (count_down s)

count_down_more :
    (s : Flash) (k : ℕ)
    → s.write_count ≡ suc (suc k)
    → count_down s ≡ record s { write_count = suc k }
unfolding count_down
count_down_more s k e = ground arith

count_down_last :
    (s : Flash)
    → s.write_count ≡ 1
    → count_down s ≡ record s { write_count = 0; sreg = bit_and s.sreg 0x0fc }
unfolding count_down
count_down_last s e = ground arith

-- While the timer runs, nothing but the timer changes.
pub wait_some :
    (n m : ℕ) (s : Flash) → s.write_count ≡ n + suc m → wait n s ≡ record s { write_count = suc m }
wait_some zero m s e =
    ap (λ (c : ℕ). record s { write_count = c }) {x = s.write_count} (omega (arith, e))
wait_some (suc n) m s e =
    rw (count_down_more s (n + m) (omega (arith, e)))
      (wait_some n m (record s { write_count = suc (n + m) }) (omega arith))

-- The last of the `write_count` clocks of the timer clears write in progress, but masks the status
-- register with 0xfc: write enable and every flag above bit 7, as deep power down, are cleared too.
pub wait_all :
    (n : ℕ) (s : Flash)
    → s.write_count ≡ suc n
    → wait (suc n) s ≡ record s { write_count = 0; sreg = bit_and s.sreg 0x0fc }
wait_all zero s e = count_down_last s e
wait_all (suc n) s e =
    rw (count_down_more s n e) (wait_all n (record s { write_count = suc n }) refl)
