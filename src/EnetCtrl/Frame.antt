-- ===== src/EnetCtrl/Frame.antt =====
-- The commands of ENETCTRLSIM as fields of the shift register (sim/verilated/enetctrlsim.cpp).
use zipversa.Base.{ℕ, ◌+◌, ◌*◌, ◌^◌, ◌<◌, ◌≡◌, arith, ◌==◌, bit_and}
use zipversa.Base.{if◌then◌else◌, some}
use zipversa.Base.Bits.{bit_and_fields, bit_and_mask, bit_and-zero}
use zipversa.EnetCtrl.{Phy, ones, full_command}

-- A write frame of register `r` of the transceiver at address 1: start, write, the addresses, the
-- turnaround 10 and the value.
abbrev pub write_frame : ℕ → ℕ → ℕ
write_frame r v = 5 * 2 ^ 28 + 1 * 2 ^ 23 + r * 2 ^ 18 + 2 * 2 ^ 16 + v

-- Bit 16, the second of the turnaround.
turnaround : (a v : ℕ) → v < 2 ^ 16 → bit_and (a * 2 * 2 ^ 16 + v) 0x010000 ≡ 0
turnaround a v h =
    ground (
      arith,
      bit_and_fields 16 (a * 2) v 1 0 h (omega arith),
      bit_and_mask 1 (a * 2),
      bit_and-zero v,
    )

-- With a write frame of a register below 32 and a value of 16 bits in the shift register, the
-- command succeeds: the register has the value, every other one is as it was, and the receiver
-- waits for the next frame.
pub full_command-write :
    (p : Phy) (r v : ℕ)
    → r < 32
    → v < 2 ^ 16
    → p.datareg ≡ write_frame r v
    → full_command p
      ≡ some (record p { halfword = 0; datareg = ones; mem = λ j. if j == r then v else p.mem j })
unfolding full_command
full_command-write p r v h1 h2 e =
    rw e (ground (arith, turnaround (5 * 2 ^ 11 + 1 * 2 ^ 6 + r * 2 + 1) v h2))
