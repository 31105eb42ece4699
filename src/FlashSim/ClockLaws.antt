-- ===== src/FlashSim/ClockLaws.antt =====
-- The memory of FLASHSIM under a sequence of clocks (sim/verilated/flashsim.cpp).
use zipversa.Base.{ℕ, ◌-◌, ◌≡◌, refl, ◌==◌, ◌||◌, not, bit_and}
use zipversa.Base.{true, some, if◌then◌else◌, ap, sym, ◌∙◌}
use mathlib.Core.Bool.{true≢false}
use zipversa.FlashSim.{Flash, State, idle, quad_read_idle, rdsr, rdcr, wrsr, clsr, rdid, release}
use zipversa.FlashSim.{slow_read, fast_read, quad_read_cmd, quad_read, sector_erase, pp, qpp}
use zipversa.FlashSim.{
  bulk_erase, deep_power_down, dual_read_idle, dual_read_cmd, dual_read, invalid,
}
use zipversa.FlashSim.{Mode, spi, deep_sleep, wip_flag}
use zipversa.FlashSim.Select.{finish, deselect, busy}
use zipversa.FlashSim.Clock.{count_down, resume, same_mode}
use zipversa.FlashSim.CommandLaws.{
  IsLocked, Safe, if_Safe, choice-Safe, harmless, wel, wel-bit_and, wel-bit_or,
}
use zipversa.FlashSim.DataLaws.{set_addr-Safe}

busy-wel : (sreg : ℕ) → wel sreg ≡ 0 → wel (busy sreg) ≡ 0
busy-wel sreg h = wel-bit_or _ wip_flag (wel-bit_and sreg _ h) refl

end_read-Safe :
    (t : State) (s : Flash)
    → harmless t ≡ true
    → IsLocked s
    → Safe s.mem (
        some (
          if bit_and s.mode_byte 0x0f0 == 0x0a0
          then record s { state = t }
          else record s { mode = spi }))
end_read-Safe t s k l =
    choice-Safe s.mem (bit_and s.mode_byte 0x0f0 == 0x0a0) (record s { state = t })
      (record s { mode = spi }) ((l.0, k), refl) (l, refl)

finish-Safe : (t : State) (s : Flash) → s.state ≡ t → IsLocked s → Safe s.mem (some (finish t s))
unfolding finish
finish-Safe pp s e (h, k) = absurd (true≢false (sym k ∙ ap harmless e))
finish-Safe qpp s e (h, k) = absurd (true≢false (sym k ∙ ap harmless e))
finish-Safe sector_erase s e (h, k) = absurd (true≢false (sym k ∙ ap harmless e))
finish-Safe bulk_erase s e (h, k) = absurd (true≢false (sym k ∙ ap harmless e))
finish-Safe wrsr s e (h, k) = ((busy-wel s.sreg h, refl), refl)
finish-Safe clsr s e (h, k) = ((wel-bit_and s.sreg _ h, refl), refl)
finish-Safe deep_power_down s e (h, k) = ((h, refl), refl)
finish-Safe release s e (h, k) = ((h, refl), refl)
finish-Safe quad_read_cmd s e l = end_read-Safe quad_read_idle s refl l
finish-Safe dual_read_cmd s e l = end_read-Safe dual_read_idle s refl l
finish-Safe quad_read s e l = end_read-Safe quad_read_idle s refl l
finish-Safe dual_read s e l = end_read-Safe dual_read_idle s refl l
finish-Safe idle s e l = (l, refl)
finish-Safe quad_read_idle s e l = (l, refl)
finish-Safe rdsr s e l = (l, refl)
finish-Safe rdcr s e l = (l, refl)
finish-Safe rdid s e l = (l, refl)
finish-Safe slow_read s e l = (l, refl)
finish-Safe fast_read s e l = (l, refl)
finish-Safe dual_read_idle s e l = (l, refl)
finish-Safe invalid s e l = (l, refl)

pub deselect-Safe : (s : Flash) → IsLocked s → Safe s.mem (some (deselect s))
unfolding deselect
deselect-Safe s l =
    finish-Safe s.state (record s { last_sck = 1; ireg = 0; oreg = 0; count = 0 }) refl l

pub count_down-Safe : (s : Flash) → IsLocked s → Safe s.mem (some (count_down s))
unfolding count_down
count_down-Safe s (h, k) =
    choice-Safe s.mem (s.write_count == 0) s _ ((h, k), refl)
      (choice-Safe s.mem (s.write_count == 1)
        (record s { write_count = 0; sreg = bit_and s.sreg 0x0fc })
        (record s { write_count = s.write_count - 1 }) ((wel-bit_and s.sreg _ h, k), refl)
        ((h, k), refl))

pub resume-Safe :
    (m : Mode) (t : State) (s : Flash) → harmless t ≡ true → IsLocked s → Safe s.mem (resume m t s)
unfolding resume
resume-Safe m t s k l =
    if_Safe s.mem (deep_sleep s || not (same_mode s.mode m)) _ _ (λ e. tt)
      (λ e.
        if_Safe s.mem (s.count == 24) _ (some (record s { oreg = 0 }))
          (λ e. set_addr-Safe s _ (λ a. ((l.0, k), refl))) (λ e. (l, refl)))
