-- ===== src/FlashSim/DataLaws.antt =====
-- The bytes after a command, while the write-enable latch is clear (sim/verilated/flashsim.cpp).
use zipversa.Base.{ℕ, ◌+◌, ◌-◌, ◌*◌, ◌%◌, ◌≡◌, refl, ◌==◌, ltb, leb, bit_and, ◌&&◌}
use zipversa.Base.{true, false, none, some, if◌then◌else◌, ap, sym, ◌∙◌}
use mathlib.Core.Option
use mathlib.Core.Bool.{true≢false}
use zipversa.FlashSim.{Flash, State, idle, quad_read_idle, rdsr, rdcr, wrsr, clsr, rdid, release}
use zipversa.FlashSim.{slow_read, fast_read, quad_read_cmd, quad_read, sector_erase, pp, qpp}
use zipversa.FlashSim.{
  bulk_erase, deep_power_down, dual_read_idle, dual_read_cmd, dual_read, invalid,
}
use zipversa.FlashSim.{qoreg, devesd}
use zipversa.FlashSim.Data.{set_addr, fetch, ready, write_status, read_id, slow, fast}
use zipversa.FlashSim.Data.{dual_command, quad_command, dual, quad, transfer, next_byte}
use zipversa.FlashSim.CommandLaws.{
  harmless, wel-bit_or, wel_mask, IsLocked, Safe, if_Safe, choice-Safe,
}

-- What follows the reception of an address is as safe as it is for every address.
pub set_addr-Safe :
    (s : Flash) (f : Flash → Flash)
    → ((a : ℕ) → Safe s.mem (some (f (record s { addr = a }))))
    → Safe s.mem (Option.map f (set_addr s))
unfolding set_addr
set_addr-Safe s f h =
    elim (bit_and (bit_and s.ireg s.memmask) (0xffffffff - s.memmask) == 0)
      as (λ b.
        Safe s.mem (
          Option.map f (if b then some (record s { addr = bit_and s.ireg s.memmask }) else none))) [
            | true ↦ h (bit_and s.ireg s.memmask)
            | false ↦ tt
          ]

address-Safe : (s : Flash) → IsLocked s → Safe s.mem (set_addr s)
unfolding set_addr
address-Safe s l =
    if_Safe s.mem _ (some (record s { addr = bit_and s.ireg s.memmask })) none (λ e. (l, refl))
      (λ e. tt)

status-Safe : (s : Flash) → IsLocked s → Safe s.mem (write_status s)
unfolding write_status
status-Safe s (h, k) =
    if_Safe s.mem (s.count == 16) _ _
      (λ e. ((wel-bit_or _ _ (wel_mask s.sreg 0x061 refl) (wel_mask s.ireg 0x09c refl), k), refl))
      (λ e. if_Safe s.mem (s.count == 24) _ _ (λ e1. ((h, k), refl)) (λ e1. tt))

slow-Safe : (s : Flash) → IsLocked s → Safe s.mem (slow s)
unfolding slow fetch
slow-Safe s l =
    if_Safe s.mem (s.count == 32) _ _ (λ e. set_addr-Safe s _ (λ a. (l, refl)))
      (λ e.
        if_Safe s.mem _ (some (fetch s)) (some (record s { oreg = 0 })) (λ e. (l, refl))
          (λ e. (l, refl)))

fast-Safe : (s : Flash) → IsLocked s → Safe s.mem (fast s)
unfolding fast fetch
fast-Safe s l =
    if_Safe s.mem (s.count == 32) _ _ (λ e. set_addr-Safe s _ (λ a. (l, refl)))
      (λ e.
        if_Safe s.mem _ (some (fetch s)) (some (record s { oreg = 0 })) (λ e. (l, refl))
          (λ e. (l, refl)))

dual_command-Safe : (s : Flash) → IsLocked s → Safe s.mem (dual_command s)
unfolding dual_command fetch
dual_command-Safe s l =
    if_Safe s.mem (s.count == 32) _ _ (λ e. address-Safe s l)
      (λ e.
        if_Safe s.mem ((s.count == 40) && ready s)
          (some (fetch (record s { mode_byte = s.ireg % 256 }))) _ (λ e. (l, refl))
          (λ e.
            if_Safe s.mem (ltb 40 s.count && ready s) (some (fetch s))
              (some (record s { oreg = 0 })) (λ e. (l, refl)) (λ e. (l, refl))))

fetch-Safe : (s : Flash) → IsLocked s → Safe s.mem (some (fetch s))
unfolding fetch
fetch-Safe s l = (l, refl)

quad_command-Safe : (s : Flash) → IsLocked s → Safe s.mem (quad_command s)
unfolding quad_command
quad_command-Safe s l =
    let s1 : Flash = record s { mode_byte = s.ireg % 256 } in
    if_Safe s.mem (s.count == 32) _ _ (λ e. address-Safe s l)
      (λ e.
        if_Safe s.mem (s.count == 40) _ _
          (λ e. choice-Safe s.mem (s.ndummy == 2) (fetch s1) s1 (fetch-Safe s1 l) (l, refl))
          (λ e.
            if_Safe s.mem (ltb (32 + 4 * s.ndummy) s.count && ready s) (some (fetch s))
              (some (record s { oreg = 0 })) (λ e. fetch-Safe s l) (λ e. (l, refl))))

dual-Safe : (s : Flash) → IsLocked s → Safe s.mem (some (dual s))
unfolding dual
dual-Safe s l =
    let s1 : Flash = record s { mode_byte = s.ireg % 256 } in
    elim (s.count == 32) as (λ b. Safe s.mem (some (fetch (if b then s1 else s)))) [
      | true ↦ fetch-Safe s1 l
      | false ↦ fetch-Safe s l
    ]

quad-Safe : (s : Flash) → IsLocked s → Safe s.mem (some (quad s))
unfolding quad
quad-Safe s l =
    let s1 : Flash = record s { mode_byte = s.ireg % 256 } in
    choice-Safe s.mem (s.count == 32) _ _
      (choice-Safe s.mem (s.ndummy == 2) (fetch s1) s1 (fetch-Safe s1 l) (l, refl))
      (choice-Safe s.mem (leb (24 + 4 * s.ndummy) s.count && ready s) (fetch s)
        (record s { oreg = 0 }) (fetch-Safe s l) (l, refl))

-- The states whose bytes are for the memory cannot be reached: they are not harmless.
pub transfer-Safe : (t : State) (s : Flash) → s.state ≡ t → IsLocked s → Safe s.mem (transfer t s)
unfolding transfer read_id
transfer-Safe idle s e l = (l, refl)
transfer-Safe wrsr s e l = status-Safe s l
transfer-Safe clsr s e l = tt
transfer-Safe rdid s e l = (l, refl)
transfer-Safe rdsr s e l = (l, refl)
transfer-Safe rdcr s e l = (l, refl)
transfer-Safe slow_read s e l = slow-Safe s l
transfer-Safe fast_read s e l = fast-Safe s l
transfer-Safe dual_read_cmd s e l = dual_command-Safe s l
transfer-Safe quad_read_cmd s e l = quad_command-Safe s l
transfer-Safe dual_read s e l = dual-Safe s l
transfer-Safe quad_read s e l = quad-Safe s l
transfer-Safe release s e l =
    choice-Safe s.mem (leb 32 s.count) (qoreg devesd s) s (l, refl) (l, refl)
transfer-Safe quad_read_idle s e l = (l, refl)
transfer-Safe deep_power_down s e l = (l, refl)
transfer-Safe dual_read_idle s e l = (l, refl)
transfer-Safe invalid s e l = (l, refl)
transfer-Safe pp s e (h, k) = absurd (true≢false (sym k ∙ ap harmless e))
transfer-Safe qpp s e (h, k) = absurd (true≢false (sym k ∙ ap harmless e))
transfer-Safe sector_erase s e (h, k) = absurd (true≢false (sym k ∙ ap harmless e))
transfer-Safe bulk_erase s e (h, k) = absurd (true≢false (sym k ∙ ap harmless e))

pub next_byte-Safe : (s : Flash) → IsLocked s → Safe s.mem (next_byte s)
unfolding next_byte
next_byte-Safe s l = transfer-Safe s.state (record (qoreg 0 s) { idle_throttle = _ }) refl l
