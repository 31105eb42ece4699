-- ===== src/FlashSim/CommandLaws.antt =====
-- The write-enable latch of FLASHSIM (sim/verilated/flashsim.cpp): what a command and the bytes
-- after it can do while the latch is clear.
use zipversa.Base.{ℕ, ◌/◌, ◌%◌, ◌≡◌, ◌≢◌, refl, arith, ◌==◌}
use zipversa.Base.{
  Bool, true, false, Option, none, some, bit_and, bit_or, if◌then◌else◌, Bool-cases,
}
use zipversa.Base.{inl, inr, not, ◌&&◌}
use zipversa.Base.Bits.{bit_and_step, bit_or_step}
use zipversa.FlashSim.{Flash, State, wrsr}
use zipversa.FlashSim.{sector_erase, pp, qpp}
use zipversa.FlashSim.{bulk_erase}
use zipversa.FlashSim.{qoreg, deep_sleep}
use zipversa.FlashSim.Command.{guarded, leave_sleep, enter_sleep, decode, command}

-- The write-enable latch.
abbrev pub wel : ℕ → ℕ
wel sreg = sreg / 2 % 2

-- The states whose transaction does not change the memory when it ends.
abbrev pub harmless : State → Bool
harmless pp = false
harmless qpp = false
harmless sector_erase = false
harmless bulk_erase = false
harmless x = true

pub wel-bit_and : (a m : ℕ) → wel a ≡ 0 → wel (bit_and a m) ≡ 0
wel-bit_and a m h = ground (arith, bit_and_step a m, bit_and_step (a / 2) (m / 2))

pub wel-bit_or : (a m : ℕ) → wel a ≡ 0 → wel m ≡ 0 → wel (bit_or a m) ≡ 0
wel-bit_or a m h h1 = ground (arith, bit_or_step a m, bit_or_step (a / 2) (m / 2))

pub wel_mask : (a m : ℕ) → wel m ≡ 0 → wel (bit_and a m) ≡ 0
wel_mask a m h = ground (arith, bit_and_step a m, bit_and_step (a / 2) (m / 2))

no_guard : (a : ℕ) → wel a ≡ 0 → (bit_and a 0x203 == 2) ≡ false
no_guard a h = ground (arith, bit_and_step a 0x203, bit_and_step (a / 2) 0x101)

-- The latch is clear, and the transaction in progress changes nothing.
abbrev pub IsLocked : Flash → Type 0
IsLocked s = (wel s.sreg ≡ 0) × (harmless s.state ≡ true)

-- A result, if there is one, that is locked and holds the memory `m`.
abbrev pub Safe : (ℕ → ℕ) → Option Flash → Type 0
Safe m none = Unit
Safe m (some s) = IsLocked s × (s.mem ≡ m)

guarded-Safe : (next : State) (s : Flash) → wel s.sreg ≡ 0 → Safe s.mem (some (guarded next s))
unfolding guarded
guarded-Safe next s h = rw (no_guard s.sreg h) ((h, refl), refl)

leave_sleep-Safe : (s : Flash) → wel s.sreg ≡ 0 → Safe s.mem (some (leave_sleep s))
unfolding leave_sleep
leave_sleep-Safe s h = elim (Bool-cases (deep_sleep s)) [
  | inl e ↦ rw e ((wel-bit_and s.sreg _ h, refl), refl)
  | inr e ↦ rw e ((h, refl), refl)
]

enter_sleep-Safe : (s : Flash) → wel s.sreg ≡ 0 → Safe s.mem (some (enter_sleep s))
unfolding enter_sleep
enter_sleep-Safe s h = elim (Bool-cases (s.sreg % 2 == 0)) [
  | inl e ↦ rw e ((wel-bit_or s.sreg _ h refl, refl), refl)
  | inr e ↦ rw e ((h, refl), refl)
]

pub if_Safe :
    (m : ℕ → ℕ) (b : Bool) (x y : Option Flash)
    → (b ≡ true → Safe m x)
    → (b ≡ false → Safe m y)
    → Safe m (if b then x else y)
if_Safe m true x y h1 h2 = h1 refl
if_Safe m false x y h1 h2 = h2 refl

-- A choice between two results that both exist.
pub choice-Safe :
    (m : ℕ → ℕ) (b : Bool) (x y : Flash)
    → Safe m (some x)
    → Safe m (some y)
    → Safe m (some (if b then x else y))
choice-Safe m true x y h1 h2 = h1
choice-Safe m false x y h1 h2 = h2

decode-Safe : (c : ℕ) (s : Flash) → (c ≢ 0x06) → IsLocked s → Safe s.mem (decode c s)
unfolding decode
decode-Safe c s n (h, k) =
    if_Safe s.mem (c == 0x01) _ _ (λ e. guarded-Safe wrsr s h)
      (λ e1.
        if_Safe s.mem (c == 0x02) _ _ (λ e. guarded-Safe pp s h)
          (λ e1.
            if_Safe s.mem (c == 0x03) _ _ (λ e. ((h, refl), refl))
              (λ e1.
                if_Safe s.mem (c == 0x04) _ _ (λ e. ((wel-bit_and s.sreg _ h, refl), refl))
                  (λ e1.
                    if_Safe s.mem (c == 0x05) _ _ (λ e. ((h, refl), refl))
                      (λ e1.
                        if_Safe s.mem (c == 0x06) _ _ (λ e. absurd (n (ground arith)))
                          (λ e1.
                            if_Safe s.mem (c == 0x0b) _ _ (λ e. ((h, refl), refl))
                              (λ e1.
                                if_Safe s.mem (c == 0x30) _ _ (λ e. ((h, refl), refl))
                                  (λ e1.
                                    if_Safe s.mem (c == 0x32) _ _ (λ e. guarded-Safe qpp s h)
                                      (λ e1.
                                        if_Safe s.mem (c == 0x35) _ _ (λ e. ((h, refl), refl))
                                          (λ e1.
                                            if_Safe s.mem (c == 0x50) _ _ (λ e. ((h, refl), refl))
                                              (λ e1.
                                                if_Safe s.mem (c == 0x61) _ _
                                                  (λ e. ((h, refl), refl))
                                                  (λ e1.
                                                    if_Safe s.mem (c == 0x70) _ _
                                                      (λ e. ((h, refl), refl))
                                                      (λ e1.
                                                        if_Safe s.mem (c == 0x81) _ _
                                                          (λ e. ((h, k), refl))
                                                          (λ e1.
                                                            if_Safe s.mem (c == 0x9f) _ _
                                                            (λ e. ((h, refl), refl))
                                                            (λ e1.
                                                            if_Safe s.mem (c == 0xab) _ _
                                                            (λ e. leave_sleep-Safe s h)
                                                            (λ e1.
                                                            if_Safe s.mem (c == 0xb9) _ _
                                                            (λ e. enter_sleep-Safe s h)
                                                            (λ e1.
                                                            if_Safe s.mem (c == 0xbb) _ _
                                                            (λ e. ((h, refl), refl))
                                                            (λ e1.
                                                            if_Safe s.mem (c == 0xc7) _ _
                                                            (λ e. guarded-Safe bulk_erase s h)
                                                            (λ e1.
                                                            if_Safe s.mem (c == 0xd8) _ _
                                                            (λ e. guarded-Safe sector_erase s h)
                                                            (λ e1.
                                                            if_Safe s.mem (c == 0xeb) _ _
                                                            (λ e. ((h, refl), refl))
                                                            (λ e1.
                                                            if_Safe s.mem (c == 0x00) _ _
                                                            (λ e. ((h, refl), refl))
                                                            (λ e1.
                                                            if_Safe s.mem (c == 0xff) _ _
                                                            (λ e. ((h, refl), refl))
                                                            (λ e1. tt)))))))))))))))))))))))

-- A first byte other than write enable leaves a locked flash locked, and its memory as it was.
pub command-Safe : (s : Flash) → (s.ireg % 256 ≢ 0x06) → IsLocked s → Safe s.mem (command s)
unfolding command
command-Safe s n (h, k) =
    if_Safe s.mem (deep_sleep (qoreg 0x0a5 s) && not (s.ireg % 256 == 0xab)) (some (qoreg 0x0a5 s))
      _ (λ e. ((h, k), refl)) (λ e. decode-Safe _ (qoreg 0x0a5 s) n (h, k))
