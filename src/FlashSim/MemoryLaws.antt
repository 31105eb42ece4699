-- ===== src/FlashSim/MemoryLaws.antt =====
-- The memory of FLASHSIM under a sequence of clocks (sim/verilated/flashsim.cpp).
use zipversa.Base.{ℕ, ◌%◌, ◌≡◌, refl, ◌==◌, ◌&&◌, ◌||◌, not, arith}
use zipversa.Base.{Bool, true, false, Option, none, some, if◌then◌else◌, sym, ◌∙◌, List, [], ◌∷◌}
use mathlib.Core.Option
use mathlib.Core.Bool.{true≢false}
use mathlib.Core.Path.{subst}
use zipversa.FlashSim.{Flash, State, idle, quad_read_idle, rdsr, rdcr, wrsr, clsr, rdid, release}
use zipversa.FlashSim.{slow_read, fast_read, quad_read_cmd, quad_read, sector_erase, pp, qpp}
use zipversa.FlashSim.{
  bulk_erase, deep_power_down, dual_read_idle, dual_read_cmd, dual_read, invalid,
}
use zipversa.FlashSim.{dspi, qspi}
use zipversa.FlashSim.Select.{deselect}
use zipversa.FlashSim.Clock.{count_down, shift_in, by_count, process, clock, output, Pins, clocks}
use zipversa.FlashSim.CommandLaws.{IsLocked, Safe, if_Safe, command-Safe}
use zipversa.FlashSim.DataLaws.{next_byte-Safe}
use zipversa.FlashSim.ClockLaws.{deselect-Safe, count_down-Safe, resume-Safe}

-- The bits so far are the command byte of write enable.
abbrev is_wren : Flash → Bool
is_wren s = (s.count == 8) && (s.ireg % 256 == 0x06)

by_count-Safe : (s : Flash) → is_wren s ≡ false → IsLocked s → Safe s.mem (by_count s)
by_count-Safe s n l =
    if_Safe s.mem (s.count == 8) _ _ (λ e. command-Safe s (λ c. ground arith) l)
      (λ e.
        if_Safe s.mem ((s.count % 8 == 0) && not (s.count == 0)) _ _ (λ e1. next_byte-Safe s l)
          (λ e1. (l, refl)))

process-Safe : (t : State) (s : Flash) → is_wren s ≡ false → IsLocked s → Safe s.mem (process t s)
unfolding process
process-Safe quad_read_idle s n l = resume-Safe qspi quad_read s refl l
process-Safe dual_read_idle s n l = resume-Safe dspi dual_read s refl l
process-Safe idle s n l = by_count-Safe s n l
process-Safe rdsr s n l = by_count-Safe s n l
process-Safe rdcr s n l = by_count-Safe s n l
process-Safe wrsr s n l = by_count-Safe s n l
process-Safe clsr s n l = by_count-Safe s n l
process-Safe rdid s n l = by_count-Safe s n l
process-Safe release s n l = by_count-Safe s n l
process-Safe slow_read s n l = by_count-Safe s n l
process-Safe fast_read s n l = by_count-Safe s n l
process-Safe quad_read_cmd s n l = by_count-Safe s n l
process-Safe quad_read s n l = by_count-Safe s n l
process-Safe sector_erase s n l = by_count-Safe s n l
process-Safe pp s n l = by_count-Safe s n l
process-Safe qpp s n l = by_count-Safe s n l
process-Safe bulk_erase s n l = by_count-Safe s n l
process-Safe deep_power_down s n l = by_count-Safe s n l
process-Safe dual_read_cmd s n l = by_count-Safe s n l
process-Safe dual_read s n l = by_count-Safe s n l
process-Safe invalid s n l = by_count-Safe s n l

-- This clock completes a write-enable command.
abbrev pub enables : Pins → Flash → Bool
enables p s =
    let s0 = count_down s in
    not p.csn && not ((s0.last_sck == 0) || (p.sck == s0.last_sck)) && is_wren (shift_in p.dat s0)

-- No clock of the sequence does.
abbrev pub never_enables : List Pins → Flash → Bool
never_enables [] s = true
never_enables (p ∷ ps) s =
    not (enables p s)
    && elim (clock p.csn p.sck p.dat s) [ none ↦ true | some (_, s1) ↦ never_enables ps s1 ]

abbrev After : (ℕ → ℕ) → Option (ℕ × Flash) → Type 0
After m none = Unit
After m (some (_, s)) = Safe m (some s)

map-After :
    (m : ℕ → ℕ) (dat sck : ℕ) (x : Option Flash)
    → Safe m x
    → After m
        (Option.map (λ (s : Flash). (output s.mode s.oreg dat, record s { last_sck = sck })) x)
map-After m dat sck none h = tt
map-After m dat sck (some s) h = h

shift_in-IsLocked : (dat : ℕ) (s : Flash) → IsLocked s → IsLocked (shift_in dat s)
unfolding shift_in
shift_in-IsLocked dat s l = l

shift_in-mem : (dat : ℕ) (s : Flash) → (shift_in dat s).mem ≡ s.mem
unfolding shift_in
shift_in-mem dat s = refl

-- The three ways of a clock, after the timer's count.
ways :
    (csn skip : Bool) (sck dat : ℕ) (m : ℕ → ℕ) (s : Flash)
    → (not csn && not skip && is_wren (shift_in dat s)) ≡ false
    → IsLocked s
    → s.mem ≡ m
    → After m (
        if csn
        then some (dat, deselect s)
        else if skip
        then some (output s.mode s.oreg dat, record s { last_sck = sck })
        else Option.map
            (λ (s1 : Flash). (output s1.mode s1.oreg dat, record s1 { last_sck = sck }))
            (process s.state (shift_in dat s)))
ways true skip sck dat m s n l e = let (k, q) = deselect-Safe s l in (k, q ∙ e)
ways false true sck dat m s n l e = (l, e)
ways false false sck dat m s n l e = map-After m dat sck _ (
    subst (λ f. Safe f (process s.state (shift_in dat s))) (shift_in-mem dat s ∙ e)
      (process-Safe s.state (shift_in dat s) n (shift_in-IsLocked dat s l)))

clock-After :
    (p : Pins) (s : Flash)
    → enables p s ≡ false
    → IsLocked s
    → After s.mem (clock p.csn p.sck p.dat s)
unfolding clock
clock-After p s n l =
    let s0 = count_down s in
    let (k, e) = count_down-Safe s l in
    ways p.csn ((s0.last_sck == 0) || (p.sck == s0.last_sck)) p.sck p.dat s.mem s0 n k e

-- The rest of the clocks, after one whose result is `x`.
rest-Safe :
    (ps : List Pins) (m m0 : ℕ → ℕ) (x : Option (ℕ × Flash)) (b : Bool)
    → ((s1 : Flash) → never_enables ps s1 ≡ true → IsLocked s1 → s1.mem ≡ m → Safe m (clocks ps s1))
    → (not b && elim x [ none ↦ true | some (_, s1) ↦ never_enables ps s1 ]) ≡ true
    → (b ≡ false → After m0 x)
    → m0 ≡ m
    → Safe m (elim x [ none ↦ none | some (_, s1) ↦ clocks ps s1 ])
rest-Safe ps m m0 none b ih h a e = tt
rest-Safe ps m m0 (some (r, s1)) true ih h a e = absurd (true≢false (sym h))
rest-Safe ps m m0 (some (r, s1)) false ih h a e = ih s1 h (a refl).0 ((a refl).1 ∙ e)

clocks-Safe :
    (ps : List Pins) (m : ℕ → ℕ) (s : Flash)
    → never_enables ps s ≡ true
    → IsLocked s
    → s.mem ≡ m
    → Safe m (clocks ps s)
unfolding clocks
clocks-Safe [] m s n l e = (l, e)
clocks-Safe (p ∷ ps) m s n l e =
    rest-Safe ps m s.mem (clock p.csn p.sck p.dat s) (enables p s)
      (λ s1 n1 l1 e1. clocks-Safe ps m s1 n1 l1 e1) n (λ h. clock-After p s h l) e

-- A flash whose write-enable latch is clear, and that is not in a program or an erase, is not
-- changed by any sequence of clocks without a write-enable command: if the sequence ends without a
-- failed assertion, then the memory is what it was, and the flash is still locked.
pub clocks-IsLocked :
    (ps : List Pins) (s s1 : Flash)
    → IsLocked s
    → never_enables ps s ≡ true
    → clocks ps s ≡ some s1
    → (s1.mem ≡ s.mem) × IsLocked s1
clocks-IsLocked ps s s1 l n e =
    let (k, q) = subst (Safe s.mem) e (clocks-Safe ps s.mem s n l refl) in (q, k)
