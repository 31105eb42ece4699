-- ===== src/TbClock.antt =====
-- TBCLOCK, the clock of the simulation (sim/verilated/tbclock.h). Times are in picoseconds, an
-- unsigned long that the model does not wrap: 2 ^ 64 ps are over two hundred days.
use zipversa.Base.{ℕ, ◌+◌, ◌-◌, ◌*◌, ◌/◌, ◌≤◌, ◌<◌, ◌≡◌, ◌⊎◌, inl, inr, refl, arith}
use native.Mathlib.Decide.{dec_le, dec_lt}
use zipversa.Base.{Bool, true, false, if◌then◌else◌, ltb, leb, ◌==◌, Option, none, some}

pub record Clock : Type 0 where
  pub increment_ps : ℕ
  pub now_ps : ℕ
  pub last_posedge_ps : ℕ
  pub ticks : ℕ

-- `none` is a failed assertion.
-- `(interval_ps >> 1) & -2l`
unfoldable pub set_interval_ps : ℕ → Clock → Option Clock
set_interval_ps interval_ps c =
    let inc = interval_ps / 2 / 2 * 2 in
    if ltb 0 inc then some (record c { increment_ps = inc }) else none

abbrev from_low : Option Clock → Option Clock
from_low none = none
from_low (some c) = some (record c { now_ps = c.increment_ps + 1; last_posedge_ps = 0 })

unfoldable pub init : ℕ → Clock → Option Clock
init interval_ps c = from_low (set_interval_ps interval_ps c)

-- The default constructor: a period of 20000 ps.
unfoldable pub new : Clock
new = record { increment_ps = 10000; now_ps = 10000 + 1; last_posedge_ps = 0; ticks = 0 }

unfoldable pub time_to_edge : Clock → Option ℕ
time_to_edge c =
    if ltb c.now_ps c.last_posedge_ps
    then none
    else if ltb c.now_ps (c.last_posedge_ps + c.increment_ps)
    then some (c.last_posedge_ps + c.increment_ps - c.now_ps)
    else if ltb c.now_ps (c.last_posedge_ps + 2 * c.increment_ps)
    then some (c.last_posedge_ps + 2 * c.increment_ps - c.now_ps)
    else none

-- The level of the clock after `itime`, and its state.
unfoldable pub advance : ℕ → Clock → Option (Bool × Clock)
advance itime c =
    let now = c.now_ps + itime in
    if ltb itime (4 * c.increment_ps)
    then if leb (c.last_posedge_ps + 2 * c.increment_ps) now
      then some (
        true,
        record c {
          now_ps = now;
          last_posedge_ps = c.last_posedge_ps + 2 * c.increment_ps;
          ticks = c.ticks + 1;
        },
      )
      else if leb (c.last_posedge_ps + c.increment_ps) now
      then some (false, record c { now_ps = now })
      else some (true, record c { now_ps = now })
    else none

unfoldable pub rising_edge : Clock → Bool
rising_edge c = c.now_ps == c.last_posedge_ps

unfoldable pub falling_edge : Clock → Bool
falling_edge c = c.now_ps == c.last_posedge_ps + c.increment_ps

-- Now lies in the period that the last positive edge began.
pub record IsValid (c : Clock) : Type 0 where
  pub runs : 0 < c.increment_ps
  pub begun : c.last_posedge_ps ≤ c.now_ps
  pub within : c.now_ps < c.last_posedge_ps + 2 * c.increment_ps

pub new-IsValid : IsValid new
unfolding new
new-IsValid = omega arith

-- A clock set to an interval of at least 4 ps is valid, and low: its first edge is a rising one.
pub init-IsValid :
    (interval_ps : ℕ) (c : Clock)
    → 4 ≤ interval_ps
    → (d : Clock) × (init interval_ps c ≡ some d)
      × IsValid d
      × (d.increment_ps * 2 ≤ interval_ps)
      × (interval_ps < d.increment_ps * 2 + 4)
unfolding init set_interval_ps
init-IsValid interval_ps c h =
    let inc = interval_ps / 2 / 2 * 2 in
    (
      record c { increment_ps = inc; now_ps = inc + 1; last_posedge_ps = 0 },
      ground arith,
      ground arith,
      ground arith,
      ground arith,
    )

-- From a valid clock neither assertion of `time_to_edge` fails, and waiting that long ends exactly
-- at an edge: a rising one with the clock high and one more tick, or a falling one with it low.
pub advance-time_to_edge :
    (c : Clock)
    → IsValid c
    → (t : ℕ) × (time_to_edge c ≡ some t)
      × (0 < t)
      × (level : Bool) × (d : Clock) × (advance t c ≡ some (level, d))
      × IsValid d
      × ((level ≡ true)
            × (rising_edge d ≡ true)
            × (d.ticks ≡ c.ticks + 1)
            × (d.last_posedge_ps ≡ c.last_posedge_ps + 2 * c.increment_ps)
          ⊎ (level ≡ false)
            × (falling_edge d ≡ true)
            × (d.ticks ≡ c.ticks)
            × (d.last_posedge_ps ≡ c.last_posedge_ps))
unfolding time_to_edge advance rising_edge falling_edge
advance-time_to_edge c v = elim (dec_lt c.now_ps (c.last_posedge_ps + c.increment_ps)) [
  | yes high ↦
      let edge = c.last_posedge_ps + c.increment_ps in
      (
        edge - c.now_ps,
        ground arith,
        omega arith,
        false,
        record c { now_ps = c.now_ps + (edge - c.now_ps) },
        ground arith,
        omega arith,
        inr (refl, ground arith, refl, refl),
      )
  | no low ↦
      let edge = c.last_posedge_ps + 2 * c.increment_ps in
      (
        edge - c.now_ps,
        ground arith,
        omega arith,
        true,
        record c {
          now_ps = c.now_ps + (edge - c.now_ps);
          last_posedge_ps = edge;
          ticks = c.ticks + 1;
        },
        ground arith,
        omega arith,
        inl (refl, ground arith, refl, refl),
      )
]

-- A step of a valid clock of no more than the time to its next edge fails no assertion, moves its time
-- on by the step, and keeps it valid.
pub advance-IsValid :
    (itime t : ℕ) (c : Clock)
    → IsValid c
    → time_to_edge c ≡ some t
    → itime ≤ t
    → (level : Bool) × (d : Clock) × (advance itime c ≡ some (level, d))
      × IsValid d
      × (d.now_ps ≡ c.now_ps + itime)
unfolding time_to_edge
advance-IsValid itime t c v e h =
    let near : c.now_ps + t ≤ c.last_posedge_ps + 2 * c.increment_ps = ground arith in
    let now = c.now_ps + itime in
    elim (dec_le (c.last_posedge_ps + 2 * c.increment_ps) now) [
      | yes rose ↦ (
        true,
        record c {
          now_ps = now;
          last_posedge_ps = c.last_posedge_ps + 2 * c.increment_ps;
          ticks = c.ticks + 1;
        },
        unfold advance in ground arith,
        omega arith,
        refl,
      )
      | no before ↦ elim (dec_le (c.last_posedge_ps + c.increment_ps) now) [
        | yes fell ↦
            (false, record c { now_ps = now }, unfold advance in ground arith, omega arith, refl)
        | no high ↦
            (true, record c { now_ps = now }, unfold advance in ground arith, omega arith, refl)
      ]
    ]
