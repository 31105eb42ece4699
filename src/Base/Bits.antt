-- ===== src/Base/Bits.antt =====
-- The bit operations of the sources as arithmetic. A field `x >> k` is `x / 2 ^ k`, a low mask
-- `x & (2 ^ k - 1)` is `x % 2 ^ k`, and `|` is the native `bit_or`, a sum where the parts are
-- disjoint.
use Prim.Native.Nat.{
  ℕ, zero, suc, ◌+◌, ◌*◌, ◌/◌, ◌%◌, ◌^◌, ◌≤◌, ◌<◌, ◌-◌, min, max, bit_and, bit_or,
}
use Prim.Native.Nat.{digits, bit_and-bitwise, bit_or-bitwise}
use mathlib.Core.Path.{◌≡◌, refl, ap, sym, ◌∙◌}
use native.Mathlib.Nat.{pow-suc, one-le-pow}
use native.Mathlib.Omega.{arith}

-- A word of 32 bits.
abbrev pub u32 : ℕ → ℕ
u32 n = n % 2 ^ 32

-- `x << k` on a word of 32 bits.
abbrev pub shl32 : ℕ → ℕ → ℕ
shl32 x k = u32 (x * 2 ^ k)

abbrev pub shr : ℕ → ℕ → ℕ
shr x k = x / 2 ^ k

-- `x & (2 ^ k - 1)`
abbrev pub low_bits : ℕ → ℕ → ℕ
low_bits x k = x % 2 ^ k

-- The digits of a number do not depend on the fuel, once there is as much as the number.
module _ (rest : ℕ → ℕ) (pair : ℕ → ℕ → ℕ) where
  digits_none : (fuel y : ℕ) → digits rest pair fuel 0 y ≡ rest y
  digits_none zero y = refl
  digits_none (suc fuel) y = refl

  digits_enough :
      (x y have want : ℕ)
      → (x ≤ have) × (x ≤ want)
      → digits rest pair have x y ≡ digits rest pair want x y
  digits_enough zero y have want _ = digits_none have y ∙ sym (digits_none want y)
  digits_enough (suc x) y zero want (h, _) = absurd (omega arith)
  digits_enough (suc x) y (suc have) zero (_, h) = absurd (omega arith)
  digits_enough (suc x) y (suc have) (suc want) both =
      ap (λ (t : ℕ). t * 2 + pair (suc x % 2) (y % 2))
        (digits_enough (suc x / 2) (y / 2) have want (omega arith))

pub zero-bit_or : (b : ℕ) → bit_or 0 b ≡ b
zero-bit_or b = bit_or-bitwise 0 b

pub bit_or_step : (x y : ℕ) → bit_or x y ≡ bit_or (x / 2) (y / 2) * 2 + max (x % 2) (y % 2)
bit_or_step zero y = omega (arith, zero-bit_or (y / 2), zero-bit_or y)
bit_or_step (suc x) y =
    let half = suc x / 2 in
    omega (
      arith,
      digits_enough (λ y. y) max half (y / 2) x half (omega arith),
      bit_or-bitwise half (y / 2),
      bit_or-bitwise (suc x) y,
    )

or_zero_below : (x bound : ℕ) → x ≤ bound → bit_or x 0 ≡ x
or_zero_below zero bound h = refl
or_zero_below (suc x) zero h = absurd (omega arith)
or_zero_below (suc x) (suc bound) h =
    omega (arith, or_zero_below (suc x / 2) bound (omega arith), bit_or_step (suc x) 0)

pub bit_or-zero : (x : ℕ) → bit_or x 0 ≡ x
bit_or-zero x = or_zero_below x x (omega arith)

double_power : (q k : ℕ) → q * 2 ^ suc k ≡ 2 * (q * 2 ^ k)
double_power q k = omega (arith, ap (λ (t : ℕ). q * t) (pow-suc 2 k))

-- `(q << k) | r` is a sum when `r` has at most `k` bits.
pub bit_or_fields : (k q r : ℕ) → r < 2 ^ k → bit_or (q * 2 ^ k) r ≡ q * 2 ^ k + r
bit_or_fields zero q r h = ground (arith, bit_or-zero q)
bit_or_fields (suc k) q r h = ground (
  arith,
  bit_or_step (q * 2 ^ suc k) r,
  double_power q k,
  bit_or_fields k q (r / 2) (omega arith),
)

-- `r | (q << k)` likewise.
pub bit_or_fields_low : (k q r : ℕ) → r < 2 ^ k → bit_or r (q * 2 ^ k) ≡ q * 2 ^ k + r
bit_or_fields_low zero q zero h = zero-bit_or (q * 2 ^ 0) ∙ omega arith
bit_or_fields_low zero q (suc r) h = absurd (omega arith)
bit_or_fields_low (suc k) q r h = ground (
  arith,
  bit_or_step r (q * 2 ^ suc k),
  double_power q k,
  bit_or_fields_low k q (r / 2) (omega arith),
)

pub zero-bit_and : (b : ℕ) → bit_and 0 b ≡ 0
zero-bit_and b = bit_and-bitwise 0 b

pub bit_and_step : (x y : ℕ) → bit_and x y ≡ bit_and (x / 2) (y / 2) * 2 + min (x % 2) (y % 2)
bit_and_step zero y = omega (arith, zero-bit_and (y / 2), zero-bit_and y)
bit_and_step (suc x) y =
    let half = suc x / 2 in
    omega (
      arith,
      digits_enough (λ y. 0) min half (y / 2) x half (omega arith),
      bit_and-bitwise half (y / 2),
      bit_and-bitwise (suc x) y,
    )

and_zero_below : (x bound : ℕ) → x ≤ bound → bit_and x 0 ≡ 0
and_zero_below zero bound h = refl
and_zero_below (suc x) zero h = absurd (omega arith)
and_zero_below (suc x) (suc bound) h =
    omega (arith, and_zero_below (suc x / 2) bound (omega arith), bit_and_step (suc x) 0)

pub bit_and-zero : (x : ℕ) → bit_and x 0 ≡ 0
bit_and-zero x = and_zero_below x x (omega arith)

and_low_fields : (k q r : ℕ) → r < 2 ^ k → bit_and (q * 2 ^ k + r) (2 ^ k - 1) ≡ r
and_low_fields zero q r h = rw bit_and-zero (omega arith)
and_low_fields (suc k) q r h = ground (
  arith,
  bit_and_step (q * 2 ^ suc k + r) (2 ^ suc k - 1),
  double_power q k,
  pow-suc 2 k,
  and_low_fields k q (r / 2) (omega arith),
)

-- `x & (2 ^ k - 1)` keeps the low `k` bits.
pub bit_and_mask : (k a : ℕ) → bit_and a (2 ^ k - 1) ≡ a % 2 ^ k
bit_and_mask k a = ground (arith, one-le-pow k 2, and_low_fields k (a / 2 ^ k) (a % 2 ^ k))

-- Two fields are combined each by itself.
pub bit_and_fields :
    (k q r m n : ℕ)
    → r < 2 ^ k
    → n < 2 ^ k
    → bit_and (q * 2 ^ k + r) (m * 2 ^ k + n) ≡ bit_and q m * 2 ^ k + bit_and r n
bit_and_fields zero q r m n h1 h2 = ground (arith, zero-bit_and 0)
bit_and_fields (suc k) q r m n h1 h2 = ground (
  arith,
  bit_and_step (q * 2 ^ suc k + r) (m * 2 ^ suc k + n),
  bit_and_step r n,
  double_power q k,
  double_power m k,
  double_power (bit_and q m) k,
  bit_and_fields k q (r / 2) m (n / 2) (omega arith) (omega arith),
)

pub bit_or_pairs :
    (k q r m n : ℕ)
    → r < 2 ^ k
    → n < 2 ^ k
    → bit_or (q * 2 ^ k + r) (m * 2 ^ k + n) ≡ bit_or q m * 2 ^ k + bit_or r n
bit_or_pairs zero q r m n h1 h2 = ground (arith, zero-bit_or 0)
bit_or_pairs (suc k) q r m n h1 h2 = ground (
  arith,
  bit_or_step (q * 2 ^ suc k + r) (m * 2 ^ suc k + n),
  bit_or_step r n,
  double_power q k,
  double_power m k,
  double_power (bit_or q m) k,
  bit_or_pairs k q (r / 2) m (n / 2) (omega arith) (omega arith),
)
