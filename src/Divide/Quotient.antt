-- ===== src/Divide/Quotient.antt =====
-- `__udivdi3` and `__divdi3` (sw/zlib/udiv.c) and `__umoddi3` (umod.c) against division.
use zipversa.Base.{ℕ, suc, ◌+◌, ◌-◌, ◌*◌, ◌/◌, ◌%◌, ◌^◌, ◌≤◌, ◌<◌, ◌≡◌, arith}
use zipversa.Base.{if◌then◌else◌, not, ap, sym, ◌∙◌, Bool}
use zipversa.Base.Bits.{shr, low_bits}
use zipversa.Divide.{cltz, udiv_loop, udivdi3, umoddi3, divdi3, neg64, shl64}
use zipversa.Divide.LeadingZeros.{times_powers}
use zipversa.Divide.Count.{cltz_normalises}
use mathlib.Core.Path.{subst}
use native.Mathlib.Decide.{dec_lt, dec_le}
use native.Mathlib.Nat.{
  mul_assoc, one-le-pow, mul-le-mul_right, mul-le-mul_left, mul-div-mul_right, div-eq_of_lt,
  div-div-eq-div-mul, mul-pos, div-mul-le_self, mod-eq-sub-div-mul, pow-le-pow_right, mul_comm,
}
use zipversa.Divide.Rounds.{twice_pow, udiv_loop_all}

-- The place of the divisor, `a` and `b` moved to the front of the word.
module _ (a b : ℕ) (ha : a < 2 ^ 64) (hb : 1 ≤ b) (le : b ≤ a) where
  na : (cltz a ≤ 63) × (2 ^ 63 ≤ a * 2 ^ cltz a) × (a * 2 ^ cltz a < 2 ^ 64)
  na = cltz_normalises a (omega arith) ha

  nb : (cltz b ≤ 63) × (2 ^ 63 ≤ b * 2 ^ cltz b) × (b * 2 ^ cltz b < 2 ^ 64)
  nb = cltz_normalises b hb (omega arith)

  below_a : b * 2 ^ cltz a ≤ a * 2 ^ cltz a
  below_a = mul-le-mul_right (2 ^ cltz a) le

  -- The divisor has no fewer leading zeros.
  order : cltz a ≤ cltz b
  order = elim (dec_le (cltz a) (cltz b)) [
    | yes p ↦ p
    | no p ↦ absurd (omega (arith, na, nb, below_a, later p))
  ]
    where
      later : ¬ (cltz a ≤ cltz b) → b * 2 ^ cltz b * 2 ≤ b * 2 ^ cltz a
      later p =
          subst (λ t. t ≤ b * 2 ^ cltz a) (times_powers b (cltz b) 1)
            (mul-le-mul_left b
              (pow-le-pow_right {n = 2} (omega arith) {i = cltz b + 1} {j = cltz a} (omega arith)))

  same_quotient : a * 2 ^ cltz a / (b * 2 ^ cltz a) ≡ a / b
  same_quotient = mul-div-mul_right a b (one-le-pow (cltz a) 2 (omega arith))

  moved_a : shl64 a (cltz a) ≡ a * 2 ^ cltz a
  moved_a = omega (arith, na)

  moved_b : shl64 b (cltz a) ≡ b * 2 ^ cltz a
  moved_b = omega (arith, na, below_a)

  -- The divisor in 32 bits.
  high_quotient :
      low_bits (shl64 b (cltz a)) 32 ≡ 0
      → shr (shl64 a (cltz a)) 32 / shr (shl64 b (cltz a)) 32 ≡ a / b
  high_quotient z =
      let A = a * 2 ^ cltz a in
      let B = b * 2 ^ cltz a in
      let whole : 2 ^ 32 * (B / 2 ^ 32) ≡ B = omega (arith, moved_b, z) in
      rw (moved_a, moved_b)
        (div-div-eq-div-mul A (2 ^ 32) (B / 2 ^ 32) ∙ ap (λ t. A / t) whole ∙ same_quotient)

  long_quotient :
      udiv_loop 65 (shl64 a (cltz a)) (shl64 b (cltz b)) (shl64 1 (cltz b - cltz a)) 0 ≡ a / b
  long_quotient =
      let k = cltz b - cltz a in
      let back : cltz a + k ≡ cltz b = omega (arith, order) in
      let B = b * 2 ^ cltz a in
      let place : b * 2 ^ cltz b ≡ B * 2 ^ k =
        ap (λ j. b * 2 ^ j) (sym back) ∙ times_powers b (cltz a) k in
      let full_b : shl64 b (cltz b) ≡ B * 2 ^ k = omega (arith, nb, place) in
      let small : 2 ^ k ≤ 2 ^ 63 =
        pow-le-pow_right {n = 2} (omega arith) {i = k} {j = 63} (omega (arith, nb)) in
      let full_m : shl64 1 k ≡ 2 ^ k = omega (arith, small) in
      let rounds : suc (suc (k + (63 - k))) ≡ 65 = omega (arith, nb) in
      let B1 : 1 ≤ B = mul-pos hb (one-le-pow (cltz a) 2 (omega arith)) in
      let below : a * 2 ^ cltz a < B * 2 ^ suc k = omega (
        arith,
        na,
        nb,
        place,
        twice_pow B k,
        mul_assoc B 2 (2 ^ k),
        mul_comm B 2,
        mul_assoc 2 B (2 ^ k),
      ) in
      rw (moved_a, full_b, full_m)
        (subst (λ f. udiv_loop f (a * 2 ^ cltz a) (B * 2 ^ k) (2 ^ k) 0 ≡ a / b) rounds
          (udiv_loop_all k (63 - k) (a * 2 ^ cltz a) B B1 below ∙ same_quotient))

-- For any two words of 64 bits, the divisor not 0, `__udivdi3` returns the quotient.
pub udivdi3_divides : (a b : ℕ) → a < 2 ^ 64 → b < 2 ^ 64 → 1 ≤ b → udivdi3 a b ≡ a / b
unfolding udivdi3
udivdi3_divides a b ha hb h = elim (dec_lt a b) [
  | yes less ↦ ground (arith, div-eq_of_lt less)
  | no more ↦
      ground (arith, high_quotient a b ha h (omega arith), long_quotient a b ha h (omega arith))
]

-- `__umoddi3` returns the remainder.
pub umoddi3_divides : (a b : ℕ) → a < 2 ^ 64 → b < 2 ^ 64 → 1 ≤ b → umoddi3 a b ≡ a % b
unfolding umoddi3
umoddi3_divides a b ha hb h =
    rw (udivdi3_divides a b ha hb h) (omega (arith, div-mul-le_self a b, mod-eq-sub-div-mul a b))

-- A signed word from a sign and a magnitude.
abbrev pub signed : Bool → ℕ → ℕ
signed s m = if s then neg64 m else m

-- `__divdi3` divides the magnitudes, and the quotient has a sign when one of the two has; magnitudes
-- are below 2 ^ 63, so that every word but the lowest is meant.
pub divdi3_divides :
    (sa sb : Bool) (m n : ℕ)
    → m < 2 ^ 63
    → n < 2 ^ 63
    → 1 ≤ n
    → divdi3 (signed sa m) (signed sb n) ≡ signed (if sb then not sa else sa) (m / n)
unfolding divdi3
divdi3_divides sa sb m n hm hn h = ground (arith, udivdi3_divides m n)
