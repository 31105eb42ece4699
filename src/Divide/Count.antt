-- ===== src/Divide/Count.antt =====
-- The five tests of `cltz` (sw/zlib/udiv.c) together.
use zipversa.Base.{ℕ, ◌+◌, ◌-◌, ◌*◌, ◌/◌, ◌%◌, ◌^◌, ◌≤◌, ◌<◌, ◌≡◌, refl, arith, true, false}
use zipversa.Base.{if◌then◌else◌, ◌==◌, ap, sym, ◌∙◌, Bool-cases, inl, inr}
use zipversa.Base.Bits.{low_bits}
use zipversa.Divide.{zip_bitrev, skip_zeros, cltz}
use zipversa.Divide.LeadingZeros.{
  Shifted, reversed, bitrev_loop_lem, skip_zeros-Shifted, pow32, below_pow, times_powers,
}
use mathlib.Core.Path.{subst}
use native.Mathlib.Decide.{dec_lt}
use native.Mathlib.Nat.{
  add-mul, mul-le-mul_right, mul-lt-mul_of_pos_right, mul_right_comm, one-le-pow, add_comm,
}

-- The tests on a half of the word, from a count of `cnt`.
tests : ℕ → ℕ → ℕ × ℕ
tests cnt hv = skip_zeros 1 (skip_zeros 2 (skip_zeros 4 (skip_zeros 8 (skip_zeros 16 (cnt, hv)))))

skip_zeros_offset :
    (k h : ℕ) (p : ℕ × ℕ)
    → skip_zeros h (k + p.0, p.1) ≡ (k + (skip_zeros h p).0, (skip_zeros h p).1)
unfolding skip_zeros
skip_zeros_offset k h (c, hv) = ground arith

tests_offset : (k hv : ℕ) → (tests (k + 0) hv).0 ≡ k + (tests 0 hv).0
unfolding tests
tests_offset k hv =
    rw
      (
        skip_zeros_offset k 16 (0, hv),
        skip_zeros_offset k 8 (skip_zeros 16 (0, hv)),
        skip_zeros_offset k 4 (skip_zeros 8 (skip_zeros 16 (0, hv))),
        skip_zeros_offset k 2 (skip_zeros 4 (skip_zeros 8 (skip_zeros 16 (0, hv)))),
        skip_zeros_offset k 1 (skip_zeros 2 (skip_zeros 4 (skip_zeros 8 (skip_zeros 16 (0, hv))))),
      )
      refl

skip_one : (p : ℕ × ℕ) → (if low_bits p.1 1 == 0 then p.0 + 1 else p.0) ≡ (skip_zeros 1 p).0
unfolding skip_zeros
skip_one (c, hv) = ground arith

cltz-tests :
    (v : ℕ)
    → cltz v ≡ (
        if v / 2 ^ 32 == 0
        then (tests 32 (zip_bitrev (v % 2 ^ 32))).0
        else (tests 0 (zip_bitrev (v / 2 ^ 32))).0)
unfolding cltz tests
cltz-tests v = elim (Bool-cases (v / 2 ^ 32 == 0)) [
  | inl e ↦ rw e (skip_one _)
  | inr e ↦ rw e (skip_one _)
]

zip_bitrev_lem : (x : ℕ) → zip_bitrev x ≡ reversed 32 x
unfolding zip_bitrev
zip_bitrev_lem x = bitrev_loop_lem 32 0 0 x refl (omega arith) ∙ omega arith

-- A number of 32 bits with its first one moved to the front.
record Normal (x c : ℕ) : Type 0 where
  small : c ≤ 31
  above : 2 ^ 31 ≤ x * 2 ^ c
  below : (x + 1) * 2 ^ c ≤ 2 ^ 32

start_Shifted : (x : ℕ) → 1 ≤ x → x < 2 ^ 32 → Shifted 32 0 (zip_bitrev x) x
start_Shifted x h1 h2 = record {
  bits = omega arith;
  rev = zip_bitrev_lem x;
  below = omega arith;
  above = omega arith;
}

tests-Normal : (x : ℕ) → 1 ≤ x → x < 2 ^ 32 → Normal x (tests 0 (zip_bitrev x)).0
unfolding tests
tests-Normal x h1 h2 =
    let (c1, hv1, e1, s1) =
      skip_zeros-Shifted 16 0 (zip_bitrev x) x (start_Shifted x h1 h2) (omega arith) in
    let (c2, hv2, e2, s2) = skip_zeros-Shifted 8 c1 hv1 x s1 (omega arith) in
    let (c3, hv3, e3, s3) = skip_zeros-Shifted 4 c2 hv2 x s2 (omega arith) in
    let (c4, hv4, e4, s4) = skip_zeros-Shifted 2 c3 hv3 x s3 (omega arith) in
    let (c5, hv5, e5, s5) = skip_zeros-Shifted 1 c4 hv4 x s4 (omega arith) in
    let n32 : 32 - c5 + c5 ≡ 32 = omega (arith, s5.bits) in
    let lt : x < 2 ^ (32 - c5) = below_pow (32 - c5) c5 x n32 s5.below in
    rw (e1, e2, e3, e4, e5)
      (record {
        small = omega (arith, s5.bits);
        above = omega (arith, s5.above);
        below =
            subst (λ t. (x + 1) * 2 ^ c5 ≤ t) (sym (pow32 (32 - c5) c5 n32))
              (mul-le-mul_right (2 ^ c5) (omega (arith, lt)));
      })

-- `cltz` counts the leading zeros of a number of 64 bits other than 0: moved left by as many bits, the
-- number has its highest bit set, and none is lost.
pub cltz_normalises :
    (v : ℕ)
    → 1 ≤ v
    → v < 2 ^ 64
    → (cltz v ≤ 63) × (2 ^ 63 ≤ v * 2 ^ cltz v) × (v * 2 ^ cltz v < 2 ^ 64)
cltz_normalises v h1 h2 = elim (dec_lt v (2 ^ 32)) [
  | yes low ↦
      let z : (v / 2 ^ 32 == 0) ≡ true = ground arith in
      let m : v % 2 ^ 32 ≡ v = omega arith in
      let c = (tests 0 (zip_bitrev v)).0 in
      let e : cltz v ≡ c + 32 =
        cltz-tests v ∙ rw (z, m) (tests_offset 32 (zip_bitrev v) ∙ add_comm 32 c) in
      let n = tests-Normal v h1 low in
      rw (e, times_powers v c 32)
        (omega
          (arith, n.small, n.above, n.below, add-mul v 1 (2 ^ c), one-le-pow c 2 (omega arith)))
  | no high ↦
      let z : (v / 2 ^ 32 == 0) ≡ false = ground arith in
      let x = v / 2 ^ 32 in
      let c = (tests 0 (zip_bitrev x)).0 in
      let e : cltz v ≡ c = cltz-tests v ∙ rw z refl in
      let n = tests-Normal x (omega arith) (omega arith) in
      let split : v * 2 ^ c ≡ x * 2 ^ c * 2 ^ 32 + v % 2 ^ 32 * 2 ^ c =
        ap (λ t. t * 2 ^ c) {x = v} {y = x * 2 ^ 32 + v % 2 ^ 32} (omega arith)
        ∙ add-mul (x * 2 ^ 32) (v % 2 ^ 32) (2 ^ c)
        ∙ ap (λ t. t + v % 2 ^ 32 * 2 ^ c) (mul_right_comm x (2 ^ 32) (2 ^ c)) in
      let low : v % 2 ^ 32 * 2 ^ c < 2 ^ 32 * 2 ^ c =
        mul-lt-mul_of_pos_right (omega arith) (one-le-pow c 2 (omega arith)) in
      rw e (omega (arith, n.small, n.above, n.below, split, low, add-mul x 1 (2 ^ c)))
]
