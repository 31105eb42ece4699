-- ===== src/Divide/Rounds.antt =====
-- The rounds of the loop of `__udivdi3` (sw/zlib/udiv.c).
use zipversa.Base.{
  ℕ, zero, suc, ◌+◌, ◌-◌, ◌*◌, ◌/◌, ◌^◌, ◌≤◌, ◌<◌, ◌≡◌, refl, arith, true, false, bit_or,
}
use zipversa.Base.{ltb, ◌==◌, ap, sym, ◌∙◌}
use zipversa.Base.Bits.{bit_or_fields}
use zipversa.Divide.{udiv_loop}
use mathlib.Core.Path.{subst}
use native.Mathlib.Decide.{dec_lt}
use native.Mathlib.Nat.{
  pow-suc, add-mul, mul_assoc, one-le-pow, div-eq_of_lt, add-mul-div_right, mul_comm,
}

half_shift : (x k : ℕ) → x * 2 ^ suc k / 2 ≡ x * 2 ^ k
half_shift x k = omega (arith, ap (λ t. x * t) (pow-suc 2 k), mul_assoc x (2 ^ k) 2)

half_pow : (k : ℕ) → 2 ^ suc k / 2 ≡ 2 ^ k
half_pow k = omega (arith, pow-suc 2 k)

half_or : (q k : ℕ) → bit_or (q * 2 ^ suc k) (2 ^ k) ≡ (q * 2 + 1) * 2 ^ k
half_or q k =
    bit_or_fields (suc k) q (2 ^ k) (omega (arith, pow-suc 2 k, one-le-pow k 2 (omega arith)))
    ∙ omega (
      arith,
      add-mul (q * 2) 1 (2 ^ k),
      mul_assoc q 2 (2 ^ k),
      ap (λ t. q * t) (pow-suc 2 k),
      mul_comm 2 (2 ^ k),
    )

pub twice_pow : (q k : ℕ) → q * 2 ^ suc k ≡ q * 2 * 2 ^ k
twice_pow q k = ap (λ t. q * t) (pow-suc 2 k ∙ mul_comm (2 ^ k) 2) ∙ sym (mul_assoc q 2 (2 ^ k))

-- The quotient when `b` fits below `a` at the place `p`.
quotient_take : (a b p : ℕ) → 1 ≤ b → b * p ≤ a → a / b ≡ (a - b * p) / b + p
quotient_take a b p h le =
    ap (λ t. t / b) {x = a} {y = (a - b * p) + p * b} (omega (arith, mul_comm b p))
    ∙ add-mul-div_right (a - b * p) p h

loop_stop : (fuel a b r : ℕ) → udiv_loop (suc fuel) a b 0 r ≡ r
unfolding udiv_loop
loop_stop fuel a b r = ground arith

loop_left :
    (fuel a b m r : ℕ)
    → 1 ≤ m
    → a < b
    → udiv_loop (suc fuel) a b m r ≡ udiv_loop fuel a (b / 2) (m / 2) r
unfolding udiv_loop
loop_left fuel a b m r h lt =
    let z : (m == 0) ≡ false = ground arith in
    let l : ltb a b ≡ true = ground arith in rw (z, l) refl

loop_taken :
    (fuel a b m r : ℕ)
    → 1 ≤ m
    → b ≤ a
    → udiv_loop (suc fuel) a b m r ≡ udiv_loop fuel (a - b) (b / 2) (m / 2) (bit_or r m)
unfolding udiv_loop
loop_taken fuel a b m r h le =
    let z : (m == 0) ≡ false = ground arith in
    let l : ltb a b ≡ false = ground arith in rw (z, l) refl

-- The loop from the place `k` on finds the quotient, when it has `k + 2` rounds at least.
udiv_loop_lem :
    (k fuel a b q : ℕ)
    → 1 ≤ b
    → a < b * 2 ^ suc k
    → udiv_loop (suc (suc (k + fuel))) a (b * 2 ^ k) (2 ^ k) (q * 2 ^ suc k) ≡ q * 2 ^ suc k + a / b
udiv_loop_lem zero fuel a b q h lt =
    let z : suc (suc (0 + fuel)) ≡ suc (suc fuel) = omega arith in
    rw z (elim (dec_lt a b) [
      | yes less ↦
          loop_left (suc fuel) a (b * 1) 1 (q * 2) (omega arith) (omega arith)
          ∙ loop_stop fuel a (b * 1 / 2) (q * 2)
          ∙ omega (arith, div-eq_of_lt less)
      | no more ↦
          loop_taken (suc fuel) a (b * 1) 1 (q * 2) (omega arith) (omega arith)
          ∙ loop_stop fuel (a - b * 1) (b * 1 / 2) (bit_or (q * 2) 1)
          ∙ half_or q 0
          ∙ omega (
            arith,
            quotient_take a b 1 h (omega arith),
            div-eq_of_lt {n = a - b * 1} {m = b} (omega arith),
          )
    ])
udiv_loop_lem (suc k) fuel a b q h lt =
    let z : suc (suc (suc k + fuel)) ≡ suc (suc (suc (k + fuel))) = omega arith in
    let p1 = one-le-pow (suc k) 2 (omega arith) in
    rw z (elim (dec_lt a (b * 2 ^ suc k)) [
      | yes less ↦
          loop_left (suc (suc (k + fuel))) a (b * 2 ^ suc k) (2 ^ suc k) (q * 2 ^ suc (suc k)) p1
            less
          ∙ rw (half_shift b k, half_pow k, twice_pow q (suc k))
              (udiv_loop_lem k fuel a b (q * 2) h less)
      | no more ↦
          let less : a - b * 2 ^ suc k < b * 2 ^ suc k = omega (
            arith,
            twice_pow b (suc k),
            mul_assoc b 2 (2 ^ suc k),
            mul_comm b 2,
            mul_assoc 2 b (2 ^ suc k),
            lt,
          ) in
          let ih = udiv_loop_lem k fuel (a - b * 2 ^ suc k) b (q * 2 + 1) h less in
          rw
            (
              loop_taken (suc (suc (k + fuel))) a (b * 2 ^ suc k) (2 ^ suc k) (q * 2 ^ suc (suc k))
                  p1 (omega arith),
              half_shift b k,
              half_pow k,
              half_or q (suc k),
              ih,
            )
            (omega (
              arith,
              quotient_take a b (2 ^ suc k) h (omega arith),
              add-mul (q * 2) 1 (2 ^ suc k),
              twice_pow q (suc k),
            ))
    ])

pub udiv_loop_all :
    (k fuel a b : ℕ)
    → 1 ≤ b
    → a < b * 2 ^ suc k
    → udiv_loop (suc (suc (k + fuel))) a (b * 2 ^ k) (2 ^ k) 0 ≡ a / b
udiv_loop_all k fuel a b h lt =
    let z : 0 * 2 ^ suc k ≡ 0 = omega arith in
    subst (λ r. udiv_loop (suc (suc (k + fuel))) a (b * 2 ^ k) (2 ^ k) r ≡ r + a / b) z
      (udiv_loop_lem k fuel a b 0 h lt)
    ∙ omega arith
