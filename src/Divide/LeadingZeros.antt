-- ===== src/Divide/LeadingZeros.antt =====
-- `cltz` (sw/zlib/udiv.c) counts the leading zeros.
use zipversa.Base.{
  ℕ, zero, suc, ◌+◌, ◌-◌, ◌*◌, ◌/◌, ◌%◌, ◌^◌, ◌≤◌, ◌<◌, ◌≡◌, ◌≢◌, refl, arith, bit_or,
}
use zipversa.Base.{true, false, ◌==◌, ap, sym, ◌∙◌}
use zipversa.Base.Bits.{shl32, low_bits, bit_or_fields}
use zipversa.Divide.{bitrev_loop, skip_zeros}
use mathlib.Core.Path.{subst}
use native.Mathlib.Decide.{dec_lt}
use native.Mathlib.Nat.{
  add-mul, mul_assoc, mul_comm, pow-le-pow_right, mod-eq_of_lt, mul-add-mod_self_right, pow-suc,
  one-le-pow, mul-le-mul_right, lt_of_mul-lt-mul_right, mul-lt-mul_of_pos_right, mul-mod_left,
  mul-div_cancel, add_comm,
}

-- The low `n` bits of a number in the opposite order.
abbrev pub reversed : ℕ → ℕ → ℕ
reversed zero b = 0
reversed (suc n) b = b % 2 * 2 ^ n + reversed n (b / 2)

pow_sum : (h n : ℕ) → 2 ^ (h + n) ≡ 2 ^ n * 2 ^ h
pow_sum zero n = let e : 0 + n ≡ n = omega arith in rw e (omega arith)
pow_sum (suc h) n =
    let e : suc h + n ≡ suc (h + n) = omega arith in
    rw (e, pow-suc 2 (h + n), pow-suc 2 h, pow_sum h n) (mul_assoc (2 ^ n) (2 ^ h) 2)

bit_times : (b p : ℕ) → b < 2 → b * p ≤ p
bit_times zero p h = omega arith
bit_times (suc zero) p h = omega arith
bit_times (suc (suc b)) p h = absurd (omega arith)

reversed_lt : (n b : ℕ) → reversed n b < 2 ^ n
reversed_lt zero b = omega arith
reversed_lt (suc n) b =
    omega (arith, reversed_lt n (b / 2), pow-suc 2 n, bit_times (b % 2) (2 ^ n) (omega arith))

pow_le32 : (n k : ℕ) → n + k ≡ 32 → 2 ^ k ≤ 2 ^ 32
pow_le32 n k h = pow-le-pow_right {n = 2} (omega arith) {i = k} {j = 32} (omega arith)

pub bitrev_loop_lem :
    (n k r b : ℕ) → n + k ≡ 32 → r < 2 ^ k → bitrev_loop n r b ≡ r * 2 ^ n + reversed n b
unfolding bitrev_loop
bitrev_loop_lem zero k r b h hr = omega arith
bitrev_loop_lem (suc n) k r b h hr =
    let r' = r * 2 + b % 2 in
    let pushed : bit_or (shl32 r 1) (low_bits b 1) ≡ r' =
      ground (arith, bit_or_fields 1 r (b % 2), pow_le32 n (suc k) (omega arith), pow-suc 2 k) in
    let more : r' < 2 ^ suc k = omega (arith, pow-suc 2 k) in
    rw (pushed, bitrev_loop_lem n (suc k) r' (b / 2) (omega arith) more)
      (omega (
        arith,
        add-mul (r * 2) (b % 2) (2 ^ n),
        pow-suc 2 n,
        mul_assoc r 2 (2 ^ n),
        mul_comm 2 (2 ^ n),
        ap (λ t. r * t) (pow-suc 2 n),
      ))

-- Leading zeros become trailing zeros.
reversed_zero : (h : ℕ) → reversed h 0 ≡ 0
reversed_zero zero = refl
reversed_zero (suc h) = omega (arith, reversed_zero h)

reversed_small : (h n x : ℕ) → x < 2 ^ n → reversed (h + n) x ≡ reversed n x * 2 ^ h
reversed_small h zero x lt =
    let e : h + 0 ≡ h = omega arith in
    let z : x ≡ 0 = omega arith in rw (e, z) (omega (arith, reversed_zero h))
reversed_small h (suc n) x lt =
    let e : h + suc n ≡ suc (h + n) = omega arith in
    rw (e, reversed_small h n (x / 2) (omega (arith, pow-suc 2 n)), pow_sum h n)
      (omega (
        arith,
        add-mul (x % 2 * 2 ^ n) (reversed n (x / 2)) (2 ^ h),
        mul_assoc (x % 2) (2 ^ n) (2 ^ h),
      ))

reversed_nonzero : (h x : ℕ) → 1 ≤ x → x < 2 ^ h → reversed h x ≢ 0
reversed_nonzero zero x ge lt e = absurd (omega arith)
reversed_nonzero (suc h) x ge lt e = elim (dec_lt 1 x) [
  | yes more ↦
      reversed_nonzero h (x / 2) (omega arith) (omega (arith, pow-suc 2 h)) (omega (arith, e))
  | no one ↦
      let x1 : x ≡ 1 = omega arith in
      absurd (omega (arith, e, one-le-pow h 2 (omega arith), ap (λ t. t % 2 * 2 ^ h) x1))
]

reversed_large : (h n x : ℕ) → 2 ^ n ≤ x → x < 2 ^ (h + n) → reversed (h + n) x % 2 ^ h ≢ 0
reversed_large h zero x ge lt =
    let e : h + 0 ≡ h = omega arith in
    λ z.
      reversed_nonzero h x (omega arith) (subst (λ k. x < 2 ^ k) e lt)
        (sym (mod-eq_of_lt (reversed_lt h x)) ∙ subst (λ k. reversed k x % 2 ^ h ≡ 0) e z)
reversed_large h (suc n) x ge lt =
    let e : h + suc n ≡ suc (h + n) = omega arith in
    let ih =
      reversed_large h n (x / 2) (omega (arith, pow-suc 2 n))
        (omega (arith, pow-suc 2 (h + n), subst (λ k. x < 2 ^ k) e lt)) in
    λ z. ih (
      sym (
        rw (pow_sum h n, ← mul_assoc (x % 2) (2 ^ n) (2 ^ h))
          (mul-add-mod_self_right (x % 2 * 2 ^ n) (2 ^ h) (reversed (h + n) (x / 2))))
      ∙ subst (λ k. reversed k x % 2 ^ h ≡ 0) e z)

-- `hv` holds the value `x` reversed, past `c` of its leading zeros; less than `w` more are left.
pub record Shifted (w c hv x : ℕ) : Type 0 where
  pub bits : w + c ≤ 32
  pub rev : hv ≡ reversed (32 - c) x
  pub below : x * 2 ^ c < 2 ^ 32
  pub above : 2 ^ 32 ≤ x * 2 ^ c * 2 ^ w

pub pow32 : (n c : ℕ) → n + c ≡ 32 → 2 ^ 32 ≡ 2 ^ n * 2 ^ c
pow32 n c e = ap (λ k. 2 ^ k) (sym e ∙ add_comm n c) ∙ pow_sum c n

pub below_pow : (n c x : ℕ) → n + c ≡ 32 → x * 2 ^ c < 2 ^ 32 → x < 2 ^ n
below_pow n c x e h = lt_of_mul-lt-mul_right (2 ^ c) (subst (λ t. x * 2 ^ c < t) (pow32 n c e) h)

above_pow : (n c x : ℕ) → n + c ≡ 32 → 2 ^ n ≤ x → 2 ^ 32 ≤ x * 2 ^ c
above_pow n c x e h = rw (pow32 n c e) (mul-le-mul_right (2 ^ c) h)

below_of : (n c x : ℕ) → n + c ≡ 32 → x < 2 ^ n → x * 2 ^ c < 2 ^ 32
below_of n c x e h =
    subst (λ t. x * 2 ^ c < t) (sym (pow32 n c e))
      (mul-lt-mul_of_pos_right h (one-le-pow c 2 (omega arith)))

pub times_powers : (x c h : ℕ) → x * 2 ^ (c + h) ≡ x * 2 ^ c * 2 ^ h
times_powers x c h =
    ap (λ k. x * 2 ^ k) (add_comm c h)
    ∙ ap (λ t. x * t) (pow_sum h c)
    ∙ sym (mul_assoc x (2 ^ c) (2 ^ h))

module _ (h c hv x : ℕ) (sh : Shifted (h + h) c hv x) where
  n : ℕ
  n = 32 - c - h

  hn : h + n ≡ 32 - c
  unfolding n
  hn = omega (arith, sh.bits)

  small_zeros : x < 2 ^ n → hv ≡ reversed n x * 2 ^ h
  small_zeros lt = sh.rev ∙ ap (λ k. reversed k x) (sym hn) ∙ reversed_small h n x lt

  small_Shifted : x < 2 ^ n → Shifted h (c + h) (reversed n x) x
  unfolding n
  small_Shifted lt =
      let nc : n + (c + h) ≡ 32 = omega (arith, sh.bits) in
      let eq : 32 - (c + h) ≡ n = omega (arith, sh.bits) in
      record {
        bits = omega (arith, sh.bits);
        rev = ap (λ k. reversed k x) (sym eq);
        below = below_of n (c + h) x nc lt;
        above =
            subst (λ t. 2 ^ 32 ≤ t)
              (sym (times_powers x c (h + h))
                ∙ ap (λ k. x * 2 ^ k) (omega arith)
                ∙ times_powers x (c + h) h)
              sh.above;
      }

  large_nonzero : 2 ^ n ≤ x → hv % 2 ^ h ≢ 0
  large_nonzero ge z =
      reversed_large h n x ge
        (subst (λ k. x < 2 ^ k) (sym hn) (below_pow (32 - c) c x (omega (arith, sh.bits)) sh.below))
        (ap (λ t. t % 2 ^ h) (ap (λ k. reversed k x) hn ∙ sym sh.rev) ∙ z)

  large_Shifted : 2 ^ n ≤ x → Shifted h c hv x
  unfolding n
  large_Shifted ge = record {
    bits = omega (arith, sh.bits);
    rev = sh.rev;
    below = sh.below;
    above =
        subst (λ t. 2 ^ 32 ≤ t) (times_powers x c h)
          (above_pow n (c + h) x (omega (arith, sh.bits)) ge);
  }

  -- What one test does.
  pub skip_zeros-Shifted :
      1 ≤ h → (c' : ℕ) × (hv' : ℕ) × (skip_zeros h (c, hv) ≡ (c', hv')) × Shifted h c' hv' x
  unfolding skip_zeros
  skip_zeros-Shifted h1 = elim (dec_lt x (2 ^ n)) [
    | yes lt ↦
        let z : (hv % 2 ^ h == 0) ≡ true =
          ground
            (arith, ap (λ t. t % 2 ^ h) (small_zeros lt) ∙ mul-mod_left (reversed n x) (2 ^ h)) in
        let d : hv / 2 ^ h ≡ reversed n x =
          ap (λ t. t / 2 ^ h) (small_zeros lt)
          ∙ mul-div_cancel (reversed n x) (one-le-pow h 2 (omega arith)) in
        (c + h, reversed n x, rw (z, d) refl, small_Shifted lt)
    | no ge ↦
        let z : (hv % 2 ^ h == 0) ≡ false = ground (arith, large_nonzero (omega arith)) in
        (c, hv, rw z refl, large_Shifted (omega arith))
  ]
