-- ===== src/TwosComplement/Extension.antt =====
-- Sign extension and shifts of signed words, for `sbits` of sw/host/twoc.cpp.
use zipversa.Base.{ℕ, suc, ◌+◌, ◌-◌, ◌*◌, ◌/◌, ◌%◌, ◌^◌, ◌≤◌, ◌<◌, ◌≡◌, arith, false}
use zipversa.Base.{if◌then◌else◌, ltb, ap, sym, ◌∙◌}
use zipversa.Base.Bits.{shr, low_bits, bit_or_fields}
use zipversa.Divide.{shl64}
use zipversa.Divide.LeadingZeros.{times_powers}
use native.Mathlib.Decide.{dec_lt}
use native.Mathlib.Nat.{
  one-le-pow, mul_comm, mul_assoc, add-mul, add-mul-mod_self_left, add-mul-div_right, div-eq_of_lt,
  pow-suc, mod-lt, mul-sub, pow-le-pow_right, mul-le-mul_right, div-add-mod',
  add-mul-mod_self_right, mod-eq_of_lt, div-lt_iff_lt-mul, le-div_iff_mul-le,
}
use zipversa.TwosComplement.{sbits, sar}

ones_above : (b q : ℕ) → b ≤ 64 → 2 ^ 64 ≡ q * 2 ^ b → shl64 (2 ^ 64 - 1) b ≡ (q - 1) * 2 ^ b
ones_above b q h e =
    let p1 = one-le-pow b 2 (omega arith) in
    let most : 2 ^ b ≤ 2 ^ 64 = pow-le-pow_right {n = 2} (omega arith) {i = b} {j = 64} h in
    omega (arith, e, mul-sub (2 ^ b) q 1, mul_comm (2 ^ b) (q - 1), mul_comm (2 ^ b) q)

split_word : (b k : ℕ) → b + k ≡ 64 → 2 ^ 64 ≡ 2 ^ k * 2 ^ b
split_word b k e =
    ap (λ j. 1 * 2 ^ j) (sym e) ∙ times_powers 1 b k ∙ omega (arith, mul_comm (2 ^ b) (2 ^ k))

-- The number that `sbits` reads in the low bits, as a word.
unfoldable pub extended : ℕ → ℕ → ℕ
extended c r = if ltb r (2 ^ c) then r else r + (2 ^ 64 - 2 ^ suc c)

pub sbits_value : (c val : ℕ) → c < 63 → sbits val (suc c) ≡ extended c (low_bits val (suc c))
unfolding sbits extended
sbits_value c val h =
    let r = val % 2 ^ suc c in
    let p1 = one-le-pow c 2 (omega arith) in
    let below : r < 2 ^ suc c = mod-lt val (one-le-pow (suc c) 2 (omega arith)) in
    let place : suc c - 1 ≡ c = omega arith in
    rw place (elim (dec_lt r (2 ^ c)) [
      | yes less ↦ ground (arith, div-eq_of_lt less)
      | no more ↦
          let one : r / 2 ^ c ≡ 1 =
            ap (λ t. t / 2 ^ c) {x = r} {y = r - 2 ^ c + 1 * 2 ^ c} (omega arith)
            ∙ add-mul-div_right (r - 2 ^ c) 1 p1
            ∙ omega (
              arith,
              div-eq_of_lt {n = r - 2 ^ c} {m = 2 ^ c} (omega (arith, pow-suc 2 c, below)),
            ) in
          let sp = split_word (suc c) (63 - c) (omega arith) in
          let q = 2 ^ (63 - c) in
          let f : ltb r (2 ^ c) ≡ false = ground arith in
          rw (one, f, ones_above (suc c) q (omega arith) sp, bit_or_fields (suc c) (q - 1) r below)
            (omega (
              arith,
              sp,
              mul-sub (2 ^ suc c) q 1,
              mul_comm (2 ^ suc c) (q - 1),
              mul_comm (2 ^ suc c) q,
            ))
    ])

-- The low bits of a shifted word are bits of the word, whatever its sign.
pub sar_low : (x k m : ℕ) → k + m ≤ 64 → low_bits (sar x k) m ≡ low_bits (shr x k) m
unfolding sar
sar_low x k m h =
    let j = 64 - (k + m) in
    let p1 = one-le-pow k 2 (omega arith) in
    let all : 2 ^ 64 ≡ 2 ^ (64 - k) * 2 ^ k = split_word k (64 - k) (omega arith) in
    let up : 2 ^ (64 - k) ≡ 2 ^ m * 2 ^ j =
      omega
        (arith, ap (λ i. 1 * 2 ^ i) {x = 64 - k} {y = m + j} (omega arith), times_powers 1 m j) in
    let sum : 2 ^ 64 - 2 ^ (64 - k) ≡ 2 ^ m * (2 ^ j * (2 ^ k - 1)) = omega (
      arith,
      all,
      mul-sub (2 ^ (64 - k)) (2 ^ k) 1,
      ap (λ t. t * (2 ^ k - 1)) up,
      mul_assoc (2 ^ m) (2 ^ j) (2 ^ k - 1),
    ) in
    elim (dec_lt x (2 ^ 63)) [
      | yes less ↦ ground arith
      | no more ↦
          let f : ltb x (2 ^ 63) ≡ false = ground arith in
          rw (f, sum) (add-mul-mod_self_left (x / 2 ^ k) (2 ^ m) (2 ^ j * (2 ^ k - 1)))
    ]

-- The low part of a number in two digits, of `a` and of `b`.
pub two_digits : (x a b : ℕ) → 1 ≤ a → 1 ≤ b → x % (b * a) ≡ x / a % b * a + x % a
two_digits x a b ha hb =
    let y = x / a in
    let low : y % b * a + x % a < b * a = omega (
      arith,
      mod-lt x ha,
      add-mul (y % b) 1 a,
      mul-le-mul_right {m = y % b + 1} {n = b} a (omega (arith, mod-lt y hb)),
    ) in
    let whole : x ≡ y % b * a + x % a + y / b * (b * a) = omega (
      arith,
      div-add-mod' x a,
      add-mul (y / b * b) (y % b) a,
      mul_assoc (y / b) b a,
      ap (λ t. t * a) (div-add-mod' y b),
    ) in
    ap (λ t. t % (b * a)) whole
    ∙ add-mul-mod_self_right (y % b * a + x % a) (y / b) (b * a)
    ∙ mod-eq_of_lt low

-- The digit above the lowest.
pub upper_digit : (x a b : ℕ) → 1 ≤ a → 1 ≤ b → x % (b * a) / a ≡ x / a % b
upper_digit x a b ha hb =
    ap (λ t. t / a) {x = x % (b * a)} {y = x % a + x / a % b * a}
      (omega (arith, two_digits x a b ha hb))
    ∙ add-mul-div_right (x % a) (x / a % b) ha
    ∙ omega (arith, div-eq_of_lt (mod-lt x ha))

pub powers : (c d : ℕ) → 2 ^ suc (c + d) ≡ 2 ^ suc c * 2 ^ d
powers c d = omega (
  arith,
  ap (λ i. 1 * 2 ^ i) {x = suc (c + d)} {y = suc c + d} (omega arith),
  times_powers 1 (suc c) d,
)

-- A shift of the sign-extended number is the sign-extended number of what is left.
pub sar-extended :
    (c e r : ℕ)
    → c + suc e < 63
    → r < 2 ^ suc (c + suc e)
    → sar (extended (c + suc e) r) (suc e) ≡ extended c (r / 2 ^ suc e)
unfolding sar extended
sar-extended c e r h lt =
    let d = suc e in
    let p1 = one-le-pow d 2 (omega arith) in
    let half : 2 ^ (c + d) ≡ 2 ^ c * 2 ^ d = omega (arith, times_powers 1 c d) in
    let most : 2 ^ (c + d) ≤ 2 ^ 62 =
      pow-le-pow_right {n = 2} (omega arith) {i = c + d} {j = 62} (omega arith) in
    elim (dec_lt r (2 ^ (c + d))) [
      | yes less ↦
          let small : r / 2 ^ d < 2 ^ c = (div-lt_iff_lt-mul p1).1 (omega (arith, half)) in
          ground arith
      | no more ↦
          let large : 2 ^ c ≤ r / 2 ^ d = (le-div_iff_mul-le p1).1 (omega (arith, half)) in
          let q = 2 ^ (63 - (c + d)) in
          let f : ltb r (2 ^ (c + d)) ≡ false = ground arith in
          let g : ltb (r / 2 ^ d) (2 ^ c) ≡ false = ground arith in
          let n : ltb (r + (2 ^ 64 - 2 ^ suc (c + d))) (2 ^ 63) ≡ false =
            ground (arith, pow-suc 2 (c + d)) in
          let sp = split_word (suc (c + d)) (63 - (c + d)) (omega arith) in
          let M = 2 ^ suc c in
          let digits : 2 ^ suc (c + d) ≡ M * 2 ^ d = powers c d in
          let up : 2 ^ (64 - d) ≡ q * M = omega (
            arith,
            ap (λ i. 1 * 2 ^ i) {x = 64 - d} {y = suc c + (63 - (c + d))} (omega arith),
            times_powers 1 (suc c) (63 - (c + d)),
            mul_comm q M,
          ) in
          let less_one : (q - 1) * M ≡ q * M - M =
            omega (arith, mul-sub M q 1, mul_comm M (q - 1), mul_comm M q) in
          let sum : 2 ^ 64 - 2 ^ suc (c + d) ≡ (q - 1) * M * 2 ^ d = omega (
            arith,
            sp,
            mul-sub (2 ^ suc (c + d)) q 1,
            mul_comm (2 ^ suc (c + d)) (q - 1),
            mul_comm (2 ^ suc (c + d)) q,
            ap (λ t. (q - 1) * t) digits,
            mul_assoc (q - 1) M (2 ^ d),
          ) in
          let moved : (r + (2 ^ 64 - 2 ^ suc (c + d))) / 2 ^ d ≡ r / 2 ^ d + (q * M - M) =
            ap (λ t. (r + t) / 2 ^ d) sum
            ∙ add-mul-div_right r ((q - 1) * M) p1
            ∙ ap (λ t. r / 2 ^ d + t) less_one in
          let fits : M ≤ q * M = omega (
            arith,
            mul-le-mul_right {m = 1} {n = q} M (one-le-pow (63 - (c + d)) 2 (omega arith)),
          ) in
          let word : 2 ^ (64 - d) ≤ 2 ^ 64 =
            pow-le-pow_right {n = 2} (omega arith) {i = 64 - d} {j = 64} (omega arith) in
          rw (f, g, n) (omega (arith, moved, up, fits, word))
    ]
