-- ===== src/TwosComplement/Rounding.antt =====
-- `rndbits` of sw/host/twoc.cpp against rounding.
use zipversa.Base.{ℕ, zero, suc, ◌+◌, ◌-◌, ◌*◌, ◌/◌, ◌%◌, ◌^◌, ◌<◌, ◌≡◌, refl, arith, true, false}
use zipversa.Base.{if◌then◌else◌, ltb, ◌==◌, ap, sym, ◌∙◌}
use zipversa.Base.Bits.{low_bits}
use zipversa.Divide.{u64}
use native.Mathlib.Nat.{one-le-pow, mul_comm, pow-suc, mod-lt}
use zipversa.TwosComplement.{sbits, sar, rndbits}
use zipversa.TwosComplement.Extension.{
  two_digits, upper_digit, powers, sar-extended, sbits_value, sar_low,
}

-- A number rounded: to the nearest, and to the even one of two that are as near.
abbrev pub rounded : ℕ → ℕ → ℕ → ℕ
rounded q rest k =
    if ltb (2 * rest) (2 ^ k)
    then q
    else if ltb (2 ^ k) (2 * rest)
    then u64 (q + 1)
    else if q % 2 == 1
    then u64 (q + 1)
    else q

floor :
    (val c e : ℕ)
    → c + suc e < 63
    → sbits (sar val (suc e)) (suc c) ≡ sar (sbits val (suc (c + suc e))) (suc e)
floor val c e h =
    let d = suc e in
    let p1 = one-le-pow d 2 (omega arith) in
    let p2 = one-le-pow (suc c) 2 (omega arith) in
    let below : val % 2 ^ suc (c + d) < 2 ^ suc (c + d) =
      mod-lt val (one-le-pow (suc (c + d)) 2 (omega arith)) in
    let digit : val / 2 ^ d % 2 ^ suc c ≡ val % 2 ^ suc (c + d) / 2 ^ d =
      sym (ap (λ t. val % t / 2 ^ d) (powers c d) ∙ upper_digit val (2 ^ d) (2 ^ suc c) p1 p2) in
    rw
      (
        sbits_value c (sar val d) (omega arith),
        sar_low val d (suc c) (omega arith),
        sbits_value (c + d) val h,
        sar-extended c e (val % 2 ^ suc (c + d)) h below,
        digit,
      )
      refl

-- The bit that is tested, and the bits below it.
cut : (s e : ℕ) → e < 63 → s % 2 ^ suc e ≡ sar s e % 2 * 2 ^ e + s % 2 ^ e
cut s e h =
    ap (λ t. s % t) (pow-suc 2 e ∙ mul_comm (2 ^ e) 2)
    ∙ two_digits s (2 ^ e) 2 (one-le-pow e 2 (omega arith)) (omega arith)
    ∙ ap (λ t. t * 2 ^ e + s % 2 ^ e) (sym (sar_low s e 1 (omega arith)))

-- For numbers of 2 to 63 bits that lose 1 to 31 of them: `rndbits` returns the signed number divided
-- by the power of two, rounded to the nearest number and, half way between two, to the even one.
pub rndbits_rounds :
    (val c e : ℕ)
    → c + suc e < 63
    → e < 31
    → let s = sbits val (suc (c + suc e)) in
      rndbits val (suc (c + suc e)) (suc c) ≡ rounded (sar s (suc e)) (low_bits s (suc e)) (suc e)
unfolding rndbits
rndbits_rounds val c zero h le =
    let s = sbits val (suc (c + 1)) in
    let f : (suc (c + 1) == suc c) ≡ false = ground arith in
    let g : (suc (c + 1) - 1 == suc c) ≡ true = ground arith in
    rw (f, g, floor val c 0 h) (ground (arith, sar_low s 1 1 (omega arith)))
rndbits_rounds val c (suc e) h le =
    let s = sbits val (suc (c + suc (suc e))) in
    let f : (suc (c + suc (suc e)) == suc c) ≡ false = ground arith in
    let g : (suc (c + suc (suc e)) - 1 == suc c) ≡ false = ground arith in
    let k : suc (c + suc (suc e)) - suc c ≡ suc (suc e) = omega arith in
    let j : suc (suc e) - 1 ≡ suc e = omega arith in
    let low = mod-lt s (one-le-pow (suc e) 2 (omega arith)) in
    rw (f, g, k, j, floor val c (suc e) h)
      (ground (arith, cut s (suc e) (omega arith), pow-suc 2 (suc e), low))
