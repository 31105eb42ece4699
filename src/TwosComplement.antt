-- ===== src/TwosComplement.antt =====
-- The numbers of some bits in a word of 64: sw/host/twoc.cpp. A `long` is the word that holds it.
pub mod Extension
pub mod Rounding
use zipversa.Base.{
  ℕ, zero, suc, ◌+◌, ◌-◌, ◌*◌, ◌/◌, ◌%◌, ◌^◌, ◌≤◌, ◌<◌, ◌≡◌, refl, arith, true, false, Bool,
}
use zipversa.Base.{bit_or, if◌then◌else◌, ltb, ◌==◌, not, ap, sym, ◌∙◌}
use zipversa.Base.Bits.{shr, low_bits, bit_or_fields}
use zipversa.Divide.{u64, shl64}
use mathlib.Core.Path.{subst}
use native.Mathlib.Decide.{dec_lt}
use native.Mathlib.Nat.{
  one-le-pow, mul_comm, mul_assoc, add-mul, add-mul-mod_self_left, add-mul-div_right, div-eq_of_lt,
  pow-suc, mod-lt, mul-sub, pow-le-pow_right, mul-le-mul_right, div-add-mod',
  add-mul-mod_self_right, mod-eq_of_lt, div-lt_iff_lt-mul, le-div_iff_mul-le,
}

unfoldable pub sbits : ℕ → ℕ → ℕ
sbits val bits =
    let r = low_bits val bits in
    if shr r (bits - 1) % 2 == 1 then bit_or (shl64 (2 ^ 64 - 1) bits) r else r

-- `val >> k` on a signed word.
unfoldable pub sar : ℕ → ℕ → ℕ
sar x k = if ltb x (2 ^ 63) then shr x k else shr x k + (2 ^ 64 - 2 ^ (64 - k))

unfoldable pub sfits : ℕ → ℕ → Bool
sfits val bits = sbits val bits == bits

unfoldable pub ubits : ℕ → ℕ → ℕ
ubits val bits = low_bits val bits

unfoldable pub rndbits : ℕ → ℕ → ℕ → ℕ
rndbits val bits_in bits_out =
    let s = sbits val bits_in in
    let k = bits_in - bits_out in
    let t1 = sbits (sar val 1) bits_out in
    let t = sbits (sar val k) bits_out in
    if bits_in == bits_out
    then s
    else if bits_in - 1 == bits_out
    then (if s % 4 == 3 then u64 (t1 + 1) else t1)
    else if sar s (k - 1) % 2 == 0
    then t
    else if not (low_bits s (k - 1) == 0)
    then u64 (t + 1)
    else if t % 2 == 1
    then u64 (t + 1)
    else t
