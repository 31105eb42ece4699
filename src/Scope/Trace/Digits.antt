-- ===== src/Scope/Trace/Digits.antt =====
-- The digits that `write_binary_trace` of sw/host/scopecls.cpp writes.
use zipversa.Base.{ℕ, zero, suc, ◌+◌, ◌*◌, ◌%◌, ◌^◌, ◌≤◌, ◌<◌, ◌≡◌, refl, arith, true, false}
use zipversa.Base.{if◌then◌else◌, ltb, leb, List, [], ◌∷◌, length, All, ap, ◌∙◌, sym}
use zipversa.Base.Bits.{low_bits}
use zipversa.TwosComplement.Extension.{two_digits}
use zipversa.Scope.Trace.{binary, write_binary_trace}
use native.Mathlib.Nat.{one-le-pow, pow-suc, mul_comm, mod-eq_of_lt, mod-lt}
use native.Mathlib.Decide.{dec_lt}

-- The number that binary digits stand for, the highest first.
abbrev pub number : List ℕ → ℕ
number [] = 0
number (d ∷ ds) = d * 2 ^ length ds + number ds

length-binary : (n val : ℕ) → length (binary n val) ≡ n
unfolding binary
length-binary zero val = refl
length-binary (suc n) val = omega (arith, length-binary n val)

number-binary : (n val : ℕ) → number (binary n val) ≡ low_bits val n
unfolding binary
number-binary zero val = omega arith
number-binary (suc n) val =
    rw (length-binary n val, number-binary n val)
      (sym (
        ap (λ t. val % t) (pow-suc 2 n ∙ mul_comm (2 ^ n) 2)
        ∙ two_digits val (2 ^ n) 2 (one-le-pow n 2 (omega arith)) (omega arith)))

digits-binary : (n val : ℕ) → All (λ d. d < 2) (binary n val)
unfolding binary
digits-binary zero val = tt
digits-binary (suc n) val = (omega arith, digits-binary n val)

-- For 1 to 32 bits of a 32-bit word, `write_binary_trace` writes as many binary digits, and they stand
-- for the low bits of the word.
pub write_binary_trace-number :
    (n val : ℕ)
    → 1 ≤ n
    → n ≤ 32
    → val < 2 ^ 32
    → (length (write_binary_trace n val) ≡ n)
      × All (λ d. d < 2) (write_binary_trace n val)
      × (number (write_binary_trace n val) ≡ low_bits val n)
unfolding write_binary_trace
write_binary_trace-number n val h le lt = elim (dec_lt 1 n) [
  | no one ↦ let e : n ≡ 1 = omega arith in rw e (refl, (omega arith, tt), omega arith)
  | yes more ↦
      let f : leb n 1 ≡ false = ground arith in
      let below = mod-lt val (one-le-pow n 2 (omega arith)) in
      let x = if ltb n 32 then low_bits val n else val in
      let same : low_bits x n ≡ low_bits val n = elim (dec_lt n 32) [
        | yes s ↦ let g : ltb n 32 ≡ true = ground arith in rw g (mod-eq_of_lt below)
        | no s ↦ let g : ltb n 32 ≡ false = ground arith in rw g refl
      ] in
      rw f (length-binary n x, digits-binary n x, number-binary n x ∙ same)
]
