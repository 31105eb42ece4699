-- ===== src/FlashDriver/Scan.antt =====
-- The comparison of a sector with the data that it is to hold, in FLASHDRVR::write of
-- sw/host/flashdrvr.cpp.
use zipversa.Base.{ℕ, zero, suc, ◌+◌, ◌-◌, ◌%◌, ◌≤◌, ◌≡◌, ◌==◌, refl, arith, Bool, true, false, not}
use zipversa.Base.{◌&&◌, bit_and, List, [], ◌∷◌, take, Bool-cases, inl, inr}
use zipversa.FlashDriver.Write.{compare_bytes}

-- The bytes, from index `i` on, are those of the goal.
abbrev pub Matches : (ℕ → ℕ) → ℕ → List ℕ → Type 0
Matches goal i [] = Unit {0}
Matches goal i (a ∷ s) = (a ≡ goal i) × Matches goal (i + 1) s

-- Programming, which only clears bits, can make the goal of each byte.
abbrev pub Programmable : (ℕ → ℕ) → ℕ → List ℕ → Type 0
Programmable goal i [] = Unit {0}
Programmable goal i (a ∷ s) = (bit_and a (goal i) ≡ goal i) × Programmable goal (i + 1) s

-- What a verdict says of the bytes: to erase, nothing to do, or to program from an address on.
abbrev pub Verdict : ℕ → (ℕ → ℕ) → ℕ → List ℕ → Bool × ℕ → Type 0
Verdict base goal i s (true, v) = ¬ Programmable goal i s
Verdict base goal i s (false, zero) = Matches goal i s
Verdict base goal i s (false, suc v) =
    Programmable goal i s
    × (base ≤ suc v)
    × ((suc v - base) % 4 ≡ 0)
    × Matches goal i (take (suc v - base - i) s)

-- Once there is an address to program from, it stays.
abbrev Settled : (ℕ → ℕ) → ℕ → ℕ → List ℕ → Bool × ℕ → Type 0
Settled goal i v s (true, w) = ¬ Programmable goal i s
Settled goal i v s (false, w) = Programmable goal i s × (w ≡ v)

Settled-step :
    (goal : ℕ → ℕ) (i v a : ℕ) (s : List ℕ) (r : Bool × ℕ)
    → bit_and a (goal i) ≡ goal i
    → Settled goal (i + 1) v s r
    → Settled goal i v (a ∷ s) r
Settled-step goal i v a s (true, w) e h = λ p. h p.1
Settled-step goal i v a s (false, w) e h = ((e, h.0), h.1)

compare-Settled :
    (base : ℕ) (goal : ℕ → ℕ) (i v : ℕ) (s : List ℕ)
    → Settled goal i (suc v) s (compare_bytes base goal i (suc v) s)
unfolding compare_bytes
compare-Settled base goal i v [] = (tt, refl)
compare-Settled base goal i v (a ∷ s) =
    let keeps : (not (a == goal i) && (suc v == 0)) ≡ false = ground arith in
    elim (Bool-cases (bit_and a (goal i) == goal i)) [
      | inl e ↦
          rw (e, keeps)
            (Settled-step goal i (suc v) a s _ (ground arith)
              (compare-Settled base goal (i + 1) v s))
      | inr e ↦ rw e (λ p. absurd (ground arith))
    ]

Verdict-step :
    (base : ℕ) (goal : ℕ → ℕ) (i a : ℕ) (s : List ℕ) (r : Bool × ℕ)
    → bit_and a (goal i) ≡ goal i
    → a ≡ goal i
    → Verdict base goal (i + 1) s r
    → Verdict base goal i (a ∷ s) r
Verdict-step base goal i a s (true, w) e d h = λ p. h p.1
Verdict-step base goal i a s (false, zero) e d h = (d, h)
Verdict-step base goal i a s (false, suc w) e d (prog, le, al, m) = (
  (e, prog),
  le,
  al,
  elim (Bool-cases (suc w - base - i == 0)) [
    | inl z ↦ let none : suc w - base - i ≡ 0 = ground arith in rw none tt
    | inr z ↦
        let one : suc w - base - i ≡ suc (suc w - base - (i + 1)) = ground arith in rw one (d, m)
  ],
)

Settled-Verdict :
    (base : ℕ) (goal : ℕ → ℕ) (i w a : ℕ) (s : List ℕ) (r : Bool × ℕ)
    → suc w ≡ i - i % 4 + base
    → Settled goal i (suc w) (a ∷ s) r
    → Verdict base goal i (a ∷ s) r
Settled-Verdict base goal i w a s (true, v) e h = h
Settled-Verdict base goal i w a s (false, zero) e (prog, z) = absurd (omega arith)
Settled-Verdict base goal i w a s (false, suc v) e (prog, z) =
    let none : suc v - base - i ≡ 0 = omega arith in (prog, omega arith, omega arith, rw none tt)

mismatch-Verdict :
    (base : ℕ) (goal : ℕ → ℕ) (i v a : ℕ) (s : List ℕ)
    → 1 ≤ base
    → v ≡ i - i % 4 + base
    → bit_and a (goal i) ≡ goal i
    → Verdict base goal i (a ∷ s) (compare_bytes base goal (i + 1) v s)
mismatch-Verdict base goal i zero a s h e b = absurd (omega arith)
mismatch-Verdict base goal i (suc w) a s h e b =
    Settled-Verdict base goal i w a s _ e
      (Settled-step goal i (suc w) a s _ b (compare-Settled base goal (i + 1) w s))

compare-Verdict :
    (base : ℕ) (goal : ℕ → ℕ) (i : ℕ) (s : List ℕ)
    → 1 ≤ base
    → Verdict base goal i s (compare_bytes base goal i 0 s)
unfolding compare_bytes
compare-Verdict base goal i [] h = tt
compare-Verdict base goal i (a ∷ s) h = elim (Bool-cases (bit_and a (goal i) == goal i)) [
  | inr e ↦ rw e (λ p. absurd (ground arith))
  | inl e ↦ elim (Bool-cases (a == goal i)) [
    | inl d ↦
        rw (e, d)
          (Verdict-step base goal i a s _ (ground arith) (ground arith)
            (compare-Verdict base goal (i + 1) s h))
    | inr d ↦ rw (e, d) (mismatch-Verdict base goal i _ a s h refl (ground arith))
  ]
]

-- The comparison of a sector's bytes with those that are wanted, at a base address above 0. If it asks
-- for an erase, programming cannot make all the bytes that are wanted (a byte has a bit clear that is
-- wanted set). If it answers that there is nothing to do, all bytes match. Otherwise programming can
-- make them, and all bytes before the address that it answers, which is whole words above the base,
-- match.
pub compare_bytes-Verdict :
    (base : ℕ) (goal : ℕ → ℕ) (s : List ℕ)
    → 1 ≤ base
    → Verdict base goal 0 s (compare_bytes base goal 0 0 s)
compare_bytes-Verdict base goal s h = compare-Verdict base goal 0 s h
