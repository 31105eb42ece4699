-- ===== src/Scope/Expanded.antt =====
-- The lines that `print` of sw/host/scopecls.cpp makes of a compressed trace, against the expanded one.
use zipversa.Base.{ℕ, zero, suc, ◌+◌, ◌^◌, ◌≤◌, ◌<◌, ◌≡◌, refl, arith, true, false}
use zipversa.Base.{if◌then◌else◌, List, [], ◌∷◌, ◌++◌, length, length-append, All, replicate}
use zipversa.Base.{Option, none, some, ap, ◌∙◌, sym, Bool-cases, inl, inr, get_or}
use mathlib.Core.List.{append_assoc}
use zipversa.Base.Bits.{u32, low_bits}
use zipversa.Scope.{
  Scope, Line, sample, gap, stars, is_gap, gaps, getaddresslen, print_compressed, trigger_offset,
  lines_of, words, print_plain,
}

abbrev pub unchanged : ℕ → List (Option ℕ)
unchanged n = replicate n none

-- The trace with one entry for each clock: a sample, or none where nothing changed.
abbrev pub expand : List ℕ → List (Option ℕ)
expand [] = []
expand (w ∷ ws) =
    if is_gap w then unchanged (low_bits w 31 + 1) ++ expand ws else some w ∷ expand ws

-- A line with the address `a` and the word `w` stands for the entry at `a` of the trace.
abbrev pub Shows : List (Option ℕ) → Line → Type 0
Shows trace (sample a w t) = get_or trace a none ≡ some w
Shows trace (gap n) = Unit {0}
Shows trace stars = Unit {0}

length-unchanged : (n : ℕ) → length (unchanged n) ≡ n
length-unchanged zero = refl
length-unchanged (suc n) = omega (arith, length-unchanged n)

pub length-expand-gap :
    (w : ℕ) (ws : List ℕ)
    → length (unchanged (low_bits w 31 + 1) ++ expand ws) ≡ low_bits w 31 + 1 + length (expand ws)
length-expand-gap w ws = omega (
  arith,
  length-append (unchanged (low_bits w 31 + 1)) (expand ws),
  length-unchanged (low_bits w 31 + 1),
)

length-le-expand : (ws : List ℕ) → length ws ≤ length (expand ws)
length-le-expand [] = omega arith
length-le-expand (w ∷ ws) = elim (Bool-cases (is_gap w)) [
  | inl g ↦ rw g (omega (arith, length-expand-gap w ws, length-le-expand ws))
  | inr s ↦ rw s (omega (arith, length-le-expand ws))
]

length-gaps :
    (ws : List ℕ) (alen : ℕ)
    → alen + length (expand ws) < 2 ^ 32 + length ws
    → gaps ws alen + length ws ≡ alen + length (expand ws)
unfolding gaps
length-gaps [] alen h = refl
length-gaps (w ∷ ws) alen h = elim (Bool-cases (is_gap w)) [
  | inl g ↦
      let n = low_bits w 31 in
      let len = length-expand-gap w ws in
      let h' : alen + (n + 1 + length (expand ws)) < 2 ^ 32 + suc (length ws) =
        rw (← len) (rw g at h) in
      let fits : u32 (alen + n) ≡ alen + n = omega (arith, length-le-expand ws, h') in
      rw (g, fits) (omega (arith, len, length-gaps ws (alen + n) (omega (arith, h'))))
  | inr s ↦
      let h' : alen + suc (length (expand ws)) < 2 ^ 32 + suc (length ws) = rw s at h in
      rw s (omega (arith, length-gaps ws alen (omega (arith, h'))))
]

-- `getaddresslen` counts the clocks of a compressed trace that begins with a sample.
pub getaddresslen-expand :
    (c : Scope) (w : ℕ) (ws : List ℕ)
    → c.compressed ≡ true
    → c.samples ≡ some (w ∷ ws)
    → c.scop_len ≡ suc (length ws)
    → is_gap w ≡ false
    → length (expand (w ∷ ws)) < 2 ^ 32
    → getaddresslen c ≡ length (expand (w ∷ ws))
unfolding getaddresslen
getaddresslen-expand c w ws k e n s h =
    let h' : suc (length (expand ws)) < 2 ^ 32 = rw s at h in
    rw (k, e, n, s) (omega (arith, length-gaps ws (suc (length ws)) (omega (arith, h'))))

get_or_front :
    (pre xs : List (Option ℕ)) (x : Option ℕ) → get_or (pre ++ x ∷ xs) (length pre) none ≡ x
get_or_front [] xs x = refl
get_or_front (p ∷ pre) xs x = get_or_front pre xs x

-- The lines for the words `ws`, behind clocks that are past.
print-Shows :
    (offset a : ℕ) (pre : List (Option ℕ)) (ws : List ℕ) (trace : List (Option ℕ))
    → a ≡ length pre
    → trace ≡ pre ++ expand ws
    → All (Shows trace) (print_compressed offset a ws)
unfolding print_compressed
print-Shows offset a pre [] trace l e = tt
print-Shows offset a pre (w ∷ ws) trace l e = elim (Bool-cases (is_gap w)) [
  | inl g ↦
      let n = low_bits w 31 + 1 in
      let e' : trace ≡ pre ++ (unchanged n ++ expand ws) = rw g at e in
      let past : a + low_bits w 31 + 1 ≡ length (pre ++ unchanged n) =
        omega (arith, l, length-append pre (unchanged n), length-unchanged n) in
      rw g (
        tt,
        print-Shows offset (a + low_bits w 31 + 1) (pre ++ unchanged n) ws trace past
            (e' ∙ sym (append_assoc pre (unchanged n) (expand ws))),
      )
  | inr s ↦
      let e' : trace ≡ pre ++ some w ∷ expand ws = rw s at e in
      let past : a + 1 ≡ length (pre ++ some w ∷ []) =
        omega (arith, l, length-append pre (some w ∷ [])) in
      let here : get_or trace a none ≡ some w =
        rw l (ap (λ t. get_or t (length pre) none) e' ∙ get_or_front pre (expand ws) (some w)) in
      rw s (
        here,
        print-Shows offset (a + 1) (pre ++ some w ∷ []) ws trace past
            (e' ∙ sym (append_assoc pre (some w ∷ []) (expand ws))),
      )
]

-- The trace that the lines stand for, with no look at the addresses.
abbrev pub drawn : List Line → List (Option ℕ)
drawn [] = []
drawn (sample a w t ∷ ls) = some w ∷ drawn ls
drawn (gap n ∷ ls) = unchanged (n + 1) ++ drawn ls
drawn (stars ∷ ls) = drawn ls

drawn-print_compressed :
    (offset a : ℕ) (ws : List ℕ) → drawn (print_compressed offset a ws) ≡ expand ws
unfolding print_compressed
drawn-print_compressed offset a [] = refl
drawn-print_compressed offset a (w ∷ ws) = elim (Bool-cases (is_gap w)) [
  | inl g ↦ rw (g, drawn-print_compressed offset (a + low_bits w 31 + 1) ws) refl
  | inr s ↦ rw (s, drawn-print_compressed offset (a + 1) ws) refl
]

-- The lines that `print` makes of a compressed trace stand for the expanded trace, all of it and in its
-- order, and each sample has the number of its clock as its address.
pub lines_of-expand :
    (c : Scope) (ws : List ℕ)
    → c.compressed ≡ true
    → c.samples ≡ some ws
    → (drawn (lines_of c) ≡ expand ws) × All (Shows (expand ws)) (lines_of c)
unfolding lines_of
lines_of-expand c ws k e =
    let o = trigger_offset c in
    let all : lines_of c ≡ print_compressed o 0 ws =
      ap (λ b. if b then print_compressed o 0 (words c) else print_plain o 0 0 0 (words c)) k
      ∙ ap (λ (d : Option (List ℕ)). print_compressed o 0 (elim d [ some ws ↦ ws | none ↦ [] ]))
          e in
    rw all (drawn-print_compressed o 0 ws, print-Shows o 0 [] ws (expand ws) refl refl)
