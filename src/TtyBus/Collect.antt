-- ===== src/TtyBus/Collect.antt =====
-- `lclreadcode` and the loops on it (sw/host/ttybus.cpp) when all of a codeword has arrived.
use zipversa.Base.{ℕ, zero, suc, ◌+◌, ◌-◌, ◌≡◌, refl, arith, ap, sym, ◌∙◌}
use zipversa.Base.{List, [], ◌∷◌, ◌++◌, length, length-append, take, drop}
use mathlib.Core.Path.{subst}
use zipversa.TtyBus.State.{Bus, ok}
use zipversa.TtyBus.Read.{lclreadcode, collect_loop, collect}
use zipversa.TtyBus.ReadCodes.{IsClean, lclreadcode-IsClean}

take-append_front : (xs ys : List ℕ) (n : ℕ) → n ≡ length xs → take n (xs ++ ys) ≡ xs
take-append_front [] ys zero e = refl
take-append_front [] ys (suc n) e = absurd (omega (arith, e))
take-append_front (x ∷ xs) ys zero e = absurd (omega (arith, e))
take-append_front (x ∷ xs) ys (suc n) e =
    ap (λ t. x ∷ t) (take-append_front xs ys n (omega (arith, e)))

drop-append_front : (xs ys : List ℕ) (n : ℕ) → n ≡ length xs → drop n (xs ++ ys) ≡ ys
drop-append_front [] ys zero e = refl
drop-append_front [] ys (suc n) e = absurd (omega (arith, e))
drop-append_front (x ∷ xs) ys zero e = absurd (omega (arith, e))
drop-append_front (x ∷ xs) ys (suc n) e = drop-append_front xs ys n (omega (arith, e))

-- The state after so many characters are taken from the input.
abbrev pub past : ℕ → List ℕ → Bus → Bus
past n rest s = record s { input = rest; total_nread = s.total_nread + n }

pair_eq : {a b c d : List ℕ} → a ≡ c → b ≡ d → Path (List ℕ × List ℕ) (a, b) (c, d)
pair_eq p q = rw (p, q) refl

-- A read of as many clean characters as are wanted.
pub lclreadcode_front :
    (x : ℕ) (xs rest : List ℕ) (s : Bus)
    → s.input ≡ x ∷ (xs ++ rest)
    → IsClean (x ∷ xs)
    → lclreadcode (length (x ∷ xs)) s
      ≡ (ok (length (x ∷ xs), x ∷ xs), past (length (x ∷ xs)) rest s)
lclreadcode_front x xs rest s e clean =
    let n = length (x ∷ xs) in
    let t : take n (x ∷ (xs ++ rest)) ≡ x ∷ xs = take-append_front (x ∷ xs) rest n refl in
    let d : drop n (x ∷ (xs ++ rest)) ≡ rest = drop-append_front (x ∷ xs) rest n refl in
    lclreadcode-IsClean n x (xs ++ rest) s e (subst IsClean (sym t) clean)
    ∙ ap (λ (p : List ℕ × List ℕ). (ok (length p.0, p.0), past (length p.0) p.1 s))
        {x = (take n (x ∷ (xs ++ rest)), drop n (x ∷ (xs ++ rest)))} {y = (x ∷ xs, rest)}
        (pair_eq t d)

take_all : (xs : List ℕ) → take (length xs) xs ≡ xs
take_all [] = refl
take_all (x ∷ xs) = ap (λ t. x ∷ t) (take_all xs)

-- The rest of a codeword is collected at once.
pub collect_front :
    (want : ℕ) (buf : List ℕ) (x : ℕ) (xs rest : List ℕ) (s : Bus)
    → s.input ≡ x ∷ (xs ++ rest)
    → IsClean (x ∷ xs)
    → length buf + length (x ∷ xs) ≡ want
    → collect want buf s ≡ (ok (buf ++ x ∷ xs), past (length (x ∷ xs)) rest s)
unfolding collect collect_loop
collect_front want buf x xs rest s e clean h =
    let n : want - length buf ≡ length (x ∷ xs) = omega (arith, h) in
    rw (n, lclreadcode_front x xs rest s e clean, take_all (x ∷ xs))
      (ground (arith, length-append buf (x ∷ xs)))
