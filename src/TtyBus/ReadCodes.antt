-- ===== src/TtyBus/ReadCodes.antt =====
-- `lclreadcode` on input with and without characters that are no code.
use zipversa.Base.{
  ℕ, zero, suc, ◌+◌, ◌-◌, ◌≤◌, ◌<◌, ◌≡◌, refl, arith, Bool, true, false, ap, sym, ◌∙◌,
}
use zipversa.Base.{List, [], ◌∷◌, length, get_or, set, take, drop, All}
use zipversa.TtyBus.State.{Bus, ok}
use mathlib.Core.Bool.{true≢false}
use zipversa.TtyBus.Read.{dev_read, not_code, copy_codes, lclreadcode}

-- Every character is a code.
abbrev pub IsClean : List ℕ → Type 0
IsClean = All (λ c. not_code c ≡ false)

set-get_or : (xs : List ℕ) (i : ℕ) → set xs i (get_or xs i 0) ≡ xs
set-get_or [] i = refl
set-get_or (x ∷ xs) zero = refl
set-get_or (x ∷ xs) (suc i) = rw (set-get_or xs i) refl

get_or-IsClean :
    (xs : List ℕ) (i : ℕ) → i < length xs → IsClean xs → not_code (get_or xs i 0) ≡ false
get_or-IsClean [] i h clean = absurd (omega arith)
get_or-IsClean (x ∷ xs) zero h (c, clean) = c
get_or-IsClean (x ∷ xs) (suc i) h (c, clean) = get_or-IsClean xs i (omega arith) clean

pick_false : {A : Type 0} (b : Bool) (x y : A) → b ≡ false → elim b [ true ↦ x | false ↦ y ] ≡ y
pick_false true x y e = absurd (true≢false e)
pick_false false x y e = refl

pick_true : {A : Type 0} (b : Bool) (x y : A) → b ≡ true → elim b [ true ↦ x | false ↦ y ] ≡ x
pick_true true x y e = refl
pick_true false x y e = absurd (true≢false (sym e))

keep_step :
    (n sp dp ret : ℕ) (buf : List ℕ)
    → not_code (get_or buf sp 0) ≡ false
    → copy_codes (suc n) sp dp ret buf
      ≡ copy_codes n (sp + 1) (dp + 1) ret (set buf sp (get_or buf dp 0))
unfolding copy_codes
keep_step n sp dp ret buf e = pick_false (not_code (get_or buf sp 0)) _ _ e

pub skip_step :
    (n sp dp ret : ℕ) (buf : List ℕ)
    → not_code (get_or buf sp 0) ≡ true
    → copy_codes (suc n) sp dp ret buf ≡ copy_codes n (sp + 1) dp (ret - 1) buf
unfolding copy_codes
skip_step n sp dp ret buf e = pick_true (not_code (get_or buf sp 0)) _ _ e

copy_codes-IsClean :
    (n k ret : ℕ) (buf : List ℕ)
    → k + n ≤ length buf
    → IsClean buf
    → copy_codes n k k ret buf ≡ (ret, buf)
unfolding copy_codes
copy_codes-IsClean zero k ret buf h clean = refl
copy_codes-IsClean (suc n) k ret buf h clean =
    keep_step n k k ret buf (get_or-IsClean buf k (omega arith) clean)
    ∙ ap (copy_codes n (k + 1) (k + 1) ret) (set-get_or buf k)
    ∙ copy_codes-IsClean n (k + 1) ret buf (omega arith) clean

pub dev_read_some :
    (len c : ℕ) (cs : List ℕ) (s : Bus)
    → s.input ≡ c ∷ cs
    → dev_read len s ≡ (ok (take len (c ∷ cs)), record s { input = drop len (c ∷ cs) })
unfolding dev_read
dev_read_some len c cs s e = ground arith

-- When something has arrived and all the characters read are codes, `lclreadcode` returns them all,
-- in order, and takes them from the input.
pub lclreadcode-IsClean :
    (len c : ℕ) (cs : List ℕ) (s : Bus)
    → s.input ≡ c ∷ cs
    → IsClean (take len (c ∷ cs))
    → lclreadcode len s ≡ (
      ok (length (take len (c ∷ cs)), take len (c ∷ cs)),
      record s {
        input = drop len (c ∷ cs);
        total_nread = s.total_nread + length (take len (c ∷ cs));
      },
    )
unfolding lclreadcode
lclreadcode-IsClean len c cs s e clean =
    let got = take len (c ∷ cs) in
    let after : Bus = record s {
      input = drop len (c ∷ cs);
      total_nread = s.total_nread + length got;
    } in
    rw (dev_read_some len c cs s e) (
      ap (λ (p : ℕ × List ℕ). (ok p, after))
        (copy_codes-IsClean (length got) 0 (length got) got (omega arith) clean))

-- A character that is no code, between two that are: the count is right, but the character that is
-- kept is the one to be dropped, and the code after it is lost.
pub copy_codes_keeps :
    (a b c : ℕ)
    → not_code a ≡ false
    → not_code b ≡ true
    → not_code c ≡ false
    → copy_codes 3 0 0 3 (a ∷ b ∷ c ∷ []) ≡ (2, a ∷ b ∷ b ∷ [])
unfolding copy_codes
copy_codes_keeps a b c ha hb hc =
    keep_step 2 0 0 3 (a ∷ b ∷ c ∷ []) ha
    ∙ skip_step 1 1 1 3 (a ∷ b ∷ c ∷ []) hb
    ∙ keep_step 0 2 1 2 (a ∷ b ∷ c ∷ []) hc
