-- ===== src/Registers/Names.antt =====
-- `addrdecode` on what `addrname` answers (sw/host/regdefs.cpp).
use zipversa.Base.{ℕ, ◌≡◌, refl, arith, Bool, true, false, ◌&&◌, sym, ap, ◌∙◌, List, [], ◌∷◌, map}
use zipversa.Base.{◌==◌, Option, none, some, Bool-cases, inl, inr}
use zipversa.Registers.{
  RegName, raw_bregs, is_alpha, to_lower, same, strcasecmp, find_name, addrdecode, find_addr,
  addrname,
}

-- Whether each row of `rs` has a name of letters first that is found in the table with the row's address.
abbrev known : ℕ → Option ℕ → Bool
known a none = false
known a (some b) = a == b

abbrev first_alpha : List ℕ → Bool
first_alpha [] = false
first_alpha (c ∷ cs) = is_alpha c

consistent : List RegName → Bool
consistent [] = true
consistent (r ∷ rs) =
    first_alpha r.name && known r.addr (find_name r.name raw_bregs) && consistent rs

table_consistent : consistent raw_bregs ≡ true
unfolding consistent raw_bregs is_alpha to_lower strcasecmp find_name
table_consistent = refl

known-some : (a : ℕ) (x : Option ℕ) → known a x ≡ true → x ≡ some a
known-some a none h = absurd (cc)
known-some a (some b) h = ground arith

-- The row that is found by its address is found by its name.
found :
    (v : ℕ) (n : List ℕ) (rs : List RegName)
    → consistent rs ≡ true
    → find_addr v rs ≡ some n
    → (first_alpha n ≡ true) × (find_name n raw_bregs ≡ some v)
unfolding consistent find_addr
found v n [] h e = absurd (cc)
found v n (r ∷ rs) h e = elim (Bool-cases (r.addr == v)) [
  | inl q ↦
      let name : r.name ≡ n = ground (arith, rw q at e) in
      let addr : find_name r.name raw_bregs ≡ some r.addr =
        ground (arith, known-some r.addr (find_name r.name raw_bregs)) in
      (ground arith, ap (λ t. find_name t raw_bregs) (sym name) ∙ addr ∙ ground arith)
  | inr q ↦ found v n rs (ground arith) (rw q at e)
]

same_eq : (a b : List ℕ) → same a b ≡ true → a ≡ b
same_eq [] [] h = refl
same_eq [] (y ∷ ys) h = absurd (cc)
same_eq (x ∷ xs) [] h = absurd (cc)
same_eq (x ∷ xs) (y ∷ ys) h = ground (arith, same_eq xs ys)

find_name_case :
    (w n : List ℕ) (rs : List RegName)
    → map to_lower w ≡ map to_lower n
    → find_name w rs ≡ find_name n rs
unfolding find_name strcasecmp
find_name_case w n [] e = refl
find_name_case w n (r ∷ rs) e = rw (e, find_name_case w n rs e) refl

is_alpha_case : (c d : ℕ) → to_lower c ≡ to_lower d → is_alpha c ≡ is_alpha d
unfolding to_lower is_alpha
is_alpha_case c d e = ground arith

-- The name that `addrname` has for an address, in capital or small letters, is decoded to that address.
pub addrdecode-addrname :
    (strtoul : List ℕ → ℕ) (v : ℕ) (n w : List ℕ)
    → addrname v ≡ some n
    → strcasecmp w n ≡ true
    → addrdecode strtoul w ≡ some v
unfolding addrname addrdecode strcasecmp
addrdecode-addrname strtoul v [] w e c = absurd (cc ((found v [] raw_bregs table_consistent e).0))
addrdecode-addrname strtoul v (d ∷ ds) [] e c = absurd (cc)
addrdecode-addrname strtoul v (d ∷ ds) (x ∷ xs) e c =
    let (alpha, name) = found v (d ∷ ds) raw_bregs table_consistent e in
    let low : map to_lower (x ∷ xs) ≡ map to_lower (d ∷ ds) =
      same_eq (map to_lower (x ∷ xs)) (map to_lower (d ∷ ds)) c in
    let letter : is_alpha x ≡ true = is_alpha_case x d (cc) ∙ alpha in
    rw letter (find_name_case (x ∷ xs) (d ∷ ds) raw_bregs low ∙ name)
