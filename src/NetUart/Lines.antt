-- ===== src/NetUart/Lines.antt =====
-- The lines that `print_in` and `print_out` of sw/host/netuart.cpp print.
use zipversa.Base.{ℕ, ◌<◌, ◌≡◌, ◌≢◌, refl, arith, true, false, sym, ap, ◌∙◌}
use zipversa.Base.{
  if◌then◌else◌, leb, ltb, List, [], ◌∷◌, ◌++◌, length, length-append, All, All-append, Bool-cases,
  inl, inr,
}
use mathlib.Core.List.{append-nil, append_assoc}
use mathlib.Core.Path.{subst}
use zipversa.NetUart.{is_end, c_string, init, put, put_all}

put-IsBounded : (c : ℕ) (line : List ℕ) → length line < 511 → length (put c line).0 < 511
unfolding put
put-IsBounded c line h = ground (arith, length-append line (c ∷ []))

put_all-IsBounded : (cs line : List ℕ) → length line < 511 → length (put_all cs line).0 < 511
unfolding put_all
put_all-IsBounded [] line h = h
put_all-IsBounded (c ∷ cs) line h = put_all-IsBounded cs (put c line).0 (put-IsBounded c line h)

-- The characters that are no end of a line.
abbrev pub body : List ℕ → List ℕ
body [] = []
body (c ∷ cs) = if is_end c then body cs else c ∷ body cs

abbrev pub concat : List (List ℕ) → List ℕ
concat [] = []
concat (x ∷ xs) = x ++ concat xs

body-append : (xs ys : List ℕ) → body (xs ++ ys) ≡ body xs ++ body ys
body-append [] ys = refl
body-append (x ∷ xs) ys = ground (arith, body-append xs ys)

concat-append : (xs ys : List (List ℕ)) → concat (xs ++ ys) ≡ concat xs ++ concat ys
concat-append [] ys = refl
concat-append (x ∷ xs) ys = rw (concat-append xs ys) (sym (append_assoc x (concat xs) (concat ys)))

init-append : (xs : List ℕ) (c : ℕ) → init (xs ++ c ∷ []) ≡ xs
init-append [] c = refl
init-append (x ∷ []) c = refl
init-append (x ∷ y ∷ xs) c = ap (λ t. x ∷ t) (init-append (y ∷ xs) c)

abbrev pub NoNul : List ℕ → Type 0
NoNul = All (λ c. c ≢ 0)

c_string_all : (cs : List ℕ) → NoNul cs → c_string cs ≡ cs
c_string_all [] h = refl
c_string_all (c ∷ cs) (h, hs) = ground (arith, c_string_all cs hs)

put_full :
    (c : ℕ) (line : List ℕ)
    → NoNul (line ++ c ∷ [])
    → leb 511 (length (line ++ c ∷ [])) ≡ true
    → put c line ≡ ([], (line ++ c ∷ []) ∷ [])
unfolding put
put_full c line h full = ground (arith, c_string_all (line ++ c ∷ []) h)

put_end :
    (c d : ℕ) (line : List ℕ)
    → NoNul (d ∷ line)
    → leb 511 (length (d ∷ line ++ c ∷ [])) ≡ false
    → is_end c ≡ true
    → put c (d ∷ line) ≡ ([], (d ∷ line) ∷ [])
unfolding put
put_end c d line h part e =
    let long : ltb 1 (length (d ∷ line ++ c ∷ [])) ≡ true =
      ground (arith, length-append line (c ∷ [])) in
    let text : c_string (init (d ∷ line ++ c ∷ [])) ≡ d ∷ line =
      ap c_string (init-append (d ∷ line) c) ∙ c_string_all (d ∷ line) h in
    rw (part, e, long, text) refl

put_more :
    (c : ℕ) (line : List ℕ)
    → leb 511 (length (line ++ c ∷ [])) ≡ false
    → is_end c ≡ false
    → put c line ≡ (line ++ c ∷ [], [])
unfolding put
put_more c line part e = rw (part, e) refl

-- What is printed and what is kept, after a character.
record Puts (c : ℕ) (line : List ℕ) : Type 0 where
  text : body (concat (put c line).1 ++ (put c line).0) ≡ body line ++ body (c ∷ [])
  plain : NoNul (put c line).0

ended :
    (c : ℕ) (line : List ℕ)
    → NoNul line
    → leb 511 (length (line ++ c ∷ [])) ≡ false
    → is_end c ≡ true
    → Puts c line
unfolding put
ended c [] h part e = record { text = rw e refl; plain = rw e tt }
ended c (d ∷ line) h part e =
    let p = put_end c d line h part e in
    record {
      text =
          ap (λ (p : List ℕ × List (List ℕ)). body (concat p.1 ++ p.0)) p
          ∙ ap body (append-nil ((d ∷ line) ++ []) ∙ append-nil (d ∷ line))
          ∙ rw e (sym (append-nil (body (d ∷ line))));
      plain = subst (λ (p : List ℕ × List (List ℕ)). NoNul p.0) (sym p) tt;
    }

put-Puts : (c : ℕ) (line : List ℕ) → NoNul line → c ≢ 0 → Puts c line
put-Puts c line h hc =
    let nonul : NoNul (line ++ c ∷ []) = All-append (λ x. x ≢ 0) line (c ∷ []) h (hc, tt) in
    elim (Bool-cases (leb 511 (length (line ++ c ∷ [])))) [
      | inl full ↦
          let e = put_full c line nonul full in
          record {
            text =
                ap (λ (p : List ℕ × List (List ℕ)). body (concat p.1 ++ p.0)) e
                ∙ ap body (append-nil ((line ++ c ∷ []) ++ []) ∙ append-nil (line ++ c ∷ []))
                ∙ body-append line (c ∷ []);
            plain = subst (λ (p : List ℕ × List (List ℕ)). NoNul p.0) (sym e) tt;
          }
      | inr part ↦ elim (Bool-cases (is_end c)) [
        | inl e ↦ ended c line h part e
        | inr e ↦
            let m = put_more c line part e in
            record {
              text =
                  ap (λ (p : List ℕ × List (List ℕ)). body (concat p.1 ++ p.0)) m
                  ∙ body-append line (c ∷ []);
              plain = subst (λ (p : List ℕ × List (List ℕ)). NoNul p.0) (sym m) nonul;
            }
      ]
    ]

put_all-text :
    (cs line : List ℕ)
    → NoNul line
    → NoNul cs
    → body (concat (put_all cs line).1 ++ (put_all cs line).0) ≡ body line ++ body cs
unfolding put_all
put_all-text [] line h hc = sym (append-nil (body line))
put_all-text (c ∷ cs) line h (hc, hcs) =
    let one = put-Puts c line h hc in
    let l1 = (put c line).0 in
    let o1 = (put c line).1 in
    let l2 = (put_all cs l1).0 in
    let o2 = (put_all cs l1).1 in
    let ih = put_all-text cs l1 one.plain hcs in
    ap (λ t. body (t ++ l2)) (concat-append o1 o2)
    ∙ ap body (append_assoc (concat o1) (concat o2) l2)
    ∙ body-append (concat o1) (concat o2 ++ l2)
    ∙ ap (λ t. body (concat o1) ++ t) ih
    ∙ sym (append_assoc (body (concat o1)) (body l1) (body cs))
    ∙ ap (λ t. t ++ body cs) (sym (body-append (concat o1) l1) ∙ one.text)
    ∙ append_assoc (body line) (body (c ∷ [])) (body cs)
    ∙ ap (λ t. body line ++ t) (sym (body-append (c ∷ []) cs))

-- For a line of fewer than 511 characters and any characters that arrive, none of them NUL: the line that
-- is kept is again that short, so the array of 512 is never overrun; and the lines printed, with the line
-- kept behind them, are the old line and the characters in their order, with ends of lines left out on both
-- sides.
pub put_all-keeps :
    (cs line : List ℕ)
    → length line < 511
    → NoNul line
    → NoNul cs
    → (length (put_all cs line).0 < 511)
      × (body (concat (put_all cs line).1 ++ (put_all cs line).0) ≡ body (line ++ cs))
put_all-keeps cs line h hl hc =
    (put_all-IsBounded cs line h, put_all-text cs line hl hc ∙ sym (body-append line cs))
