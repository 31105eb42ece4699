-- ===== src/NetUart/Write.antt =====
-- What `LINBUFS::write` of sw/host/netuart.cpp has written when it returns, and when it does.
use zipversa.Base.{ℕ, zero, suc, ◌+◌, ◌-◌, ◌≤◌, ◌≡◌, refl, arith, true, false, sym, ap, ◌∙◌}
use zipversa.Base.{
  if◌then◌else◌, leb, ltb, ◌==◌, List, [], ◌∷◌, ◌++◌, length, All, take, drop, take-append-drop,
  Bool-cases, inl, inr, map, bit_or,
}
use zipversa.Base.Bits.{bit_or-zero}
use mathlib.Core.List.{append-nil, append_assoc}
use zipversa.NetUart.{
  Answer, wrote, again, failed, Result, ok, exits, waits, write_loop, write, LinBufs, forward,
  is_open, note_sent, ◌>>=◌,
}

empty : (xs : List ℕ) → leb (length xs) 0 ≡ true → xs ≡ []
empty [] h = refl
empty (x ∷ xs) h = absurd (ground arith)

-- When the loop returns, all of the rest has been written behind what was before.
pub write_loop_all :
    (ts : List Answer) (rest out r : List ℕ) → write_loop ts rest out ≡ ok r → r ≡ out ++ rest
unfolding write_loop
write_loop_all [] rest out r h = absurd (cc)
write_loop_all (again ∷ ts) rest out r h = elim (Bool-cases (leb (length rest) 0)) [
  | inl e ↦ ground (arith, empty rest, append-nil out)
  | inr e ↦ write_loop_all ts rest out r (rw e at h)
]
write_loop_all (failed ∷ ts) rest out r h = absurd (cc)
write_loop_all (wrote n ∷ ts) rest out r h = elim (Bool-cases (n == 0)) [
  | inl z ↦ absurd (ground arith)
  | inr z ↦ elim (Bool-cases (leb (length (drop n rest)) 0)) [
    | inl e ↦
        let whole : take n rest ≡ rest =
          sym (append-nil (take n rest))
          ∙ ap (λ t. take n rest ++ t) (sym (empty (drop n rest) e))
          ∙ take-append-drop n rest in
        ground (arith, ap (λ t. out ++ t) whole)
    | inr e ↦
        write_loop_all ts (drop n rest) (out ++ take n rest) r (rw (z, e) at h)
        ∙ append_assoc out (take n rest) (drop n rest)
        ∙ ap (λ t. out ++ t) (take-append-drop n rest)
  ]
]

-- An answer of a port that works: it takes a character at least, or is to be asked again.
abbrev pub Works : Answer → Type 0
Works (wrote n) = 1 ≤ n
Works again = Unit {0}
Works failed = ⊥

-- How many characters the answers take.
abbrev pub taken : List Answer → ℕ
taken [] = 0
taken (wrote n ∷ ts) = n + taken ts
taken (t ∷ ts) = taken ts

length-drop : (n : ℕ) (xs : List ℕ) → length (drop n xs) ≡ length xs - n
length-drop zero xs = omega arith
length-drop (suc n) [] = omega arith
length-drop (suc n) (x ∷ xs) = omega (arith, length-drop n xs)

write_loop_returns :
    (ts : List Answer) (rest out : List ℕ)
    → All Works ts
    → 1 ≤ length rest
    → length rest ≤ taken ts
    → (r : List ℕ) × (write_loop ts rest out ≡ ok r)
unfolding write_loop
write_loop_returns [] rest out w h le = absurd (omega arith)
write_loop_returns (again ∷ ts) rest out w h le =
    let f : leb (length rest) 0 ≡ false = ground arith in
    rw f (write_loop_returns ts rest out w.1 h le)
write_loop_returns (failed ∷ ts) rest out w h le = absurd w.0
write_loop_returns (wrote n ∷ ts) rest out w h le =
    let z : (n == 0) ≡ false = ground (arith, w.0) in
    elim (Bool-cases (leb (length (drop n rest)) 0)) [
      | inl e ↦ rw (z, e) (out ++ take n rest, refl)
      | inr e ↦
          rw (z, e)
            (write_loop_returns ts (drop n rest) (out ++ take n rest) w.1 (ground arith)
              (omega (arith, length-drop n rest)))
    ]

write_loop_delivers :
    (ts : List Answer) (rest out : List ℕ)
    → All Works ts
    → 1 ≤ length rest
    → length rest ≤ taken ts
    → write_loop ts rest out ≡ ok (out ++ rest)
write_loop_delivers ts rest out w h le =
    let (r, e) = write_loop_returns ts rest out w h le in e ∙ ap ok (write_loop_all ts rest out r e)

map_none : (buf : List ℕ) → map (λ c. bit_or c 0) buf ≡ buf
map_none [] = refl
map_none (c ∷ buf) = rw (bit_or-zero c, map_none buf)

length-map_mask : (mask : ℕ) (buf : List ℕ) → length (map (λ c. bit_or c mask) buf) ≡ length buf
length-map_mask mask [] = refl
length-map_mask mask (c ∷ buf) = omega (arith, length-map_mask mask buf)

-- `write` of characters to a port that works, whose answers take all of them: it returns, and has
-- written all of them in order, each with the mask, whatever parts the port took them in.
pub write_delivers :
    (ts : List Answer) (mask : ℕ) (buf : List ℕ)
    → All Works ts
    → 1 ≤ length buf
    → length buf ≤ taken ts
    → write ts mask buf ≡ ok (map (λ c. bit_or c mask) buf)
unfolding write
write_delivers ts mask buf w h le = elim (Bool-cases (mask == 0)) [
  | inl z ↦
      let none : mask ≡ 0 = ground arith in
      rw none (write_loop_delivers ts buf [] w h le ∙ ap ok (sym (map_none buf)))
  | inr z ↦ rw z (
      write_loop_delivers ts (map (λ c. bit_or c mask) buf) [] w
        (omega (arith, length-map_mask mask buf)) (omega (arith, length-map_mask mask buf)))
]

pub write_all : (ts : List Answer) (buf r : List ℕ) → write ts 0 buf ≡ ok r → r ≡ buf
unfolding write
write_all ts buf r h = write_loop_all ts buf [] r h

pub write_masked :
    (ts : List Answer) (buf r : List ℕ)
    → write ts 0x80 buf ≡ ok r
    → r ≡ map (λ c. bit_or c 0x80) buf
unfolding write
write_masked ts buf r h = write_loop_all ts (map (λ c. bit_or c 0x80) buf) [] r h

-- What follows from a call and the rest of the method, both of which return.
pub bind_ok {ℓ κ μ} :
    {A : Type ℓ} {B : Type κ} {P : Type μ} (m : Result A) (f : A → Result B) {b : B}
    → (m >>= f) ≡ ok b
    → ((a : A) → m ≡ ok a → f a ≡ ok b → P)
    → P
bind_ok (ok a) f h k = k a refl h
bind_ok exits f h k = absurd (cc)
bind_ok waits f h k = absurd (cc)

note_sent_all : (cs : List ℕ) (b : LinBufs) → note_sent cs cs b ≡ record b { got = b.got ++ cs }
unfolding note_sent
note_sent_all cs b = ground arith

sent :
    (ts : List Answer) (cs : List ℕ) (b b' : LinBufs)
    → (write ts 0 cs >>= λ out. ok (note_sent cs out b)) ≡ ok b'
    → b' ≡ record b { got = b.got ++ cs }
sent ts cs b b' h =
    bind_ok (write ts 0 cs) (λ out. ok (note_sent cs out b)) h
      λ out e k. ground (arith, write_all ts cs out e, note_sent_all cs b)

-- When `forward` returns, an open client has got all of the characters, and stays open; a closed one
-- has lost them.
pub forward_all :
    (ts : List Answer) (cs : List ℕ) (b b' : LinBufs)
    → forward ts cs b ≡ ok b'
    → b' ≡ (if is_open b then record b { got = b.got ++ cs } else b)
unfolding forward
forward_all ts [] b b' h = ground (arith, append-nil b.got)
forward_all ts (c ∷ cs) b b' h = elim (Bool-cases (is_open b)) [
  | inl o ↦
      let f : ltb 0 (length (c ∷ cs)) ≡ true = ground arith in
      rw o (sent ts (c ∷ cs) b b' (rw (o, f) at h))
  | inr o ↦ rw o (ground (arith, rw o at h))
]
