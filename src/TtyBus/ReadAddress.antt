-- ===== src/TtyBus/ReadAddress.antt =====
-- What `address_value` and `readword` (sw/host/ttybus.cpp) make of an address, in each of the forms
-- that rtl/wbubus/wbucompress.v gives it.
use zipversa.Base.{ℕ, suc, ◌+◌, ◌*◌, ◌/◌, ◌%◌, ◌<◌, ◌≡◌, refl, arith, true, false}
use zipversa.Base.{◌==◌, List, [], ◌∷◌, ◌++◌, map, length, All, ltb, leb}
use zipversa.Base.Bits.{shl32}
use zipversa.TtyBus.Code.{charenc, six, chardec-charenc, decodestr_codes, shift_in_lem}
use zipversa.TtyBus.State.{Bus, ok}
use zipversa.TtyBus.Read.{address_value, compressed_value}
use zipversa.TtyBus.Read.{collect, readword_loop, is_address}
use zipversa.TtyBus.Collect.{past, collect_front}
use zipversa.TtyBus.ReadWord.{charenc-IsClean, read_code_front}

length-map-charenc : (xs : List ℕ) → length (map charenc xs) ≡ length xs
length-map-charenc [] = refl
length-map-charenc (x ∷ xs) = rw (length-map-charenc xs) refl

collect_codes :
    (want h x : ℕ) (xs rest : List ℕ) (s : Bus)
    → All (λ x. x < 64) (x ∷ xs)
    → s.input ≡ map charenc (x ∷ xs) ++ rest
    → 2 + length xs ≡ want
    → collect want (h ∷ []) s ≡ (ok (h ∷ map charenc (x ∷ xs)), past (length (x ∷ xs)) rest s)
collect_codes want h x xs rest s clean e n =
    rw
      (collect_front want (h ∷ []) (charenc x) (map charenc xs) rest s e
        (charenc-IsClean (x ∷ xs) clean) (omega (arith, length-map-charenc xs, n)))
      (rw (length-map-charenc xs) refl)

-- After the first character `h` of the address come the codes `xs`, and the address is `v`.
pub record Spells (h : ℕ) (xs : List ℕ) (v : ℕ) : Type 0 where
  pub head : h < 64
  pub kind : is_address h ≡ true
  pub value :
      (rest : List ℕ) (s : Bus)
      → s.input ≡ map charenc xs ++ rest
      → address_value h (charenc h) s ≡ (ok v, past (length xs) rest s)

pub one_Spells : (x : ℕ) → x < 64 → Spells 12 (x ∷ []) x
unfolding address_value compressed_value
one_Spells x h = record {
  head = omega arith;
  kind = refl;
  value = λ rest s e.
      rw (collect_codes 2 (charenc 12) x [] rest s (h, tt) e refl, chardec-charenc x h) refl;
}

pub two_Spells : (x y : ℕ) → x < 64 → y < 64 → Spells 13 (x ∷ y ∷ []) (x * 64 + y)
unfolding address_value compressed_value
two_Spells x y hx hy = record {
  head = omega arith;
  kind = refl;
  value = λ rest s e.
      rw
        (
          collect_codes 3 (charenc 13) x (y ∷ []) rest s (hx, (hy, tt)) e refl,
          chardec-charenc x hx,
          shift_in_lem x y (omega arith) hy,
        )
        refl;
}

pub three_Spells :
    (x y z : ℕ) → x < 64 → y < 64 → z < 64 → Spells 14 (x ∷ y ∷ z ∷ []) ((x * 64 + y) * 64 + z)
unfolding address_value compressed_value
three_Spells x y z hx hy hz = record {
  head = omega arith;
  kind = refl;
  value = λ rest s e.
      rw
        (
          collect_codes 4 (charenc 14) x (y ∷ z ∷ []) rest s (hx, (hy, (hz, tt))) e refl,
          chardec-charenc x hx,
          shift_in_lem x y (omega arith) hy,
          shift_in_lem (x * 64 + y) z (omega arith) hz,
        )
        refl;
}

pub four_Spells :
    (x y z w : ℕ)
    → (x < 64) × (y < 64) × (z < 64) × (w < 64)
    → Spells 15 (x ∷ y ∷ z ∷ w ∷ []) (((x * 64 + y) * 64 + z) * 64 + w)
unfolding address_value compressed_value
four_Spells x y z w (hx, hy, hz, hw) = record {
  head = omega arith;
  kind = refl;
  value = λ rest s e.
      rw
        (
          collect_codes 5 (charenc 15) x (y ∷ z ∷ w ∷ []) rest s (hx, (hy, (hz, (hw, tt)))) e refl,
          chardec-charenc x hx,
          shift_in_lem x y (omega arith) hy,
          shift_in_lem (x * 64 + y) z (omega arith) hz,
          shift_in_lem ((x * 64 + y) * 64 + z) w (omega arith) hw,
        )
        refl;
}

pub five_Spells :
    (k x y z w u : ℕ)
    → (k < 4) × (x < 64) × (y < 64) × (z < 64) × (w < 64) × (u < 64)
    → Spells (8 + k) (x ∷ y ∷ z ∷ w ∷ u ∷ []) (six k x y z w u)
unfolding address_value
five_Spells k x y z w u (hk, hx, hy, hz, hw, hu) =
    let kind : is_address (8 + k) ≡ true = ground arith in
    let full : ((8 + k) / 4 == 2) ≡ true = ground arith in
    let top : (8 + k) % 4 ≡ k = omega arith in
    record {
      head = omega arith;
      kind = kind;
      value = λ rest s e.
          rw
            (
              full,
              collect_codes 6 (charenc (8 + k)) x (y ∷ z ∷ w ∷ u ∷ []) rest s
                  (hx, (hy, (hz, (hw, (hu, tt))))) e refl,
              decodestr_codes (8 + k) x y z w u (omega arith),
              top,
            )
            refl;
    }

-- An address code moves the host's address.
pub address_step :
    (fuel val h v : ℕ) (xs rest : List ℕ) (s : Bus)
    → Spells h xs v
    → s.input ≡ charenc h ∷ (map charenc xs ++ rest)
    → readword_loop (suc fuel) val s
      ≡ readword_loop fuel v (record s {
        input = rest;
        total_nread = s.total_nread + 1 + length xs;
        addr_set = true;
        lastaddr = shl32 v 2;
      })
unfolding readword_loop
address_step fuel val h v xs rest s sp e =
    let f0 : leb 64 h ≡ false = ground (arith, sp.head) in
    let f1 : ltb h 6 ≡ false = ground (arith, sp.kind) in
    rw
      (
        read_code_front (length s.input) h (map charenc xs ++ rest) s sp.head e,
        chardec-charenc h sp.head,
        f0,
        f1,
        sp.kind,
        sp.value rest (past 1 (map charenc xs ++ rest) s) refl,
      )
      refl
