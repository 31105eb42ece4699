-- ===== src/Uart/Numbers.antt =====
-- The numbers that txhex and txdecimal print (sw/rv32/txfns.c), read back.
use zipversa.Base.{
  ℕ, zero, suc, ◌+◌, ◌-◌, ◌*◌, ◌^◌, ◌≤◌, ◌<◌, ◌≡◌, refl, arith, false, List, [], ◌∷◌, ◌++◌,
}
use zipversa.Base.{if◌then◌else◌, leb, ◌==◌, ap, sym, ◌∙◌, length, Bool-cases, inl, inr}
use zipversa.Base.Bits.{shr, low_bits}
use mathlib.Core.List.{append_assoc, append-nil}
use zipversa.Uart.{Uart, txchr, hex_char, hex_loop, txhex}

-- A character that is printed as it is.
abbrev pub IsPlain : ℕ → Type 0
IsPlain c = (32 ≤ c) × (c < 256)

txchr_plain :
    (c : ℕ) (s : Uart)
    → IsPlain c
    → txchr c s ≡ record { last_was_cr = false; u_tx = s.u_tx ++ c ∷ [] }
unfolding txchr
txchr_plain c s h =
    let a : (c == b'\n') ≡ false = ground arith in
    let b : (low_bits c 8 == b'\r') ≡ false = ground arith in
    let m : low_bits c 8 ≡ c = omega arith in
    elim (Bool-cases s.last_was_cr) [ inl e ↦ rw (e, b, m) refl | inr e ↦ rw (e, a, b, m) refl ]

-- The number that decimal digits stand for, after a number.
unfoldable pub decimal_value : ℕ → List ℕ → ℕ
decimal_value n [] = n
decimal_value n (c ∷ cs) = decimal_value (n * 10 + (c - b'0')) cs

abbrev pub IsDigit : ℕ → Type 0
IsDigit c = (b'0' ≤ c) × (c ≤ b'9')

-- The number that hexadecimal digits stand for, after a number.
unfoldable pub hex_value : ℕ → List ℕ → ℕ
hex_value n [] = n
hex_value n (c ∷ cs) = hex_value (n * 16 + (if leb c b'9' then c - b'0' else c - b'A' + 10)) cs

-- The characters that the loop sends from the place `i` on.
unfoldable pub hex_chars : ℕ → ℕ → List ℕ
hex_chars zero val = []
hex_chars (suc i) val = hex_char (low_bits (shr val (4 * i)) 4) ∷ hex_chars i val

hex_char-IsPlain : (d : ℕ) → d < 16 → IsPlain (hex_char d)
unfolding hex_char
hex_char-IsPlain d h = ground arith

hex_loop_chars : (i val : ℕ) (s : Uart) → (hex_loop i val s).u_tx ≡ s.u_tx ++ hex_chars i val
unfolding hex_loop hex_chars
hex_loop_chars zero val s = sym (append-nil s.u_tx)
hex_loop_chars (suc i) val s =
    let c = hex_char (low_bits (shr val (4 * i)) 4) in
    ap (λ (r : Uart). (hex_loop i val r).u_tx) (txchr_plain c s (hex_char-IsPlain _ (omega arith)))
    ∙ hex_loop_chars i val _
    ∙ append_assoc s.u_tx (c ∷ []) (hex_chars i val)

hex_digit_value :
    (d : ℕ)
    → d < 16
    → (if leb (hex_char d) b'9' then hex_char d - b'0' else hex_char d - b'A' + 10) ≡ d
unfolding hex_char
hex_digit_value d h = ground arith

hex_value-chars : (val : ℕ) → val < 2 ^ 32 → hex_value 0 (hex_chars 8 val) ≡ val
unfolding hex_value hex_chars
hex_value-chars val h =
    let d = λ (i : ℕ). hex_digit_value (low_bits (shr val (4 * i)) 4) (omega arith) in
    rw (d 7, d 6, d 5, d 4, d 3, d 2, d 1, d 0) (omega arith)

-- `txhex` prints eight characters, which stand for the word in hexadecimal.
pub txhex_prints :
    (val : ℕ) (s : Uart)
    → val < 2 ^ 32
    → (cs : List ℕ) × ((txhex val s).u_tx ≡ s.u_tx ++ cs) × (length cs ≡ 8) × (hex_value 0 cs ≡ val)
unfolding txhex hex_chars
txhex_prints val s h = (hex_chars 8 val, hex_loop_chars 8 val s, refl, hex_value-chars val h)
