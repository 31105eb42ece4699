-- ===== src/Uart.antt =====
-- The output functions of the board's serial port, sw/rv32/txfns.c. The port is assumed to become ready
-- whenever it is waited for.
pub mod Numbers
use zipversa.Base.{
  ℕ, zero, suc, ◌+◌, ◌-◌, ◌*◌, ◌/◌, ◌%◌, ◌^◌, Bool, false, not, ◌&&◌, ◌||◌, List, [], ◌∷◌, ◌++◌,
}
use zipversa.Base.{if◌then◌else◌, ltb, leb, ◌==◌}
use zipversa.Base.Bits.{u32, shr, low_bits}

-- The characters sent, and `last_was_cr`.
pub record Uart : Type 0 where
  pub last_was_cr : Bool
  pub u_tx : List ℕ

-- A newline is sent behind a carriage return.
unfoldable pub txchr : ℕ → Uart → Uart
txchr val s =
    let c = low_bits val 8 in
    let before : List ℕ = if not s.last_was_cr && val == b'\n' then b'\r' ∷ [] else [] in
    record { last_was_cr = c == b'\r'; u_tx = s.u_tx ++ (before ++ c ∷ []) }

-- The characters of a string, up to its end.
unfoldable pub txstr : List ℕ → Uart → Uart
txstr [] s = s
txstr (c ∷ cs) s = if c == 0 then s else txstr cs (txchr c s)

unfoldable pub hex_char : ℕ → ℕ
hex_char d = let ch = d + b'0' in if ltb b'9' ch then ch - b'0' + b'A' - 10 else ch

-- The digit at the place `i`, and those of lower places.
unfoldable pub hex_loop : ℕ → ℕ → Uart → Uart
hex_loop zero val s = s
hex_loop (suc i) val s = hex_loop i val (txchr (hex_char (low_bits (shr val (4 * i)) 4)) s)

unfoldable pub txhex : ℕ → Uart → Uart
txhex val s = hex_loop 8 val s

-- The loop that divides by ten while `uval`, an int, is positive: the digits found so far are the last
-- ones of `tmp`, highest first.
-- A number of 31 bits has ten digits at most.
unfoldable pub digit_loop : ℕ → ℕ → List ℕ → List ℕ
digit_loop zero uval tmp = tmp
digit_loop (suc fuel) uval tmp =
    let dval = uval / 10 in
    let digit = uval - dval * 10 in
    let rest = digit_loop fuel dval ((digit + b'0') ∷ tmp) in
    if uval == 0 || leb (2 ^ 31) uval then tmp else rest

unfoldable pub decimal : ℕ → List ℕ
decimal uval = if uval == 0 then b'0' ∷ [] else digit_loop 10 uval []

unfoldable pub tx_all : List ℕ → Uart → Uart
tx_all [] s = s
tx_all (c ∷ cs) s = tx_all cs (txchr c s)

-- `val` is held as its 32 bits. The lowest number is its own negative, as the hardware negates it, and
-- no digit is printed of it.
unfoldable pub txdecimal : ℕ → Uart → Uart
txdecimal val s =
    if leb (2 ^ 31) val
    then tx_all (decimal (2 ^ 32 - val)) (txchr b'-' s)
    else tx_all (decimal val) (txchr b' ' s)
