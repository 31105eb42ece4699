-- ===== src/TtyBus/Code.antt =====
-- TTYBUS::charenc, chardec, encode, decodestr and decodehex (sw/host/ttybus.cpp): six bits to a
-- printable character, and 32-bit words to six characters.
use zipversa.Base.{ℕ, ◌+◌, ◌-◌, ◌*◌, ◌/◌, ◌%◌, ◌^◌, ◌<◌, ◌≡◌, ◌⊎◌, ◌≢◌, inl, inr, ap, arith, bit_or}
use zipversa.Base.{ltb, leb, ◌==◌, if◌then◌else◌, ◌&&◌, List, [], ◌∷◌, get_or}
use zipversa.Base.Bits.{shl32, shr, low_bits, bit_or_fields}

-- Past 0x3f the source reports an internal error and its assertion fails: the 0 stands behind it.
unfoldable pub charenc : ℕ → ℕ
charenc sixbitval =
    if ltb sixbitval 10
    then b'0' + sixbitval
    else if ltb sixbitval (10 + 26)
    then b'A' - 10 + sixbitval
    else if ltb sixbitval (10 + 26 + 26)
    then b'a' - 10 - 26 + sixbitval
    else if sixbitval == 0x3e
    then b'@'
    else if sixbitval == 0x3f
    then b'%'
    else 0

-- 0x100 is the answer to a character that is no code.
unfoldable pub chardec : ℕ → ℕ
chardec b =
    if leb b'0' b && leb b b'9'
    then b - b'0'
    else if leb b'A' b && leb b b'Z'
    then b - b'A' + 10
    else if leb b'a' b && leb b b'z'
    then b - b'a' + 36
    else if b == b'@'
    then 0x03e
    else if b == b'%'
    then 0x03f
    else 0x0100

unfoldable pub decodehex : ℕ → ℕ
decodehex hx =
    if leb b'0' hx && leb hx b'9'
    then hx - b'0'
    else if leb b'A' hx && leb hx b'Z'
    then hx - b'A' + 10
    else if leb b'a' hx && leb hx b'z'
    then hx - b'a' + 10
    else 0

-- The six characters written to `buf`. The callers' `hb << 2` is a multiple of 4.
unfoldable pub encode : ℕ → ℕ → List ℕ
encode hb val =
    charenc (bit_or (hb * 4) (low_bits (shr val 30) 2))
    ∷ charenc (low_bits (shr val 24) 6)
    ∷ charenc (low_bits (shr val 18) 6)
    ∷ charenc (low_bits (shr val 12) 6)
    ∷ charenc (low_bits (shr val 6) 6)
    ∷ charenc (low_bits val 6)
    ∷ []

-- `r = (r << 6) | (chardec(c) & 0x3f)` on an unsigned word.
unfoldable pub shift_in : ℕ → ℕ → ℕ
shift_in r c = bit_or (shl32 r 6) (low_bits (chardec c) 6)

unfoldable pub decodestr : List ℕ → ℕ
decodestr buf =
    let r0 = low_bits (chardec (get_or buf 0 0)) 2 in
    let r1 = shift_in r0 (get_or buf 1 0) in
    let r2 = shift_in r1 (get_or buf 2 0) in
    let r3 = shift_in r2 (get_or buf 3 0) in
    let r4 = shift_in r3 (get_or buf 4 0) in shift_in r4 (get_or buf 5 0)

-- A character of the code.
abbrev pub IsCode : ℕ → Type 0
IsCode c = chardec c < 64

-- `chardec` reads back each six-bit value from the character that `charenc` writes for it.
pub chardec-charenc : (v : ℕ) → v < 64 → chardec (charenc v) ≡ v
unfolding chardec charenc
chardec-charenc v h = ground arith

-- A decoded value is written back as the character that it came from.
charenc_of_code : (c : ℕ) → chardec c < 64 → charenc (chardec c) ≡ c
unfolding chardec charenc
charenc_of_code c h = ground arith

chardec_cases : (c : ℕ) → (chardec c < 64) ⊎ (chardec c ≡ 0x100)
unfolding chardec
chardec_cases c = ground arith

-- A character is written by `charenc` for the value that `chardec` finds in it, or `chardec`
-- answers 0x100 and no six-bit value is written as that character.
pub charenc-chardec :
    (c : ℕ)
    → ((chardec c < 64) × (charenc (chardec c) ≡ c))
      ⊎ ((chardec c ≡ 0x100) × ((v : ℕ) → v < 64 → charenc v ≢ c))
charenc-chardec c = elim (chardec_cases c) [
  | inl h ↦ inl (h, charenc_of_code c h)
  | inr e ↦ inr (e, λ v h p. absurd (omega (arith, e, chardec-charenc v h, ap chardec p)))
]

pub shift_in_lem : (r v : ℕ) → r < 2 ^ 26 → v < 64 → shift_in r (charenc v) ≡ r * 64 + v
unfolding shift_in
shift_in_lem r v hr hv = ground (arith, chardec-charenc v hv, bit_or_fields 6 r v)

pub first_char : (hb val : ℕ) → bit_or (hb * 4) (val / 2 ^ 30 % 4) ≡ hb * 4 + val / 2 ^ 30 % 4
first_char hb val = bit_or_fields 2 hb (val / 2 ^ 30 % 4) (omega arith)

-- Six codes as one number, highest first; the first counts by its low two bits.
abbrev pub six : ℕ → ℕ → ℕ → ℕ → ℕ → ℕ → ℕ
six a b c d e f = ((((a * 64 + b) * 64 + c) * 64 + d) * 64 + e) * 64 + f

pub decodestr_codes :
    (a b c d e f : ℕ)
    → (a < 64) × (b < 64) × (c < 64) × (d < 64) × (e < 64) × (f < 64)
    → decodestr (charenc a ∷ charenc b ∷ charenc c ∷ charenc d ∷ charenc e ∷ charenc f ∷ [])
      ≡ six (a % 4) b c d e f
unfolding decodestr
decodestr_codes a b c d e f (ha, hb, hc, hd, he, hf) =
    let r1 = a % 4 * 64 + b in
    let r2 = r1 * 64 + c in
    let r3 = r2 * 64 + d in
    let r4 = r3 * 64 + e in
    rw (
      chardec-charenc a ha,
      shift_in_lem (a % 4) b (omega arith) hb,
      shift_in_lem r1 c (omega arith) hc,
      shift_in_lem r2 d (omega arith) hd,
      shift_in_lem r3 e (omega arith) he,
      shift_in_lem r4 f (omega arith) hf,
    )

-- `decodestr` reads back any 32-bit word that `encode` wrote, whatever the four bits ahead of it,
-- and those bits are found above the word's two in the first character.
pub decodestr-encode :
    (hb val : ℕ)
    → hb < 16
    → val < 2 ^ 32
    → (decodestr (encode hb val) ≡ val) × (shr (chardec (get_or (encode hb val) 0 0)) 2 ≡ hb)
unfolding encode
decodestr-encode hb val hh hv =
    let top = hb * 4 + val / 2 ^ 30 % 4 in
    rw (first_char hb val) (
      omega (
        arith,
        decodestr_codes top (val / 2 ^ 24 % 64) (val / 2 ^ 18 % 64) (val / 2 ^ 12 % 64)
            (val / 2 ^ 6 % 64) (val % 64) (omega arith),
      ),
      omega (arith, chardec-charenc top (omega arith)),
    )
