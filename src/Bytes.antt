-- ===== src/Bytes.antt =====
-- Byte order: byteswap, byteswapbuf, buildword and buildswap of sw/host/byteswap.cpp, and buildword
-- of sim/verilated/byteswap.cpp. The host's regdefs.h defines `LITTLEENDIAN_CPU`.
use zipversa.Base.{ℕ, zero, suc, ◌+◌, ◌*◌, ◌/◌, ◌%◌, ◌^◌, ◌<◌, ◌≡◌, refl, sym, ◌∙◌, arith, bit_or}
use zipversa.Base.{List, [], ◌∷◌, All}
use zipversa.Base.Bits.{shl32, shr, low_bits, bit_or_fields, bit_or_fields_low}

-- `r <<= 8; r |= (v & 0x0ff);`
unfoldable pub push_byte : ℕ → ℕ → ℕ
push_byte r b = bit_or (shl32 r 8) b

unfoldable pub byteswap : ℕ → ℕ
byteswap v =
    let r0 = low_bits v 8 in
    let r1 = push_byte r0 (low_bits (shr v 8) 8) in
    let r2 = push_byte r1 (low_bits (shr (shr v 8) 8) 8) in
    push_byte r2 (low_bits (shr (shr (shr v 8) 8) 8) 8)

-- The loop over the first `ln` words of the buffer.
unfoldable pub byteswapbuf : ℕ → List ℕ → List ℕ
byteswapbuf zero buf = buf
byteswapbuf (suc n) [] = []
byteswapbuf (suc n) (v ∷ buf) = byteswap v ∷ byteswapbuf n buf

-- The word of four bytes on the host.
unfoldable pub buildword : ℕ → ℕ → ℕ → ℕ → ℕ
buildword p0 p1 p2 p3 = bit_or (bit_or (bit_or p0 (shl32 p1 8)) (shl32 p2 16)) (shl32 p3 24)

-- The word of four bytes in the simulation.
unfoldable pub sim_buildword : ℕ → ℕ → ℕ → ℕ → ℕ
sim_buildword p0 p1 p2 p3 = push_byte (push_byte (push_byte p0 p1) p2) p3

-- The word of four bytes, the first one lowest.
unfoldable pub buildswap : ℕ → ℕ → ℕ → ℕ → ℕ
buildswap p0 p1 p2 p3 = push_byte (push_byte (push_byte p3 p2) p1) p0

push_byte_lem : (r b : ℕ) → r < 2 ^ 24 → b < 256 → push_byte r b ≡ r * 256 + b
unfolding push_byte
push_byte_lem r b hr hb = ground (arith, bit_or_fields 8 r b)

abbrev pub word : ℕ → ℕ → ℕ → ℕ → ℕ
word a b c d = ((a * 256 + b) * 256 + c) * 256 + d

push_four :
    (a b c d : ℕ)
    → (a < 256) × (b < 256) × (c < 256) × (d < 256)
    → push_byte (push_byte (push_byte a b) c) d ≡ word a b c d
push_four a b c d (ha, hb, hc, hd) = rw (
  push_byte_lem a b (omega arith) hb,
  push_byte_lem (a * 256 + b) c (omega arith) hc,
  push_byte_lem ((a * 256 + b) * 256 + c) d (omega arith) hd,
)

-- `byteswap` puts the four bytes of a word in the opposite order.
pub byteswap-word :
    (a b c d : ℕ)
    → (a < 256) × (b < 256) × (c < 256) × (d < 256)
    → byteswap (word a b c d) ≡ word d c b a
unfolding byteswap
byteswap-word a b c d (ha, hb, hc, hd) = omega (
  arith,
  push_four (word a b c d % 256) (word a b c d / 256 % 256) (word a b c d / 256 / 256 % 256)
      (word a b c d / 256 / 256 / 256 % 256) (omega arith),
)

-- Swapping twice gives each 32-bit word back.
pub byteswap-byteswap : (v : ℕ) → v < 2 ^ 32 → byteswap (byteswap v) ≡ v
byteswap-byteswap v h =
    let a = v / 2 ^ 24 in
    let b = v / 2 ^ 16 % 256 in
    let c = v / 2 ^ 8 % 256 in
    let d = v % 256 in
    let e : v ≡ word a b c d = omega arith in
    rw e (rw (byteswap-word a b c d (omega arith), byteswap-word d c b a (omega arith)))

-- The host's `buildword` puts the first byte lowest.
pub buildword_lem :
    (a b c d : ℕ) → (a < 256) × (b < 256) × (c < 256) × (d < 256) → buildword a b c d ≡ word d c b a
unfolding buildword
buildword_lem a b c d (ha, hb, hc, hd) = ground (
  arith,
  bit_or_fields_low 8 b a ha,
  bit_or_fields_low 16 c (b * 2 ^ 8 + a) (omega arith),
  bit_or_fields_low 24 d (c * 2 ^ 16 + (b * 2 ^ 8 + a)) (omega arith),
)

-- On four bytes, `buildswap` and the host's `buildword` build the same word, and that is the word of
-- the simulation's `buildword` with its bytes swapped.
pub buildword-buildswap :
    (a b c d : ℕ)
    → (a < 256) × (b < 256) × (c < 256) × (d < 256)
    → (buildword a b c d ≡ buildswap a b c d)
      × (buildswap a b c d ≡ byteswap (sim_buildword a b c d))
unfolding buildswap sim_buildword
buildword-buildswap a b c d (ha, hb, hc, hd) =
    let low = push_four d c b a (hd, hc, hb, ha) in
    (
      buildword_lem a b c d (ha, hb, hc, hd) ∙ sym low,
      rw (low, push_four a b c d (ha, hb, hc, hd), byteswap-word a b c d (ha, hb, hc, hd)),
    )

-- Swapping the first `n` words of a buffer of 32-bit words twice gives the buffer back, whether it
-- holds that many or fewer.
pub byteswapbuf-byteswapbuf :
    (n : ℕ) (buf : List ℕ) → All (λ v. v < 2 ^ 32) buf → byteswapbuf n (byteswapbuf n buf) ≡ buf
unfolding byteswapbuf
byteswapbuf-byteswapbuf zero buf h = refl
byteswapbuf-byteswapbuf (suc n) [] h = refl
byteswapbuf-byteswapbuf (suc n) (v ∷ buf) (hv, h) =
    rw (byteswap-byteswap v hv, byteswapbuf-byteswapbuf n buf h)
