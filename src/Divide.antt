-- ===== src/Divide.antt =====
-- The division of 64-bit numbers: zip_bitrev, cltz, __udivdi3 and __divdi3 of sw/zlib/udiv.c in their C form,
-- and __umoddi3 of sw/zlib/umod.c.
pub mod LeadingZeros
pub mod Count
pub mod Rounds
pub mod Quotient
use zipversa.Base.{ℕ, zero, suc, ◌+◌, ◌-◌, ◌*◌, ◌/◌, ◌%◌, ◌^◌, bit_or}
use zipversa.Base.{if◌then◌else◌, not, leb, ltb, ◌==◌, ◌&&◌}
use zipversa.Base.Bits.{shl32, shr, low_bits}

-- An `unsigned long` has 64 bits.
abbrev pub u64 : ℕ → ℕ
u64 n = n % 2 ^ 64

abbrev pub shl64 : ℕ → ℕ → ℕ
shl64 x k = u64 (x * 2 ^ k)

-- So many rounds of the loop of `zip_bitrev`.
unfoldable pub bitrev_loop : ℕ → ℕ → ℕ → ℕ
bitrev_loop zero r b = r
bitrev_loop (suc n) r b = bitrev_loop n (bit_or (shl32 r 1) (low_bits b 1)) (shr b 1)

unfoldable pub zip_bitrev : ℕ → ℕ
zip_bitrev a = bitrev_loop 32 0 a

-- `if ((hv & mask) == 0) { cnt += h; hv = hv >> h; }` for the mask of the low `h` bits.
unfoldable pub skip_zeros : ℕ → ℕ × ℕ → ℕ × ℕ
skip_zeros h (cnt, hv) = if low_bits hv h == 0 then (cnt + h, shr hv h) else (cnt, hv)

unfoldable pub cltz : ℕ → ℕ
cltz v =
    let start : ℕ × ℕ = if shr v 32 == 0 then (32, low_bits v 32) else (0, shr v 32) in
    let s16 = skip_zeros 16 (start.0, zip_bitrev start.1) in
    let s2 = skip_zeros 2 (skip_zeros 4 (skip_zeros 8 s16)) in
    if low_bits s2.1 1 == 0 then s2.0 + 1 else s2.0

-- `while(m > 0)`: `m` is below 2 ^ 64 and is halved in each round, so that fuel of 65 is enough.
unfoldable pub udiv_loop : ℕ → ℕ → ℕ → ℕ → ℕ → ℕ
udiv_loop zero a b m r = r
udiv_loop (suc fuel) a b m r =
    let taken = udiv_loop fuel (a - b) (shr b 1) (shr m 1) (bit_or r m) in
    let left = udiv_loop fuel a (shr b 1) (shr m 1) r in
    if m == 0 then r else if ltb a b then left else taken

-- `b` is not 0: the source divides by it.
unfoldable pub udivdi3 : ℕ → ℕ → ℕ
udivdi3 a b =
    let la = cltz a in
    let lb = cltz b in
    let a' = shl64 a la in
    let narrow = low_bits a 32 / low_bits b 32 in
    let high = shr a' 32 / shr (shl64 b la) 32 in
    let long = udiv_loop 65 a' (shl64 b lb) (shl64 1 (lb - la)) 0 in
    if ltb a b
    then 0
    else if shr b 32 == 0 && shr a 32 == 0
    then narrow
    else if ltb lb (la + 32) && low_bits (shl64 b la) 32 == 0
    then high
    else long

-- `r = r * b; r = a - r;` on unsigned words of 64 bits.
unfoldable pub umoddi3 : ℕ → ℕ → ℕ
umoddi3 a b = u64 (a + 2 ^ 64 - u64 (udivdi3 a b * b))

-- A word of 64 bits with the other sign.
abbrev pub neg64 : ℕ → ℕ
neg64 x = u64 (2 ^ 64 - x)

-- On signed words, held as their 64 bits. The lowest number has no negative.
unfoldable pub divdi3 : ℕ → ℕ → ℕ
divdi3 a b =
    let sa = leb (2 ^ 63) a in
    let sb = leb (2 ^ 63) b in
    let r = udivdi3 (if sa then neg64 a else a) (if sb then neg64 b else b) in
    if (if sb then not sa else sa) then neg64 r else r
