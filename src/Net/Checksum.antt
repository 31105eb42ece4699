-- ===== src/Net/Checksum.antt =====
-- The Internet checksum (sw/rv32/ipcksum.c).
use zipversa.Base.{ℕ, zero, suc, ◌+◌, ◌-◌, ◌*◌, ◌^◌}
use zipversa.Base.{if◌then◌else◌, ltb}
use zipversa.Base.Bits.{u32, shr, low_bits}

-- The loop over the bytes, `ucp[i]` as a function of the index, two in each round. The last byte of an
-- odd length is joined with the one behind it.
unfoldable pub sum_loop : ℕ → ℕ → ℕ → (ℕ → ℕ) → ℕ → ℕ
sum_loop zero i len ucp checksum = checksum
sum_loop (suc fuel) i len ucp checksum =
    let rest = sum_loop fuel (i + 2) len ucp (u32 (checksum + ucp i * 2 ^ 8 + ucp (i + 1))) in
    if ltb i len then rest else checksum

-- `while(checksum & ~0x0ffff)`: a word of 32 bits needs three rounds at most.
unfoldable pub fold_loop : ℕ → ℕ → ℕ
fold_loop zero checksum = checksum
fold_loop (suc fuel) checksum =
    let rest = fold_loop fuel (low_bits checksum 16 + shr checksum 16) in
    if ltb checksum 0x10000 then checksum else rest

-- `checksum ^ 0x0ffff` on 16 bits. Fuel of `len` is enough for the sum, which takes two bytes in a
-- round.
unfoldable pub ipcksum : ℕ → (ℕ → ℕ) → ℕ
ipcksum len ucp = 0x0ffff - fold_loop 3 (sum_loop len 0 len ucp 0)
