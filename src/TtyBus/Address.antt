-- ===== src/TtyBus/Address.antt =====
-- TTYBUS::encode_address and readcmd (sw/host/ttybus.cpp): the command words ahead of the data.
use zipversa.Base.{ℕ, ◌+◌, ◌-◌, ◌*◌, ◌%◌, ◌^◌, Bool, ◌&&◌, ◌||◌, not}
use zipversa.Base.{if◌then◌else◌, ltb, leb, ◌==◌, List, [], ◌∷◌, length}
use zipversa.Base.Bits.{u32, shr, low_bits}
use zipversa.TtyBus.Code.{charenc, encode}
use zipversa.TtyBus.State.{Bus, Outcome, ok, buserr}

-- `(a - m_lastaddr) >> 2`: both are unsigned, and so is the shift. The result is below 2 ^ 30.
unfoldable pub diffaddr : ℕ → ℕ → ℕ
diffaddr a lastaddr = shr (u32 (a + 2 ^ 32 - lastaddr)) 2

-- The characters of a difference, none where it is out of range. The source's tests
-- `diffaddr >= -32` and so on hold for each of the values that `diffaddr` has.
unfoldable pub encode_diff : ℕ → List ℕ
encode_diff diff =
    if ltb diff 32
    then charenc 0x09 ∷ charenc (low_bits diff 6) ∷ []
    else if ltb diff 2048
    then charenc 0x0b ∷ charenc (low_bits (shr diff 6) 6) ∷ charenc (low_bits diff 6) ∷ []
    else if ltb diff (2 ^ 17)
    then charenc 0x0d
      ∷ charenc (low_bits (shr diff 12) 6)
      ∷ charenc (low_bits (shr diff 6) 6)
      ∷ charenc (low_bits diff 6)
      ∷ []
    else if ltb diff (2 ^ 23)
    then charenc 0x0f
      ∷ charenc (low_bits (shr diff 18) 6)
      ∷ charenc (low_bits (shr diff 12) 6)
      ∷ charenc (low_bits (shr diff 6) 6)
      ∷ charenc (low_bits diff 6)
      ∷ []
    else []

-- `(ptr == m_buf) || (ptr >= &m_buf[n])`, with `used` characters in the buffer.
abbrev pub no_shorter : ℕ → ℕ → Bool
no_shorter used n = used == 0 || leb n used

-- The absolute encoding, or the difference that stands in the buffer.
unfoldable pub encode_absolute : ℕ → List ℕ → List ℕ
encode_absolute addr buf =
    let used = length buf in
    if leb addr 0x03f && no_shorter used 2
    then charenc 0x08 ∷ charenc addr ∷ []
    else if leb addr 0x0fff && no_shorter used 3
    then charenc 0x0a ∷ charenc (low_bits (shr addr 6) 6) ∷ charenc (low_bits addr 6) ∷ []
    else if leb addr 0x03ffff && no_shorter used 4
    then charenc 0x0c
      ∷ charenc (low_bits (shr addr 12) 6)
      ∷ charenc (low_bits (shr addr 6) 6)
      ∷ charenc (low_bits addr 6)
      ∷ []
    else if leb addr 0x0ffffff && no_shorter used 5
    then charenc 0x0e
      ∷ charenc (low_bits (shr addr 18) 6)
      ∷ charenc (low_bits (shr addr 12) 6)
      ∷ charenc (low_bits (shr addr 6) 6)
      ∷ charenc (low_bits addr 6)
      ∷ []
    else if used == 0
    then encode 0 addr
    else buf

-- The characters left in the buffer, and the state after; a BUSERR on an unaligned address.
unfoldable pub encode_address : ℕ → Bus → Outcome (List ℕ) × Bus
unfolding diffaddr
encode_address a s =
    if not (low_bits a 2 == 0)
    then (buserr a, s)
    else if s.addr_set && a == s.lastaddr
    then (ok [], s)
    else (
      ok (
          encode_absolute (shr a 2)
            (if s.addr_set then encode_diff (diffaddr a s.lastaddr) else [])),
      record s { rdaddr = 0 },
    )

-- `len` is from 1 to 519: the source asserts it. `inc` is 0 or 1.
unfoldable pub readcmd : ℕ → ℕ → List ℕ
readcmd inc len =
    let bit : ℕ = if inc == 0 then 0 else 1 in
    if leb len 8
    then charenc (0x20 + low_bits (len - 1) 3 * 2 + bit) ∷ []
    else charenc (0x30 + shr (len - 9) 6 % 8 * 2 + bit) ∷ charenc (low_bits (len - 9) 6) ∷ []
