-- ===== src/TtyBus/Read.antt =====
-- The reading methods of TTYBUS (sw/host/ttybus.cpp): lclreadcode, readword and readidle.
-- A read from the device returns what has arrived, up to the length asked for, and waits if
-- nothing has. Each loop takes as fuel one more than the bytes that have arrived: a round reads a
-- byte at least, so the loop that uses it up waits.
use zipversa.Base.{ℕ, zero, suc, ◌+◌, ◌-◌, ◌*◌, ◌/◌, ◌%◌, Bool, true, false, ◌||◌}
use zipversa.Base.{
  if◌then◌else◌, ltb, leb, ◌==◌, List, [], ◌∷◌, ◌++◌, length, get_or, set, take, drop,
}
use zipversa.Base.{Option, none, some}
use zipversa.Base.Bits.{u32, shl32, shr, low_bits}
use zipversa.TtyBus.Code.{chardec, decodestr, shift_in}
use zipversa.TtyBus.State.{waits, M, ok, blocked, ◌>>=◌, ◌>>◌, pure, throw, modify, update}

-- `m_dev->read(buf, len)`
unfoldable pub dev_read : ℕ → M (List ℕ)
dev_read len s =
    if length s.input == 0
    then (blocked, s)
    else (ok (take len s.input), record s { input = drop len s.input })

-- `chardec(c) & (~0x3f)`: the codes are below 64, and 0x100 has no lower bit.
abbrev pub not_code : ℕ → Bool
not_code c = leb 64 (chardec c)

-- The loop of `lclreadcode` with `sp`, `dp` as positions in `buf`: what it counts and leaves there.
unfoldable pub copy_codes : ℕ → ℕ → ℕ → ℕ → List ℕ → ℕ × List ℕ
copy_codes zero sp dp ret buf = (ret, buf)
copy_codes (suc n) sp dp ret buf = elim (not_code (get_or buf sp 0)) [
  | true ↦ copy_codes n (sp + 1) dp (ret - 1) buf
  | false ↦ copy_codes n (sp + 1) (dp + 1) ret (set buf sp (get_or buf dp 0))
]

unfoldable pub lclreadcode : ℕ → M (ℕ × List ℕ)
lclreadcode len = do
  got ← dev_read len
  modify (λ s. record s { total_nread = s.total_nread + length got })
  pure (copy_codes (length got) 0 0 (length got) got)

-- `do { nr += lclreadcode(&m_buf[nr], want-nr); } while (nr < want);`
unfoldable pub collect_loop : ℕ → ℕ → List ℕ → M (List ℕ)
collect_loop zero want buf = waits
collect_loop (suc fuel) want buf = do
  (nr, got) ← lclreadcode (want - length buf)
  let buf' = buf ++ take nr got
  let again = collect_loop fuel want buf'
  (if leb want (length buf') then pure buf' else again)

unfoldable pub collect : ℕ → List ℕ → M (List ℕ)
collect want buf s = collect_loop (suc (length s.input)) want buf s

-- `do { nr = lclreadcode(&m_buf[0], 1); } while (nr < 1);`
unfoldable pub read_code : ℕ → M ℕ
read_code zero = waits
read_code (suc fuel) = do
  (nr, got) ← lclreadcode 1
  let again = read_code fuel
  (if ltb nr 1 then again else pure (get_or got 0 0))

-- The codes below 6.
unfoldable pub control : ℕ → M (Unit {0})
control sixbits =
    if sixbits == 3 || sixbits == 5
    then modify (λ s. record s { bus_err = true }) >> throw 0
    else if sixbits == 4
    then modify (λ s. record s { interrupt_flag = true })
    else pure tt

-- The value of a compressed address, of 2 to 5 characters.
unfoldable pub compressed_value : ℕ → List ℕ → ℕ
compressed_value nw buf =
    let v1 = chardec (get_or buf 1 0) in
    let v2 = shift_in v1 (get_or buf 2 0) in
    let v3 = shift_in v2 (get_or buf 3 0) in
    if nw == 2
    then v1
    else if nw == 3
    then v2
    else if nw == 4
    then v3
    else shift_in v3 (get_or buf 4 0)

-- The value of an address code whose first character `c` stands for `sixbits`.
unfoldable pub address_value : ℕ → ℕ → M ℕ
address_value sixbits c =
    if sixbits / 4 == 2
    then collect 6 (c ∷ []) >>= (λ buf. pure (decodestr buf))
    else collect (sixbits % 4 + 2) (c ∷ [])
      >>= (λ buf. pure (compressed_value (sixbits % 4 + 2) buf))

-- `(sixbits & 0x3c)` is 0x08 or 0x0c.
abbrev pub is_address : ℕ → Bool
is_address sixbits = sixbits / 4 == 2 || sixbits / 4 == 3

-- `m_lastaddr += (sixbits&1)?4:0`
abbrev pub step_address : ℕ → M (Unit {0})
step_address sixbits =
    modify (λ s. record s { lastaddr = u32 (s.lastaddr + (if sixbits % 2 == 1 then 4 else 0)) })

-- An entry of the table `idx` values back.
unfoldable pub table_value : ℕ → ℕ → M ℕ
table_value sixbits idx = do
  val ← λ s. (ok (s.readtbl ((s.rdaddr + 1024 - idx) % 1024)), s)
  step_address sixbits
  pure val

-- The distance of a table code of two characters.
abbrev pub long_index : List ℕ → ℕ
long_index buf =
    low_bits (shr (chardec (get_or buf 0 0)) 1) 3 * 64
    + low_bits (chardec (get_or buf 1 0)) 6
    + 2
    + 8

-- The word of a data code of six characters.
unfoldable pub raw_value : List ℕ → ℕ
raw_value buf =
    let r1 = shift_in (low_bits (shr (chardec (get_or buf 0 0)) 1) 2) (get_or buf 1 0) in
    let r2 = shift_in r1 (get_or buf 2 0) in
    let r3 = shift_in r2 (get_or buf 3 0) in
    let r4 = shift_in r3 (get_or buf 4 0) in shift_in r4 (get_or buf 5 0)

-- A new value, which goes into the table.
unfoldable pub take_raw : ℕ → ℕ → M ℕ
take_raw sixbits v = do
  modify (λ s. record s { readtbl = update s.readtbl s.rdaddr v; rdaddr = (s.rdaddr + 1) % 1024 })
  step_address sixbits
  pure v

-- The data code whose first character `c` stands for `sixbits`; `val` is the value of the last
-- address, which an unknown code returns.
unfoldable pub data_value : ℕ → ℕ → ℕ → M ℕ
data_value sixbits c val =
    if sixbits / 2 == 3
    then table_value sixbits 1
    else if sixbits / 16 == 1
    then collect 2 (c ∷ []) >>= (λ buf. table_value sixbits (long_index buf))
    else if sixbits / 16 == 2
    then table_value sixbits (low_bits (shr sixbits 1) 3 + 2)
    else if sixbits / 8 == 7
    then collect 6 (c ∷ []) >>= (λ buf. take_raw sixbits (raw_value buf))
    else pure val

-- `m_addr_set = true; m_lastaddr = val<<2;`
abbrev pub take_address : ℕ → M (Unit {0})
take_address v = modify (λ s. record s { addr_set = true; lastaddr = shl32 v 2 })

-- The loop of `readword` up to the start of a data code, and the word.
unfoldable pub readword_loop : ℕ → ℕ → M ℕ
readword_loop zero val = waits
readword_loop (suc fuel) val = do
  waiting ← λ s. (ok (length s.input), s)
  c ← read_code (suc waiting)
  let sixbits = chardec c
  let again = readword_loop fuel val
  let more = λ (v : ℕ). readword_loop fuel v
  (if leb 64 sixbits
      then again
      else if ltb sixbits 6
      then control sixbits >> again
      else if is_address sixbits
      then address_value sixbits c >>= (λ v. take_address v >> more v)
      else data_value sixbits c val)

unfoldable pub readword : M ℕ
readword s = readword_loop (suc (length s.input)) 0 s

-- Data that turns up in `readidle` is read and left.
unfoldable pub drop_data : Option (ℕ × ℕ) → M (Unit {0})
drop_data none = pure tt
drop_data (some (c, val)) = do v ← data_value (chardec c) c val; pure tt

-- What `readidle` does with the character in the buffer, given the rest of its loop.
unfoldable pub readidle_act : (ℕ → M (Option (ℕ × ℕ))) → ℕ → List ℕ → M (Option (ℕ × ℕ))
readidle_act more val got =
    let c = get_or got 0 0 in
    let sixbits = chardec c in
    if leb 64 sixbits
    then more val
    else if ltb sixbits 6
    then control sixbits >> more val
    else if is_address sixbits
    then address_value sixbits c >>= more
    else pure (some (c, val))

-- The loop of `readidle`: each round reads a character to see that there is one, and then the next
-- one, which it acts on. It ends with the data code found, as its character and the last value, or
-- with `none`.
unfoldable pub readidle_loop : ℕ → ℕ → M (Option (ℕ × ℕ))
readidle_loop zero val = pure none
readidle_loop (suc fuel) val = do
  arrived ← λ s. (ok (length s.input), s)
  let more = λ (v : ℕ). readidle_loop fuel v
  let second = lclreadcode 1 >>= λ p. readidle_act more val p.1
  (if arrived == 0
      then pure none
      else lclreadcode 1 >>= (λ p. if ltb 0 p.0 then second else pure none))

unfoldable pub readidle : M (Unit {0})
readidle = do fuel ← λ s. (ok (length s.input), s); found ← readidle_loop fuel 0; drop_data found
