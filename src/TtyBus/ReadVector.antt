-- ===== src/TtyBus/ReadVector.antt =====
-- The reading methods of TTYBUS for the callers: readv, readio, readi, readz, usleep and wait
-- (sw/host/ttybus.cpp).
use zipversa.Base.{ℕ, zero, suc, ◌+◌, ◌-◌, ◌*◌, true, false, ◌&&◌, Bool}
use zipversa.Base.{if◌then◌else◌, ltb, ◌==◌, List, [], ◌∷◌, ◌++◌, length, take, drop, get_or}
use zipversa.Base.Bits.{u32}
use zipversa.TtyBus.State.{
  Bus, Outcome, M, waits, ok, buserr, blocked, exits, ◌>>=◌, ◌>>◌, pure, modify,
}
use zipversa.TtyBus.Address.{encode_address, readcmd}
use zipversa.TtyBus.Read.{readword}
use zipversa.TtyBus.Write.{dev_write}

-- `MAXRDLEN/2`; READBLOCK, at most 512, is the same.
abbrev pub read_ahead : ℕ
read_ahead = 512

abbrev pub read_block : ℕ
read_block = 512

-- The number of words of the next command.
unfoldable pub next_read : ℕ → ℕ → ℕ → ℕ
next_read cmdrd nread len =
    let left = len - cmdrd in
    let nrd = if ltb read_block left then read_block else left in
    if ltb (read_ahead + read_block) (cmdrd - nread + nrd)
    then read_ahead + read_block - (cmdrd - nread)
    else nrd

-- The loop that issues commands, with the characters behind those in the buffer. A round asks for a
-- word at least, so that fuel of `len` is enough.
unfoldable pub issue : ℕ → ℕ → ℕ → ℕ → ℕ → List ℕ → ℕ × List ℕ
issue zero inc cmdrd nread len buf = (cmdrd, buf)
issue (suc fuel) inc cmdrd nread len buf =
    let nrd = next_read cmdrd nread len in
    let cmdrd' = cmdrd + nrd in
    let buf' = buf ++ readcmd inc nrd in
    let again = issue fuel inc cmdrd' nread len buf' in
    if ltb (cmdrd' - nread) (read_ahead + read_block) && ltb cmdrd' len
    then again
    else (cmdrd', buf')

-- `a+((inc)?(n<<2):0)`
abbrev pub address_after : ℕ → ℕ → ℕ → ℕ
address_after a inc n = u32 (a + (if inc == 0 then 0 else n * 4))

-- `catch(BUSERR b) { throw BUSERR(a); }`
unfoldable pub rethrow : {A : Type 0} → ℕ → Outcome A × Bus → Outcome A × Bus
rethrow a (buserr x, s) = (buserr a, s)
rethrow a (ok v, s) = (ok v, s)
rethrow a (blocked, s) = (blocked, s)
rethrow a (exits, s) = (exits, s)

-- `n` times `buf[nread++] = readword();`, within the handler.
unfoldable pub read_words : ℕ → ℕ → ℕ → List ℕ → M (List ℕ)
read_words a inc zero buf = pure buf
read_words a inc (suc n) buf = do
  v ← λ s. rethrow (address_after a inc (length buf)) (readword s)
  read_words a inc n (buf ++ v ∷ [])

-- The loop over writes to the device, with the words read; `chars` is what stands in the buffer.
unfoldable pub readv_loop : ℕ → ℕ → ℕ → ℕ → ℕ → List ℕ → List ℕ → M (List ℕ)
readv_loop zero a inc len cmdrd chars buf = pure buf
readv_loop (suc fuel) a inc len cmdrd chars buf =
    let (cmdrd', cs) = issue len inc cmdrd (length buf) len chars in
    let again = λ (buf' : List ℕ). readv_loop fuel a inc len cmdrd' [] buf' in
    if ltb cmdrd len
    then modify (dev_write (cs ++ b'\n' ∷ []))
      >> (read_words a inc (cmdrd' - read_ahead - length buf) buf >>= again)
    else pure buf

-- The words read; the source has them in the caller's buffer. Fuel of `len` is enough.
unfoldable pub readv : ℕ → ℕ → ℕ → M (List ℕ)
readv a inc len = if len == 0 then pure [] else do
  cs ← encode_address a
  ahead ← readv_loop len a inc len 0 cs []
  buf ← read_words a inc (len - length ahead) ahead
  λ s. if s.lastaddr == address_after a inc len then (ok buf, s) else (exits, s)

unfoldable pub readi : ℕ → ℕ → M (List ℕ)
readi a len = readv a 1 len

unfoldable pub readz : ℕ → ℕ → M (List ℕ)
readz a len = readv a 0 len

unfoldable pub readio : ℕ → M ℕ
readio a = do
  v ← λ s. rethrow a (readv a 0 1 s)
  λ s. if s.lastaddr == a then (ok (get_or v 0 0), s) else (exits, record s { addr_set = false })

-- The loop over the characters read.
unfoldable pub notice : List ℕ → Bus → Bus
notice [] s = s
notice (c ∷ cs) s = notice cs (if c == b'4' then record s { interrupt_flag = true } else s)

-- The device's `poll` says whether a read would not wait; the read returns nothing when the
-- connection is closed.
unfoldable pub usleep : Bool → M (Unit {0})
usleep polled s =
    if polled
    then if length s.input == 0
      then (exits, s)
      else (ok tt, notice (take 16 s.input) (record s { input = drop 16 s.input }))
    else (ok tt, s)

-- Before each poll some bytes may arrive. After the polls given, nothing is known to come.
unfoldable pub wait : List (Bool × List ℕ) → M (Unit {0})
wait [] = waits
wait ((polled, batch) ∷ polls) = do
  modify (λ s. record s { input = s.input ++ batch })
  usleep polled
  λ s. if s.interrupt_flag then (ok tt, s) else wait polls s
