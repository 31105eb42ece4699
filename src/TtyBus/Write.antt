-- ===== src/TtyBus/Write.antt =====
-- The writing methods of TTYBUS: writev, writeio, writez and writei (sw/host/ttybus.cpp).
use zipversa.Base.{ℕ, zero, suc, ◌+◌, ◌-◌, ◌*◌, ◌%◌, true, not, ◌&&◌, ◌||◌}
use zipversa.Base.{if◌then◌else◌, ltb, ◌==◌, List, [], ◌∷◌, ◌++◌, length, take, drop}
use zipversa.Base.Bits.{u32, shr, low_bits}
use zipversa.TtyBus.Code.{charenc}
use zipversa.TtyBus.State.{waits, Bus, M, ok, ◌>>=◌, ◌>>◌, pure, modify, update, bufalloc}
use zipversa.TtyBus.Address.{encode_address}
use zipversa.TtyBus.Read.{readidle}

abbrev pub max_wr_len : ℕ
max_wr_len = 32

-- The compression loop, at the distance `i` with so many rounds left: the distance of the first
-- entry that holds `val`, or 0. Before the table is full it ends at the first entry not written.
unfoldable pub find_value : ℕ → ℕ → ℕ → Bus → ℕ
find_value zero i val s = 0
find_value (suc k) i val s =
    let rest = find_value k (i + 1) val s in
    let tstaddr = (s.wraddr + 256 - i) % 256 in
    if not s.wrloaded && ltb s.wraddr tstaddr
    then 0
    else if s.writetbl tstaddr == val
    then (s.wraddr + 256 - tstaddr) % 256
    else rest

abbrev pub inc_bit : ℕ → ℕ
inc_bit p = if p == 0 then 0 else 1

-- The characters for one word: a distance of two characters, or the word itself in six.
unfoldable pub encode_value : ℕ → ℕ → ℕ → List ℕ
encode_value p caddr val =
    if caddr == 0
    then charenc (low_bits (shr val 30) 2 * 2 + inc_bit p + 0x018)
      ∷ charenc (low_bits (shr val 24) 6)
      ∷ charenc (low_bits (shr val 18) 6)
      ∷ charenc (low_bits (shr val 12) 6)
      ∷ charenc (low_bits (shr val 6) 6)
      ∷ charenc (low_bits val 6)
      ∷ []
    else charenc (low_bits (shr caddr 6) 2 * 2 + inc_bit p + 0x010)
      ∷ charenc (low_bits caddr 6)
      ∷ []

-- The table and the address after one word.
unfoldable pub note_value : ℕ → ℕ → ℕ → Bus → Bus
note_value p caddr val s =
    let moved = if p == 1 then u32 (s.lastaddr + 4) else s.lastaddr in
    let next = (s.wraddr + 1) % 256 in
    if caddr == 0
    then record s {
      writetbl = update s.writetbl s.wraddr val;
      wraddr = next;
      wrloaded = s.wrloaded || next == 0;
      lastaddr = moved;
    }
    else record s { lastaddr = moved }

-- The loop over the words of one write to the device.
unfoldable pub write_words : ℕ → List ℕ → Bus → List ℕ × Bus
write_words p [] s = ([], s)
write_words p (val ∷ vals) s =
    let caddr = find_value 255 1 val s in
    let (rest, s') = write_words p vals (note_value p caddr val s) in
    (encode_value p caddr val ++ rest, s')

-- What the device sends after a write joins what has arrived.
unfoldable pub arrive : List (List ℕ) → Bus → Bus
arrive [] s = s
arrive (batch ∷ later) s = record s { input = s.input ++ batch; arrivals = later }

-- `m_dev->write(m_buf, ptr-m_buf)`
unfoldable pub dev_write : List ℕ → Bus → Bus
dev_write cs s = arrive s.arrivals (record s { sent = s.sent ++ cs })

-- The newline behind the last of the words, `ln == len-nw`.
abbrev pub newline : List ℕ → List ℕ
newline rest = if length rest == 0 then b'\n' ∷ [] else []

-- The loop over writes of at most 32 words, with the characters that are in the buffer already.
-- The last write ends in a newline. Words that are left when the fuel is used up make it wait.
unfoldable pub writev_loop : ℕ → ℕ → List ℕ → List ℕ → M (Unit {0})
writev_loop zero p buf [] = pure tt
writev_loop zero p buf (val ∷ vals) = waits
writev_loop (suc fuel) p buf [] = pure tt
writev_loop (suc fuel) p buf (val ∷ vals) = do
  cs ← λ s. let (cs, s') = write_words p (take max_wr_len (val ∷ vals)) s in (ok cs, s')
  let rest = drop max_wr_len (val ∷ vals)
  modify (dev_write (buf ++ (cs ++ newline rest)))
  readidle
  writev_loop fuel p [] rest

-- As much fuel as there are words: a round writes one at least.
unfoldable pub writev : ℕ → ℕ → List ℕ → M (Unit {0})
writev a p buf = do
  modify (λ s. record s { buflen = bufalloc s.buflen ((length buf + 2) * 6) })
  cs ← encode_address a
  modify (λ s. record s { lastaddr = a; addr_set = true })
  writev_loop (length buf) p cs buf
  readidle

unfoldable pub writeio : ℕ → ℕ → M (Unit {0})
writeio a v = do writev a 0 (v ∷ []); modify (λ s. record s { lastaddr = a; addr_set = true })

unfoldable pub writez : ℕ → List ℕ → M (Unit {0})
writez a buf = writev a 0 buf

unfoldable pub writei : ℕ → List ℕ → M (Unit {0})
writei a buf = writev a 1 buf
