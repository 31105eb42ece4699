-- ===== src/TtyBus/Receiver.antt =====
-- The other end of the line, as the hardware of this repository has it: characters to six bits
-- (rtl/wbubus/wbutohex.v), six bits to codewords (wbureadcw.v), the expansion of compressed
-- codewords (wbudecompress.v) and the bus requests that they start (wbuexec.v), on a bus that
-- neither stalls nor fails. It is the independent reading that the host's encoder is held to. Two
-- things are simpler than in the hardware, and differ only for codes that the host does not send: the
-- table of written words is changed by a new word alone (the hardware writes its next place at every
-- codeword, and moves on after a new word), and the bit for an increment is that of each codeword (the
-- hardware keeps the one that began a write).
use zipversa.Base.{ℕ, ◌+◌, ◌-◌, ◌*◌, ◌/◌, ◌%◌, ◌^◌, Bool, true, false, ◌&&◌}
use zipversa.Base.{if◌then◌else◌, ltb, leb, ◌==◌, List, [], ◌∷◌, ◌++◌, length, ◌≡◌, refl, arith}
use zipversa.TtyBus.State.{update}
use zipversa.TtyBus.Code.{chardec}

-- A write of a word at a word address, a read of so many words, or an error reply.
pub data Request : Type 0 where
  write : ℕ → ℕ → Request
  read : ℕ → Bool → ℕ → Request
  error : Request

-- `part` is the codeword under way, `lastcw` the top two bits of the last one; `writing` stands
-- for the states that wait for a further write or the end of the write.
pub record Receiver : Type 0 where
  pub part : List ℕ
  pub lastcw : ℕ
  pub wr_addr : ℕ
  pub tbl : ℕ → ℕ
  pub wb_addr : ℕ
  pub writing : Bool
  pub log : List Request

-- The hexbits of a character; 0x100 stands for a character that is not valid.
unfoldable pub to_hex : ℕ → ℕ
to_hex c =
    if leb 0x30 c && leb c 0x39
    then c % 16
    else if leb 0x41 c && leb c 0x5a
    then (c % 64 + 64 - 1 + 0xa) % 64
    else if leb 0x61 c && leb c 0x7a
    then (c % 64 + 3) % 64
    else if c == 0x40
    then 0x3e
    else if c == 0x25
    then 0x3f
    else 0x100

-- `cw_len`, from the first six bits.
unfoldable pub cw_len : ℕ → ℕ
cw_len h =
    if leb 48 h
    then 2
    else if leb 32 h
    then 1
    else if h / 8 == 2
    then 2
    else if h / 8 == 1
    then 2 + h % 8 / 2
    else 6

-- The bits that follow the first six, as one number.
unfoldable pub bits : List ℕ → ℕ → ℕ
bits [] acc = acc
bits (h ∷ hs) acc = bits hs (acc * 64 + h)

-- Sign extension of `n` values to 32 bits.
abbrev pub sign_extend : ℕ → ℕ → ℕ
sign_extend n x = if ltb x (n / 2) then x else 2 ^ 32 - n + x

-- One write request at the current address.
unfoldable pub put : ℕ → ℕ → Receiver → Receiver
put h v r = record r {
  log = r.log ++ (write r.wb_addr v ∷ []);
  wb_addr = if h % 2 == 1 then (r.wb_addr + 1) % 2 ^ 32 else r.wb_addr;
  writing = true;
}

-- A read request of `len` words.
unfoldable pub get : ℕ → ℕ → Receiver → Receiver
get h len r = record r {
  log = r.log ++ (read r.wb_addr (h % 2 == 1) len ∷ []);
  wb_addr = if h % 2 == 1 then (r.wb_addr + len) % 2 ^ 32 else r.wb_addr;
}

-- What a codeword of first bits `h` and further bits `x` (of `n` values) does.
unfoldable pub exec : ℕ → ℕ → ℕ → Receiver → Receiver
exec h x n r =
    if h == 0x2e
    then record r { writing = false }
    else if h / 8 == 3
    then put h (h / 2 % 4 * 2 ^ 30 + x) (record r {
      tbl = update r.tbl r.wr_addr (h / 2 % 4 * 2 ^ 30 + x);
      wr_addr = (r.wr_addr + 1) % 256;
    })
    else if h / 8 == 2
    then put h (r.tbl ((r.wr_addr + 256 - (h / 2 % 4 * 64 + x)) % 256)) r
    else if r.writing
    then record r { log = r.log ++ (error ∷ []); writing = false }
    else if h / 4 == 0
    then record r { wb_addr = h * 2 ^ 30 + x }
    else if h / 8 == 1
    then record r { wb_addr = if h % 2 == 1 then (r.wb_addr + sign_extend n x) % 2 ^ 32 else x }
    else if leb 32 h
    then get h (if leb 48 h then 9 + h / 2 % 8 * 64 + x else 1 + h / 2 % 8) r
    else r

-- A codeword is complete when it has as many characters as its first one says.
unfoldable pub complete : List ℕ → Receiver → Receiver
complete [] r = r
complete (h ∷ hs) r =
    if length (h ∷ hs) == cw_len h
    then exec h (bits hs 0) (64 ^ length hs) (record r { part = []; lastcw = h / 16 })
    else record r { part = h ∷ hs }

-- One character. A character that is no code ends a write, and drops a codeword under way.
unfoldable pub feed : ℕ → Receiver → Receiver
feed c r =
    if leb 64 (to_hex c)
    then if r.lastcw == 1
      then exec 0x2e 0 1 (record r { part = []; lastcw = 2 })
      else record r { part = [] }
    else complete (r.part ++ (to_hex c ∷ [])) r

unfoldable pub run : List ℕ → Receiver → Receiver
run [] r = r
run (c ∷ cs) r = run cs (feed c r)

-- The hardware and the host read a character alike.
pub to_hex-eq-chardec : (c : ℕ) → to_hex c ≡ chardec c
unfolding to_hex chardec
to_hex-eq-chardec c = ground arith

pub run-append : (xs ys : List ℕ) (r : Receiver) → run (xs ++ ys) r ≡ run ys (run xs r)
unfolding run
run-append [] ys r = refl
run-append (x ∷ xs) ys r = run-append xs ys (feed x r)
