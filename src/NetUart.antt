-- ===== src/NetUart.antt =====
-- The bridge between the serial port and two network clients, sw/host/netuart.cpp: class LINBUFS, and one
-- round of the loop of `main`. What the operating system answers is an argument of each call.
pub mod Write
pub mod Lines
pub mod Streams
use zipversa.Base.{ℕ, zero, suc, ◌+◌, ◌-◌, ◌*◌, ◌/◌, ◌%◌, ◌^◌, Bool, true, false, not, ◌&&◌, ◌||◌}
use zipversa.Base.{
  if◌then◌else◌, ltb, leb, ◌==◌, bit_or, List, [], ◌∷◌, ◌++◌, map, length, take, drop,
}
use zipversa.Base.{Option, none, some}
use zipversa.Base.Bits.{low_bits}

-- An answer of `write`: so many characters were taken, EAGAIN, or another error.
pub data Answer : Type 0 where
  wrote : ℕ → Answer
  again : Answer
  failed : Answer

-- How a call ends: it returns, the program ends, or the system does not answer.
pub data Result {ℓ} (A : Type ℓ) : Type ℓ where
  ok : A → Result A
  exits : Result A
  waits : Result A

infixl 5 ◌>>=◌
abbrev pub ◌>>=◌ {ℓ κ} : {A : Type ℓ} {B : Type κ} → Result A → (A → Result B) → Result B
ok a >>= f = f a
exits >>= f = exits
waits >>= f = waits

-- The loop of `LINBUFS::write`: `rest` is still to be written, behind `out`. Nothing taken means that
-- the other end has closed.
unfoldable pub write_loop : List Answer → List ℕ → List ℕ → Result (List ℕ)
write_loop [] rest out = waits
write_loop (again ∷ ts) rest out = if leb (length rest) 0 then ok out else write_loop ts rest out
write_loop (failed ∷ ts) rest out = exits
write_loop (wrote n ∷ ts) rest out =
    let more = write_loop ts (drop n rest) (out ++ take n rest) in
    if n == 0 then exits else if leb (length (drop n rest)) 0 then ok (out ++ take n rest) else more

-- `LINBUFS::write`: the characters that were written.
unfoldable pub write : List Answer → ℕ → List ℕ → Result (List ℕ)
write ts mask buf = write_loop ts (if mask == 0 then buf else map (λ c. bit_or c mask) buf) []

-- A client, and what it has been sent. `iline` and `oline` are `m_iline` and `m_oline` up to their lengths.
pub record LinBufs : Type 0 where
  pub iline : List ℕ
  pub oline : List ℕ
  pub fd : Option ℕ
  pub connected : Bool
  pub got : List ℕ

unfoldable pub new : LinBufs
new = record { iline = []; oline = []; fd = none; connected = false; got = [] }

unfoldable pub close : LinBufs → LinBufs
close b = record b { fd = none; connected = false }

-- `accept` with the descriptor that the system gives, if any.
unfoldable pub accept : Option ℕ → LinBufs → Result LinBufs
accept none b = exits
accept (some fd) b = ok (record b { fd = some fd; connected = true })

abbrev pub is_end : ℕ → Bool
is_end c = c == b'\n' || c == b'\r'

-- What `%s` prints of an array: the characters in front of the first NUL.
abbrev pub c_string : List ℕ → List ℕ
c_string [] = []
c_string (c ∷ cs) = if c == 0 then [] else c ∷ c_string cs

-- All but the last.
abbrev pub init : List ℕ → List ℕ
init [] = []
init (c ∷ []) = []
init (c ∷ d ∷ cs) = c ∷ init (d ∷ cs)

-- A character into a line of 512: the line that is kept, and the line that is printed, if any.
unfoldable pub put : ℕ → List ℕ → List ℕ × List (List ℕ)
put c line =
    let line' = line ++ c ∷ [] in
    let full = leb 511 (length line') in
    let text = c_string (if full then line' else init line') in
    if is_end c || full then ([], if ltb 1 (length line') then text ∷ [] else []) else (line', [])

-- The loops of `print_in` and, for characters of 7 bits, `print_out`.
unfoldable pub put_all : List ℕ → List ℕ → List ℕ × List (List ℕ)
put_all [] line = (line, [])
put_all (c ∷ cs) line =
    let (line1, out1) = put c line in let (line2, out2) = put_all cs line1 in (line2, out1 ++ out2)

-- The characters printed, a line in each entry; the prefix is left out.
pub record Bridge : Type 0 where
  pub cmd : LinBufs
  pub con : LinBufs
  pub tty : List ℕ
  pub printed : List (List ℕ)

-- The assertion that there are characters.
unfoldable pub print_in : List ℕ → LinBufs → Result (LinBufs × List (List ℕ))
print_in [] b = exits
print_in (c ∷ cs) b =
    let (line, out) = put_all (c ∷ cs) b.iline in ok (record b { iline = line }, out)

abbrev pub has_nul : List ℕ → Bool
has_nul [] = false
has_nul (c ∷ cs) = c == 0 || has_nul cs

unfoldable pub print_out : List ℕ → LinBufs → Result (LinBufs × List (List ℕ))
print_out cs b =
    let (line, out) = put_all (map (λ c. low_bits c 7) cs) b.oline in
    if has_nul cs then exits else ok (record b { oline = line }, out)

unfoldable pub flush_out : LinBufs → LinBufs × List (List ℕ)
flush_out b =
    if ltb 0 (length b.oline) then (record b { oline = [] }, c_string b.oline ∷ []) else (b, [])

-- What was read from the port, for the command client and for the console.
unfoldable pub commands : List ℕ → List ℕ
commands [] = []
commands (c ∷ cs) = if leb 128 c then low_bits c 7 ∷ commands cs else commands cs

unfoldable pub consoles : List ℕ → List ℕ
consoles [] = []
consoles (c ∷ cs) = if leb 128 c then consoles cs else c ∷ consoles cs

abbrev pub is_open : LinBufs → Bool
is_open b = elim b.fd [ some n ↦ true | none ↦ false ]

-- What is noted of `out`, written of the characters `cs`: the client is closed if it is not all.
unfoldable pub note_sent : List ℕ → List ℕ → LinBufs → LinBufs
note_sent cs out b =
    let b' = record b { got = b.got ++ out } in if length out == length cs then b' else close b'

-- Characters for a client: they are sent if it is connected, and lost otherwise.
unfoldable pub forward : List Answer → List ℕ → LinBufs → Result LinBufs
forward ts cs b =
    if not (is_open b && ltb 0 (length cs))
    then ok b
    else write ts 0 cs >>= λ out. ok (note_sent cs out b)

unfoldable pub print_some : List ℕ → LinBufs → Result (LinBufs × List (List ℕ))
print_some cs b = if ltb 0 (length cs) then print_in cs b else ok (b, [])

-- What one `read` of the port gave, and the answers when it is passed on.
pub record Chunk : Type 0 where
  pub raw : List ℕ
  pub cmd_answers : List Answer
  pub con_answers : List Answer

unfoldable pub tty_chunk : Chunk → Bridge → Result Bridge
tty_chunk k b = forward k.cmd_answers (commands k.raw) b.cmd >>= λ cmd.
    forward k.con_answers (consoles k.raw) b.con >>= λ con. print_some (commands k.raw) cmd >>= λ p.
    print_some (consoles k.raw) con >>= λ q.
    ok (record b { cmd = p.0; con = q.0; printed = b.printed ++ (p.1 ++ q.1) })

unfoldable pub tty_chunks : List Chunk → Bridge → Result Bridge
tty_chunks [] b = ok b
tty_chunks (k ∷ ks) b = tty_chunk k b >>= tty_chunks ks

-- What `poll` says of the port: nothing, characters (until a `read` gives none), or an error; and of a
-- client's descriptor: nothing, a connection, the end, an error of `read`, or characters.
pub data PortEvent : Type 0 where
  quiet : PortEvent
  arrives : List Chunk → PortEvent
  fails : PortEvent

pub data ClientEvent : Type 0 where
  silent : ClientEvent
  connects : Option ℕ → ClientEvent
  hangs_up : ClientEvent
  unread : ClientEvent
  sends : List ℕ → List Answer → ClientEvent

-- The first `read` of the port that gives nothing ends the program.
unfoldable pub port_event : PortEvent → Bridge → Result Bridge
port_event quiet b = ok b
port_event (arrives []) b = exits
port_event (arrives (k ∷ ks)) b = tty_chunks (k ∷ ks) b
port_event fails b = exits

-- A client: its new buffers, what was written to the port, and the lines printed.
unfoldable pub client_event : ℕ → ClientEvent → LinBufs → Result (LinBufs × List ℕ × List (List ℕ))
client_event mask silent b = ok (b, [], [])
client_event mask (connects fd) b = accept fd b >>= λ b'. ok (b', [], [])
client_event mask hangs_up b = let (b', out) = flush_out b in ok (close b', [], out)
client_event mask unread b = ok (b, [], [])
client_event mask (sends cs ts) b = write ts mask cs >>= λ out.
    print_out (if mask == 0 then cs else map (λ c. bit_or c mask) cs) b >>= λ p. ok (p.0, out, p.1)

unfoldable pub round : PortEvent → ClientEvent → ClientEvent → Bridge → Result Bridge
round port cmd con b = port_event port b >>= λ b1. client_event 0x80 cmd b1.cmd >>= λ p.
    client_event 0 con b1.con >>= λ q. ok (record b1 {
      cmd = p.0;
      con = q.0;
      tty = b1.tty ++ (p.1 ++ q.1);
      printed = b1.printed ++ (p.2 ++ q.2);
    })
