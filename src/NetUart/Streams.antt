-- ===== src/NetUart/Streams.antt =====
-- Which characters reach which client in a round of sw/host/netuart.cpp, and which the port.
use zipversa.Base.{ℕ, ◌+◌, ◌*◌, ◌^◌, ◌<◌, ◌≡◌, refl, arith, Bool, true, false, ap, ◌∙◌}
use zipversa.Base.{none, some}
use zipversa.Base.{if◌then◌else◌, ◌==◌, List, [], ◌∷◌, ◌++◌, All, map, bit_or}
use zipversa.Base.Bits.{bit_or_pairs, bit_or-zero}
use mathlib.Core.Path.{subst}
use mathlib.Core.List.{append-nil, append_assoc}
use zipversa.NetUart.{
  Answer, ok, LinBufs, is_open, forward, print_in, print_out, print_some, commands, consoles, Chunk,
  Bridge, tty_chunk, tty_chunks, arrives, sends, port_event, client_event, round, write,
}
use zipversa.NetUart.Write.{bind_ok, forward_all, write_all, write_masked}

-- From `c` to `c'` the client has been sent the characters `cs`, if it is open, and stays as it is.
pub record Carried (cs : List ℕ) (c c' : LinBufs) : Type 0 where
  pub same_fd : c'.fd ≡ c.fd
  pub sent : c'.got ≡ (if is_open c then c.got ++ cs else c.got)

print_some-Carried :
    (xs cs : List ℕ) (b : LinBufs) (p : LinBufs × List (List ℕ))
    → print_some xs b ≡ ok p
    → (p.0.fd ≡ b.fd) × (p.0.got ≡ b.got)
unfolding print_some print_in
print_some-Carried [] cs b p h = ground arith
print_some-Carried (x ∷ xs) cs b p h = ground arith

printed-Carried :
    (ts : List Answer) (cs : List ℕ) (b b1 : LinBufs) (p : LinBufs × List (List ℕ))
    → forward ts cs b ≡ ok b1
    → print_some cs b1 ≡ ok p
    → Carried cs b p.0
printed-Carried ts cs b b1 p h k = record {
  same_fd = ground (arith, forward_all ts cs b b1 h, print_some-Carried cs cs b1 p k);
  sent = ground (arith, forward_all ts cs b b1 h, print_some-Carried cs cs b1 p k);
}

-- From `b` to `b'` both clients have been sent their characters of `raw`, and the port none.
pub record Delivered (raw : List ℕ) (b b' : Bridge) : Type 0 where
  pub cmd : Carried (commands raw) b.cmd b'.cmd
  pub con : Carried (consoles raw) b.con b'.con
  pub tty : b'.tty ≡ b.tty

passed :
    (k : Chunk) (b b' : Bridge) (p q : LinBufs × List (List ℕ))
    → Carried (commands k.raw) b.cmd p.0
    → Carried (consoles k.raw) b.con q.0
    → ok (record b { cmd = p.0; con = q.0; printed = b.printed ++ (p.1 ++ q.1) }) ≡ ok b'
    → Delivered k.raw b b'
passed k b b' p q u v h = record {
  cmd = record { same_fd = ground (arith, u.same_fd); sent = ground (arith, u.sent) };
  con = record { same_fd = ground (arith, v.same_fd); sent = ground (arith, v.sent) };
  tty = ground arith;
}

tty_chunk-Delivered : (k : Chunk) (b b' : Bridge) → tty_chunk k b ≡ ok b' → Delivered k.raw b b'
unfolding tty_chunk
tty_chunk-Delivered k b b' h =
    bind_ok (forward k.cmd_answers (commands k.raw) b.cmd) _ h λ cmd e1 h1.
      bind_ok (forward k.con_answers (consoles k.raw) b.con) _ h1 λ con e2 h2.
        bind_ok (print_some (commands k.raw) cmd) _ h2 λ p e3 h3.
          bind_ok (print_some (consoles k.raw) con) _ h3 λ q e4 h4.
            passed k b b' p q (printed-Carried k.cmd_answers (commands k.raw) b.cmd cmd p e1 e3)
              (printed-Carried k.con_answers (consoles k.raw) b.con con q e2 e4) h4

-- All that was read of the port.
abbrev pub read_all : List Chunk → List ℕ
read_all [] = []
read_all (k ∷ ks) = k.raw ++ read_all ks

commands-append : (xs ys : List ℕ) → commands (xs ++ ys) ≡ commands xs ++ commands ys
unfolding commands
commands-append [] ys = refl
commands-append (x ∷ xs) ys = ground (arith, commands-append xs ys)

consoles-append : (xs ys : List ℕ) → consoles (xs ++ ys) ≡ consoles xs ++ consoles ys
unfolding consoles
consoles-append [] ys = refl
consoles-append (x ∷ xs) ys = ground (arith, consoles-append xs ys)

Carried-then :
    (xs ys : List ℕ) (a b c : LinBufs) → Carried xs a b → Carried ys b c → Carried (xs ++ ys) a c
Carried-then xs ys a b c u v =
    let fd : is_open b ≡ is_open a = ap (λ d. elim d [ some n ↦ true | none ↦ false ]) u.same_fd in
    record {
      same_fd = v.same_fd ∙ u.same_fd;
      sent = v.sent ∙ ground (arith, u.sent, fd, append_assoc a.got xs ys);
    }

Delivered-then :
    (xs ys : List ℕ) (a b c : Bridge)
    → Delivered xs a b
    → Delivered ys b c
    → Delivered (xs ++ ys) a c
Delivered-then xs ys a b c u v = record {
  cmd =
      rw (commands-append xs ys)
        (Carried-then (commands xs) (commands ys) a.cmd b.cmd c.cmd u.cmd v.cmd);
  con =
      rw (consoles-append xs ys)
        (Carried-then (consoles xs) (consoles ys) a.con b.con c.con u.con v.con);
  tty = v.tty ∙ u.tty;
}

Carried-none : (c c' : LinBufs) → c' ≡ c → Carried [] c c'
Carried-none c c' e = record {
  same_fd = ap (λ (b : LinBufs). b.fd) e;
  sent = ground (arith, ap (λ (b : LinBufs). b.got) e, append-nil c.got);
}

Delivered-none : (b b' : Bridge) → b' ≡ b → Delivered [] b b'
unfolding commands consoles
Delivered-none b b' e = record {
  cmd = Carried-none b.cmd b'.cmd (ap (λ (x : Bridge). x.cmd) e);
  con = Carried-none b.con b'.con (ap (λ (x : Bridge). x.con) e);
  tty = ap (λ (x : Bridge). x.tty) e;
}

pub tty_chunks-Delivered :
    (ks : List Chunk) (b b' : Bridge) → tty_chunks ks b ≡ ok b' → Delivered (read_all ks) b b'
unfolding tty_chunks
tty_chunks-Delivered [] b b' h = Delivered-none b b' (ground arith)
tty_chunks-Delivered (k ∷ ks) b b' h = bind_ok (tty_chunk k b) (tty_chunks ks) h λ c e r.
    Delivered-then k.raw (read_all ks) b c b' (tty_chunk-Delivered k b c e)
      (tty_chunks-Delivered ks c b' r)

abbrev pub marked : List ℕ → List ℕ
marked = map (λ c. bit_or c 0x80)

print_out_same :
    (cs : List ℕ) (b : LinBufs) (p : LinBufs × List (List ℕ))
    → print_out cs b ≡ ok p
    → (p.0.fd ≡ b.fd) × (p.0.got ≡ b.got)
unfolding print_out
print_out_same cs b p h = ground arith

-- Characters from a client are written to the port, and the client is sent nothing.
pub record Sent (out : List ℕ) (b : LinBufs) (p : LinBufs × List ℕ × List (List ℕ)) : Type 0 where
  pub same_fd : p.0.fd ≡ b.fd
  pub same_got : p.0.got ≡ b.got
  pub wrote : p.1 ≡ out

sends-Sent :
    (mask : ℕ) (xs sent : List ℕ) (ts : List Answer) (b : LinBufs)
    (p : LinBufs × List ℕ × List (List ℕ))
    → ((r : List ℕ) → write ts mask xs ≡ ok r → r ≡ sent)
    → client_event mask (sends xs ts) b ≡ ok p
    → Sent sent b p
unfolding client_event
sends-Sent mask xs sent ts b p w h =
    let seen = if mask == 0 then xs else map (λ c. bit_or c mask) xs in
    bind_ok (write ts mask xs) _ h λ out e k. bind_ok (print_out seen b) _ k λ q e2 k2. record {
      same_fd = ground (arith, print_out_same seen b q e2);
      same_got = ground (arith, print_out_same seen b q e2);
      wrote = ground (arith, w out e);
    }

ended :
    (raw xs ys : List ℕ) (b c b' : Bridge) (p q : LinBufs × List ℕ × List (List ℕ))
    → Delivered raw b c
    → Sent (marked xs) c.cmd p
    → Sent ys c.con q
    → ok (record c {
      cmd = p.0;
      con = q.0;
      tty = c.tty ++ (p.1 ++ q.1);
      printed = c.printed ++ (p.2 ++ q.2);
    })
      ≡ ok b'
    → Carried (commands raw) b.cmd b'.cmd
      × Carried (consoles raw) b.con b'.con
      × (b'.tty ≡ b.tty ++ (marked xs ++ ys))
ended raw xs ys b c b' p q d u v h = (
  record {
    same_fd = ground (arith, d.cmd.same_fd, u.same_fd);
    sent = ground (arith, d.cmd.sent, u.same_got);
  },
  record {
    same_fd = ground (arith, d.con.same_fd, v.same_fd);
    sent = ground (arith, d.con.sent, v.same_got);
  },
  ground (arith, d.tty, u.wrote, v.wrote),
)

round-Carried :
    (ks : List Chunk) (xs ys : List ℕ) (ts us : List Answer) (b b' : Bridge)
    → round (arrives ks) (sends xs ts) (sends ys us) b ≡ ok b'
    → Carried (commands (read_all ks)) b.cmd b'.cmd
      × Carried (consoles (read_all ks)) b.con b'.con
      × (b'.tty ≡ b.tty ++ (marked xs ++ ys))
unfolding round port_event
round-Carried [] xs ys ts us b b' h = absurd (cc)
round-Carried (k ∷ ks) xs ys ts us b b' h = bind_ok (tty_chunks (k ∷ ks) b) _ h λ c e1 h1.
    bind_ok (client_event 0x80 (sends xs ts) c.cmd) _ h1 λ p e2 h2.
      bind_ok (client_event 0 (sends ys us) c.con) _ h2 λ q e3 h3.
        let d = tty_chunks-Delivered (k ∷ ks) b c e1 in
        let u = sends-Sent 0x80 xs (marked xs) ts c.cmd p (write_masked ts xs) e2 in
        let v = sends-Sent 0 ys ys us c.con q (write_all us ys) e3 in
        ended (read_all (k ∷ ks)) xs ys b c b' p q d u v h3

-- A character for the port, from the command client or from the console.
abbrev pub tagged : Bool × ℕ → ℕ
tagged (cmd, c) = if cmd then bit_or c 0x80 else c

-- The characters among them that are for the command client, or for the console.
abbrev pub of_client : Bool → List (Bool × ℕ) → List ℕ
of_client k [] = []
of_client k ((cmd, c) ∷ cs) =
    let rest = of_client k cs in
    if cmd then if k then c ∷ rest else rest else if k then rest else c ∷ rest

mark_lem : (c : ℕ) → c < 128 → bit_or c 0x80 ≡ c + 128
mark_lem c h =
    ap (λ x. bit_or x 0x80) {x = c} {y = 0 * 2 ^ 7 + c} (omega arith)
    ∙ bit_or_pairs 7 0 c 1 0 h (omega arith)
    ∙ omega (arith, bit_or-zero c)

commands-tagged :
    (cs : List (Bool × ℕ))
    → All (λ (p : Bool × ℕ). p.1 < 128) cs
    → (commands (map tagged cs) ≡ of_client true cs)
      × (consoles (map tagged cs) ≡ of_client false cs)
unfolding commands consoles
commands-tagged [] h = (refl, refl)
commands-tagged ((true, c) ∷ cs) (h, hs) = ground (arith, mark_lem c h, commands-tagged cs hs)
commands-tagged ((false, c) ∷ cs) (h, hs) = ground (arith, commands-tagged cs hs)

-- Characters of seven bits for the command client and for the console come from the port in any mixture,
-- those of the first with the mark, and in any number of reads; `xs` come from the command client and
-- `ys` from the console. When the round returns, each open client has been sent the characters that are
-- for it, all of them, in order and without the mark, and a closed one none; and the port has been sent
-- `xs` with the mark on each, and then `ys`.
pub round-delivers :
    (ks : List Chunk) (cs : List (Bool × ℕ)) (xs ys : List ℕ) (ts us : List Answer) (b b' : Bridge)
    → All (λ (p : Bool × ℕ). p.1 < 128) cs
    → read_all ks ≡ map tagged cs
    → round (arrives ks) (sends xs ts) (sends ys us) b ≡ ok b'
    → Carried (of_client true cs) b.cmd b'.cmd
      × Carried (of_client false cs) b.con b'.con
      × (b'.tty ≡ b.tty ++ (marked xs ++ ys))
round-delivers ks cs xs ys ts us b b' seven comes h =
    let (cmd, con, tty) = round-Carried ks xs ys ts us b b' h in
    let (p, q) = commands-tagged cs seven in
    let of_cmd : commands (read_all ks) ≡ of_client true cs = ap commands comes ∙ p in
    let of_con : consoles (read_all ks) ≡ of_client false cs = ap consoles comes ∙ q in
    (
      subst (λ (l : List ℕ). Carried l b.cmd b'.cmd) of_cmd cmd,
      subst (λ (l : List ℕ). Carried l b.con b'.con) of_con con,
      tty,
    )
