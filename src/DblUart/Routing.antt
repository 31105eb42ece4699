-- ===== src/DblUart/Routing.antt =====
-- Which client a received character goes to, in DBLUARTSIM::received (sim/verilated/dbluartsim.cpp).
use zipversa.Base.{
  ℕ, Option, suc, ap, ◌/◌, ◌%◌, ◌^◌, ◌<◌, ◌≡◌, ◌≢◌, ◌+◌, ◌-◌, arith, ◌==◌, sym, ◌∙◌,
}
use zipversa.Base.{
  true, List, [], ◌∷◌, ◌++◌, length, if◌then◌else◌, length-append, get_or, leb, ◌||◌, Bool-cases,
  inl, inr, false, refl, All,
}
use mathlib.Core.List.{append-nil, append_assoc}
use mathlib.Core.Path.{subst}
use zipversa.DblUart.{Uart, Net, flushrx, send_console, received, complete, taken, succeeds}

-- Both buffers have room for a character and a terminator.
abbrev pub IsBounded : Uart → Type 0
IsBounded u = (length u.cmdbuf < 254) × (length u.conbuf < 254)

-- The console's end of a character touches nothing of the command port.
send_console-cmd :
    (net : Net) (u : Uart)
    → ((send_console net u).cmd_sent ≡ u.cmd_sent) × ((send_console net u).cmdbuf ≡ u.cmdbuf)
unfolding send_console
send_console-cmd net u = ground arith

send_console-conbuf :
    (net : Net) (u : Uart) → length u.conbuf < 255 → length (send_console net u).conbuf < 254
unfolding send_console
send_console-conbuf net u h = ground arith

-- The flush of a full buffer or a whole line, as `received` asks for it.
abbrev flushed : Net → Uart → Uart
flushed net u = if complete u.cmdbuf then flushrx net u else u

flushed-IsBounded :
    (net : Net) (u : Uart)
    → length u.cmdbuf < 255
    → (length (flushed net u).cmdbuf < 254) × ((flushed net u).conbuf ≡ u.conbuf)
unfolding flushrx
flushed-IsBounded net u h = ground arith

abbrev stored : ℕ → Uart → Uart
stored ch u =
    if ch / 2 ^ 7 % 2 == 1
    then record u { cmdbuf = u.cmdbuf ++ (ch % 2 ^ 7 ∷ []) }
    else record u { conbuf = u.conbuf ++ (ch % 2 ^ 7 ∷ []) }

stored-length :
    (ch : ℕ) (u : Uart)
    → IsBounded u
    → (length (stored ch u).cmdbuf < 255) × (length (stored ch u).conbuf < 255)
stored-length ch u (h1, h2) =
    ground
      (arith, length-append u.cmdbuf (ch % 2 ^ 7 ∷ []), length-append u.conbuf (ch % 2 ^ 7 ∷ []))

-- If both buffers hold less than 254 characters, they do so again after a character is received.
pub received-IsBounded :
    (net : Net) (ch : ℕ) (u : Uart) → IsBounded u → IsBounded (received net ch u)
unfolding received
received-IsBounded net ch u h =
    let (a, b) = stored-length ch u h in
    let (c, d) = flushed-IsBounded net (stored ch u) a in
    let f = flushed net (stored ch u) in
    (
      subst (λ l. length l < 254) (sym (send_console-cmd net f).1) c,
      send_console-conbuf net f (subst (λ l. length l < 255) (sym d) b),
    )

-- Characters received one after the other.
abbrev pub receive_all : Net → List ℕ → Uart → Uart
receive_all net [] u = u
receive_all net (c ∷ cs) u = receive_all net cs (received net c u)

-- Those for the command port, without bit 7.
abbrev pub of_port : List ℕ → List ℕ
of_port [] = []
of_port (c ∷ cs) = if c / 2 ^ 7 % 2 == 1 then c % 2 ^ 7 ∷ of_port cs else of_port cs

-- A character that is not the newline of the command port.
abbrev pub InLine : ℕ → Type 0
InLine c = (c / 2 ^ 7 % 2 ≡ 1) → c % 2 ^ 7 ≢ 10

last-append : (xs : List ℕ) (c : ℕ) → get_or (xs ++ (c ∷ [])) (length (xs ++ (c ∷ [])) - 1) 0 ≡ c
last-append [] c = refl
last-append (x ∷ []) c = refl
last-append (x ∷ y ∷ xs) c =
    let n = length (xs ++ (c ∷ [])) in
    let index : suc (suc n) - 1 ≡ suc (suc n - 1) = omega arith in rw index (last-append (y ∷ xs) c)

complete-append :
    (xs : List ℕ) (c : ℕ) → complete (xs ++ (c ∷ [])) ≡ ((c == 10) || leb 254 (length xs + 1))
complete-append xs c = ground (arith, last-append xs c, length-append xs (c ∷ []))

send_console-open : (net : Net) (u : Uart) → (send_console net u).cmd ≡ u.cmd
unfolding send_console
send_console-open net u = ground arith

-- The state of the command port: it is open, and has been sent `sent` and buffers `buf`.
abbrev Holds : List ℕ → List ℕ → Uart → Type 0
Holds sent buf u = (u.cmd ≡ true) × (u.cmd_sent ≡ sent) × (u.cmdbuf ≡ buf) × (complete buf ≡ false)

console-Holds :
    (net : Net) (sent buf : List ℕ) (u : Uart)
    → Holds sent buf u
    → Holds sent buf (send_console net u)
console-Holds net sent buf u (h, s, b, e) =
    let (p, q) = send_console-cmd net u in (send_console-open net u ∙ h, p ∙ s, q ∙ b, e)

-- A character that does not complete a line.
received-Holds :
    (net : Net) (c : ℕ) (sent buf : List ℕ) (u : Uart)
    → Holds sent buf u
    → InLine c
    → length buf + length (of_port (c ∷ [])) < 254
    → Holds sent (buf ++ of_port (c ∷ [])) (received net c u)
unfolding received
received-Holds net c sent buf u (h, s, b, e) line room = elim (Bool-cases (c / 2 ^ 7 % 2 == 1)) [
  | inl m ↦
      let v : Uart = record u { cmdbuf = u.cmdbuf ++ (c % 2 ^ 7 ∷ []) } in
      let mark : c / 2 ^ 7 % 2 ≡ 1 = ground arith in
      let low : (c % 2 ^ 7 == 10) ≡ false = ground (arith, line mark) in
      let short : leb 254 (length buf + 1) ≡ false = ground (arith, rw m at room) in
      let more : complete (buf ++ (c % 2 ^ 7 ∷ [])) ≡ false =
        complete-append buf (c % 2 ^ 7) ∙ rw (low, short) refl in
      let still : complete v.cmdbuf ≡ false = rw b more in
      rw (m, still)
        (console-Holds net sent (buf ++ (c % 2 ^ 7 ∷ [])) v
          (h, s, ap (λ l. l ++ (c % 2 ^ 7 ∷ [])) b, more))
  | inr m ↦
      let v : Uart = record u { conbuf = u.conbuf ++ (c % 2 ^ 7 ∷ []) } in
      let still : complete u.cmdbuf ≡ false = rw b e in
      rw (m, still, append-nil buf) (console-Holds net sent buf v (h, s, b, e))
]

of_port-cons : (c : ℕ) (cs : List ℕ) → of_port (c ∷ cs) ≡ of_port (c ∷ []) ++ of_port cs
of_port-cons c cs = elim (Bool-cases (c / 2 ^ 7 % 2 == 1)) [ inl m ↦ rw m refl | inr m ↦ rw m refl ]

receive_all-Holds :
    (net : Net) (cs sent buf : List ℕ) (u : Uart)
    → Holds sent buf u
    → All InLine cs
    → length buf + length (of_port cs) < 254
    → Holds sent (buf ++ of_port cs) (receive_all net cs u)
receive_all-Holds net [] sent buf u h line room =
    subst (λ l. Holds sent l u) (sym (append-nil buf)) h
receive_all-Holds net (c ∷ cs) sent buf u h (lc, line) room =
    let one = of_port (c ∷ []) in
    let size : length (of_port (c ∷ cs)) ≡ length one + length (of_port cs) =
      ap length (of_port-cons c cs) ∙ length-append one (of_port cs) in
    let first = received-Holds net c sent buf u h lc (omega (arith, size, room)) in
    let rest =
      receive_all-Holds net cs sent (buf ++ one) (received net c u) first line
        (omega (arith, size, room, length-append buf one)) in
    subst (λ l. Holds sent l (receive_all net cs (received net c u)))
      (append_assoc buf one (of_port cs) ∙ ap (λ l. buf ++ l) (sym (of_port-cons c cs))) rest

receive_all-append :
    (net : Net) (cs : List ℕ) (c : ℕ) (u : Uart)
    → receive_all net (cs ++ (c ∷ [])) u ≡ received net c (receive_all net cs u)
receive_all-append net [] c u = refl
receive_all-append net (d ∷ cs) c u = receive_all-append net cs c (received net d u)

-- The command port after a whole line.
abbrev pub Flushed : Option ℕ → List ℕ → List ℕ → Uart → Type 0
Flushed takes sent text u =
    (u.cmd_sent ≡ sent ++ taken takes text) × (u.cmd ≡ succeeds takes) × (u.cmdbuf ≡ [])

flush-Flushed :
    (net : Net) (sent text : List ℕ) (u : Uart)
    → u.cmd ≡ true
    → u.cmd_sent ≡ sent
    → u.cmdbuf ≡ text
    → (length text == 0) ≡ false
    → Flushed net.cmd_takes sent text (flushrx net u)
unfolding flushrx
flush-Flushed net sent text u h s b e =
    let some : (length u.cmdbuf == 0) ≡ false = ap (λ l. length l == 0) b ∙ e in
    rw some (
      rw h (
          ap (λ l. l ++ taken net.cmd_takes u.cmdbuf) s
          ∙ ap (λ l. sent ++ taken net.cmd_takes l) b),
      rw h refl,
      refl,
    )

-- The newline of the command port.
received_end :
    (net : Net) (sent buf : List ℕ) (u : Uart)
    → Holds sent buf u
    → Flushed net.cmd_takes sent (buf ++ (10 ∷ [])) (received net 0x8a u)
unfolding received
received_end net sent buf u (h, s, b, e) =
    let v : Uart = record u { cmdbuf = u.cmdbuf ++ (10 ∷ []) } in
    let full : complete v.cmdbuf ≡ true = complete-append u.cmdbuf 10 in
    let some : (length (buf ++ (10 ∷ [])) == 0) ≡ false =
      ground (arith, length-append buf (10 ∷ [])) in
    let (p, q, r) =
      flush-Flushed net sent (buf ++ (10 ∷ [])) v h s (ap (λ l. l ++ (10 ∷ [])) b) some in
    let (same_sent, same_buf) = send_console-cmd net (flushrx net v) in
    rw full (same_sent ∙ p, send_console-open net (flushrx net v) ∙ q, same_buf ∙ r)

-- Characters of a line for the open command port, fewer than 253 of them and none a newline, in any
-- mixture with characters for the console, and then the port's newline, are received while nothing is
-- buffered for the port. Then one send has been made of all the line's characters, in order and without
-- bit 7, and the newline: the client has got as many of them as that send takes, those that it does not
-- take are lost, nothing stays buffered, and the port is closed when the send fails.
pub received_line :
    (net : Net) (cs : List ℕ) (u : Uart)
    → u.cmd ≡ true
    → u.cmdbuf ≡ []
    → All InLine cs
    → length (of_port cs) < 253
    → Flushed net.cmd_takes u.cmd_sent
        (of_port cs ++ (10 ∷ []))
        (receive_all net (cs ++ (0x8a ∷ [])) u)
received_line net cs u h b line room =
    let line_held =
      receive_all-Holds net cs u.cmd_sent [] u (h, refl, b, refl) line (omega (arith, room)) in
    subst (Flushed net.cmd_takes u.cmd_sent (of_port cs ++ (10 ∷ [])))
      (sym (receive_all-append net cs 0x8a u))
      (received_end net u.cmd_sent (of_port cs) (receive_all net cs u) line_held)
