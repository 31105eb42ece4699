-- ===== src/FlashDriver/Port.antt =====
-- What FLASHDRVR::page_program and FLASHDRVR::erase_sector (sw/host/flashdrvr.cpp) send to the flash,
-- as the
-- transactions that the configuration port (rtl/qflexpress.v) makes of it: the low byte of
-- each word, and the end of the transaction where `CFG_USER_CS_n` is set or `CFG_USERMODE` is not.
use zipversa.Base.{ℕ, zero, suc, ◌+◌, ◌/◌, ◌%◌, ◌^◌, ◌<◌, ◌≡◌, ◌==◌, refl, arith, Bool, true, false}
use zipversa.Base.{if◌then◌else◌, not, ◌||◌, List, [], ◌∷◌, ◌++◌, Bool-cases, inl, inr, ap, ◌∙◌}
use zipversa.Base.{replicate}
use zipversa.Base.Bits.{shr, low_bits}
use zipversa.TtyBus.State.{Outcome, ok}
use zipversa.DevBus.{DevBus, Act, after, pure, ◌>>◌}
use mathlib.Core.List.{append-nil, append_assoc}
use zipversa.FlashDriver.{
  page_program, program, program_commands, verify_page, is_blank, words_of, byte_words, same_words,
  fits_page, take_offline, place_online, send, poll, address_words, flwait, write_enable,
  program_words, flashcfg, user, user_write, f_end, micron_flashid,
}

-- The transactions that are done, the bytes of the one that is open, and for how many polls of its
-- status the flash stays busy.
pub record Port : Type 0 where
  pub done : List (List ℕ)
  pub opened : List ℕ
  pub busy : ℕ

abbrev finish : List (List ℕ) → List ℕ → List (List ℕ)
finish d [] = d
finish d (x ∷ o) = d ++ ((x ∷ o) ∷ [])

abbrev ends : ℕ → Bool
ends v = v / 2 ^ 8 % 2 == 1 || not (v / 2 ^ 12 % 2 == 1)

abbrev clock_out : ℕ → Port → Port
clock_out v s =
    if ends v
    then record s { done = finish s.done s.opened; opened = [] }
    else record s { opened = s.opened ++ (low_bits v 8 ∷ []) }

abbrev status : ℕ → Port → Outcome ℕ × Port
status zero s = (ok 0, s)
status (suc n) s = (ok 1, record s { busy = n })

-- `words a n` is what the flash holds.
abbrev pub port : (ℕ → ℕ → List ℕ) → DevBus Port
port words = record {
  writeio = λ a v s. (ok tt, if a == flashcfg then clock_out v s else s);
  readio = λ a s. status s.busy s;
  readi = λ a n s. (ok (words a n), s);
  readz = λ a n s. (ok (words a n), s);
}

abbrev pub at : List (List ℕ) → List ℕ → ℕ → Port
at d o n = record { done = d; opened = o; busy = n }

-- The bytes of the data.
abbrev pub data_bytes : ℕ → (ℕ → ℕ) → ℕ → List ℕ
data_bytes zero bytes i = []
data_bytes (suc n) bytes i = low_bits (bytes i) 8 ∷ data_bytes n bytes (i + 1)

module _ (words : ℕ → ℕ → List ℕ) where
  -- The words of the data go into the open transaction.
  send-byte_words :
      (len : ℕ) (bytes : ℕ → ℕ) (i m : ℕ) (d : List (List ℕ)) (o : List ℕ) (n : ℕ) (x : ℕ)
      → send (port words) (byte_words len bytes i ++ (f_end ∷ [])) (m, at d (x ∷ o) n)
        ≡ (ok tt, (m, at (d ++ ((x ∷ o ++ data_bytes len bytes i) ∷ [])) [] n))
  unfolding send byte_words
  send-byte_words zero bytes i m d o n x = rw (append-nil o) refl
  send-byte_words (suc len) bytes i m d o n x =
      let v = low_bits (bytes i) 8 in
      let opens : ends (user_write v) ≡ false = ground arith in
      let byte : low_bits (user_write v) 8 ≡ v = omega arith in
      let more = append_assoc o (v ∷ []) (data_bytes len bytes (i + 1)) in
      rw (opens, byte)
        (send-byte_words len bytes (i + 1) m d (o ++ (v ∷ [])) n x
          ∙ ap (λ t. (ok tt, (m, at (d ++ ((x ∷ t) ∷ [])) [] n))) more)

  -- The status is read until the flash is not busy.
  poll-port :
      (n polls m : ℕ) (d : List (List ℕ)) (o : List ℕ) (x : ℕ)
      → n < polls
      → poll (port words) polls (m, at d (x ∷ o) n)
        ≡ (ok tt, (m, at (d ++ ((x ∷ o ++ replicate (suc n) 0) ∷ [])) [] 0))
  unfolding send poll
  poll-port n zero m d o x h = absurd (omega arith)
  poll-port zero (suc p) m d o x h = refl
  poll-port (suc n) (suc p) m d o x h =
      poll-port n p m d (o ++ (0 ∷ [])) x (omega arith)
      ∙ ap (λ t. (ok tt, (m, at (d ++ ((x ∷ t) ∷ [])) [] 0)))
          (append_assoc o (0 ∷ []) (replicate (suc n) 0))

  -- The transactions that turn the quad mode on again.
  abbrev pub online : ℕ → List (List ℕ)
  online id =
      (if id == micron_flashid then (0x06 ∷ []) ∷ (0x81 ∷ 0x23 ∷ []) ∷ [] else [])
      ++ ((0xeb ∷ 0 ∷ 0 ∷ 0 ∷ 0xa0 ∷ 0 ∷ 0 ∷ []) ∷ [])

  place_online-port :
      (m : ℕ) (d : List (List ℕ)) (n : ℕ)
      → place_online (port words) (m, at d [] n) ≡ (ok tt, (m, at (d ++ online m) [] n))
  unfolding send place_online
  place_online-port m d n = elim (Bool-cases (m == micron_flashid)) [
    | inl e ↦
        let a = (0x06 ∷ []) ∷ [] in
        let x = (0x81 ∷ 0x23 ∷ []) ∷ [] in
        let q = (0xeb ∷ 0 ∷ 0 ∷ 0 ∷ 0xa0 ∷ 0 ∷ 0 ∷ []) ∷ [] in
        rw e (
          ap (λ t. (ok tt, (m, at t [] n))) (append_assoc (d ++ a) x q ∙ append_assoc d a (x ++ q)))
    | inr e ↦ rw e refl
  ]

  then-ok :
      {A S : Type 0}
      → (f : Act S (Unit {0})) (k : Act S A) (s t : S) → f s ≡ (ok tt, t)
      → (f >> k) s ≡ k t
  then-ok {A} {S} f k s t e = ap (λ (r : Outcome (Unit {0}) × S). after r (λ u. u) (λ _. k)) e

  abbrev pub address_bytes : ℕ → List ℕ
  address_bytes a = low_bits (shr a 16) 8 ∷ low_bits (shr a 8) 8 ∷ low_bits a 8 ∷ []

  user_open : (v : ℕ) → ends (user (low_bits v 8)) ≡ false
  user_open v = ground arith

  user_byte : (v : ℕ) → low_bits (user (low_bits v 8)) 8 ≡ low_bits v 8
  user_byte v = omega arith

  send-address :
      (a m n x : ℕ) (d : List (List ℕ)) (rest : List ℕ)
      → send (port words) (address_words a ++ rest) (m, at d (x ∷ []) n)
        ≡ send (port words) rest (m, at d (x ∷ address_bytes a) n)
  unfolding send
  send-address a m n x d rest =
      rw
        (
          user_open (shr a 16),
          user_open (shr a 8),
          user_open a,
          user_byte (shr a 16),
          user_byte (shr a 8),
          user_byte a,
        )
        refl

  send_program-port :
      (addr len m n : ℕ) (bytes : ℕ → ℕ) (d : List (List ℕ))
      → send (port words) (program_words addr len bytes) (m, at d [] n) ≡ (
        ok tt,
        (
          m,
          at (d ++ ((0x02 ∷ address_bytes (low_bits addr 24) ++ data_bytes len bytes 0) ∷ [])) [] n,
        ),
      )
  unfolding send
  send_program-port addr len m n bytes d =
      send-address (low_bits addr 24) m n 0x02 d (byte_words len bytes 0 ++ (f_end ∷ []))
      ∙ send-byte_words len bytes 0 m d (address_bytes (low_bits addr 24)) n 0x02

  flwait-port :
      (n polls m : ℕ) (d : List (List ℕ))
      → n < polls
      → flwait (port words) polls (m, at d [] n)
        ≡ (ok tt, (m, at (d ++ ((0x05 ∷ replicate (suc n) 0) ∷ [])) [] 0))
  unfolding send flwait
  flwait-port n polls m d h = poll-port n polls m d [] 0x05 h

  abbrev reset : List ℕ
  reset = replicate 6 0xff

  -- The transactions of a program command to a flash that stays busy for `n` polls.
  abbrev pub program_transactions : ℕ → ℕ → ℕ → (ℕ → ℕ) → ℕ → List (List ℕ)
  program_transactions id addr len bytes n =
      reset
      ∷ (0x06 ∷ [])
      ∷ (0x02 ∷ address_bytes (low_bits addr 24) ++ data_bytes len bytes 0)
      ∷ (0x05 ∷ replicate (suc n) 0)
      ∷ online id

  program_commands-port :
      (polls addr len m n : ℕ) (bytes : ℕ → ℕ)
      → n < polls
      → program_commands (port words) polls addr len bytes (m, at (reset ∷ []) [] n)
        ≡ (ok tt, (m, at (program_transactions m addr len bytes n) [] 0))
  unfolding program_commands send
  program_commands-port polls addr len m n bytes h =
      let b = port words in
      let enabled = reset ∷ (0x06 ∷ []) ∷ [] in
      let page = 0x02 ∷ address_bytes (low_bits addr 24) ++ data_bytes len bytes 0 in
      let written = reset ∷ (0x06 ∷ []) ∷ page ∷ [] in
      let waited = reset ∷ (0x06 ∷ []) ∷ page ∷ (0x05 ∷ replicate (suc n) 0) ∷ [] in
      let write = send b write_enable >> send b (program_words addr len bytes) in
      then-ok (write >> flwait b polls) (place_online b) (m, at (reset ∷ []) [] n)
        (m, at waited [] 0)
        (then-ok write (flwait b polls) (m, at (reset ∷ []) [] n) (m, at written [] n)
            (send_program-port addr len m n bytes enabled)
          ∙ flwait-port n polls m written h)
      ∙ place_online-port m waited 0

verified :
    (words : ℕ → ℕ → List ℕ) (addr len m : ℕ) (verify : Bool) (goal : List ℕ) (d : List (List ℕ))
    → (if verify then verify_page (port words) addr len goal else pure true) (m, at d [] 0) ≡ (
      ok (if verify then same_words (len / 4) (words addr (len / 4)) goal else true),
      (m, at d [] 0),
    )
unfolding verify_page
verified words addr len m true goal d = refl
verified words addr len m false goal d = refl

-- What `page_program` makes of arguments that fit a page and of data that is not that of an erased
-- flash, where the flash is busy for fewer polls than `flwait` may make: the transactions are a reset,
-- write enable, the page program command with the three bytes of the address and all the data, the
-- status read once more than it was busy, and those that turn quad mode on again, in this order; and
-- it returns whether the words of the page, if they are to be verified, are those of the data.
pub page_program-transactions :
    (words : ℕ → ℕ → List ℕ) (polls addr len m n : ℕ) (bytes : ℕ → ℕ) (verify : Bool)
    → fits_page addr len ≡ true
    → is_blank (words_of ((len + 3) / 4) bytes 0) ≡ false
    → n < polls
    → page_program (port words) polls addr len bytes verify (m, at [] [] n) ≡ (
      ok (
          if verify
          then same_words (len / 4) (words addr (len / 4)) (words_of ((len + 3) / 4) bytes 0)
          else true),
      (m, at (program_transactions words m addr len bytes n) [] 0),
    )
unfolding page_program program verify_page take_offline send
page_program-transactions words polls addr len m n bytes verify fits full h =
    let goal = words_of ((len + 3) / 4) bytes 0 in
    let commands = program_commands (port words) polls addr len bytes in
    let start : ℕ × Port = (m, at (replicate 6 0xff ∷ []) [] n) in
    let end : ℕ × Port = (m, at (program_transactions words m addr len bytes n) [] 0) in
    let sent : commands start ≡ (ok tt, end) =
      program_commands-port words polls addr len m n bytes h in
    rw (fits, full)
      (then-ok words commands (if verify then verify_page (port words) addr len goal else pure true)
          start end sent
        ∙ verified words addr len m verify goal (program_transactions words m addr len bytes n))
