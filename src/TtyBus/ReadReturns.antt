-- ===== src/TtyBus/ReadReturns.antt =====
-- `readv` (sw/host/ttybus.cpp) of up to one block, on a device that answers at once, and the request
-- that it makes.
use zipversa.Base.{ℕ, zero, suc, ◌-◌, ◌≤◌, ◌≡◌, refl, arith, Bool, true, false}
use zipversa.Base.{List, [], ◌∷◌, ◌++◌, length, ap, sym, ltb, ◌==◌, if◌then◌else◌}
use zipversa.TtyBus.State.{Bus, Outcome, ok, exits, bind}
use zipversa.TtyBus.Address.{encode_address, readcmd}
use zipversa.TtyBus.Write.{dev_write, arrive}
use zipversa.TtyBus.ReadWord.{Recalls}
use zipversa.TtyBus.ReadVector.{read_words, address_after, next_read, issue, readv_loop, readv}
use zipversa.TtyBus.ReadAnswer.{
  Item, print_items, words_of, address_of, IsAnswer, TookAll, read_words-TookAll,
}

next_read_once : (len : ℕ) → 1 ≤ len → len ≤ 512 → next_read 0 0 len ≡ len
unfolding next_read
next_read_once len h1 h2 = ground arith

issue_once :
    (k inc : ℕ) (cs : List ℕ)
    → suc k ≤ 512
    → issue (suc k) inc 0 0 (suc k) cs ≡ (suc k, cs ++ readcmd inc (suc k))
unfolding issue
issue_once k inc cs h = rw (next_read_once (suc k) (omega arith) h) (ground arith)

loop_done :
    (fuel a inc len : ℕ) (cs buf : List ℕ) (s : Bus)
    → readv_loop fuel a inc len len cs buf s ≡ (ok buf, s)
unfolding readv_loop
loop_done zero a inc len cs buf s = refl
loop_done (suc fuel) a inc len cs buf s = let f : ltb len len ≡ false = ground arith in rw f refl

loop_once :
    (k a inc : ℕ) (cs : List ℕ) (s : Bus)
    → suc k ≤ 512
    → readv_loop (suc k) a inc (suc k) 0 cs [] s
      ≡ (ok [], dev_write ((cs ++ readcmd inc (suc k)) ++ b'\n' ∷ []) s)
unfolding readv_loop read_words
loop_once k a inc cs s h =
    let none : suc k - 512 - 0 ≡ 0 = omega arith in
    let go : ltb 0 (suc k) ≡ true = ground arith in
    rw (issue_once k inc cs h, none, go) (loop_done k a inc (suc k) [] [] _)

-- The state after the commands are sent.
abbrev pub asked : ℕ → ℕ → List ℕ → Bus → Bus
asked inc len cs s = dev_write ((cs ++ readcmd inc len) ++ b'\n' ∷ []) s

-- Up to 512 words are asked for in one write to the device, and read after it.
pub readv_once :
    (k a inc : ℕ) (cs : List ℕ) (s s' : Bus)
    → suc k ≤ 512
    → encode_address a s ≡ (ok cs, s')
    → readv a inc (suc k) s
      ≡ bind (read_words a inc (suc k) [] (asked inc (suc k) cs s')) (λ buf s2.
        if s2.lastaddr == address_after a inc (suc k) then (ok buf, s2) else (exits, s2))
unfolding readv
readv_once k a inc cs s s' h e =
    let f : (suc k == 0) ≡ false = ground arith in
    let z : suc k - 0 ≡ suc k = omega arith in rw (f, e, loop_once k a inc cs s' h, z) refl

ends :
    (want : ℕ) (items : List Item) (hist rest : List ℕ) (s : Bus) (o : Outcome (List ℕ) × Bus)
    → TookAll items hist rest [] s o
    → bind o (λ buf s2. if s2.lastaddr == want then (ok buf, s2) else (exits, s2)) ≡ (
      (if (address_of (s.addr_set, s.lastaddr) items).1 == want
          then ok (words_of hist items)
          else exits),
      o.1,
    )
ends want items hist rest s (x, s2) t =
    rw (t.words, sym (ap (λ (p : Bool × ℕ). p.1) t.addr)) (ground arith)

dev_write_one :
    (cs batch : List ℕ) (later : List (List ℕ)) (s : Bus)
    → s.input ≡ []
    → s.arrivals ≡ batch ∷ later
    → dev_write cs s ≡ record s { sent = s.sent ++ cs; input = batch; arrivals = later }
unfolding dev_write arrive
dev_write_one cs batch later s none comes = rw (comes, none) refl

-- When up to 512 words are asked for, and the device sends an answer of that many to the commands
-- before anything else arrives: `readv` returns the words of the answer when the address that the
-- host then has is the one behind them, and ends the program when it is not; just the address, the
-- command and a newline are sent, and the answer and nothing else is taken from the input.
pub readv-answered :
    (a inc : ℕ) (cs : List ℕ) (items : List Item) (hist rest : List ℕ) (later : List (List ℕ))
    (s s' : Bus)
    → 1 ≤ length items
    → length items ≤ 512
    → encode_address a s ≡ (ok cs, s')
    → s'.input ≡ []
    → s'.arrivals ≡ (print_items items ++ rest) ∷ later
    → IsAnswer hist items
    → Recalls s' hist
    → ((readv a inc (length items) s).0 ≡ (
        if (address_of (s'.addr_set, s'.lastaddr) items).1 == address_after a inc (length items)
        then ok (words_of hist items)
        else exits))
      × ((readv a inc (length items) s).1.input ≡ rest)
      × ((readv a inc (length items) s).1.sent
          ≡ s'.sent ++ ((cs ++ readcmd inc (length items)) ++ b'\n' ∷ []))
readv-answered a inc cs [] hist rest later s s' h1 h2 e none comes ans rec = absurd (omega arith)
readv-answered a inc cs (item ∷ items) hist rest later s s' h1 h2 e none comes ans rec =
    let n = suc (length items) in
    let chars = (cs ++ readcmd inc n) ++ b'\n' ∷ [] in
    let batch = print_items (item ∷ items) ++ rest in
    let start : Bus = record s' { sent = s'.sent ++ chars; input = batch; arrivals = later } in
    let t =
      read_words-TookAll a inc (item ∷ items) hist rest [] start ans
        (record { place = rec.place; same = rec.same }) refl in
    rw
      (
        readv_once (length items) a inc cs s s' h2 e,
        dev_write_one chars batch later s' none comes,
        ends (address_after a inc n) (item ∷ items) hist rest start _ t,
      )
      (refl, t.input, ap (λ (p : List (List ℕ) × List ℕ). p.1) t.others)
