-- ===== src/TtyBus/WriteRounds.antt =====
-- One round of the loop of `writev` against the receiver.
use zipversa.Base.{ℕ, zero, suc, ◌^◌, ◌≤◌, ◌<◌, ◌≡◌, ◌≢◌, ◌∙◌}
use zipversa.Base.{Bool, ap, refl, arith, false}
use zipversa.Base.{List, [], ◌∷◌, ◌++◌, All, take, drop, All-take}
use zipversa.TtyBus.State.{Bus, Outcome, M, ok, buserr, blocked, exits, bind}
use zipversa.TtyBus.Read.{readidle}
use zipversa.TtyBus.ReadFrame.{readidle-Keeps}
use zipversa.TtyBus.Write.{
  max_wr_len, newline, find_value, note_value, write_words, arrive, dev_write, writev_loop,
}
use zipversa.TtyBus.Receiver.{Receiver, to_hex, exec, feed, run, run-append}
use zipversa.TtyBus.Codewords.{between}
use zipversa.TtyBus.WriteTable.{InSync, requests, end_addr}
use zipversa.TtyBus.WriteWords.{
  requests-append, end_addr-append, Follows, write_words-run, between_self,
}
use mathlib.Core.List.{append_assoc}

-- A sequence that returns: its first part does, and the rest runs from there.
pub bind_ok :
    {A B : Type 0} (o : Outcome A × Bus) (f : A → M B) {b : B}
    → (bind o f).0 ≡ ok b
    → (a : A) × (o.0 ≡ ok a) × (bind o f ≡ f a o.1)
bind_ok (ok a, s) f h = (a, refl, refl)
bind_ok (buserr x, s) f h = cc
bind_ok (blocked, s) f h = cc
bind_ok (exits, s) f h = cc

-- The host's side of the write table.
abbrev pub table : Bus → Bool × ℕ × (ℕ → ℕ)
table s = (s.wrloaded, s.wraddr, s.writetbl)

-- The tables agree as long as the host's has not changed.
pub InSync-table : (s s' : Bus) (r : Receiver) → table s' ≡ table s → InSync s r → InSync s' r
InSync-table s s' r e sync =
    let loaded : s'.wrloaded ≡ s.wrloaded = ap (λ (t : Bool × ℕ × (ℕ → ℕ)). t.0) e in
    let at : s'.wraddr ≡ s.wraddr = ap (λ (t : Bool × ℕ × (ℕ → ℕ)). t.1) e in
    let tbl : s'.writetbl ≡ s.writetbl = ap (λ (t : Bool × ℕ × (ℕ → ℕ)). t.2) e in
    record {
      host = rw at sync.host;
      device = sync.device;
      same = λ i h1 h2 there. rw (tbl, at) (sync.same i h1 h2 (rw (loaded, at) at there));
    }

arrive_lem :
    (l : List (List ℕ)) (s : Bus) → (table (arrive l s) ≡ table s) × ((arrive l s).sent ≡ s.sent)
unfolding arrive
arrive_lem [] s = (refl, refl)
arrive_lem (a ∷ l) s = (refl, refl)

pub dev_write_lem :
    (cs : List ℕ) (s : Bus)
    → (table (dev_write cs s) ≡ table s) × ((dev_write cs s).sent ≡ s.sent ++ cs)
unfolding dev_write
dev_write_lem cs s = arrive_lem s.arrivals (record s { sent = s.sent ++ cs })

-- A write to the device, and the replies read after it.
sync_after :
    (cs : List ℕ) (s : Bus) (r : Receiver)
    → InSync s r
    → let s' = (readidle (dev_write cs s)).1 in InSync s' r × (s'.sent ≡ s.sent ++ cs)
sync_after cs s r sync =
    let e = readidle-Keeps (dev_write cs s) in
    (
      InSync-table (dev_write cs s) (readidle (dev_write cs s)).1 r
          (ap (λ (t : Bool × ℕ × (ℕ → ℕ) × List ℕ). (t.0, t.1, t.2)) e)
          (InSync-table s (dev_write cs s) r (dev_write_lem cs s).0 sync),
      ap (λ (t : Bool × ℕ × (ℕ → ℕ) × List ℕ). t.3) e ∙ (dev_write_lem cs s).1,
    )

-- A newline ends a write.
feed_newline :
    (r : Receiver)
    → r.part ≡ []
    → r.lastcw ≡ 1
    → feed b'\n' r ≡ record r { part = []; lastcw = 2; writing = false }
unfolding feed to_hex exec
feed_newline r e k = ground arith

note_value_sent : (p c v : ℕ) (s : Bus) → (note_value p c v s).sent ≡ s.sent
unfolding note_value
note_value_sent p c v s = ground arith

write_words_sent : (p : ℕ) (vals : List ℕ) (s : Bus) → (write_words p vals s).1.sent ≡ s.sent
unfolding write_words
write_words_sent p [] s = refl
write_words_sent p (v ∷ vals) s =
    let s1 = note_value p (find_value 255 1 v s) v s in
    write_words_sent p vals s1 ∙ note_value_sent p (find_value 255 1 v s) v s

-- What the words of a whole `writev` leave: the requests in order, the address behind them, the
-- write ended, and tables that agree.
pub record WroteAll (p : ℕ) (vals : List ℕ) (s' : Bus) (r r' : Receiver) : Type 0 where
  pub log : r'.log ≡ r.log ++ requests p r.wb_addr vals
  pub addr : r'.wb_addr ≡ end_addr p r.wb_addr vals
  pub part : r'.part ≡ []
  pub sync : InSync s' r'
  pub ended : r'.writing ≡ false

-- The last write of a `writev`.
pub WroteAll-last :
    (p : ℕ) (vals : List ℕ) (s s' : Bus) (r r1 : Receiver)
    → vals ≢ []
    → Follows p vals s r r1
    → InSync s' r1
    → WroteAll p vals s' r (run (b'\n' ∷ []) r1)
unfolding run
WroteAll-last p vals s s' r r1 ne f sync = rw (feed_newline r1 f.part (f.opened ne).1) (record {
  log = f.log;
  addr = f.addr;
  part = refl;
  sync = record { host = sync.host; device = sync.device; same = sync.same };
  ended = refl;
})

-- An earlier write, and those that follow it.
pub WroteAll-more :
    (p : ℕ) (xs ys : List ℕ) (s s' : Bus) (r r1 r2 : Receiver)
    → Follows p xs s r r1
    → WroteAll p ys s' r1 r2
    → WroteAll p (xs ++ ys) s' r r2
WroteAll-more p xs ys s s' r r1 r2 f w = record {
  log =
      w.log
      ∙ rw (f.log, f.addr, requests-append p r.wb_addr xs ys)
          (append_assoc r.log (requests p r.wb_addr xs) _);
  addr = w.addr ∙ rw (f.addr, end_addr-append p r.wb_addr xs ys);
  part = w.part;
  sync = w.sync;
  ended = w.ended;
}

pub writev_loop_nil :
    (fuel p : ℕ) (buf : List ℕ) (s : Bus) → writev_loop fuel p buf [] s ≡ (ok tt, s)
unfolding writev_loop
writev_loop_nil zero p buf s = refl
writev_loop_nil (suc fuel) p buf s = refl

-- One round, on the words `ws` and with `rest` to come: the state after it, and the loop from there.
module _ (fuel p : ℕ) (buf : List ℕ) (v : ℕ) (vals : List ℕ) (s : Bus) where
  abbrev pub ws : List ℕ
  ws = take max_wr_len (v ∷ vals)

  abbrev pub rest : List ℕ
  rest = drop max_wr_len (v ∷ vals)

  abbrev pub round_chars : List ℕ
  round_chars = buf ++ ((write_words p ws s).0 ++ newline rest)

  abbrev pub round_state : Bus
  round_state = (readidle (dev_write round_chars (write_words p ws s).1)).1

  pub round_ok :
      (writev_loop (suc fuel) p buf (v ∷ vals) s).0 ≡ ok tt
      → writev_loop (suc fuel) p buf (v ∷ vals) s ≡ writev_loop fuel p [] rest round_state
  unfolding writev_loop
  round_ok done =
      (bind_ok (readidle (dev_write round_chars (write_words p ws s).1))
        (λ _. writev_loop fuel p [] rest) done).2

  module _ (r0 r : Receiver) (bit : p ≤ 1) (words : All (λ x. x < 2 ^ 32) (v ∷ vals))
      (sync : InSync s r) (start : r.part ≡ []) (front : run buf (between r0) ≡ r) where
    abbrev pub round_receiver : Receiver
    round_receiver = run (write_words p ws s).0 r

    pub round-Follows : Follows p ws (write_words p ws s).1 r round_receiver
    round-Follows =
        rw (between_self r start) at
          (write_words-run p ws s r bit (All-take (λ x. x < 2 ^ 32) 32 (v ∷ vals) words) sync)

    pub round_sync : InSync round_state round_receiver × (round_state.sent ≡ s.sent ++ round_chars)
    round_sync =
        let (synced, sent) =
          sync_after round_chars (write_words p ws s).1 round_receiver round-Follows.sync in
        (synced, rw (write_words_sent p ws s) at sent)

    pub round_run : run round_chars (between r0) ≡ run (newline rest) round_receiver
    round_run = rw (run-append, front, run-append)
