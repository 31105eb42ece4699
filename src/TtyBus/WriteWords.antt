-- ===== src/TtyBus/WriteWords.antt =====
-- `write_words`, the inner loop of writev (sw/host/ttybus.cpp), against the receiver.
use zipversa.Base.{ℕ, ◌^◌, ◌≤◌, ◌<◌, ◌≡◌, ◌≢◌, ◌⊎◌, inl, inr, ◌∙◌, ap, sym, refl}
use zipversa.Base.{true, List, [], ◌∷◌, ◌++◌, All}
use zipversa.TtyBus.State.{Bus}
use zipversa.TtyBus.Write.{find_value, encode_value, note_value, write_words}
use zipversa.TtyBus.Receiver.{Receiver, write, run, run-append}
use zipversa.TtyBus.Codewords.{between}
use zipversa.TtyBus.WriteTable.{InSync, written, requests, next_addr, end_addr, encode_value-run}
use mathlib.Core.List.{append_assoc, append-nil}

-- What a run of written words leaves: the requests in order, the address behind them, and tables
-- that agree.
pub record Follows (p : ℕ) (vals : List ℕ) (s' : Bus) (r r' : Receiver) : Type 0 where
  pub log : r'.log ≡ r.log ++ requests p r.wb_addr vals
  pub addr : r'.wb_addr ≡ end_addr p r.wb_addr vals
  pub part : r'.part ≡ []
  pub sync : InSync s' r'
  pub closed : vals ≡ [] → (r'.writing ≡ r.writing) × (r'.lastcw ≡ r.lastcw)
  pub opened : vals ≢ [] → (r'.writing ≡ true) × (r'.lastcw ≡ 1)

pub List-cases {ℓ} : {A : Type ℓ} (xs : List A) → (xs ≡ []) ⊎ (xs ≢ [])
List-cases [] = inl refl
List-cases (x ∷ xs) = inr (λ e. cc)

pub between_self : (r : Receiver) → r.part ≡ [] → between r ≡ r
between_self r e = sym (ap (λ (t : List ℕ). record r { part = t }) e)

Follows-cons :
    (p v : ℕ) (vals : List ℕ) {s' : Bus} (r r1 : Receiver) {r2 : Receiver}
    → r1 ≡ record (written p v r) { tbl = r1.tbl; wr_addr = r1.wr_addr }
    → Follows p vals s' r1 r2
    → Follows p (v ∷ vals) s' r r2
Follows-cons p v vals r r1 {r2} step rest =
    let addr : r1.wb_addr ≡ next_addr p r.wb_addr = ap (λ (t : Receiver). t.wb_addr) step in
    let log : r1.log ≡ r.log ++ (write r.wb_addr v ∷ []) = ap (λ (t : Receiver). t.log) step in
    let kind : r1.lastcw ≡ 1 = ap (λ (t : Receiver). t.lastcw) step in
    let writing : r1.writing ≡ true = ap (λ (t : Receiver). t.writing) step in
    record {
      log = rest.log ∙ rw (addr, log) (append_assoc r.log (write r.wb_addr v ∷ []) _);
      addr = rest.addr ∙ rw addr;
      part = rest.part;
      sync = rest.sync;
      closed = λ e. cc;
      opened = λ _. elim (List-cases vals) [
        | inl e ↦ let (a, b) = rest.closed e in (a ∙ writing, b ∙ kind)
        | inr ne ↦ rest.opened ne
      ];
    }

-- For 32-bit words, an increment of 0 or 1 and tables that agree: the characters of `write_words`
-- make the receiver request the write of every word, in order, with the increment, and leave its
-- address behind them and the tables in agreement.
pub write_words-run :
    (p : ℕ) (vals : List ℕ) (s : Bus) (r : Receiver)
    → p ≤ 1
    → All (λ v. v < 2 ^ 32) vals
    → InSync s r
    → Follows p vals (write_words p vals s).1 r (run (write_words p vals s).0 (between r))
unfolding write_words run
write_words-run p [] s r hp hv sync = record {
  log = sym (append-nil _);
  addr = refl;
  part = refl;
  sync = record { host = sync.host; device = sync.device; same = sync.same };
  closed = λ e. (refl, refl);
  opened = λ h. absurd (h refl);
}
write_words-run p (v ∷ vals) s r hp (hv, hvs) sync =
    let c = find_value 255 1 v s in
    let r1 = run (encode_value p c v) (between r) in
    let (step, sync1) = encode_value-run p v s r hp hv sync in
    let here : between r1 ≡ r1 = between_self r1 (ap (λ (t : Receiver). t.part) step) in
    let rest = write_words-run p vals (note_value p c v s) r1 hp hvs sync1 in
    rw run-append (Follows-cons p v vals r r1 step (rw here at rest))

-- The requests of two runs of words are those of the runs in turn.
pub requests-append :
    (p a : ℕ) (xs ys : List ℕ)
    → requests p a (xs ++ ys) ≡ requests p a xs ++ requests p (end_addr p a xs) ys
requests-append p a [] ys = refl
requests-append p a (x ∷ xs) ys = rw (requests-append p (next_addr p a) xs ys)

pub end_addr-append :
    (p a : ℕ) (xs ys : List ℕ) → end_addr p a (xs ++ ys) ≡ end_addr p (end_addr p a xs) ys
end_addr-append p a [] ys = refl
end_addr-append p a (x ∷ xs) ys = end_addr-append p (next_addr p a) xs ys
