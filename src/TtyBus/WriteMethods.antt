-- ===== src/TtyBus/WriteMethods.antt =====
-- `writev` and `writeio` (sw/host/ttybus.cpp) as a whole against the receiver.
use zipversa.Base.{ℕ, ◌+◌, ◌*◌, ◌/◌, ◌%◌, ◌^◌, ◌≤◌, ◌<◌, ◌≡◌, ◌≢◌, ◌⊎◌, inl, inr, ◌∙◌}
use zipversa.Base.{Bool, ap, sym, refl, arith, true, false, List, [], ◌∷◌, ◌++◌, All, length}
use zipversa.TtyBus.State.{Bus, ok, bufalloc}
use zipversa.TtyBus.Address.{encode_address}
use zipversa.TtyBus.AddressWords.{moved}
use zipversa.TtyBus.WriteLaws.{writev_loop-run}
use zipversa.TtyBus.AddressLaws.{Agrees, encode_address-run}
use zipversa.TtyBus.Read.{readidle}
use zipversa.TtyBus.ReadFrame.{readidle-Keeps}
use zipversa.TtyBus.Write.{writev_loop, writev, writeio}
use zipversa.TtyBus.Receiver.{write, Receiver, run}
use zipversa.TtyBus.Codewords.{between}
use zipversa.TtyBus.WriteTable.{InSync, requests, end_addr}
use zipversa.TtyBus.WriteWords.{between_self}
use zipversa.TtyBus.WriteRounds.{bind_ok, table, InSync-table}

-- A receiver between two codewords that waits for no more of a write.
abbrev pub IsReady : Receiver → Type 0
IsReady r = (r.part ≡ []) × (r.writing ≡ false)

pub encode_address_state :
    (a : ℕ) (s : Bus)
    → (table (encode_address a s).1 ≡ table s) × ((encode_address a s).1.sent ≡ s.sent)
unfolding encode_address
encode_address_state a s = ground arith

-- The receiver after the address codeword.
addressed :
    (a : ℕ) (r ra : Receiver)
    → (ra ≡ moved (a / 4) r) ⊎ (ra ≡ record r { part = []; wb_addr = a / 4 })
    → (s : Bus) → InSync s r
    → (ra.part ≡ []) × (ra.log ≡ r.log) × (ra.wb_addr ≡ a / 4) × InSync s ra
addressed a r ra (inl e) s sync =
    rw e (refl, refl, refl, record { host = sync.host; device = sync.device; same = sync.same })
addressed a r ra (inr e) s sync =
    rw e (refl, refl, refl, record { host = sync.host; device = sync.device; same = sync.same })

-- `writev` on a host and a receiver that agree. Each time it returns, the characters that it sent
-- make the receiver write every word of the buffer, in order, from the address asked for on, at
-- one address or at increasing ones; then the receiver is ready again and the tables agree.
pub writev-run :
    (a p : ℕ) (vals : List ℕ) (s : Bus) (r : Receiver)
    → a < 2 ^ 32
    → p ≤ 1
    → All (λ v. v < 2 ^ 32) vals
    → vals ≢ []
    → Agrees s r
    → InSync s r
    → IsReady r
    → (writev a p vals s).0 ≡ ok tt
    → let s' = (writev a p vals s).1 in
      (out : List ℕ) × (s'.sent ≡ s.sent ++ out)
      × ((run out r).log ≡ r.log ++ requests p (a / 4) vals)
      × ((run out r).wb_addr ≡ end_addr p (a / 4) vals)
      × IsReady (run out r)
      × InSync s' (run out r)
unfolding writev
writev-run a p vals s r ha hp hv ne agrees sync (start, idle) done =
    let s1 : Bus = record s { buflen = bufalloc s.buflen ((length vals + 2) * 6) } in
    let (cs, addr_ok, step) = bind_ok (encode_address a s1) _ done in
    let s2 : Bus = record (encode_address a s1).1 { lastaddr = a; addr_set = true } in
    let ra = run cs (between r) in
    let (part, log, at, sync_a) =
      addressed a r ra (encode_address-run a s1 r ha agrees idle addr_ok) s2
        (InSync-table s s2 r (encode_address_state a s1).0 sync) in
    let (u, loop_ok, step2) =
      bind_ok (writev_loop (length vals) p cs vals s2) (λ _. readidle)
        (sym (ap (λ t. t.0) step) ∙ done) in
    let (out, sent, wrote) =
      writev_loop-run (length vals) p cs vals s2 r ra hp hv ne (omega arith) sync_a part refl
        loop_ok in
    let kept = readidle-Keeps (writev_loop (length vals) p cs vals s2).1 in
    let here : run out (between r) ≡ run out r = ap (run out) (between_self r start) in
    let final = rw here at wrote in
    rw (step, step2)
      (
        out,
        ap (λ (t : Bool × ℕ × (ℕ → ℕ) × List ℕ). t.3) kept
            ∙ sent
            ∙ ap (λ (t : List ℕ). t ++ out) (encode_address_state a s1).1,
        final.log ∙ rw (log, at),
        final.addr ∙ rw at,
        (final.part, final.ended),
        InSync-table (writev_loop (length vals) p cs vals s2).1 _ (run out r)
            (ap (λ (t : Bool × ℕ × (ℕ → ℕ) × List ℕ). (t.0, t.1, t.2)) kept) final.sync,
      )

-- The host knows the receiver's address and table, and the receiver is ready.
pub record Linked (s : Bus) (r : Receiver) : Type 0 where
  pub addr : Agrees s r
  pub sync : InSync s r
  pub ready : IsReady r

aligned : (a : ℕ) (s : Bus) {cs : List ℕ} → (encode_address a s).0 ≡ ok cs → a % 4 ≡ 0
unfolding encode_address
aligned a s e = ground arith

writev_aligned : (a p : ℕ) (vals : List ℕ) (s : Bus) → (writev a p vals s).0 ≡ ok tt → a % 4 ≡ 0
unfolding writev
writev_aligned a p vals s done =
    let s1 : Bus = record s { buflen = bufalloc s.buflen ((length vals + 2) * 6) } in
    aligned a s1 (bind_ok (encode_address a s1) _ done).1

-- `writeio` keeps host and receiver linked: each time it returns, the receiver has been made to
-- write the word at the address, once, and the next call may start from there.
pub writeio-Linked :
    (a v : ℕ) (s : Bus) (r : Receiver)
    → a < 2 ^ 32
    → v < 2 ^ 32
    → Linked s r
    → (writeio a v s).0 ≡ ok tt
    → let s' = (writeio a v s).1 in
      (out : List ℕ) × (s'.sent ≡ s.sent ++ out)
      × ((run out r).log ≡ r.log ++ (write (a / 4) v ∷ []))
      × Linked s' (run out r)
unfolding writeio
writeio-Linked a v s r ha hv link done =
    let (u, wrote, step) = bind_ok (writev a 0 (v ∷ []) s) _ done in
    let (out, sent, log, addr, ready, sync) =
      writev-run a 0 (v ∷ []) s r ha (omega arith) (hv, tt) (λ e. cc) link.addr link.sync link.ready
        wrote in
    let al = writev_aligned a 0 (v ∷ []) s wrote in
    rw step (
      out,
      sent,
      log,
      record {
        addr = λ _. (omega (arith, addr), omega (arith, addr));
        sync = record { host = sync.host; device = sync.device; same = sync.same };
        ready = ready;
      },
    )
