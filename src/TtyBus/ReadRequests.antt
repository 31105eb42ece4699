-- ===== src/TtyBus/ReadRequests.antt =====
-- What the commands of `readv` (sw/host/ttybus.cpp) make the device do.
use zipversa.Base.{
  ℕ, zero, suc, ◌+◌, ◌/◌, ◌%◌, ◌^◌, ◌≤◌, ◌<◌, ◌≡◌, ◌≢◌, inl, inr, refl, arith, Bool, false,
}
use zipversa.Base.{List, [], ◌∷◌, ◌++◌, ap, ◌∙◌, ◌==◌, if◌then◌else◌}
use mathlib.Core.List.{append_assoc}
use zipversa.TtyBus.State.{Bus, Outcome, ok, exits, bind}
use zipversa.TtyBus.ReadVector.{readv, read_words, address_after}
use zipversa.TtyBus.ReadFrame.{sending, bind-Keeps}
use zipversa.TtyBus.ReadQuiet.{read_words-Keeps}
use zipversa.TtyBus.ReadReturns.{asked, readv_once}
use zipversa.TtyBus.WriteRounds.{dev_write_lem}
use zipversa.TtyBus.WriteMethods.{encode_address_state}
use zipversa.TtyBus.Address.{encode_address, readcmd}
use zipversa.TtyBus.Receiver.{Receiver, Request, read, run, run-append, feed, to_hex}
use zipversa.TtyBus.Codewords.{between}
use zipversa.TtyBus.AddressWords.{moved}
use zipversa.TtyBus.AddressLaws.{Agrees, encode_address-run}
use zipversa.TtyBus.ReadCommand.{has_read, readcmd-run}

-- What the receiver has done, and where it is.
abbrev pub standing : Receiver → List Request × ℕ × Bool
standing r = (r.log, r.wb_addr, r.writing)

-- A newline between codewords is passed over, when no write is under way.
newline_run : (r : Receiver) → r.lastcw ≢ 1 → run (b'\n' ∷ []) (between r) ≡ between r
unfolding run feed to_hex
newline_run r h = ground arith

has_read_lastcw : (inc len : ℕ) (r : Receiver) → (has_read inc len r).lastcw ≢ 1
has_read_lastcw inc len r = ground arith

-- The receiver after one read of `len` words at the word address `x`.
abbrev pub served : ℕ → ℕ → ℕ → Receiver → List Request × ℕ × Bool
served inc len x r =
    (r.log ++ (read x (inc == 1) len ∷ []), (if inc == 1 then (x + len) % 2 ^ 32 else x), false)

read_run :
    (inc len : ℕ) (r : Receiver)
    → inc ≤ 1
    → 1 ≤ len
    → len < 520
    → (inc ≡ 0 → len ≢ 8)
    → r.writing ≡ false
    → standing (run (readcmd inc len ++ b'\n' ∷ []) (between r)) ≡ served inc len r.wb_addr r
read_run inc len r h1 h2 h3 h4 idle =
    rw
      (
        run-append (readcmd inc len) (b'\n' ∷ []) (between r),
        readcmd-run inc len r h1 h2 h3 h4 idle,
        newline_run (has_read inc len r) (has_read_lastcw inc len r),
      )
      (rw idle refl)

-- The commands of one read, and the newline behind them.
commands-run :
    (a inc len : ℕ) (s : Bus) (r : Receiver) {cs : List ℕ}
    → a < 2 ^ 32
    → inc ≤ 1
    → 1 ≤ len
    → len < 520
    → (inc ≡ 0 → len ≢ 8)
    → Agrees s r
    → r.writing ≡ false
    → (encode_address a s).0 ≡ ok cs
    → standing (run ((cs ++ readcmd inc len) ++ b'\n' ∷ []) (between r)) ≡ served inc len (a / 4) r
commands-run a inc len s r {cs} ha h1 h2 h3 h4 agrees idle e =
    ap (λ xs. standing (run xs (between r))) (append_assoc cs (readcmd inc len) (b'\n' ∷ []))
    ∙ ap standing (run-append cs (readcmd inc len ++ b'\n' ∷ []) (between r))
    ∙ elim (encode_address-run a s r ha agrees idle e) [
      | inl p ↦ rw p (read_run inc len (moved (a / 4) r) h1 h2 h3 h4 idle)
      | inr p ↦ rw p (read_run inc len (record r { part = []; wb_addr = a / 4 }) h1 h2 h3 h4 idle)
    ]

-- What `readv` of up to 512 words sends in all, whatever the device answers.
readv-sent :
    (k a inc : ℕ) (s : Bus) {cs : List ℕ}
    → suc k ≤ 512
    → (encode_address a s).0 ≡ ok cs
    → (readv a inc (suc k) s).1.sent ≡ s.sent ++ ((cs ++ readcmd inc (suc k)) ++ b'\n' ∷ [])
readv-sent k a inc s {cs} h e =
    let s' = (encode_address a s).1 in
    let chars = (cs ++ readcmd inc (suc k)) ++ b'\n' ∷ [] in
    let got = read_words a inc (suc k) [] (asked inc (suc k) cs s') in
    let ends = λ (buf : List ℕ) (s2 : Bus).
      if s2.lastaddr == address_after a inc (suc k) then (ok buf, s2) else (exits, s2) in
    let quiet : sending (bind got ends).1 ≡ sending got.1 =
      bind-Keeps got ends (λ buf s2. ground arith) in
    let first : encode_address a s ≡ (ok cs, s') = ap (λ (o : Outcome (List ℕ)). (o, s')) e in
    let of : Bool × ℕ × (ℕ → ℕ) × List ℕ → List ℕ = λ t. t.3 in
    ap (λ (o : Outcome (List ℕ) × Bus). o.1.sent) (readv_once k a inc cs s s' h first)
    ∙ ap of quiet
    ∙ ap of (read_words-Keeps a inc (suc k) [] (asked inc (suc k) cs s'))
    ∙ (dev_write_lem chars s').1
    ∙ ap (λ l. l ++ chars) (encode_address_state a s).1

-- When `readv` is to read 1 to 512 words, a block, from a 32-bit address that `encode_address` accepts,
-- other than eight without increment, and the host knows an idle receiver's address: whatever the
-- device answers and however `readv` ends, all that it has sent makes the receiver do one read of that
-- many words at the address, and nothing else, and moves the receiver's address behind them if it is
-- to increment.
pub readv-requests :
    (a inc len : ℕ) (s : Bus) (r : Receiver) {cs : List ℕ}
    → a < 2 ^ 32
    → inc ≤ 1
    → 1 ≤ len
    → len ≤ 512
    → (inc ≡ 0 → len ≢ 8)
    → Agrees s r
    → r.writing ≡ false
    → (encode_address a s).0 ≡ ok cs
    → (out : List ℕ) × ((readv a inc len s).1.sent ≡ s.sent ++ out)
      × (standing (run out (between r)) ≡ served inc len (a / 4) r)
readv-requests a inc zero s r {cs} ha h1 h2 h3 h4 agrees idle e = absurd (omega arith)
readv-requests a inc (suc k) s r {cs} ha h1 h2 h3 h4 agrees idle e = (
  (cs ++ readcmd inc (suc k)) ++ b'\n' ∷ [],
  readv-sent k a inc s h3 e,
  commands-run a inc (suc k) s r ha h1 h2 (omega arith) h4 agrees idle e,
)
