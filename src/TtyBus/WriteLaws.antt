-- ===== src/TtyBus/WriteLaws.antt =====
-- `writev` and the methods on it against the receiver.
use zipversa.Base.{ℕ, zero, suc, ◌^◌, ◌≤◌, ◌<◌, ◌≡◌, ◌≢◌, inl, inr, ◌∙◌}
use zipversa.Base.{ap, sym, refl, arith, List, [], ◌∷◌, ◌++◌, All, length, take, drop}
use zipversa.Base.{All-drop, take-append-drop, length-drop_lt}
use zipversa.TtyBus.State.{Bus, ok}
use zipversa.TtyBus.Write.{max_wr_len, newline, writev_loop}
use zipversa.TtyBus.Receiver.{Receiver, run, run-append}
use zipversa.TtyBus.Codewords.{between}
use zipversa.TtyBus.WriteTable.{InSync}
use zipversa.TtyBus.WriteWords.{List-cases, between_self}
use zipversa.TtyBus.WriteRounds.{WroteAll, WroteAll-last, WroteAll-more, writev_loop_nil, round_ok}
use zipversa.TtyBus.WriteRounds.{round-Follows, round_sync, round_run, round_chars, round_state}
use zipversa.TtyBus.WriteRounds.{round_receiver}
use mathlib.Core.List.{append_assoc, append-nil}

-- What a `writev` sent, and what it made the receiver do.
abbrev pub Sends : ℕ → List ℕ → Bus → Bus → Receiver → Receiver → Type 0
Sends p vals s s' r0 r =
    (out : List ℕ) × (s'.sent ≡ s.sent ++ out) × WroteAll p vals s' r (run out (between r0))

WroteAll-ext :
    (p : ℕ) (xs ys : List ℕ) (s : Bus) (r r' : Receiver)
    → xs ≡ ys
    → WroteAll p xs s r r'
    → WroteAll p ys s r r'
WroteAll-ext p xs ys s r r' e w = rw (← e) w

all_taken : (n : ℕ) (xs : List ℕ) → drop n xs ≡ [] → take n xs ≡ xs
all_taken n xs e = sym (append-nil (take n xs)) ∙ rw (← e) (take-append-drop n xs)

newline_more : (xs : List ℕ) → xs ≢ [] → newline xs ≡ []
newline_more [] h = absurd (h refl)
newline_more (x ∷ xs) h = ground arith

pub writev_loop-run :
    (fuel p : ℕ) (buf vals : List ℕ) (s : Bus) (r0 r : Receiver)
    → p ≤ 1
    → All (λ v. v < 2 ^ 32) vals
    → vals ≢ []
    → length vals ≤ fuel
    → InSync s r
    → r.part ≡ []
    → run buf (between r0) ≡ r
    → (writev_loop fuel p buf vals s).0 ≡ ok tt
    → Sends p vals s (writev_loop fuel p buf vals s).1 r0 r
unfolding run
writev_loop-run zero p buf [] s r0 r hp hv ne fits sync e0 e1 done = absurd (ne refl)
writev_loop-run zero p buf (v ∷ vals) s r0 r hp hv ne fits sync e0 e1 done = absurd (omega arith)
writev_loop-run (suc fuel) p buf [] s r0 r hp hv ne fits sync e0 e1 done = absurd (ne refl)
writev_loop-run (suc fuel) p buf (v ∷ vals) s r0 r hp hv ne fits sync e0 e1 done =
    let rest = drop max_wr_len (v ∷ vals) in
    let words = take max_wr_len (v ∷ vals) in
    let chars = round_chars fuel p buf v vals s in
    let s1 = round_state fuel p buf v vals s in
    let r1 = round_receiver fuel p buf v vals s r0 r hp hv sync e0 e1 in
    let follows = round-Follows fuel p buf v vals s r0 r hp hv sync e0 e1 in
    let (synced, sent) = round_sync fuel p buf v vals s r0 r hp hv sync e0 e1 in
    let ran = round_run fuel p buf v vals s r0 r hp hv sync e0 e1 in
    let step = round_ok fuel p buf v vals s done in
    rw step (elim (List-cases rest) [
      | inl last ↦
          let ends : writev_loop fuel p [] rest s1 ≡ (ok tt, s1) =
            ap (λ (l : List ℕ). writev_loop fuel p [] l s1) last ∙ writev_loop_nil fuel p [] s1 in
          let wrote = WroteAll-last p words _ s1 r r1 (λ e. cc) follows synced in
          rw ends (
            chars,
            sent,
            rw (ran, ap newline last)
                (WroteAll-ext p words (v ∷ vals) s1 r _ (all_taken 32 (v ∷ vals) last) wrote),
          )
      | inr more ↦
          let (out, sent', wrote) =
            writev_loop-run fuel p [] rest s1 r1 r1 hp (All-drop (λ x. x < 2 ^ 32) 32 (v ∷ vals) hv)
              more (omega (arith, length-drop_lt 31 v vals)) synced follows.part
              (between_self r1 follows.part) (sym (ap (λ t. t.0) step) ∙ done) in
          (
            chars ++ out,
            sent' ∙ rw sent (append_assoc s.sent chars out),
            rw (run-append, ran, newline_more rest more)
                (WroteAll-ext p (words ++ rest) (v ∷ vals) _ r _
                  (take-append-drop max_wr_len (v ∷ vals))
                  (WroteAll-more p words rest _ _ r r1 _ follows
                    (rw (between_self r1 follows.part) at wrote))),
          )
    ])
