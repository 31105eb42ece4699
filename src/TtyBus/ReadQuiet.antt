-- ===== src/TtyBus/ReadQuiet.antt =====
-- The reading methods of TTYBUS (sw/host/ttybus.cpp) send nothing.
use zipversa.Base.{ℕ, zero, suc, ◌≡◌, refl, ◌∙◌}
use zipversa.Base.{List, [], ◌∷◌, ◌++◌, length, ltb, leb}
use zipversa.TtyBus.Code.{chardec}
use zipversa.TtyBus.State.{Bus, Outcome, ok, buserr, blocked, exits}
use zipversa.TtyBus.Read.{
  lclreadcode, read_code, control, address_value, take_address, is_address, readword_loop, readword,
}
use zipversa.TtyBus.ReadVector.{rethrow, address_after, read_words}
use zipversa.TtyBus.ReadFrame.{
  sending, Keeps, >>=-Keeps, >>-Keeps, if-Keeps, lclreadcode-Keeps, control-Keeps,
  address_value-Keeps, data_value-Keeps,
}

read_code-Keeps : (fuel : ℕ) → Keeps (read_code fuel)
unfolding read_code
read_code-Keeps zero = λ s. refl
read_code-Keeps (suc fuel) =
    >>=-Keeps (lclreadcode 1) _ (lclreadcode-Keeps 1)
      λ p. if-Keeps (ltb p.0 1) _ _ (read_code-Keeps fuel) (λ s. refl)

readword_loop-Keeps : (fuel val : ℕ) → Keeps (readword_loop fuel val)
unfolding readword_loop
readword_loop-Keeps zero val = λ s. refl
readword_loop-Keeps (suc fuel) val = λ s.
    >>=-Keeps (read_code (suc (length s.input))) _ (read_code-Keeps (suc (length s.input)))
      (λ c.
        let sixbits = chardec c in
        if-Keeps (leb 64 sixbits) _ _ (readword_loop-Keeps fuel val) (
          if-Keeps (ltb sixbits 6) _ _
            (>>-Keeps (control sixbits) (readword_loop fuel val) (control-Keeps sixbits)
              (readword_loop-Keeps fuel val))
            (if-Keeps (is_address sixbits) _ _
              (>>=-Keeps (address_value sixbits c) _ (address_value-Keeps sixbits c) (λ v.
                >>-Keeps (take_address v) (readword_loop fuel v) (λ t. refl)
                  (readword_loop-Keeps fuel v)))
              (data_value-Keeps sixbits c val))))
      s

readword-Keeps : Keeps readword
unfolding readword
readword-Keeps s = readword_loop-Keeps (suc (length s.input)) 0 s

rethrow_lem : {A : Type 0} (a : ℕ) (o : Outcome A × Bus) → sending (rethrow a o).1 ≡ sending o.1
unfolding rethrow
rethrow_lem a (ok v, s) = refl
rethrow_lem a (buserr x, s) = refl
rethrow_lem a (blocked, s) = refl
rethrow_lem a (exits, s) = refl

-- Whatever the device answers, reading words leaves what was sent as it is.
pub read_words-Keeps : (a inc n : ℕ) (buf : List ℕ) → Keeps (read_words a inc n buf)
unfolding read_words
read_words-Keeps a inc zero buf = λ s. refl
read_words-Keeps a inc (suc n) buf =
    >>=-Keeps (λ s. rethrow (address_after a inc (length buf)) (readword s)) _
      (λ s. rethrow_lem (address_after a inc (length buf)) (readword s) ∙ readword-Keeps s)
      (λ v. read_words-Keeps a inc n (buf ++ v ∷ []))
