-- ===== src/TtyBus/ReadErrors.antt =====
-- A bus error in the answer to a read (sw/host/ttybus.cpp).
use zipversa.Base.{ℕ, suc, ◌+◌, ◌<◌, ◌≡◌, ◌⊎◌, refl, arith, true, false}
use zipversa.Base.{List, [], ◌∷◌, ◌++◌, length, ap, sym, ◌∙◌, ltb, leb, length-append}
use mathlib.Core.List.{append_assoc}
use zipversa.TtyBus.Code.{charenc, chardec-charenc}
use zipversa.TtyBus.State.{Bus, buserr}
use zipversa.TtyBus.Read.{control, readword_loop, readword}
use zipversa.TtyBus.Collect.{past}
use zipversa.TtyBus.Reply.{print, word_of, history}
use zipversa.TtyBus.ReadMarks.{print_marks}
use zipversa.TtyBus.ReadWord.{Recalls, read_code_front}
use zipversa.TtyBus.ReadVector.{read_words, address_after, rethrow}
use zipversa.TtyBus.ReadAnswer.{Item, print_items, IsAnswer, first-Took, read_words_step}

control_error :
    (k : ℕ) (s : Bus) → (k ≡ 3) ⊎ (k ≡ 5) → control k s ≡ (buserr 0, record s { bus_err = true })
unfolding control
control_error k s h = ground arith

error_word :
    (k : ℕ) (rest : List ℕ) (s : Bus)
    → (k ≡ 3) ⊎ (k ≡ 5)
    → s.input ≡ charenc k ∷ rest
    → readword s ≡ (buserr 0, record (past 1 rest s) { bus_err = true })
unfolding readword readword_loop
error_word k rest s h e =
    let small : k < 6 = ground arith in
    let f0 : leb 64 k ≡ false = ground arith in
    let f1 : ltb k 6 ≡ true = ground arith in
    rw
      (
        read_code_front (length s.input) k rest s (omega arith) e,
        chardec-charenc k (omega arith),
        f0,
        f1,
        control_error k (past 1 rest s) h,
      )
      refl

-- When the device answers a read with some words and then an error code, and more words were to come:
-- the error that is thrown names the address of the first word that is missing, counted from the
-- buffer's start, the error is noted, and just the answer and the code are taken from the input.
pub read_words_error :
    (a inc k more : ℕ) (items : List Item) (hist rest buf : List ℕ) (s : Bus)
    → (k ≡ 3) ⊎ (k ≡ 5)
    → IsAnswer hist items
    → Recalls s hist
    → s.input ≡ print_items items ++ charenc k ∷ rest
    → ((read_words a inc (length items + suc more) buf s).0
        ≡ buserr (address_after a inc (length buf + length items)))
      × ((read_words a inc (length items + suc more) buf s).1.bus_err ≡ true)
      × ((read_words a inc (length items + suc more) buf s).1.input ≡ rest)
unfolding read_words IsAnswer print_items rethrow
read_words_error a inc k more [] hist rest buf s bad ans rec e =
    let n : 0 + suc more ≡ suc more = omega arith in
    let z : length buf + 0 ≡ length buf = omega arith in
    rw (n, error_word k rest s bad e, z) (refl, refl, refl)
read_words_error a inc k more ((ms, r) ∷ items) hist rest buf s bad (sent, marks, h) rec e =
    let tail = charenc k ∷ rest in
    let n : suc (length items) + suc more ≡ suc (length items + suc more) = omega arith in
    let first = first-Took ms r hist (print_items items ++ tail) s sent marks rec (
      e
      ∙ append_assoc (print_marks ms) (print r ++ print_items items) tail
      ∙ ap (λ xs. print_marks ms ++ xs) (append_assoc (print r) (print_items items) tail)) in
    let buf' = buf ++ word_of hist r ∷ [] in
    let z : length buf' + length items ≡ length buf + suc (length items) =
      omega (arith, length-append buf (word_of hist r ∷ [])) in
    let ih =
      read_words_error a inc k more items (history hist r) rest buf' (readword s).1 bad h
        first.recalls first.input in
    rw (n, read_words_step a inc (length items + suc more) (word_of hist r) buf s first.word, sym z)
      ih
