-- ===== src/TtyBus/ReadAnswer.antt =====
-- `read_words`, and `readi` and `readz`, on a device that answers.
use zipversa.Base.{ℕ, suc, ◌+◌, ◌*◌, ◌≤◌, ◌≡◌, refl, arith, Bool}
use zipversa.Base.{List, [], ◌∷◌, ◌++◌, map, length, All, ap, sym, ◌∙◌, length-append}
use mathlib.Core.List.{append_assoc, append-nil}
use zipversa.Base.Bits.{u32}
use zipversa.TtyBus.Code.{charenc}
use zipversa.TtyBus.State.{Bus, Outcome, M, ok, bind}
use zipversa.TtyBus.Read.{readword}
use zipversa.TtyBus.Reply.{Reply, print, word_of, history, goes_on, IsSent, inc_of}
use zipversa.TtyBus.ReadWord.{Recalls, Took}
use zipversa.TtyBus.ReadMarks.{
  Mark, blank, idle, address, print_mark, address_sixes, print_marks, IsMark, arrive,
}
use zipversa.TtyBus.ReadSequence.{landed, marks-Took}
use zipversa.TtyBus.ReadVector.{read_words, address_after, rethrow}

-- A word of the device's answer, with the marks ahead of it.
abbrev pub Item : Type 0
Item = List Mark × Reply

unfoldable pub print_items : List Item → List ℕ
print_items [] = []
print_items ((ms, r) ∷ items) = print_marks ms ++ (print r ++ print_items items)

-- The words of an answer.
unfoldable pub words_of : List ℕ → List Item → List ℕ
words_of hist [] = []
words_of hist ((ms, r) ∷ items) = word_of hist r ∷ words_of (history hist r) items

-- The history after it.
unfoldable pub history_after : List ℕ → List Item → List ℕ
history_after hist [] = hist
history_after hist ((ms, r) ∷ items) = history_after (history hist r) items

-- The address that the host has after it.
unfoldable pub address_of : Bool × ℕ → List Item → Bool × ℕ
address_of p [] = p
address_of p ((ms, r) ∷ items) =
    let q = arrive ms p in address_of (q.0, u32 (q.1 + inc_of (goes_on r) * 4)) items

-- The device refers to words that it has sent, and the marks are well formed.
unfoldable pub IsAnswer : List ℕ → List Item → Type 0
IsAnswer hist [] = Unit {0}
IsAnswer hist ((ms, r) ∷ items) = IsSent hist r × All IsMark ms × IsAnswer (history hist r) items

length-address_sixes : (v : ℕ) → 1 ≤ length (map charenc (address_sixes v))
unfolding address_sixes
length-address_sixes v = ground arith

length-print_marks : (ms : List Mark) → length ms ≤ length (print_marks ms)
unfolding print_marks print_mark
length-print_marks [] = omega arith
length-print_marks (blank c ∷ ms) = omega (arith, length-print_marks ms)
length-print_marks (idle k ∷ ms) = omega (arith, length-print_marks ms)
length-print_marks (address v ∷ ms) = omega (
  arith,
  length-address_sixes v,
  length-print_marks ms,
  length-append (map charenc (address_sixes v)) (print_marks ms),
)

-- What reading all the words of an answer leaves and returns.
pub record TookAll (items : List Item) (hist rest buf : List ℕ) (s : Bus)
    (o : Outcome (List ℕ) × Bus) : Type 0 where
  pub words : o.0 ≡ ok (buf ++ words_of hist items)
  pub input : o.1.input ≡ rest
  pub addr :
      Path (Bool × ℕ) (o.1.addr_set, o.1.lastaddr) (address_of (s.addr_set, s.lastaddr) items)
  pub recalls : Recalls o.1 (history_after hist items)
  pub others : Path (List (List ℕ) × List ℕ) (o.1.arrivals, o.1.sent) (s.arrivals, s.sent)

-- The first word.
pub first-Took :
    (ms : List Mark) (r : Reply) (hist rest : List ℕ) (s : Bus)
    → IsSent hist r
    → All IsMark ms
    → Recalls s hist
    → s.input ≡ print_marks ms ++ (print r ++ rest)
    → Took r hist rest (landed ms s) (readword s)
unfolding readword
first-Took ms r hist rest s sent marks rec e =
    marks-Took r hist sent ms (length s.input) 0 rest s marks
      (omega (
        arith,
        length-print_marks ms,
        ap length e,
        length-append (print_marks ms) (print r ++ rest),
      ))
      rec e

bind-rethrow :
    (b v : ℕ) (o : Outcome ℕ × Bus) (f : ℕ → M (List ℕ))
    → o.0 ≡ ok v
    → bind (rethrow b o) f ≡ f v o.1
unfolding rethrow
bind-rethrow b v (x, s) f e = rw e refl

pair_eq : {b c : Bool} {m n : ℕ} → b ≡ c → m ≡ n → Path (Bool × ℕ) (b, m) (c, n)
pair_eq p q = rw (p, q) refl

pub read_words_step :
    (a inc n v : ℕ) (buf : List ℕ) (s : Bus)
    → (readword s).0 ≡ ok v
    → read_words a inc (suc n) buf s ≡ read_words a inc n (buf ++ v ∷ []) (readword s).1
unfolding read_words
read_words_step a inc n v buf s e =
    bind-rethrow (address_after a inc (length buf)) v (readword s)
      (λ w. read_words a inc n (buf ++ w ∷ [])) e

pub read_words-TookAll :
    (a inc : ℕ) (items : List Item) (hist rest buf : List ℕ) (s : Bus)
    → IsAnswer hist items
    → Recalls s hist
    → s.input ≡ print_items items ++ rest
    → TookAll items hist rest buf s (read_words a inc (length items) buf s)
unfolding read_words IsAnswer print_items words_of history_after address_of
read_words-TookAll a inc [] hist rest buf s h rec e = record {
  words = sym (ap ok (append-nil buf));
  input = e;
  addr = refl;
  recalls = rec;
  others = refl;
}
read_words-TookAll a inc ((ms, r) ∷ items) hist rest buf s (sent, marks, h) rec e =
    let first = first-Took ms r hist (print_items items ++ rest) s sent marks rec (
      e
      ∙ append_assoc (print_marks ms) (print r ++ print_items items) rest
      ∙ ap (λ xs. print_marks ms ++ xs) (append_assoc (print r) (print_items items) rest)) in
    let s' = (readword s).1 in
    let t =
      read_words-TookAll a inc items (history hist r) rest (buf ++ word_of hist r ∷ []) s' h
        first.recalls first.input in
    rw (read_words_step a inc (length items) (word_of hist r) buf s first.word) (record {
      words =
          t.words
          ∙ ap ok (append_assoc buf (word_of hist r ∷ []) (words_of (history hist r) items));
      input = t.input;
      addr =
          t.addr
          ∙ ap (λ (p : Bool × ℕ). address_of p items)
              (pair_eq (ap (λ (p : Bool × List (List ℕ) × List ℕ). p.0) first.others) first.addr);
      recalls = t.recalls;
      others = t.others ∙ ap (λ (p : Bool × List (List ℕ) × List ℕ). (p.1, p.2)) first.others;
    })
