-- ===== src/TtyBus/ReadSequence.antt =====
-- `readword` (sw/host/ttybus.cpp) on the device's answer to a read: words with marks between them.
use zipversa.Base.{ℕ, zero, suc, ◌+◌, ◌/◌, ◌%◌, ◌^◌, ◌≤◌, ◌<◌, ◌≡◌, refl, arith, true}
use zipversa.Base.{List, [], ◌∷◌, ◌++◌, map, length, All, ap, ◌∙◌}
use mathlib.Core.List.{append_assoc}
use mathlib.Core.Path.{subst}
use native.Mathlib.Decide.{dec_lt}
use zipversa.Base.Bits.{shl32}
use zipversa.TtyBus.Code.{charenc}
use zipversa.TtyBus.State.{Bus}
use zipversa.TtyBus.Read.{readword_loop}
use zipversa.TtyBus.Collect.{past}
use zipversa.TtyBus.Reply.{Reply, print, IsSent}
use zipversa.TtyBus.ReadWord.{Recalls, Took}
use zipversa.TtyBus.ReadReplies.{readword_loop-Took}
use zipversa.TtyBus.ReadMarks.{
  Mark, blank, idle, address, address_sixes, print_mark, print_marks, IsMark, arrive,
}
use zipversa.TtyBus.ReadAddress.{
  Spells, one_Spells, two_Spells, three_Spells, four_Spells, five_Spells,
}
use zipversa.TtyBus.ReadMarks.{blank_step, idle_step}
use zipversa.TtyBus.ReadAddress.{address_step}

record Spelling (v : ℕ) : Type 0 where
  head : ℕ
  tail : List ℕ
  same : address_sixes v ≡ head ∷ tail
  spells : Spells head tail v

as_value : {h v w : ℕ} {xs : List ℕ} → w ≡ v → Spells h xs w → Spells h xs v
as_value {h} {v} {w} {xs} e = subst (Spells h xs) e

spelling : (v : ℕ) → v < 2 ^ 32 → Spelling v
unfolding address_sixes
spelling v h = elim (dec_lt v (2 ^ 6)) [
  | yes h1 ↦ record { head = 12; tail = v ∷ []; same = ground arith; spells = one_Spells v h1 }
  | no n1 ↦ elim (dec_lt v (2 ^ 12)) [
    | yes h2 ↦ record {
      head = 13;
      tail = (v / 2 ^ 6) ∷ (v % 64) ∷ [];
      same = ground arith;
      spells = as_value (omega arith) (two_Spells (v / 2 ^ 6) (v % 64) (omega arith) (omega arith));
    }
    | no n2 ↦ elim (dec_lt v (2 ^ 18)) [
      | yes h3 ↦ record {
        head = 14;
        tail = (v / 2 ^ 12) ∷ (v / 2 ^ 6 % 64) ∷ (v % 64) ∷ [];
        same = ground arith;
        spells = as_value (omega arith) (
            three_Spells (v / 2 ^ 12) (v / 2 ^ 6 % 64) (v % 64) (omega arith) (omega arith)
              (omega arith));
      }
      | no n3 ↦ elim (dec_lt v (2 ^ 24)) [
        | yes h4 ↦ record {
          head = 15;
          tail = (v / 2 ^ 18) ∷ (v / 2 ^ 12 % 64) ∷ (v / 2 ^ 6 % 64) ∷ (v % 64) ∷ [];
          same = ground arith;
          spells =
              as_value (omega arith) (
                four_Spells (v / 2 ^ 18) (v / 2 ^ 12 % 64) (v / 2 ^ 6 % 64) (v % 64) (omega arith));
        }
        | no n4 ↦ record {
          head = 8 + v / 2 ^ 30;
          tail =
              (v / 2 ^ 24 % 64)
              ∷ (v / 2 ^ 18 % 64)
              ∷ (v / 2 ^ 12 % 64)
              ∷ (v / 2 ^ 6 % 64)
              ∷ (v % 64)
              ∷ [];
          same = ground arith;
          spells = as_value (omega arith) (
              five_Spells (v / 2 ^ 30) (v / 2 ^ 24 % 64) (v / 2 ^ 18 % 64) (v / 2 ^ 12 % 64)
                (v / 2 ^ 6 % 64) (v % 64) (omega arith));
        }
      ]
    ]
  ]
]

-- The state as the marks leave it, for what `Took` compares.
abbrev pub landed : List Mark → Bus → Bus
landed ms s =
    let p = arrive ms (s.addr_set, s.lastaddr) in record s { addr_set = p.0; lastaddr = p.1 }

module _ (r : Reply) (hist : List ℕ) (sent : IsSent hist r) where
  -- When well-formed marks and then a reply are at the front of the input, `readword` skips the marks,
  -- takes its address from them, and reads the reply.
  pub marks-Took :
      (ms : List Mark) (fuel val : ℕ) (rest : List ℕ) (s : Bus)
      → All IsMark ms
      → length ms ≤ fuel
      → Recalls s hist
      → s.input ≡ print_marks ms ++ (print r ++ rest)
      → Took r hist rest (landed ms s) (readword_loop (suc fuel) val s)
  unfolding print_marks print_mark
  marks-Took [] fuel val rest s _ h rec e =
      let t = readword_loop-Took fuel val r hist rest s sent rec e in
      record {
        word = t.word;
        input = t.input;
        addr = t.addr;
        recalls = t.recalls;
        others = t.others;
      }
  marks-Took (m ∷ ms) zero val rest s _ h rec e = absurd (omega arith)
  marks-Took (blank c ∷ ms) (suc fuel) val rest s (hm, hs) h rec e =
      let more = print_marks ms ++ (print r ++ rest) in
      let t =
        marks-Took ms (suc fuel) val rest (past 1 more s) hs (omega arith)
          (record { place = rec.place; same = rec.same }) refl in
      rw (blank_step (suc fuel) val c more s hm e) (record {
        word = t.word;
        input = t.input;
        addr = t.addr;
        recalls = t.recalls;
        others = t.others;
      })
  marks-Took (idle k ∷ ms) (suc fuel) val rest s (hm, hs) h rec e =
      let more = print_marks ms ++ (print r ++ rest) in
      let t =
        marks-Took ms fuel val rest (past 1 more s) hs (omega arith)
          (record { place = rec.place; same = rec.same }) refl in
      rw (idle_step (suc fuel) val k more s hm e) (record {
        word = t.word;
        input = t.input;
        addr = t.addr;
        recalls = t.recalls;
        others = t.others;
      })
  marks-Took (address v ∷ ms) (suc fuel) val rest s (hm, hs) h rec e =
      let more = print_marks ms ++ (print r ++ rest) in
      let sp = spelling v hm in
      let after : Bus = record s {
        input = more;
        total_nread = s.total_nread + 1 + length sp.tail;
        addr_set = true;
        lastaddr = shl32 v 2;
      } in
      let t =
        marks-Took ms fuel v rest after hs (omega arith)
          (record { place = rec.place; same = rec.same }) refl in
      rw
        (address_step (suc fuel) val sp.head v sp.tail more s sp.spells (
          e
          ∙ ap (λ (xs : List ℕ). (map charenc xs ++ print_marks ms) ++ (print r ++ rest)) sp.same
          ∙ ap (λ (xs : List ℕ). charenc sp.head ∷ xs)
              (append_assoc (map charenc sp.tail) (print_marks ms) (print r ++ rest))))
        (record {
          word = t.word;
          input = t.input;
          addr = t.addr;
          recalls = t.recalls;
          others = t.others;
        })
