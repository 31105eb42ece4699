-- ===== src/TtyBus/ReadReplies.antt =====
-- `readword` (sw/host/ttybus.cpp) on each of the device's replies, and on a sequence of them.
use zipversa.Base.{ℕ, suc, ◌+◌, ◌-◌, ◌*◌, ◌/◌, ◌%◌, ◌^◌, ◌≤◌, ◌<◌, ◌≡◌, refl, arith, Bool}
use zipversa.Base.{List, [], ◌∷◌, ◌++◌, map, length}
use zipversa.TtyBus.Code.{charenc}
use zipversa.TtyBus.State.{Bus}
use zipversa.TtyBus.Read.{take_raw, readword_loop}
use zipversa.TtyBus.Collect.{past, collect_front}
use zipversa.TtyBus.Reply.{
  Reply, whole, again, near, far, sixes, print, word_of, history, goes_on, IsSent, inc_of,
}
use zipversa.TtyBus.ReadWord.{
  Recalls, Took, readword_data, table_value-Took, again_data, near_data, far_data,
}
use zipversa.TtyBus.ReadWord.{
  whole_data, heads, charenc-IsClean, raw_value_codes, long_index_codes, Recalls-push, step_eq,
}

again-Took :
    (fuel val : ℕ) (b : Bool) (hist rest : List ℕ) (s : Bus)
    → 1 ≤ length hist
    → Recalls s hist
    → s.input ≡ charenc (6 + inc_of b) ∷ rest
    → Took (again b) hist rest s (readword_loop (suc fuel) val s)
unfolding word_of history goes_on
again-Took fuel val b hist rest s h rec e =
    rw
      (
        readword_data fuel val (6 + inc_of b) rest s (omega arith) (ground arith) (heads b).0 e,
        again_data b val _ (past 1 rest s),
      )
      (table_value-Took b (6 + inc_of b) 1 _ (again b) hist rest s (omega arith) (omega arith) h rec
        (ground arith) refl refl refl)

near-Took :
    (fuel val : ℕ) (b : Bool) (d : ℕ) (hist rest : List ℕ) (s : Bus)
    → IsSent hist (near b d)
    → Recalls s hist
    → s.input ≡ charenc (32 + (d - 2) * 2 + inc_of b) ∷ rest
    → Took (near b d) hist rest s (readword_loop (suc fuel) val s)
unfolding word_of history goes_on
near-Took fuel val b d hist rest s (h1, h2, h3) rec e =
    let x = 32 + (d - 2) * 2 + inc_of b in
    let back : d - 2 + 2 ≡ d = omega arith in
    rw
      (
        readword_data fuel val x rest s (ground arith) (ground arith)
            ((heads b).1 (d - 2) (omega arith)) e,
        near_data b (d - 2) val (charenc x) (past 1 rest s) (omega arith),
        back,
      )
      (table_value-Took b x d _ (near b d) hist rest s (omega arith) (omega arith) h3 rec
        (ground arith) refl refl refl)

far-Took :
    (fuel val : ℕ) (b : Bool) (d : ℕ) (hist rest : List ℕ) (s : Bus)
    → IsSent hist (far b d)
    → Recalls s hist
    → s.input ≡ print (far b d) ++ rest
    → Took (far b d) hist rest s (readword_loop (suc fuel) val s)
unfolding word_of history goes_on print sixes
far-Took fuel val b d hist rest s (h1, h2, h3) rec e =
    let k = (d - 10) / 64 in
    let x = 16 + k * 2 + inc_of b in
    let y = (d - 10) % 64 in
    let k8 : k < 8 = omega arith in
    let clean = charenc-IsClean (y ∷ []) (omega arith, tt) in
    rw
      (
        readword_data fuel val x (charenc y ∷ rest) s (ground arith) (ground arith)
            ((heads b).2 k k8) e,
        far_data b k val (charenc x) (past 1 (charenc y ∷ rest) s) k8,
        collect_front 2 (charenc x ∷ []) (charenc y) [] rest (past 1 (charenc y ∷ rest) s) refl
            clean (omega arith),
        long_index_codes b d h1 h2,
      )
      (table_value-Took b x d _ (far b d) hist rest s (omega arith) (omega arith) h3 rec
        (ground arith) refl refl refl)

whole-Took :
    (fuel val : ℕ) (b : Bool) (v : ℕ) (hist rest : List ℕ) (s : Bus)
    → v < 2 ^ 32
    → Recalls s hist
    → s.input ≡ print (whole b v) ++ rest
    → Took (whole b v) hist rest s (readword_loop (suc fuel) val s)
unfolding word_of history goes_on print sixes take_raw
whole-Took fuel val b v hist rest s h rec e =
    let k = v / 2 ^ 30 in
    let k4 : k < 4 = omega arith in
    let x = 56 + k * 2 + inc_of b in
    let sixes5 =
      (v / 2 ^ 24 % 64)
      ∷ (v / 2 ^ 18 % 64)
      ∷ (v / 2 ^ 12 % 64)
      ∷ (v / 2 ^ 6 % 64)
      ∷ (v % 64)
      ∷ [] in
    let tail = map charenc sixes5 in
    let clean =
      charenc-IsClean sixes5
        (omega arith, (omega arith, (omega arith, (omega arith, (omega arith, tt))))) in
    rw
      (
        readword_data fuel val x (tail ++ rest) s (ground arith) (ground arith) ((heads b).3 k k4)
            e,
        whole_data b k val (charenc x) (past 1 (tail ++ rest) s) k4,
        collect_front 6 (charenc x ∷ []) _
            (map charenc ((v / 2 ^ 18 % 64) ∷ (v / 2 ^ 12 % 64) ∷ (v / 2 ^ 6 % 64) ∷ (v % 64) ∷ []))
            rest (past 1 (tail ++ rest) s) refl clean (omega arith),
        raw_value_codes b v h,
      )
      (record {
        word = refl;
        input = refl;
        addr = step_eq x b s (ground arith);
        recalls = let r = Recalls-push v s hist rec in record { place = r.place; same = r.same };
        others = refl;
      })

-- When a reply is at the front of the input, the table holds the history that the device refers to, and
-- the device refers only to words that it has sent: `readword` returns the reply's word, takes exactly
-- the reply from the input, moves the address on if the reply says so, and the table holds the
-- history after it.
pub readword_loop-Took :
    (fuel val : ℕ) (r : Reply) (hist rest : List ℕ) (s : Bus)
    → IsSent hist r
    → Recalls s hist
    → s.input ≡ print r ++ rest
    → Took r hist rest s (readword_loop (suc fuel) val s)
unfolding print sixes
readword_loop-Took fuel val (whole b v) hist rest s h rec e =
    whole-Took fuel val b v hist rest s h rec e
readword_loop-Took fuel val (again b) hist rest s h rec e =
    again-Took fuel val b hist rest s h rec e
readword_loop-Took fuel val (near b d) hist rest s h rec e =
    near-Took fuel val b d hist rest s h rec e
readword_loop-Took fuel val (far b d) hist rest s h rec e =
    far-Took fuel val b d hist rest s h rec e
