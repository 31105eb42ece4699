-- ===== src/TtyBus/ReadMarks.antt =====
-- What the device sends between the words: line ends, idle codes and addresses (rtl/wbubus/wbuexec.v,
-- wbucompress.v), and what `readword` (sw/host/ttybus.cpp) makes of it.
use zipversa.Base.{ℕ, suc, ◌+◌, ◌/◌, ◌%◌, ◌^◌, ◌<◌, ◌≡◌, refl, arith, Bool, true, false}
use zipversa.Base.{List, [], ◌∷◌, ◌++◌, map, length, ap, ◌∙◌, ltb, leb, if◌then◌else◌}
use zipversa.Base.Bits.{shl32}
use zipversa.TtyBus.Code.{charenc, chardec-charenc}
use zipversa.TtyBus.State.{Bus, ok}
use zipversa.TtyBus.Read.{not_code, copy_codes, lclreadcode, read_code, control}
use zipversa.TtyBus.Read.{readword_loop}
use zipversa.TtyBus.ReadCodes.{skip_step, dev_read_some}
use zipversa.TtyBus.Collect.{past}
use zipversa.TtyBus.ReadWord.{read_code_front}

pub data Mark : Type 0 where
  blank : ℕ → Mark
  idle : ℕ → Mark
  address : ℕ → Mark

-- An address in as few characters as hold it.
unfoldable pub address_sixes : ℕ → List ℕ
address_sixes v =
    if ltb v (2 ^ 6)
    then 12 ∷ v ∷ []
    else if ltb v (2 ^ 12)
    then 13 ∷ (v / 2 ^ 6) ∷ (v % 64) ∷ []
    else if ltb v (2 ^ 18)
    then 14 ∷ (v / 2 ^ 12) ∷ (v / 2 ^ 6 % 64) ∷ (v % 64) ∷ []
    else if ltb v (2 ^ 24)
    then 15 ∷ (v / 2 ^ 18) ∷ (v / 2 ^ 12 % 64) ∷ (v / 2 ^ 6 % 64) ∷ (v % 64) ∷ []
    else (8 + v / 2 ^ 30)
      ∷ (v / 2 ^ 24 % 64)
      ∷ (v / 2 ^ 18 % 64)
      ∷ (v / 2 ^ 12 % 64)
      ∷ (v / 2 ^ 6 % 64)
      ∷ (v % 64)
      ∷ []

unfoldable pub print_mark : Mark → List ℕ
print_mark (blank c) = c ∷ []
print_mark (idle k) = charenc k ∷ []
print_mark (address v) = map charenc (address_sixes v)

abbrev pub IsMark : Mark → Type 0
IsMark (blank c) = not_code c ≡ true
IsMark (idle k) = k < 3
IsMark (address v) = v < 2 ^ 32

-- What the marks make of `m_addr_set` and `m_lastaddr`.
abbrev pub arrive : List Mark → Bool × ℕ → Bool × ℕ
arrive [] p = p
arrive (address v ∷ ms) p = arrive ms (true, shl32 v 2)
arrive (m ∷ ms) p = arrive ms p

unfoldable pub print_marks : List Mark → List ℕ
print_marks [] = []
print_marks (m ∷ ms) = print_mark m ++ print_marks ms

copy_none : (c : ℕ) → copy_codes 0 1 0 0 (c ∷ []) ≡ (0, c ∷ [])
unfolding copy_codes
copy_none c = refl

lclreadcode_blank :
    (c : ℕ) (rest : List ℕ) (s : Bus)
    → not_code c ≡ true
    → s.input ≡ c ∷ rest
    → lclreadcode 1 s ≡ (ok (0, c ∷ []), past 1 rest s)
unfolding lclreadcode
lclreadcode_blank c rest s b e =
    rw (dev_read_some 1 c rest s e)
      (ap (λ (p : ℕ × List ℕ). (ok p, past 1 rest s)) (skip_step 0 0 0 1 (c ∷ []) b ∙ copy_none c))

-- A character that is no code is dropped by the loop that reads one.
pub blank_step :
    (fuel val c : ℕ) (rest : List ℕ) (s : Bus)
    → not_code c ≡ true
    → s.input ≡ c ∷ rest
    → readword_loop (suc fuel) val s ≡ readword_loop (suc fuel) val (past 1 rest s)
unfolding readword_loop read_code
blank_step fuel val c rest s b e = rw (ap length e, lclreadcode_blank c rest s b e) refl

control_idle : (k : ℕ) (s : Bus) → k < 3 → control k s ≡ (ok tt, s)
unfolding control
control_idle k s h = ground arith

pub idle_step :
    (fuel val k : ℕ) (rest : List ℕ) (s : Bus)
    → k < 3
    → s.input ≡ charenc k ∷ rest
    → readword_loop (suc fuel) val s ≡ readword_loop fuel val (past 1 rest s)
unfolding readword_loop
idle_step fuel val k rest s h e =
    let f0 : leb 64 k ≡ false = ground arith in
    let f1 : ltb k 6 ≡ true = ground arith in
    rw
      (
        read_code_front (length s.input) k rest s (omega arith) e,
        chardec-charenc k (omega arith),
        f0,
        f1,
        control_idle k (past 1 rest s) h,
      )
      refl
