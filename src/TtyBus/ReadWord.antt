-- ===== src/TtyBus/ReadWord.antt =====
-- `readword` (sw/host/ttybus.cpp) against what the device sends.
use zipversa.Base.{
  ℕ, zero, suc, ◌+◌, ◌-◌, ◌*◌, ◌/◌, ◌%◌, ◌^◌, ◌≤◌, ◌<◌, ◌≡◌, refl, arith, Bool, true, false,
}
use zipversa.Base.{List, [], ◌∷◌, map, length, get_or, All, if◌then◌else◌, ◌==◌, ap, sym, ◌∙◌}
use zipversa.Base.Bits.{u32}
use zipversa.TtyBus.Code.{charenc, chardec-charenc, shift_in_lem}
use zipversa.TtyBus.State.{Bus, Outcome, ok, update, bind}
use zipversa.TtyBus.Read.{collect, read_code, table_value, long_index, raw_value}
use zipversa.TtyBus.Read.{take_raw, data_value, is_address, readword_loop}
use zipversa.TtyBus.ReadCodes.{IsClean}
use zipversa.TtyBus.Collect.{past, lclreadcode_front}
use zipversa.TtyBus.Reply.{Reply, whole, far, sixes, print, word_of, history, goes_on, inc_of}

-- The host's table holds the history, counted back from where it is written next.
pub record Recalls (s : Bus) (hist : List ℕ) : Type 0 where
  pub place : s.rdaddr < 1024
  pub same :
      (d : ℕ)
      → 1 ≤ d
      → d < 1024
      → d ≤ length hist
      → s.readtbl ((s.rdaddr + 1024 - d) % 1024) ≡ get_or hist (d - 1) 0

-- A word sent whole enters the table and the history.
pub Recalls-push :
    (v : ℕ) (s : Bus) (hist : List ℕ)
    → Recalls s hist
    → Recalls
        (record s { readtbl = update s.readtbl s.rdaddr v; rdaddr = (s.rdaddr + 1) % 1024 })
        (v ∷ hist)
Recalls-push v s hist r = record { place = omega arith; same = λ d. shifted d }
  where
    shifted :
        (d : ℕ)
        → 1 ≤ d
        → d < 1024
        → d ≤ length (v ∷ hist)
        → update s.readtbl s.rdaddr v (((s.rdaddr + 1) % 1024 + 1024 - d) % 1024)
          ≡ get_or (v ∷ hist) (d - 1) 0
    shifted zero h1 h2 h3 = absurd (omega arith)
    shifted (suc zero) h1 h2 h3 = ground (arith, r.place)
    shifted (suc (suc d)) h1 h2 h3 = ground (arith, r.place, r.same (suc d))

pub charenc-IsClean : (xs : List ℕ) → All (λ v. v < 64) xs → IsClean (map charenc xs)
charenc-IsClean [] h = tt
charenc-IsClean (x ∷ xs) (h, hs) = (ground (arith, chardec-charenc x h), charenc-IsClean xs hs)

pub raw_value_codes : (b : Bool) (v : ℕ) → v < 2 ^ 32 → raw_value (print (whole b v)) ≡ v
unfolding raw_value print sixes
raw_value_codes b v h =
    let top = 56 + v / 2 ^ 30 * 2 + inc_of b in
    let r0 = v / 2 ^ 30 in
    let r1 = r0 * 64 + v / 2 ^ 24 % 64 in
    let r2 = r1 * 64 + v / 2 ^ 18 % 64 in
    let r3 = r2 * 64 + v / 2 ^ 12 % 64 in
    let r4 = r3 * 64 + v / 2 ^ 6 % 64 in
    let first : top / 2 % 4 ≡ r0 = ground arith in
    rw
      (
        chardec-charenc top (ground arith),
        first,
        shift_in_lem r0 (v / 2 ^ 24 % 64) (omega arith) (omega arith),
        shift_in_lem r1 (v / 2 ^ 18 % 64) (omega arith) (omega arith),
        shift_in_lem r2 (v / 2 ^ 12 % 64) (omega arith) (omega arith),
        shift_in_lem r3 (v / 2 ^ 6 % 64) (omega arith) (omega arith),
        shift_in_lem r4 (v % 64) (omega arith) (omega arith),
      )
      (omega arith)

pub long_index_codes : (b : Bool) (d : ℕ) → 10 ≤ d → d ≤ 521 → long_index (print (far b d)) ≡ d
unfolding print sixes
long_index_codes b d h1 h2 =
    ground
      (arith, chardec-charenc (16 + (d - 10) / 64 * 2 + inc_of b), chardec-charenc ((d - 10) % 64))

pub read_code_front :
    (fuel h : ℕ) (rest : List ℕ) (s : Bus)
    → h < 64
    → s.input ≡ charenc h ∷ rest
    → read_code (suc fuel) s ≡ (ok (charenc h), past 1 rest s)
unfolding read_code
read_code_front fuel h rest s hh e =
    rw (lclreadcode_front (charenc h) [] rest s e (charenc-IsClean (h ∷ []) (hh, tt))) refl

-- The first character of a data codeword ends the loop of `readword`.
pub readword_data :
    (fuel val h : ℕ) (rest : List ℕ) (s : Bus)
    → 6 ≤ h
    → h < 64
    → is_address h ≡ false
    → s.input ≡ charenc h ∷ rest
    → readword_loop (suc fuel) val s ≡ data_value h (charenc h) val (past 1 rest s)
unfolding readword_loop
readword_data fuel val h rest s h1 h2 n e =
    rw (read_code_front (length s.input) h rest s h2 e, chardec-charenc h h2) (ground arith)

-- What `readword` leaves, and returns.
pub record Took (r : Reply) (hist rest : List ℕ) (s : Bus) (o : Outcome ℕ × Bus) : Type 0 where
  pub word : o.0 ≡ ok (word_of hist r)
  pub input : o.1.input ≡ rest
  pub addr : o.1.lastaddr ≡ u32 (s.lastaddr + inc_of (goes_on r) * 4)
  pub recalls : Recalls o.1 (history hist r)
  pub others :
      Path
        (Bool × List (List ℕ) × List ℕ)
        (o.1.addr_set, o.1.arrivals, o.1.sent)
        (s.addr_set, s.arrivals, s.sent)

pub step_eq :
    (sixbits : ℕ) (b : Bool) (s : Bus)
    → sixbits % 2 ≡ inc_of b
    → u32 (s.lastaddr + (if sixbits % 2 == 1 then 4 else 0)) ≡ u32 (s.lastaddr + inc_of b * 4)
step_eq sixbits b s par = ground arith

-- A reference into the table.
pub table_value-Took :
    (b : Bool) (sixbits d n : ℕ) (r : Reply) (hist rest : List ℕ) (s : Bus)
    → 1 ≤ d
    → d < 1024
    → d ≤ length hist
    → Recalls s hist
    → sixbits % 2 ≡ inc_of b
    → goes_on r ≡ b
    → word_of hist r ≡ get_or hist (d - 1) 0
    → history hist r ≡ hist
    → Took r hist rest s (table_value sixbits d (record s { input = rest; total_nread = n }))
unfolding table_value
table_value-Took b sixbits d n r hist rest s h1 h2 h3 rec par on word same = record {
  word = ap ok (rec.same d h1 h2 h3 ∙ sym word);
  input = refl;
  addr = rw on (step_eq sixbits b s par);
  recalls = rw same (record { place = rec.place; same = rec.same });
  others = refl;
}

-- The first six bits of a codeword start data, of its kind.
pub heads :
    (b : Bool)
    → (is_address (6 + inc_of b) ≡ false)
      × ((k : ℕ) → k < 8 → is_address (32 + k * 2 + inc_of b) ≡ false)
      × ((k : ℕ) → k < 8 → is_address (16 + k * 2 + inc_of b) ≡ false)
      × ((k : ℕ) → k < 4 → is_address (56 + k * 2 + inc_of b) ≡ false)
heads b = (ground arith, λ k h. ground arith, λ k h. ground arith, λ k h. ground arith)

pub again_data :
    (b : Bool) (val c : ℕ) (s : Bus)
    → data_value (6 + inc_of b) c val s ≡ table_value (6 + inc_of b) 1 s
unfolding data_value
again_data b val c s = ground arith

pub near_data :
    (b : Bool) (k val c : ℕ) (s : Bus)
    → k < 8
    → data_value (32 + k * 2 + inc_of b) c val s ≡ table_value (32 + k * 2 + inc_of b) (k + 2) s
unfolding data_value
near_data b k val c s h =
    let x = 32 + k * 2 + inc_of b in
    let f0 : (x / 2 == 3) ≡ false = ground arith in
    let f1 : (x / 16 == 1) ≡ false = ground arith in
    let f2 : (x / 16 == 2) ≡ true = ground arith in
    let g : x / 2 % 8 ≡ k = ground arith in rw (f0, f1, f2, g) refl

pub far_data :
    (b : Bool) (k val c : ℕ) (s : Bus)
    → k < 8
    → data_value (16 + k * 2 + inc_of b) c val s
      ≡ bind (collect 2 (c ∷ []) s) (λ buf. table_value (16 + k * 2 + inc_of b) (long_index buf))
unfolding data_value
far_data b k val c s h =
    let x = 16 + k * 2 + inc_of b in
    let f0 : (x / 2 == 3) ≡ false = ground arith in
    let f1 : (x / 16 == 1) ≡ true = ground arith in rw (f0, f1) refl

pub whole_data :
    (b : Bool) (k val c : ℕ) (s : Bus)
    → k < 4
    → data_value (56 + k * 2 + inc_of b) c val s
      ≡ bind (collect 6 (c ∷ []) s) (λ buf. take_raw (56 + k * 2 + inc_of b) (raw_value buf))
unfolding data_value
whole_data b k val c s h =
    let x = 56 + k * 2 + inc_of b in
    let f0 : (x / 2 == 3) ≡ false = ground arith in
    let f1 : (x / 16 == 1) ≡ false = ground arith in
    let f2 : (x / 16 == 2) ≡ false = ground arith in
    let f3 : (x / 8 == 7) ≡ true = ground arith in rw (f0, f1, f2, f3) refl
