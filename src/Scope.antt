-- ===== src/Scope.antt =====
-- Class SCOPE of sw/host/scopecls.cpp: the length of a scope, reading its memory, and its trace.
pub mod Trace
pub mod Expanded
use zipversa.Base.{ℕ, zero, suc, ◌+◌, ◌-◌, ◌*◌, ◌/◌, ◌%◌, ◌^◌, Bool, true, false, not, ◌&&◌, ◌||◌}
use zipversa.Base.{
  if◌then◌else◌, ltb, leb, ◌==◌, bit_and, List, [], ◌∷◌, Option, none, some, length,
}
use zipversa.Base.Bits.{u32, shr, low_bits}
use zipversa.TtyBus.State.{Outcome, ok}
use zipversa.DevBus.{DevBus, Act, after, read_each}

-- A wire of the data word: its key and its place.
pub record TraceInfo : Type 0 where
  pub name : List ℕ
  pub key : ℕ × ℕ
  pub nbits : ℕ
  pub nshift : ℕ

-- `samples` is `m_data`, where it is allocated.
pub record Scope : Type 0 where
  pub addr : ℕ
  pub compressed : Bool
  pub vector_read : Bool
  pub scop_len : ℕ
  pub holdoff : ℕ
  pub samples : Option (List ℕ)
  pub traces : List TraceInfo

unfoldable pub new : ℕ → Bool → Bool → Scope
new addr compressed vector_read = record {
  addr = addr;
  compressed = compressed;
  vector_read = vector_read;
  scop_len = 0;
  holdoff = 0;
  samples = none;
  traces = [];
}

-- A method, on the scope and what is behind the bus.
abbrev pub Method : Type 0 → Type 0 → Type 0
Method S A = Act (Scope × S) A

unfoldable pub ready : {S : Type 0} → DevBus S → Method S Bool
ready b (c, s) =
    after (b.readio c.addr s) (λ t. (c, t))
      λ v t.
        let c' =
          if c.scop_len == 0
          then record c { scop_len = 2 ^ low_bits (shr v 20) 5; holdoff = low_bits v 20 }
          else c in
        (ok (bit_and (shr v 28) 6 == 6), (c', t))

unfoldable pub scoplen : {S : Type 0} → DevBus S → Method S ℕ
scoplen b (c, s) =
    if not (c.scop_len == 0)
    then (ok c.scop_len, (c, s))
    else after (b.readio c.addr s) (λ t. (c, t))
        λ v t.
          let lgln = low_bits (shr v 20) 5 in
          let len = if lgln == 0 then 0 else 2 ^ lgln in
          (ok len, (record c { scop_len = len; holdoff = low_bits v 20 }, t))

-- `scoplen() <= 4`, as a signed number.
abbrev pub too_short : ℕ → Bool
too_short n = leb n 4 || leb (2 ^ 31) n

unfoldable pub fetch : {S : Type 0} → DevBus S → Scope → Act S (List ℕ)
fetch b c =
    if c.vector_read
    then b.readz (u32 (c.addr + 4)) c.scop_len
    else read_each b (u32 (c.addr + 4)) c.scop_len

-- `junk` is what the memory of `m_data` holds when the reading does not come to its end.
unfoldable pub read_data : {S : Type 0} → List ℕ → DevBus S → Method S (Unit {0})
read_data junk b (c, s) =
    let c' = record c { samples = some junk } in
    if too_short c.scop_len
    then (ok tt, (c, s))
    else after (fetch b c s) (λ t. (c', t)) λ d t. (ok tt, (record c { samples = some d }, t))

unfoldable pub rawread : {S : Type 0} → List ℕ → DevBus S → Method S (Unit {0})
rawread junk b (c, s) = elim c.samples [
  | some d ↦ (ok tt, (c, s))
  | none ↦ after (scoplen b (c, s)) (λ t. t) λ n t. read_data junk b t
]

-- The words read; of a scope that is too short none are, and a loop over them would read no memory of
-- the program's.
abbrev pub words : Scope → List ℕ
words c = elim c.samples [ some d ↦ d | none ↦ [] ]

abbrev pub is_gap : ℕ → Bool
is_gap w = leb (2 ^ 31) w

-- The loop of `getaddresslen`, behind the first word.
unfoldable pub gaps : List ℕ → ℕ → ℕ
gaps [] alen = alen
gaps (w ∷ ws) alen = gaps ws (if is_gap w then u32 (alen + low_bits w 31) else alen)

abbrev pub rest : List ℕ → List ℕ
rest [] = []
rest (w ∷ ws) = ws

unfoldable pub getaddresslen : Scope → ℕ
getaddresslen c = if c.compressed then gaps (rest (words c)) c.scop_len else c.scop_len

-- `alen - m_holdoff - 1`, as the 32 bits of an `int`.
unfoldable pub trigger_offset : Scope → ℕ
unfolding getaddresslen
trigger_offset c = u32 (getaddresslen c + 2 ^ 33 - c.holdoff - 1)

-- A line of `print`: a sample with its address, and whether it is marked as the trigger, the length of
-- a gap, or the stars in place of samples that are the same.
pub data Line : Type 0 where
  sample : ℕ → ℕ → Bool → Line
  gap : ℕ → Line
  stars : Line

unfoldable pub print_compressed : ℕ → ℕ → List ℕ → List Line
print_compressed offset addrv [] = []
print_compressed offset addrv (w ∷ ws) =
    let here =
      if is_gap w then gap (low_bits w 31) else sample addrv w (u32 (addrv + 1) == offset) in
    here ∷ print_compressed offset (if is_gap w then addrv + low_bits w 31 + 1 else addrv + 1) ws

-- The loop at the index `i`, with the words before and the one before that.
unfoldable pub print_plain : ℕ → ℕ → ℕ → ℕ → List ℕ → List Line
print_plain offset i prev before [] = []
print_plain offset i prev before (w ∷ ws) =
    let lines = print_plain offset (i + 1) w prev ws in
    let last = leb (length ws) 0 in
    if ltb 0 i && w == prev && not last
    then if ltb 2 i && not (w == before) then stars ∷ lines else lines
    else sample i w (i == offset) ∷ lines

unfoldable pub lines_of : Scope → List Line
lines_of c =
    if c.compressed
    then print_compressed (trigger_offset c) 0 (words c)
    else print_plain (trigger_offset c) 0 0 0 (words c)

unfoldable pub print : {S : Type 0} → List ℕ → DevBus S → Method S (List Line)
print junk b s = after (rawread junk b s) (λ t. t) λ _ (c, t). (ok (lines_of c), (c, t))
