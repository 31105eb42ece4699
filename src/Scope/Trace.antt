-- ===== src/Scope/Trace.antt =====
-- The trace file of a scope: register_trace, write_binary_trace and writevcd of sw/host/scopecls.cpp.
pub mod Digits
pub mod Trigger
use zipversa.Base.{ℕ, zero, suc, ◌+◌, ◌-◌, ◌*◌, ◌/◌, ◌%◌, ◌^◌, Bool, true, false, not, ◌&&◌, ◌||◌}
use zipversa.Base.{if◌then◌else◌, ltb, leb, ◌==◌, List, [], ◌∷◌, ◌++◌, length, map}
use zipversa.Base.Bits.{u32, shr, low_bits}
use zipversa.TtyBus.State.{Outcome, ok}
use zipversa.DevBus.{DevBus, Act, after}
use zipversa.Scope.{Scope, TraceInfo, Method, rawread, words, is_gap, getaddresslen, trigger_offset}

-- The two characters of the key of trace `nkey`.
unfoldable pub key_of : ℕ → ℕ × ℕ
key_of nkey = (
  b'v',
  if ltb nkey 26 then b'a' + nkey else if ltb nkey 52 then b'A' + nkey - 26 else b'0' + nkey - 52,
)

unfoldable pub register_trace : List ℕ → ℕ → ℕ → Scope → Scope
register_trace name nbits nshift c =
    let info : TraceInfo = record {
      name = name;
      key = key_of (length c.traces);
      nbits = nbits;
      nshift = nshift;
    } in
    record c { traces = c.traces ++ info ∷ [] }

-- What is written: a time in half clocks (its conversion to nanoseconds is floating point), the clock,
-- the trigger, or the digits of a value with its key.
pub data Entry : Type 0 where
  time : ℕ → Entry
  clock : ℕ → Entry
  trigger : ℕ → Entry
  value : ℕ × ℕ → List ℕ → Entry

-- The loop over the bits, where `n` are left.
unfoldable pub binary : ℕ → ℕ → List ℕ
binary zero val = []
binary (suc n) val = shr val n % 2 ∷ binary n val

unfoldable pub write_binary_trace : ℕ → ℕ → List ℕ
write_binary_trace nbits val =
    if leb nbits 1
    then val % 2 ∷ []
    else binary nbits (if ltb nbits 32 then low_bits val nbits else val)

unfoldable pub write_trace : ℕ → TraceInfo → Entry
write_trace w info = value info.key (write_binary_trace info.nbits (shr w info.nshift))

unfoldable pub raw : ℕ → ℕ → Entry
raw nbits w = value (39, b'R') (write_binary_trace nbits w)

-- The loop over a compressed trace. The first word makes no jump.
unfoldable pub compressed_loop : List TraceInfo → ℕ → ℕ → Bool → ℕ → Bool → List ℕ → List Entry
compressed_loop ts alen offset first addrv last_trigger [] = []
compressed_loop ts alen offset first addrv last_trigger (w ∷ ws) =
    let here = u32 (addrv + 2 ^ 64 - alen) == offset in
    let next = if is_gap w then if first then addrv else addrv + low_bits w 31 + 1 else addrv + 1 in
    let later =
      compressed_loop ts alen offset false next (last_trigger || not (is_gap w) && here) ws in
    if is_gap w
    then if first || not last_trigger then later else time (2 * (addrv + 1)) ∷ trigger 0 ∷ later
    else time (2 * addrv)
      ∷ ((if here then trigger 1 ∷ [] else if last_trigger then trigger 0 ∷ [] else [])
          ++ raw 31 w ∷ (map (write_trace w) ts ++ later))

unfoldable pub plain_loop : List TraceInfo → ℕ → ℕ → List ℕ → List Entry
plain_loop ts offset i [] = []
plain_loop ts offset i (w ∷ ws) =
    time (2 * i)
    ∷ clock 1
    ∷ raw 32 w
    ∷ trigger (if i == offset then 1 else 0)
    ∷ (map (write_trace w) ts ++ time (2 * i + 1) ∷ clock 0 ∷ plain_loop ts offset (i + 1) ws)

-- What `writevcd` writes behind the header. The traces are those that `define_traces` registered.
unfoldable pub entries : Scope → List Entry
entries c =
    if c.compressed
    then compressed_loop c.traces (getaddresslen c) (trigger_offset c) true 0 true (words c)
    else plain_loop c.traces (trigger_offset c) 0 (words c)

unfoldable pub writevcd : {S : Type 0} → List ℕ → DevBus S → Method S (List Entry)
writevcd junk b s = after (rawread junk b s) (λ t. t) λ _ (c, t). (ok (entries c), (c, t))
