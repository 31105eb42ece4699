-- ===== src/Scope/Trace/Trigger.antt =====
-- The mark of the trigger in the trace file of a compressed scope (sw/host/scopecls.cpp).
use zipversa.Base.{ℕ, ◌+◌, ◌-◌, ◌^◌, suc, ◌≤◌, ◌<◌, ◌≡◌, refl, arith, Bool, true, false, ◌||◌, not}
use zipversa.Base.{
  if◌then◌else◌, ◌==◌, List, [], ◌∷◌, ◌++◌, length, All, All-append, All-if, map, ap, ◌∙◌, Option,
  none, some, Bool-cases, inl, inr,
}
use zipversa.Base.Bits.{u32, low_bits}
use zipversa.Scope.{Scope, TraceInfo, is_gap, getaddresslen, trigger_offset, words}
use zipversa.Scope.Expanded.{expand, unchanged, getaddresslen-expand, length-expand-gap}
use zipversa.Scope.Trace.{Entry, trigger, raw, write_trace, compressed_loop, plain_loop, entries}

-- An entry that does not mark the trigger.
abbrev pub Plain : Entry → Type 0
Plain (trigger n) = n ≡ 0
Plain e = Unit {0}

traces-Plain : (w : ℕ) (ts : List TraceInfo) → All Plain (map (write_trace w) ts)
unfolding write_trace
traces-Plain w [] = tt
traces-Plain w (t ∷ ts) = (tt, traces-Plain w ts)

-- While the addresses stay below the length, none of them is the one that is compared with.
loop-Plain :
    (ts : List TraceInfo) (alen holdoff : ℕ) (first : Bool) (addrv : ℕ) (last : Bool) (ws : List ℕ)
    → holdoff < alen
    → alen < 2 ^ 31
    → addrv + length (expand ws) ≤ alen
    → All Plain (compressed_loop ts alen (u32 (alen + 2 ^ 33 - holdoff - 1)) first addrv last ws)
unfolding compressed_loop raw
loop-Plain ts alen holdoff first addrv last [] h lt le = tt
loop-Plain ts alen holdoff first addrv last (w ∷ ws) h lt le = elim (Bool-cases (is_gap w)) [
  | inl g ↦
      let n = low_bits w 31 + 1 in
      let next = if first then addrv else addrv + low_bits w 31 + 1 in
      let le' : addrv + length (unchanged n ++ expand ws) ≤ alen = rw g at le in
      let bound : next + length (expand ws) ≤ alen = ground (arith, le', length-expand-gap w ws) in
      let ih = loop-Plain ts alen holdoff false next (last || false) ws h lt bound in
      rw g (All-if Plain (first || not last) _ _ ih (tt, (refl, ih)))
  | inr s ↦
      let le' : addrv + suc (length (expand ws)) ≤ alen = rw s at le in
      let apart : (u32 (addrv + 2 ^ 64 - alen) == u32 (alen + 2 ^ 33 - holdoff - 1)) ≡ false =
        ground (arith, le') in
      let ih =
        loop-Plain ts alen holdoff false (addrv + 1) (last || false) ws h lt (omega (arith, le')) in
      rw (s, apart)
        (
          tt,
          All-append Plain (if last then trigger 0 ∷ [] else []) _
              (All-if Plain last (trigger 0 ∷ []) [] (refl, tt) tt)
              (tt, All-append Plain (map (write_trace w) ts) _ (traces-Plain w ts) ih),
        )
]

-- A compressed trace that begins with a sample, of fewer than 2 ^ 31 clocks, more of them than the
-- hold-off: `writevcd` marks no clock as the trigger.
pub entries-Plain :
    (c : Scope) (w : ℕ) (ws : List ℕ)
    → c.compressed ≡ true
    → c.samples ≡ some (w ∷ ws)
    → c.scop_len ≡ suc (length ws)
    → is_gap w ≡ false
    → length (expand (w ∷ ws)) < 2 ^ 31
    → c.holdoff < length (expand (w ∷ ws))
    → All Plain (entries c)
unfolding entries trigger_offset
entries-Plain c w ws k e n s h far =
    let alen = length (expand (w ∷ ws)) in
    let off = λ (n : ℕ). u32 (n + 2 ^ 33 - c.holdoff - 1) in
    let here : entries c ≡ compressed_loop c.traces alen (off alen) true 0 true (w ∷ ws) =
      ap
        (λ b.
          if b
          then compressed_loop c.traces (getaddresslen c) (off (getaddresslen c)) true 0 true
              (words c)
          else plain_loop c.traces (off (getaddresslen c)) 0 (words c))
        k
      ∙ ap (λ m. compressed_loop c.traces m (off m) true 0 true (words c))
          (getaddresslen-expand c w ws k e n s (omega (arith, h)))
      ∙ ap
          (λ (d : Option (List ℕ)).
            compressed_loop c.traces alen (off alen) true 0 true
              (elim d [ some ws ↦ ws | none ↦ [] ]))
          e in
    rw here (loop-Plain c.traces alen c.holdoff true 0 true (w ∷ ws) far h (omega arith))
