-- ===== src/MemSim/Lanes.antt =====
-- Writes through the byte lanes of MEMSIM::apply.
use zipversa.Base.{ℕ, ◌+◌, ◌-◌, ◌*◌, ◌^◌, ◌<◌, ◌≡◌, refl, arith}
use zipversa.Base.{Bool, true, false, if◌then◌else◌, ◌==◌, bit_and, bit_or, Bool-cases, inl, inr}
use zipversa.Base.Bits.{
  bit_and_fields, bit_or_pairs, bit_and_mask, bit_and-zero, bit_or-zero, zero-bit_or,
}
use zipversa.MemSim.{lane, lanes, merge}

abbrev pub word : ℕ → ℕ → ℕ → ℕ → ℕ
word a b c d = ((a * 2 ^ 8 + b) * 2 ^ 8 + c) * 2 ^ 8 + d

-- The mask of one byte.
abbrev full : Bool → ℕ
full k = if k then 0xff else 0

lanes-word :
    (sel : ℕ)
    → lanes sel
      ≡ word (full (lane sel 3)) (full (lane sel 2)) (full (lane sel 1)) (full (lane sel 0))
unfolding lanes
lanes-word sel = ground arith

and_full : (k : Bool) (a : ℕ) → a < 256 → bit_and a (full k) ≡ (if k then a else 0)
and_full true a h = rw (bit_and_mask 8 a) (omega arith)
and_full false a h = bit_and-zero a

and_word :
    (a b c d x y z w : ℕ)
    → (b < 256) × (c < 256) × (d < 256) × (y < 256) × (z < 256) × (w < 256)
    → bit_and (word a b c d) (word x y z w)
      ≡ word (bit_and a x) (bit_and b y) (bit_and c z) (bit_and d w)
and_word a b c d x y z w (hb, hc, hd, hy, hz, hw) = rw (
  bit_and_fields 8 ((a * 2 ^ 8 + b) * 2 ^ 8 + c) d ((x * 2 ^ 8 + y) * 2 ^ 8 + z) w hd hw,
  bit_and_fields 8 (a * 2 ^ 8 + b) c (x * 2 ^ 8 + y) z hc hz,
  bit_and_fields 8 a b x y hb hy,
)

or_word :
    (a b c d x y z w : ℕ)
    → (b < 256) × (c < 256) × (d < 256) × (y < 256) × (z < 256) × (w < 256)
    → bit_or (word a b c d) (word x y z w)
      ≡ word (bit_or a x) (bit_or b y) (bit_or c z) (bit_or d w)
or_word a b c d x y z w (hb, hc, hd, hy, hz, hw) = rw (
  bit_or_pairs 8 ((a * 2 ^ 8 + b) * 2 ^ 8 + c) d ((x * 2 ^ 8 + y) * 2 ^ 8 + z) w hd hw,
  bit_or_pairs 8 (a * 2 ^ 8 + b) c (x * 2 ^ 8 + y) z hc hz,
  bit_or_pairs 8 a b x y hb hy,
)

full_lt : (k : Bool) → full k < 256
full_lt k = ground arith

-- One byte of the merge.
abbrev pub pick : Bool → ℕ → ℕ → ℕ
pick k a x = if k then x else a

merge_byte :
    (k : Bool) (a x : ℕ)
    → a < 256
    → x < 256
    → (bit_or (bit_and a (0xff - full k)) (bit_and x (full k)) ≡ pick k a x)
      × (bit_and a (0xff - full k) < 256)
      × (bit_and x (full k) < 256)
merge_byte true a x ha hx = rw (bit_and-zero a, and_full true x hx) (zero-bit_or x, omega arith, hx)
merge_byte false a x ha hx =
    rw (and_full true a ha, bit_and-zero x) (bit_or-zero a, ha, omega arith)

-- The two masked words of the merge, byte by byte.
merge_bytes :
    (k l m n : Bool) (a b c d x y z w : ℕ)
    → (a < 256) × (b < 256) × (c < 256) × (d < 256)
    → (x < 256) × (y < 256) × (z < 256) × (w < 256)
    → bit_or
        (bit_and
          (word a b c d)
          (word (0xff - full k) (0xff - full l) (0xff - full m) (0xff - full n)))
        (bit_and (word x y z w) (word (full k) (full l) (full m) (full n)))
      ≡ word (pick k a x) (pick l b y) (pick m c z) (pick n d w)
merge_bytes k l m n a b c d x y z w (ha, hb, hc, hd) (hx, hy, hz, hw) =
    let (ka, _, _) = merge_byte k a x ha hx in
    let (lb, lb1, lb2) = merge_byte l b y hb hy in
    let (mc, mc1, mc2) = merge_byte m c z hc hz in
    let (nd, nd1, nd2) = merge_byte n d w hd hw in
    rw (
      and_word a b c d (0xff - full k) (0xff - full l) (0xff - full m) (0xff - full n)
          (hb, hc, hd, omega arith, omega arith, omega arith),
      and_word x y z w (full k) (full l) (full m) (full n)
          (hy, hz, hw, full_lt l, full_lt m, full_lt n),
      or_word _ _ _ _ _ _ _ _ (lb1, mc1, nd1, lb2, mc2, nd2),
      ka,
      lb,
      mc,
      nd,
    )

-- All lanes, and the complement of the mask.
full_lanes :
    (k l m n : Bool) (a b c d x y z w : ℕ)
    → (word (full k) (full l) (full m) (full n) == 0xffffffff) ≡ true
    → word x y z w ≡ word (pick k a x) (pick l b y) (pick m c z) (pick n d w)
full_lanes true true true true a b c d x y z w e = refl
full_lanes k l m n a b c d x y z w e = ground arith

complement :
    (k l m n : Bool)
    → 0xffffffff - word (full k) (full l) (full m) (full n)
      ≡ word (0xff - full k) (0xff - full l) (0xff - full m) (0xff - full n)
complement k l m n = ground arith

-- Of words made of four bytes: a write through the byte lanes `sel` changes the bytes whose lane
-- is set, and no other.
pub merge-lanes :
    (sel a b c d x y z w : ℕ)
    → (a < 256) × (b < 256) × (c < 256) × (d < 256)
    → (x < 256) × (y < 256) × (z < 256) × (w < 256)
    → merge (lanes sel) (word a b c d) (word x y z w)
      ≡ word
          (pick (lane sel 3) a x)
          (pick (lane sel 2) b y)
          (pick (lane sel 1) c z)
          (pick (lane sel 0) d w)
unfolding merge
merge-lanes sel a b c d x y z w (ha, hb, hc, hd) (hx, hy, hz, hw) =
    let k = lane sel 3 in
    let l = lane sel 2 in
    let m = lane sel 1 in
    let n = lane sel 0 in
    rw (lanes-word sel)
      (elim (Bool-cases (word (full k) (full l) (full m) (full n) == 0xffffffff)) [
        | inl e ↦ rw e (full_lanes k l m n a b c d x y z w e)
        | inr e ↦
            rw (e, complement k l m n)
              (merge_bytes k l m n a b c d x y z w (ha, hb, hc, hd) (hx, hy, hz, hw))
      ])
