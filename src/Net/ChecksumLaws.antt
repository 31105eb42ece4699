-- ===== src/Net/ChecksumLaws.antt =====
-- `ipcksum` (sw/rv32/ipcksum.c) verifies what it was computed for.
use zipversa.Base.{ℕ, zero, suc, ◌+◌, ◌-◌, ◌*◌, ◌%◌, ◌^◌, ◌≤◌, ◌<◌, ◌≡◌, ◌≢◌, refl, arith, true}
use zipversa.Base.{ltb, ap, sym, ◌∙◌}
use zipversa.Base.Bits.{u32}
use zipversa.Net.Checksum.{sum_loop, fold_loop, ipcksum}

-- The folded sum has 16 bits, the remainder by 0xffff of the sum, and is 0 just for 0.
pub fold_loop_lem :
    (s : ℕ)
    → s < 2 ^ 32
    → (fold_loop 3 s < 2 ^ 16) × (fold_loop 3 s % 0xffff ≡ s % 0xffff) × (1 ≤ s → 1 ≤ fold_loop 3 s)
unfolding fold_loop
fold_loop_lem s h = ground arith

-- The sum of the 16-bit words from index `i` on, so many of them.
unfoldable pub words_from : ℕ → ℕ → (ℕ → ℕ) → ℕ
words_from zero i f = 0
words_from (suc n) i f = f i * 2 ^ 8 + f (i + 1) + words_from n (i + 2) f

-- A sum that does not overflow.
sum_loop_lem :
    (n fuel i s : ℕ) (f : ℕ → ℕ)
    → n ≤ fuel
    → s + words_from n i f < 2 ^ 32
    → sum_loop fuel i (i + n * 2) f s ≡ s + words_from n i f
unfolding sum_loop words_from
sum_loop_lem zero zero i s f h small = omega arith
sum_loop_lem zero (suc fuel) i s f h small = ground arith
sum_loop_lem (suc n) zero i s f h small = absurd (omega arith)
sum_loop_lem (suc n) (suc fuel) i s f h small =
    let e : i + suc n * 2 ≡ i + 2 + n * 2 = omega arith in
    let ih =
      sum_loop_lem n fuel (i + 2) (s + f i * 2 ^ 8 + f (i + 1)) f (omega arith) (omega arith) in
    let lt : ltb i (i + suc n * 2) ≡ true = ground arith in
    let m : u32 (s + f i * 2 ^ 8 + f (i + 1)) ≡ s + f i * 2 ^ 8 + f (i + 1) = omega arith in
    rw (lt, m, e, ih) (omega arith)

ipcksum_words :
    (n : ℕ) (f : ℕ → ℕ)
    → words_from n 0 f < 2 ^ 32
    → ipcksum (n * 2) f ≡ 0xffff - fold_loop 3 (words_from n 0 f)
unfolding ipcksum
ipcksum_words n f h =
    let e : 0 + n * 2 ≡ n * 2 = omega arith in
    let s = sum_loop_lem n (n * 2) 0 0 f (omega arith) (omega arith) in
    ap (λ t. 0xffff - fold_loop 3 t) (ap (λ m. sum_loop (n * 2) 0 m f 0) (sym e) ∙ s ∙ omega arith)

words_bound : (n i : ℕ) (f : ℕ → ℕ) → ((j : ℕ) → f j < 256) → words_from n i f ≤ n * 0xffff
unfolding words_from
words_bound zero i f b = omega arith
words_bound (suc n) i f b = omega (arith, words_bound n (i + 2) f b, b i, b (i + 1))

words_same :
    (n i : ℕ) (f g : ℕ → ℕ)
    → ((j : ℕ) → i ≤ j → j < i + n * 2 → g j ≡ f j)
    → words_from n i g ≡ words_from n i f
unfolding words_from
words_same zero i f g h = refl
words_same (suc n) i f g h = omega (
  arith,
  words_same n (i + 2) f g (λ j q r. h j (omega arith) (omega arith)),
  h i (omega arith) (omega arith),
  h (i + 1) (omega arith) (omega arith),
)

-- The words after a checksum `c` is put at the index `m`, where two bytes were 0.
words_put :
    (n i k m c : ℕ) (f g : ℕ → ℕ)
    → k < n
    → m ≡ i + k * 2
    → f m ≡ 0
    → f (m + 1) ≡ 0
    → g m * 2 ^ 8 + g (m + 1) ≡ c
    → ((j : ℕ) → j < i + n * 2 → j ≢ m → j ≢ m + 1 → g j ≡ f j)
    → words_from n i g ≡ words_from n i f + c
unfolding words_from
words_put zero i k m c f g h e z0 z1 put same = absurd (omega arith)
words_put (suc n) i zero m c f g h e z0 z1 put same =
    let mi : m ≡ i = omega arith in
    omega (
      arith,
      ap f mi,
      ap g mi,
      ap (λ j. f (j + 1)) mi,
      ap (λ j. g (j + 1)) mi,
      words_same n (i + 2) f g
          (λ j q lt. same j (omega arith) (λ r. omega arith) (λ r. omega arith)),
    )
words_put (suc n) i (suc k) m c f g h e z0 z1 put same = omega (
  arith,
  words_put n (i + 2) k m c f g (omega arith) (omega arith) z0 z1 put
      (λ j lt. same j (omega arith)),
  same i (omega arith) (λ r. omega arith) (λ r. omega arith),
  same (i + 1) (omega arith) (λ r. omega arith) (λ r. omega arith),
)

-- When `n` words of bytes, 0x8000 at most and not all of them zero, have a zero word at an even index,
-- and the checksum over them is put there: the checksum over them is then 0. (With more words the sum
-- can pass 32 bits.)
pub ipcksum_verifies :
    (n k : ℕ) (f g : ℕ → ℕ)
    → k < n
    → n ≤ 0x8000
    → ((j : ℕ) → f j < 256)
    → 1 ≤ words_from n 0 f
    → f (k * 2) ≡ 0
    → f (k * 2 + 1) ≡ 0
    → g (k * 2) * 2 ^ 8 + g (k * 2 + 1) ≡ ipcksum (n * 2) f
    → ((j : ℕ) → j < n * 2 → j ≢ k * 2 → j ≢ k * 2 + 1 → g j ≡ f j)
    → ipcksum (n * 2) g ≡ 0
ipcksum_verifies n k f g h hn b pos z0 z1 put same =
    let s = words_from n 0 f in
    let small : s < 2 ^ 32 = omega (arith, words_bound n 0 f b) in
    let c = ipcksum (n * 2) f in
    let ec : c ≡ 0xffff - fold_loop 3 s = ipcksum_words n f small in
    let new : words_from n 0 g ≡ s + c =
      words_put n 0 k (k * 2) c f g h (omega arith) z0 z1 put (λ j lt. same j (omega arith)) in
    let (l1, m1, p1) = fold_loop_lem s small in
    let s2 : s + c < 2 ^ 32 = omega (arith, words_bound n 0 f b, ec) in
    let (l2, m2, p2) = fold_loop_lem (s + c) s2 in
    ipcksum_words n g (omega (arith, new, s2))
    ∙ ap (λ t. 0xffff - fold_loop 3 t) new
    ∙ omega (arith, l1, m1, p1, l2, m2, p2, ec)

pub ipcksum_lt : (len : ℕ) (f : ℕ → ℕ) → ipcksum len f < 2 ^ 16
unfolding ipcksum
ipcksum_lt len f = omega arith
