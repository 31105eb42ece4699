-- ===== src/TtyBus/Codewords.antt =====
-- The receiver on whole codewords: what it does on the characters of one, by its first six bits.
use zipversa.Base.{ℕ, suc, ◌/◌, ◌^◌, ◌<◌, ◌≡◌, arith}
use zipversa.Base.{List, [], ◌∷◌, ◌++◌, map, length, length-append, All}
use zipversa.Base.{if◌then◌else◌, ◌==◌}
use zipversa.TtyBus.Code.{charenc, chardec-charenc}
use zipversa.TtyBus.Receiver.{Receiver, to_hex, to_hex-eq-chardec, cw_len, bits, exec, feed, run}
use zipversa.TtyBus.Receiver.{complete}
use mathlib.Core.List.{append_assoc}

pub to_hex-charenc : (v : ℕ) → v < 64 → to_hex (charenc v) ≡ v
to_hex-charenc v h = rw (to_hex-eq-chardec, chardec-charenc v h)

-- A receiver between two codewords, and one in the middle of a codeword.
abbrev pub between : Receiver → Receiver
between r = record r { part = [] }

abbrev amid : ℕ → List ℕ → Receiver → Receiver
amid h xs r = record r { part = h ∷ xs }

-- The receiver after the codeword `h ∷ xs`.
abbrev pub after : ℕ → List ℕ → Receiver → Receiver
after h xs r = exec h (bits xs 0) (64 ^ length xs) (record r { part = []; lastcw = h / 16 })

feed-amid :
    (h v : ℕ) (xs : List ℕ) (r : Receiver)
    → v < 64
    → feed (charenc v) (amid h xs r) ≡ (
        if length (h ∷ (xs ++ v ∷ [])) == cw_len h
        then after h (xs ++ v ∷ []) r
        else amid h (xs ++ v ∷ []) r)
unfolding feed complete
feed-amid h v xs r hv = rw (to_hex-charenc v hv) (ground arith)

run-amid :
    (h v : ℕ) (xs ys : List ℕ) (r : Receiver)
    → v < 64
    → All (λ y. y < 64) ys
    → suc (length (xs ++ v ∷ ys)) ≡ cw_len h
    → run (map charenc (v ∷ ys)) (amid h xs r) ≡ after h (xs ++ v ∷ ys) r
unfolding run
run-amid h v xs [] r hv hs e = rw (feed-amid h v xs r hv) (ground arith)
run-amid h v xs (y ∷ ys) r hv hs e = ground (
  arith,
  feed-amid h v xs r hv,
  length-append xs (v ∷ y ∷ ys),
  length-append xs (v ∷ []),
  append_assoc xs (v ∷ []) (y ∷ ys),
  run-amid h y (xs ++ v ∷ []) ys r (hs.0) (hs.1),
)

feed_first :
    (h : ℕ) (r : Receiver)
    → h < 64
    → feed (charenc h) (between r) ≡ (if 1 == cw_len h then after h [] r else amid h [] r)
unfolding feed complete
feed_first h r hh = rw (to_hex-charenc h hh) (ground arith)

-- A whole codeword: the receiver collects its characters and acts on them once.
pub run_codeword :
    (h : ℕ) (xs : List ℕ) (r : Receiver)
    → h < 64
    → All (λ y. y < 64) xs
    → suc (length xs) ≡ cw_len h
    → run (map charenc (h ∷ xs)) (between r) ≡ after h xs r
unfolding run
run_codeword h [] r hh hs e = rw (feed_first h r hh) (ground arith)
run_codeword h (x ∷ xs) r hh hs e =
    ground (arith, feed_first h r hh, run-amid h x [] xs r (hs.0) (hs.1))
