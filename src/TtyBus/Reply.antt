-- ===== src/TtyBus/Reply.antt =====
-- What the device answers to a read, as the hardware of this repository has it: the data codewords of
-- rtl/wbubus/wbuexec.v after the compression of wbucompress.v, as characters. The words sent whole
-- since the last address make up the history that the compression refers to.
use zipversa.Base.{ℕ, ◌+◌, ◌-◌, ◌*◌, ◌/◌, ◌%◌, ◌^◌, ◌≤◌, ◌<◌, Bool, if◌then◌else◌}
use zipversa.Base.{List, [], ◌∷◌, map, length, get_or}
use zipversa.TtyBus.Code.{charenc}

-- A word, with whether the address goes on: whole, the last one again, the one 2 to 9 back, or the
-- one 10 to 521 back.
pub data Reply : Type 0 where
  whole : Bool → ℕ → Reply
  again : Bool → Reply
  near : Bool → ℕ → Reply
  far : Bool → ℕ → Reply

abbrev pub inc_of : Bool → ℕ
inc_of b = if b then 1 else 0

-- The codeword in groups of six bits.
unfoldable pub sixes : Reply → List ℕ
sixes (whole b v) =
    (56 + v / 2 ^ 30 * 2 + inc_of b)
    ∷ (v / 2 ^ 24 % 64)
    ∷ (v / 2 ^ 18 % 64)
    ∷ (v / 2 ^ 12 % 64)
    ∷ (v / 2 ^ 6 % 64)
    ∷ (v % 64)
    ∷ []
sixes (again b) = (6 + inc_of b) ∷ []
sixes (near b d) = (32 + (d - 2) * 2 + inc_of b) ∷ []
sixes (far b d) = (16 + (d - 10) / 64 * 2 + inc_of b) ∷ ((d - 10) % 64) ∷ []

unfoldable pub print : Reply → List ℕ
print r = map charenc (sixes r)

-- The word, and the history after it; the newest word is first.
unfoldable pub word_of : List ℕ → Reply → ℕ
word_of hist (whole b v) = v
word_of hist (again b) = get_or hist 0 0
word_of hist (near b d) = get_or hist (d - 1) 0
word_of hist (far b d) = get_or hist (d - 1) 0

unfoldable pub history : List ℕ → Reply → List ℕ
history hist (whole b v) = v ∷ hist
history hist r = hist

unfoldable pub goes_on : Reply → Bool
goes_on (whole b v) = b
goes_on (again b) = b
goes_on (near b d) = b
goes_on (far b d) = b

-- The hardware sends a reference only to a word that it has sent.
abbrev pub IsSent : List ℕ → Reply → Type 0
IsSent hist (whole b v) = v < 2 ^ 32
IsSent hist (again b) = 1 ≤ length hist
IsSent hist (near b d) = (2 ≤ d) × (d ≤ 9) × (d ≤ length hist)
IsSent hist (far b d) = (10 ≤ d) × (d ≤ 521) × (d ≤ length hist)
