-- ===== src/TtyBus/ReadCommand.antt =====
-- `readcmd` against the receiver.
use native.Mathlib.Decide.{dec_le}
use zipversa.Base.{◌∙◌, ℕ, ◌+◌, ◌-◌, ◌*◌, ◌/◌, ◌%◌, ◌^◌, ◌≤◌, ◌<◌, ◌≡◌, ◌≢◌, refl, arith}
use zipversa.Base.{false, [], ◌∷◌, ◌++◌, map, if◌then◌else◌, leb, ◌==◌}
use zipversa.TtyBus.Code.{charenc}
use zipversa.TtyBus.Address.{readcmd}
use zipversa.TtyBus.Receiver.{Receiver, read, cw_len, bits, exec, get, run}
use zipversa.TtyBus.Codewords.{between, after, run_codeword}

-- The first six bits of the command, without and with a second character.
abbrev short_word : ℕ → ℕ → ℕ
short_word inc len = 0x20 + (len - 1) * 2 + inc

abbrev long_word : ℕ → ℕ → ℕ
long_word inc len = 0x30 + (len - 9) / 64 * 2 + inc

readcmd_short :
    (inc len : ℕ)
    → inc ≤ 1
    → 1 ≤ len
    → len ≤ 8
    → readcmd inc len ≡ map charenc (short_word inc len ∷ [])
unfolding readcmd
readcmd_short inc len hi h1 h2 = ground arith

readcmd_long :
    (inc len : ℕ)
    → inc ≤ 1
    → 8 < len
    → len < 520
    → readcmd inc len ≡ map charenc (long_word inc len ∷ (len - 9) % 64 ∷ [])
unfolding readcmd
readcmd_long inc len hi h1 h2 = ground arith

-- The state after a read of `len` words.
abbrev pub has_read : ℕ → ℕ → Receiver → Receiver
has_read inc len r = record r {
  part = [];
  lastcw = if leb len 8 then 2 else 3;
  log = r.log ++ (read r.wb_addr (inc == 1) len ∷ []);
  wb_addr = if inc == 1 then (r.wb_addr + len) % 2 ^ 32 else r.wb_addr;
}

module _ (inc len : ℕ) (r : Receiver) (bit : inc ≤ 1) (idle : r.writing ≡ false) where
  short_parts :
      1 ≤ len
      → len ≤ 8
      → (short_word inc len % 2 ≡ inc)
        × (short_word inc len / 2 % 8 + 1 ≡ len)
        × (short_word inc len / 16 ≡ 2)
  short_parts h1 h2 = omega arith

  after_short :
      1 ≤ len → len ≤ 8 → (inc ≡ 0 → len ≢ 8) → after (short_word inc len) [] r ≡ has_read inc len r
  unfolding exec get bits
  after_short h1 h2 ne = ground (arith, short_parts)

  after_long :
      8 < len → len < 520 → after (long_word inc len) ((len - 9) % 64 ∷ []) r ≡ has_read inc len r
  unfolding exec get bits
  after_long h1 h2 = ground arith

  cw_len_short : 1 ≤ len → len ≤ 8 → 1 ≡ cw_len (short_word inc len)
  unfolding cw_len
  cw_len_short h1 h2 = ground arith

  cw_len_long : 8 < len → len < 520 → 2 ≡ cw_len (long_word inc len)
  unfolding cw_len
  cw_len_long h1 h2 = ground arith

-- A read command of 1 to 519 words makes a receiver that is not in a write request one read of
-- that many words at its address, with the increment asked for, and move its address behind them.
-- A read of eight words without increment is left out.
pub readcmd-run :
    (inc len : ℕ) (r : Receiver)
    → inc ≤ 1
    → 1 ≤ len
    → len < 520
    → (inc ≡ 0 → len ≢ 8)
    → r.writing ≡ false
    → run (readcmd inc len) (between r) ≡ has_read inc len r
readcmd-run inc len r hi h1 h2 ne idle = elim (dec_le len 8) [
  | yes short ↦ rw (readcmd_short inc len hi h1 short) (
      run_codeword (short_word inc len) [] r (omega arith) tt
        (cw_len_short inc len r hi idle h1 short)
      ∙ after_short inc len r hi idle h1 short ne)
  | no long ↦ rw (readcmd_long inc len hi (omega arith) h2) (
      run_codeword (long_word inc len) ((len - 9) % 64 ∷ []) r (omega arith) (omega arith)
        (cw_len_long inc len r hi idle (omega arith) h2)
      ∙ after_long inc len r hi idle (omega arith) h2)
]

-- A read of eight words from one address is sent as the codeword that ends a write: the receiver
-- makes no request.
pub readcmd_eight :
    (r : Receiver)
    → run (readcmd 0 8) (between r) ≡ record r { part = []; lastcw = 2; writing = false }
unfolding readcmd exec bits cw_len
readcmd_eight r = run_codeword 0x2e [] r (omega arith) tt refl
