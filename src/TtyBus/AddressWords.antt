-- ===== src/TtyBus/AddressWords.antt =====
-- The receiver on each form of the address codeword that `encode_address` writes.
use zipversa.Base.{ℕ, ◌+◌, ◌*◌, ◌/◌, ◌%◌, ◌^◌, ◌≤◌, ◌<◌, ◌≡◌, ◌≢◌, ◌⊎◌, inl, inr, refl, arith}
use zipversa.Base.{◌&&◌, ◌||◌, true, false, List, [], ◌∷◌, length, leb}
use zipversa.TtyBus.Code.{charenc, encode, first_char}
use zipversa.TtyBus.Address.{encode_diff, encode_absolute}
use zipversa.TtyBus.Receiver.{Receiver, cw_len, bits, exec, run}
use zipversa.TtyBus.Codewords.{between, run_codeword}

-- The receiver between two codewords, with its address changed.
abbrev pub moved : ℕ → Receiver → Receiver
moved x r = record r { part = []; lastcw = 0; wb_addr = x }

-- An absolute encoding of at most `n` characters reaches the address.
abbrev IsCovered : ℕ → ℕ → Type 0
IsCovered x n =
    (leb x 0x3f && leb 2 n
      || (leb x 0xfff && leb 3 n)
      || (leb x 0x3ffff && leb 4 n)
      || (leb x 0xffffff && leb 5 n))
    ≡ true

IsCovered-mono : (x y n : ℕ) → x ≤ y → IsCovered y n → IsCovered x n
IsCovered-mono x y n h c = ground arith

-- The characters of a codeword that sets the address, in an idle receiver.
module _ (r : Receiver) (idle : r.writing ≡ false) where
  absolute2 : (x : ℕ) → x < 64 → run (charenc 0x08 ∷ charenc x ∷ []) (between r) ≡ moved x r
  unfolding exec bits cw_len
  absolute2 x h = rw (run_codeword 0x08 (x ∷ []) r (omega arith) (omega arith) refl) (ground arith)

  absolute3 :
      (x : ℕ)
      → x < 2 ^ 12
      → run (charenc 0x0a ∷ charenc (x / 64 % 64) ∷ charenc (x % 64) ∷ []) (between r) ≡ moved x r
  unfolding exec bits cw_len
  absolute3 x h =
      rw (run_codeword 0x0a (x / 64 % 64 ∷ x % 64 ∷ []) r (omega arith) (omega arith) refl)
        (ground arith)

  diff2 :
      (x : ℕ)
      → x < 32
      → run (charenc 0x09 ∷ charenc (x % 64) ∷ []) (between r) ≡ moved ((r.wb_addr + x) % 2 ^ 32) r
  unfolding exec bits cw_len
  diff2 x h = rw (run_codeword 0x09 (x % 64 ∷ []) r (omega arith) (omega arith) refl) (ground arith)

  absolute4 :
      (x : ℕ)
      → x < 2 ^ 18
      → run
          (charenc 0x0c ∷ charenc (x / 2 ^ 12 % 64) ∷ charenc (x / 64 % 64) ∷ charenc (x % 64) ∷ [])
          (between r)
        ≡ moved x r
  unfolding exec bits cw_len
  absolute4 x h =
      rw
        (run_codeword 0x0c (x / 2 ^ 12 % 64 ∷ x / 64 % 64 ∷ x % 64 ∷ []) r (omega arith)
          (omega arith) refl)
        (ground arith)

  absolute5 :
      (x : ℕ)
      → x < 2 ^ 24
      → run
          (charenc 0x0e
            ∷ charenc (x / 2 ^ 18 % 64)
            ∷ charenc (x / 2 ^ 12 % 64)
            ∷ charenc (x / 64 % 64)
            ∷ charenc (x % 64)
            ∷ [])
          (between r)
        ≡ moved x r
  unfolding exec bits cw_len
  absolute5 x h =
      rw
        (run_codeword 0x0e (x / 2 ^ 18 % 64 ∷ x / 2 ^ 12 % 64 ∷ x / 64 % 64 ∷ x % 64 ∷ []) r
          (omega arith) (omega arith) refl)
        (ground arith)

  absolute6 : (x : ℕ) → x < 2 ^ 30 → run (encode 0 x) (between r) ≡ moved x r
  unfolding exec bits cw_len encode
  absolute6 x h = rw (first_char 0 x) (
      rw
        (run_codeword (0 * 4 + x / 2 ^ 30 % 4)
          (x / 2 ^ 24 % 64 ∷ x / 2 ^ 18 % 64 ∷ x / 2 ^ 12 % 64 ∷ x / 64 % 64 ∷ x % 64 ∷ []) r
          (omega arith) (omega arith) (ground arith))
        (ground arith))

  diff3 :
      (x : ℕ)
      → x < 2048
      → run (charenc 0x0b ∷ charenc (x / 64 % 64) ∷ charenc (x % 64) ∷ []) (between r)
        ≡ moved ((r.wb_addr + x) % 2 ^ 32) r
  unfolding exec bits cw_len
  diff3 x h =
      rw (run_codeword 0x0b (x / 64 % 64 ∷ x % 64 ∷ []) r (omega arith) (omega arith) refl)
        (ground arith)

  diff4 :
      (x : ℕ)
      → x < 2 ^ 17
      → run
          (charenc 0x0d ∷ charenc (x / 2 ^ 12 % 64) ∷ charenc (x / 64 % 64) ∷ charenc (x % 64) ∷ [])
          (between r)
        ≡ moved ((r.wb_addr + x) % 2 ^ 32) r
  unfolding exec bits cw_len
  diff4 x h =
      rw
        (run_codeword 0x0d (x / 2 ^ 12 % 64 ∷ x / 64 % 64 ∷ x % 64 ∷ []) r (omega arith)
          (omega arith) refl)
        (ground arith)

  diff5 :
      (x : ℕ)
      → x < 2 ^ 23
      → run
          (charenc 0x0f
            ∷ charenc (x / 2 ^ 18 % 64)
            ∷ charenc (x / 2 ^ 12 % 64)
            ∷ charenc (x / 64 % 64)
            ∷ charenc (x % 64)
            ∷ [])
          (between r)
        ≡ moved ((r.wb_addr + x) % 2 ^ 32) r
  unfolding exec bits cw_len
  diff5 x h =
      rw
        (run_codeword 0x0f (x / 2 ^ 18 % 64 ∷ x / 2 ^ 12 % 64 ∷ x / 64 % 64 ∷ x % 64 ∷ []) r
          (omega arith) (omega arith) refl)
        (ground arith)

  -- With nothing in the buffer the absolute encoding is sent, whatever its length.
  pub sets_absolute : (x : ℕ) → x < 2 ^ 30 → run (encode_absolute x []) (between r) ≡ moved x r
  unfolding encode_absolute
  sets_absolute x h =
      ground (arith, absolute2 x, absolute3 x, absolute4 x, absolute5 x, absolute6 x)

  -- A difference in the buffer moves the address by it, and is no longer than its size needs.
  encode_diff_cases :
      (d : ℕ)
      → (encode_diff d ≡ [])
        ⊎ ((length (encode_diff d) ≢ 0)
            × (run (encode_diff d) (between r) ≡ moved ((r.wb_addr + d) % 2 ^ 32) r)
            × IsCovered d (length (encode_diff d)))
  unfolding encode_diff
  encode_diff_cases d = ground (arith, diff2 d, diff3 d, diff4 d, diff5 d)

  -- An address that an absolute encoding of at most `buf`'s length reaches is sent that way.
  sets_covered :
      (x : ℕ) (buf : List ℕ)
      → x < 2 ^ 30
      → IsCovered x (length buf)
      → run (encode_absolute x buf) (between r) ≡ moved x r
  unfolding encode_absolute
  sets_covered x buf h c = ground (arith, absolute2 x, absolute3 x, absolute4 x, absolute5 x)

  sets_diff :
      (x : ℕ) (buf : List ℕ)
      → x < 2 ^ 30
      → length buf ≢ 0
      → run buf (between r) ≡ moved x r
      → run (encode_absolute x buf) (between r) ≡ moved x r
  unfolding encode_absolute
  sets_diff x buf h n e = ground (arith, absolute2 x, absolute3 x, absolute4 x, absolute5 x)

  -- With a difference there, that or a shorter absolute encoding is sent.
  pub sets_either :
      (x d : ℕ)
      → x < 2 ^ 30
      → ((r.wb_addr + d) % 2 ^ 32 ≡ x) ⊎ (x ≤ d)
      → run (encode_absolute x (encode_diff d)) (between r) ≡ moved x r
  sets_either x d h e = elim (encode_diff_cases d) [
    | inl none_fits ↦ rw none_fits (sets_absolute x h)
    | inr (n, moves, covered) ↦ elim e [
      | inl there ↦ sets_diff x (encode_diff d) h n (rw there at moves)
      | inr below ↦ sets_covered x (encode_diff d) h (IsCovered-mono x d _ below covered)
    ]
  ]
