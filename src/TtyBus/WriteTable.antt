-- ===== src/TtyBus/WriteTable.antt =====
-- The compression of written words: the host's table against the receiver's.
use zipversa.Base.{
  ℕ, zero, suc, ◌+◌, ◌-◌, ◌*◌, ◌/◌, ◌%◌, ◌^◌, ◌≤◌, ◌<◌, ◌≡◌, ◌⊎◌, inl, inr, ◌∙◌, sym, refl, arith,
}
use zipversa.Base.{true, List, [], ◌∷◌, ◌++◌, map, if◌then◌else◌, ◌==◌}
use zipversa.TtyBus.Code.{charenc}
use zipversa.TtyBus.State.{Bus, update}
use zipversa.TtyBus.Write.{find_value, encode_value, note_value, inc_bit}
use zipversa.TtyBus.Receiver.{Receiver, Request, write, cw_len, bits, exec, put, run}
use zipversa.TtyBus.Codewords.{between, run_codeword}

-- The two tables agree, counted back from where each is written next, on what the host has
-- written.
pub record InSync (s : Bus) (r : Receiver) : Type 0 where
  pub host : s.wraddr < 256
  pub device : r.wr_addr < 256
  pub same :
      (i : ℕ)
      → 1 ≤ i
      → i < 256
      → (s.wrloaded ≡ true) ⊎ (i ≤ s.wraddr)
      → s.writetbl ((s.wraddr + 256 - i) % 256) ≡ r.tbl ((r.wr_addr + 256 - i) % 256)

-- A distance that the host may send for `val`.
abbrev pub IsFound : ℕ → ℕ → Bus → Type 0
IsFound c val s =
    (1 ≤ c)
    × (c < 256)
    × ((s.wrloaded ≡ true) ⊎ (c ≤ s.wraddr))
    × (s.writetbl ((s.wraddr + 256 - c) % 256) ≡ val)

find_value_sound :
    (k i val : ℕ) (s : Bus)
    → 1 ≤ i
    → i + k ≤ 256
    → s.wraddr < 256
    → (find_value k i val s ≡ 0) ⊎ IsFound (find_value k i val s) val s
unfolding find_value
find_value_sound zero i val s h1 h2 hw = ground arith
find_value_sound (suc k) i val s h1 h2 hw = ground (arith, find_value_sound k (i + 1) val s)

-- The receiver after the write of `val`.
abbrev pub written : ℕ → ℕ → Receiver → Receiver
written p val r = record r {
  part = [];
  lastcw = 1;
  log = r.log ++ (write r.wb_addr val ∷ []);
  wb_addr = if p == 1 then (r.wb_addr + 1) % 2 ^ 32 else r.wb_addr;
  writing = true;
}

-- The codewords of a write, by their fields.
exec_raw :
    (p h x n val : ℕ) (r : Receiver)
    → h / 8 ≡ 3
    → h % 2 ≡ inc_bit p
    → p ≤ 1
    → h / 2 % 4 * 2 ^ 30 + x ≡ val
    → exec h x n (record r { part = []; lastcw = 1 }) ≡ record (written p val r) {
      tbl = update r.tbl r.wr_addr val;
      wr_addr = (r.wr_addr + 1) % 256;
    }
unfolding exec put
exec_raw p h x n val r e3 odd hp ev = rw (← ev) (ground arith)

exec_found :
    (p h x n val : ℕ) (r : Receiver)
    → h / 8 ≡ 2
    → h % 2 ≡ inc_bit p
    → p ≤ 1
    → r.tbl ((r.wr_addr + 256 - (h / 2 % 4 * 64 + x)) % 256) ≡ val
    → exec h x n (record r { part = []; lastcw = 1 }) ≡ written p val r
unfolding exec put
exec_found p h x n val r e2 odd hp ev = ground arith

encode_value_raw :
    (p val : ℕ) (r : Receiver)
    → p ≤ 1
    → val < 2 ^ 32
    → run (encode_value p 0 val) (between r) ≡ record (written p val r) {
      tbl = update r.tbl r.wr_addr val;
      wr_addr = (r.wr_addr + 1) % 256;
    }
unfolding encode_value bits cw_len
encode_value_raw p val r hp hv =
    let h = val / 2 ^ 30 % 4 * 2 + inc_bit p + 0x018 in
    let xs : List ℕ =
      val / 2 ^ 24 % 64 ∷ val / 2 ^ 18 % 64 ∷ val / 2 ^ 12 % 64 ∷ val / 64 % 64 ∷ val % 64 ∷ [] in
    let kind : h / 16 ≡ 1 = ground arith in
    run_codeword h xs r (ground arith) (omega arith) (ground arith)
    ∙ rw kind
        (exec_raw p h (bits xs 0) (64 ^ 5) val r (ground arith) (ground arith) hp (ground arith))

encode_value_found :
    (p c val : ℕ) (r : Receiver)
    → p ≤ 1
    → 1 ≤ c
    → c < 256
    → r.tbl ((r.wr_addr + 256 - c) % 256) ≡ val
    → run (encode_value p c val) (between r) ≡ written p val r
unfolding bits cw_len
encode_value_found p c val r hp h1 h2 e =
    let h = c / 64 % 4 * 2 + inc_bit p + 0x010 in
    let kind : h / 16 ≡ 1 = ground arith in
    let back : h / 2 % 4 * 64 + bits (c % 64 ∷ []) 0 ≡ c = ground arith in
    let chars : encode_value p c val ≡ map charenc (h ∷ c % 64 ∷ []) =
      unfold encode_value in ground arith in
    rw chars (
      run_codeword h (c % 64 ∷ []) r (ground arith) (omega arith) (ground arith)
      ∙ rw kind (
          exec_found p h (bits (c % 64 ∷ []) 0) 64 val r (ground arith) (ground arith) hp
            (rw back e)))

-- The requests for the words of one write, and where the address is left.
abbrev pub next_addr : ℕ → ℕ → ℕ
next_addr p a = if p == 1 then (a + 1) % 2 ^ 32 else a

abbrev pub requests : ℕ → ℕ → List ℕ → List Request
requests p a [] = []
requests p a (v ∷ vs) = write a v ∷ requests p (next_addr p a) vs

abbrev pub end_addr : ℕ → ℕ → List ℕ → ℕ
end_addr p a [] = a
end_addr p a (v ∷ vs) = end_addr p (next_addr p a) vs

-- A word that is sent whole enters both tables.
InSync-push :
    (p val : ℕ) (s : Bus) (r : Receiver)
    → InSync s r
    → InSync (note_value p 0 val s) (record (written p val r) {
      tbl = update r.tbl r.wr_addr val;
      wr_addr = (r.wr_addr + 1) % 256;
    })
unfolding note_value
InSync-push p val s r sync = record {
  host = ground arith;
  device = omega arith;
  same = λ i h1 h2 there. ground (arith, sync.same (i - 1), sync.host, sync.device);
}

-- A word that is found leaves both tables.
InSync-found :
    (p c val : ℕ) (s : Bus) (r : Receiver)
    → 1 ≤ c
    → InSync s r
    → InSync (note_value p c val s) (written p val r)
unfolding note_value
InSync-found p c val s r h sync = record {
  host = ground arith;
  device = sync.device;
  same = λ i h1 h2 there. ground (arith, sync.same i);
}

-- One word: the request is made, and the tables agree again.
pub encode_value-run :
    (p val : ℕ) (s : Bus) (r : Receiver)
    → p ≤ 1
    → val < 2 ^ 32
    → InSync s r
    → let c = find_value 255 1 val s in
      let r' = run (encode_value p c val) (between r) in
      (r' ≡ record (written p val r) { tbl = r'.tbl; wr_addr = r'.wr_addr })
      × InSync (note_value p c val s) r'
encode_value-run p val s r hp hv sync =
    elim (find_value_sound 255 1 val s (omega arith) (omega arith) sync.host) [
      | inl e ↦ rw e (rw (encode_value_raw p val r hp hv) (refl, InSync-push p val s r sync))
      | inr (h1, h2, there, e) ↦
          rw
            (encode_value_found p (find_value 255 1 val s) val r hp h1 h2
              (sym (sync.same (find_value 255 1 val s) h1 h2 there) ∙ e))
            (refl, InSync-found p (find_value 255 1 val s) val s r h1 sync)
    ]
