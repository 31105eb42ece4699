-- ===== src/TtyBus/WriteReturns.antt =====
-- The termination of `writev` and `writeio` (sw/host/ttybus.cpp) with a silent device.
use zipversa.Base.{
  true, ℕ, zero, suc, ◌+◌, ◌*◌, ◌%◌, ◌≡◌, refl, ap, arith, List, [], ◌∷◌, ◌++◌, drop, take, length,
  length-drop_lt, ◌≤◌,
}
use zipversa.TtyBus.State.{Bus, Outcome, M, ok, bufalloc, bind}
use zipversa.TtyBus.Address.{encode_address}
use zipversa.TtyBus.AddressLaws.{encode_address_accepts}
use zipversa.TtyBus.Read.{readidle_loop, readidle, drop_data}
use zipversa.TtyBus.Write.{
  find_value, note_value, write_words, arrive, dev_write, newline, max_wr_len, writev_loop, writev,
  writeio,
}

-- Nothing has arrived, and nothing will.
abbrev pub IsSilent : Bus → Type 0
IsSilent s = (s.input ≡ []) × (s.arrivals ≡ [])

readidle-IsSilent : (s : Bus) → IsSilent s → readidle s ≡ (ok tt, s)
unfolding readidle readidle_loop drop_data
readidle-IsSilent s (h, k) = rw h refl

note_value-IsSilent : (p c v : ℕ) (s : Bus) → IsSilent s → IsSilent (note_value p c v s)
unfolding note_value
note_value-IsSilent p c v s h = ground arith

write_words-IsSilent :
    (p : ℕ) (vals : List ℕ) (s : Bus) → IsSilent s → IsSilent (write_words p vals s).1
unfolding write_words
write_words-IsSilent p [] s h = h
write_words-IsSilent p (v ∷ vals) s h =
    write_words-IsSilent p vals _ (note_value-IsSilent p (find_value 255 1 v s) v s h)

dev_write-IsSilent : (cs : List ℕ) (s : Bus) → IsSilent s → IsSilent (dev_write cs s)
unfolding dev_write arrive
dev_write-IsSilent cs s (h, k) = rw k (h, refl)

writev_loop-IsSilent :
    (fuel p : ℕ) (buf vals : List ℕ) (s : Bus)
    → IsSilent s
    → length vals ≤ fuel
    → ((writev_loop fuel p buf vals s).0 ≡ ok tt) × IsSilent (writev_loop fuel p buf vals s).1
unfolding writev_loop
writev_loop-IsSilent zero p buf [] s h le = (refl, h)
writev_loop-IsSilent zero p buf (v ∷ vals) s h le = absurd (omega arith)
writev_loop-IsSilent (suc fuel) p buf [] s h le = (refl, h)
writev_loop-IsSilent (suc fuel) p buf (v ∷ vals) s h le =
    let words = write_words p (take max_wr_len (v ∷ vals)) s in
    let rest = drop max_wr_len (v ∷ vals) in
    let s1 = dev_write (buf ++ (words.0 ++ newline rest)) words.1 in
    let quiet =
      dev_write-IsSilent _ words.1 (write_words-IsSilent p (take max_wr_len (v ∷ vals)) s h) in
    rw (readidle-IsSilent s1 quiet)
      (writev_loop-IsSilent fuel p [] rest s1 quiet (omega (arith, length-drop_lt 31 v vals)))

encode_address-IsSilent : (a : ℕ) (s : Bus) → IsSilent s → IsSilent (encode_address a s).1
unfolding encode_address
encode_address-IsSilent a s h = ground arith

bind_then :
    {A B : Type 0} (o : Outcome A × Bus) (f : A → M B) {a : A} → o.0 ≡ ok a → bind o f ≡ f a o.1
bind_then o f {a} e = ap (λ x. bind (x, o.1) f) e

-- When nothing has arrived and the device sends nothing, `writev` to an address that is a multiple
-- of four returns, whatever the words and the state: the loop comes to the end of the words, and
-- neither it nor the polling waits.
pub writev-returns :
    (a p : ℕ) (vals : List ℕ) (s : Bus) → a % 4 ≡ 0 → IsSilent s → (writev a p vals s).0 ≡ ok tt
unfolding writev
writev-returns a p vals s al h =
    let s1 : Bus = record s { buflen = bufalloc s.buflen ((length vals + 2) * 6) } in
    let (cs, e, _) = encode_address_accepts a s1 al in
    let s2 : Bus = record (encode_address a s1).1 { lastaddr = a; addr_set = true } in
    let (done, quiet) =
      writev_loop-IsSilent (length vals) p cs vals s2 (encode_address-IsSilent a s1 h)
        (omega arith) in
    rw
      (
        bind_then (encode_address a s1) _ e,
        bind_then (writev_loop (length vals) p cs vals s2) _ done,
      )
      (ap (λ o. o.0) (readidle-IsSilent (writev_loop (length vals) p cs vals s2).1 quiet))

pub writeio-returns : (a v : ℕ) (s : Bus) → a % 4 ≡ 0 → IsSilent s → (writeio a v s).0 ≡ ok tt
unfolding writeio
writeio-returns a v s al h =
    rw (bind_then (writev a 0 (v ∷ []) s) _ (writev-returns a 0 (v ∷ []) s al h)) refl
