-- ===== src/TtyBus/Wait.antt =====
-- `usleep` and `wait` (sw/host/ttybus.cpp): an interrupt that has arrived is noticed.
use zipversa.Base.{ℕ, zero, suc, ◌+◌, ◌-◌, ◌*◌, ◌≤◌, ◌<◌, ◌≡◌, refl, arith, true, false}
use zipversa.Base.{
  List, [], ◌∷◌, length, take, drop, get_or, replicate, ap, sym, ◌∙◌, ◌==◌, if◌then◌else◌, inl, inr,
  Bool-cases,
}
use native.Mathlib.Decide.{dec_le}
use mathlib.Core.Bool.{true≢false}
use mathlib.Core.List.{append-nil}
use zipversa.TtyBus.State.{Bus, ok}
use zipversa.TtyBus.ReadVector.{notice, usleep, wait}

notice_keeps :
    (cs : List ℕ) (s : Bus) → s.interrupt_flag ≡ true → (notice cs s).interrupt_flag ≡ true
unfolding notice
notice_keeps [] s h = h
notice_keeps (c ∷ cs) s h = notice_keeps cs _ (ground arith)

notice_finds :
    (cs : List ℕ) (i : ℕ) (s : Bus) → get_or cs i 0 ≡ b'4' → (notice cs s).interrupt_flag ≡ true
unfolding notice
notice_finds [] i s e = absurd (omega (arith, e))
notice_finds (c ∷ cs) zero s e = notice_keeps cs _ (ground arith)
notice_finds (c ∷ cs) (suc i) s e = notice_finds cs i _ e

notice-input : (cs : List ℕ) (s : Bus) → (notice cs s).input ≡ s.input
unfolding notice
notice-input [] s = refl
notice-input (c ∷ cs) s = notice-input cs _ ∙ ground arith

get_or-take : (n i : ℕ) (xs : List ℕ) → i < n → get_or (take n xs) i 0 ≡ get_or xs i 0
get_or-take zero i xs h = absurd (omega arith)
get_or-take (suc n) i [] h = refl
get_or-take (suc n) zero (x ∷ xs) h = refl
get_or-take (suc n) (suc i) (x ∷ xs) h = get_or-take n i xs (omega arith)

get_or-drop : (n i : ℕ) (xs : List ℕ) → get_or (drop n xs) i 0 ≡ get_or xs (n + i) 0
get_or-drop zero i xs = ap (λ j. get_or xs j 0) (omega arith)
get_or-drop (suc n) i [] = refl
get_or-drop (suc n) i (x ∷ xs) =
    get_or-drop n i xs
    ∙ ap (λ j. get_or (x ∷ xs) j 0) {x = suc (n + i)} {y = suc n + i} (omega arith)

abbrev slept : Bus → Bus
slept s = notice (take 16 s.input) (record s { input = drop 16 s.input })

some_input : (xs : List ℕ) (i : ℕ) → get_or xs i 0 ≡ b'4' → (length xs == 0) ≡ false
some_input [] i e = absurd (omega (arith, e))
some_input (x ∷ xs) i e = ground arith

usleep_some : (i : ℕ) (s : Bus) → get_or s.input i 0 ≡ b'4' → usleep true s ≡ (ok tt, slept s)
unfolding usleep
usleep_some i s e = rw (some_input s.input i e) refl

wait_step :
    (n i : ℕ) (s : Bus)
    → get_or s.input i 0 ≡ b'4'
    → wait (replicate (suc n) (true, [])) s ≡ (
        if (slept s).interrupt_flag
        then (ok tt, slept s)
        else wait (replicate n (true, [])) (slept s))
unfolding wait
wait_step n i s e = rw (append-nil s.input, usleep_some i s e) refl

-- When an interrupt code has arrived among the first 16 * n characters, and `n` polls find
-- something each, `wait` returns with the interrupt noticed.
pub wait_returns :
    (n i : ℕ) (s : Bus)
    → get_or s.input i 0 ≡ b'4'
    → i < 16 * n
    → ((wait (replicate n (true, [])) s).0 ≡ ok tt)
      × ((wait (replicate n (true, [])) s).1.interrupt_flag ≡ true)
unfolding notice
wait_returns zero i s e h = absurd (omega arith)
wait_returns (suc n) i s e h = elim (Bool-cases (slept s).interrupt_flag) [
  | inl on ↦ rw (wait_step n i s e, on) (refl, on)
  | inr off ↦
      rw (wait_step n i s e, off)
        (wait_returns n (i - 16) (slept s) (later off) (omega (arith, far off)))
]
  where
    far : (slept s).interrupt_flag ≡ false → 16 ≤ i
    far off = elim (dec_le 16 i) [
      | yes p ↦ p
      | no p ↦ absurd (
          true≢false (
            sym (notice_finds (take 16 s.input) i _ (get_or-take 16 i s.input (omega arith) ∙ e))
            ∙ off))
    ]

    later : (slept s).interrupt_flag ≡ false → get_or (slept s).input (i - 16) 0 ≡ b'4'
    later off =
        let back : 16 + (i - 16) ≡ i = omega (arith, far off) in
        ap (λ xs. get_or xs (i - 16) 0)
          (notice-input (take 16 s.input) (record s { input = drop 16 s.input }))
        ∙ get_or-drop 16 (i - 16) s.input
        ∙ ap (λ j. get_or s.input j 0) back
        ∙ e
