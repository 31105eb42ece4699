-- ===== src/FlashDriver/Verify.antt =====
-- What the verification in FLASHDRVR::page_program and FLASHDRVR::erase_sector (sw/host/flashdrvr.cpp)
-- has found when they return true, on any bus.
use zipversa.Base.{ℕ, zero, suc, ◌+◌, ◌/◌, ◌≡◌, ◌==◌, ◌⊎◌, inl, inr, refl, arith, Bool, true, false}
use zipversa.Base.{if◌then◌else◌, List, [], ◌∷◌, All, take, Bool-cases, ap, ◌∙◌}
use zipversa.Base.Bits.{u32, low_bits}
use zipversa.TtyBus.State.{Outcome, ok, buserr, blocked, exits}
use zipversa.DevBus.{DevBus, Act, after, pure, ◌>>◌}
use zipversa.FlashDriver.{
  call, page_program, erase_sector, verify_page, verify_erased, is_blank, words_of, same_words,
  fits_page, program, program_commands, erase_commands, take_offline, flash_base,
}

-- A sequence that returns: its first part does, and so does what follows.
after-returns :
    {A B S T : Type 0}
    → (r : Outcome A × S) (keep : S → T) (f : A → S → Outcome B × T) (x : B) (t : T)
    → after r keep f ≡ (ok x, t)
    → (a : A) × (s : S) × (r ≡ (ok a, s)) × (f a s ≡ (ok x, t))
after-returns (ok a, s) keep f x t h = (a, s, refl, h)
after-returns (buserr e, s) keep f x t h = absurd (cc)
after-returns (blocked, s) keep f x t h = absurd (cc)
after-returns (exits, s) keep f x t h = absurd (cc)

-- What follows, where the first part is of no interest.
then-returns :
    {B S : Type 0}
    → (m : Act S (Unit {0})) (k : Act S B) (s t : S) (x : B) → (m >> k) s ≡ (ok x, t)
    → (u : S) × (k u ≡ (ok x, t))
then-returns m k s t x h = let (a, u, _, e) = after-returns (m s) (λ t. t) (λ _. k) x t h in (u, e)

same_words_lem :
    (n : ℕ) (buf goal : List ℕ) → same_words n buf goal ≡ true → take n buf ≡ take n goal
unfolding same_words
same_words_lem zero buf goal h = refl
same_words_lem (suc n) [] [] h = absurd (cc)
same_words_lem (suc n) [] (w ∷ goal) h = absurd (cc)
same_words_lem (suc n) (v ∷ buf) [] h = absurd (cc)
same_words_lem (suc n) (v ∷ buf) (w ∷ goal) h = elim (Bool-cases (v == w)) [
  | inl e ↦ let same : v ≡ w = ground arith in rw (same, same_words_lem n buf goal (rw e at h))
  | inr e ↦ absurd (let h' = (rw e at h) in cc)
]

blank-All : (ws : List ℕ) → is_blank ws ≡ true → All (λ v. v ≡ 0xffffffff) ws
unfolding is_blank
blank-All [] h = tt
blank-All (v ∷ vs) h = elim (Bool-cases (v == 0xffffffff)) [
  | inl e ↦ (ground arith, blank-All vs (rw e at h))
  | inr e ↦ absurd (let h' = (rw e at h) in cc)
]

abbrev value_or : {A : Type 0} → A → Outcome A → A
value_or d (ok a) = a
value_or d (buserr e) = d
value_or d blocked = d
value_or d exits = d

pair-eq :
    {A S : Type 0}
    → (a x : A) (s t : S) → ◌≡◌ {A = Outcome A × S} (ok a, s) (ok x, t)
    → (a ≡ x) × (s ≡ t)
pair-eq {A} {S} a x s t h =
    (ap (λ (r : Outcome A × S). value_or a r.0) h, ap (λ (r : Outcome A × S). r.1) h)

module _ {S : Type 0} (b : DevBus S) where
  -- A call of the bus that returns is what the bus did.
  call-returns :
      {A : Type 0}
      → (f : Act S A) (st t : ℕ × S) (x : A) → call b f st ≡ (ok x, t)
      → f st.1 ≡ (ok x, t.1)
  call-returns {A} f (m, s) t x h =
      let (a, u, e, h') = after-returns (f s) (λ v. (m, v)) (λ a v. (ok a, (m, v))) x t h in
      let (ea, et) = pair-eq a x (m, u) t h' in
      e ∙ ap (λ (v : A). (ok v, u)) ea ∙ ap (λ (p : ℕ × S). (ok x, p.1)) et

  -- The page at an address was read, into the state `t`, and the first words are those of the goal.
  abbrev pub ReadsPage : ℕ → ℕ → List ℕ → S → Type 0
  ReadsPage addr n goal t =
      (buf : List ℕ) × (s : S) × (b.readi addr n s ≡ (ok buf, t)) × (take n buf ≡ take n goal)

  verify_page-returns :
      (addr len : ℕ) (goal : List ℕ) (st t : ℕ × S)
      → verify_page b addr len goal st ≡ (ok true, t)
      → ReadsPage addr (len / 4) goal t.1
  unfolding verify_page
  verify_page-returns addr len goal st t h =
      let (buf, u, e, h') =
        after-returns (call b (b.readi addr (len / 4)) st) (λ v. v)
          (λ buf. pure (same_words (len / 4) buf goal)) true t h in
      let (same, eu) = pair-eq (same_words (len / 4) buf goal) true u t h' in
      (
        buf,
        st.1,
        call-returns (b.readi addr (len / 4)) st t buf (e ∙ ap (λ v. (ok buf, v)) eu),
        same_words_lem (len / 4) buf goal same,
      )

  -- The pages were read one after the other, from the state `s` into `t`, and all their words are those
  -- of an erased flash.
  abbrev pub ReadsBlank : ℕ → ℕ → S → S → Type 0
  ReadsBlank zero a s t = s ≡ t
  ReadsBlank (suc n) a s t =
      (page : List ℕ) × (u : S) × (b.readi (u32 a) 64 s ≡ (ok page, u))
      × All (λ v. v ≡ 0xffffffff) page
      × ReadsBlank n (a + 256) u t

  verify_erased-returns :
      (n a : ℕ) (st t : ℕ × S) → verify_erased b n a st ≡ (ok true, t) → ReadsBlank n a st.1 t.1
  unfolding verify_erased
  verify_erased-returns zero a st t h = (ap (λ (p : ℕ × S). p.1) (pair-eq true true st t h).1)
  verify_erased-returns (suc n) a st t h =
      let (page, u, e, h') =
        after-returns (call b (b.readi (u32 a) 64) st) (λ v. v)
          (λ page. if is_blank page then verify_erased b n (a + 256) else pure false) true t h in
      elim (Bool-cases (is_blank page)) [
        | inl blank ↦ (
          page,
          u.1,
          call-returns (b.readi (u32 a) 64) st u page e,
          blank-All page blank,
          verify_erased-returns n (a + 256) u t (rw blank at h'),
        )
        | inr bad ↦ absurd (let h2 = (rw bad at h') in cc)
      ]

program-verifies :
    {S : Type 0}
    → (b : DevBus S) (polls addr len : ℕ) (bytes : ℕ → ℕ) (goal : List ℕ) (fits : Bool)
      (u t : ℕ × S)
    → (if fits then program b polls addr len bytes goal true else (λ s. (exits, s))) u
      ≡ (ok true, t)
    → (fits ≡ true) × (All (λ v. v ≡ 0xffffffff) goal ⊎ ReadsPage b addr (len / 4) goal t.1)
unfolding program
program-verifies b polls addr len bytes goal false u t h = absurd (cc)
program-verifies b polls addr len bytes goal true u t h = elim (Bool-cases (is_blank goal)) [
  | inl blank ↦ (refl, inl (blank-All goal blank))
  | inr full ↦
      let h2 = (rw full at h) in
      let (v, h3) =
        then-returns (program_commands b polls addr len bytes) (verify_page b addr len goal) u t
          true h2 in
      (refl, inr (verify_page-returns b addr len goal v t h3))
]

-- When `page_program` with verification returns true, the assertions on its arguments hold, and either
-- there was nothing to program, since every word of the data is that of an erased flash, or the last
-- thing it did was to read the page, and the words that it read are those of the data. This is so on
-- any bus and for any content of the flash.
pub page_program-verifies :
    {S : Type 0}
    → (b : DevBus S) (polls addr len : ℕ) (bytes : ℕ → ℕ) (st t : ℕ × S)
    → page_program b polls addr len bytes true st ≡ (ok true, t)
    → (fits_page addr len ≡ true)
      × (All (λ v. v ≡ 0xffffffff) (words_of ((len + 3) / 4) bytes 0)
          ⊎ ReadsPage b addr (len / 4) (words_of ((len + 3) / 4) bytes 0) t.1)
unfolding page_program
page_program-verifies b polls addr len bytes st t h =
    let goal = words_of ((len + 3) / 4) bytes 0 in
    let rest =
      λ (ok : Bool). if ok then program b polls addr len bytes goal true else (λ s. (exits, s)) in
    let (u, h1) = then-returns (take_offline b) (rest (fits_page addr len)) st t true h in
    program-verifies b polls addr len bytes goal (fits_page addr len) u t h1

-- When `erase_sector` with verification returns true, the last thing it did was to read the 256 pages
-- of the sector one after the other, and every word of them was that of an erased flash.
pub erase_sector-verifies :
    {S : Type 0}
    → (b : DevBus S) (polls sector : ℕ) (st t : ℕ × S)
    → erase_sector b polls sector true st ≡ (ok true, t)
    → (s : S) × ReadsBlank b 256 (flash_base + low_bits sector 24) s t.1
unfolding erase_sector
erase_sector-verifies b polls sector st t h =
    let a = flash_base + low_bits sector 24 in
    let (u, h1) =
      then-returns (erase_commands b polls (low_bits sector 24)) (verify_erased b 256 a) st t true
        h in
    (u.1, verify_erased-returns b 256 a u t h1)
