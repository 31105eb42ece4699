-- ===== src/FlashDriver/Chip.antt =====
-- What FLASHDRVR::page_program (sw/host/flashdrvr.cpp) leaves in a flash that obeys the transactions as
-- FLASHSIM does: write enable, and the page program, which fills a blank page buffer at the address's
-- low 8 bits, around the end of the page, and stores the AND of it with the page.
use zipversa.Base.{ℕ, zero, suc, ◌+◌, ◌-◌, ◌*◌, ◌/◌, ◌%◌, ◌^◌, ◌≤◌, ◌<◌, ◌≡◌, ◌==◌, refl, arith}
use zipversa.Base.{Bool, true, false, ◌&&◌, if◌then◌else◌, ltb, leb, bit_and, List, [], ◌∷◌}
use zipversa.Base.{Bool-cases, inl, inr, ap, ◌∙◌}
use zipversa.Base.Bits.{shr, low_bits, bit_and_mask}
use zipversa.TtyBus.State.{Outcome}
use zipversa.FlashDriver.{page_program, is_blank, words_of, fits_page, micron_flashid}
use zipversa.FlashDriver.Port.{
  Port, port, at, program_transactions, data_bytes, online, page_program-transactions,
}

pub record Chip : Type 0 where
  pub mem : ℕ → ℕ
  pub wel : Bool

abbrev fill : ℕ → List ℕ → (ℕ → ℕ) → ℕ → ℕ
fill a [] page k = page k
fill a (d ∷ ds) page k = fill (a + 1) ds (λ x. if x == a % 2 ^ 8 then d else page x) k

-- The memory after a page program at an address.
abbrev programmed : ℕ → List ℕ → (ℕ → ℕ) → ℕ → ℕ
programmed a ds mem j =
    if j / 2 ^ 8 == a / 2 ^ 8 then bit_and (mem j) (fill a ds (λ x. 0xff) (j % 2 ^ 8)) else mem j

abbrev program_page : List ℕ → Chip → Chip
program_page [] s = s
program_page (a2 ∷ []) s = s
program_page (a2 ∷ a1 ∷ []) s = s
program_page (a2 ∷ a1 ∷ a0 ∷ ds) s = record {
  mem = programmed (a2 * 2 ^ 16 + a1 * 2 ^ 8 + a0) ds s.mem;
  wel = false;
}

abbrev obey : List ℕ → Chip → Chip
obey [] s = s
obey (c ∷ rest) s =
    if c == 0x06
    then record s { wel = true }
    else if c == 0x02 && s.wel
    then program_page rest s
    else s

abbrev pub obey_all : List (List ℕ) → Chip → Chip
obey_all [] s = s
obey_all (t ∷ ts) s = obey_all ts (obey t s)

fill-data_bytes :
    (len : ℕ) (bytes : ℕ → ℕ) (i a : ℕ) (page : ℕ → ℕ) (k : ℕ)
    → a % 2 ^ 8 + len ≤ 2 ^ 8
    → fill a (data_bytes len bytes i) page k ≡ (
        if leb (a % 2 ^ 8) k && ltb k (a % 2 ^ 8 + len)
        then low_bits (bytes (i + (k - a % 2 ^ 8))) 8
        else page k)
fill-data_bytes zero bytes i a page k h =
    let out : (leb (a % 2 ^ 8) k && ltb k (a % 2 ^ 8 + 0)) ≡ false = ground arith in rw out refl
fill-data_bytes (suc len) bytes i a page k h =
    let b = a % 2 ^ 8 in
    let c = (a + 1) % 2 ^ 8 in
    let ih =
      fill-data_bytes len bytes (i + 1) (a + 1)
        (λ x. if x == b then low_bits (bytes i) 8 else page x) k (omega arith) in
    elim (Bool-cases (leb c k && ltb k (c + len))) [
      | inl e ↦
          let inside : (leb b k && ltb k (b + suc len)) ≡ true = ground arith in
          let index : i + 1 + (k - c) ≡ i + (k - b) = ground arith in
          ih ∙ rw (e, inside, index) refl
      | inr e ↦ elim (Bool-cases (k == b)) [
        | inl z ↦
            let inside : (leb b k && ltb k (b + suc len)) ≡ true = ground arith in
            let index : i + (k - b) ≡ i = ground arith in ih ∙ rw (e, z, inside, index) refl
        | inr z ↦
            let out : (leb b k && ltb k (b + suc len)) ≡ false = ground arith in
            ih ∙ rw (e, z, out) refl
      ]
    ]

online-keeps :
    (words : ℕ → ℕ → List ℕ) (id : ℕ) (s : Chip) → (obey_all (online words id) s).mem ≡ s.mem
online-keeps words id s = elim (Bool-cases (id == micron_flashid)) [
  | inl e ↦ rw e refl
  | inr e ↦ rw e refl
]

-- The address of a page that fits, as the flash puts it together, and its place in the page.
fits-place : (addr len : ℕ) → addr < 2 ^ 32 → fits_page addr len ≡ true → addr % 2 ^ 8 + len ≤ 2 ^ 8
unfolding fits_page
fits-place addr len h e = ground arith

transactions-programmed :
    (words : ℕ → ℕ → List ℕ) (id addr len n : ℕ) (bytes : ℕ → ℕ) (chip : Chip)
    → (obey_all (program_transactions words id addr len bytes n) chip).mem
      ≡ programmed (low_bits addr 24) (data_bytes len bytes 0) chip.mem
transactions-programmed words id addr len n bytes chip =
    let a = low_bits addr 24 in
    let whole : low_bits (shr a 16) 8 * 2 ^ 16 + low_bits (shr a 8) 8 * 2 ^ 8 + low_bits a 8 ≡ a =
      omega arith in
    online-keeps words id _ ∙ ap (λ x. programmed x (data_bytes len bytes 0) chip.mem) whole

programmed-byte :
    (a len : ℕ) (bytes : ℕ → ℕ) (mem : ℕ → ℕ) (j : ℕ)
    → a % 2 ^ 8 + len ≤ 2 ^ 8
    → mem j < 2 ^ 8
    → programmed a (data_bytes len bytes 0) mem j
      ≡ (if leb a j && ltb j (a + len) then bit_and (mem j) (low_bits (bytes (j - a)) 8) else mem j)
programmed-byte a len bytes mem j h byte =
    let b = a % 2 ^ 8 in
    let k = j % 2 ^ 8 in
    let buffer = fill-data_bytes len bytes 0 a (λ x. 0xff) k h in
    elim (Bool-cases (j / 2 ^ 8 == a / 2 ^ 8)) [
      | inr far ↦
          let out : (leb a j && ltb j (a + len)) ≡ false = ground arith in rw (far, out) refl
      | inl same ↦ elim (Bool-cases (leb b k && ltb k (b + len))) [
        | inl e ↦
            let inside : (leb a j && ltb j (a + len)) ≡ true = ground arith in
            let index : 0 + (k - b) ≡ j - a = ground arith in
            rw (same, inside) (ap (bit_and (mem j)) (buffer ∙ rw (e, index) refl))
        | inr e ↦
            let out : (leb a j && ltb j (a + len)) ≡ false = ground arith in
            let kept : bit_and (mem j) 0xff ≡ mem j = bit_and_mask 8 (mem j) ∙ omega arith in
            rw (same, out) (ap (bit_and (mem j)) (buffer ∙ rw e refl) ∙ kept)
      ]
    ]

-- `page_program` on a flash that obeys its transactions, with arguments that fit a page, data that is
-- not that of an erased flash, and fewer busy polls than `flwait` may make: the byte at each address
-- of the data becomes the AND of what it was and the data's byte, and every other byte is as it was.
pub page_program-programs :
    (words : ℕ → ℕ → List ℕ) (polls addr len m n : ℕ) (bytes : ℕ → ℕ) (verify : Bool)
    → (chip : Chip) (j : ℕ) → addr < 2 ^ 32
    → fits_page addr len ≡ true
    → is_blank (words_of ((len + 3) / 4) bytes 0) ≡ false
    → n < polls
    → chip.mem j < 2 ^ 8
    → (obey_all
          (page_program (port words) polls addr len bytes verify (m, at [] [] n)).1.1.done
          chip).mem
        j
      ≡ (if leb (low_bits addr 24) j && ltb j (low_bits addr 24 + len)
          then bit_and (chip.mem j) (low_bits (bytes (j - low_bits addr 24)) 8)
          else chip.mem j)
page_program-programs words polls addr len m n bytes verify chip j h fits full fast byte =
    let a = low_bits addr 24 in
    let place : a % 2 ^ 8 + len ≤ 2 ^ 8 = omega (arith, fits-place addr len h fits) in
    ap (λ (r : Outcome Bool × (ℕ × Port)). (obey_all r.1.1.done chip).mem j)
      (page_program-transactions words polls addr len m n bytes verify fits full fast)
    ∙ ap (λ (f : ℕ → ℕ). f j) (transactions-programmed words m addr len n bytes chip)
    ∙ programmed-byte a len bytes chip.mem j place byte
