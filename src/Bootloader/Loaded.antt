-- ===== src/Bootloader/Loaded.antt =====
-- What the memory holds after the bootloader, sw/rv32/bootloader.c.
use zipversa.Base.{
  ℕ, zero, suc, ◌+◌, ◌-◌, ◌≤◌, ◌≡◌, ◌≢◌, ◌⊎◌, inl, inr, refl, arith, Bool, true, false,
}
use zipversa.Base.{◌&&◌, if◌then◌else◌, ltb, leb, ◌==◌, Bool-cases, ap, ◌∙◌}
use mathlib.Core.Path.{subst}
use zipversa.Bootloader.{Memory, Image, store, copy, clear, kramdev, kram_words, bootloader}

-- The address is one of the `n` words from `w` on.
abbrev pub in_words : ℕ → ℕ → ℕ → Bool
in_words w n a = leb w a && ltb a (w + n)

-- Two stretches of memory, `n` words from `r` and `m` words from `w`, do not overlap.
abbrev pub Apart : ℕ → ℕ → ℕ → ℕ → Type 0
Apart r n w m = (r + n ≤ w) ⊎ (w + m ≤ r)

clear_lem :
    (n w : ℕ) (mem : Memory) (a : ℕ) → clear n w mem a ≡ (if in_words w n a then 0 else mem a)
unfolding clear
clear_lem zero w mem a = let out : in_words w 0 a ≡ false = ground arith in rw out refl
clear_lem (suc n) w mem a = ground (arith, clear_lem n (w + 1) (store mem w 0) a)

copy_lem :
    (n w r : ℕ) (mem : Memory) (a : ℕ)
    → Apart r n w n
    → copy n w r mem a ≡ (if in_words w n a then mem (r + (a - w)) else mem a)
unfolding copy
copy_lem zero w r mem a h = let out : in_words w 0 a ≡ false = ground arith in rw out refl
copy_lem (suc n) w r mem a h =
    let h' : Apart (r + 1) n (w + 1) n = elim h [
      | inl x ↦ inl (omega arith)
      | inr x ↦ inr (omega arith)
    ] in
    let ih = copy_lem n (w + 1) (r + 1) (store mem w (mem r)) a h' in
    elim (Bool-cases (in_words (w + 1) n a)) [
      | inl e ↦
          let inside : in_words w (suc n) a ≡ true = ground arith in
          let index : r + 1 + (a - (w + 1)) ≡ r + (a - w) = ground arith in
          let other : (r + (a - w) == w) ≡ false = ground arith in
          ih ∙ rw (e, inside, index, other) refl
      | inr e ↦ elim (Bool-cases (a == w)) [
        | inl z ↦
            let inside : in_words w (suc n) a ≡ true = ground arith in
            let index : r + (a - w) ≡ r = ground arith in ih ∙ rw (e, z, inside, index) refl
        | inr z ↦
            let outside : in_words w (suc n) a ≡ false = ground arith in
            ih ∙ rw (e, z, outside) refl
      ]
    ]

-- How many words of the image go to block RAM and to SDRAM: there may be no block RAM.
abbrev pub block_words : Image → ℕ
block_words i = if i.kram == 0 then 0 else i.kram_end - i.kram

abbrev pub ram_words : Image → ℕ
ram_words i = i.ram_image_end - i.ram

-- The linker's symbols of the block RAM: without one, `_kram_end` is left at the start of the image; with
-- one it is an address in it, and so not that of the image.
abbrev pub BlockRam : Image → Type 0
BlockRam i =
    ((i.kram ≡ 0) × (i.kram_end ≡ i.kram_start))
    ⊎ ((1 ≤ i.kram) × (i.kram ≤ i.kram_end) × (i.kram_end ≢ i.kram_start))

-- The linker's symbols: there is a flash and an SDRAM, the image in flash overlaps neither of the two
-- memories, and those do not overlap each other.
abbrev pub IsLinked : Image → Type 0
IsLinked i =
    (1 ≤ i.rom)
    × (1 ≤ i.ram)
    × (i.ram ≤ i.ram_image_end)
    × (i.ram_image_end ≤ i.bss_image_end)
    × BlockRam i
    × Apart i.kram_start (block_words i + ram_words i) i.kram (block_words i)
    × Apart i.kram_start (block_words i + ram_words i) i.ram (i.bss_image_end - i.ram)
    × Apart i.kram (block_words i) i.ram (i.bss_image_end - i.ram)

-- The memory that the program is to start with.
abbrev pub loaded : Image → Memory → Memory
loaded i mem a =
    if in_words i.kram (block_words i) a
    then mem (i.kram_start + (a - i.kram))
    else if in_words i.ram (ram_words i) a
    then mem (i.kram_start + block_words i + (a - i.ram))
    else if in_words i.ram_image_end (i.bss_image_end - i.ram_image_end) a
    then 0
    else mem a

Apart-first : (r n m w k : ℕ) → Apart r (n + m) w k → n ≤ k → Apart r n w n
Apart-first r n m w k (inl h) le = inl (omega arith)
Apart-first r n m w k (inr h) le = inr (omega arith)

Apart-second : (r n m w k : ℕ) → Apart r (n + m) w k → m ≤ k → Apart (r + n) m w m
Apart-second r n m w k (inl h) le = inl (omega arith)
Apart-second r n m w k (inr h) le = inr (omega arith)

outside : (r n w m k a : ℕ) → Apart r n w m → in_words r n a ≡ true → k ≤ m → in_words w k a ≡ false
outside r n w m k a (inl h) e le = ground arith
outside r n w m k a (inr h) e le = ground arith

behind :
    (r n w m k a : ℕ) → Apart r n w (m + k) → in_words r n a ≡ true → in_words (w + m) k a ≡ false
behind r n w m k a (inl h) e = ground arith
behind r n w m k a (inr h) e = ground arith

elsewhere :
    (r n m dev ram a : ℕ)
    → Apart r (n + m) dev n
    → in_words ram m a ≡ true
    → in_words dev n (r + n + (a - ram)) ≡ false
elsewhere r n m dev ram a (inl h) e = ground arith
elsewhere r n m dev ram a (inr h) e = ground arith

-- What three loops leave: `n` words at `dev` and `m` words at `ram` from the image at `r`, then zeros.
filled : ℕ → ℕ → ℕ → ℕ → ℕ → ℕ → Memory → Memory
filled n dev r ram m k mem a =
    if in_words dev n a
    then mem (r + (a - dev))
    else if in_words ram m a
    then mem (r + n + (a - ram))
    else if in_words (ram + m) k a
    then 0
    else mem a

loops-filled :
    (n dev r ram m k : ℕ) (mem : Memory) (a : ℕ)
    → Apart r (n + m) dev n
    → Apart r (n + m) ram (m + k)
    → Apart dev n ram (m + k)
    → clear k (ram + m) (copy m ram (r + n) (copy n dev r mem)) a ≡ filled n dev r ram m k mem a
unfolding filled
loops-filled n dev r ram m k mem a hd hr h =
    let first = copy n dev r mem in
    let at_first = λ (x : ℕ). copy_lem n dev r mem x (Apart-first r n m dev n hd (omega arith)) in
    let second = copy_lem m ram (r + n) first a (Apart-second r n m ram (m + k) hr (omega arith)) in
    let third = clear_lem k (ram + m) (copy m ram (r + n) first) a in
    elim (Bool-cases (in_words dev n a)) [
      | inl d ↦
          let no_ram : in_words ram m a ≡ false = outside dev n ram (m + k) m a h d (omega arith) in
          let no_bss : in_words (ram + m) k a ≡ false = behind dev n ram m k a h d in
          third ∙ rw (no_bss, d) (second ∙ rw no_ram (at_first a ∙ rw d refl))
      | inr d ↦ elim (Bool-cases (in_words ram m a)) [
        | inl e ↦
            let no_bss : in_words (ram + m) k a ≡ false = ground arith in
            let x = r + n + (a - ram) in
            let source : in_words dev n x ≡ false = elsewhere r n m dev ram a hd e in
            third ∙ rw (no_bss, d, e) (second ∙ rw e (at_first x ∙ rw source refl))
        | inr e ↦
            rw (d, e)
              (third
                ∙ ap (λ v. if in_words (ram + m) k a then 0 else v)
                    (second ∙ rw e (at_first a ∙ rw d refl)))
      ]
    ]

Apart-rest : (r n m w k j : ℕ) → Apart r (n + m) w k → j ≤ k → Apart r (0 + m) w j
Apart-rest r n m w k j (inl h) le = inl (omega arith)
Apart-rest r n m w k j (inr h) le = inr (omega arith)

-- What the bootloader leaves where it copies `n` words to `dev` first.
abbrev Fills : Image → Memory → ℕ → ℕ → ℕ → Type 0
Fills i mem a n dev =
    Apart i.kram_start (n + ram_words i) dev n
    → Apart i.kram_start (n + ram_words i) i.ram (i.bss_image_end - i.ram)
    → Apart dev n i.ram (i.bss_image_end - i.ram)
    → bootloader i mem a
      ≡ filled n dev i.kram_start i.ram (ram_words i) (i.bss_image_end - i.ram_image_end) mem a

bootloader-Fills :
    (i : Image) (mem : Memory) (a : ℕ)
    → 1 ≤ i.rom
    → 1 ≤ i.ram
    → i.ram ≤ i.ram_image_end
    → i.ram_image_end ≤ i.bss_image_end
    → Fills i mem a (kram_words i) (kramdev i)
unfolding bootloader
bootloader-Fills i mem a rom ram e1 e2 = λ from_kram from_ram apart.
    let m = ram_words i in
    let k = i.bss_image_end - i.ram_image_end in
    let flash : (i.rom == 0) ≡ false = ground arith in
    let sdram : (i.ram == 0) ≡ false = ground arith in
    let whole : i.bss_image_end - i.ram ≡ m + k = omega arith in
    rw (flash, sdram)
      (loops-filled (kram_words i) (kramdev i) i.kram_start i.ram m k mem a from_kram
        (rw whole at from_ram) (rw whole at apart))

Fills-at :
    (i : Image) (mem : Memory) (a n dev : ℕ)
    → kram_words i ≡ n
    → kramdev i ≡ dev
    → Fills i mem a (kram_words i) (kramdev i)
    → Fills i mem a n dev
Fills-at i mem a n dev en ed f =
    subst (λ (d : ℕ). Fills i mem a n d) ed (subst (λ (x : ℕ). Fills i mem a x (kramdev i)) en f)

-- When the linker's symbols are sound, every word of memory holds after the bootloader what the program
-- is to start with: the two parts of the image, one behind the other in flash, stand in block RAM, if
-- there is one, and in SDRAM, the memory behind the second is zero up to its end, and all else is as it
-- was.
pub bootloader-loaded :
    (i : Image) (mem : Memory) (a : ℕ) → IsLinked i → bootloader i mem a ≡ loaded i mem a
unfolding filled
bootloader-loaded i mem a (rom, ram, e1, e2, block, from_kram, from_ram, apart) =
    let fills = bootloader-Fills i mem a rom ram e1 e2 in
    let end : i.ram + ram_words i ≡ i.ram_image_end = omega arith in
    elim block [
      | inl (z, e) ↦
          let words : kram_words i ≡ 0 = ground (arith, z, e) in
          let dev : kramdev i ≡ i.ram = ground (arith, z, e) in
          let b : block_words i ≡ 0 = ground (arith, z, e) in
          let all = i.bss_image_end - i.ram in
          let none : (x : ℕ) → in_words x 0 a ≡ false = λ x. ground arith in
          let f =
            Fills-at i mem a 0 i.ram words dev fills
              (Apart-rest i.kram_start (block_words i) (ram_words i) i.ram all 0 from_ram
                (omega arith))
              (Apart-rest i.kram_start (block_words i) (ram_words i) i.ram all all from_ram
                (omega arith))
              (inl (omega arith)) in
          f ∙ rw (b, none i.ram, none i.kram, end) refl
      | inr (k, le, ne) ↦
          let b : block_words i ≡ i.kram_end - i.kram = ground (arith, k, le, ne) in
          let words : kram_words i ≡ block_words i = ground (arith, k, le, ne) in
          let dev : kramdev i ≡ i.kram = ground (arith, k, le, ne) in
          Fills-at i mem a (block_words i) i.kram words dev fills from_kram from_ram apart
          ∙ rw end refl
    ]
