-- ===== src/Bootloader.antt =====
-- The bootloader of the board, sw/rv32/bootloader.c: it copies the program's image from flash into block
-- RAM and SDRAM, and clears the memory behind it. Memory and pointers count words of 32 bits; the
-- addresses come from the linker.
pub mod Loaded
use zipversa.Base.{ℕ, zero, suc, ◌+◌, ◌-◌, not, ◌&&◌, if◌then◌else◌, ltb, leb, ◌==◌}

abbrev pub Memory : Type 0
Memory = ℕ → ℕ

-- The symbols of the linker script.
pub record Image : Type 0 where
  pub rom : ℕ
  pub kram : ℕ
  pub ram : ℕ
  pub kram_start : ℕ
  pub kram_end : ℕ
  pub ram_image_end : ℕ
  pub bss_image_end : ℕ

abbrev pub store : Memory → ℕ → ℕ → Memory
store mem p v a = if a == p then v else mem a

-- `*wrp++ = *rdp++`, so many times.
unfoldable pub copy : ℕ → ℕ → ℕ → Memory → Memory
copy zero wrp rdp mem = mem
copy (suc n) wrp rdp mem = copy n (wrp + 1) (rdp + 1) (store mem wrp (mem rdp))

-- `*wrp++ = 0`, so many times.
unfoldable pub clear : ℕ → ℕ → Memory → Memory
clear zero wrp mem = mem
clear (suc n) wrp mem = clear n (wrp + 1) (store mem wrp 0)

-- Where the first part of the image goes, and how many words of it there are.
abbrev pub kramdev : Image → ℕ
kramdev i = if not (i.kram == 0) then i.kram else i.ram

abbrev pub kram_words : Image → ℕ
kram_words i = if not (i.kram_end == i.kram_start) then i.kram_end - kramdev i else 0

-- A loop that runs while `wrp` is below an end runs as often as the difference says, or not at all.
unfoldable pub bootloader : Image → Memory → Memory
bootloader i mem =
    if i.rom == 0
    then clear (i.ram_image_end - i.ram_image_end) i.ram_image_end mem
    else let n = kram_words i in
      let wrp = if not (i.ram == 0) then i.ram else kramdev i + n in
      let m = i.ram_image_end - i.ram in
      clear (i.bss_image_end - i.ram_image_end) (wrp + m)
        (copy m wrp (i.kram_start + n) (copy n (kramdev i) i.kram_start mem))
