-- ===== src/FlashTests.antt =====
-- Runs of the flash driver, sw/host/flashdrvr.cpp, and of the byte order that it uses.
use zipversa.Base.{
  if◌then◌else◌, ℕ, ◌-◌, ◌&&◌, leb, ltb, bit_and, ◌+◌, ◌*◌, ◌/◌, ◌≡◌, refl, arith, true, false, ◌⊎◌,
}
use zipversa.Base.{List, [], ◌∷◌, All, replicate}
use zipversa.Base.Bits.{low_bits}
use zipversa.TtyBus.State.{ok}
use zipversa.Bytes.{buildword, buildswap, byteswap, sim_buildword, buildword-buildswap}
use zipversa.FlashDriver.{
  page_program, program, program_commands, verify_page, is_blank, words_of, byte_words, same_words,
  fits_page, take_offline, place_online, send, poll, flwait, erase_sector, erase_commands,
  verify_erased, flash_base,
}
use zipversa.FlashDriver.Write.{compare_bytes}
use zipversa.FlashDriver.Scan.{Verdict, compare_bytes-Verdict}
use zipversa.FlashDriver.Port.{Port, port, at, program_transactions, page_program-transactions}
use zipversa.FlashDriver.Chip.{Chip, obey_all, page_program-programs}
use zipversa.FlashDriver.Verify.{
  ReadsPage, ReadsBlank, page_program-verifies, erase_sector-verifies,
}

abbrev chip : Chip
chip = record { mem = λ j. 0xff; wel = false }

buildword-buildswap_example :
    (buildword 1 2 3 4 ≡ buildswap 1 2 3 4) × (buildswap 1 2 3 4 ≡ byteswap (sim_buildword 1 2 3 4))
buildword-buildswap_example =
    buildword-buildswap 1 2 3 4 (omega arith, omega arith, omega arith, omega arith)

compare_bytes-Verdict_example :
    Verdict 0x01000000
      (λ i. i + 1)
      0
      (1 ∷ 2 ∷ 3 ∷ 4 ∷ 5 ∷ 0xff ∷ [])
      (compare_bytes 0x01000000 (λ i. i + 1) 0 0 (1 ∷ 2 ∷ 3 ∷ 4 ∷ 5 ∷ 0xff ∷ []))
compare_bytes-Verdict_example =
    compare_bytes-Verdict 0x01000000 (λ i. i + 1) (1 ∷ 2 ∷ 3 ∷ 4 ∷ 5 ∷ 0xff ∷ []) (omega arith)

-- The memory behind the data, and a flash that holds what was written.
abbrev text : ℕ → ℕ
text i = i * 3 + 1

abbrev flash : ℕ → ℕ → List ℕ
flash a n = 0x0a070401 ∷ 0x16131010 ∷ []

abbrev correct : ℕ → ℕ → List ℕ
correct a n = 0x0a070401 ∷ 0x1613100d ∷ []

text_full : is_blank (words_of ((8 + 3) / 4) text 0) ≡ false
unfolding is_blank words_of buildword
text_full = refl

page_program-transactions_example :
    page_program (port flash) 5 0x01000100 8 text true (0, at [] [] 2) ≡ (
      ok (same_words (8 / 4) (flash 0x01000100 (8 / 4)) (words_of ((8 + 3) / 4) text 0)),
      (0, at (program_transactions flash 0 0x01000100 8 text 2) [] 0),
    )
unfolding fits_page
page_program-transactions_example =
    page_program-transactions flash 5 0x01000100 8 0 2 text true refl text_full (omega arith)

page_program-programs_example :
    (obey_all
        (page_program (port flash) 5 0x01000100 8 text true (0, at [] [] 2)).1.1.done
        chip).mem
      0x103
    ≡ (if leb 0x100 0x103 && ltb 0x103 (0x100 + 8)
        then bit_and 0xff (low_bits (text (0x103 - 0x100)) 8)
        else 0xff)
unfolding fits_page
page_program-programs_example =
    page_program-programs flash 5 0x01000100 8 0 2 text true chip 0x103 (omega arith) refl text_full
      (omega arith) (omega arith)

abbrev programmed : ℕ × Port
programmed = (0, at (program_transactions correct 0 0x01000100 8 text 2) [] 0)

program_run :
    page_program (port correct) 5 0x01000100 8 text true (0, at [] [] 2) ≡ (ok true, programmed)
unfolding page_program program program_commands verify_page is_blank words_of byte_words same_words
    fits_page take_offline place_online send poll flwait buildword
program_run = refl

page_program-verifies_example :
    (fits_page 0x01000100 8 ≡ true)
    × (All (λ v. v ≡ 0xffffffff) (words_of ((8 + 3) / 4) text 0)
        ⊎ ReadsPage (port correct) 0x01000100 (8 / 4) (words_of ((8 + 3) / 4) text 0) programmed.1)
page_program-verifies_example =
    page_program-verifies (port correct) 5 0x01000100 8 text (0, at [] [] 2) programmed program_run

abbrev erased : ℕ → ℕ → List ℕ
erased a n = replicate n 0xffffffff

abbrev after_erase : ℕ × Port
after_erase = (
  0,
  at
      (replicate 6 0xff
        ∷ (0x06 ∷ [])
        ∷ (0xd8 ∷ 0x02 ∷ 0 ∷ 0 ∷ [])
        ∷ (0x05 ∷ 0 ∷ 0 ∷ [])
        ∷ (0xeb ∷ 0 ∷ 0 ∷ 0 ∷ 0xa0 ∷ 0 ∷ 0 ∷ [])
        ∷ [])
      [] 0,
)

erase_run : erase_sector (port erased) 5 0x01020000 true (0, at [] [] 1) ≡ (ok true, after_erase)
unfolding erase_sector erase_commands verify_erased is_blank take_offline place_online send poll
    flwait
erase_run = refl

erase_sector-verifies_example :
    (s : Port) × ReadsBlank (port erased) 256 (flash_base + 0x020000) s after_erase.1
erase_sector-verifies_example =
    erase_sector-verifies (port erased) 5 0x01020000 (0, at [] [] 1) after_erase erase_run
