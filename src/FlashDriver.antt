-- ===== src/FlashDriver.antt =====
-- Class FLASHDRVR of sw/host/flashdrvr.cpp, as it is compiled with `FLASH_ACCESS`: the commands it
-- sends to the flash through the configuration port, and the verification of what it did. `Write` is
-- the method that keeps the sectors that already match. The macros are those of sw/host/regdefs.h.
pub mod Write
pub mod Verify
pub mod Scan
pub mod Port
pub mod Chip
use zipversa.Base.{ℕ, zero, suc, ◌+◌, ◌-◌, ◌*◌, ◌/◌, ◌%◌, ◌^◌, Bool, true, false, not, ◌&&◌, ◌||◌}
use zipversa.Base.{if◌then◌else◌, ltb, leb, ◌==◌, bit_or, List, [], ◌∷◌, ◌++◌, map}
use zipversa.Base.Bits.{u32, shr, shl32, low_bits}
use zipversa.TtyBus.State.{Outcome, ok, blocked, exits}
use zipversa.DevBus.{DevBus, Act, after, pure, ◌>>=◌, ◌>>◌}
use zipversa.Bytes.{buildword}

-- A method, on `m_id` and what is behind the bus.
abbrev pub Method : Type 0 → Type 0 → Type 0
Method S A = Act (ℕ × S) A

abbrev pub flashcfg : ℕ
flashcfg = 0x00100000

abbrev pub flash_base : ℕ
flash_base = 0x01000000

abbrev pub page_bytes : ℕ
page_bytes = 256

abbrev pub sector_bytes : ℕ
sector_bytes = 65536

-- `CFG_USERMODE | b`, `CFG_USERMODE | CFG_WEDIR | b`, and with `CFG_QSPEED`, for a byte `b`.
abbrev pub user : ℕ → ℕ
user b = 0x1000 + b

abbrev pub user_write : ℕ → ℕ
user_write b = 0x1200 + b

abbrev pub quad_write : ℕ → ℕ
quad_write b = 0x1a00 + b

abbrev pub quad_read : ℕ
quad_read = 0x1800

abbrev pub f_end : ℕ
f_end = 0x1100

abbrev pub micron_flashid : ℕ
micron_flashid = 0x20ba1810

-- `PAGEOF` and `SECTOROF`
abbrev pub page_of : ℕ → ℕ
page_of a = a - a % page_bytes

abbrev pub sector_of : ℕ → ℕ
sector_of a = a - a % sector_bytes

abbrev pub take_offline_words : List ℕ
take_offline_words =
    f_end ∷ user 0xff ∷ user 0xff ∷ user 0xff ∷ user 0xff ∷ user 0xff ∷ user 0xff ∷ f_end ∷ []

-- Only a Micron flash is told of the mode before.
abbrev pub enable_xip : ℕ → List ℕ
enable_xip id =
    if id == micron_flashid then user 0x06 ∷ f_end ∷ user 0x81 ∷ user 0x23 ∷ f_end ∷ [] else []

abbrev pub quad_io : List ℕ
quad_io =
    user 0xeb
    ∷ quad_write 0
    ∷ quad_write 0
    ∷ quad_write 0
    ∷ quad_write 0xa0
    ∷ quad_read
    ∷ user 0
    ∷ 0x100
    ∷ []

abbrev pub address_words : ℕ → List ℕ
address_words a =
    user (low_bits (shr a 16) 8) ∷ user (low_bits (shr a 8) 8) ∷ user (low_bits a 8) ∷ []

abbrev pub write_enable : List ℕ
write_enable = f_end ∷ user 0x06 ∷ f_end ∷ []

-- All words are those of an erased flash.
unfoldable pub is_blank : List ℕ → Bool
is_blank [] = true
is_blank (v ∷ vs) = if v == 0xffffffff then is_blank vs else false

-- `bswapd`: the words of `len` bytes, where `n` is the number of them; the last one reads on behind.
unfoldable pub words_of : ℕ → (ℕ → ℕ) → ℕ → List ℕ
words_of zero bytes i = []
words_of (suc n) bytes i =
    buildword (bytes i) (bytes (i + 1)) (bytes (i + 2)) (bytes (i + 3)) ∷ words_of n bytes (i + 4)

-- The data, a byte at a time.
unfoldable pub byte_words : ℕ → (ℕ → ℕ) → ℕ → List ℕ
byte_words zero bytes i = []
byte_words (suc n) bytes i = user_write (low_bits (bytes i) 8) ∷ byte_words n bytes (i + 1)

-- The first `n` words of both agree; `readi` fills as many as it is asked for.
unfoldable pub same_words : ℕ → List ℕ → List ℕ → Bool
same_words zero buf goal = true
same_words (suc n) (v ∷ buf) (w ∷ goal) = if v == w then same_words n buf goal else false
same_words (suc n) buf goal = false

-- The assertions.
unfoldable pub fits_page : ℕ → ℕ → Bool
fits_page addr len =
    ltb 0 len && leb len page_bytes && (page_of addr == page_of (u32 (addr + len - 1)))

abbrev pub program_words : ℕ → ℕ → (ℕ → ℕ) → List ℕ
program_words addr len bytes =
    user 0x02 ∷ (address_words (low_bits addr 24) ++ (byte_words len bytes 0 ++ (f_end ∷ [])))

module _ {S : Type 0} (b : DevBus S) where
  -- A call of the bus.
  abbrev pub call : {A : Type 0} → Act S A → Method S A
  call f (m, s) = after (f s) (λ t. (m, t)) λ a t. (ok a, (m, t))

  -- `m_fpga->writeio(R_FLASHCFG, v)` for each of the values.
  unfoldable pub send : List ℕ → Method S (Unit {0})
  send [] = pure tt
  send (v ∷ vs) = call (b.writeio flashcfg v) >> send vs

  unfoldable pub take_offline : Method S (Unit {0})
  take_offline = send take_offline_words

  -- With a quad flash `place_online` is `restore_quadio`; `FLASH_NDUMMY` is 2.
  unfoldable pub place_online : Method S (Unit {0})
  place_online (id, s) = send (f_end ∷ (enable_xip id ++ quad_io)) (id, s)

  -- The loop of `flwait`, for so many polls: `blocked` when the flash is busy at all of them.
  unfoldable pub poll : ℕ → Method S (Unit {0})
  poll zero s = (blocked, s)
  poll (suc n) s =
      after (send (user 0x00 ∷ []) s) (λ t. t)
        λ _ s1.
          after (call (b.readio flashcfg) s1) (λ t. t)
            λ sr s2. let rest = poll n in if sr % 2 == 0 then send (f_end ∷ []) s2 else rest s2

  unfoldable pub flwait : ℕ → Method S (Unit {0})
  flwait polls = send (f_end ∷ user 0x05 ∷ []) >> poll polls

  -- The next byte of the identifier.
  unfoldable pub next_id : ℕ → Method S ℕ
  next_id r =
      send (user 0x00 ∷ [])
      >> (call (b.readio flashcfg) >>= λ v. pure (bit_or (shl32 r 8) (low_bits v 8)))

  unfoldable pub set_id : ℕ → Method S (Unit {0})
  set_id r (m, s) = (ok tt, (r, s))

  unfoldable pub flashid : Method S ℕ
  flashid (m, s) =
      if not (m == 0)
      then (ok m, (m, s))
      else (take_offline
            >> send (user 0x9f ∷ [])
            >> (next_id 0 >>= λ r0. next_id r0 >>= λ r1.
                next_id r1 >>= λ r2. next_id r2 >>= λ r. set_id r >> place_online >> pure r))
          (m, s)

  -- The loop over `n` pages, from the address `a` on.
  unfoldable pub verify_erased : ℕ → ℕ → Method S Bool
  verify_erased zero a = pure true
  verify_erased (suc n) a = call (b.readi (u32 a) 64) >>= λ page.
      if is_blank page then verify_erased n (a + page_bytes) else pure false

  unfoldable pub erase_commands : ℕ → ℕ → Method S (Unit {0})
  erase_commands polls a =
      take_offline
      >> send write_enable
      >> send (user 0xd8 ∷ (address_words a ++ (f_end ∷ [])))
      >> flwait polls
      >> place_online

  unfoldable pub erase_sector : ℕ → ℕ → Bool → Method S Bool
  erase_sector polls sector verify =
      let a = low_bits sector 24 in
      erase_commands polls a >> (if verify then verify_erased 256 (flash_base + a) else pure true)

  unfoldable pub verify_page : ℕ → ℕ → List ℕ → Method S Bool
  verify_page addr len goal =
      call (b.readi addr (len / 4)) >>= λ buf. pure (same_words (len / 4) buf goal)

  unfoldable pub program_commands : ℕ → ℕ → ℕ → (ℕ → ℕ) → Method S (Unit {0})
  program_commands polls addr len bytes =
      send write_enable >> send (program_words addr len bytes) >> flwait polls >> place_online

  -- What follows the assertions; `goal` is `bswapd`.
  unfoldable pub program : ℕ → ℕ → ℕ → (ℕ → ℕ) → List ℕ → Bool → Method S Bool
  program polls addr len bytes goal verify =
      if is_blank goal
      then place_online >> pure true
      else (program_commands polls addr len bytes
          >> (if verify then verify_page addr len goal else pure true))

  -- `bytes` is the memory that `data` points to.
  unfoldable pub page_program : ℕ → ℕ → ℕ → (ℕ → ℕ) → Bool → Method S Bool
  page_program polls addr len bytes verify =
      take_offline
      >> (if fits_page addr len
          then program polls addr len bytes (words_of ((len + 3) / 4) bytes 0) verify
          else (λ s. (exits, s)))
