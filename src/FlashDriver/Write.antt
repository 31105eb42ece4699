-- ===== src/FlashDriver/Write.antt =====
-- FLASHDRVR::write of sw/host/flashdrvr.cpp, as it is compiled with `FLASH_ACCESS`.
use zipversa.Base.{ℕ, zero, suc, ◌+◌, ◌-◌, ◌/◌, ◌%◌, ◌^◌, Bool, true, false, not, ◌&&◌}
use zipversa.Base.{if◌then◌else◌, ltb, leb, ◌==◌, bit_and, List, [], ◌∷◌, take}
use zipversa.Base.Bits.{u32, low_bits}
use zipversa.TtyBus.State.{exits}
use zipversa.DevBus.{DevBus, pure, ◌>>=◌, ◌>>◌}
use zipversa.FlashDriver.{
  Method, call, send, take_offline, place_online, flashid, erase_sector, page_program, page_of,
  sector_of, user, f_end, flash_base, page_bytes, sector_bytes,
}

abbrev flashscope : ℕ
flashscope = 0x00300000

-- The bytes of words as the host, a little-endian machine, keeps them; `junk` lies behind them.
unfoldable pub bytes_of : List ℕ → List ℕ → List ℕ
bytes_of [] junk = junk
bytes_of (w ∷ ws) junk =
    low_bits w 8
    ∷ low_bits (w / 2 ^ 8) 8
    ∷ low_bits (w / 2 ^ 16) 8
    ∷ low_bits (w / 2 ^ 24) 8
    ∷ bytes_of ws junk

-- The comparison of a sector's bytes with those that are wanted, from index `i` on: whether to erase,
-- and `newv`. The goal is the memory behind `dp`.
unfoldable pub compare_bytes : ℕ → (ℕ → ℕ) → ℕ → ℕ → List ℕ → Bool × ℕ
compare_bytes base goal i newv [] = (false, newv)
compare_bytes base goal i newv (a ∷ s) =
    let d = goal i in
    let here = i - i % 4 + base in
    let rest =
      compare_bytes base goal (i + 1) (if not (a == d) && (newv == 0) then here else newv) s in
    if not (bit_and a d == d) then (true, here) else rest

-- The arguments of `write`; `memory` is what `data` points to. `polls` bounds the waiting of `flwait`,
-- `junk` is the new buffer's content, and `stray p` is what the second `len`, which is read before it
-- has a value, holds at page `p`.
pub record Request : Type 0 where
  pub addr : ℕ
  pub len : ℕ
  pub memory : ℕ → ℕ
  pub verify : Bool
  pub polls : ℕ
  pub junk : List ℕ
  pub stray : ℕ → ℕ

abbrev pub end_of : Request → ℕ
end_of q = u32 (q.addr + q.len)

-- The length of the part of the data that is in page `p`.
unfoldable pub page_length : Request → ℕ → ℕ
page_length q p =
    let len = u32 (q.addr + q.stray p + 2 ^ 32 - p) in
    if page_of (u32 (p + len + 2 ^ 32 - 1)) == page_of p then len else page_of (p + page_bytes) - p

unfoldable pub sector_length : Request → ℕ → ℕ → ℕ
sector_length q s base =
    u32 ((if ltb (s + sector_bytes) (end_of q) then s + sector_bytes else end_of q) + 2 ^ 32 - base)

module _ {S : Type 0} (b : DevBus S) (q : Request) where
  -- The pages from address `p` on, `n` of them up to the end of the sector.
  unfoldable pub pages : ℕ → ℕ → Method S Bool
  pages zero p = pure true
  pages (suc n) p =
      if not (ltb p (end_of q))
      then pure true
      else (page_program b q.polls p (page_length q p) (λ i. q.memory (p - q.addr + i)) q.verify
          >>= λ done. if done then pages n (page_of (p + page_bytes)) else pure false)

  -- What follows the comparison of the sector at `s`.
  unfoldable pub update : ℕ → Bool × ℕ → Method S Bool
  update s (need_erase, newv) =
      let first = if need_erase then (if ltb s q.addr then q.addr else s) else newv in
      if newv == 0
      then pure true
      else ((if need_erase then erase_sector b q.polls s q.verify else pure true) >>= λ done.
          if done
          then pages ((s + sector_bytes - page_of first) / page_bytes) first
          else pure false)

  unfoldable pub sector : ℕ → Method S Bool
  sector s =
      let base = if ltb s q.addr then q.addr else s in
      let ln = sector_length q s base in
      call b (b.readi base (ln / 4)) >>= λ sbuf.
      call b (b.writeio flashscope 8180)
      >> update s (
          compare_bytes base (λ i. q.memory (base - q.addr + i)) 0 0
            (take ln (bytes_of sbuf q.junk)))

  -- The sectors from address `s` on, `n` of them.
  unfoldable pub sectors : ℕ → ℕ → Method S Bool
  sectors zero s = pure true
  sectors (suc n) s = sector s >>= λ done. if done then sectors n (s + sector_bytes) else pure false

  -- `verify_config` answers true.
  unfoldable pub write : Method S Bool
  write =
      let from = sector_of q.addr in
      let to = sector_of (u32 (q.addr + q.len + sector_bytes - 1)) in
      flashid b >>= λ _.
      if not (leb flash_base q.addr && leb (end_of q) 0x02000000)
      then (λ s. (exits, s))
      else (sectors ((to - from) / sector_bytes) from >>= λ done.
          if done
          then take_offline b >> send b (user 0x04 ∷ f_end ∷ []) >> place_online b >> pure true
          else pure false)
