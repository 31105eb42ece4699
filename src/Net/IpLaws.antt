-- ===== src/Net/IpLaws.antt =====
-- The IP header that `ip_set` writes (sw/rv32/ipproto.c).
use zipversa.Base.{ℕ, zero, suc, ◌+◌, ◌*◌, ◌%◌, ◌^◌, ◌≤◌, ◌<◌, ◌≡◌, ◌≢◌, ◌⊎◌, inl, inr, refl, arith}
use zipversa.Base.{ap, sym, ◌∙◌, List, length, get_or}
use native.Mathlib.Decide.{dec_lt}
use zipversa.Base.Bits.{u32}
use zipversa.Net.State.{Packet, Net, byte, set_bytes}
use zipversa.Net.Ether.{half_bytes}
use zipversa.Net.Checksum.{ipcksum}
use zipversa.Net.ChecksumLaws.{words_from, ipcksum_verifies, ipcksum_lt}
use zipversa.Net.Arp.{ip_bytes}
use zipversa.Net.Ip.{header, big_prime, ip_set, ippkt_src, ippkt_dst, ippkt_subproto}
use zipversa.Net.Bytes.{
  user-set_bytes, byte-set_bytes_out, Holds, word_at-Holds, set_bytes-Holds, set_bytes-Holds_other,
}

-- A part of what a packet holds.
Holds-part :
    (p : Packet) (k m : ℕ) (vs us : List ℕ)
    → Holds p k vs
    → m + length us ≤ length vs
    → ((i : ℕ) → i < length us → get_or us i 0 ≡ get_or vs (m + i) 0)
    → Holds p (k + m) us
Holds-part p k m vs us h fits same i hi =
    ap (λ j. byte p j) {x = k + m + i} {y = k + (m + i)} (omega arith)
    ∙ h (m + i) (omega arith)
    ∙ ap (λ t. t % 256) (sym (same i hi))

-- Four bytes, one by one.
four : (P : ℕ → Type 0) → P 0 → P 1 → P 2 → P 3 → (i : ℕ) → i < 4 → P i
four P a b c d zero h = a
four P a b c d (suc zero) h = b
four P a b c d (suc (suc zero)) h = c
four P a b c d (suc (suc (suc zero))) h = d
four P a b c d (suc (suc (suc (suc i)))) h = absurd (omega arith)

module _ (p : Packet) (subproto src dest : ℕ) (s : Net) (room : p.user + 20 ≤ 2 ^ 32) where
  abbrev fields : List ℕ
  fields = header p.length (u32 (s.ip_pktid + big_prime)) subproto src dest

  abbrev plain : Packet
  plain = set_bytes 0 fields p

  abbrev cksum : ℕ
  cksum = ipcksum 20 (byte plain)

  abbrev whole : Packet
  whole = set_bytes 10 (half_bytes cksum) plain

  plain-Holds : Holds plain 0 fields
  unfolding header
  plain-Holds = set_bytes-Holds 0 fields p (omega arith)

  plain_user : plain.user ≡ p.user
  plain_user = user-set_bytes 0 fields p

  src_Holds : Holds whole 12 (ip_bytes src)
  unfolding header
  src_Holds =
      set_bytes-Holds_other 10 (half_bytes cksum) 12 (ip_bytes src) plain
        (omega (arith, plain_user)) (omega (arith, plain_user)) (inr (omega arith))
        (Holds-part plain 0 12 fields (ip_bytes src) plain-Holds (omega arith)
          (four (λ i. get_or (ip_bytes src) i 0 ≡ get_or fields (12 + i) 0) refl refl refl refl))

  dest_Holds : Holds whole 16 (ip_bytes dest)
  unfolding header
  dest_Holds =
      set_bytes-Holds_other 10 (half_bytes cksum) 16 (ip_bytes dest) plain
        (omega (arith, plain_user)) (omega (arith, plain_user)) (inr (omega arith))
        (Holds-part plain 0 16 fields (ip_bytes dest) plain-Holds (omega arith)
          (four (λ i. get_or (ip_bytes dest) i 0 ≡ get_or fields (16 + i) 0) refl refl refl refl))

  protocol : byte whole 9 ≡ subproto % 256
  unfolding header
  protocol =
      byte-set_bytes_out 10 (half_bytes cksum) 9 plain (omega (arith, plain_user))
        (omega (arith, plain_user)) (inl (omega arith))
      ∙ plain-Holds 9 (omega arith)

  verifies : ipcksum 20 (byte whole) ≡ 0
  unfolding header words_from
  verifies =
      ipcksum_verifies 10 5 (byte plain) (byte whole) (omega arith) (omega arith) (λ j. omega arith)
        (omega (arith, plain-Holds 0 (omega arith))) (plain-Holds 10 (omega arith))
        (plain-Holds 11 (omega arith))
        (omega (arith, put 0 (omega arith), put 1 (omega arith), ipcksum_lt 20 (byte plain)))
        (λ j lt n1 n2.
          byte-set_bytes_out 10 (half_bytes cksum) j plain (omega (arith, plain_user))
            (omega (arith, plain_user)) (apart j n1 n2))
    where
      put : Holds whole 10 (half_bytes cksum)
      put = set_bytes-Holds 10 (half_bytes cksum) plain (omega (arith, plain_user))

      apart : (j : ℕ) → j ≢ 5 * 2 → j ≢ 5 * 2 + 1 → (j < 10) ⊎ (12 ≤ j)
      apart j n1 n2 = elim (dec_lt j 10) [ yes q ↦ inl q | no q ↦ inr (omega arith) ]

  -- The header that `ip_set` writes to a packet of room for it has a checksum that verifies, and holds
  -- the addresses and the protocol that were given.
  pub ip_set_returns :
      src < 2 ^ 32
      → dest < 2 ^ 32
      → subproto < 256
      → (ipcksum 20 (byte (ip_set p subproto src dest s).0) ≡ 0)
        × (ippkt_src (ip_set p subproto src dest s).0 ≡ src)
        × (ippkt_dst (ip_set p subproto src dest s).0 ≡ dest)
        × (ippkt_subproto (ip_set p subproto src dest s).0 ≡ subproto)
  unfolding ip_set ippkt_src ippkt_dst ippkt_subproto
  ip_set_returns hs hd hp = (
    verifies,
    word_at-Holds whole 12 src hs src_Holds,
    word_at-Holds whole 16 dest hd dest_Holds,
    omega (arith, protocol),
  )
