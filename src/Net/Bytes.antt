-- ===== src/Net/Bytes.antt =====
-- Reading back the bytes written to a packet (sw/rv32).
use zipversa.Base.{
  ℕ, zero, suc, ◌+◌, ◌*◌, ◌%◌, ◌^◌, ◌≤◌, ◌<◌, ◌≡◌, ◌⊎◌, inl, inr, refl, arith, bit_or,
}
use zipversa.Base.{if◌then◌else◌, ◌==◌, ap, ◌∙◌, List, [], ◌∷◌, length, get_or}
use zipversa.Base.Bits.{bit_or_fields}
use native.Mathlib.Nat.{mod-eq_of_lt}
use zipversa.Net.State.{Packet, byte, set_byte, set_bytes, unskip}
use zipversa.Net.Ether.{
  join_byte, mac_at, word_at, half_at, mac_bytes, half_bytes, set_header, ethpkt_mac,
  ethpkt_ethtype,
}
use zipversa.Net.Arp.{ip_bytes}

byte-set_byte :
    (k v j : ℕ) (p : Packet)
    → p.user + k < 2 ^ 32
    → p.user + j < 2 ^ 32
    → byte (set_byte k v p) j ≡ (if j == k then v % 256 else byte p j)
byte-set_byte k v j p hk hj = ground arith

pub user-set_bytes : (k : ℕ) (vs : List ℕ) (p : Packet) → (set_bytes k vs p).user ≡ p.user
unfolding set_bytes
user-set_bytes k [] p = refl
user-set_bytes k (v ∷ vs) p = user-set_bytes (suc k) vs (set_byte k v p)

pub length-set_bytes : (k : ℕ) (vs : List ℕ) (p : Packet) → (set_bytes k vs p).length ≡ p.length
unfolding set_bytes
length-set_bytes k [] p = refl
length-set_bytes k (v ∷ vs) p = length-set_bytes (suc k) vs (set_byte k v p)

-- A byte that is not written.
pub byte-set_bytes_out :
    (k : ℕ) (vs : List ℕ) (j : ℕ) (p : Packet)
    → p.user + k + length vs ≤ 2 ^ 32
    → p.user + j < 2 ^ 32
    → (j < k) ⊎ (k + length vs ≤ j)
    → byte (set_bytes k vs p) j ≡ byte p j
unfolding set_bytes
byte-set_bytes_out k [] j p h hj out = refl
byte-set_bytes_out k (v ∷ vs) j p h hj out =
    byte-set_bytes_out (suc k) vs j (set_byte k v p) (omega (arith, h)) hj (later out)
    ∙ byte-set_byte k v j p (omega (arith, h)) hj
    ∙ ground arith
  where
    later : (j < k) ⊎ (k + length (v ∷ vs) ≤ j) → (j < suc k) ⊎ (suc k + length vs ≤ j)
    later (inl p) = inl (omega arith)
    later (inr p) = inr (omega arith)

-- A byte that is written.
pub byte-set_bytes_in :
    (k : ℕ) (vs : List ℕ) (i : ℕ) (p : Packet)
    → p.user + k + length vs ≤ 2 ^ 32
    → i < length vs
    → byte (set_bytes k vs p) (k + i) ≡ get_or vs i 0 % 256
unfolding set_bytes
byte-set_bytes_in k [] i p h hi = absurd (omega arith)
byte-set_bytes_in k (v ∷ vs) zero p h hi =
    let e : k + 0 ≡ k = omega arith in
    rw e (
      byte-set_bytes_out (suc k) vs k (set_byte k v p) (omega (arith, h)) (omega (arith, h))
        (inl (omega arith))
      ∙ byte-set_byte k v k p (omega (arith, h)) (omega (arith, h))
      ∙ ground arith)
byte-set_bytes_in k (v ∷ vs) (suc i) p h hi =
    let e : k + suc i ≡ suc k + i = omega arith in
    rw e (byte-set_bytes_in (suc k) vs i (set_byte k v p) (omega (arith, h)) (omega arith))

pub join_byte_lem : (w v b : ℕ) → v * 256 < 2 ^ w → b < 256 → join_byte w v b ≡ v * 256 + b
join_byte_lem w v b h hb = ap (λ t. bit_or t b) (mod-eq_of_lt h) ∙ bit_or_fields 8 v b hb

-- The value of the bytes at `k`, highest first.
pub half_at_lem : (p : Packet) (k : ℕ) → half_at p k ≡ byte p k * 256 + byte p (k + 1)
unfolding half_at
half_at_lem p k = bit_or_fields 8 (byte p k) (byte p (k + 1)) (omega arith)

pub word_at_lem :
    (p : Packet) (k : ℕ)
    → word_at p k
      ≡ ((byte p k * 256 + byte p (k + 1)) * 256 + byte p (k + 2)) * 256 + byte p (k + 3)
unfolding word_at
word_at_lem p k =
    let b0 = byte p k in
    let b1 = byte p (k + 1) in
    let b2 = byte p (k + 2) in
    rw
      (
        join_byte_lem 32 b0 b1 (omega arith) (omega arith),
        join_byte_lem 32 (b0 * 256 + b1) b2 (omega arith) (omega arith),
        join_byte_lem 32 ((b0 * 256 + b1) * 256 + b2) (byte p (k + 3)) (omega arith) (omega arith),
      )
      refl

pub mac_at_lem :
    (p : Packet) (k : ℕ)
    → mac_at p k
      ≡ ((((byte p k * 256 + byte p (k + 1)) * 256 + byte p (k + 2)) * 256 + byte p (k + 3)) * 256
            + byte p (k + 4))
          * 256
        + byte p (k + 5)
unfolding mac_at
mac_at_lem p k =
    let b0 = byte p k in
    let m1 = b0 * 256 + byte p (k + 1) in
    let m2 = m1 * 256 + byte p (k + 2) in
    let m3 = m2 * 256 + byte p (k + 3) in
    let m4 = m3 * 256 + byte p (k + 4) in
    rw
      (
        join_byte_lem 64 b0 (byte p (k + 1)) (omega arith) (omega arith),
        join_byte_lem 64 m1 (byte p (k + 2)) (omega arith) (omega arith),
        join_byte_lem 64 m2 (byte p (k + 3)) (omega arith) (omega arith),
        join_byte_lem 64 m3 (byte p (k + 4)) (omega arith) (omega arith),
        join_byte_lem 64 m4 (byte p (k + 5)) (omega arith) (omega arith),
      )
      refl

-- The packet has these bytes from `p_user[k]` on.
abbrev pub Holds : Packet → ℕ → List ℕ → Type 0
Holds p k vs = (i : ℕ) → i < length vs → byte p (k + i) ≡ get_or vs i 0 % 256

first_byte :
    (p : Packet) (k : ℕ) (vs : List ℕ)
    → 1 ≤ length vs
    → Holds p k vs
    → byte p k ≡ get_or vs 0 0 % 256
first_byte p k vs n h = ap (λ j. byte p j) {x = k} {y = k + 0} (omega arith) ∙ h 0 n

pub mac_at-Holds :
    (p : Packet) (k mac : ℕ) → mac < 2 ^ 48 → Holds p k (mac_bytes mac) → mac_at p k ≡ mac
mac_at-Holds p k mac hm h =
    mac_at_lem p k
    ∙ omega (
      arith,
      first_byte p k (mac_bytes mac) (omega arith) h,
      h 1 (omega arith),
      h 2 (omega arith),
      h 3 (omega arith),
      h 4 (omega arith),
      h 5 (omega arith),
    )

pub word_at-Holds : (p : Packet) (k a : ℕ) → a < 2 ^ 32 → Holds p k (ip_bytes a) → word_at p k ≡ a
word_at-Holds p k a ha h =
    word_at_lem p k
    ∙ omega (
      arith,
      first_byte p k (ip_bytes a) (omega arith) h,
      h 1 (omega arith),
      h 2 (omega arith),
      h 3 (omega arith),
    )

pub half_at-Holds : (p : Packet) (k x : ℕ) → x < 2 ^ 16 → Holds p k (half_bytes x) → half_at p k ≡ x
half_at-Holds p k x hx h =
    half_at_lem p k
    ∙ omega (arith, first_byte p k (half_bytes x) (omega arith) h, h 1 (omega arith))

-- Bytes written hold, and go on to hold when others are written.
pub set_bytes-Holds :
    (k : ℕ) (vs : List ℕ) (p : Packet)
    → p.user + k + length vs ≤ 2 ^ 32
    → Holds (set_bytes k vs p) k vs
set_bytes-Holds k vs p h i hi = byte-set_bytes_in k vs i p h hi

pub set_bytes-Holds_other :
    (k : ℕ) (vs : List ℕ) (l : ℕ) (us : List ℕ) (p : Packet)
    → p.user + k + length vs ≤ 2 ^ 32
    → p.user + l + length us ≤ 2 ^ 32
    → (l + length us ≤ k) ⊎ (k + length vs ≤ l)
    → Holds p l us
    → Holds (set_bytes k vs p) l us
set_bytes-Holds_other k vs l us p h hl out held i hi =
    byte-set_bytes_out k vs (l + i) p h (omega (arith, hl)) (apart out) ∙ held i hi
  where
    apart : (l + length us ≤ k) ⊎ (k + length vs ≤ l) → (l + i < k) ⊎ (k + length vs ≤ l + i)
    apart (inl q) = inl (omega arith)
    apart (inr q) = inr (omega arith)

-- The type and the address that `tx_ethpkt` writes ahead of a packet with room for them are the ones
-- that a receiver reads from the frame.
pub ethpkt-set_header :
    (ethtype mac : ℕ) (p : Packet)
    → 8 ≤ p.user
    → p.user < 2 ^ 32
    → ethtype < 2 ^ 16
    → mac < 2 ^ 48
    → (ethpkt_ethtype (set_header ethtype mac p) ≡ ethtype)
      × (ethpkt_mac (set_header ethtype mac p) ≡ mac)
unfolding ethpkt_ethtype ethpkt_mac set_header
ethpkt-set_header ethtype mac p h8 h32 ht hm =
    let q = unskip 8 p in
    let q1 = set_bytes 0 (mac_bytes mac) q in
    let room1 : q.user + 0 + 6 ≤ 2 ^ 32 = omega arith in
    let room2 : q1.user + 6 + 2 ≤ 2 ^ 32 = omega (arith, user-set_bytes 0 (mac_bytes mac) q) in
    let room3 : q1.user + 0 + 6 ≤ 2 ^ 32 = omega (arith, user-set_bytes 0 (mac_bytes mac) q) in
    (
      half_at-Holds _ 6 ethtype ht (set_bytes-Holds 6 (half_bytes ethtype) q1 room2),
      mac_at-Holds _ 0 mac hm (
          set_bytes-Holds_other 6 (half_bytes ethtype) 0 (mac_bytes mac) q1 room2 room3
            (inl (omega arith)) (set_bytes-Holds 0 (mac_bytes mac) q room1)),
    )
