-- ===== src/Net/Memory.antt =====
-- Packets that are made, waiting and freed in the network stack of sw/rv32: pkt.c, ethproto.c and
-- the sending side of arp.c.
use zipversa.Base.{
  ℕ, suc, ◌+◌, ◌-◌, ◌<◌, ◌≡◌, ◌≢◌, inl, inr, refl, arith, Bool-cases, true, false, Option, none,
  some,
}
use zipversa.Base.{◌==◌, sym, List, [], ◌∷◌}
use mathlib.Core.Path.{subst}
use zipversa.Net.State.{Packet, Net, set_byte, set_bytes}
use zipversa.Net.Packet.{new_pkt, free_pkt, tx_busy, is_tx_busy, tx_pkt}

abbrev pub held : Option Packet → ℕ
held none = 0
held (some p) = 1

-- A packet that waits is held once, and was made before.
abbrev pub IsWaiting : Option Packet → ℕ → Type 0
IsWaiting none m = Unit {0}
IsWaiting (some p) m = (p.usage_count ≡ 1) × (p.address < m)

-- Every packet that was made is freed, or waits, or is one of `n` more.
abbrev pub IsBalanced : ℕ → Net → Type 0
IsBalanced n s = (s.mallocs ≡ s.frees + held s.waiting_pkt + n) × IsWaiting s.waiting_pkt s.mallocs

abbrev pub IsElsewhere : ℕ → Option Packet → Type 0
IsElsewhere a none = Unit {0}
IsElsewhere a (some p) = p.address ≢ a

-- A packet that was made and does not wait.
abbrev pub IsApart : ℕ → Net → Type 0
IsApart a s = (a < s.mallocs) × IsElsewhere a s.waiting_pkt

-- A packet held once is one of the `n` and one more.
pub record Owns (n : ℕ) (p : Packet) (s : Net) : Type 0 where
  pub once : p.usage_count ≡ 1
  pub apart : IsApart p.address s
  pub balanced : IsBalanced (suc n) s

new-IsElsewhere : (w : Option Packet) (m : ℕ) → IsWaiting w m → IsElsewhere m w
new-IsElsewhere none m h = tt
new-IsElsewhere (some p) m (u, lt) = λ e. omega (arith, lt, e)

more-IsWaiting : (w : Option Packet) (m : ℕ) → IsWaiting w m → IsWaiting w (m + 1)
more-IsWaiting none m h = tt
more-IsWaiting (some p) m (u, lt) = (u, omega (arith, lt))

pub new_pkt-Owns : (n ln : ℕ) (s : Net) → IsBalanced n s → Owns n (new_pkt ln s).0 (new_pkt ln s).1
unfolding new_pkt
new_pkt-Owns n ln s (count, w) = record {
  once = refl;
  apart = (omega arith, new-IsElsewhere s.waiting_pkt s.mallocs w);
  balanced = (omega (arith, count), more-IsWaiting s.waiting_pkt s.mallocs w);
}

pub free_pkt-IsBalanced :
    (n : ℕ) (p : Packet) (s : Net) → Owns n p s → IsBalanced n (free_pkt p s).1
unfolding free_pkt
free_pkt-IsBalanced n p s o =
    let z : (p.usage_count - 1 == 0) ≡ true = ground (arith, o.once) in
    rw z (omega (arith, o.balanced.0), o.balanced.1)

busy_none :
    (p : Packet) (s : Net) → s.waiting_pkt ≡ none → tx_busy p s ≡ record s { waiting_pkt = some p }
unfolding tx_busy
busy_none p s e = rw e refl

busy_some :
    (p old : Packet) (s : Net)
    → s.waiting_pkt ≡ some old
    → old.usage_count ≡ 1
    → old.address ≢ p.address
    → tx_busy p s ≡ record s { waiting_pkt = some p; frees = s.frees + 1 }
unfolding tx_busy free_pkt
busy_some p old s e u ne =
    let f : (old.address == p.address) ≡ false = ground (arith, ne) in
    let z : (old.usage_count - 1 == 0) ≡ true = ground (arith, u) in rw (e, f, z) refl

-- Handing a packet on to `tx_busy`.
busy_case :
    (n : ℕ) (p : Packet) (s : Net) (w : Option Packet)
    → s.waiting_pkt ≡ w
    → p.usage_count ≡ 1
    → p.address < s.mallocs
    → IsElsewhere p.address w
    → s.mallocs ≡ s.frees + held w + suc n
    → IsWaiting w s.mallocs
    → IsBalanced n (tx_busy p s)
busy_case n p s none e u lt apart count w = rw (busy_none p s e) (omega (arith, count), (u, lt))
busy_case n p s (some old) e u lt apart count w =
    rw (busy_some p old s e w.0 apart) (omega (arith, count), (u, lt))

pub tx_pkt-IsBalanced : (n : ℕ) (p : Packet) (s : Net) → Owns n p s → IsBalanced n (tx_pkt p s)
unfolding tx_pkt
tx_pkt-IsBalanced n p s o = elim (Bool-cases (is_tx_busy s)) [
  | inl busy ↦
      rw busy
        (busy_case n p s s.waiting_pkt refl o.once o.apart.0 o.apart.1 o.balanced.0 o.balanced.1)
  | inr idle ↦
      rw idle (
        free_pkt-IsBalanced n p _
          (record { once = o.once; apart = o.apart; balanced = o.balanced }))
]

free_pkt-keeps :
    (p : Packet) (s : Net)
    → ((free_pkt p s).1.mallocs ≡ s.mallocs) × ((free_pkt p s).1.waiting_pkt ≡ s.waiting_pkt)
unfolding free_pkt
free_pkt-keeps p s = elim (Bool-cases (p.usage_count - 1 == 0)) [
  | inl e ↦ rw e (refl, refl)
  | inr e ↦ rw e (refl, refl)
]

busy_same :
    (p old : Packet) (s : Net)
    → s.waiting_pkt ≡ some old
    → (old.address == p.address) ≡ true
    → tx_busy p s ≡ s
unfolding tx_busy
busy_same p old s e f = rw (e, f) refl

busy_other :
    (p old : Packet) (s : Net)
    → s.waiting_pkt ≡ some old
    → (old.address == p.address) ≡ false
    → tx_busy p s ≡ record ((free_pkt old s).1) { waiting_pkt = some p }
unfolding tx_busy
busy_other p old s e f = rw (e, f) refl

busy-IsApart :
    (a : ℕ) (p : Packet) (s : Net) (w : Option Packet)
    → s.waiting_pkt ≡ w
    → p.address ≢ a
    → IsApart a s
    → IsApart a (tx_busy p s)
busy-IsApart a p s none e ne apart = rw (busy_none p s e) (apart.0, ne)
busy-IsApart a p s (some old) e ne apart = elim (Bool-cases (old.address == p.address)) [
  | inl f ↦ subst (IsApart a) (sym (busy_same p old s e f)) apart
  | inr f ↦
      rw (busy_other p old s e f) (subst (λ m. a < m) (sym (free_pkt-keeps old s).0) apart.0, ne)
]

-- Another packet stays apart.
pub free_pkt-IsApart : (a : ℕ) (p : Packet) (s : Net) → IsApart a s → IsApart a (free_pkt p s).1
free_pkt-IsApart a p s apart = (
  subst (λ m. a < m) (sym (free_pkt-keeps p s).0) apart.0,
  subst (IsElsewhere a) (sym (free_pkt-keeps p s).1) apart.1,
)

pub tx_pkt-IsApart :
    (a : ℕ) (p : Packet) (s : Net) → p.address ≢ a → IsApart a s → IsApart a (tx_pkt p s)
unfolding tx_pkt
tx_pkt-IsApart a p s ne apart = elim (Bool-cases (is_tx_busy s)) [
  | inl busy ↦ rw busy (busy-IsApart a p s s.waiting_pkt refl ne apart)
  | inr idle ↦ rw idle (free_pkt-IsApart a p _ apart)
]

-- The bytes of a packet do not matter for who holds it.
pub held-set_bytes :
    (k : ℕ) (vs : List ℕ) (p : Packet)
    → Path
        (ℕ × ℕ)
        ((set_bytes k vs p).usage_count, (set_bytes k vs p).address)
        (p.usage_count, p.address)
unfolding set_bytes
held-set_bytes k [] p = refl
held-set_bytes k (v ∷ vs) p = held-set_bytes (suc k) vs (set_byte k v p)

pub set_bytes-Owns :
    (n k : ℕ) (vs : List ℕ) (p : Packet) (s : Net) → Owns n p s → Owns n (set_bytes k vs p) s
unfolding set_bytes
set_bytes-Owns n k [] p s o = o
set_bytes-Owns n k (v ∷ vs) p s o =
    set_bytes-Owns n (suc k) vs (set_byte k v p) s
      (record { once = o.once; apart = o.apart; balanced = o.balanced })
