-- ===== src/DblUart/Transmit.antt =====
-- The bits of a character on the wire into the device: DBLUARTSIM::tick
-- (sim/verilated/dbluartsim.cpp).
use zipversa.Base.{ℕ, zero, suc, ◌+◌, ◌-◌, ◌*◌, ◌/◌, ◌^◌, ◌≡◌, refl, arith, ap, ◌∙◌}
use zipversa.Base.{true, false, ◌%◌, ◌≤◌, ◌<◌, ◌==◌, if◌then◌else◌, Bool-cases, inl, inr}
use native.Mathlib.Nat.{pow-suc, one-le-pow, zero-add, suc-add, div-div-eq-div-mul}
use mathlib.Core.Path.{subst}
use zipversa.DblUart.{Uart, Net, tx_tick}

abbrev pub tx_ticks : Net → ℕ → Uart → Uart
tx_ticks net zero u = u
tx_ticks net (suc n) u = tx_ticks net n (tx_tick net u).1

tx_ticks-add :
    (net : Net) (m n : ℕ) (u : Uart) → tx_ticks net (m + n) u ≡ tx_ticks net n (tx_ticks net m u)
tx_ticks-add net zero n u = rw (zero-add n) refl
tx_ticks-add net (suc m) n u = rw (suc-add m n) (tx_ticks-add net m n (tx_tick net u).1)

tx_hold :
    (net : Net) (u : Uart) (b : ℕ)
    → u.tx_data_state ≡ true
    → u.tx_baudcounter ≡ suc b
    → (tx_tick net u).1 ≡ record u { tx_baudcounter = b }
unfolding tx_tick
tx_hold net u b h e = rw (h, e) (ground arith)

tx_shift :
    (net : Net) (u : Uart) (b : ℕ)
    → u.tx_data_state ≡ true
    → u.tx_baudcounter ≡ 0
    → u.tx_busy ≡ suc (suc b)
    → (tx_tick net u).1 ≡ record u {
      tx_data = u.tx_data / 2;
      tx_busy = u.tx_busy / 2;
      tx_baudcounter = u.baud_counts - 1;
    }
unfolding tx_tick
tx_shift net u b h e k = ground arith

abbrev pub moved : Uart → ℕ → ℕ → ℕ → Uart
moved u d k c = record u { tx_data = d; tx_busy = k; tx_baudcounter = c }

moved-eq :
    (u : Uart) (d d1 k k1 c c1 : ℕ) → d ≡ d1 → k ≡ k1 → c ≡ c1 → moved u d k c ≡ moved u d1 k1 c1
moved-eq u d d1 k k1 c c1 p q r = rw (p, q, r) refl

div_twice : (x n : ℕ) → x / 2 / 2 ^ n ≡ x / 2 ^ suc n
div_twice x n =
    div-div-eq-div-mul x 2 (2 ^ n)
    ∙ ap (λ m. x / m) {x = 2 * 2 ^ n} {y = 2 ^ suc n} (omega (arith, pow-suc 2 n))

-- One bit: the rest of its period, and the shift.
tx_period :
    (net : Net) (b c : ℕ) (u : Uart)
    → u.tx_data_state ≡ true
    → u.tx_baudcounter ≡ b
    → u.tx_busy ≡ suc (suc c)
    → tx_ticks net (suc b) u ≡ moved u (u.tx_data / 2) (u.tx_busy / 2) (u.baud_counts - 1)
tx_period net zero c u h e k = tx_shift net u c h e k
tx_period net (suc b) c u h e k =
    rw (tx_hold net u b h e) (tx_period net b c (record u { tx_baudcounter = b }) h refl k)

busy_pair : (n : ℕ) → 2 ^ suc (suc n) - 1 ≡ suc (suc (2 ^ suc (suc n) - 3))
busy_pair n = omega (arith, pow-suc 2 (suc n), pow-suc 2 n, one-le-pow n 2 (omega arith))

tx_frame :
    (net : Net) (b n : ℕ) (u : Uart)
    → u.tx_data_state ≡ true
    → u.baud_counts ≡ suc b
    → u.tx_baudcounter ≡ b
    → u.tx_busy ≡ 2 ^ suc n - 1
    → tx_ticks net (n * suc b) u ≡ moved u (u.tx_data / 2 ^ n) 1 b
tx_frame net b zero u h e c k =
    subst (λ m. tx_ticks net m u ≡ moved u (u.tx_data / 2 ^ 0) 1 b) {x = 0} {y = zero * suc b}
      (omega arith) (moved-eq u _ _ _ _ _ _ (omega arith) k c)
tx_frame net b (suc n) u h e c k =
    let v = moved u (u.tx_data / 2) (u.tx_busy / 2) (u.baud_counts - 1) in
    let first : tx_ticks net (suc b) u ≡ v =
      tx_period net b (2 ^ suc (suc n) - 3) u h c (k ∙ busy_pair n) in
    let rest : tx_ticks net (n * suc b) v ≡ moved u (u.tx_data / 2 / 2 ^ n) 1 b =
      tx_frame net b n v h e (omega (arith, e))
        (omega (arith, k, pow-suc 2 (suc n), one-le-pow n 2)) in
    subst (λ m. tx_ticks net m u ≡ moved u (u.tx_data / 2 ^ suc n) 1 b) {x = suc b + n * suc b}
      {y = suc n * suc b} (omega arith)
      (tx_ticks-add net (suc b) (n * suc b) u
        ∙ ap (tx_ticks net (n * suc b)) first
        ∙ rest
        ∙ moved-eq u _ _ _ _ _ _ (div_twice u.tx_data n) refl refl)

-- Ticks within a bit.
tx_hold_all :
    (net : Net) (r k : ℕ) (u : Uart)
    → u.tx_data_state ≡ true
    → u.tx_baudcounter ≡ r + k
    → tx_ticks net r u ≡ record u { tx_baudcounter = k }
tx_hold_all net zero k u h e = ap (λ c. record u { tx_baudcounter = c }) (e ∙ zero-add k)
tx_hold_all net (suc r) k u h e =
    ap (tx_ticks net r) (tx_hold net u (r + k) h (e ∙ suc-add r k))
    ∙ tx_hold_all net r k (record u { tx_baudcounter = r + k }) h refl

-- The wire, at the tick at place `r` of a period.
wire_in_bit :
    (net : Net) (b r : ℕ) (u : Uart)
    → u.tx_data_state ≡ true
    → u.tx_baudcounter ≡ b
    → r ≤ b
    → (tx_tick net (tx_ticks net r u)).0 ≡ (if r == b then u.tx_data / 2 % 2 else u.tx_data % 2)
unfolding tx_tick
wire_in_bit net b r u h e le =
    let held : tx_ticks net r u ≡ record u { tx_baudcounter = b - r } =
      tx_hold_all net r (b - r) u h (omega (arith, e)) in
    elim (Bool-cases (r == b)) [
      | inl last ↦ let z : b - r ≡ 0 = ground arith in rw (held, h, z, last) refl
      | inr inner ↦
          let z : b - r ≡ suc (b - r - 1) = ground arith in
          let going : (suc (b - r - 1) == 0) ≡ false = ground arith in
          rw (held, h, z, going, inner) refl
    ]

-- A character in the shift register at the start of a bit, whose counter is full, with `n` bits to
-- follow that one: at each tick `r` of the period of bit `q` below `n`, the wire into the device is bit
-- `q` of the register, and at the last tick of the period it is bit `q + 1`, which begins there; after
-- `n` periods one bit is left. Each bit thus stands for `baud_counts` ticks, lowest first.
pub tx_wire :
    (net : Net) (b n q r : ℕ) (u : Uart)
    → u.tx_data_state ≡ true
    → u.baud_counts ≡ suc b
    → u.tx_baudcounter ≡ b
    → u.tx_busy ≡ 2 ^ suc n - 1
    → q < n
    → r ≤ b
    → ((tx_tick net (tx_ticks net (q * suc b + r) u)).0
        ≡ (if r == b then u.tx_data / 2 ^ suc q % 2 else u.tx_data / 2 ^ q % 2))
      × (tx_ticks net (n * suc b) u ≡ moved u (u.tx_data / 2 ^ n) 1 b)
tx_wire net b n q r u h e c k lt le = (wire net b n q r u h e c k lt le, tx_frame net b n u h e c k)
  where
    wire :
        (net : Net) (b n q r : ℕ) (u : Uart)
        → u.tx_data_state ≡ true
        → u.baud_counts ≡ suc b
        → u.tx_baudcounter ≡ b
        → u.tx_busy ≡ 2 ^ suc n - 1
        → q < n
        → r ≤ b
        → (tx_tick net (tx_ticks net (q * suc b + r) u)).0
          ≡ (if r == b then u.tx_data / 2 ^ suc q % 2 else u.tx_data / 2 ^ q % 2)
    wire net b zero q r u h e c k lt le = absurd (omega arith)
    wire net b (suc n) zero r u h e c k lt le =
        let place : zero * suc b + r ≡ r = omega arith in
        let one : u.tx_data / 2 ^ 0 ≡ u.tx_data = omega arith in
        rw (place, one) (wire_in_bit net b r u h c le)
    wire net b (suc n) (suc q) r u h e c k lt le =
        let v = moved u (u.tx_data / 2) (u.tx_busy / 2) (u.baud_counts - 1) in
        let place : suc q * suc b + r ≡ suc b + (q * suc b + r) = omega arith in
        let first : tx_ticks net (suc b) u ≡ v =
          tx_period net b (2 ^ suc (suc n) - 3) u h c (k ∙ busy_pair n) in
        let there : tx_ticks net (suc q * suc b + r) u ≡ tx_ticks net (q * suc b + r) v =
          ap (λ m. tx_ticks net m u) place
          ∙ tx_ticks-add net (suc b) (q * suc b + r) u
          ∙ ap (tx_ticks net (q * suc b + r)) first in
        let ih =
          wire net b n q r v h e (omega (arith, e))
            (omega (arith, k, pow-suc 2 (suc n), one-le-pow n 2)) (omega arith) le in
        ap (λ (w : Uart). (tx_tick net w).0) there
        ∙ ih
        ∙ rw (div_twice u.tx_data (suc q), div_twice u.tx_data q) refl
