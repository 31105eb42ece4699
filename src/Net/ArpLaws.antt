-- ===== src/Net/ArpLaws.antt =====
-- The table of sw/rv32/arp.c as a map from addresses to addresses.
use zipversa.Base.{
  ℕ, zero, suc, ◌+◌, ◌<◌, ◌≡◌, ◌≢◌, ◌⊎◌, refl, arith, true, false, Option, none, some,
}
use zipversa.Base.{if◌then◌else◌, ◌==◌, ◌&&◌, ap, List, [], ◌∷◌, length, get_or, set}
use mathlib.Core.Option.{none-ne-some}
use zipversa.Net.State.{ArpEntry}
use zipversa.Net.Arp.{next_index, scan, replace_mac}

-- The first valid entry for an address.
unfoldable pub find : ℕ → List ArpEntry → Option ℕ
find ipaddr [] = none
find ipaddr (e ∷ es) = if e.valid && e.ipaddr == ipaddr then some e.mac else find ipaddr es

pub scan-find : (ipaddr oldage : ℕ) (t : List ArpEntry) → (scan ipaddr oldage t).0 ≡ find ipaddr t
unfolding scan find
scan-find ipaddr oldage [] = refl
scan-find ipaddr oldage (e ∷ es) =
    ground (arith, scan-find ipaddr e.age es, scan-find ipaddr oldage es)

-- Ageing does not change what is found at the address that was looked up.
pub find-scan :
    (ipaddr oldage : ℕ) (t : List ArpEntry) → find ipaddr (scan ipaddr oldage t).1 ≡ find ipaddr t
unfolding scan find
find-scan ipaddr oldage [] = refl
find-scan ipaddr oldage (e ∷ es) =
    ground (arith, find-scan ipaddr e.age es, find-scan ipaddr oldage es)

pub length-scan :
    (ipaddr oldage : ℕ) (t : List ArpEntry) → length (scan ipaddr oldage t).1 ≡ length t
unfolding scan
length-scan ipaddr oldage [] = refl
length-scan ipaddr oldage (e ∷ es) =
    ground (arith, length-scan ipaddr e.age es, length-scan ipaddr oldage es)

pub find-replace_mac :
    (ipaddr mac old : ℕ) (t : List ArpEntry)
    → find ipaddr t ≡ some old
    → find ipaddr (replace_mac ipaddr mac t) ≡ some mac
unfolding find replace_mac
find-replace_mac ipaddr mac old [] e = absurd (none-ne-some old e)
find-replace_mac ipaddr mac old (e ∷ es) h = ground (arith, find-replace_mac ipaddr mac old es)

pub find-replace_mac_other :
    (ipaddr other mac : ℕ) (t : List ArpEntry)
    → other ≢ ipaddr
    → find other (replace_mac ipaddr mac t) ≡ find other t
unfolding find replace_mac
find-replace_mac_other ipaddr other mac [] ne = refl
find-replace_mac_other ipaddr other mac (e ∷ es) ne =
    ground (arith, find-replace_mac_other ipaddr other mac es ne)

pub find-set :
    (ipaddr i : ℕ) (e : ArpEntry) (t : List ArpEntry)
    → find ipaddr t ≡ none
    → i < length t
    → e.valid ≡ true
    → e.ipaddr ≡ ipaddr
    → find ipaddr (set t i e) ≡ some e.mac
unfolding find
find-set ipaddr i e [] h lt v q = absurd (omega arith)
find-set ipaddr zero e (x ∷ es) h lt v q = ground arith
find-set ipaddr (suc i) e (x ∷ es) h lt v q = ground (arith, find-set ipaddr i e es)

pub find-set_other :
    (ipaddr i : ℕ) (e : ArpEntry) (t : List ArpEntry)
    → find ipaddr t ≡ none
    → (e.valid ≡ false) ⊎ (e.ipaddr ≢ ipaddr)
    → find ipaddr (set t i e) ≡ none
unfolding find
find-set_other ipaddr i e [] h ne = refl
find-set_other ipaddr zero e (x ∷ es) h ne = ground arith
find-set_other ipaddr (suc i) e (x ∷ es) h ne = ground (arith, find-set_other ipaddr i e es)

pub next_index_lt :
    (eid eldest oldage : ℕ) (t : List ArpEntry)
    → eldest < eid + length t
    → next_index eid eldest oldage t < eid + length t
unfolding next_index
next_index_lt eid eldest oldage [] h = h
next_index_lt eid eldest oldage (e ∷ es) h =
    ground (arith, next_index_lt (eid + 1) eid e.age es, next_index_lt (eid + 1) eldest oldage es)

pub set-set : (i : ℕ) (d e : ArpEntry) (t : List ArpEntry) → set (set t i d) i e ≡ set t i e
set-set i d e [] = refl
set-set zero d e (x ∷ es) = refl
set-set (suc i) d e (x ∷ es) = ap (λ r. x ∷ r) (set-set i d e es)

pub get_or-set :
    (i : ℕ) (d e : ArpEntry) (t : List ArpEntry) → i < length t → get_or (set t i e) i d ≡ e
get_or-set i d e [] h = absurd (omega arith)
get_or-set zero d e (x ∷ es) h = refl
get_or-set (suc i) d e (x ∷ es) h = get_or-set i d e es (omega arith)

pub get_or-set_other :
    (i j : ℕ) (d e : ArpEntry) (t : List ArpEntry) → i ≢ j → get_or (set t i e) j d ≡ get_or t j d
get_or-set_other i j d e [] h = refl
get_or-set_other zero zero d e (x ∷ es) h = absurd (h refl)
get_or-set_other zero (suc j) d e (x ∷ es) h = refl
get_or-set_other (suc i) zero d e (x ∷ es) h = refl
get_or-set_other (suc i) (suc j) d e (x ∷ es) h = get_or-set_other i j d e es (λ q. h (ap suc q))
