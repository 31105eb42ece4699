-- ===== src/TtyBus/AddressLaws.antt =====
-- `encode_address` against the receiver.
use zipversa.Base.{ℕ, ◌+◌, ◌-◌, ◌*◌, ◌/◌, ◌%◌, ◌^◌, ◌≤◌, ◌<◌, ◌≡◌, ◌⊎◌, Bool-cases, inl, inr, arith}
use zipversa.Base.{◌&&◌, true, false, List, [], length, if◌then◌else◌, ◌==◌}
use zipversa.TtyBus.Code.{encode}
use zipversa.TtyBus.State.{Bus, ok}
use zipversa.TtyBus.Address.{diffaddr, encode_diff, encode_absolute, encode_address}
use zipversa.TtyBus.Receiver.{Receiver, run}
use zipversa.TtyBus.Codewords.{between}
use zipversa.TtyBus.AddressWords.{moved, sets_absolute, sets_either}

-- The host's last address is the receiver's.
abbrev pub Agrees : Bus → Receiver → Type 0
Agrees s r = s.addr_set ≡ true → (s.lastaddr ≡ 4 * r.wb_addr) × (r.wb_addr < 2 ^ 30)

diffaddr_cases :
    (a w : ℕ)
    → a < 2 ^ 32
    → a % 4 ≡ 0
    → w < 2 ^ 30
    → ((w + diffaddr a (4 * w)) % 2 ^ 32 ≡ a / 4) ⊎ (a / 4 ≤ diffaddr a (4 * w))
unfolding diffaddr
diffaddr_cases a w h al hw = ground arith

-- When `encode_address` accepts a 32-bit address: the address codeword, if one is sent at all,
-- leaves an idle receiver whose address the host knows at the address asked for, and changes
-- nothing else there but the kind of the last codeword.
pub encode_address-run :
    (a : ℕ) (s : Bus) (r : Receiver) {cs : List ℕ}
    → a < 2 ^ 32
    → Agrees s r
    → r.writing ≡ false
    → (encode_address a s).0 ≡ ok cs
    → (run cs (between r) ≡ moved (a / 4) r)
      ⊎ (run cs (between r) ≡ record r { part = []; wb_addr = a / 4 })
unfolding encode_address run
encode_address-run a s r h agrees idle e = ground (
  arith,
  agrees,
  sets_absolute r idle (a / 4),
  diffaddr_cases a r.wb_addr h,
  sets_either r idle (a / 4) (diffaddr a s.lastaddr),
)

length-encode_diff : (d : ℕ) → length (encode_diff d) ≤ 5
unfolding encode_diff
length-encode_diff d = ground arith

length-encode_absolute :
    (x : ℕ) (buf : List ℕ) → length buf ≤ 6 → length (encode_absolute x buf) ≤ 6
unfolding encode_absolute encode
length-encode_absolute x buf h = ground arith

-- A multiple of four is never refused, and its encoding has at most six characters.
pub encode_address_accepts :
    (a : ℕ) (s : Bus)
    → a % 4 ≡ 0
    → (cs : List ℕ) × ((encode_address a s).0 ≡ ok cs) × (length cs ≤ 6)
unfolding encode_address
encode_address_accepts a s h = elim (Bool-cases (s.addr_set && a == s.lastaddr)) [
  | inl same ↦ ([], ground arith, omega arith)
  | inr other ↦ (
    encode_absolute (a / 4) (if s.addr_set then encode_diff (diffaddr a s.lastaddr) else []),
    ground arith,
    length-encode_absolute (a / 4) _ (ground (arith, length-encode_diff (diffaddr a s.lastaddr))),
  )
]

-- On the way back the difference is never used: for every earlier address that is less than about
-- 2 ^ 32 - 2 ^ 25 behind, what is sent is the absolute encoding.
pub encode_address_backward :
    (a : ℕ) (s : Bus)
    → s.addr_set ≡ true
    → a % 4 ≡ 0
    → s.lastaddr < 2 ^ 32
    → a < s.lastaddr
    → s.lastaddr ≤ a + 4 * (2 ^ 30 - 2 ^ 23)
    → (encode_address a s).0 ≡ ok (encode_absolute (a / 4) [])
unfolding encode_address encode_diff diffaddr
encode_address_backward a s set al fits behind near = ground arith
