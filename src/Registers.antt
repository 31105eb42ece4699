-- ===== src/Registers.antt =====
-- The names of the registers, and addresses from names: sw/host/regdefs.cpp and regdefs.h.
pub mod Names
use Prim.Native.Char.{code}
use Prim.Native.String.{String}
use zipversa.Base.{
  ℕ, ◌+◌, ◌-◌, ◌≤◌, ◌≡◌, refl, arith, Bool, true, false, ◌&&◌, ◌||◌, List, [], ◌∷◌, map,
}
use zipversa.Base.{if◌then◌else◌, leb, ◌==◌, Option, none, some}

-- The characters of a text. `String` has its own `[]` and `∷`.
abbrev pub codes : String → List ℕ
codes String.[] = []
codes (String.◌∷◌ c s) = code c ∷ codes s

pub record RegName : Type 0 where
  pub addr : ℕ
  pub name : List ℕ

abbrev row : ℕ → String → RegName
row addr name = record { addr = addr; name = codes name }

unfoldable pub raw_bregs : List RegName
raw_bregs =
    row 0x00100000 "FLASHCFG"
    ∷ row 0x00100000 "QSPIC"
    ∷ row 0x00200000 "NETSCOPE"
    ∷ row 0x00200004 "NETSCOPED"
    ∷ row 0x00300000 "FLASHSCOPE"
    ∷ row 0x00300004 "FLASHSCOPED"
    ∷ row 0x00400004 "UFIFO"
    ∷ row 0x00400008 "RX"
    ∷ row 0x0040000c "TX"
    ∷ row 0x00500000 "RXCMD"
    ∷ row 0x00500000 "NETRX"
    ∷ row 0x00500004 "TXCMD"
    ∷ row 0x00500004 "NETTX"
    ∷ row 0x00500008 "MACHI"
    ∷ row 0x0050000c "MACLO"
    ∷ row 0x00500010 "NETMISS"
    ∷ row 0x00500014 "NETERR"
    ∷ row 0x00500018 "NETCRCER"
    ∷ row 0x0050001c "NETCOL"
    ∷ row 0x00600000 "BUILDTIME"
    ∷ row 0x00600000 "BUILDTIME"
    ∷ row 0x00600004 "BUSERR"
    ∷ row 0x00600004 "BUSERR"
    ∷ row 0x00600008 "PIC"
    ∷ row 0x00600008 "PIC"
    ∷ row 0x0060000c "CPUACTIVEIRQ"
    ∷ row 0x0060000c "CPUACTIVEIRQ"
    ∷ row 0x00600010 "CPUBUSERR"
    ∷ row 0x00600010 "CPUBUSERR"
    ∷ row 0x00600014 "CPUBUSERRPC"
    ∷ row 0x00600014 "CPUBUSERRPC"
    ∷ row 0x00600018 "GPIO"
    ∷ row 0x00600018 "GPI"
    ∷ row 0x00600018 "GPO"
    ∷ row 0x00600018 "GPIO"
    ∷ row 0x00600018 "GPI"
    ∷ row 0x00600018 "GPO"
    ∷ row 0x0060001c "NET1DLY"
    ∷ row 0x0060001c "NET1DLY"
    ∷ row 0x00600020 "PWRCOUNT"
    ∷ row 0x00600020 "PWRCOUNT"
    ∷ row 0x00600024 "SPIO"
    ∷ row 0x00600024 "SPIO"
    ∷ row 0x00600028 "ZIPTIMER"
    ∷ row 0x00600028 "TIMER"
    ∷ row 0x00600028 "SYSTIMER"
    ∷ row 0x00600028 "ZIPTIMER"
    ∷ row 0x00600028 "TIMER"
    ∷ row 0x00600028 "SYSTIMER"
    ∷ row 0x0060002c "VERSION"
    ∷ row 0x0060002c "VERSION"
    ∷ row 0x00700000 "BMCR"
    ∷ row 0x00700004 "BMSR"
    ∷ row 0x00700008 "PHYIDR1"
    ∷ row 0x0070000c "PHYIDR2"
    ∷ row 0x00700010 "ANAR"
    ∷ row 0x00700014 "ANLPAR"
    ∷ row 0x00700018 "ANER"
    ∷ row 0x0070001c "ANNPTR"
    ∷ row 0x00700020 "ANNPRR"
    ∷ row 0x00700024 "GBECTRL"
    ∷ row 0x00700028 "GBESTAT"
    ∷ row 0x00800000 "NETRXB"
    ∷ row 0x00800800 "NETTXB"
    ∷ row 0x00a00000 "RAM"
    ∷ row 0x01000000 "FLASH"
    ∷ []

-- `isalpha` and `tolower`, for ASCII.
unfoldable pub is_alpha : ℕ → Bool
is_alpha c = (leb b'A' c && leb c b'Z') || (leb b'a' c && leb c b'z')

unfoldable pub to_lower : ℕ → ℕ
to_lower c = if leb b'A' c && leb c b'Z' then c + 32 else c

abbrev pub same : List ℕ → List ℕ → Bool
same [] [] = true
same [] (y ∷ ys) = false
same (x ∷ xs) [] = false
same (x ∷ xs) (y ∷ ys) = x == y && same xs ys

-- `strcasecmp(a, b) == 0`
unfoldable pub strcasecmp : List ℕ → List ℕ → Bool
strcasecmp a b = same (map to_lower a) (map to_lower b)

unfoldable pub find_name : List ℕ → List RegName → Option ℕ
find_name v [] = none
find_name v (r ∷ rs) = if strcasecmp v r.name then some r.addr else find_name v rs

-- `none` is the end of the program. `strtoul` is that of the C library, with base 0.
unfoldable pub addrdecode : (List ℕ → ℕ) → List ℕ → Option ℕ
addrdecode strtoul [] = some (strtoul [])
addrdecode strtoul (c ∷ cs) =
    if is_alpha c then find_name (c ∷ cs) raw_bregs else some (strtoul (c ∷ cs))

unfoldable pub find_addr : ℕ → List RegName → Option (List ℕ)
find_addr v [] = none
find_addr v (r ∷ rs) = if r.addr == v then some r.name else find_addr v rs

unfoldable pub addrname : ℕ → Option (List ℕ)
addrname v = find_addr v raw_bregs
