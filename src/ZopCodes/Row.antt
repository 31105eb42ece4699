-- ===== src/ZopCodes/Row.antt =====
-- A row of the tables of sw/host/zopcodes.cpp, and the places of fields (zopcodes.h).
use Prim.Native.String.{String}
use zipversa.Base.{ℕ, ◌+◌, ◌*◌, List, Option}
use zipversa.Registers.{codes}

-- A field that is not used, ZIP_OPUNUSED, is `none`.
pub record ZopCode : Type 0 where
  pub opstr : List ℕ
  pub mask : ℕ
  pub val : ℕ
  pub result : Option ℕ
  pub ra : Option ℕ
  pub rb : Option ℕ
  pub imm : Option ℕ
  pub cf : Option ℕ

abbrev pub row : String → ℕ → ℕ → Option ℕ → Option ℕ → Option ℕ → Option ℕ → Option ℕ → ZopCode
row opstr mask val result ra rb imm cf = record {
  opstr = codes opstr;
  mask = mask;
  val = val;
  result = result;
  ra = ra;
  rb = rb;
  imm = imm;
  cf = cf;
}

abbrev pub bitfield : ℕ → ℕ → ℕ
bitfield ln mn = ln * 256 + mn

abbrev pub regfield : ℕ → ℕ
regfield mn = 0x400 + mn

abbrev pub urgfield : ℕ → ℕ
urgfield mn = 0x100400 + mn

abbrev pub immfield : ℕ → ℕ → ℕ
immfield ln mn = 0x40000000 + (ln * 256 + mn)
