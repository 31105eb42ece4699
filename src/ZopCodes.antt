-- ===== src/ZopCodes.antt =====
-- The disassembler of the ZipCPU, sw/host/zopcodes.cpp: the tables, and a line of text from an instruction.
-- A line is the parts that `zipi_to_halfstring` puts together; the padding is left out.
pub mod Row
pub mod Special
pub mod General
pub mod Halves
pub mod Bounds
use zipversa.Base.{ℕ, ◌+◌, ◌-◌, ◌*◌, ◌/◌, ◌%◌, ◌^◌, Bool, true, false, not, ◌&&◌, ◌||◌, bit_and}
use zipversa.Base.{if◌then◌else◌, leb, ltb, ◌==◌, List, [], ◌∷◌, ◌++◌, Option, none, some}
use zipversa.Base.Bits.{u32, shl32, shr, low_bits}
use zipversa.TwosComplement.{sbits, ubits}
use zipversa.Registers.{codes, strcasecmp, to_lower}
use zipversa.ZopCodes.Row.{ZopCode, bitfield, regfield}
use zipversa.ZopCodes.Special.{special}
use zipversa.ZopCodes.General.{general}
use zipversa.ZopCodes.Halves.{simulated, high_half, bottom}

unfoldable pub zip_oplist : List ZopCode
zip_oplist = special ++ (general ++ (simulated ++ high_half))

unfoldable pub zip_opbottomlist : List ZopCode
zip_opbottomlist = bottom

-- The field of the instruction, as a word of 32 bits. `zip_sbits` and `zip_ubits` repeat sw/host/twoc.cpp.
unfoldable pub zip_getbits : ℕ → ℕ → ℕ
zip_getbits ins which =
    let place = low_bits which 6 in
    let width = low_bits (shr which 8) 6 in
    if shr which 30 % 2 == 1
    then u32 (sbits (shr ins place) width)
    else u32 (ubits (shr ins place) width + low_bits (shr which 16) 8)

unfoldable pub offset_pc_mov : ℕ → Bool
offset_pc_mov ins = bit_and ins 0x87c7e000 == 0x0343c000

-- What is printed behind the name: "($v)", "$v", "v", "$v+", a register, "(register)", "@0x...", an address
-- or a comma. `wild` is the entry -1 of the names of registers.
pub data Operand : Type 0 where
  paren_imm : ℕ → Operand
  dollar : ℕ → Operand
  plain : ℕ → Operand
  dollar_plus : ℕ → Operand
  reg : ℕ → Operand
  paren_reg : ℕ → Operand
  target : ℕ → Operand
  address : ℕ → Operand
  comma : Operand
  wild : Operand

-- A line: a name with its condition and operands, or "ILL" with the instruction. With a table that fails
-- the check of its rows, the program is aborted.
pub data Line : Type 0 where
  op : List ℕ → Option ℕ → List Operand → Line
  illegal : ℕ → Line
  aborts : Line

unfoldable pub field : ℕ → Option ℕ → Option ℕ
field ins none = none
field ins (some which) = some (zip_getbits ins which)

abbrev pub is_used : Option ℕ → Bool
is_used none = false
is_used (some w) = true

abbrev pub value : Option ℕ → ℕ
value none = 0
value (some v) = v

abbrev pub reg_of : Option ℕ → Operand
reg_of none = wild
reg_of (some r) = reg r

-- The first characters of `s`, in any case.
abbrev pub starts : List ℕ → List ℕ → Bool
starts [] s = true
starts (c ∷ cs) [] = false
starts (c ∷ cs) (d ∷ ds) = to_lower c == to_lower d && starts cs ds

unfoldable pub is_store : List ℕ → Bool
is_store s = starts (codes "SW") s || starts (codes "SH") s || starts (codes "SB") s

unfoldable pub is_branch : List ℕ → Bool
is_branch [] = false
is_branch (c ∷ cs) =
    c == b'B'
    && not (
        strcasecmp (c ∷ cs) (codes "BUSY")
        || strcasecmp (c ∷ cs) (codes "BREV")
        || strcasecmp (c ∷ cs) (codes "BRK"))

unfoldable pub is_load : List ℕ → Bool
is_load s = strcasecmp s (codes "LW") || strcasecmp s (codes "LH") || strcasecmp s (codes "LB")

-- The immediate value, in words where it is added to the program counter.
unfoldable pub immediate : ZopCode → ℕ → ℕ
immediate r ins =
    let imv = value (field ins r.imm) in
    if is_used r.rb && value (field ins r.rb) == 15 then shl32 imv 2 else imv

unfoldable pub store_operands : ZopCode → ℕ → List Operand
store_operands r ins =
    let imv = immediate r ins in
    let offset =
      if not (is_used r.imm)
      then []
      else if not (is_used r.rb)
      then paren_imm imv ∷ []
      else if imv == 0
      then []
      else dollar imv ∷ [] in
    let base : List Operand = elim (field ins r.rb) [ some b ↦ paren_reg b ∷ [] | none ↦ [] ] in
    reg_of (field ins r.ra) ∷ comma ∷ (offset ++ base)

unfoldable pub source_operand : Bool → ZopCode → ℕ → List Operand
source_operand memop r ins =
    let imv = immediate r ins in
    let first =
      if not (is_used r.imm)
      then []
      else if memop
      then if not (is_used r.rb)
        then paren_imm imv ∷ []
        else if imv == 0
        then []
        else plain imv ∷ []
      else if imv == 0 && is_used r.rb
      then []
      else if is_used r.rb
      then dollar_plus imv ∷ []
      else dollar imv ∷ [] in
    let base : List Operand = elim (field ins r.rb) [
      | some b ↦ if memop then paren_reg b ∷ [] else reg b ∷ []
      | none ↦ []
    ] in
    first ++ base

unfoldable pub other_operands : ZopCode → ℕ → List Operand
other_operands r ins =
    let both = (is_used r.imm || is_used r.rb) && (is_used r.ra || is_used r.result) in
    let last =
      if is_used r.ra
      then reg_of (field ins r.ra) ∷ []
      else if is_used r.result
      then reg_of (field ins r.result) ∷ []
      else [] in
    source_operand (is_load r.opstr) r ins ++ ((if both then comma ∷ [] else []) ++ last)

-- The target of a branch is `zip_getbits` of the immediate field, and 4; the field of one that has none
-- is read at -1.
unfoldable pub branch_target : ℕ → ZopCode → ℕ → ℕ
branch_target addr r ins =
    let which : ℕ = elim r.imm [ some w ↦ w | none ↦ 2 ^ 32 - 1 ] in
    u32 (addr + (zip_getbits ins which + 4))

unfoldable pub operands : ℕ → ZopCode → ℕ → List Operand
operands addr r ins =
    if is_store r.opstr
    then store_operands r ins
    else if starts (codes "LJM") r.opstr
    then []
    else if is_branch r.opstr && not (addr == 0)
    then target (branch_target addr r ins) ∷ []
    else other_operands r ins

-- The loop over the table, up to the row without a mask.
unfoldable pub find_row : ℕ → List ZopCode → Option ZopCode
find_row ins [] = none
find_row ins (r ∷ rs) =
    let rest = find_row ins rs in
    if r.mask == 0 then none else if bit_and ins r.mask == r.val then some r else rest

-- The check of the rows of `zip_oplist`.
unfoldable pub is_consistent : List ZopCode → Bool
is_consistent [] = true
is_consistent (r ∷ rs) = bit_and (2 ^ 32 - 1 - r.mask) r.val == 0 && is_consistent rs

unfoldable pub zipi_to_halfstring : ℕ → ℕ → List ZopCode → Line
zipi_to_halfstring addr ins listp =
    if offset_pc_mov ins
    then op (codes "MOV") (some (zip_getbits ins (bitfield 3 19))) (
        address (u32 (shl32 (u32 (sbits ins 13)) 2 + addr + 4))
        ∷ comma
        ∷ reg (zip_getbits ins (regfield 27))
        ∷ [])
    else if not (is_consistent zip_oplist)
    then aborts
    else elim (find_row ins listp) [
      | some r ↦ op r.opstr (field ins r.cf) (operands addr r ins)
      | none ↦ illegal ins
    ]

-- Both halves; `none` is the empty text.
unfoldable pub zipi_to_double_string : ℕ → ℕ → Line × Option Line
zipi_to_double_string addr ins = (
  zipi_to_halfstring addr ins zip_oplist,
  if leb (2 ^ 31) ins then some (zipi_to_halfstring addr ins zip_opbottomlist) else none,
)

unfoldable pub zop_early_branch : ℕ → ℕ → ℕ
zop_early_branch pc insn =
    let next = u32 (pc + 4) in
    if not (bit_and insn 0xf8000000 == 0x78000000)
    then next
    else if bit_and insn 0xffc60000 == 0x78800000
    then u32 (pc + 4 + shl32 (low_bits insn 18) 2)
    else if bit_and insn 0xffc60000 == 0x78820000
    then u32 (pc + 4 + shl32 (0x40000 - low_bits insn 18) 2)
    else next
