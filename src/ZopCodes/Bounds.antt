-- ===== src/ZopCodes/Bounds.antt =====
-- Every register and condition that the disassembler names is in its table (sw/host/zopcodes.cpp).
use zipversa.Base.{
  ℕ, ◌+◌, ◌%◌, ◌^◌, ◌≤◌, ◌<◌, ◌≡◌, refl, arith, Bool, true, false, not, ◌&&◌, ◌||◌, ap, ◌∙◌, sym,
}
use zipversa.Base.{
  if◌then◌else◌, leb, ◌==◌, List, [], ◌∷◌, Option, none, some, All, All-append, All-if, Bool-cases,
  inl, inr, bit_and,
}
use zipversa.Base.Bits.{shr, low_bits}
use zipversa.TwosComplement.{ubits}
use native.Mathlib.Nat.{one-le-pow, mod-lt, pow-le-pow_right}
use zipversa.Registers.{codes, to_lower}
use zipversa.ZopCodes.Row.{ZopCode, bitfield, regfield}
use zipversa.ZopCodes.Special.{special}
use zipversa.ZopCodes.General.{general}
use zipversa.ZopCodes.Halves.{simulated, high_half, bottom}
use zipversa.ZopCodes.{
  zip_oplist, zip_opbottomlist, zip_getbits, Operand, paren_imm, dollar, plain, dollar_plus, reg,
  paren_reg, target, comma, wild, Line, op, illegal, aborts, field, is_used, value, reg_of,
  immediate, is_store, is_branch, is_load, store_operands, source_operand, other_operands, operands,
  find_row, is_consistent, zipi_to_halfstring, offset_pc_mov, starts, branch_target,
}

-- An unsigned field of at most `bits` bits, moved up by `most` at most.
is_small : ℕ → ℕ → Option ℕ → Bool
is_small bits most none = true
is_small bits most (some which) =
    shr which 30 % 2 == 0
    && leb (low_bits (shr which 8) 6) bits
    && leb (low_bits (shr which 16) 8) most

abbrev has : Option ℕ → Bool
has none = false
has (some w) = true

-- A row whose registers and condition are small fields; a store has a register to store.
row_ok : ZopCode → Bool
row_ok r =
    is_small 4 32 r.ra
    && is_small 4 32 r.rb
    && is_small 4 32 r.result
    && is_small 3 0 r.cf
    && (not (is_store r.opstr) || has r.ra)

all_ok : List ZopCode → Bool
all_ok [] = true
all_ok (r ∷ rs) = row_ok r && all_ok rs

top_ok : all_ok zip_oplist ≡ true
unfolding all_ok row_ok is_small is_store to_lower zip_oplist special general simulated high_half
top_ok = refl

bottom_ok : all_ok zip_opbottomlist ≡ true
unfolding all_ok row_ok is_small is_store to_lower zip_opbottomlist bottom
bottom_ok = refl

top_consistent : is_consistent zip_oplist ≡ true
unfolding is_consistent zip_oplist special general simulated high_half
top_consistent = refl

field_bound :
    (bits most ins : ℕ) (f : Option ℕ)
    → bits ≤ 4
    → most ≤ 32
    → is_small bits most f ≡ true
    → value (field ins f) < 2 ^ bits + most
unfolding is_small field zip_getbits ubits
field_bound bits most ins none h m s = omega (arith, one-le-pow bits 2 (omega arith))
field_bound bits most ins (some which) h m s =
    let width = low_bits (shr which 8) 6 in
    let narrow : width ≤ bits = ground arith in
    let low = mod-lt (shr ins (low_bits which 6)) (one-le-pow width 2 (omega arith)) in
    let p1 = pow-le-pow_right {n = 2} (omega arith) {i = width} {j = bits} narrow in
    let p2 = pow-le-pow_right {n = 2} (omega arith) {i = bits} {j = 4} h in
    let unsigned : (shr which 30 % 2 == 1) ≡ false = ground arith in
    let offset : low_bits (shr which 16) 8 ≤ most = ground arith in
    rw unsigned (omega (arith, low, p1, p2, offset))

-- A name of a register that the table of 49 has.
abbrev pub IsNamed : Operand → Type 0
IsNamed (reg n) = n < 49
IsNamed (paren_reg n) = n < 49
IsNamed wild = ⊥
IsNamed o = Unit {0}

abbrev pub IsCondition : Option ℕ → Type 0
IsCondition none = Unit {0}
IsCondition (some n) = n < 8

abbrev pub IsPrintable : Line → Type 0
IsPrintable (op s cc args) = IsCondition cc × All IsNamed args
IsPrintable (illegal ins) = Unit {0}
IsPrintable aborts = ⊥

find_row_ok :
    (ins : ℕ) (rs : List ZopCode) (r : ZopCode)
    → all_ok rs ≡ true
    → find_row ins rs ≡ some r
    → row_ok r ≡ true
unfolding all_ok find_row
find_row_ok ins [] r h e = absurd (cc)
find_row_ok ins (x ∷ rs) r h e = elim (Bool-cases (x.mask == 0)) [
  | inl z ↦ absurd (ground arith)
  | inr z ↦ elim (Bool-cases (bit_and ins x.mask == x.val)) [
    | inl q ↦
        let same_row : x ≡ r = ground (arith, rw (z, q) at e) in
        ap row_ok (sym same_row) ∙ ground arith
    | inr q ↦ find_row_ok ins rs r (ground arith) (rw (z, q) at e)
  ]
]

reg-IsNamed :
    (ins : ℕ) (f : Option ℕ)
    → is_small 4 32 f ≡ true
    → has f ≡ true
    → IsNamed (reg_of (field ins f))
unfolding field
reg-IsNamed ins none s h = absurd (cc)
reg-IsNamed ins (some w) s h =
    omega (arith, field_bound 4 32 ins (some w) (omega arith) (omega arith) s)

-- The base register, in a place for it.
base-IsNamed :
    (memop : Bool) (ins : ℕ) (f : Option ℕ)
    → is_small 4 32 f ≡ true
    → All IsNamed (elim (field ins f) as (λ _. List Operand) [
      | some b ↦ if memop then paren_reg b ∷ [] else reg b ∷ []
      | none ↦ []
    ])
unfolding field
base-IsNamed memop ins none s = tt
base-IsNamed memop ins (some w) s =
    let n = field_bound 4 32 ins (some w) (omega arith) (omega arith) s in
    All-if IsNamed memop (paren_reg (zip_getbits ins w) ∷ []) (reg (zip_getbits ins w) ∷ [])
      (omega (arith, n), tt) (omega (arith, n), tt)

store-IsNamed :
    (r : ZopCode) (ins : ℕ)
    → is_small 4 32 r.ra ≡ true
    → is_small 4 32 r.rb ≡ true
    → has r.ra ≡ true
    → All IsNamed (store_operands r ins)
unfolding store_operands
store-IsNamed r ins a b h = (
  reg-IsNamed ins r.ra a h,
  (
    tt,
    All-append IsNamed _ _
        (All-if IsNamed (not (is_used r.imm)) [] _ tt (
          All-if IsNamed (not (is_used r.rb)) (paren_imm (immediate r ins) ∷ []) _ (tt, tt)
            (All-if IsNamed (immediate r ins == 0) [] (dollar (immediate r ins) ∷ []) tt (tt, tt))))
        (base-IsNamed true ins r.rb b),
  ),
)

source-IsNamed :
    (memop : Bool) (r : ZopCode) (ins : ℕ)
    → is_small 4 32 r.rb ≡ true
    → All IsNamed (source_operand memop r ins)
unfolding source_operand
source-IsNamed memop r ins b =
    let v = immediate r ins in
    All-append IsNamed _ _
      (All-if IsNamed (not (is_used r.imm)) [] _ tt (
        All-if IsNamed memop _ _
          (All-if IsNamed (not (is_used r.rb)) (paren_imm v ∷ []) _ (tt, tt)
            (All-if IsNamed (v == 0) [] (plain v ∷ []) tt (tt, tt)))
          (All-if IsNamed (v == 0 && is_used r.rb) [] _ tt (
            All-if IsNamed (is_used r.rb) (dollar_plus v ∷ []) (dollar v ∷ []) (tt, tt) (tt, tt)))))
      (base-IsNamed memop ins r.rb b)

last-IsNamed :
    (ins : ℕ) (f : Option ℕ) (xs : List Operand)
    → is_small 4 32 f ≡ true
    → All IsNamed xs
    → All IsNamed (if is_used f then reg_of (field ins f) ∷ [] else xs)
last-IsNamed ins none xs s h = h
last-IsNamed ins (some w) xs s h = (reg-IsNamed ins (some w) s refl, tt)

operands-IsNamed :
    (addr : ℕ) (r : ZopCode) (ins : ℕ) → row_ok r ≡ true → All IsNamed (operands addr r ins)
unfolding operands other_operands row_ok
operands-IsNamed addr r ins h =
    let ra : is_small 4 32 r.ra ≡ true = ground arith in
    let rb : is_small 4 32 r.rb ≡ true = ground arith in
    let rr : is_small 4 32 r.result ≡ true = ground arith in
    let rest : All IsNamed (other_operands r ins) =
      All-append IsNamed _ _ (source-IsNamed (is_load r.opstr) r ins rb) (
        All-append IsNamed _ _
          (All-if IsNamed ((is_used r.imm || is_used r.rb) && (is_used r.ra || is_used r.result))
            (comma ∷ []) [] (tt, tt) tt)
          (last-IsNamed ins r.ra _ ra (last-IsNamed ins r.result [] rr tt))) in
    elim (Bool-cases (is_store r.opstr)) [
      | inl s ↦ rw s (store-IsNamed r ins ra rb (ground arith))
      | inr s ↦ rw s (
          All-if IsNamed (starts (codes "LJM") r.opstr) [] _ tt (
            All-if IsNamed (is_branch r.opstr && not (addr == 0))
              (target (branch_target addr r ins) ∷ []) _ (tt, tt) rest))
    ]

IsCondition-named : (ins : ℕ) (f : Option ℕ) → is_small 3 0 f ≡ true → IsCondition (field ins f)
unfolding field
IsCondition-named ins none s = tt
IsCondition-named ins (some w) s =
    omega (arith, field_bound 3 0 ins (some w) (omega arith) (omega arith) s)

row-IsPrintable :
    (addr ins : ℕ) (rs : List ZopCode) (x : Option ZopCode)
    → all_ok rs ≡ true
    → find_row ins rs ≡ x
    → IsPrintable (elim x as (λ _. Line) [
      | some r ↦ op r.opstr (field ins r.cf) (operands addr r ins)
      | none ↦ illegal ins
    ])
unfolding row_ok
row-IsPrintable addr ins rs none h e = tt
row-IsPrintable addr ins rs (some r) h e =
    let good = find_row_ok ins rs r h e in
    (IsCondition-named ins r.cf (ground (arith, good)), operands-IsNamed addr r ins good)

half-IsPrintable :
    (addr ins : ℕ) (rs : List ZopCode)
    → all_ok rs ≡ true
    → IsPrintable (zipi_to_halfstring addr ins rs)
unfolding zipi_to_halfstring field is_small
half-IsPrintable addr ins rs h = elim (Bool-cases (offset_pc_mov ins)) [
  | inl o ↦
      let cv = field_bound 3 0 ins (some (bitfield 3 19)) (omega arith) (omega arith) refl in
      let dv = field_bound 4 32 ins (some (regfield 27)) (omega arith) (omega arith) refl in
      rw o (omega (arith, cv), (tt, (tt, (omega (arith, dv), tt))))
  | inr o ↦ rw (o, top_consistent) (row-IsPrintable addr ins rs (find_row ins rs) h refl)
]

-- For any instruction and address the disassembler makes a line from either table: the check of the rows
-- passes, the condition is one of the eight, and each register that is named is one of the 49.
pub zipi_to_halfstring-IsPrintable :
    (addr ins : ℕ)
    → IsPrintable (zipi_to_halfstring addr ins zip_oplist)
      × IsPrintable (zipi_to_halfstring addr ins zip_opbottomlist)
zipi_to_halfstring-IsPrintable addr ins = (
  half-IsPrintable addr ins zip_oplist top_ok,
  half-IsPrintable addr ins zip_opbottomlist bottom_ok,
)
