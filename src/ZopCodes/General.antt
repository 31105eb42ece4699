-- ===== src/ZopCodes/General.antt =====
-- The second part of zip_oplist_raw of sw/host/zopcodes.cpp.
use zipversa.Base.{List, [], ◌∷◌, none, some}
use zipversa.ZopCodes.Row.{ZopCode, row, bitfield, regfield, urgfield, immfield}

-- General instructions.
unfoldable pub general : List ZopCode
general =
    row "SUB" 0x87c40000 0x00000000 (some (regfield 27)) (some (regfield 27)) none
      (some (immfield 18 0)) (some (bitfield 3 19))
    ∷ row "SUB" 0x87c40000 0x00040000 (some (regfield 27)) (some (regfield 27)) (some (regfield 14))
        (some (immfield 14 0)) (some (bitfield 3 19))
    ∷ row "AND" 0x87c40000 0x00400000 (some (regfield 27)) (some (regfield 27)) none
        (some (immfield 18 0)) (some (bitfield 3 19))
    ∷ row "AND" 0x87c40000 0x00440000 (some (regfield 27)) (some (regfield 27)) (some (regfield 14))
        (some (immfield 14 0)) (some (bitfield 3 19))
    ∷ row "ADD" 0x87c40000 0x00800000 (some (regfield 27)) (some (regfield 27)) none
        (some (immfield 18 0)) (some (bitfield 3 19))
    ∷ row "ADD" 0x87c40000 0x00840000 (some (regfield 27)) (some (regfield 27)) (some (regfield 14))
        (some (immfield 14 0)) (some (bitfield 3 19))
    ∷ row "OR" 0x87c40000 0x00c00000 (some (regfield 27)) (some (regfield 27)) none
        (some (immfield 18 0)) (some (bitfield 3 19))
    ∷ row "OR" 0x87c40000 0x00c40000 (some (regfield 27)) (some (regfield 27)) (some (regfield 14))
        (some (immfield 14 0)) (some (bitfield 3 19))
    ∷ row "XOR" 0x87c40000 0x01000000 (some (regfield 27)) (some (regfield 27)) none
        (some (immfield 18 0)) (some (bitfield 3 19))
    ∷ row "XOR" 0x87c40000 0x01040000 (some (regfield 27)) (some (regfield 27)) (some (regfield 14))
        (some (immfield 14 0)) (some (bitfield 3 19))
    ∷ row "LSR" 0x87c40000 0x01400000 (some (regfield 27)) (some (regfield 27)) none
        (some (immfield 18 0)) (some (bitfield 3 19))
    ∷ row "LSR" 0x87c40000 0x01440000 (some (regfield 27)) (some (regfield 27)) (some (regfield 14))
        (some (immfield 14 0)) (some (bitfield 3 19))
    ∷ row "LSL" 0x87c40000 0x01800000 (some (regfield 27)) (some (regfield 27)) none
        (some (immfield 18 0)) (some (bitfield 3 19))
    ∷ row "LSL" 0x87c40000 0x01840000 (some (regfield 27)) (some (regfield 27)) (some (regfield 14))
        (some (immfield 14 0)) (some (bitfield 3 19))
    ∷ row "ASR" 0x87c40000 0x01c00000 (some (regfield 27)) (some (regfield 27)) none
        (some (immfield 18 0)) (some (bitfield 3 19))
    ∷ row "ASR" 0x87c40000 0x01c40000 (some (regfield 27)) (some (regfield 27)) (some (regfield 14))
        (some (immfield 14 0)) (some (bitfield 3 19))
    ∷ row "BREV" 0x87c40000 0x02000000 (some (regfield 27)) (some (regfield 27)) none
        (some (immfield 18 0)) (some (bitfield 3 19))
    ∷ row "BREV" 0x87c40000 0x02040000 (some (regfield 27)) (some (regfield 27))
        (some (regfield 14)) (some (immfield 14 0)) (some (bitfield 3 19))
    ∷ row "LDILO" 0x87c40000 0x02400000 (some (regfield 27)) (some (regfield 27)) none
        (some (immfield 18 0)) (some (bitfield 3 19))
    ∷ row "LDILO" 0x87c40000 0x02440000 (some (regfield 27)) (some (regfield 27))
        (some (regfield 14)) (some (immfield 14 0)) (some (bitfield 3 19))
    ∷ row "MPYUHI" 0x87c40000 0x02800000 (some (regfield 27)) (some (regfield 27)) none
        (some (immfield 18 0)) (some (bitfield 3 19))
    ∷ row "MPYUHI" 0x87c40000 0x02840000 (some (regfield 27)) (some (regfield 27))
        (some (regfield 14)) (some (immfield 14 0)) (some (bitfield 3 19))
    ∷ row "MPYSHI" 0x87c40000 0x02c00000 (some (regfield 27)) (some (regfield 27)) none
        (some (immfield 18 0)) (some (bitfield 3 19))
    ∷ row "MPYSHI" 0x87c40000 0x02c40000 (some (regfield 27)) (some (regfield 27))
        (some (regfield 14)) (some (immfield 14 0)) (some (bitfield 3 19))
    ∷ row "MPY" 0x87c40000 0x03000000 (some (regfield 27)) (some (regfield 27)) none
        (some (immfield 18 0)) (some (bitfield 3 19))
    ∷ row "MPY" 0x87c40000 0x03040000 (some (regfield 27)) (some (regfield 27)) (some (regfield 14))
        (some (immfield 14 0)) (some (bitfield 3 19))
    ∷ row "MOV" 0x87c42000 0x03400000 (some (regfield 27)) none (some (regfield 14))
        (some (immfield 13 0)) (some (bitfield 3 19))
    ∷ row "MOV" 0x87c42000 0x03440000 (some (urgfield 27)) none (some (regfield 14))
        (some (immfield 13 0)) (some (bitfield 3 19))
    ∷ row "MOV" 0x87c42000 0x03402000 (some (regfield 27)) none (some (urgfield 14))
        (some (immfield 13 0)) (some (bitfield 3 19))
    ∷ row "MOV" 0x87c42000 0x03442000 (some (urgfield 27)) none (some (urgfield 14))
        (some (immfield 13 0)) (some (bitfield 3 19))
    ∷ row "DIVU" 0x87c40000 0x03800000 (some (regfield 27)) (some (regfield 27)) none
        (some (immfield 18 0)) (some (bitfield 3 19))
    ∷ row "DIVU" 0x87c40000 0x03840000 (some (regfield 27)) (some (regfield 27))
        (some (regfield 14)) (some (immfield 14 0)) (some (bitfield 3 19))
    ∷ row "DIVS" 0x87c40000 0x03c00000 (some (regfield 27)) (some (regfield 27)) none
        (some (immfield 18 0)) (some (bitfield 3 19))
    ∷ row "DIVS" 0x87c40000 0x03c40000 (some (regfield 27)) (some (regfield 27))
        (some (regfield 14)) (some (immfield 14 0)) (some (bitfield 3 19))
    ∷ row "CMP" 0x87c40000 0x04000000 none (some (regfield 27)) none (some (immfield 18 0))
        (some (bitfield 3 19))
    ∷ row "CMP" 0x87c40000 0x04040000 none (some (regfield 27)) (some (regfield 14))
        (some (immfield 14 0)) (some (bitfield 3 19))
    ∷ row "TST" 0x87c40000 0x04400000 none (some (regfield 27)) none (some (immfield 18 0))
        (some (bitfield 3 19))
    ∷ row "TST" 0x87c40000 0x04440000 none (some (regfield 27)) (some (regfield 14))
        (some (immfield 14 0)) (some (bitfield 3 19))
    ∷ row "LW" 0x87c40000 0x04800000 (some (regfield 27)) none none (some (immfield 18 0))
        (some (bitfield 3 19))
    ∷ row "LW" 0x87c40000 0x04840000 (some (regfield 27)) none (some (regfield 14))
        (some (immfield 14 0)) (some (bitfield 3 19))
    ∷ row "SW" 0x87c40000 0x04c00000 none (some (regfield 27)) none (some (immfield 18 0))
        (some (bitfield 3 19))
    ∷ row "SW" 0x87c40000 0x04c40000 none (some (regfield 27)) (some (regfield 14))
        (some (immfield 14 0)) (some (bitfield 3 19))
    ∷ row "LH" 0x87c40000 0x05000000 (some (regfield 27)) none none (some (immfield 18 0))
        (some (bitfield 3 19))
    ∷ row "LH" 0x87c40000 0x05040000 (some (regfield 27)) none (some (regfield 14))
        (some (immfield 14 0)) (some (bitfield 3 19))
    ∷ row "SH" 0x87c40000 0x05400000 none (some (regfield 27)) none (some (immfield 18 0))
        (some (bitfield 3 19))
    ∷ row "SH" 0x87c40000 0x05440000 none (some (regfield 27)) (some (regfield 14))
        (some (immfield 14 0)) (some (bitfield 3 19))
    ∷ row "LB" 0x87c40000 0x05800000 (some (regfield 27)) none none (some (immfield 18 0))
        (some (bitfield 3 19))
    ∷ row "LB" 0x87c40000 0x05840000 (some (regfield 27)) none (some (regfield 14))
        (some (immfield 14 0)) (some (bitfield 3 19))
    ∷ row "SB" 0x87c40000 0x05c00000 none (some (regfield 27)) none (some (immfield 18 0))
        (some (bitfield 3 19))
    ∷ row "SB" 0x87c40000 0x05c40000 none (some (regfield 27)) (some (regfield 14))
        (some (immfield 14 0)) (some (bitfield 3 19))
    ∷ []
