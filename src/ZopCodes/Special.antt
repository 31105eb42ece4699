-- ===== src/ZopCodes/Special.antt =====
-- The first part of zip_oplist_raw of sw/host/zopcodes.cpp.
use zipversa.Base.{List, [], ◌∷◌, none, some}
use zipversa.ZopCodes.Row.{ZopCode, row, bitfield, regfield, immfield}

-- Instructions with special opcodes.
unfoldable pub special : List ZopCode
special =
    row "BUSY" 0xffc7ffff 0x7883ffff none none none none (some (bitfield 3 19))
    ∷ row "BZ" 0xfffc0000 0x78880000 none none none (some (immfield 18 0)) none
    ∷ row "BLT" 0xfffc0000 0x78900000 none none none (some (immfield 18 0)) none
    ∷ row "BC" 0xfffc0000 0x78980000 none none none (some (immfield 18 0)) none
    ∷ row "BV" 0xfffc0000 0x78a00000 none none none (some (immfield 18 0)) none
    ∷ row "BNZ" 0xfffc0000 0x78a80000 none none none (some (immfield 18 0)) none
    ∷ row "BGE" 0xfffc0000 0x78b00000 none none none (some (immfield 18 0)) none
    ∷ row "BNC" 0xfffc0000 0x78b80000 none none none (some (immfield 18 0)) none
    ∷ row "BRA" 0xffc40000 0x78800000 none none none (some (immfield 18 0)) (some (bitfield 3 19))
    ∷ row "TRAP" 0xfffffff0 0x76000000 none none none none none
    ∷ row "TRAP" 0xff800000 0x76000000 none none none none none
    ∷ row "TRAP" 0xffc7ffff 0x72000000 none none none (some (immfield 18 0)) (some (bitfield 3 19))
    ∷ row "TRAP" 0xffc4ffff 0x72400000 none none none none (some (bitfield 3 19))
    ∷ row "TRAP" 0xffc40000 0x72400000 none none none (some (immfield 18 0)) (some (bitfield 3 19))
    ∷ row "CLR" 0x87ffffff 0x06000000 (some (regfield 27)) none none none none
    ∷ row "CLR" 0x87c7ffff 0x02000000 (some (regfield 27)) (some (regfield 27)) none
        (some (immfield 18 0)) (some (bitfield 3 19))
    ∷ row "HALT" 0xffc7ffff 0x70c00010 none none none none (some (bitfield 3 19))
    ∷ row "WAIT" 0xffc7ffff 0x70c00030 none none none none (some (bitfield 3 19))
    ∷ row "RTU" 0xffc7ffff 0x70c00020 none none none none (some (bitfield 3 19))
    ∷ row "RTN" 0xffc7ffff 0x7b400000 none none none none (some (bitfield 3 19))
    ∷ row "JMP" 0xffc40000 0x7b400000 none none (some (regfield 14)) (some (immfield 13 0))
        (some (bitfield 3 19))
    ∷ row "JMPI" 0xff800000 0x7e000000 (some (regfield 27)) none none (some (immfield 23 0)) none
    ∷ row "LJMP" 0xffffffff 0x7c87c000 none none none none none
    ∷ []
