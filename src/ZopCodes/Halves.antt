-- ===== src/ZopCodes/Halves.antt =====
-- The last part of zip_oplist_raw, and zip_opbottomlist_raw, of sw/host/zopcodes.cpp.
use zipversa.Base.{List, [], ◌∷◌, none, some}
use zipversa.ZopCodes.Row.{ZopCode, row, bitfield, regfield, urgfield, immfield}

-- Breaks, instructions of the simulator, and floating point.
unfoldable pub simulated : List ZopCode
simulated =
    row "LDI" 0x87800000 0x06000000 (some (regfield 27)) none none (some (immfield 23 0)) none
    ∷ row "BRK" 0xf7ffffff 0x77000000 none none none none none
    ∷ row "BRK" 0xf7c00000 0x77000000 none none none (some (immfield 22 0)) none
    ∷ row "LOCK" 0xf7ffffff 0x77400000 none none none none none
    ∷ row "LOCK" 0xf7c00000 0x77400000 none none none (some (immfield 22 0)) none
    ∷ row "SIM" 0xf7ffffff 0x77800000 none none none none none
    ∷ row "SEXIT" 0xf7ffffff 0x77800100 none none none none none
    ∷ row "SEXIT" 0xf7fffff0 0x77800310 none (some (urgfield 0)) none none none
    ∷ row "SEXIT" 0xf7ffffe0 0x77800300 none (some (regfield 0)) none none none
    ∷ row "SEXIT" 0xf7ffff00 0x77800100 none none none (some (immfield 8 0)) none
    ∷ row "SDUMP" 0xf7ffffff 0x778002ff none none none none none
    ∷ row "SDUMP" 0xf7fffff0 0x77800200 none (some (regfield 0)) none none none
    ∷ row "SDUMP" 0xf7fffff0 0x77800210 none (some (urgfield 0)) none none none
    ∷ row "SOUT" 0xf7fffff0 0x77800230 none (some (urgfield 0)) none none none
    ∷ row "SOUT" 0xf7ffffe0 0x77800220 none (some (regfield 0)) none none none
    ∷ row "SOUT" 0xf7ffff00 0x77800400 none none none (some (immfield 8 0)) none
    ∷ row "SDUMP" 0xf7ffff00 0x77800200 none none none (some (immfield 8 0)) none
    ∷ row "SIM" 0xf7c00000 0x77800000 none none none (some (immfield 22 0)) none
    ∷ row "NOOP" 0xf7ffffff 0x77c00000 none none none none none
    ∷ row "NEXIT" 0xf7ffffff 0x77c00100 none none none none none
    ∷ row "NEXIT" 0xf7ffff00 0x77c00100 none none none (some (immfield 8 0)) none
    ∷ row "NEXIT" 0xf7fffff0 0x77c00310 none (some (urgfield 0)) none none none
    ∷ row "NEXIT" 0xf7ffffe0 0x77c00300 none (some (regfield 0)) none none none
    ∷ row "NDUMP" 0xf7ffffff 0x77c002ff none none none none none
    ∷ row "NDUMP" 0xf7fffff0 0x77c00200 none (some (regfield 0)) none none none
    ∷ row "NDUMP" 0xf7fffff0 0x77c00210 none (some (urgfield 0)) none none none
    ∷ row "NOUT" 0xf7fffff0 0x77c00230 none (some (urgfield 0)) none none none
    ∷ row "NOUT" 0xf7ffffe0 0x77c00220 none (some (regfield 0)) none none none
    ∷ row "NOUT" 0xf7ffff00 0x77c00400 none none none (some (immfield 8 0)) none
    ∷ row "NDUMP" 0xf7ffff00 0x77c00200 none none none none none
    ∷ row "NSIM" 0xf7c00000 0x77c00000 none none none (some (immfield 22 0)) none
    ∷ row "FPADD" 0x87c43fff 0x06840000 (some (regfield 27)) (some (regfield 27))
        (some (regfield 14)) none (some (bitfield 3 19))
    ∷ row "FPSUB" 0x87c43fff 0x06c40000 (some (regfield 27)) (some (regfield 27))
        (some (regfield 14)) none (some (bitfield 3 19))
    ∷ row "FPMPY" 0x87c43fff 0x07040000 (some (regfield 27)) (some (regfield 27))
        (some (regfield 14)) none (some (bitfield 3 19))
    ∷ row "FPDIV" 0x87c43fff 0x07440000 (some (regfield 27)) (some (regfield 27))
        (some (regfield 14)) none (some (bitfield 3 19))
    ∷ row "FPI2F" 0x87c40000 0x07800000 (some (regfield 27)) none none (some (immfield 18 0))
        (some (bitfield 3 19))
    ∷ row "FPI2F" 0x87c40000 0x07840000 (some (regfield 27)) none (some (regfield 14))
        (some (immfield 14 0)) (some (bitfield 3 19))
    ∷ row "FPF2I" 0x87c40000 0x07c40000 (some (regfield 27)) none (some (regfield 14))
        (some (immfield 14 0)) (some (bitfield 3 19))
    ∷ []

-- Instructions of 16 bits, high side, and the end of the table.
unfoldable pub high_half : List ZopCode
high_half =
    row "BRA" 0xff800000 0xf9000000 none none none (some (immfield 7 16)) none
    ∷ row "CLR" 0x87ff0000 0x86000000 (some (regfield 27)) none none none none
    ∷ row "RTN" 0xffff0000 0xff800000 none none none none none
    ∷ row "JMP" 0xff800000 0xff000000 (some (regfield 27)) none (some (regfield 19))
        (some (immfield 3 16)) none
    ∷ row "SUB" 0x87800000 0x80000000 (some (regfield 27)) (some (regfield 27)) none
        (some (immfield 7 16)) none
    ∷ row "SUB" 0x87800000 0x80800000 (some (regfield 27)) (some (regfield 27)) (some (regfield 19))
        (some (immfield 3 16)) none
    ∷ row "AND" 0x87800000 0x81000000 (some (regfield 27)) (some (regfield 27)) none
        (some (immfield 7 16)) none
    ∷ row "AND" 0x87800000 0x81800000 (some (regfield 27)) (some (regfield 27)) (some (regfield 19))
        (some (immfield 3 16)) none
    ∷ row "ADD" 0x87800000 0x82000000 (some (regfield 27)) (some (regfield 27)) none
        (some (immfield 7 16)) none
    ∷ row "ADD" 0x87800000 0x82800000 (some (regfield 27)) (some (regfield 27)) (some (regfield 19))
        (some (immfield 3 16)) none
    ∷ row "CMP" 0x87800000 0x83000000 (some (regfield 27)) none (some (regfield 19))
        (some (immfield 7 16)) none
    ∷ row "CMP" 0x87800000 0x83800000 (some (regfield 27)) none (some (regfield 19))
        (some (immfield 3 16)) none
    ∷ row "LW" 0x87800000 0x84000000 (some (regfield 27)) none (some 0xd0000) (some (immfield 7 16))
        none
    ∷ row "LW" 0x87800000 0x84800000 (some (regfield 27)) none (some (regfield 19))
        (some (immfield 3 16)) none
    ∷ row "SW" 0x87000000 0x85000000 none (some (regfield 27)) (some 0xd0000) (some (immfield 7 16))
        none
    ∷ row "SW" 0x87800000 0x85800000 none (some (regfield 27)) (some (regfield 19))
        (some (immfield 3 16)) none
    ∷ row "LDI" 0x87000000 0x86000000 (some (regfield 27)) none none (some (immfield 8 16)) none
    ∷ row "MOV" 0x87800000 0x87800000 none (some (regfield 27)) (some (regfield 19))
        (some (immfield 3 16)) none
    ∷ row "ILLV" 0x80000000 0x80000000 none none none (some (immfield 32 16)) none
    ∷ row "ILL" 0x00000000 0x00000000 none none none (some (immfield 32 0)) none
    ∷ []

-- Instructions of 16 bits, low side.
unfoldable pub bottom : List ZopCode
bottom =
    row "BRA" 0x80007f80 0x80007900 none none none (some (immfield 7 0)) none
    ∷ row "CLR" 0x800007ff 0x80000600 (some (regfield 11)) none none none none
    ∷ row "RTN" 0x80007fff 0x80007f80 none none none none none
    ∷ row "JMP" 0x80007f80 0x80007f00 (some (regfield 11)) none (some (regfield 3))
        (some (immfield 3 0)) none
    ∷ row "LJMP" 0x80007fff 0x80007cf8 (some (regfield 11)) none (some (regfield 3))
        (some (immfield 3 0)) none
    ∷ row "SUB" 0x80000780 0x80000000 (some (regfield 11)) (some (regfield 11)) none
        (some (immfield 7 0)) none
    ∷ row "SUB" 0x80000780 0x80000080 (some (regfield 11)) (some (regfield 11)) (some (regfield 3))
        (some (immfield 3 0)) none
    ∷ row "AND" 0x80000780 0x80000100 (some (regfield 11)) (some (regfield 11)) none
        (some (immfield 7 0)) none
    ∷ row "AND" 0x80000780 0x80000180 (some (regfield 11)) (some (regfield 11)) (some (regfield 3))
        (some (immfield 3 0)) none
    ∷ row "ADD" 0x80000780 0x80000200 (some (regfield 11)) (some (regfield 11)) none
        (some (immfield 7 0)) none
    ∷ row "ADD" 0x80000780 0x80000280 (some (regfield 11)) (some (regfield 11)) (some (regfield 3))
        (some (immfield 3 0)) none
    ∷ row "CMP" 0x80000780 0x80000300 (some (regfield 11)) none none (some (immfield 7 0)) none
    ∷ row "CMP" 0x80000780 0x80000380 (some (regfield 11)) none (some (regfield 3))
        (some (immfield 3 0)) none
    ∷ row "LW" 0x80000780 0x80000400 (some (regfield 11)) none (some 0xd0000) (some (immfield 7 0))
        none
    ∷ row "LW" 0x80000780 0x80000480 (some (regfield 11)) none (some (regfield 3))
        (some (immfield 3 0)) none
    ∷ row "SW" 0x80000780 0x80000500 none (some (regfield 11)) (some 0xd0000) (some (immfield 7 0))
        none
    ∷ row "SW" 0x80000780 0x80000580 none (some (regfield 11)) (some (regfield 3))
        (some (immfield 3 0)) none
    ∷ row "LDI" 0x80000700 0x80000600 (some (regfield 11)) none none (some (immfield 8 0)) none
    ∷ row "MOV" 0x80000780 0x80000780 (some (regfield 11)) none (some (regfield 3))
        (some (immfield 3 0)) none
    ∷ row "ILLV" 0x80000000 0x80000000 none none none (some (immfield 15 0)) none
    ∷ row "ILL" 0x00000000 0x00000000 none none none (some (immfield 15 0)) none
    ∷ []
