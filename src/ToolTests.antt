-- ===== src/ToolTests.antt =====
-- Runs of the host's tools: sw/host/netuart.cpp, scopecls.cpp, regdefs.cpp and zopcodes.cpp.
use zipversa.Base.{ℕ, ◌+◌, ◌^◌, ◌<◌, ◌≡◌, refl, arith, true, false, none, some}
use zipversa.Base.{[], ◌∷◌, ◌++◌, length, All, map, bit_or}
use zipversa.NetUart.{
  LinBufs, Bridge, Chunk, wrote, again, ok, round, arrives, sends, port_event, client_event,
  tty_chunks, tty_chunk, forward, note_sent, write, write_loop, print_some, print_in, print_out,
  put, put_all, commands, consoles,
}
use zipversa.NetUart.Streams.{Carried, marked, round-delivers}
use zipversa.NetUart.Write.{write_delivers}
use zipversa.NetUart.Lines.{body, concat, put_all-keeps}
use zipversa.Scope.{Scope, lines_of}
use zipversa.Scope.Expanded.{expand, drawn, Shows, lines_of-expand}
use zipversa.Scope.Trace.{entries}
use zipversa.Scope.Trace.Trigger.{Plain, entries-Plain}
use zipversa.Registers.{addrname, addrdecode, codes, strcasecmp, raw_bregs, find_addr, to_lower}
use zipversa.ZopCodes.{zip_oplist, zip_opbottomlist, zipi_to_halfstring}
use zipversa.ZopCodes.Bounds.{IsPrintable, zipi_to_halfstring-IsPrintable}
use zipversa.Registers.Names.{addrdecode-addrname}

abbrev client : ℕ → LinBufs
client n = record { iline = []; oline = []; fd = some n; connected = true; got = [] }

abbrev bridge : Bridge
bridge = record { cmd = client 5; con = client 6; tty = []; printed = [] }

abbrev chunk : Chunk
chunk = record {
  raw = 0xc1 ∷ 0x42 ∷ 0xc3 ∷ 10 ∷ [];
  cmd_answers = wrote 1 ∷ again ∷ wrote 1 ∷ [];
  con_answers = wrote 2 ∷ [];
}

abbrev bridged : Bridge
bridged = record {
  cmd = record (client 5) { iline = 0x41 ∷ 0x43 ∷ []; oline = 0x41 ∷ []; got = 0x41 ∷ 0x43 ∷ [] };
  con = record (client 6) { oline = 0x7a ∷ []; got = 0x42 ∷ 10 ∷ [] };
  tty = 0xc1 ∷ 0x7a ∷ [];
  printed = (0x42 ∷ []) ∷ [];
}

a_round :
    round
      (arrives (chunk ∷ []))
      (sends (0x41 ∷ []) (wrote 1 ∷ []))
      (sends (0x7a ∷ []) (wrote 1 ∷ []))
      bridge
    ≡ ok bridged
unfolding round port_event client_event tty_chunks tty_chunk forward note_sent write write_loop
    print_some print_in print_out put put_all commands consoles
a_round = refl

round-delivers_example :
    Carried (0x41 ∷ 0x43 ∷ []) (client 5) bridged.cmd
    × Carried (0x42 ∷ 10 ∷ []) (client 6) bridged.con
    × (bridged.tty ≡ [] ++ (marked (0x41 ∷ []) ++ 0x7a ∷ []))
round-delivers_example =
    round-delivers (chunk ∷ []) ((true, 0x41) ∷ (false, 0x42) ∷ (true, 0x43) ∷ (false, 10) ∷ [])
      (0x41 ∷ []) (0x7a ∷ []) (wrote 1 ∷ []) (wrote 1 ∷ []) bridge bridged
      (omega arith, (omega arith, (omega arith, (omega arith, tt)))) refl a_round

write_delivers_example :
    write (wrote 2 ∷ again ∷ wrote 3 ∷ []) 0x80 (1 ∷ 2 ∷ 3 ∷ [])
    ≡ ok (map (λ c. bit_or c 0x80) (1 ∷ 2 ∷ 3 ∷ []))
write_delivers_example =
    write_delivers (wrote 2 ∷ again ∷ wrote 3 ∷ []) 0x80 (1 ∷ 2 ∷ 3 ∷ []) (omega arith)
      (omega arith) (omega arith)

put_all-keeps_example :
    (length (put_all (0x41 ∷ 10 ∷ 0x42 ∷ []) (0x43 ∷ [])).0 < 511)
    × (body (
          concat (put_all (0x41 ∷ 10 ∷ 0x42 ∷ []) (0x43 ∷ [])).1
          ++ (put_all (0x41 ∷ 10 ∷ 0x42 ∷ []) (0x43 ∷ [])).0)
        ≡ 0x43 ∷ 0x41 ∷ 0x42 ∷ [])
put_all-keeps_example =
    put_all-keeps (0x41 ∷ 10 ∷ 0x42 ∷ []) (0x43 ∷ []) (omega arith) (omega arith) (omega arith)

-- A sample, a gap of three clocks, and another sample.
abbrev scope : Scope
scope = record {
  addr = 0x300000;
  compressed = true;
  vector_read = true;
  scop_len = 3;
  holdoff = 1;
  samples = some (5 ∷ (2 ^ 31 + 2) ∷ 7 ∷ []);
  traces = [];
}

lines_of-expand_example :
    (drawn (lines_of scope) ≡ some 5 ∷ none ∷ none ∷ none ∷ some 7 ∷ [])
    × All (Shows (expand (5 ∷ (2 ^ 31 + 2) ∷ 7 ∷ []))) (lines_of scope)
lines_of-expand_example = lines_of-expand scope (5 ∷ (2 ^ 31 + 2) ∷ 7 ∷ []) refl refl

entries-Plain_example : All Plain (entries scope)
entries-Plain_example =
    entries-Plain scope 5 ((2 ^ 31 + 2) ∷ 7 ∷ []) refl refl refl refl (omega arith) (omega arith)

pic_name : addrname 0x600008 ≡ some (codes "PIC")
unfolding addrname find_addr raw_bregs
pic_name = refl

in_small : strcasecmp (codes "pic") (codes "PIC") ≡ true
unfolding strcasecmp to_lower
in_small = refl

addrdecode-addrname_example : addrdecode (λ s. 0) (codes "pic") ≡ some 0x600008
addrdecode-addrname_example =
    addrdecode-addrname (λ s. 0) 0x600008 (codes "PIC") (codes "pic") pic_name in_small

zipi_to_halfstring-IsPrintable_example :
    IsPrintable (zipi_to_halfstring 4096 0x87f9fcf8 zip_oplist)
    × IsPrintable (zipi_to_halfstring 4096 0x87f9fcf8 zip_opbottomlist)
zipi_to_halfstring-IsPrintable_example = zipi_to_halfstring-IsPrintable 4096 0x87f9fcf8
