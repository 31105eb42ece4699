-- ===== src/Lib.antt =====
-- The host side of the debugging bus of the ZipVersa project, the C++ models of the peripherals that
-- its simulation connects to the design, and the network and support software of the board.
--
-- The program's parts. The host talks to the FPGA over a serial line in a code of six bits a
-- character (sw/host/ttybus.cpp); the hardware at the other end expands the code into requests on
-- the bus, and compresses its answers (rtl/wbubus). In simulation the line, the flash, the memory and
-- the management port of the Ethernet transceiver are C++ objects that the bench calls at each clock
-- (sim/verilated). On the board a processor runs a small network stack (sw/rv32): packets are made,
-- given their headers from the inside out, sent or kept while the interface is busy, and freed.
--
-- Which file models which part.
--   Base: the shared names; Base/Bits the bit operations as arithmetic, Base/Lists lists measured by
--     native numbers, Base/Tests Boolean tests.
--   TtyBus: class TTYBUS of sw/host/ttybus.cpp. TtyBus/State has the members that the methods use
--     and the monad of a method, which returns, throws BUSERR, waits for input that never comes, or
--     ends the program. TtyBus/Code has charenc, chardec, encode, decodestr and decodehex;
--     TtyBus/Address encode_address and readcmd; TtyBus/Read lclreadcode, readword and readidle;
--     TtyBus/Write writev, writeio, writez and writei. The device is an input: what has arrived, and
--     what arrives after each write. TtyBus/Receiver is the other end as rtl/wbubus has it, in terms
--     of characters: wbutohex.v, wbureadcw.v, wbudecompress.v and wbuexec.v. TtyBus/ReadVector has
--     readv, readio, readi, readz, usleep and wait. TtyBus/Reply and ReadMarks have the answers that
--     the device sends, as wbuexec.v and wbucompress.v encode them. The other children hold the
--     proofs about them.
--   Bytes: sw/host/byteswap.cpp, and the buildword of sim/verilated/byteswap.cpp.
--   TbClock: class TBCLOCK of sim/verilated/tbclock.h.
--   MemSim: class MEMSIM of sim/verilated/memsim.cpp.
--   FlashSim: class FLASHSIM of sim/verilated/flashsim.cpp. Select, Command, Data and Clock are the
--     four parts of operator(); SelectLaws, CommandLaws, DataLaws, ClockLaws and MemoryLaws hold
--     the proofs about them.
--   EnetCtrl: class ENETCTRLSIM of sim/verilated/enetctrlsim.cpp.
--   DblUart: class DBLUARTSIM of sim/verilated/dbluartsim.cpp. The sockets are an argument of each
--     tick.
--   Divide: the division of 64-bit numbers, sw/zlib/udiv.c and umod.c.
--   TwosComplement: sw/host/twoc.cpp. Extension has the proofs on signed words, Rounding the one on
--     rndbits.
--   DevBus: the interface DEVBUS of sw/host/devbus.h, of which TTYBUS is one.
--   FlashDriver: class FLASHDRVR of sw/host/flashdrvr.cpp, over any such bus, as it is compiled with
--     FLASH_ACCESS; Write is its method write. Verify, Scan, Chip and Port hold the proofs; Port has the
--     configuration port of rtl/qflexpress.v, as the transactions that the flash sees.
--   Scope: class SCOPE of sw/host/scopecls.cpp, over any such bus; Scope/Trace the trace file. Expanded,
--     Digits and Trigger hold the proofs.
--   NetUart: sw/host/netuart.cpp, LINBUFS and a round of the loop; what the system answers to poll, read
--     and write is an argument. Write, Streams and Lines hold the proofs.
--   Registers: the names of registers, sw/host/regdefs.cpp and regdefs.h; Names the proof.
--   ZopCodes: the disassembler, sw/host/zopcodes.cpp. Row, Special, General and Halves have the tables,
--     Bounds the proof that each line can be printed.
--   Net: the network stack of sw/rv32. State has the packets and the variables of all the files,
--     Packet pkt.c and tx_busy, Ether ethproto.c, Checksum ipcksum.c, Ip ipproto.c, Arp arp.c,
--     Message icmp.c and udpproto.c, and PingTest the loop of pingtest.c. A packet's memory is a
--     function of the index, and `malloc` leaves any contents there. The other children hold the
--     proofs: Bytes on what is written to a packet, ChecksumLaws and IpLaws on headers, ArpLaws and
--     ArpUpdate on the table, and the four of Memory on which packets are freed.
--   Bootloader: sw/rv32/bootloader.c; Loaded the proof of what it loads.
--   Uart: the serial output of the board, sw/rv32/txfns.c.
--   HostTests, ReadTests, SimTests, BoardTests, ToolTests, FlashTests: concrete runs.
--
-- Bounds and fuel. Words of 32 bits keep their wrap written out; times in TbClock are not wrapped.
-- A read loop runs on fuel of one round per character that has arrived, plus one: each round takes a
-- character, and a round without one is the outcome that waits. A loop of writev has as much fuel as
-- there are words, a round takes one at least, and words left at the end of the fuel make it wait. The loops of the constructor of MEMSIM double a
-- number of 32 bits, so 32 rounds are enough. The loops of readv have as much fuel as words are asked
-- for, and a round asks for one at least. The loop of __udivdi3 halves a number of 64 bits in each of
-- 65 rounds; the checksum takes two bytes in a round and has one round for each byte. flwait waits
-- for the flash, and may ask so many times; a flash that is busy for fewer is waited for.
--
-- Not modelled: simtick of FLASHSIM; the set up of sockets, ports and signals; set_frequency_hz and the
-- times of a trace file, which are floating point; printing, which includes the dump functions of the
-- network stack and the padding of the disassembler; the set up of the interface ahead of the loop of
-- pingtest.c. The other command line tools, the ELF loader, the programs of the board other than these
-- and the hardware beyond the receiver are outside: they are I/O, generated code, assembly or other
-- languages.
pub mod Base
pub mod TtyBus
pub mod Bootloader
pub mod Bytes
pub mod TbClock
pub mod MemSim
pub mod FlashDriver
pub mod FlashSim
pub mod FlashTests
pub mod EnetCtrl
pub mod DblUart
pub mod Divide
pub mod TwosComplement
pub mod DevBus
pub mod Scope
pub mod NetUart
pub mod Registers
pub mod ZopCodes
pub mod Net
pub mod Uart
pub mod HostTests
pub mod SimTests
pub mod ReadTests
pub mod BoardTests
pub mod ToolTests
