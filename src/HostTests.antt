-- ===== src/HostTests.antt =====
-- Concrete runs of the host's side (sw/host/ttybus.cpp, byteswap.cpp).
use mathlib.Core.Bool.{true≢false}
use zipversa.Base.{ℕ, ◌≡◌, refl, sym, arith}
use zipversa.Base.{true, false, List, [], ◌∷◌, ◌++◌, get_or}
use zipversa.Base.Bits.{shr}
use zipversa.TtyBus.Code.{chardec, encode, decodestr, decodestr-encode}
use zipversa.TtyBus.State.{Bus, ok}
use zipversa.TtyBus.Address.{encode_address, encode_absolute}
use zipversa.TtyBus.AddressLaws.{Agrees}
use zipversa.TtyBus.Receiver.{Receiver, write, run}
use zipversa.TtyBus.Read.{not_code}
use zipversa.TtyBus.ReadCodes.{IsClean}
use zipversa.TtyBus.Write.{writev, writeio}
use zipversa.TtyBus.WriteTable.{InSync}
use zipversa.TtyBus.WriteMethods.{IsReady, Linked, writev-run, writeio-Linked}
use zipversa.TtyBus.WriteReturns.{writev-returns, writeio-returns}

-- A host that has just started, and a device after reset.
abbrev bus : Bus
bus = record {
  addr_set = false;
  lastaddr = 0;
  buflen = 128;
  wrloaded = false;
  wraddr = 0;
  writetbl = λ i. 0;
  rdaddr = 0;
  readtbl = λ i. 0;
  bus_err = false;
  interrupt_flag = false;
  total_nread = 0;
  input = [];
  arrivals = [];
  sent = [];
}

abbrev device : Receiver
device = record {
  part = [];
  lastcw = 0;
  wr_addr = 0;
  tbl = λ i. 0;
  wb_addr = 0;
  writing = false;
  log = [];
}

agrees : Agrees bus device
agrees e = absurd (true≢false (sym e))

in_sync : InSync bus device
in_sync = record { host = omega arith; device = omega arith; same = λ i h1 h2 c. refl }

linked : Linked bus device
linked = record { addr = agrees; sync = in_sync; ready = (refl, refl) }

abbrev buffer : List ℕ
buffer = 7 ∷ 9 ∷ 7 ∷ []

writeio-Linked_example :
    let s' = (writeio 4096 7 bus).1 in
    (out : List ℕ) × (s'.sent ≡ [] ++ out)
    × ((run out device).log ≡ [] ++ (write 1024 7 ∷ []))
    × Linked s' (run out device)
writeio-Linked_example =
    writeio-Linked 4096 7 bus device (omega arith) (omega arith) linked
      (writeio-returns 4096 7 bus refl (refl, refl))

writev-run_example :
    let s' = (writev 4096 1 buffer bus).1 in
    (out : List ℕ) × (s'.sent ≡ [] ++ out)
    × ((run out device).log ≡ [] ++ (write 1024 7 ∷ write 1025 9 ∷ write 1026 7 ∷ []))
    × ((run out device).wb_addr ≡ 1027)
    × IsReady (run out device)
    × InSync s' (run out device)
writev-run_example =
    writev-run 4096 1 buffer bus device (omega arith) (omega arith)
      (omega arith, (omega arith, (omega arith, tt))) (λ e. cc) agrees in_sync (refl, refl)
      (writev-returns 4096 1 buffer bus refl (refl, refl))

writev-returns_example : (writev 4096 1 buffer bus).0 ≡ ok tt
writev-returns_example = writev-returns 4096 1 buffer bus refl (refl, refl)

first_code : (encode_address 4096 bus).0 ≡ ok (encode_absolute 1024 [])
unfolding encode_address
first_code = refl

abbrev moved_bus : Bus
moved_bus = record bus { addr_set = true; lastaddr = 4100 }

abbrev noisy_bus : Bus
noisy_bus = record bus { input = b'A' ∷ b'B' ∷ b'\n' ∷ [] }

decodestr-encode_example :
    (decodestr (encode 3 0xdeadbeef) ≡ 0xdeadbeef)
    × (shr (chardec (get_or (encode 3 0xdeadbeef) 0 0)) 2 ≡ 3)
decodestr-encode_example = decodestr-encode 3 0xdeadbeef (omega arith) (omega arith)

letters-IsClean : IsClean (b'A' ∷ b'B' ∷ [])
unfolding chardec
letters-IsClean = (refl, (refl, tt))

newline_no_code : (not_code b'A' ≡ false) × (not_code b'\n' ≡ true)
unfolding chardec
newline_no_code = (refl, refl)
