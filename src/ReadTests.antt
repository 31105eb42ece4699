-- ===== src/ReadTests.antt =====
-- Runs of the reading methods of TTYBUS.
use zipversa.Base.{ℕ, suc, ◌+◌, ◌<◌, ◌≡◌, refl, arith, true, false, inr, replicate}
use zipversa.Base.{List, [], ◌∷◌, ◌++◌, All, if◌then◌else◌, ◌==◌}
use mathlib.Core.Bool.{false≢true}
use zipversa.TtyBus.Code.{charenc, chardec}
use zipversa.TtyBus.State.{Bus, ok, buserr, exits}
use zipversa.TtyBus.Address.{encode_address, encode_absolute, readcmd}
use zipversa.TtyBus.Receiver.{Receiver, run}
use mathlib.Core.Bool.{false≢true}
use zipversa.TtyBus.Codewords.{between}
use zipversa.TtyBus.Reply.{whole, again, print, history, word_of, goes_on}
use zipversa.TtyBus.ReadWord.{Recalls}
use zipversa.TtyBus.ReadMarks.{Mark, blank, idle, address, IsMark, print_marks}
use zipversa.TtyBus.ReadVector.{read_words, readv, address_after, wait}
use zipversa.TtyBus.ReadAnswer.{Item, print_items, words_of, address_of, IsAnswer}
use zipversa.TtyBus.ReadReturns.{readv-answered}
use zipversa.TtyBus.ReadRequests.{readv-requests, standing, served}
use zipversa.TtyBus.ReadErrors.{read_words_error}
use zipversa.TtyBus.Wait.{wait_returns}

abbrev bus_with : List ℕ → List (List ℕ) → Bus
bus_with input arrivals = record {
  addr_set = false;
  lastaddr = 0;
  buflen = 128;
  wrloaded = false;
  wraddr = 0;
  writetbl = λ i. 0;
  rdaddr = 0;
  readtbl = λ i. 0;
  bus_err = false;
  interrupt_flag = false;
  total_nread = 0;
  input = input;
  arrivals = arrivals;
  sent = [];
}

-- The address 0x100, the word 7, and the same word again.
abbrev answer : List Item
answer = (blank b'\n' ∷ address 64 ∷ [], whole true 7) ∷ (idle 1 ∷ [], again true) ∷ []

answer-IsAnswer : IsAnswer [] answer
unfolding IsAnswer chardec history
answer-IsAnswer = (omega arith, (refl, (omega arith, tt)), (omega arith, (omega arith, tt), tt))

no_history : (s : Bus) → s.rdaddr < 1024 → Recalls s []
no_history s h = record { place = h; same = λ d h1 h2 h3. absurd (omega arith) }

abbrev bus : Bus
bus = bus_with [] ((print_items answer ++ []) ∷ [])

abbrev address_chars : List ℕ
address_chars = charenc 0x0a ∷ charenc 1 ∷ charenc 0 ∷ []

bus_address : encode_address 0x100 bus ≡ (ok address_chars, bus)
unfolding encode_address encode_absolute
bus_address = refl

readv-answered_example :
    ((readv 0x100 1 2 bus).0 ≡ (
      if (address_of (false, 0) answer).1 == address_after 0x100 1 2
      then ok (words_of [] answer)
      else exits))
    × ((readv 0x100 1 2 bus).1.input ≡ [])
    × ((readv 0x100 1 2 bus).1.sent ≡ [] ++ ((address_chars ++ readcmd 1 2) ++ b'\n' ∷ []))
readv-answered_example =
    readv-answered 0x100 1 address_chars answer [] [] [] bus bus (omega arith) (omega arith)
      bus_address refl refl answer-IsAnswer (no_history bus (omega arith))

-- The words are what the device had, and the address is the one behind them.
answered :
    ((address_of (false, 0) answer).1 ≡ address_after 0x100 1 2) × (words_of [] answer ≡ 7 ∷ 7 ∷ [])
unfolding address_of words_of word_of history goes_on
answered = (refl, refl)

abbrev receiver : Receiver
receiver = record {
  part = [];
  lastcw = 0;
  wr_addr = 0;
  tbl = λ i. 0;
  wb_addr = 5;
  writing = false;
  log = [];
}

readv-requests_example :
    (out : List ℕ) × ((readv 0x100 1 2 bus).1.sent ≡ [] ++ out)
    × (standing (run out (between receiver)) ≡ served 1 2 64 receiver)
unfolding encode_address encode_absolute
readv-requests_example =
    readv-requests 0x100 1 2 bus receiver {cs = address_chars} (omega arith) (omega arith)
      (omega arith) (omega arith) (λ e. absurd (omega arith)) (λ e. absurd (false≢true e)) refl refl

abbrev failing : Bus
failing = bus_with (print_items answer ++ charenc 5 ∷ b'\n' ∷ []) []

read_words_error_example :
    ((read_words 0x100 1 (2 + suc 3) [] failing).0 ≡ buserr (address_after 0x100 1 (0 + 2)))
    × ((read_words 0x100 1 (2 + suc 3) [] failing).1.bus_err ≡ true)
    × ((read_words 0x100 1 (2 + suc 3) [] failing).1.input ≡ b'\n' ∷ [])
read_words_error_example =
    read_words_error 0x100 1 5 3 answer [] (b'\n' ∷ []) [] failing (inr refl) answer-IsAnswer
      (no_history failing (omega arith)) refl

abbrev marks : List Mark
marks = blank b'\n' ∷ idle 1 ∷ address 64 ∷ []

marks_good : All IsMark marks
unfolding chardec
marks_good = (refl, (omega arith, (omega arith, tt)))

abbrev marked_bus : Bus
marked_bus = bus_with (print_marks marks ++ (print (whole false 9) ++ b'\n' ∷ [])) []

-- Twenty idle codes, and then an interrupt.
abbrev interrupted : Bus
interrupted = bus_with (replicate 20 b'0' ++ b'4' ∷ []) []

wait_returns_example :
    ((wait (replicate 2 (true, [])) interrupted).0 ≡ ok tt)
    × ((wait (replicate 2 (true, [])) interrupted).1.interrupt_flag ≡ true)
wait_returns_example = wait_returns 2 20 interrupted refl (omega arith)
