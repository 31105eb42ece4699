-- ===== src/TtyBus/State.antt =====
-- The members of TTYBUS that its methods read and write (sw/host/ttybus.h), and the outcomes of a
-- method: it returns, throws BUSERR, waits for input that never comes, or ends the program.
use zipversa.Base.{ℕ, ◌+◌, ◌*◌, ◌/◌, ◌%◌, Bool, false, ◌&&◌, List, []}
use zipversa.Base.{if◌then◌else◌, leb, ltb, ◌==◌}

-- `input` holds the bytes that have arrived from the device and are not read, `sent` all that was
-- written to it, and `arrivals` what the device sends after each of the writes to come. A table is
-- a function of the index.
pub record Bus : Type 0 where
  pub addr_set : Bool
  pub lastaddr : ℕ
  pub buflen : ℕ
  pub wrloaded : Bool
  pub wraddr : ℕ
  pub writetbl : ℕ → ℕ
  pub rdaddr : ℕ
  pub readtbl : ℕ → ℕ
  pub bus_err : Bool
  pub interrupt_flag : Bool
  pub total_nread : ℕ
  pub input : List ℕ
  pub arrivals : List (List ℕ)
  pub sent : List ℕ

pub data Outcome {ℓ} (A : Type ℓ) : Type ℓ where
  ok : A → Outcome A
  buserr : ℕ → Outcome A
  blocked : Outcome A
  exits : Outcome A

-- A method, and the sequence of two.
abbrev pub M : Type 0 → Type 0
M A = Bus → Outcome A × Bus

abbrev pub bind : {A B : Type 0} → Outcome A × Bus → (A → M B) → Outcome B × Bus
bind (ok a, s) f = f a s
bind (buserr x, s) f = (buserr x, s)
bind (blocked, s) f = (blocked, s)
bind (exits, s) f = (exits, s)

infixl 5 ◌>>=◌ ◌>>◌
abbrev pub ◌>>=◌ : {A B : Type 0} → M A → (A → M B) → M B
◌>>=◌ m f s = bind (m s) f

abbrev pub ◌>>◌ : {B : Type 0} → M (Unit {0}) → M B → M B
◌>>◌ m k s = bind (m s) (λ _. k)

abbrev pub pure : {A : Type 0} → A → M A
pure a s = (ok a, s)

abbrev pub throw : {A : Type 0} → ℕ → M A
throw a s = (buserr a, s)

abbrev pub waits : {A : Type 0} → M A
waits s = (blocked, s)

abbrev pub modify : (Bus → Bus) → M (Unit {0})
modify f s = (ok tt, f s)

-- `m_writetbl[i] = v`, and likewise for the read table.
abbrev pub update : (ℕ → ℕ) → ℕ → ℕ → ℕ → ℕ
update tbl i v j = if j == i then v else tbl j

-- `bufalloc(len)` leaves a buffer that is long enough, and otherwise makes a new one of
-- `(len & -0x3f) + 0x40` characters; -0x3f has all bits but 1 to 5.
unfoldable pub bufalloc : ℕ → ℕ → ℕ
bufalloc buflen len =
    if ltb 0 buflen && leb len buflen then buflen else len / 64 * 64 + len % 2 + 64

-- `init`, with the tables that it leaves as they are; the device has sent nothing yet.
unfoldable pub init : (ℕ → ℕ) → (ℕ → ℕ) → List (List ℕ) → Bus
unfolding bufalloc
init readtbl writetbl arrivals = record {
  addr_set = false;
  lastaddr = 0;
  buflen = bufalloc 0 64;
  wrloaded = false;
  wraddr = 0;
  writetbl = writetbl;
  rdaddr = 0;
  readtbl = readtbl;
  bus_err = false;
  interrupt_flag = false;
  total_nread = 0;
  input = [];
  arrivals = arrivals;
  sent = [];
}
