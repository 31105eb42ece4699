-- ===== src/DevBus.antt =====
-- The interface of a bus, class DEVBUS of sw/host/devbus.h, as its clients use it: each call changes
-- the state of what is behind it, and returns or throws as TtyBus/State says. TTYBUS implements it.
use zipversa.Base.{ℕ, zero, suc, List, [], ◌∷◌}
use zipversa.TtyBus.State.{Outcome, ok, buserr, blocked, exits, Bus}
use zipversa.TtyBus.Write.{writeio}
use zipversa.TtyBus.ReadVector.{readio, readi, readz}

abbrev pub Act : Type 0 → Type 0 → Type 0
Act S A = S → Outcome A × S

pub record DevBus (S : Type 0) : Type 0 where
  pub writeio : ℕ → ℕ → Act S (Unit {0})
  pub readio : ℕ → Act S ℕ
  pub readi : ℕ → ℕ → Act S (List ℕ)
  pub readz : ℕ → ℕ → Act S (List ℕ)

-- What follows a call, in a state of its own: `keep` is that state where the call does not return.
abbrev pub after :
    {A B S T : Type 0} → Outcome A × S → (S → T) → (A → S → Outcome B × T) → Outcome B × T
after (ok a, s) keep f = f a s
after (buserr x, s) keep f = (buserr x, keep s)
after (blocked, s) keep f = (blocked, keep s)
after (exits, s) keep f = (exits, keep s)

infixl 5 ◌>>=◌ ◌>>◌
abbrev pub ◌>>=◌ : {S A B : Type 0} → Act S A → (A → Act S B) → Act S B
◌>>=◌ m f s = after (m s) (λ t. t) f

abbrev pub ◌>>◌ : {S B : Type 0} → Act S (Unit {0}) → Act S B → Act S B
◌>>◌ m k s = after (m s) (λ t. t) (λ _. k)

abbrev pub pure : {S A : Type 0} → A → Act S A
pure a s = (ok a, s)

-- As many calls of `readio` at one address.
unfoldable pub read_each : {S : Type 0} → DevBus S → ℕ → ℕ → Act S (List ℕ)
read_each b a zero s = (ok [], s)
read_each b a (suc n) s =
    after (b.readio a s) (λ t. t)
      λ v s1. after (read_each b a n s1) (λ t. t) λ vs s2. (ok (v ∷ vs), s2)

abbrev pub ttybus : DevBus Bus
ttybus = record { writeio = writeio; readio = readio; readi = readi; readz = readz }
