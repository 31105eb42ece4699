-- ===== src/TtyBus/ReadFrame.antt =====
-- The frame of `readidle` (sw/host/ttybus.cpp): the write table and the characters sent.
use zipversa.Base.{ℕ, zero, suc, ◌+◌, ◌%◌, ◌/◌, ◌≡◌, refl, Bool, true, false, ◌∙◌}
use zipversa.Base.{
  ◌-◌, [], ◌∷◌, ◌++◌, length, take, get_or, arith, List, ◌==◌, ltb, leb, if◌then◌else◌, Option,
  none, some,
}
use zipversa.TtyBus.Code.{chardec}
use zipversa.TtyBus.State.{Bus, Outcome, M, ok, buserr, blocked, exits, bind, ◌>>=◌, ◌>>◌, pure}
use zipversa.TtyBus.Read.{dev_read, lclreadcode, collect_loop, collect, control, address_value}
use zipversa.TtyBus.Read.{
  table_value, take_raw, long_index, raw_value, data_value, drop_data, readidle_act, is_address,
  readidle_loop, readidle,
}

abbrev pub sending : Bus → Bool × ℕ × (ℕ → ℕ) × List ℕ
sending s = (s.wrloaded, s.wraddr, s.writetbl, s.sent)

abbrev pub Keeps : {A : Type 0} → M A → Type 0
Keeps m = (s : Bus) → sending (m s).1 ≡ sending s

pub bind-Keeps :
    {A B : Type 0} (o : Outcome A × Bus) (f : A → M B)
    → ((a : A) → Keeps (f a))
    → sending (bind o f).1 ≡ sending o.1
bind-Keeps (ok a, s) f h = h a s
bind-Keeps (buserr x, s) f h = refl
bind-Keeps (blocked, s) f h = refl
bind-Keeps (exits, s) f h = refl

pub >>=-Keeps :
    {A B : Type 0} (m : M A) (f : A → M B) → Keeps m → ((a : A) → Keeps (f a)) → Keeps (m >>= f)
>>=-Keeps m f hm hf s = bind-Keeps (m s) f hf ∙ hm s

pub >>-Keeps : {B : Type 0} (m : M (Unit {0})) (k : M B) → Keeps m → Keeps k → Keeps (m >> k)
>>-Keeps m k hm hk s = bind-Keeps (m s) (λ _. k) (λ _. hk) ∙ hm s

pub if-Keeps : {A : Type 0} (b : Bool) (m k : M A) → Keeps m → Keeps k → Keeps (if b then m else k)
if-Keeps true m k hm hk = hm
if-Keeps false m k hm hk = hk

dev_read-Keeps : (len : ℕ) → Keeps (dev_read len)
unfolding dev_read
dev_read-Keeps len s = ground arith

pub lclreadcode-Keeps : (len : ℕ) → Keeps (lclreadcode len)
unfolding lclreadcode
lclreadcode-Keeps len = >>=-Keeps (dev_read len) _ (dev_read-Keeps len) (λ got s. refl)

collect_loop-Keeps : (fuel want : ℕ) (buf : List ℕ) → Keeps (collect_loop fuel want buf)
unfolding collect_loop
collect_loop-Keeps zero want buf = λ s. refl
collect_loop-Keeps (suc fuel) want buf =
    >>=-Keeps (lclreadcode (want - length buf)) _ (lclreadcode-Keeps (want - length buf)) λ p.
      let buf' = buf ++ take p.0 p.1 in
      if-Keeps (leb want (length buf')) (pure buf') (collect_loop fuel want buf') (λ s. refl)
        (collect_loop-Keeps fuel want buf')

collect-Keeps : (want : ℕ) (buf : List ℕ) → Keeps (collect want buf)
unfolding collect
collect-Keeps want buf s = collect_loop-Keeps (suc (length s.input)) want buf s

pub control-Keeps : (sixbits : ℕ) → Keeps (control sixbits)
unfolding control
control-Keeps sixbits s = ground arith

pub address_value-Keeps : (sixbits c : ℕ) → Keeps (address_value sixbits c)
unfolding address_value
address_value-Keeps sixbits c =
    if-Keeps (sixbits / 4 == 2) _ _
      (>>=-Keeps (collect 6 (c ∷ [])) _ (collect-Keeps 6 (c ∷ [])) (λ buf s. refl))
      (>>=-Keeps (collect (sixbits % 4 + 2) (c ∷ [])) _ (collect-Keeps _ (c ∷ [])) (λ buf s. refl))

table_value-Keeps : (sixbits idx : ℕ) → Keeps (table_value sixbits idx)
unfolding table_value
table_value-Keeps sixbits idx s = refl

take_raw-Keeps : (sixbits v : ℕ) → Keeps (take_raw sixbits v)
unfolding take_raw
take_raw-Keeps sixbits v s = refl

pub data_value-Keeps : (sixbits c val : ℕ) → Keeps (data_value sixbits c val)
unfolding data_value
data_value-Keeps sixbits c val = if-Keeps (sixbits / 2 == 3) _ _ (table_value-Keeps sixbits 1) (
    if-Keeps (sixbits / 16 == 1) _ _
      (>>=-Keeps (collect 2 (c ∷ [])) _ (collect-Keeps 2 (c ∷ []))
        (λ buf. table_value-Keeps sixbits (long_index buf)))
      (if-Keeps (sixbits / 16 == 2) _ _ (table_value-Keeps sixbits _) (
        if-Keeps (sixbits / 8 == 7) _ _
          (>>=-Keeps (collect 6 (c ∷ [])) _ (collect-Keeps 6 (c ∷ []))
            (λ buf. take_raw-Keeps sixbits (raw_value buf)))
          (λ s. refl))))

drop_data-Keeps : (found : Option (ℕ × ℕ)) → Keeps (drop_data found)
unfolding drop_data
drop_data-Keeps none = λ s. refl
drop_data-Keeps (some (c, val)) =
    >>=-Keeps (data_value (chardec c) c val) _ (data_value-Keeps (chardec c) c val) (λ v s. refl)

readidle_act-Keeps :
    (more : ℕ → M (Option (ℕ × ℕ))) (val : ℕ) (got : List ℕ)
    → ((v : ℕ) → Keeps (more v))
    → Keeps (readidle_act more val got)
unfolding readidle_act
readidle_act-Keeps more val got h =
    let c = get_or got 0 0 in
    let sixbits = chardec c in
    if-Keeps (leb 64 sixbits) _ _ (h val) (
      if-Keeps (ltb sixbits 6) _ _
        (>>-Keeps (control sixbits) (more val) (control-Keeps sixbits) (h val))
        (if-Keeps (is_address sixbits) _ _
          (>>=-Keeps (address_value sixbits c) more (address_value-Keeps sixbits c) h) (λ s. refl)))

readidle_loop-Keeps : (fuel val : ℕ) → Keeps (readidle_loop fuel val)
unfolding readidle_loop
readidle_loop-Keeps zero val = λ s. refl
readidle_loop-Keeps (suc fuel) val = λ s.
    if-Keeps (length s.input == 0) _ _ (λ s. refl)
      (>>=-Keeps (lclreadcode 1) _ (lclreadcode-Keeps 1) (λ p.
        if-Keeps (ltb 0 p.0) _ _
          (>>=-Keeps (lclreadcode 1) _ (lclreadcode-Keeps 1) (λ q.
            readidle_act-Keeps (readidle_loop fuel) val q.1 (λ v. readidle_loop-Keeps fuel v)))
          (λ s. refl)))
      s

-- Whatever arrives and however `readidle` ends, the write table and what was sent are as before.
pub readidle-Keeps : Keeps readidle
unfolding readidle
readidle-Keeps s =
    >>=-Keeps (readidle_loop (length s.input) 0) drop_data (readidle_loop-Keeps (length s.input) 0)
      drop_data-Keeps s
