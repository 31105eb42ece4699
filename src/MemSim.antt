-- ===== src/MemSim.antt =====
-- MEMSIM, the memory on the simulated bus (sim/verilated/memsim.cpp): a power-of-two array of words
-- with byte lanes, whose answers pass through a ring of `m_delay` cycles.
pub mod Lanes
use zipversa.Base.{ℕ, zero, suc, ◌+◌, ◌-◌, ◌*◌, ◌/◌, ◌%◌, ◌^◌, ◌≤◌, ◌<◌, ◌≡◌, refl, arith}
use zipversa.Base.{
  Bool, true, false, ◌&&◌, if◌then◌else◌, ltb, ◌==◌, bit_and, bit_or, Option, none, some,
}

-- Arrays are functions of the index.
pub record Mem : Type 0 where
  pub len : ℕ
  pub mask : ℕ
  pub mem : ℕ → ℕ
  pub delay : ℕ
  pub delay_mask : ℕ
  pub fifo_ack : ℕ → ℕ
  pub fifo_data : ℕ → ℕ
  pub head : ℕ
  pub tail : ℕ

abbrev pub update : (ℕ → ℕ) → ℕ → ℕ → ℕ → ℕ
update f i v j = if j == i then v else f j

-- `for(nxt=1; nxt < n; nxt<<=1);`, with the rounds left. A size above 2 ^ 31 would wrap to 0.
unfoldable pub round_up : ℕ → ℕ → ℕ → ℕ
round_up zero n nxt = nxt
round_up (suc k) n nxt = round_up k n (if ltb nxt n then nxt * 2 else nxt)

-- The constructor; 32 rounds end both loops for sizes of at most 2 ^ 31. The memory and the data of
-- the ring hold what was there.
unfoldable pub new : ℕ → ℕ → (ℕ → ℕ) → (ℕ → ℕ) → Mem
new nwords delay mem fifo_data =
    let len = round_up 32 nwords 1 in
    let size = round_up 32 delay 1 in
    record {
      len = len;
      mask = len - 1;
      mem = mem;
      delay = delay;
      delay_mask = size - 1;
      fifo_ack = λ i. 0;
      fifo_data = fifo_data;
      head = 0;
      tail = bit_and (0 + 2 ^ 32 - delay) (size - 1);
    }

-- `load` of a file that gave `words`: the rest of the memory is cleared.
unfoldable pub load : ℕ → (ℕ → ℕ) → Mem → Mem
load nr words m = record m {
  mem = λ i. if ltb i nr then words i else if ltb i m.len then 0 else m.mem i;
}

-- `wb_sel & (1 << i)`
abbrev pub lane : ℕ → ℕ → Bool
lane wb_sel i = wb_sel / 2 ^ i % 2 == 1

-- The mask of the byte lanes of `wb_sel`.
unfoldable pub lanes : ℕ → ℕ
lanes wb_sel =
    let s3 : ℕ = if lane wb_sel 3 then 0x0ff000000 else 0 in
    let s2 : ℕ = if lane wb_sel 2 then bit_or s3 0x000ff0000 else s3 in
    let s1 : ℕ = if lane wb_sel 1 then bit_or s2 0x00000ff00 else s2 in
    if lane wb_sel 0 then bit_or s1 0x0000000ff else s1

-- The word that a write leaves: `~sel` has the other bits of 32.
unfoldable pub merge : ℕ → ℕ → ℕ → ℕ
merge sel old new_data =
    if sel == 0xffffffff
    then new_data
    else bit_or (bit_and old (0xffffffff - sel)) (bit_and new_data sel)

pub record Bus : Type 0 where
  pub cyc : Bool
  pub stb : Bool
  pub we : Bool
  pub addr : ℕ
  pub value : ℕ
  pub sel : ℕ

pub record Reply : Type 0 where
  pub ack : ℕ
  pub stall : ℕ
  pub value : ℕ

-- The memory after a request.
unfoldable pub store : Bus → Mem → ℕ → ℕ
store b m =
    if b.we
    then update m.mem (bit_and b.addr m.mask)
        (merge (lanes b.sel) (m.mem (bit_and b.addr m.mask)) b.value)
    else m.mem

-- One clock. The head and the tail count in 32 bits before they are masked.
unfoldable pub apply : Bus → Mem → Reply × Mem
apply b m =
    let head1 = (m.head + 1) % 2 ^ 32 in
    let tail = bit_and ((head1 + 2 ^ 32 - m.delay) % 2 ^ 32) m.delay_mask in
    let head = bit_and head1 m.delay_mask in
    let reply : Reply = record { ack = m.fifo_ack tail; stall = 0; value = m.fifo_data tail } in
    if b.cyc && b.stb
    then (
      reply,
      record m {
        mem = store b m;
        fifo_ack = update m.fifo_ack head 1;
        fifo_data = update m.fifo_data head (store b m (bit_and b.addr m.mask));
        head = head;
        tail = tail;
      },
    )
    else (
      reply,
      record m {
        fifo_ack = update m.fifo_ack head 0;
        fifo_data = update m.fifo_data head 0;
        head = head;
        tail = tail;
      },
    )
