-- ===== src/Vm/Run.antt =====
-- The loop of `_pcapint_filter_with_aux_data`, and `Xpcapint_filter`.
use go_pcapfilter.Prelude.{
  ℕ, zero, suc, ◌+◌, ◌*◌, ltb, ◌==◌, if◌then◌else◌, Option, none, some, ◌>>=◌,
}
use go_pcapfilter.Wasm.Words.{add32, sub32, neg32, u32}
use go_pcapfilter.Wasm.Memory.{Memory, load16, store64}
use go_pcapfilter.Vm.Label.{label}
use go_pcapfilter.Vm.Exec.{Call, Regs, Next, go, stop, exec}

pub data Step : Type 0 where
  continue : Regs → Step
  finish : ℕ → Memory → Step

-- The label l41: the next instruction, if there is one.
unfoldable pub advance : Call → Memory → Next → Step
advance c m (stop v) = finish v m
advance c m (go a r) =
    let pc = add32 r.pc 8 in
    if ltb pc (add32 c.prog (u32 (c.count * 8)))
    then continue (record r { a = a; prev = r.pc; pc = pc })
    else finish 0 r.memory

-- One round from the label l50.
unfoldable pub step : Call → Regs → Option Step
step c r = do
  code ← load16 r.memory r.pc
  next ← exec c r (label code)
  some (advance c r.memory next)

pub data Outcome : Type 0 where
  returned : ℕ → Memory → Outcome
  panicked no_fuel : Outcome

unfoldable pub run : ℕ → Call → Regs → Outcome
run zero c r = no_fuel
run (suc fuel) c r = elim (step c r) [
  | none ↦ panicked
  | some (finish v m) ↦ returned v m
  | some (continue r') ↦ run fuel c r'
]

-- The sixteen words of scratch memory below the stack pointer are set to 0, from the top.
unfoldable pub clear_scratch : Memory → ℕ → Option Memory
clear_scratch m s = do
  m ← store64 m (s + 56) 0
  m ← store64 m (s + 48) 0
  m ← store64 m (s + 40) 0
  m ← store64 m (s + 32) 0
  m ← store64 m (s + 24) 0
  m ← store64 m (s + 16) 0
  m ← store64 m (s + 8) 0
  store64 m s 0

abbrev pub start : Call → Memory → Regs
start c m = record { a = 0; x = 0; prev = sub32 c.prog 8; pc = c.prog; back = 0; memory = m }

-- An instruction runs 65 times at most, since 64 jumps may go back: so much fuel is enough.
abbrev pub enough : ℕ → ℕ
enough count = 65 * count + 1

-- With a null program the result is -1; with a count out of range, 0.
unfoldable pub pcapint_filter : Memory → ℕ → ℕ → ℕ → ℕ → ℕ → ℕ → Outcome
pcapint_filter m stack_pointer prog count pkt wirelen buflen =
    if prog == 0
    then returned (neg32 1) m
    else if ltb (sub32 count 3060001) (neg32 3060000)
    then returned 0 m
    else let scratch = sub32 stack_pointer 64 in
      let c : Call = record {
        prog = prog;
        count = count;
        pkt = pkt;
        wirelen = wirelen;
        buflen = buflen;
        scratch = scratch;
      } in
      elim (clear_scratch m scratch) [
        | none ↦ panicked
        | some m' ↦ run (enough count) c (start c m')
      ]
