-- ===== src/Vm/Exec.antt =====
-- The code behind the labels. `a`, `x`, `prev`, `pc` and `back` are the locals v7, v9, v8, v10 and
-- v12; `Call` holds the arguments and the locals that do not change. `none` is a Go panic.
use go_pcapfilter.Prelude.{
  ℕ, ◌+◌, ◌*◌, ◌/◌, ◌%◌, Bool, not, ltb, leb, ◌==◌, if◌then◌else◌, bit_and, bit_or, bit_xor, Option,
  none, some, ◌>>=◌,
}
use go_pcapfilter.Wasm.Words.{add32, sub32, mul32, neg32, u32, sar3, ntohl, i32_shl, i32_shr_u}
use go_pcapfilter.Wasm.Memory.{Memory, load8, load32, store32}
use go_pcapfilter.Vm.Label.{
  Operand, konst, index, Load, LoadX, Test, jgt, jge, jeq, jset, Alu, Label, invalid, ret_k, ret_a,
  st, stx, ja, neg, tax, txa, load, load_x, jump, alu,
}

pub record Call : Type 0 where
  pub prog : ℕ  -- v0
  pub count : ℕ  -- v1
  pub pkt : ℕ  -- v2
  pub wirelen : ℕ  -- v3
  pub buflen : ℕ  -- v4
  pub scratch : ℕ  -- v11

pub record Regs : Type 0 where
  pub a : ℕ
  pub x : ℕ
  pub prev : ℕ
  pub pc : ℕ
  pub back : ℕ
  pub memory : Memory

-- `go a r` is `goto l41` with `a` in v6; `stop v` leaves the loop with result `v`.
pub data Next : Type 0 where
  go : ℕ → Regs → Next
  stop : ℕ → Next

-- The constant of the instruction, `load32(m.memory, uint64(uint32(v8))+12)`.
abbrev pub operand_k : Regs → Option ℕ
operand_k r = load32 r.memory (r.prev + 12)

abbrev pub operand : Regs → Operand → Option ℕ
operand r konst = operand_k r
operand r index = some r.x

-- `if c { goto l8 }`, where v13 is still 0.
abbrev pub reject_if : Bool → Option Next → Option Next
reject_if c rest = if c then some (stop 0) else rest

unfoldable pub exec_load : Call → Regs → Load → Option Next
exec_load c r Load.w_abs = do
  k ← operand_k r
  reject_if (ltb c.buflen k) (
      reject_if (ltb (sub32 c.buflen k) 4)
        do w ← load32 r.memory (add32 c.pkt k); some (go (ntohl w) r))
exec_load c r Load.h_abs = do
  k ← operand_k r
  reject_if (ltb c.buflen k) (
      reject_if (ltb (sub32 c.buflen k) 2) do
        let p = add32 c.pkt k
        hi ← load8 r.memory p
        lo ← load8 r.memory (p + 1)
        some (go (bit_or (hi * 256) lo) r))
exec_load c r Load.b_abs = do
  k ← operand_k r
  reject_if (leb c.buflen k) do b ← load8 r.memory (add32 c.pkt k); some (go b r)
exec_load c r Load.w_ind = do
  k ← operand_k r
  reject_if (ltb c.buflen k) (
      reject_if (ltb (sub32 c.buflen k) r.x) (
        let p = add32 k r.x in
        reject_if (ltb (sub32 c.buflen p) 4)
          do w ← load32 r.memory (add32 c.pkt p); some (go (ntohl w) r)))
exec_load c r Load.h_ind = reject_if (ltb c.buflen r.x) do
  k ← operand_k r
  reject_if (ltb (sub32 c.buflen r.x) k) (
      let p = add32 k r.x in
      reject_if (ltb (sub32 c.buflen p) 2) do
        let q = add32 c.pkt p
        hi ← load8 r.memory q
        lo ← load8 r.memory (q + 1)
        some (go (bit_or (hi * 256) lo) r))
exec_load c r Load.b_ind = do
  k ← operand_k r
  reject_if (leb c.buflen k) (
      reject_if (leb (sub32 c.buflen k) r.x)
        do b ← load8 r.memory (add32 (add32 c.pkt r.x) k); some (go b r))
exec_load c r Load.len = some (go c.wirelen r)
exec_load c r Load.imm = do k ← operand_k r; some (go k r)
exec_load c r Load.mem = do
  k ← operand_k r
  reject_if (ltb 15 k) do v ← load32 r.memory (add32 c.scratch (u32 (k * 4))); some (go v r)

unfoldable pub exec_load_x : Call → Regs → LoadX → Option Next
exec_load_x c r LoadX.imm = do k ← operand_k r; some (go r.a (record r { x = k }))
exec_load_x c r LoadX.mem = do
  k ← operand_k r
  reject_if (ltb 15 k)
      do v ← load32 r.memory (add32 c.scratch (u32 (k * 4))); some (go r.a (record r { x = v }))
exec_load_x c r LoadX.msh = do
  k ← operand_k r
  reject_if (leb c.buflen k)
      do b ← load8 r.memory (add32 c.pkt k); some (go r.a (record r { x = bit_and (b * 4) 60 }))
exec_load_x c r LoadX.len = some (go r.a (record r { x = c.wirelen }))

-- `st` with the accumulator, `stx` with the index register.
unfoldable pub exec_store : Call → Regs → ℕ → Option Next
exec_store c r v = do
  k ← operand_k r
  reject_if (ltb 15 k) do
    m ← store32 r.memory (add32 c.scratch (u32 (k * 4))) v
    some (go r.a (record r { memory = m }))

-- An unconditional jump may go back, 64 times at most, but not to itself.
unfoldable pub jump_by : Call → Regs → ℕ → Option Next
jump_by c r k =
    let target = add32 (add32 k (sar3 (sub32 r.pc c.prog))) 1 in
    let pc' = add32 r.pc (u32 (k * 8)) in
    reject_if (leb c.count target) (
      if ltb k 2147483648
      then some (go r.a (record r { pc = pc' }))
      else reject_if (k == neg32 1) (
          reject_if (ltb 63 r.back) (some (go r.a (record r { pc = pc'; back = add32 r.back 1 })))))

unfoldable pub exec_ja : Call → Regs → Option Next
exec_ja c r = do k ← operand_k r; jump_by c r k

unfoldable pub passes : Test → ℕ → ℕ → Bool
passes jgt a b = ltb b a
passes jge a b = not (ltb a b)
passes jeq a b = a == b
passes jset a b = not (bit_and a b == 0)

unfoldable pub exec_jump : Call → Regs → Test → Operand → Option Next
exec_jump c r t o = do
  b ← operand r o
  skip ← load8 r.memory (add32 r.prev (if passes t r.a b then 10 else 11))
  some (go r.a (record r { pc = add32 r.pc (u32 (skip * 8)) }))

-- The new accumulator; `none` is `goto l8`, a division by zero.
unfoldable pub arith_op : Alu → ℕ → ℕ → Option ℕ
arith_op Alu.add a b = some (add32 a b)
arith_op Alu.sub a b = some (sub32 a b)
arith_op Alu.mul a b = some (mul32 a b)
arith_op Alu.div a b = if b == 0 then none else some (a / b)
arith_op Alu.mod_ a b = if b == 0 then none else some (a % b)
arith_op Alu.and a b = some (bit_and a b)
arith_op Alu.or a b = some (bit_or a b)
arith_op Alu.xor a b = some (bit_xor a b)
arith_op Alu.lsh a b = some (if ltb b 32 then i32_shl a b else 0)
arith_op Alu.rsh a b = some (if ltb b 32 then i32_shr_u a b else 0)

abbrev pub or_reject : Option ℕ → Regs → Next
or_reject none r = stop 0
or_reject (some a) r = go a r

unfoldable pub exec_alu : Call → Regs → Alu → Operand → Option Next
exec_alu c r op o = do b ← operand r o; some (or_reject (arith_op op r.a b) r)

unfoldable pub exec : Call → Regs → Label → Option Next
exec c r invalid = some (stop 0)
exec c r ret_k = do k ← operand_k r; some (stop k)
exec c r ret_a = some (stop r.a)
exec c r st = exec_store c r r.a
exec c r stx = exec_store c r r.x
exec c r ja = exec_ja c r
exec c r neg = some (go (sub32 0 r.a) r)
exec c r tax = some (go r.a (record r { x = r.a }))
exec c r txa = some (go r.x r)
exec c r (load l) = exec_load c r l
exec c r (load_x l) = exec_load_x c r l
exec c r (jump t o) = exec_jump c r t o
exec c r (alu op o) = exec_alu c r op o
