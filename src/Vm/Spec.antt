-- ===== src/Vm/Spec.antt =====
-- The BPF virtual machine as it is specified: a program and a packet that are looked up by index,
-- sixteen words of scratch memory, numbers without addresses. A jump past the end, an access
-- outside the packet or the scratch memory and a division by zero reject the packet with 0.
use go_pcapfilter.Prelude.{
  ℕ, zero, suc, ◌+◌, ◌-◌, ◌*◌, ◌/◌, ◌%◌, ◌^◌, Bool, not, ltb, leb, ◌==◌, if◌then◌else◌, bit_and,
  bit_or, bit_xor, Option, none, some, ◌>>=◌,
}
use go_pcapfilter.Instruction.{RawInstruction}
use go_pcapfilter.Wasm.Words.Swap.{word}
use go_pcapfilter.Vm.Label.{
  Operand, konst, index, Load, LoadX, Test, Alu, Label, label, invalid, ret_k, ret_a, st, stx, ja,
  neg, tax, txa, load, load_x, jump, alu,
}

pub record Input : Type 0 where
  pub fetch : ℕ → Option RawInstruction
  pub count : ℕ
  pub octet : ℕ → Option ℕ
  pub wirelen : ℕ

pub record State : Type 0 where
  pub a : ℕ
  pub x : ℕ
  pub pc : ℕ
  pub back : ℕ
  pub slot : ℕ → ℕ

-- The result of one instruction: a value for the accumulator and the other registers, or a verdict.
pub data Effect : Type 0 where
  proceed : State → Effect
  verdict : ℕ → Effect

unfoldable pub big_endian_16 : Input → ℕ → Option ℕ
big_endian_16 i p = do hi ← i.octet p; lo ← i.octet (p + 1); some (hi * 256 + lo)

unfoldable pub big_endian_32 : Input → ℕ → Option ℕ
big_endian_32 i p = do
  b0 ← i.octet p
  b1 ← i.octet (p + 1)
  b2 ← i.octet (p + 2)
  b3 ← i.octet (p + 3)
  some (word b0 b1 b2 b3)

-- The value that a load puts into the accumulator.
unfoldable pub loaded : Input → State → ℕ → Load → Option ℕ
loaded i s k Load.w_abs = big_endian_32 i k
loaded i s k Load.h_abs = big_endian_16 i k
loaded i s k Load.b_abs = i.octet k
loaded i s k Load.w_ind = big_endian_32 i (s.x + k)
loaded i s k Load.h_ind = big_endian_16 i (s.x + k)
loaded i s k Load.b_ind = i.octet (s.x + k)
loaded i s k Load.len = some i.wirelen
loaded i s k Load.imm = some k
loaded i s k Load.mem = if ltb k 16 then some (s.slot k) else none

-- The value that a load puts into the index register; `msh` reads the length of an IPv4 header.
unfoldable pub loaded_x : Input → State → ℕ → LoadX → Option ℕ
loaded_x i s k LoadX.imm = some k
loaded_x i s k LoadX.mem = if ltb k 16 then some (s.slot k) else none
loaded_x i s k LoadX.msh = do b ← i.octet k; some (b % 16 * 4)
loaded_x i s k LoadX.len = some i.wirelen

abbrev pub set_slot : (ℕ → ℕ) → ℕ → ℕ → ℕ → ℕ
set_slot f k v j = if j == k then v else f j

unfoldable pub test : Test → ℕ → ℕ → Bool
test Test.jgt a b = ltb b a
test Test.jge a b = leb b a
test Test.jeq a b = a == b
test Test.jset a b = not (bit_and a b == 0)

-- Unsigned 32-bit arithmetic; a shift by 32 or more gives 0.
unfoldable pub calc : Alu → ℕ → ℕ → Option ℕ
calc Alu.add a b = some ((a + b) % 2 ^ 32)
calc Alu.sub a b = some ((a + (2 ^ 32 - b)) % 2 ^ 32)
calc Alu.mul a b = some (a * b % 2 ^ 32)
calc Alu.div a zero = none
calc Alu.div a (suc b) = some (a / suc b)
calc Alu.mod_ a zero = none
calc Alu.mod_ a (suc b) = some (a % suc b)
calc Alu.and a b = some (bit_and a b)
calc Alu.or a b = some (bit_or a b)
calc Alu.xor a b = some (bit_xor a b)
calc Alu.lsh a b = if ltb b 32 then some (a * 2 ^ b % 2 ^ 32) else some 0
calc Alu.rsh a b = if ltb b 32 then some (a / 2 ^ b) else some 0

abbrev pub source : State → ℕ → Operand → ℕ
source s k konst = k
source s k index = s.x

abbrev pub with_value : Option ℕ → (ℕ → State) → Effect
with_value none f = verdict 0
with_value (some v) f = proceed (f v)

-- `k` is a signed distance from the next instruction: `2 ^ 32 - k` back, if it is 2 ^ 31 or more.
unfoldable pub go_to : Input → State → ℕ → Effect
go_to i s k =
    if ltb k (2 ^ 31)
    then (if ltb (s.pc + 1 + k) i.count
        then proceed (record s { pc = s.pc + 1 + k })
        else verdict 0)
    else (let d = 2 ^ 32 - k in
        if leb d (s.pc + 1)
        then (if d == 1
            then verdict 0
            else (if ltb s.back 64
                then proceed (record s { pc = s.pc + 1 - d; back = s.back + 1 })
                else verdict 0))
        else verdict 0)

unfoldable pub perform : Input → State → RawInstruction → Label → Effect
perform i s n invalid = verdict 0
perform i s n ret_k = verdict n.k
perform i s n ret_a = verdict s.a
perform i s n st =
    if ltb n.k 16
    then proceed (record s { pc = s.pc + 1; slot = set_slot s.slot n.k s.a })
    else verdict 0
perform i s n stx =
    if ltb n.k 16
    then proceed (record s { pc = s.pc + 1; slot = set_slot s.slot n.k s.x })
    else verdict 0
perform i s n ja = go_to i s n.k
perform i s n neg = proceed (record s { pc = s.pc + 1; a = (2 ^ 32 - s.a) % 2 ^ 32 })
perform i s n tax = proceed (record s { pc = s.pc + 1; x = s.a })
perform i s n txa = proceed (record s { pc = s.pc + 1; a = s.x })
perform i s n (load l) = with_value (loaded i s n.k l) λ v. record s { pc = s.pc + 1; a = v }
perform i s n (load_x l) = with_value (loaded_x i s n.k l) λ v. record s { pc = s.pc + 1; x = v }
perform i s n (jump t o) =
    proceed (record s { pc = s.pc + 1 + (if test t s.a (source s n.k o) then n.jt else n.jf) })
perform i s n (alu op o) =
    with_value (calc op s.a (source s n.k o)) λ v. record s { pc = s.pc + 1; a = v }

-- `none` is fuel that ran out; a program counter past the end rejects the packet.
unfoldable pub eval : ℕ → Input → State → Option ℕ
eval zero i s = none
eval (suc fuel) i s = elim (i.fetch s.pc) [
  | none ↦ some 0
  | some n ↦ elim (perform i s n (label n.op)) [ verdict v ↦ some v | proceed s' ↦ eval fuel i s' ]
]

abbrev pub initial : State
initial = record { a = 0; x = 0; pc = 0; back = 0; slot = λ _. 0 }
