-- ===== src/Vm/Sim/Alu.antt =====
-- The arithmetic instructions agree with the specification.
use native.Mathlib.Nat.{div-le_self, mod-le}
use go_pcapfilter.Prelude.{ℕ, zero, suc, ◌+◌, ◌%◌, ◌^◌, ◌≡◌, some, refl, ap, ◌∙◌, arith}
use go_pcapfilter.Wasm.Words.{IsU32, i32_shl, i32_shr_u}
use go_pcapfilter.Wasm.Words.Bits.{and-lt, or-lt, xor-lt}
use go_pcapfilter.Wasm.Memory.{Memory}
use go_pcapfilter.Vm.Label.{Operand, Alu}
use go_pcapfilter.Vm.Exec.{Call, Regs, arith_op, exec_alu}
use go_pcapfilter.Vm.Spec.{State, calc, source, with_value}
use go_pcapfilter.Vm.Sim.{Layout, Sim, Agrees, current, operand-source, source_bound, value_Agrees}

-- On 32-bit words the compiled arithmetic is that of the specification.
pub arith_op-calc : (op : Alu) (a b : ℕ) → IsU32 a → IsU32 b → arith_op op a b ≡ calc op a b
unfolding arith_op calc i32_shl i32_shr_u
arith_op-calc Alu.sub a b p q = ground arith
arith_op-calc Alu.div a zero p q = ground arith
arith_op-calc Alu.div a (suc b) p q = ground arith
arith_op-calc Alu.mod_ a zero p q = ground arith
arith_op-calc Alu.mod_ a (suc b) p q = ground arith
arith_op-calc Alu.lsh a b p q = ground arith
arith_op-calc Alu.rsh a b p q = ground arith
arith_op-calc _ a b p q = refl

mod-bound : (a b : ℕ) → IsU32 a → IsU32 (a % suc b)
mod-bound a b p = omega (arith, mod-le a (suc b))

-- The result of an instruction is a 32-bit word.
calc-IsU32 : (op : Alu) (a b v : ℕ) → IsU32 a → IsU32 b → calc op a b ≡ some v → IsU32 v
unfolding calc
calc-IsU32 Alu.div a zero v p q e = ground arith
calc-IsU32 Alu.div a (suc b) v p q e = ground (arith, div-le_self a (suc b))
calc-IsU32 Alu.mod_ a zero v p q e = ground arith
calc-IsU32 Alu.mod_ a (suc b) v p q e = ground (arith, mod-bound a b p)
calc-IsU32 Alu.and a b v p q e = ground (arith, and-lt 32 a b)
calc-IsU32 Alu.or a b v p q e = ground (arith, or-lt 32 a b)
calc-IsU32 Alu.xor a b v p q e = ground (arith, xor-lt 32 a b)
calc-IsU32 Alu.rsh a b v p q e = ground (arith, div-le_self a (2 ^ b))
calc-IsU32 op a b v p q e = ground arith

module _ (c : Call) (m : Memory) (l : Layout c m) {r : Regs} {s : State} (sim : Sim c m r s) where
  pub exec_alu-Agrees :
      (op : Alu) (o : Operand)
      → Agrees c m
          (with_value
            (calc op s.a (source s (current c m l sim).k o))
            λ v. record s { pc = s.pc + 1; a = v })
          (exec_alu c r op o)
  unfolding exec_alu
  exec_alu-Agrees op o =
      let b = source s (current c m l sim).k o in
      let hb = source_bound c m l sim o in
      let same : arith_op op r.a b ≡ calc op s.a b =
        ap (λ a. arith_op op a b) sim.a_eq ∙ arith_op-calc op s.a b sim.a_bound hb in
      rw (operand-source c m l sim o, same)
        (value_Agrees c m l sim (calc op s.a b) λ v. calc-IsU32 op s.a b v sim.a_bound hb)
