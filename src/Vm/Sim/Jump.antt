-- ===== src/Vm/Sim/Jump.antt =====
-- The jumps agree with the specification.
use go_pcapfilter.Prelude.{
  ℕ, ◌+◌, ◌-◌, ◌*◌, ◌%◌, ◌<◌, ◌≤◌, ◌≡◌, Bool, Bool-cases, true, false, ltb, leb, ◌==◌,
  if◌then◌else◌, some, refl, arith, ap, ◌∙◌, inl, inr, lt→ltb, ltb→lt, leb→le,
}
use go_pcapfilter.Wasm.Words.{IsU32, u32, add32, sub32, sar3}
use go_pcapfilter.Wasm.Memory.{Memory, load8}
use go_pcapfilter.Vm.Label.{Operand, Test, jge}
use go_pcapfilter.Vm.Exec.{Call, Regs, passes, exec_jump, exec_ja, jump_by}
use go_pcapfilter.Vm.Spec.{State, proceed, test, source, go_to}
use go_pcapfilter.Vm.Sim.{
  Layout, Sim, SimNext, Agrees, goes, stops_by, goes_by, current, operand-source, load-jt, load-jf,
  load-k, k_bound, input,
}

passes-test : (t : Test) (a b : ℕ) → passes t a b ≡ test t a b
unfolding passes test
passes-test jge a b = ground arith
passes-test _ a b = refl

module _ (c : Call) (m : Memory) (l : Layout c m) {r : Regs} {s : State} (sim : Sim c m r s) where
  -- The offset that a conditional jump reads.
  skip : Bool → ℕ
  skip b = if b then (current c m l sim).jt else (current c m l sim).jf

  load-skip : (b : Bool) → load8 r.memory (add32 r.prev (if b then 10 else 11)) ≡ some (skip b)
  unfolding skip
  load-skip true = load-jt c m l sim
  load-skip false = load-jf c m l sim

  skip_bound : (b : Bool) → skip b < 256
  unfolding skip
  skip_bound true = l.bytes.bytes _
  skip_bound false = l.bytes.bytes _

  next_pc :
      (n : ℕ)
      → n < 256
      → SimNext c m r.a
          (record r { pc = add32 r.pc (u32 (n * 8)) })
          (record s { pc = s.pc + 1 + n })
  next_pc n h = record {
    frame = sim.frame;
    slots = sim.slots;
    a_eq = sim.a_eq;
    x_eq = sim.x_eq;
    back_eq = sim.back_eq;
    pc_eq = omega (arith, sim.pc_eq, sim.pc_bound, l.prog_high);
    a_bound = sim.a_bound;
    x_bound = sim.x_bound;
    back_bound = sim.back_bound;
    pc_bound = omega (arith, sim.pc_bound, l.prog_high);
  }

  pub exec_jump-Agrees :
      (t : Test) (o : Operand)
      → let k = (current c m l sim).k in
        let taken = test t s.a (source s k o) in
        Agrees c m
          (proceed (record s {
            pc = s.pc + 1 + (if taken then (current c m l sim).jt else (current c m l sim).jf);
          }))
          (exec_jump c r t o)
  unfolding exec_jump skip
  exec_jump-Agrees t o =
      let b = source s (current c m l sim).k o in
      let taken = test t s.a b in
      let same : passes t r.a b ≡ taken = ap (λ a. passes t a b) sim.a_eq ∙ passes-test t s.a b in
      rw (operand-source c m l sim o, same, load-skip taken)
        (goes _ _ _ refl (next_pc (skip taken) (skip_bound taken)))

  -- The index that `ja` checks, computed from the two addresses.
  target_eq : (k : ℕ) → add32 (add32 k (sar3 (sub32 r.pc c.prog))) 1 ≡ (k + s.pc + 1) % 4294967296
  target_eq k =
      let here : sub32 r.pc c.prog ≡ 8 * s.pc =
        omega (arith, sim.pc_eq, sim.pc_bound, l.prog_high, l.count_bound) in
      let low : ltb (8 * s.pc) 2147483648 ≡ true =
        lt→ltb _ _ (omega (arith, sim.pc_bound, l.count_bound)) in
      rw (here, low) (omega arith)

  forward :
      (k : ℕ)
      → s.pc + 1 + k < c.count
      → SimNext c m r.a
          (record r { pc = add32 r.pc (u32 (k * 8)) })
          (record s { pc = s.pc + 1 + k })
  forward k h = record {
    frame = sim.frame;
    slots = sim.slots;
    a_eq = sim.a_eq;
    x_eq = sim.x_eq;
    back_eq = sim.back_eq;
    pc_eq = omega (arith, sim.pc_eq, l.prog_high, l.count_bound);
    a_bound = sim.a_bound;
    x_bound = sim.x_bound;
    back_bound = sim.back_bound;
    pc_bound = omega (arith, l.prog_high);
  }

  backward :
      (k : ℕ)
      → IsU32 k
      → 4294967296 - k ≤ s.pc + 1
      → s.back < 64
      → SimNext c m r.a
          (record r { pc = add32 r.pc (u32 (k * 8)); back = add32 r.back 1 })
          (record s { pc = s.pc + 1 - (4294967296 - k); back = s.back + 1 })
  backward k h d b = record {
    frame = sim.frame;
    slots = sim.slots;
    a_eq = sim.a_eq;
    x_eq = sim.x_eq;
    back_eq = omega (arith, sim.back_eq);
    pc_eq = omega (arith, sim.pc_eq, sim.pc_bound, l.prog_low, l.prog_high, l.count_bound);
    a_bound = sim.a_bound;
    x_bound = sim.x_bound;
    back_bound = omega arith;
    pc_bound = omega (arith, sim.pc_bound, l.prog_high);
  }

  jump_by-Agrees : (k : ℕ) → IsU32 k → Agrees c m (go_to (input c m) s k) (jump_by c r k)
  unfolding jump_by go_to input
  jump_by-Agrees k h = elim (Bool-cases (ltb k 2147483648)) [
    | inl small ↦ elim (Bool-cases (ltb (s.pc + 1 + k) c.count)) [
      | inl inside ↦
          goes_by _ _ _ (ground arith) (ground (arith, target_eq k, l.count_bound))
            (forward k (ltb→lt _ _ inside))
      | inr outside ↦
          stops_by 0 (ground arith) (ground (arith, target_eq k, l.count_bound, sim.pc_bound))
    ]
    | inr large ↦ elim (Bool-cases (leb (4294967296 - k) (s.pc + 1))) [
      | inl inside ↦ elim (Bool-cases (4294967296 - k == 1)) [
        | inl self ↦
            stops_by 0 (ground arith) (ground (arith, target_eq k, l.count_bound, sim.pc_bound))
        | inr other ↦ elim (Bool-cases (ltb s.back 64)) [
          | inl few ↦
              goes_by _ _ _ (ground arith)
                (ground (arith, target_eq k, l.count_bound, sim.pc_bound, sim.back_eq))
                (backward k h (leb→le _ _ inside) (ltb→lt _ _ few))
          | inr many ↦
              stops_by 0 (ground arith)
                (ground (arith, target_eq k, l.count_bound, sim.pc_bound, sim.back_eq))
        ]
      ]
      | inr outside ↦
          stops_by 0 (ground arith) (ground (arith, target_eq k, l.count_bound, sim.pc_bound))
    ]
  ]

  pub exec_ja-Agrees : Agrees c m (go_to (input c m) s (current c m l sim).k) (exec_ja c r)
  unfolding exec_ja
  exec_ja-Agrees = rw (load-k c m l sim) (jump_by-Agrees _ (k_bound c m l sim))
