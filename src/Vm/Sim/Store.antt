-- ===== src/Vm/Sim/Store.antt =====
-- The stores to scratch memory agree with the specification, and the other instructions.
use go_pcapfilter.Prelude.{
  ℕ, ◌+◌, ◌*◌, ◌<◌, ◌≤◌, ◌≡◌, ◌≢◌, ◌⊎◌, Bool-cases, ltb, ◌==◌, if◌then◌else◌, some, arith, ◌∙◌, inl,
  inr, ltb→lt, ==_iff,
}
use go_pcapfilter.Wasm.Words.{IsU32, u32, add32}
use go_pcapfilter.Wasm.Memory.{Memory, load32, store32, put}
use go_pcapfilter.Wasm.Memory.Laws.{
  load32-put-Apart, load32-put_self, put-IsBytes, put_outside, Apart,
}
use go_pcapfilter.Vm.Exec.{Call, Regs, exec_store}
use go_pcapfilter.Vm.Spec.{State, proceed, verdict, set_slot}
use go_pcapfilter.Vm.Sim.{Layout, Frame, Slots, Sim, Agrees, current, load-k, goes_by, stops_by}

module _ (c : Call) (m : Memory) (l : Layout c m) {r : Regs} {s : State} (sim : Sim c m r s) where
  abbrev written : ℕ → ℕ → Memory
  written k v = put 4 r.memory (c.scratch + 4 * k) v

  written-Frame : (k v : ℕ) → k < 16 → Frame c m (written k v)
  written-Frame k v h = record {
    bytes = put-IsBytes 4 (c.scratch + 4 * k) v sim.frame.bytes;
    size = sim.frame.size;
    same = λ b apart.
        put_outside 4 r.memory (c.scratch + 4 * k) v b (outside b apart) ∙ sim.frame.same b apart;
  }
    where
      outside :
          (b : ℕ) → Apart b 1 c.scratch 64 → (b < c.scratch + 4 * k) ⊎ (c.scratch + 4 * k + 4 ≤ b)
      outside b apart = omega arith

  written-Slots : (k v : ℕ) → k < 16 → IsU32 v → Slots c (written k v) (set_slot s.slot k v)
  written-Slots k v h hv j hj = elim (Bool-cases (j == k)) [
    | inl same ↦ let e : j ≡ k = (==_iff j k).0 same in rw same (e_load e, hv)
    | inr other ↦
        let apart : Apart (c.scratch + 4 * j) 4 (c.scratch + 4 * k) 4 = separate (ground arith) in
        rw other (
          load32-put-Apart 4 r.memory (c.scratch + 4 * k) v (c.scratch + 4 * j) apart
              ∙ (sim.slots j hj).0,
          (sim.slots j hj).1,
        )
  ]
    where
      separate : j ≢ k → Apart (c.scratch + 4 * j) 4 (c.scratch + 4 * k) 4
      separate ne = omega arith

      read_back : load32 (written k v) (c.scratch + 4 * k) ≡ some v
      read_back =
          load32-put_self r.memory (c.scratch + 4 * k) v hv
            (omega (arith, l.scratch_in, sim.frame.size))

      e_load : j ≡ k → load32 (written k v) (c.scratch + 4 * j) ≡ some v
      e_load e = rw e read_back

  store_lem :
      (k v : ℕ) → k < 16 → store32 r.memory (add32 c.scratch (u32 (k * 4))) v ≡ some (written k v)
  unfolding store32
  store_lem k v h =
      let e : add32 c.scratch (u32 (k * 4)) ≡ c.scratch + 4 * k =
        omega (arith, l.scratch_in, l.size_bound) in
      rw e (ground (arith, l.scratch_in, sim.frame.size))

  pub exec_store-Agrees :
      (v : ℕ)
      → IsU32 v
      → let k = (current c m l sim).k in
        Agrees c m
          (if ltb k 16
            then proceed (record s { pc = s.pc + 1; slot = set_slot s.slot k v })
            else verdict 0)
          (exec_store c r v)
  unfolding exec_store
  exec_store-Agrees v hv = rw (load-k c m l sim) (elim (Bool-cases (ltb (current c m l sim).k 16)) [
    | inl low ↦
        let k = (current c m l sim).k in
        let lt = ltb→lt k 16 low in
        goes_by (record s { pc = s.pc + 1; slot = set_slot s.slot k v }) r.a
          (record r { memory = written k v }) (ground arith) (ground (arith, store_lem k v lt))
          (record {
            frame = written-Frame k v lt;
            slots = written-Slots k v lt hv;
            a_eq = sim.a_eq;
            x_eq = sim.x_eq;
            back_eq = sim.back_eq;
            pc_eq = omega (arith, sim.pc_eq);
            a_bound = sim.a_bound;
            x_bound = sim.x_bound;
            back_bound = sim.back_bound;
            pc_bound = omega (arith, sim.pc_bound, l.prog_high);
          })
    | inr high ↦ stops_by 0 (ground arith) (ground arith)
  ])
