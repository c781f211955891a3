-- ===== src/Vm/Refine.antt =====
-- The compiled machine refines the specification: one instruction, then a whole run.
use go_pcapfilter.Prelude.{
  ℕ, zero, suc, ◌-◌, ◌%◌, ◌≤◌, ◌<◌, ◌≡◌, Bool-cases, ltb, Option, some, refl, sym, subst, arith, ap,
  ◌∙◌, inl, inr, ltb→lt, lt→ltb, le→ltb,
}
use go_pcapfilter.Wasm.Words.{add32, sub32}
use go_pcapfilter.Wasm.Memory.{Memory}
use go_pcapfilter.Vm.Label.{
  Label, label, invalid, ret_k, ret_a, st, stx, ja, neg, tax, txa, load, load_x, jump, alu,
}
use go_pcapfilter.Vm.Exec.{Call, Regs, Next, go, stop, exec, exec_store}
use go_pcapfilter.Vm.Run.{Step, continue, finish, advance, step, Outcome, returned, run}
use go_pcapfilter.Vm.Spec.{State, Effect, proceed, verdict, perform, eval}
use go_pcapfilter.Vm.Sim.{
  Layout, Frame, Sim, SimNext, Agrees, stops, goes, current, load-k, load-op, input, next_a, next_x,
}
use go_pcapfilter.Vm.Sim.Alu.{exec_alu-Agrees}
use go_pcapfilter.Vm.Sim.Jump.{exec_jump-Agrees, exec_ja-Agrees}
use go_pcapfilter.Vm.Sim.Load.{exec_load-Agrees, exec_load_x-Agrees}
use go_pcapfilter.Vm.Sim.Store.{exec_store-Agrees}

module _ (c : Call) (m : Memory) (l : Layout c m) where
  -- The code behind every label does what the specification says.
  pub exec-Agrees :
      {r : Regs} {s : State} (sim : Sim c m r s) (b : Label)
      → Agrees c m (perform (input c m) s (current c m l sim) b) (exec c r b)
  unfolding exec perform
  exec-Agrees sim invalid = stops 0 refl
  exec-Agrees sim ret_k = rw (load-k c m l sim) (stops _ refl)
  exec-Agrees {s} sim ret_a = stops s.a (ap (λ a. some (stop a)) sim.a_eq)
  exec-Agrees {r} {s} sim st =
      subst (λ v. Agrees c m (perform (input c m) s (current c m l sim) st) (exec_store c r v))
        (sym sim.a_eq) (exec_store-Agrees c m l sim s.a sim.a_bound)
  exec-Agrees {r} {s} sim stx =
      subst (λ v. Agrees c m (perform (input c m) s (current c m l sim) stx) (exec_store c r v))
        (sym sim.x_eq) (exec_store-Agrees c m l sim s.x sim.x_bound)
  exec-Agrees sim ja = exec_ja-Agrees c m l sim
  exec-Agrees {r} {s} sim neg =
      let value : sub32 0 r.a ≡ (4294967296 - s.a) % 4294967296 = omega (arith, sim.a_eq) in
      goes _ _ r (ap (λ v. some (go v r)) value) (next_a c m l sim _ (omega arith))
  exec-Agrees {r} {s} sim tax =
      goes _ r.a (record r { x = s.a }) (ap (λ v. some (go r.a (record r { x = v }))) sim.a_eq)
        (next_x c m l sim s.a sim.a_bound)
  exec-Agrees {r} {s} sim txa =
      goes _ s.x r (ap (λ v. some (go v r)) sim.x_eq) (next_a c m l sim s.x sim.x_bound)
  exec-Agrees sim (load o) = exec_load-Agrees c m l sim o
  exec-Agrees sim (load_x o) = exec_load_x-Agrees c m l sim o
  exec-Agrees sim (jump t o) = exec_jump-Agrees c m l sim t o
  exec-Agrees sim (alu op o) = exec_alu-Agrees c m l sim op o

  Sim-SimNext :
      {a : ℕ} {r : Regs} {s : State}
      → SimNext c m a r s
      → s.pc < c.count
      → Sim c m (record r { a = a; prev = r.pc; pc = add32 r.pc 8 }) s
  Sim-SimNext h lt = record {
    frame = h.frame;
    slots = h.slots;
    a_eq = h.a_eq;
    x_eq = h.x_eq;
    back_eq = h.back_eq;
    pc_eq = omega (arith, h.pc_eq, h.pc_bound);
    prev_eq = h.pc_eq;
    a_bound = h.a_bound;
    x_bound = h.x_bound;
    back_bound = h.back_bound;
    pc_bound = lt;
  }

  advance-continue :
      {a : ℕ} {r : Regs} {s : State} (m' : Memory)
      → SimNext c m a r s
      → s.pc < c.count
      → advance c m' (go a r) ≡ continue (record r { a = a; prev = r.pc; pc = add32 r.pc 8 })
  unfolding advance
  advance-continue m' h lt = ground (arith, h.pc_eq, h.pc_bound, l.prog_high)

  advance-finish :
      {a : ℕ} {r : Regs} {s : State} (m' : Memory)
      → SimNext c m a r s
      → c.count ≤ s.pc
      → advance c m' (go a r) ≡ finish 0 r.memory
  unfolding advance
  advance-finish m' h le = ground (arith, h.pc_eq, h.pc_bound, l.prog_high)

  -- What a run does with the effect of one instruction.
  after : ℕ → Effect → Option ℕ
  after f e = elim e [ verdict v ↦ some v | proceed s ↦ eval f (input c m) s ]

  eval-current :
      {r : Regs} {s : State} (f : ℕ) (sim : Sim c m r s)
      → eval (suc f) (input c m) s
        ≡ after f (perform (input c m) s (current c m l sim) (label (current c m l sim).op))
  unfolding eval after input
  eval-current {s} f sim = rw (eval, lt→ltb s.pc c.count sim.pc_bound)

  eval_past : (f : ℕ) (s : State) (v : ℕ) → c.count ≤ s.pc → eval f (input c m) s ≡ some v → v ≡ 0
  unfolding eval input
  eval_past zero s v h e = cc
  eval_past (suc f) s v h e = ground (arith, le→ltb s.pc c.count h)

  -- How a run goes on with the result of one round.
  next_round : ℕ → Step → Outcome
  next_round f (continue r) = run f c r
  next_round f (finish v m') = returned v m'

  run-suc :
      {r : Regs} {s : State} (f : ℕ) (sim : Sim c m r s) {n : Next}
      → exec c r (label (current c m l sim).op) ≡ some n
      → run (suc f) c r ≡ next_round f (advance c r.memory n)
  unfolding run step next_round
  run-suc {r} f sim {n} e = rw (run, step, load-op c m l sim, e)

  abbrev Returns : Outcome → ℕ → Type 0
  Returns o v = (m' : Memory) × (o ≡ returned v m') × Frame c m m'

  by_effect :
      (f v : ℕ) (r : Regs) {x : Effect} {n : Option Next}
      → Agrees c m x n
      → Frame c m r.memory
      → ((k : Next) → n ≡ some k → run (suc f) c r ≡ next_round f (advance c r.memory k))
      → ((r' : Regs) (s' : State)
          → Sim c m r' s'
          → eval f (input c m) s' ≡ some v
          → Returns (run f c r') v)
      → after f x ≡ some v
      → Returns (run (suc f) c r) v
  unfolding after next_round advance
  by_effect f v r (stops u p) frame round ih q = (r.memory, round (stop u) p ∙ ground arith, frame)
  by_effect f v r (goes s a r' p h) frame round ih q = elim (Bool-cases (ltb s.pc c.count)) [
    | inl inside ↦
        let lt = ltb→lt s.pc c.count inside in
        let (m', e, kept) = ih _ s (Sim-SimNext h lt) q in
        (m', round (go a r') p ∙ ap (next_round f) (advance-continue r.memory h lt) ∙ e, kept)
    | inr outside ↦
        let le : c.count ≤ s.pc = ground arith in
        (
          r'.memory,
          round (go a r') p
              ∙ ap (next_round f) (advance-finish r.memory h le)
              ∙ ap (λ u. returned u r'.memory) (sym (eval_past f s v le q)),
          h.frame,
        )
  ]

  -- A run that the specification ends with a verdict returns that verdict, and writes to scratch
  -- memory only.
  pub run-eval :
      (f : ℕ) (r : Regs) (s : State) (v : ℕ)
      → Sim c m r s
      → eval f (input c m) s ≡ some v
      → Returns (run f c r) v
  run-eval zero r s v sim e = unfold eval in cc
  run-eval (suc f) r s v sim e =
      by_effect f v r (exec-Agrees sim (label (current c m l sim).op)) sim.frame
        (λ k. run-suc f sim) (λ r' s' h q. run-eval f r' s' v h q) (sym (eval-current f sim) ∙ e)
