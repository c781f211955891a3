-- ===== src/Vm/Validate/Safe.antt =====
-- A validated program, as it runs: the steps of the virtual machine as a relation, and what holds
-- in every state that a run reaches.
use go_pcapfilter.Prelude.{
  ℕ, ◌+◌, ◌-◌, ◌<◌, ◌≡◌, ◌≢◌, refl, Bool, true, false, ltb, leb, ◌==◌, if◌then◌else◌, Option, some,
  none, arith, Bool-cases, inl, inr, ltb→lt, sym, ap, ◌∙◌, subst,
}
use go_pcapfilter.Wasm.Words.{IsU32}
use go_pcapfilter.Wasm.Memory.{Memory}
use go_pcapfilter.Instruction.{RawInstruction}
use go_pcapfilter.Vm.Label.{
  Label, label, invalid, ret_k, ret_a, st, stx, ja, neg, tax, txa, load, load_x, jump, alu,
}
use go_pcapfilter.Vm.Exec.{Call}
use go_pcapfilter.Vm.Spec.{
  Input, State, Effect, proceed, verdict, test, source, perform, go_to, with_value, initial,
}
use go_pcapfilter.Vm.Sim.{Layout, input}
use go_pcapfilter.Vm.Validate.{pcapint_validate_filter}
use go_pcapfilter.Vm.Validate.Table.{needs, returns}
use go_pcapfilter.Vm.Validate.Checked.{allows, Holds, nth}
use go_pcapfilter.Vm.Validate.Fine.{
  allows-never, inside, and_true, fine_from, nth-IsFields, fine, fine_program, fine_from_sound,
  validate_filter-fine,
}

-- One instruction that does not end the run.
pub data Move (i : Input) (s t : State) : Type 0 where
  move :
      (n : RawInstruction)
      → i.fetch s.pc ≡ some n
      → perform i s n (label n.op) ≡ proceed t
      → Move i s t

pub data Reach (i : Input) (s : State) : State → Type 0 where
  here : Reach i s s
  next : {t u : State} → Reach i s t → Move i t u → Reach i s u

abbrev Within : ℕ → Effect → Type 0
Within count (verdict v) = Unit {0}
Within count (proceed t) = t.pc < count

value-Within :
    (count : ℕ) (v : Option ℕ) (f : ℕ → State)
    → ((u : ℕ) → (f u).pc < count)
    → Within count (with_value v f)
value-Within count none f h = tt
value-Within count (some u) f h = h u

if-Within :
    (count : ℕ) (b : Bool) (x y : Effect)
    → (b ≡ true → Within count x)
    → (b ≡ false → Within count y)
    → Within count (if b then x else y)
if-Within count true x y p q = p refl
if-Within count false x y p q = q refl

store-Within :
    (count k : ℕ) (t : State)
    → t.pc < count
    → Within count (if ltb k 16 then proceed t else verdict 0)
store-Within count k t h = if-Within count (ltb k 16) _ _ (λ _. h) (λ _. tt)

go_to-Within :
    (i : Input) (s : State) (k : ℕ) → IsU32 k → s.pc < i.count → Within i.count (go_to i s k)
unfolding go_to
go_to-Within i s k w lt =
    if-Within i.count (ltb k 2147483648) _ _
      (λ _. if-Within i.count (ltb (s.pc + 1 + k) i.count) _ _ (λ h. ltb→lt _ _ h) (λ _. tt))
      (λ _.
        if-Within i.count (leb (4294967296 - k) (s.pc + 1)) _ _
          (λ _.
            if-Within i.count (4294967296 - k == 1) _ _ (λ _. tt)
              (λ _. if-Within i.count (ltb s.back 64) _ _ (λ _. omega arith) (λ _. tt)))
          (λ _. tt))

-- A fine instruction leads to another instruction, if it leads on.
perform-Within :
    (i : Input) (s : State) (n : RawInstruction) (b : Label)
    → inside b s.pc i.count n ≡ true
    → (returns b ≡ false → s.pc + 1 < i.count)
    → IsU32 n.k
    → s.pc < i.count
    → Within i.count (perform i s n b)
unfolding perform
perform-Within i s n invalid ok more w lt = tt
perform-Within i s n ret_k ok more w lt = tt
perform-Within i s n ret_a ok more w lt = tt
perform-Within i s n st ok more w lt = store-Within i.count n.k _ (more refl)
perform-Within i s n stx ok more w lt = store-Within i.count n.k _ (more refl)
perform-Within i s n ja ok more w lt = go_to-Within i s n.k w lt
perform-Within i s n neg ok more w lt = more refl
perform-Within i s n tax ok more w lt = more refl
perform-Within i s n txa ok more w lt = more refl
perform-Within i s n (load l) ok more w lt = value-Within i.count _ _ (λ u. more refl)
perform-Within i s n (load_x l) ok more w lt = value-Within i.count _ _ (λ u. more refl)
perform-Within i s n (jump t o) ok more w lt = either (test t s.a (source s n.k o))
  where
    either : (b : Bool) → s.pc + 1 + (if b then n.jt else n.jf) < i.count
    either true = ground arith
    either false = ground arith
perform-Within i s n (alu op o) ok more w lt = value-Within i.count _ _ (λ u. more refl)

module _ (c : Call) (m : Memory) (l : Layout c m) (pos : 0 < c.count) where
  abbrev holds : Holds m c.prog c.count
  holds = record { inside = l.prog_in; low = l.size_bound; count_bound = l.count_bound }

  abbrev instr : ℕ → RawInstruction
  instr j = nth m c.prog c.count j

  fetch-instr : (j : ℕ) → j < c.count → (input c m).fetch j ≡ some (instr j)
  unfolding input
  fetch-instr j lt = ground arith

  module _ (ok : fine_program m c.prog c.count ≡ true) where
    all_fine : (j : ℕ) → j < c.count → fine j c.count (instr j) ≡ true
    all_fine j lt =
        fine_from_sound m c.prog c.count c.count 0 j
          (and_true (fine_from m c.prog c.count 0 c.count) _ ok).0 (omega arith) (omega arith)

    -- The last instruction returns.
    not_last : (j : ℕ) → j < c.count → returns (label (instr j).op) ≡ false → j + 1 < c.count
    not_last j lt stays = elim (Bool-cases (ltb (j + 1) c.count)) [
      | inl more ↦ ltb→lt _ _ more
      | inr end ↦
          let last : c.count - 1 ≡ j = ground arith in
          let returned : returns (label (instr (c.count - 1)).op) ≡ true =
            (and_true (fine_from m c.prog c.count 0 c.count) _ ok).1 in
          cc (ap (λ (k : ℕ). returns (label (instr k).op)) last, returned, stays)
    ]

    Move-Within : {s t : State} → Move (input c m) s t → s.pc < c.count → t.pc < c.count
    unfolding input
    Move-Within {s} {t} (move n fetched went) lt =
        let same : instr s.pc ≡ n = cc (fetch-instr s.pc lt, fetched) in
        let n_fine =
          and_true (allows (needs (label (instr s.pc).op)) (instr s.pc).k) _ (all_fine s.pc lt) in
        let stays =
          perform-Within (input c m) s (instr s.pc) (label (instr s.pc).op) n_fine.1
            (not_last s.pc lt) (nth-IsFields m c.prog c.count holds l.bytes s.pc).k lt in
        subst (Within c.count) went
          (subst (λ k. Within c.count (perform (input c m) s k (label k.op))) same stays)

    Reach-Within : {s : State} → Reach (input c m) initial s → s.pc < c.count
    Reach-Within here = pos
    Reach-Within (next r go) = Move-Within go (Reach-Within r)

  some-injective : (a b : Bool) → some a ≡ some b → a ≡ b
  some-injective a b e = cc

  -- Once `_pcapint_validate_filter` has accepted a program of one instruction or more, laid out in
  -- the memory apart from the scratch words and the packet, every state that a run on any packet
  -- reaches stands at an instruction of the program, with a known opcode and a constant that suits
  -- it.
  pub validate_filter-safe :
      pcapint_validate_filter m c.prog c.count ≡ some true
      → {s : State} → Reach (input c m) initial s
      → (n : RawInstruction) × ((input c m).fetch s.pc ≡ some n)
        × (label n.op ≢ invalid)
        × (allows (needs (label n.op)) n.k ≡ true)
  validate_filter-safe accepted {s} reached =
      let ok : fine_program m c.prog c.count ≡ true =
        some-injective _ _
          (sym (validate_filter-fine m c.prog c.count holds l.bytes pos) ∙ accepted) in
      let lt = Reach-Within ok reached in
      let n_fine =
        and_true (allows (needs (label (instr s.pc).op)) (instr s.pc).k) _ (all_fine ok s.pc lt) in
      (
        instr s.pc,
        fetch-instr s.pc lt,
        λ e. cc (n_fine.0, ap needs e, allows-never (instr s.pc).k),
        n_fine.0,
      )
