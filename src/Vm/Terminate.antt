-- ===== src/Vm/Terminate.antt =====
-- Every run ends: at most 64 jumps go back, and between two of them the program counter grows.
use go_pcapfilter.Prelude.{
  ℕ, zero, suc, ◌+◌, ◌-◌, ◌*◌, ◌≤◌, ◌<◌, ◌≡◌, ◌⊎◌, ltb, if◌then◌else◌, Option, none, some,
  Option-cases, Bool, true, false, leb, ◌==◌, refl, ap, ◌∙◌, arith, inl, inr, ltb→lt,
}
use go_pcapfilter.Instruction.{RawInstruction}
use go_pcapfilter.Vm.Label.{
  Label, label, invalid, ret_k, ret_a, st, stx, ja, neg, tax, txa, load, load_x, jump, alu,
}
use go_pcapfilter.Vm.Spec.{Input, State, Effect, proceed, verdict, perform, go_to, with_value, eval}

-- A bound on the instructions that are left.
abbrev left : ℕ → State → ℕ
left n s = (64 - s.back) * n + (n - s.pc)

abbrev Ahead : Input → State → Effect → Type 0
Ahead i s (verdict v) = Unit {0}
Ahead i s (proceed t) =
    ((s.pc < t.pc) × (t.back ≡ s.back)) ⊎ ((s.back < 64) × (t.back ≡ s.back + 1))

value-Ahead :
    (i : Input) (s : State) (v : Option ℕ) (f : ℕ → State)
    → ((u : ℕ) → (s.pc < (f u).pc) × ((f u).back ≡ s.back))
    → Ahead i s (with_value v f)
value-Ahead i s none f h = tt
value-Ahead i s (some u) f h = inl (h u)

if-Ahead :
    (i : Input) (s : State) (b : Bool) (x y : Effect)
    → (b ≡ true → Ahead i s x)
    → (b ≡ false → Ahead i s y)
    → Ahead i s (if b then x else y)
if-Ahead i s true x y p q = p refl
if-Ahead i s false x y p q = q refl

go_to-Ahead : (i : Input) (s : State) (k : ℕ) → Ahead i s (go_to i s k)
unfolding go_to
go_to-Ahead i s k =
    if-Ahead i s (ltb k 2147483648) _ _
      (λ _. if-Ahead i s (ltb (s.pc + 1 + k) i.count) _ _ (λ _. inl (omega arith, refl)) (λ _. tt))
      (λ _.
        if-Ahead i s (leb (4294967296 - k) (s.pc + 1)) _ _
          (λ _.
            if-Ahead i s (4294967296 - k == 1) _ _ (λ _. tt)
              (λ _. if-Ahead i s (ltb s.back 64) _ _ (λ few. inr (ltb→lt _ _ few, refl)) (λ _. tt)))
          (λ _. tt))

store-Ahead :
    (i : Input) (s t : State) (k : ℕ)
    → s.pc < t.pc
    → t.back ≡ s.back
    → Ahead i s (if ltb k 16 then proceed t else verdict 0)
store-Ahead i s t k p q = if-Ahead i s (ltb k 16) _ _ (λ _. inl (p, q)) (λ _. tt)

-- An instruction moves the program counter on, or uses up one of the 64 jumps back.
perform-Ahead :
    (i : Input) (s : State) (n : RawInstruction) (b : Label) → Ahead i s (perform i s n b)
unfolding perform
perform-Ahead i s n invalid = tt
perform-Ahead i s n ret_k = tt
perform-Ahead i s n ret_a = tt
perform-Ahead i s n st = store-Ahead i s _ n.k (omega arith) refl
perform-Ahead i s n stx = store-Ahead i s _ n.k (omega arith) refl
perform-Ahead i s n ja = go_to-Ahead i s n.k
perform-Ahead i s n neg = inl (omega arith, refl)
perform-Ahead i s n tax = inl (omega arith, refl)
perform-Ahead i s n txa = inl (omega arith, refl)
perform-Ahead i s n (load l) = value-Ahead i s _ _ (λ u. (omega arith, refl))
perform-Ahead i s n (load_x l) = value-Ahead i s _ _ (λ u. (omega arith, refl))
perform-Ahead i s n (jump t o) = inl (omega arith, refl)
perform-Ahead i s n (alu op o) = value-Ahead i s _ _ (λ u. (omega arith, refl))

abbrev Ends : Input → Type 0
Ends i = (p : ℕ) → i.count ≤ p → i.fetch p ≡ none

room : (s t : State) → s.back < 64 → t.back ≡ s.back + 1 → 64 - s.back ≡ 64 - t.back + 1
room s t p q = omega arith

fewer :
    (n : ℕ) (s t : State)
    → s.pc < n
    → ((s.pc < t.pc) × (t.back ≡ s.back)) ⊎ ((s.back < 64) × (t.back ≡ s.back + 1))
    → left n t < left n s
fewer n s t h (inl (p, q)) = rw q (omega arith)
fewer n s t h (inr (p, q)) =
    let e : (64 - s.back) * n ≡ (64 - t.back) * n + n =
      ap (λ (d : ℕ). d * n) (room s t p q) ∙ omega arith in
    omega (arith, e)

after_effect : ℕ → Input → Effect → Option ℕ
after_effect f i (verdict v) = some v
after_effect f i (proceed t) = eval f i t

go_on :
    (f : ℕ) (i : Input) (s : State) (e : Effect)
    → s.pc < i.count
    → left i.count s < suc f
    → Ahead i s e
    → ((t : State) → left i.count t < f → (v : ℕ) × (eval f i t ≡ some v))
    → (v : ℕ) × (after_effect f i e ≡ some v)
unfolding after_effect
go_on f i s (verdict u) lt enough ahead ih = (u, refl)
go_on f i s (proceed t) lt enough ahead ih = ih t (omega (arith, fewer i.count s t lt ahead))

-- With more fuel than the bound, the specification gives a verdict.
pub eval_total :
    (f : ℕ) (i : Input) (s : State) → Ends i → left i.count s < f → (v : ℕ) × (eval f i s ≡ some v)
unfolding eval after_effect
eval_total zero i s ends h = elim h [ ]
eval_total (suc f) i s ends h = elim (Option-cases (i.fetch s.pc)) [
  | inl past ↦ (0, rw (eval, past))
  | inr (n, found) ↦
      let inside : s.pc < i.count = ground (arith, ends s.pc) in
      let (v, e) =
        go_on f i s (perform i s n (label n.op)) inside h (perform-Ahead i s n (label n.op))
          λ t lt. eval_total f i t ends lt in
      (v, rw (eval, found) e)
]
