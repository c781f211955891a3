-- ===== src/Vm/Validate/Fine.antt =====
-- The validation against the virtual machine: what the code behind each label needs, and where a
-- jump may lead, without the arithmetic modulo 2 ^ 32.
use go_pcapfilter.Prelude.{
  ℕ, zero, suc, ◌+◌, ◌-◌, ◌*◌, ◌≤◌, ◌<◌, ◌≡◌, ◌≢◌, refl, Bool, true, false, not, ◌&&◌, ltb, leb,
  ◌==◌, ==_iff, if◌then◌else◌, arith, Bool-cases, inl, inr, ◌∙◌, ap, subst, some,
}
use go_pcapfilter.Wasm.Words.{IsU32, IsByte}
use go_pcapfilter.Wasm.Memory.{Memory}
use go_pcapfilter.Wasm.Memory.Laws.{IsBytes}
use go_pcapfilter.Instruction.{RawInstruction}
use go_pcapfilter.Vm.Label.{
  Label, label, invalid, ret_k, ret_a, st, stx, ja, neg, tax, txa, load, load_x, jump, alu,
}
use go_pcapfilter.Vm.Validate.{never, check, pcapint_validate_filter}
use go_pcapfilter.Vm.Validate.Table.{needs, jumps_of, returns, op-Row}
use go_pcapfilter.Vm.Validate.Checked.{
  allows, targets, accepted, Holds, nth, accepted_from, ends_in_return, validate_filter-accepts,
}

-- A jump of instruction `i` to `k`, a signed distance from the next instruction.
abbrev pub lands : ℕ → ℕ → ℕ → Bool
lands i count k =
    if ltb k 2147483648
    then ltb (i + 1 + k) count
    else not (k == 4294967295) && leb (4294967296 - k) (i + 1)

abbrev pub inside : Label → ℕ → ℕ → RawInstruction → Bool
inside ja i count n = lands i count n.k
inside (jump t o) i count n = ltb (i + 1 + n.jt) count && ltb (i + 1 + n.jf) count
inside _ i count n = true

-- Instruction `n`, number `i` of `count`, has a known opcode, a constant that it can work with, and
-- jumps that stay inside the program.
abbrev pub fine : ℕ → ℕ → RawInstruction → Bool
fine i count n = allows (needs (label n.op)) n.k && inside (label n.op) i count n

pub record IsFields (n : RawInstruction) : Type 0 where
  pub jt : IsByte n.jt
  pub jf : IsByte n.jf
  pub k : IsU32 n.k

targets-inside :
    (b : Label) (i count : ℕ) (n : RawInstruction)
    → i < count
    → count ≤ 3060000
    → IsFields n
    → targets (jumps_of b) i count n ≡ inside b i count n
unfolding targets
targets-inside invalid i count n lt le w = refl
targets-inside ret_k i count n lt le w = refl
targets-inside ret_a i count n lt le w = refl
targets-inside st i count n lt le w = refl
targets-inside stx i count n lt le w = refl
targets-inside ja i count n lt le w = ground (arith, w.k)
targets-inside neg i count n lt le w = refl
targets-inside tax i count n lt le w = refl
targets-inside txa i count n lt le w = refl
targets-inside (load l) i count n lt le w = refl
targets-inside (load_x l) i count n lt le w = refl
targets-inside (jump t o) i count n lt le w = ground (arith, w.jt, w.jf)
targets-inside (alu op o) i count n lt le w = refl

pub allows-never : (k : ℕ) → allows never k ≡ false
unfolding allows
allows-never k = refl

accepted-fine :
    (i count : ℕ) (n : RawInstruction)
    → i < count
    → count ≤ 3060000
    → IsFields n
    → accepted i count n ≡ fine i count n
accepted-fine i count n lt le w =
    let r = op-Row n.op in
    elim (Bool-cases (allows (needs (label n.op)) n.k)) [
      | inl ok ↦
          let known : check n.op ≢ never = λ e. cc (r.checks, e, ok, allows-never n.k) in
          rw (r.checks, ok, (r.known known).0) (targets-inside (label n.op) i count n lt le w)
      | inr bad ↦ rw (r.checks, bad) refl
    ]

fine-known : (i count : ℕ) (n : RawInstruction) → fine i count n ≡ true → check n.op ≢ never
fine-known i count n h e =
    let ok : allows (needs (label n.op)) n.k ≡ true = ground (arith, h) in
    cc ((op-Row n.op).checks, e, ok, allows-never n.k)

pub and_true : (a b : Bool) → (a && b) ≡ true → (a ≡ true) × (b ≡ true)
and_true true b h = (refl, h)
and_true false b h = cc

if-and : (a b : Bool) → (if a then b else false) ≡ (a && b)
if-and true b = refl
if-and false b = refl

same_end : (a : Bool) {b c : Bool} → (a ≡ true → b ≡ c) → (if a then b else false) ≡ (a && c)
same_end true h = h refl
same_end false h = refl

module _ (m : Memory) (prog count : ℕ) where
  unfoldable pub fine_from : ℕ → ℕ → Bool
  fine_from i zero = true
  fine_from i (suc left) =
      let rest = fine_from (i + 1) left in fine i count (nth m prog count i) && rest

  -- Every instruction is fine, and the last one returns.
  abbrev pub fine_program : Bool
  fine_program = fine_from 0 count && returns (label (nth m prog count (count - 1)).op)

  pub fine_from_sound :
      (left i j : ℕ)
      → fine_from i left ≡ true
      → i ≤ j
      → j < i + left
      → fine j count (nth m prog count j) ≡ true
  unfolding fine_from
  fine_from_sound zero i j h le lt = absurd (omega arith)
  fine_from_sound (suc left) i j h le lt = elim (Bool-cases (i == j)) [
    | inl same ↦
        subst (λ k. fine k count (nth m prog count k) ≡ true) ((==_iff _ _).0 same)
          (and_true (fine i count (nth m prog count i)) (fine_from (i + 1) left) h).0
    | inr other ↦
        fine_from_sound left (i + 1) j
          (and_true (fine i count (nth m prog count i)) (fine_from (i + 1) left) h).1 (ground arith)
          (omega arith)
  ]

  module _ (h : Holds m prog count) (w : IsBytes m) where
    pub nth-IsFields : (i : ℕ) → IsFields (nth m prog count i)
    nth-IsFields i = record {
      jt = w.bytes _;
      jf = w.bytes _;
      k = omega (
        arith,
        w.bytes (prog + 8 * i + 4),
        w.bytes (prog + 8 * i + 4 + 1),
        w.bytes (prog + 8 * i + 4 + 2),
        w.bytes (prog + 8 * i + 4 + 3),
      );
    }

    accepted_from-fine :
        (left i : ℕ) → i + left ≤ count → accepted_from m prog count i left ≡ fine_from i left
    unfolding accepted_from fine_from
    accepted_from-fine zero i le = refl
    accepted_from-fine (suc left) i le =
        rw
          (
            accepted-fine i count (nth m prog count i) (omega arith) h.count_bound (nth-IsFields i),
            accepted_from-fine left (i + 1) (omega arith),
          )
          (if-and (fine i count (nth m prog count i)) (fine_from (i + 1) left))

    fine-ends :
        0 < count
        → fine_from 0 count ≡ true
        → ends_in_return m prog count ≡ returns (label (nth m prog count (count - 1)).op)
    fine-ends pos all =
        let last = fine_from_sound count 0 (count - 1) all (omega arith) (omega arith) in
        ((op-Row (nth m prog count (count - 1)).op).known
          (fine-known (count - 1) count (nth m prog count (count - 1)) last)).1

    -- For a program of one instruction or more inside the memory, `_pcapint_validate_filter`
    -- returns, within its fuel and without a panic, 1 if every instruction has a known opcode, a
    -- constant that it can work with and jumps that stay inside the program, and the last one is a
    -- return; else 0.
    pub validate_filter-fine : 0 < count → pcapint_validate_filter m prog count ≡ some fine_program
    validate_filter-fine pos =
        validate_filter-accepts m prog count h pos
        ∙ ap some (
            rw (accepted_from-fine count 0 (omega arith))
              (same_end (fine_from 0 count) (fine-ends pos)))
