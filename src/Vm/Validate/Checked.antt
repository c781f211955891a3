-- ===== src/Vm/Validate/Checked.antt =====
-- What a program that passes the validation satisfies, instruction by instruction.
use go_pcapfilter.Prelude.{
  ℕ, zero, suc, ◌+◌, ◌-◌, ◌*◌, ◌≤◌, ◌<◌, ◌≡◌, refl, Bool, true, false, not, ltb, leb, ◌==◌,
  if◌then◌else◌, bit_and, some, arith, Bool-cases, inl, inr, ==_iff, subst,
}
use go_pcapfilter.Wasm.Words.{add32, sub32, u32, neg32}
use go_pcapfilter.Wasm.Memory.{Memory, load8, load16, load32}
use go_pcapfilter.Instruction.{RawInstruction, instruction_at}
use go_pcapfilter.Vm.Validate.{
  Check, always, slot, divisor, shift, never, check, passes_check, pcapint_valid_insn, Jumps,
  no_jump, far_jump, test_jump, jumps, valid_targets, valid_at, valid_end, validate_from,
  pcapint_validate_filter,
}

-- What a check asks of a constant.
unfoldable pub allows : Check → ℕ → Bool
allows always k = true
allows slot k = ltb k 16
allows divisor k = not (k == 0)
allows shift k = ltb k 32
allows never k = false

-- The targets of instruction `i` lie below `count`; a far jump counts modulo 2 ^ 32.
unfoldable pub targets : Jumps → ℕ → ℕ → RawInstruction → Bool
targets no_jump i count n = true
targets far_jump i count n = if n.k == neg32 1 then false else ltb (add32 (add32 i n.k) 1) count
targets test_jump i count n =
    if leb count (add32 (add32 i n.jt) 1) then false else not (leb count (add32 (add32 i n.jf) 1))

abbrev pub accepted : ℕ → ℕ → RawInstruction → Bool
accepted i count n = if allows (check n.op) n.k then targets (jumps n.op) i count n else false

-- A program that lies in the memory.
pub record Holds (m : Memory) (prog count : ℕ) : Type 0 where
  pub inside : prog + 8 * count ≤ m.size
  pub low : m.size ≤ 4294967296
  pub count_bound : count ≤ 3060000

module _ (m : Memory) (p : ℕ) (fits : p + 8 ≤ m.size) where
  load-op : load16 m p ≡ some (instruction_at m p).op
  unfolding load16
  load-op = ground arith

  load-k : load32 m (p + 4) ≡ some (instruction_at m p).k
  unfolding load32
  load-k = ground arith

  load-jt : load8 m (p + 2) ≡ some (instruction_at m p).jt
  unfolding load8
  load-jt = ground arith

  load-jf : load8 m (p + 3) ≡ some (instruction_at m p).jf
  unfolding load8
  load-jf = ground arith

  passes_check-allows : (c : Check) → passes_check c m p ≡ some (allows c (instruction_at m p).k)
  unfolding passes_check allows
  passes_check-allows always = refl
  passes_check-allows slot = rw load-k refl
  passes_check-allows divisor = rw load-k refl
  passes_check-allows shift = rw load-k refl
  passes_check-allows never = refl

  valid_insn-allows :
      pcapint_valid_insn m p ≡ some (allows (check (instruction_at m p).op) (instruction_at m p).k)
  unfolding pcapint_valid_insn
  valid_insn-allows = rw load-op (passes_check-allows (check (instruction_at m p).op))

  valid_targets-targets :
      (j : Jumps) (i count : ℕ)
      → valid_targets j m p i count ≡ some (targets j i count (instruction_at m p))
  unfolding valid_targets targets
  valid_targets-targets no_jump i count = refl
  valid_targets-targets far_jump i count = rw load-k (ground arith)
  valid_targets-targets test_jump i count = rw (load-jt, load-jf) (ground arith)

  valid_at-accepted :
      (i count : ℕ) → valid_at m p i count ≡ some (accepted i count (instruction_at m p))
  unfolding valid_at
  valid_at-accepted i count =
      rw (valid_insn-allows, load-op, valid_targets-targets (jumps (instruction_at m p).op) i count)
        (ground arith)

both_true : (a b : Bool) → (if a then b else false) ≡ true → (a ≡ true) × (b ≡ true)
both_true true b h = (refl, h)
both_true false b h = cc

module _ (m : Memory) (prog count : ℕ) where
  abbrev pub nth : ℕ → RawInstruction
  nth i = instruction_at m (prog + 8 * i)

  -- The instructions from number `i` on are accepted.
  unfoldable pub accepted_from : ℕ → ℕ → Bool
  accepted_from i zero = true
  accepted_from i (suc left) =
      let rest = accepted_from (i + 1) left in if accepted i count (nth i) then rest else false

  abbrev pub ends_in_return : Bool
  ends_in_return = bit_and (nth (count - 1)).op 7 == 6

  abbrev pub accepts : Bool
  accepts = if accepted_from 0 count then ends_in_return else false

  module _ (h : Holds m prog count) where
    valid_end-return : 0 < count → valid_end m prog count ≡ some ends_in_return
    unfolding valid_end
    valid_end-return pos =
        let e : sub32 (add32 prog (u32 (count * 8))) 8 ≡ prog + 8 * (count - 1) =
          omega (arith, h.inside, h.low, h.count_bound) in
        rw (e, load-op m (prog + 8 * (count - 1)) (omega (arith, h.inside))) refl

    validate_from-accepted :
        (fuel i : ℕ)
        → i + suc fuel ≡ count
        → validate_from (suc fuel) m prog count (prog + 8 * i) i
          ≡ some (if accepted_from i (suc fuel) then ends_in_return else false)
    unfolding validate_from accepted_from
    validate_from-accepted zero i e =
        let last : (add32 i 1 == count) ≡ true = ground (arith, h.count_bound) in
        rw
          (
            valid_at-accepted m (prog + 8 * i) (omega (arith, h.inside)) i count,
            last,
            valid_end-return (omega arith),
          )
          (ground arith)
    validate_from-accepted (suc fuel) i e =
        let more : (add32 i 1 == count) ≡ false = ground (arith, h.count_bound) in
        let next : add32 i 1 ≡ i + 1 = omega (arith, h.count_bound) in
        let on : add32 (prog + 8 * i) 8 ≡ prog + 8 * (i + 1) = omega (arith, h.inside, h.low) in
        rw
          (
            valid_at-accepted m (prog + 8 * i) (omega (arith, h.inside)) i count,
            more,
            next,
            on,
            validate_from-accepted fuel (i + 1) (omega arith),
          )
          (ground arith)

    validate_from-start : 0 < count → validate_from count m prog count prog 0 ≡ some accepts
    validate_from-start pos =
        let k : ℕ = count - 1 in
        let e : suc k ≡ count = omega arith in
        let at : prog + 8 * 0 ≡ prog = omega arith in
        subst
          (λ n.
            validate_from n m prog count prog 0
            ≡ some (if accepted_from 0 n then ends_in_return else false))
          e (rw at at (validate_from-accepted k 0 (omega arith)))

    -- For a program of one instruction or more inside the memory, the validation returns, within
    -- its fuel, whether each instruction is accepted and the last one is a return.
    pub validate_filter-accepts : 0 < count → pcapint_validate_filter m prog count ≡ some accepts
    unfolding pcapint_validate_filter
    validate_filter-accepts pos =
        let counted : ltb (sub32 count 3060001) (neg32 3060000) ≡ false =
          ground (arith, h.count_bound) in
        rw counted (validate_from-start pos)

  accepted_from_sound :
      (left i j : ℕ)
      → accepted_from i left ≡ true
      → i ≤ j
      → j < i + left
      → accepted j count (nth j) ≡ true
  unfolding accepted_from
  accepted_from_sound zero i j h le lt = absurd (omega arith)
  accepted_from_sound (suc left) i j h le lt = elim (Bool-cases (i == j)) [
    | inl same ↦
        subst (λ k. accepted k count (nth k) ≡ true) ((==_iff _ _).0 same)
          (both_true (accepted i count (nth i)) (accepted_from (i + 1) left) h).0
    | inr other ↦
        accepted_from_sound left (i + 1) j
          (both_true (accepted i count (nth i)) (accepted_from (i + 1) left) h).1 (ground arith)
          (omega arith)
  ]

  -- An accepted program, seen from one of its instructions.
  pub accepts_sound :
      accepts ≡ true
      → ((j : ℕ) → j < count → accepted j count (nth j) ≡ true) × (ends_in_return ≡ true)
  accepts_sound h =
      let (all, last) = both_true (accepted_from 0 count) ends_in_return h in
      (λ j lt. accepted_from_sound count 0 j all (omega arith) (omega arith), last)
