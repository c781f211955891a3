-- ===== src/Vm/Validate.antt =====
-- internal/bpf.go: `_pcapint_valid_insn` and `_pcapint_validate_filter`, which check a program
-- before it is handed out. `none` is a Go panic, or fuel that ran out.
pub mod Table
pub mod Checked
pub mod Fine
pub mod Safe
use go_pcapfilter.Prelude.{
  ℕ, zero, suc, ◌+◌, ◌*◌, ◌/◌, Bool, true, false, not, ltb, leb, ◌==◌, ◌||◌, if◌then◌else◌, bit_and,
  List, [], ◌∷◌, Option, none, some, ◌>>=◌,
}
use go_pcapfilter.Wasm.Words.{add32, sub32, neg32, u32}
use go_pcapfilter.Wasm.Memory.{Memory, load8, load16, load32}

unfoldable pub elem : ℕ → List ℕ → Bool
elem x [] = false
elem x (y ∷ ys) = x == y || elem x ys

-- The labels of the switch: l0, l1, l3, l4 and l2.
pub data Check : Type 0 where
  always slot divisor shift never : Check

abbrev pub always_ops : List ℕ
always_ops =
    0 ∷ 1 ∷ 4 ∷ 5 ∷ 6 ∷ 7 ∷ 12 ∷ 20 ∷ 21 ∷ 22 ∷ 28 ∷ 29 ∷ 32 ∷ 36 ∷ 37 ∷ 40 ∷ 44 ∷ 45 ∷ 48 ∷ 53 ∷ 60
    ∷ 61 ∷ 64 ∷ 68 ∷ 69 ∷ 72 ∷ 76 ∷ 77 ∷ 80 ∷ 84 ∷ 92 ∷ 108 ∷ 124 ∷ 128 ∷ 129 ∷ 132 ∷ 135 ∷ 156
    ∷ 164 ∷ 172 ∷ 177 ∷ []

abbrev pub slot_ops : List ℕ
slot_ops = 2 ∷ 3 ∷ 96 ∷ 97 ∷ []

abbrev pub divisor_ops : List ℕ
divisor_ops = 52 ∷ 148 ∷ []

abbrev pub shift_ops : List ℕ
shift_ops = 100 ∷ 116 ∷ []

unfoldable pub check : ℕ → Check
unfolding elem
check op =
    if elem op always_ops
    then always
    else if elem op slot_ops
    then slot
    else if elem op divisor_ops
    then divisor
    else if elem op shift_ops
    then shift
    else never

-- What the constant of an instruction has to be; it is read only where it matters.
unfoldable pub passes_check : Check → Memory → ℕ → Option Bool
passes_check always m p = some true
passes_check slot m p = do k ← load32 m (p + 4); some (ltb k 16)
passes_check divisor m p = do k ← load32 m (p + 4); some (not (k == 0))
passes_check shift m p = do k ← load32 m (p + 4); some (ltb k 32)
passes_check never m p = some false

unfoldable pub pcapint_valid_insn : Memory → ℕ → Option Bool
pcapint_valid_insn m p = do op ← load16 m p; passes_check (check op) m p

-- What the opcode says of jumps: none, to a distance in `k`, or to one of `jt` and `jf`.
pub data Jumps : Type 0 where
  no_jump far_jump test_jump : Jumps

unfoldable pub jumps : ℕ → Jumps
jumps op =
    if bit_and op 7 == 5
    then (let code = bit_and (op / 16) 15 in
        if leb 4 (sub32 code 1) then (if code == 0 then far_jump else no_jump) else test_jump)
    else no_jump

-- The targets of the instruction at `p`, number `i`, lie inside the program.
unfoldable pub valid_targets : Jumps → Memory → ℕ → ℕ → ℕ → Option Bool
valid_targets no_jump m p i count = some true
valid_targets far_jump m p i count = do
  k ← load32 m (p + 4)
  if k == neg32 1 then some false else some (ltb (add32 (add32 i k) 1) count)
valid_targets test_jump m p i count = do
  jt ← load8 m (p + 2)
  if leb count (add32 (add32 i jt) 1)
      then some false
      else do jf ← load8 m (p + 3); some (not (leb count (add32 (add32 i jf) 1)))

-- One round from the label l2: the instruction, then its targets.
unfoldable pub valid_at : Memory → ℕ → ℕ → ℕ → Option Bool
valid_at m p i count = do
  known ← pcapint_valid_insn m p
  if known then (do op ← load16 m p; valid_targets (jumps op) m p i count) else some false

-- The program ends with a return.
unfoldable pub valid_end : Memory → ℕ → ℕ → Option Bool
valid_end m prog count = do
  op ← load16 m (sub32 (add32 prog (u32 (count * 8))) 8)
  some (bit_and op 7 == 6)

unfoldable pub validate_from : ℕ → Memory → ℕ → ℕ → ℕ → ℕ → Option Bool
validate_from zero m prog count p i = none
validate_from (suc fuel) m prog count p i = do
  ok ← valid_at m p i count
  let rest = validate_from fuel m prog count (add32 p 8) (add32 i 1)
  if ok then (if add32 i 1 == count then valid_end m prog count else rest) else some false

-- A round for each instruction is enough fuel.
unfoldable pub pcapint_validate_filter : Memory → ℕ → ℕ → Option Bool
pcapint_validate_filter m prog count =
    if ltb (sub32 count 3060001) (neg32 3060000)
    then some false
    else validate_from count m prog count prog 0
