-- ===== src/Program/Instructions.antt =====
-- `Instructions` decodes the eight bytes of each instruction, and `Bytes` are those bytes.
use native.Mathlib.Nat.{add-zero, add_assoc}
use go_pcapfilter.Prelude.{
  ℕ, zero, suc, ◌+◌, ◌-◌, ◌*◌, ◌≤◌, ◌<◌, ◌≡◌, ltb, if◌then◌else◌, List, [], ◌∷◌, none, some, length,
  get_elem?, arith, refl, ap, sym, ◌∙◌, true,
}
use go_pcapfilter.Wasm.Words.{add32, u32}
use go_pcapfilter.Wasm.Memory.{Memory, load8, load16, load32, cells}
use go_pcapfilter.Instruction.{RawInstruction, instruction_at}
use go_pcapfilter.Program.{Program, read_instruction, read_from, instructions, bytes}
use go_pcapfilter.Program.Ready.{IsReady}

-- The instructions from the index `i` on.
unfoldable pub decoded : Memory → ℕ → ℕ → ℕ → List RawInstruction
decoded m ptr i zero = []
decoded m ptr i (suc left) = instruction_at m (ptr + 8 * i) ∷ decoded m ptr (i + 1) left

pub length-decoded : (m : Memory) (ptr i left : ℕ) → length (decoded m ptr i left) ≡ left
unfolding decoded
length-decoded m ptr i zero = refl
length-decoded m ptr i (suc left) = ap suc (length-decoded m ptr (i + 1) left)

pub get_elem?-decoded :
    (m : Memory) (ptr i left j : ℕ)
    → get_elem? (decoded m ptr i left) j
      ≡ (if ltb j left then some (instruction_at m (ptr + 8 * (i + j))) else none)
unfolding decoded
get_elem?-decoded m ptr i zero j = ground arith
get_elem?-decoded m ptr i (suc left) zero = rw add-zero (ground arith)
get_elem?-decoded m ptr i (suc left) (suc j) =
    let e : i + suc j ≡ i + 1 + j = omega arith in
    rw e (get_elem?-decoded m ptr (i + 1) left j ∙ ground arith)

read_instruction_lem :
    (m : Memory) (a : ℕ)
    → a < 2147483648
    → a + 8 ≤ m.size
    → read_instruction m a ≡ some (instruction_at m a)
unfolding read_instruction load8 load16 load32
read_instruction_lem m a h fits = ground arith

read_from-decoded :
    (m : Memory) (ptr i left : ℕ)
    → ptr + 8 * (i + left) < 2147483648
    → ptr + 8 * (i + left) ≤ m.size
    → read_from m ptr i left ≡ some (decoded m ptr i left)
unfolding read_from decoded
read_from-decoded m ptr i zero high fits = refl
read_from-decoded m ptr i (suc left) high fits =
    let e : add32 ptr (u32 (i * 8)) ≡ ptr + 8 * i = omega arith in
    rw (
      e,
      read_instruction_lem m (ptr + 8 * i) (omega arith) (omega arith),
      read_from-decoded m ptr (i + 1) left (omega arith) (omega arith),
    )

-- A ready program is read without a panic: `n` instructions, each from its eight bytes.
pub instructions-decoded :
    (p : Program) → IsReady p → instructions p ≡ some (decoded p.memory p.ptr 0 p.n)
unfolding instructions
instructions-decoded p r =
    let low : ltb p.n 2147483648 ≡ true = ground (arith, r.n_bound) in
    rw (
      low,
      read_from-decoded p.memory p.ptr 0 p.n (omega (arith, r.ptr_high)) (omega (arith, r.ptr_in)),
    )

-- Eight bytes at a time, as the kernel reads a `struct bpf_insn`; a shorter rest is left out.
unfoldable pub parse : List ℕ → List RawInstruction
parse (a ∷ b ∷ c ∷ d ∷ e ∷ f ∷ g ∷ h ∷ rest) =
    record { op = a + 256 * b; jt = c; jf = d; k = e + 256 * f + 65536 * g + 16777216 * h }
    ∷ parse rest
parse _ = []

cells_step :
    (m : Memory) (p k : ℕ)
    → cells m p (8 + k)
      ≡ m.byte p
        ∷ m.byte (p + 1)
        ∷ m.byte (p + 2)
        ∷ m.byte (p + 3)
        ∷ m.byte (p + 4)
        ∷ m.byte (p + 5)
        ∷ m.byte (p + 6)
        ∷ m.byte (p + 7)
        ∷ cells m (p + 8) k
unfolding cells
cells_step m p k =
    let e : 8 + k ≡ suc (suc (suc (suc (suc (suc (suc (suc k))))))) = omega arith in
    rw e (simp add_assoc)

parse-cells : (m : Memory) (ptr i n : ℕ) → parse (cells m (ptr + 8 * i) (8 * n)) ≡ decoded m ptr i n
unfolding parse decoded
parse-cells m ptr i zero = unfold cells in refl
parse-cells m ptr i (suc n) =
    let e : 8 * suc n ≡ 8 + 8 * n = omega arith in
    let next : ptr + 8 * i + 8 ≡ ptr + 8 * (i + 1) = omega arith in
    rw (e, cells_step, next, parse-cells m ptr (i + 1) n) (simp add_assoc)

length-cells : (m : Memory) (p k : ℕ) → length (cells m p k) ≡ k
unfolding cells
length-cells m p zero = refl
length-cells m p (suc k) = ap suc (length-cells m (p + 1) k)

bytes-cells : (p : Program) → IsReady p → bytes p ≡ some (cells p.memory p.ptr (8 * p.n))
unfolding bytes
bytes-cells p r =
    let hi : add32 p.ptr (u32 (p.n * 8)) ≡ p.ptr + 8 * p.n = omega (arith, r.ptr_high) in
    let count : p.ptr + 8 * p.n - p.ptr ≡ 8 * p.n = omega arith in
    rw (hi, bytes) (ground (arith, count, r.ptr_high, r.ptr_in))

-- `Instructions` and `Bytes` of a ready program agree: neither panics, and the instructions are the
-- bytes, eight for each, parsed.
pub instructions-bytes :
    (p : Program)
    → IsReady p
    → (bs : List ℕ) × (bytes p ≡ some bs)
      × (length bs ≡ 8 * p.n)
      × (instructions p ≡ some (parse bs))
instructions-bytes p r =
    let same = rw (add-zero) at (parse-cells p.memory p.ptr 0 p.n) in
    (
      cells p.memory p.ptr (8 * p.n),
      bytes-cells p r,
      length-cells p.memory p.ptr (8 * p.n),
      instructions-decoded p r ∙ ap some (sym same),
    )
