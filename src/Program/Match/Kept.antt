-- ===== src/Program/Match/Kept.antt =====
-- `Match` writes to the packet buffer and to the stack of the virtual machine: the program it holds
-- stays as it is.
use go_pcapfilter.Prelude.{
  ℕ, zero, suc, ◌+◌, ◌-◌, ◌*◌, ◌≤◌, ◌<◌, ◌≡◌, ltb, if◌then◌else◌, List, [], ◌∷◌, none, some, length,
  get_elem?, take, All, arith, refl, ap, sym, ◌∙◌,
}
use go_pcapfilter.Wasm.Words.{IsByte}
use go_pcapfilter.Wasm.Memory.{Memory, cell_or}
use go_pcapfilter.Wasm.Memory.Laws.{IsBytes, Apart}
use go_pcapfilter.Instruction.{instruction_at}
use go_pcapfilter.Program.{Program, instructions}
use go_pcapfilter.Program.Ready.{IsReady}
use go_pcapfilter.Program.Instructions.{decoded, instructions-decoded}

pub get_elem?-cell_or :
    (xs : List ℕ) (j : ℕ)
    → get_elem? xs j ≡ (if ltb j (length xs) then some (cell_or xs j 0) else none)
get_elem?-cell_or [] j = ground arith
get_elem?-cell_or (x ∷ xs) zero = ground arith
get_elem?-cell_or (x ∷ xs) (suc j) = get_elem?-cell_or xs j ∙ ground arith

pub length-take : (n : ℕ) (xs : List ℕ) → n ≤ length xs → length (take n xs) ≡ n
length-take zero xs h = refl
length-take (suc n) [] h = absurd (omega arith)
length-take (suc n) (x ∷ xs) h = ap suc (length-take n xs (omega arith))

pub take-IsByte : (n : ℕ) (xs : List ℕ) → All IsByte xs → All IsByte (take n xs)
take-IsByte zero xs h = tt
take-IsByte (suc n) [] h = tt
take-IsByte (suc n) (x ∷ xs) (hx, hxs) = (hx, take-IsByte n xs hxs)

pub cell_or-IsByte : (xs : List ℕ) (j : ℕ) → All IsByte xs → cell_or xs j 0 < 256
cell_or-IsByte [] j h = omega arith
cell_or-IsByte (x ∷ xs) zero (hx, hxs) = hx
cell_or-IsByte (x ∷ xs) (suc j) (hx, hxs) = cell_or-IsByte xs j hxs

-- Memory that differs from the program's only in the packet buffer and below the stack pointer.
pub record Touched (p : Program) (m : Memory) : Type 0 where
  pub bytes : IsBytes m
  pub size : m.size ≡ p.memory.size
  pub same :
      (b : ℕ)
      → Apart b 1 p.pkt p.snaplen
      → Apart b 1 (p.stack_pointer - 64) 64
      → m.byte b ≡ p.memory.byte b

module _ (p : Program) (r : IsReady p) where
  pub Touched-IsReady : (m : Memory) → Touched p m → IsReady (record p { memory = m })
  Touched-IsReady m t = record {
    bytes = t.bytes;
    size_bound = omega (arith, t.size, r.size_bound);
    n_pos = r.n_pos;
    n_bound = r.n_bound;
    ptr_low = r.ptr_low;
    ptr_high = r.ptr_high;
    ptr_in = omega (arith, t.size, r.ptr_in);
    pkt_high = r.pkt_high;
    snaplen_high = r.snaplen_high;
    pkt_in = omega (arith, t.size, r.pkt_in);
    stack_low = r.stack_low;
    stack_high = r.stack_high;
    stack_in = omega (arith, t.size, r.stack_in);
    ptr_stack = r.ptr_stack;
    pkt_stack = r.pkt_stack;
    ptr_pkt = r.ptr_pkt;
  }

  pub Touched-byte :
      (m : Memory) (b : ℕ)
      → Touched p m
      → p.ptr ≤ b
      → b < p.ptr + 8 * p.n
      → m.byte b ≡ p.memory.byte b
  Touched-byte m b t lo hi = t.same b (off_pkt r.ptr_pkt) (off_stack r.ptr_stack)
    where
      off_pkt : Apart p.ptr (8 * p.n) p.pkt p.snaplen → Apart b 1 p.pkt p.snaplen
      off_pkt h = omega arith

      off_stack :
          Apart p.ptr (8 * p.n) (p.stack_pointer - 64) 64 → Apart b 1 (p.stack_pointer - 64) 64
      off_stack h = omega arith

  pub Touched-instruction :
      (m : Memory) (i : ℕ)
      → Touched p m
      → i < p.n
      → instruction_at m (p.ptr + 8 * i) ≡ instruction_at p.memory (p.ptr + 8 * i)
  Touched-instruction m i t h =
      let a = p.ptr + 8 * i in
      let at = λ (d : ℕ).
        λ (q : d < 8). Touched-byte m (p.ptr + 8 * i + d) t (omega arith) (omega arith) in
      ground (
        arith,
        Touched-byte m a t (omega arith) (omega arith),
        at 1 (omega arith),
        at 2 (omega arith),
        at 3 (omega arith),
        at 4 (omega arith),
        at 5 (omega arith),
        at 6 (omega arith),
        at 7 (omega arith),
      )

  pub Touched-decoded :
      (m : Memory) (i left : ℕ)
      → Touched p m
      → i + left ≤ p.n
      → decoded m p.ptr i left ≡ decoded p.memory p.ptr i left
  unfolding decoded
  Touched-decoded m i zero t h = refl
  Touched-decoded m i (suc left) t h =
      rw (Touched-instruction m i t (omega arith), Touched-decoded m (i + 1) left t (omega arith))

  pub Touched-instructions :
      (m : Memory) → Touched p m → instructions (record p { memory = m }) ≡ instructions p
  Touched-instructions m t =
      instructions-decoded (record p { memory = m }) (Touched-IsReady m t)
      ∙ ap some (Touched-decoded m 0 p.n t (omega arith))
      ∙ sym (instructions-decoded p r)
