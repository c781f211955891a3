-- ===== src/Program.antt =====
-- filter.go: `Program` and its methods. The mutex makes each method run alone, so a method is a
-- function of the program; `Match` also gives the memory that it leaves. `none` is a Go panic.
pub mod Ready
pub mod Instructions
pub mod Match
pub mod Text
use go_pcapfilter.Prelude.{
  ℕ, zero, suc, ◌+◌, ◌-◌, ◌*◌, ◌≤◌, Bool, true, false, not, ◌&&◌, ltb, leb, ◌==◌, if◌then◌else◌,
  min, List, [], ◌∷◌, Option, none, some, ◌>>=◌, length, take,
}
use go_pcapfilter.Wasm.Words.{add32, u32}
use go_pcapfilter.Wasm.Memory.{Memory, load8, load16, load32, cells, copy_in}
use go_pcapfilter.Instruction.{RawInstruction}
use go_pcapfilter.Vm.Run.{Outcome, returned, panicked, no_fuel, pcapint_filter}

pub record Program : Type 0 where
  pub memory : Memory
  pub stack_pointer : ℕ
  pub n : ℕ
  pub ptr : ℕ
  pub pkt : ℕ
  pub snaplen : ℕ

-- An int32 as an index: a negative one panics.
abbrev pub index : ℕ → Option ℕ
index i = if ltb i 2147483648 then some i else none

-- `Bytes`: the slice from `ptr` to `ptr + n*8`.
unfoldable pub bytes : Program → Option (List ℕ)
bytes p = do
  lo ← index p.ptr
  hi ← index (add32 p.ptr (u32 (p.n * 8)))
  if leb lo hi && leb hi p.memory.size then some (cells p.memory lo (hi - lo)) else none

-- One round of the loop in `Instructions`. `tmp` is the slice from this address on.
unfoldable pub read_instruction : Memory → ℕ → Option RawInstruction
read_instruction m a = do
  a ← index a
  op ← load16 m a
  jt ← load8 m (a + 2)
  jf ← load8 m (a + 3)
  k ← load32 m (a + 4)
  some (record { op = op; jt = jt; jf = jf; k = k })

unfoldable pub read_from : Memory → ℕ → ℕ → ℕ → Option (List RawInstruction)
read_from m ptr i zero = some []
read_from m ptr i (suc left) = do
  x ← read_instruction m (add32 ptr (u32 (i * 8)))
  xs ← read_from m ptr (i + 1) left
  some (x ∷ xs)

-- `Instructions`.
unfoldable pub instructions : Program → Option (List RawInstruction)
instructions p = do n ← index p.n; read_from p.memory p.ptr 0 n

pub data Answer : Type 0 where
  answer : Bool → Memory → Answer
  panics unfinished : Answer

abbrev pub to_answer : Outcome → Answer
to_answer (returned v m) = answer (not (v == 0)) m
to_answer panicked = panics
to_answer no_fuel = unfinished

abbrev pub with_copied : Program → List ℕ → Memory × ℕ → Answer
with_copied p packet (m, n) =
    to_answer (pcapint_filter m p.stack_pointer p.ptr p.n p.pkt (u32 (length packet)) (u32 n))

-- `Match`: the packet, cut at the snapshot length, is copied into the memory and filtered. A
-- negative snapshot length, and a packet buffer outside of the memory, panic.
unfoldable pub match_packet : Program → List ℕ → Answer
match_packet p packet =
    if ltb p.snaplen 2147483648 && (ltb p.pkt 2147483648 && leb p.pkt p.memory.size)
    then with_copied p packet (copy_in p.memory p.pkt (take (min (length packet) p.snaplen) packet))
    else panics
