-- ===== src/Compile/Fresh.antt =====
-- The machine before the first call.
use go_pcapfilter.Prelude.{ℕ, ◌+◌, ◌≤◌, ◌≡◌, inl, some, arith, refl, ◌∙◌}
use go_pcapfilter.Wasm.Memory.{Memory, load32}
use go_pcapfilter.Heap.Arena.{IsHeap, Keeps}
use go_pcapfilter.Machine.{Machine, failed_word, program_struct}
use go_pcapfilter.Machine.Contract.{IsRunning}
use go_pcapfilter.Machine.Handles.{load32-Keeps}

-- A machine as `New` makes it: the heap lies past the static data, no handle has failed, no program
-- is compiled, and the stack is empty.
pub record IsFresh (start : Machine) (b : ℕ) : Type 0 where
  pub heap : IsHeap start.memory b
  pub static : 127840 ≤ b
  pub unfailed : load32 start.memory failed_word ≡ some 0
  pub empty : load32 start.memory (program_struct + 4) ≡ some 0
  pub stack : start.stack_pointer ≡ 65536

word-kept :
    (start : Machine) (b a : ℕ) (m : Memory)
    → IsFresh start b
    → Keeps b start.memory m
    → 127528 ≤ a
    → a + 4 ≤ 127840
    → load32 start.memory a ≡ some 0
    → load32 m a ≡ some 0
word-kept start b a m f keeps low hi zeroed =
    load32-Keeps start.memory m b a keeps low (omega (arith, f.static))
      (omega (arith, f.heap.arena.low))
    ∙ zeroed

-- Neither the text of the filter nor what the allocator writes gives the structure a program.
pub stored-empty :
    (start : Machine) (b : ℕ) (m : Memory)
    → IsFresh start b
    → Keeps b start.memory m
    → load32 m (program_struct + 4) ≡ some 0
stored-empty start b m f keeps =
    word-kept start b (program_struct + 4) m f keeps (omega arith) (omega arith) f.empty

pub stored-IsRunning :
    (start : Machine) (b e : ℕ) (m : Memory)
    → IsFresh start b
    → IsHeap m e
    → b ≤ e
    → Keeps b start.memory m
    → IsRunning 65536 e (record start { memory = m })
stored-IsRunning start b e m f h le keeps = record {
  usable = record {
    bytes = h.arena.bytes;
    low = h.arena.low;
    high = h.arena.high;
    failed = 0;
    failed_read = word-kept start b failed_word m f keeps (omega arith) (omega arith) f.unfailed;
    failed_handle = inl refl;
  };
  heap = h;
  static = omega (arith, f.static);
  stack = f.stack;
}
