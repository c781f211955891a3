-- ===== src/Program/Ready.antt =====
-- What `Compile` hands over: where the program, the packet buffer and the scratch words lie.
use go_pcapfilter.Prelude.{◌+◌, ◌-◌, ◌*◌, ◌≤◌, ◌<◌}
use go_pcapfilter.Wasm.Memory.Laws.{IsBytes, Apart}
use go_pcapfilter.Program.{Program}

-- The three regions are inside the memory and apart from one another. The program ends 2,048 bytes
-- below 2 ^ 31, and has as many instructions as the filter accepts.
pub record IsReady (p : Program) : Type 0 where
  pub bytes : IsBytes p.memory
  pub size_bound : p.memory.size ≤ 4294967296
  pub n_pos : 0 < p.n
  pub n_bound : p.n ≤ 3060000
  pub ptr_low : 8 ≤ p.ptr
  pub ptr_high : p.ptr + 8 * p.n + 2048 ≤ 2147483648
  pub ptr_in : p.ptr + 8 * p.n ≤ p.memory.size
  pub pkt_high : p.pkt < 2147483648
  pub snaplen_high : p.snaplen < 2147483648
  pub pkt_in : p.pkt + p.snaplen ≤ p.memory.size
  pub stack_low : 64 ≤ p.stack_pointer
  pub stack_high : p.stack_pointer < 4294967296
  pub stack_in : p.stack_pointer ≤ p.memory.size
  pub ptr_stack : Apart p.ptr (8 * p.n) (p.stack_pointer - 64) 64
  pub pkt_stack : Apart p.pkt p.snaplen (p.stack_pointer - 64) 64
  pub ptr_pkt : Apart p.ptr (8 * p.n) p.pkt p.snaplen
