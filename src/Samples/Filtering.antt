-- ===== src/Samples/Filtering.antt =====
-- A filter that accepts packets whose first byte is 7, in a memory of 300 bytes.
use go_pcapfilter.Prelude.{ℕ, ◌-◌, ◌≡◌, ◌==◌, not, List, [], ◌∷◌, some, length, refl, inl, arith}
use go_pcapfilter.Wasm.Memory.{Memory, load8, load16, load32, cell_or}
use go_pcapfilter.Instruction.{RawInstruction}
use go_pcapfilter.Vm.Run.{returned, pcapint_filter, enough}
use go_pcapfilter.Vm.Spec.{eval, initial}
use go_pcapfilter.Vm.Sim.{Layout, Frame, input}
use go_pcapfilter.Vm.Filter.{call_of, pcapint_filter-eval}
use go_pcapfilter.Program.{
  Program, answer, instructions, read_from, read_instruction, bytes, match_packet,
}
use go_pcapfilter.Program.Ready.{IsReady}
use go_pcapfilter.Program.Instructions.{instructions-bytes, parse}
use go_pcapfilter.Program.Match.{match_packet-eval, listed}
use go_pcapfilter.Program.Match.Kept.{cell_or-IsByte}

-- ldb [0]; jeq #7 jt 0 jf 1; ret #64; ret #0
abbrev code_bytes : List ℕ
code_bytes =
    48 ∷ 0 ∷ 0 ∷ 0 ∷ 0 ∷ 0 ∷ 0 ∷ 0 ∷ 21 ∷ 0 ∷ 0 ∷ 1 ∷ 7 ∷ 0 ∷ 0 ∷ 0 ∷ 6 ∷ 0 ∷ 0 ∷ 0 ∷ 64 ∷ 0 ∷ 0 ∷ 0
    ∷ 6 ∷ 0 ∷ 0 ∷ 0 ∷ 0 ∷ 0 ∷ 0 ∷ 0 ∷ []

abbrev pub small_memory : Memory
small_memory = record { size = 300; byte = λ a. cell_or code_bytes (a - 8) 0 }

abbrev pub small_program : Program
small_program = record {
  memory = small_memory;
  stack_pointer = 280;
  n = 4;
  ptr = 8;
  pkt = 100;
  snaplen = 20;
}

pub small_IsReady : IsReady small_program
small_IsReady = record {
  bytes = record { bytes = λ a. cell_or-IsByte code_bytes (a - 8) (omega arith) };
  size_bound = omega arith;
  n_pos = omega arith;
  n_bound = omega arith;
  ptr_low = omega arith;
  ptr_high = omega arith;
  ptr_in = omega arith;
  pkt_high = omega arith;
  snaplen_high = omega arith;
  pkt_in = omega arith;
  stack_low = omega arith;
  stack_high = omega arith;
  stack_in = omega arith;
  ptr_stack = inl (omega arith);
  pkt_stack = inl (omega arith);
  ptr_pkt = inl (omega arith);
}

abbrev small_insns : List RawInstruction
small_insns =
    record { op = 48; jt = 0; jf = 0; k = 0 }
    ∷ record { op = 21; jt = 0; jf = 1; k = 7 }
    ∷ record { op = 6; jt = 0; jf = 0; k = 64 }
    ∷ record { op = 6; jt = 0; jf = 0; k = 0 }
    ∷ []

small_instructions : instructions small_program ≡ some small_insns
unfolding instructions read_from read_instruction load8 load16 load32
small_instructions = refl

match_packet-eval_example :
    (v : ℕ) × (m : Memory) × (match_packet small_program (7 ∷ 1 ∷ []) ≡ answer (not (v == 0)) m)
    × (eval (enough 4) (listed small_insns (7 ∷ 1 ∷ []) 2) initial ≡ some v)
    × IsReady (record small_program { memory = m })
    × (instructions (record small_program { memory = m }) ≡ some small_insns)
match_packet-eval_example =
    match_packet-eval small_program small_IsReady (7 ∷ 1 ∷ []) (omega arith) (omega arith)
      small_insns small_instructions

instructions-bytes_example :
    (bs : List ℕ) × (bytes small_program ≡ some bs)
    × (length bs ≡ 32)
    × (instructions small_program ≡ some (parse bs))
instructions-bytes_example = instructions-bytes small_program small_IsReady

abbrev pub SmallCallLayout : Type 0
SmallCallLayout = Layout (call_of 280 8 4 100 20 20) small_memory

pub small_Layout : SmallCallLayout
small_Layout = record {
  bytes = small_IsReady.bytes;
  size_bound = omega arith;
  count_bound = omega arith;
  prog_low = omega arith;
  prog_high = omega arith;
  prog_in = omega arith;
  pkt_in = omega arith;
  scratch_in = omega arith;
  prog_apart = inl (omega arith);
  pkt_apart = inl (omega arith);
  wirelen_bound = omega arith;
}

pcapint_filter-eval_example :
    (v : ℕ) × (m' : Memory) × (pcapint_filter small_memory 280 8 4 100 20 20 ≡ returned v m')
    × (eval (enough 4) (input (call_of 280 8 4 100 20 20) small_memory) initial ≡ some v)
    × Frame (call_of 280 8 4 100 20 20) small_memory m'
pcapint_filter-eval_example =
    pcapint_filter-eval small_memory 280 8 4 100 20 20 small_Layout (omega arith)
