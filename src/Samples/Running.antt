-- ===== src/Samples/Running.antt =====
-- `String` of a program of two instructions, with a disassembler that shows the last digit of the
-- operation.
use go_pcapfilter.Prelude.{ℕ, ◌+◌, ◌%◌, ◌≡◌, inl, inr, List, [], ◌∷◌, some, refl, arith}
use go_pcapfilter.Wasm.Memory.{Memory, put, load8, load16, load32}
use go_pcapfilter.Wasm.Memory.Laws.{put-IsBytes}
use go_pcapfilter.Instruction.{RawInstruction, instruction_at}
use go_pcapfilter.Netdb.Stack.{cstr-Spells}
use go_pcapfilter.Program.{Program, instructions, read_from, read_instruction}
use go_pcapfilter.Program.Ready.{IsReady}
use go_pcapfilter.Program.Text.{
  Image, IsImage, KeepsProgram, shown, joined, program_string, program_string-joined,
}

abbrev digit : RawInstruction → ℕ
digit insn = 48 + insn.op % 10

abbrev show_digit : RawInstruction → ℕ → List ℕ
show_digit insn i = digit insn ∷ []

abbrev with_digit : Memory → RawInstruction → Memory
with_digit m insn = put 1 (put 1 m 100 (digit insn)) 101 0

abbrev digit_image : Image
digit_image m a i = some (with_digit m (instruction_at m a), 100)

-- It needs no data.
abbrev NoData : Memory → Type 0
NoData m = Unit

digit_IsImage : IsImage NoData show_digit digit_image
digit_IsImage = record {
  shows = λ m a i loaded w low high above inside below. (
    with_digit m (instruction_at m a),
    100,
    refl,
    put-IsBytes 1 101 0 (put-IsBytes 1 100 (digit (instruction_at m a)) w),
    (tt, refl, λ c le. ground arith),
    cstr-Spells (with_digit m (instruction_at m a)) 100 (digit (instruction_at m a) ∷ []) high
        (ground arith, omega arith, omega arith, (omega arith, ground arith)),
  );
}

-- `ldh [0]`, and then `ret #0`.
abbrev two_program : Program
two_program = record {
  memory = put 1 (put 1 (record { size = 131072; byte = λ _. 0 }) 127840 40) 127848 6;
  stack_pointer = 65536;
  n = 2;
  ptr = 127840;
  pkt = 127856;
  snaplen = 64;
}

two_IsReady : IsReady two_program
two_IsReady = record {
  bytes = put-IsBytes 1 127848 6 (put-IsBytes 1 127840 40 (record { bytes = λ _. omega arith }));
  size_bound = omega arith;
  n_pos = omega arith;
  n_bound = omega arith;
  ptr_low = omega arith;
  ptr_high = omega arith;
  ptr_in = omega arith;
  pkt_high = omega arith;
  snaplen_high = omega arith;
  pkt_in = omega arith;
  stack_low = omega arith;
  stack_high = omega arith;
  stack_in = omega arith;
  ptr_stack = inr (omega arith);
  pkt_stack = inr (omega arith);
  ptr_pkt = inl (omega arith);
}

abbrev two_insns : List RawInstruction
two_insns =
    record { op = 40; jt = 0; jf = 0; k = 0 } ∷ record { op = 6; jt = 0; jf = 0; k = 0 } ∷ []

two_read : instructions two_program ≡ some two_insns
unfolding instructions read_from read_instruction load8 load16 load32
two_read = refl

program_string-joined_example :
    (m' : Memory) × (program_string digit_image two_program
      ≡ some (joined (shown show_digit 0 two_insns), m'))
    × KeepsProgram NoData two_program.memory m'
program_string-joined_example =
    program_string-joined NoData show_digit digit_image digit_IsImage two_program two_insns
      two_IsReady tt (omega arith) (omega arith) (omega arith) two_read

two_lines : joined (shown show_digit 0 two_insns) ≡ 48 ∷ 10 ∷ 54 ∷ []
two_lines = refl
