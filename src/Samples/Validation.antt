-- ===== src/Samples/Validation.antt =====
-- The small program of four instructions, validated.
use go_pcapfilter.Prelude.{◌≡◌, ◌≢◌, true, some, refl, arith}
use go_pcapfilter.Wasm.Memory.{load8, load16, load32}
use go_pcapfilter.Instruction.{RawInstruction}
use go_pcapfilter.Vm.Label.{label, find_label, invalid}
use go_pcapfilter.Vm.Spec.{State, perform, loaded, initial}
use go_pcapfilter.Vm.Sim.{input}
use go_pcapfilter.Vm.Filter.{call_of}
use go_pcapfilter.Vm.Fields.{decode}
use go_pcapfilter.Vm.Fields.Cases.{label-decode}
use go_pcapfilter.Vm.Validate.{
  elem, check, passes_check, pcapint_valid_insn, jumps, valid_targets, valid_at, valid_end,
  validate_from, pcapint_validate_filter,
}
use go_pcapfilter.Vm.Validate.Table.{needs}
use go_pcapfilter.Vm.Validate.Checked.{allows}
use go_pcapfilter.Vm.Validate.Fine.{fine_program, validate_filter-fine}
use go_pcapfilter.Vm.Validate.Safe.{Reach, here, next, move, validate_filter-safe}
use go_pcapfilter.Samples.Filtering.{small_memory, small_Layout}

validate_filter-fine_example :
    pcapint_validate_filter small_memory 8 4 ≡ some (fine_program small_memory 8 4)
validate_filter-fine_example =
    validate_filter-fine small_memory 8 4
      (record { inside = omega arith; low = omega arith; count_bound = omega arith })
      small_Layout.bytes (omega arith)

small_accepted : pcapint_validate_filter small_memory 8 4 ≡ some true
unfolding pcapint_validate_filter validate_from valid_at valid_end valid_targets jumps
    pcapint_valid_insn passes_check check elem load8 load16 load32
small_accepted = refl

-- After the load.
abbrev loaded_state : State
loaded_state = record initial { pc = 1 }

small_reached : Reach (input (call_of 280 8 4 100 20 20) small_memory) initial loaded_state
unfolding input perform loaded label find_label
small_reached = next here (move (record { op = 48; jt = 0; jf = 0; k = 0 }) refl refl)

validate_filter-safe_example :
    (n : RawInstruction) × ((input (call_of 280 8 4 100 20 20) small_memory).fetch 1 ≡ some n)
    × (label n.op ≢ invalid)
    × (allows (needs (label n.op)) n.k ≡ true)
validate_filter-safe_example =
    validate_filter-safe (call_of 280 8 4 100 20 20) small_memory small_Layout (omega arith)
      small_accepted small_reached

label-decode_example : label 28 ≡ decode 28
label-decode_example = label-decode 28
