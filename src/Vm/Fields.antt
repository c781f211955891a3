-- ===== src/Vm/Fields.antt =====
-- The opcode by its fields, as the encoding of BPF has them: the class in the three low bits; the
-- size and the mode of a load above them; the source of the operand and the operation elsewhere.
pub mod Cases
use go_pcapfilter.Prelude.{ℕ, zero, suc, ◌/◌, ◌%◌, leb, ◌==◌, if◌then◌else◌, List, [], ◌∷◌}
use go_pcapfilter.Vm.Label.{
  Operand, konst, index, Load, LoadX, Test, Alu, Label, invalid, ret_k, ret_a, st, stx, ja, neg,
  tax, txa, load, load_x, jump, alu,
}

-- The entry at a place, or `invalid` past the end.
abbrev pub nth_label : ℕ → List Label → Label
nth_label n [] = invalid
nth_label zero (l ∷ ls) = l
nth_label (suc n) (l ∷ ls) = nth_label n ls

abbrev pub source : ℕ → Operand
source s = if s == 0 then konst else index

-- Sizes: word, half word, byte. Modes: constant, absolute, indirect, scratch memory, length.
abbrev pub load_of : ℕ → ℕ → Label
load_of mode size = nth_label mode (
    nth_label size (load Load.imm ∷ [])
    ∷ nth_label size (load Load.w_abs ∷ load Load.h_abs ∷ load Load.b_abs ∷ [])
    ∷ nth_label size (load Load.w_ind ∷ load Load.h_ind ∷ load Load.b_ind ∷ [])
    ∷ nth_label size (load Load.mem ∷ [])
    ∷ nth_label size (load Load.len ∷ [])
    ∷ [])

-- The header length of IPv4 has a mode of its own, with the size of a byte.
abbrev pub load_x_of : ℕ → ℕ → Label
load_x_of mode size = nth_label mode (
    nth_label size (load_x LoadX.imm ∷ [])
    ∷ invalid
    ∷ invalid
    ∷ nth_label size (load_x LoadX.mem ∷ [])
    ∷ nth_label size (load_x LoadX.len ∷ [])
    ∷ nth_label size (invalid ∷ invalid ∷ load_x LoadX.msh ∷ [])
    ∷ [])

abbrev pub alu_of : ℕ → Operand → Label
alu_of op o = nth_label op (
    alu Alu.add o
    ∷ alu Alu.sub o
    ∷ alu Alu.mul o
    ∷ alu Alu.div o
    ∷ alu Alu.or o
    ∷ alu Alu.and o
    ∷ alu Alu.lsh o
    ∷ alu Alu.rsh o
    ∷ elim o [ konst ↦ neg | index ↦ invalid ]
    ∷ alu Alu.mod_ o
    ∷ alu Alu.xor o
    ∷ [])

abbrev pub jump_of : ℕ → Operand → Label
jump_of op o = nth_label op (
    elim o [ konst ↦ ja | index ↦ invalid ]
    ∷ jump Test.jeq o
    ∷ jump Test.jgt o
    ∷ jump Test.jge o
    ∷ jump Test.jset o
    ∷ [])

-- Classes: load, load to the index register, store, store of the index register, arithmetic, jump,
-- return, transfer between the registers. An opcode of more than eight bits is not valid.
abbrev pub decode : ℕ → Label
decode op =
    if leb 256 op
    then invalid
    else nth_label (op % 8) (
        load_of (op / 32) (op / 8 % 4)
        ∷ load_x_of (op / 32) (op / 8 % 4)
        ∷ nth_label (op / 8) (st ∷ [])
        ∷ nth_label (op / 8) (stx ∷ [])
        ∷ alu_of (op / 16) (source (op / 8 % 2))
        ∷ jump_of (op / 16) (source (op / 8 % 2))
        ∷ nth_label (op / 8) (ret_k ∷ invalid ∷ ret_a ∷ [])
        ∷ (if op / 8 == 0 then tax else if op / 8 == 16 then txa else invalid)
        ∷ [])
