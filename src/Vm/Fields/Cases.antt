-- ===== src/Vm/Fields/Cases.antt =====
-- The cases of the switch on the opcode are those that its fields name.
use go_pcapfilter.Prelude.{
  ℕ, ◌≡◌, refl, Bool, true, leb, ◌==◌, ==_iff, List, [], ◌∷◌, arith, ap, sym, ◌∙◌, Bool-cases, inl,
  inr,
}
use go_pcapfilter.Wasm.Words.Bits.{passes_to, passes_to_sound}
use go_pcapfilter.Vm.Label.{
  konst, index, Load, LoadX, Test, Alu, Label, find_label, label, invalid, ret_k, ret_a, st, stx,
  ja, neg, tax, txa, load, load_x, jump, alu,
}
use go_pcapfilter.Vm.Fields.{nth_label, decode}
use go_pcapfilter.Vm.Validate.Table.{label-above}

abbrev labels : List Label
labels =
    invalid
    ∷ ret_k
    ∷ ret_a
    ∷ st
    ∷ stx
    ∷ ja
    ∷ neg
    ∷ tax
    ∷ txa
    ∷ load Load.w_abs
    ∷ load Load.h_abs
    ∷ load Load.b_abs
    ∷ load Load.w_ind
    ∷ load Load.h_ind
    ∷ load Load.b_ind
    ∷ load Load.len
    ∷ load Load.imm
    ∷ load Load.mem
    ∷ load_x LoadX.imm
    ∷ load_x LoadX.mem
    ∷ load_x LoadX.msh
    ∷ load_x LoadX.len
    ∷ jump Test.jgt konst
    ∷ jump Test.jgt index
    ∷ jump Test.jge konst
    ∷ jump Test.jge index
    ∷ jump Test.jeq konst
    ∷ jump Test.jeq index
    ∷ jump Test.jset konst
    ∷ jump Test.jset index
    ∷ alu Alu.add konst
    ∷ alu Alu.add index
    ∷ alu Alu.sub konst
    ∷ alu Alu.sub index
    ∷ alu Alu.mul konst
    ∷ alu Alu.mul index
    ∷ alu Alu.div konst
    ∷ alu Alu.div index
    ∷ alu Alu.mod_ konst
    ∷ alu Alu.mod_ index
    ∷ alu Alu.and konst
    ∷ alu Alu.and index
    ∷ alu Alu.or konst
    ∷ alu Alu.or index
    ∷ alu Alu.xor konst
    ∷ alu Alu.xor index
    ∷ alu Alu.lsh konst
    ∷ alu Alu.lsh index
    ∷ alu Alu.rsh konst
    ∷ alu Alu.rsh index
    ∷ []

abbrev label_code : Label → ℕ
label_code invalid = 0
label_code ret_k = 1
label_code ret_a = 2
label_code st = 3
label_code stx = 4
label_code ja = 5
label_code neg = 6
label_code tax = 7
label_code txa = 8
label_code (load Load.w_abs) = 9
label_code (load Load.h_abs) = 10
label_code (load Load.b_abs) = 11
label_code (load Load.w_ind) = 12
label_code (load Load.h_ind) = 13
label_code (load Load.b_ind) = 14
label_code (load Load.len) = 15
label_code (load Load.imm) = 16
label_code (load Load.mem) = 17
label_code (load_x LoadX.imm) = 18
label_code (load_x LoadX.mem) = 19
label_code (load_x LoadX.msh) = 20
label_code (load_x LoadX.len) = 21
label_code (jump Test.jgt konst) = 22
label_code (jump Test.jgt index) = 23
label_code (jump Test.jge konst) = 24
label_code (jump Test.jge index) = 25
label_code (jump Test.jeq konst) = 26
label_code (jump Test.jeq index) = 27
label_code (jump Test.jset konst) = 28
label_code (jump Test.jset index) = 29
label_code (alu Alu.add konst) = 30
label_code (alu Alu.add index) = 31
label_code (alu Alu.sub konst) = 32
label_code (alu Alu.sub index) = 33
label_code (alu Alu.mul konst) = 34
label_code (alu Alu.mul index) = 35
label_code (alu Alu.div konst) = 36
label_code (alu Alu.div index) = 37
label_code (alu Alu.mod_ konst) = 38
label_code (alu Alu.mod_ index) = 39
label_code (alu Alu.and konst) = 40
label_code (alu Alu.and index) = 41
label_code (alu Alu.or konst) = 42
label_code (alu Alu.or index) = 43
label_code (alu Alu.xor konst) = 44
label_code (alu Alu.xor index) = 45
label_code (alu Alu.lsh konst) = 46
label_code (alu Alu.lsh index) = 47
label_code (alu Alu.rsh konst) = 48
label_code (alu Alu.rsh index) = 49

label_code_inverse : (l : Label) → nth_label (label_code l) labels ≡ l
label_code_inverse invalid = refl
label_code_inverse ret_k = refl
label_code_inverse ret_a = refl
label_code_inverse st = refl
label_code_inverse stx = refl
label_code_inverse ja = refl
label_code_inverse neg = refl
label_code_inverse tax = refl
label_code_inverse txa = refl
label_code_inverse (load Load.w_abs) = refl
label_code_inverse (load Load.h_abs) = refl
label_code_inverse (load Load.b_abs) = refl
label_code_inverse (load Load.w_ind) = refl
label_code_inverse (load Load.h_ind) = refl
label_code_inverse (load Load.b_ind) = refl
label_code_inverse (load Load.len) = refl
label_code_inverse (load Load.imm) = refl
label_code_inverse (load Load.mem) = refl
label_code_inverse (load_x LoadX.imm) = refl
label_code_inverse (load_x LoadX.mem) = refl
label_code_inverse (load_x LoadX.msh) = refl
label_code_inverse (load_x LoadX.len) = refl
label_code_inverse (jump Test.jgt konst) = refl
label_code_inverse (jump Test.jgt index) = refl
label_code_inverse (jump Test.jge konst) = refl
label_code_inverse (jump Test.jge index) = refl
label_code_inverse (jump Test.jeq konst) = refl
label_code_inverse (jump Test.jeq index) = refl
label_code_inverse (jump Test.jset konst) = refl
label_code_inverse (jump Test.jset index) = refl
label_code_inverse (alu Alu.add konst) = refl
label_code_inverse (alu Alu.add index) = refl
label_code_inverse (alu Alu.sub konst) = refl
label_code_inverse (alu Alu.sub index) = refl
label_code_inverse (alu Alu.mul konst) = refl
label_code_inverse (alu Alu.mul index) = refl
label_code_inverse (alu Alu.div konst) = refl
label_code_inverse (alu Alu.div index) = refl
label_code_inverse (alu Alu.mod_ konst) = refl
label_code_inverse (alu Alu.mod_ index) = refl
label_code_inverse (alu Alu.and konst) = refl
label_code_inverse (alu Alu.and index) = refl
label_code_inverse (alu Alu.or konst) = refl
label_code_inverse (alu Alu.or index) = refl
label_code_inverse (alu Alu.xor konst) = refl
label_code_inverse (alu Alu.xor index) = refl
label_code_inverse (alu Alu.lsh konst) = refl
label_code_inverse (alu Alu.lsh index) = refl
label_code_inverse (alu Alu.rsh konst) = refl
label_code_inverse (alu Alu.rsh index) = refl

label_code-injective : (k l : Label) → (label_code k == label_code l) ≡ true → k ≡ l
label_code-injective k l h =
    let same : label_code k ≡ label_code l = (==_iff _ _).0 h in
    sym (label_code_inverse k) ∙ ap (λ (n : ℕ). nth_label n labels) same ∙ label_code_inverse l

row : ℕ → Bool
row op = label_code (label op) == label_code (decode op)

row_table : passes_to row 255 ≡ true
unfolding passes_to row label find_label
row_table = refl

-- The switch on the opcode goes to the code of the instruction that the fields of the opcode name,
-- for every opcode, and to its default for an opcode that names none.
pub label-decode : (op : ℕ) → label op ≡ decode op
unfolding row
label-decode op = elim (Bool-cases (leb 256 op)) [
  | inl far ↦ rw far (label-above op (ground arith))
  | inr near ↦
      label_code-injective (label op) (decode op)
        (passes_to_sound row 255 op (ground arith) row_table)
]
