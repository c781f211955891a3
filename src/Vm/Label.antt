-- ===== src/Vm/Label.antt =====
-- The switch on the 16-bit opcode. A label of the source is named for its instruction; `invalid` is
-- the default.
use go_pcapfilter.Prelude.{ℕ, List, [], ◌∷◌, ◌==◌, if◌then◌else◌, ◌++◌}

-- Where an instruction takes its second operand from: its constant `k`, or the index register.
pub data Operand : Type 0 where
  konst index : Operand

pub data Load : Type 0 where
  w_abs h_abs b_abs w_ind h_ind b_ind len imm mem : Load

pub data LoadX : Type 0 where
  imm mem msh len : LoadX

pub data Test : Type 0 where
  jgt jge jeq jset : Test

pub data Alu : Type 0 where
  add sub mul div mod_ and or xor lsh rsh : Alu

pub data Label : Type 0 where
  invalid ret_k ret_a st stx ja neg tax txa : Label
  load : Load → Label
  load_x : LoadX → Label
  jump : Test → Operand → Label
  alu : Alu → Operand → Label

unfoldable pub find_label : ℕ → List (ℕ × Label) → Label
find_label c [] = invalid
find_label c ((d, l) ∷ rest) = if c == d then l else find_label c rest

-- The cases 0 to 61 of the switch.
abbrev pub low_cases : List (ℕ × Label)
low_cases =
    (0, load Load.imm)
    ∷ (1, load_x LoadX.imm)
    ∷ (2, st)
    ∷ (3, stx)
    ∷ (4, alu Alu.add konst)
    ∷ (5, ja)
    ∷ (6, ret_k)
    ∷ (7, tax)
    ∷ (12, alu Alu.add index)
    ∷ (20, alu Alu.sub konst)
    ∷ (21, jump Test.jeq konst)
    ∷ (22, ret_a)
    ∷ (28, alu Alu.sub index)
    ∷ (29, jump Test.jeq index)
    ∷ (32, load Load.w_abs)
    ∷ (36, alu Alu.mul konst)
    ∷ (37, jump Test.jgt konst)
    ∷ (40, load Load.h_abs)
    ∷ (44, alu Alu.mul index)
    ∷ (45, jump Test.jgt index)
    ∷ (48, load Load.b_abs)
    ∷ (52, alu Alu.div konst)
    ∷ (53, jump Test.jge konst)
    ∷ (60, alu Alu.div index)
    ∷ (61, jump Test.jge index)
    ∷ []

-- The cases 64 to 177.
abbrev pub high_cases : List (ℕ × Label)
high_cases =
    (64, load Load.w_ind)
    ∷ (68, alu Alu.or konst)
    ∷ (69, jump Test.jset konst)
    ∷ (72, load Load.h_ind)
    ∷ (76, alu Alu.or index)
    ∷ (77, jump Test.jset index)
    ∷ (80, load Load.b_ind)
    ∷ (84, alu Alu.and konst)
    ∷ (92, alu Alu.and index)
    ∷ (96, load Load.mem)
    ∷ (97, load_x LoadX.mem)
    ∷ (100, alu Alu.lsh konst)
    ∷ (108, alu Alu.lsh index)
    ∷ (116, alu Alu.rsh konst)
    ∷ (124, alu Alu.rsh index)
    ∷ (128, load Load.len)
    ∷ (129, load_x LoadX.len)
    ∷ (132, neg)
    ∷ (135, txa)
    ∷ (148, alu Alu.mod_ konst)
    ∷ (156, alu Alu.mod_ index)
    ∷ (164, alu Alu.xor konst)
    ∷ (172, alu Alu.xor index)
    ∷ (177, load_x LoadX.msh)
    ∷ []

unfoldable pub label : ℕ → Label
unfolding find_label
label c = find_label c (low_cases ++ high_cases)
