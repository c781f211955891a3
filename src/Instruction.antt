-- ===== src/Instruction.antt =====
-- filter.go: `RawInstruction`, and how eight bytes of memory are read as one.
use go_pcapfilter.Prelude.{ℕ, ◌+◌}
use go_pcapfilter.Wasm.Memory.{Memory, le16, le32}

pub record RawInstruction : Type 0 where
  pub op : ℕ  -- uint16
  pub jt : ℕ  -- uint8
  pub jf : ℕ  -- uint8
  pub k : ℕ  -- uint32

abbrev pub instruction_at : Memory → ℕ → RawInstruction
instruction_at m p = record {
  op = le16 m p;
  jt = m.byte (p + 2);
  jf = m.byte (p + 3);
  k = le32 m (p + 4);
}
