-- ===== src/Vm/Sim.antt =====
-- How the registers and the memory of the compiled machine stand for a state of the specification.
pub mod Alu
pub mod Store
mod Packet
pub mod Load
pub mod Jump
use go_pcapfilter.Prelude.{
  ℕ, ◌+◌, ◌-◌, ◌*◌, ◌/◌, ◌%◌, ◌≤◌, ◌<◌, ◌≡◌, ◌⊎◌, ltb, if◌then◌else◌, Option, none, some, refl, ap,
  arith,
}
use native.Mathlib.Nat.{add-zero}
use go_pcapfilter.Instruction.{RawInstruction, instruction_at}
use go_pcapfilter.Wasm.Words.{IsU32, add32}
use go_pcapfilter.Wasm.Memory.{Memory, load8, load16, load32, le16, le32}
use go_pcapfilter.Wasm.Memory.Laws.{IsBytes, Apart}
use go_pcapfilter.Vm.Label.{Operand, konst, index}
use go_pcapfilter.Vm.Exec.{Call, Regs, Next, go, stop, operand, or_reject}
use go_pcapfilter.Vm.Spec.{Input, State, Effect, proceed, verdict, source, with_value}

-- The program, the packet and the scratch words lie inside the memory, the scratch words apart from
-- the other two, and the program ends 2,048 bytes below 2 ^ 32, so that no jump wraps around.
pub record Layout (c : Call) (m : Memory) : Type 0 where
  pub bytes : IsBytes m
  pub size_bound : m.size ≤ 4294967296
  pub count_bound : c.count ≤ 3060000
  pub prog_low : 8 ≤ c.prog
  pub prog_high : c.prog + 8 * c.count + 2048 ≤ 4294967296
  pub prog_in : c.prog + 8 * c.count ≤ m.size
  pub pkt_in : c.pkt + c.buflen ≤ m.size
  pub scratch_in : c.scratch + 64 ≤ m.size
  pub prog_apart : Apart c.prog (8 * c.count) c.scratch 64
  pub pkt_apart : Apart c.pkt c.buflen c.scratch 64
  pub wirelen_bound : IsU32 c.wirelen

-- The program and the packet that a call sees.
unfoldable pub input : Call → Memory → Input
input c m = record {
  fetch = λ i. if ltb i c.count then some (instruction_at m (c.prog + 8 * i)) else none;
  count = c.count;
  octet = λ j. if ltb j c.buflen then some (m.byte (c.pkt + j)) else none;
  wirelen = c.wirelen;
}

-- Only scratch memory has changed since `m`.
pub record Frame (c : Call) (m m' : Memory) : Type 0 where
  pub bytes : IsBytes m'
  pub size : m'.size ≡ m.size
  pub same : (b : ℕ) → Apart b 1 c.scratch 64 → m'.byte b ≡ m.byte b

abbrev pub Slots : Call → Memory → (ℕ → ℕ) → Type 0
Slots c m slot = (j : ℕ) → j < 16 → (load32 m (c.scratch + 4 * j) ≡ some (slot j)) × IsU32 (slot j)

pub record Sim (c : Call) (m : Memory) (r : Regs) (s : State) : Type 0 where
  pub frame : Frame c m r.memory
  pub slots : Slots c r.memory s.slot
  pub a_eq : r.a ≡ s.a
  pub x_eq : r.x ≡ s.x
  pub back_eq : r.back ≡ s.back
  pub pc_eq : r.pc ≡ c.prog + 8 * s.pc
  pub prev_eq : r.prev + 8 ≡ c.prog + 8 * s.pc
  pub a_bound : IsU32 s.a
  pub x_bound : IsU32 s.x
  pub back_bound : s.back ≤ 64
  pub pc_bound : s.pc < c.count

-- The registers at the label l41, where `pc` still lacks its 8 and `a` is in v6.
pub record SimNext (c : Call) (m : Memory) (a : ℕ) (r : Regs) (s : State) : Type 0 where
  pub frame : Frame c m r.memory
  pub slots : Slots c r.memory s.slot
  pub a_eq : a ≡ s.a
  pub x_eq : r.x ≡ s.x
  pub back_eq : r.back ≡ s.back
  pub pc_eq : r.pc + 8 ≡ c.prog + 8 * s.pc
  pub a_bound : IsU32 s.a
  pub x_bound : IsU32 s.x
  pub back_bound : s.back ≤ 64
  pub pc_bound : c.prog + 8 * s.pc < 4294967296

-- The compiled machine does what the specification says.
pub data Agrees (c : Call) (m : Memory) : Effect → Option Next → Type 0 where
  stops : (v : ℕ) {n : Option Next} → n ≡ some (stop v) → Agrees c m (verdict v) n
  goes :
      (s : State) (a : ℕ) (r : Regs) {n : Option Next}
      → n ≡ some (go a r)
      → SimNext c m a r s
      → Agrees c m (proceed s) n

pub stops_by :
    {c : Call} {m : Memory} {e : Effect} {n : Option Next} (v : ℕ)
    → e ≡ verdict v
    → n ≡ some (stop v)
    → Agrees c m e n
stops_by {c} {m} {n} v p q = rw p (stops v q)

pub goes_by :
    {c : Call} {m : Memory} {e : Effect} {n : Option Next} (s : State) (a : ℕ) (r : Regs)
    → e ≡ proceed s
    → n ≡ some (go a r)
    → SimNext c m a r s
    → Agrees c m e n
goes_by {c} {m} {n} s a r p q h = rw p (goes s a r q h)

module _ (c : Call) (m : Memory) (l : Layout c m) where
  byte_in_prog :
      {m' : Memory} (b : ℕ)
      → Frame c m m'
      → c.prog ≤ b
      → b < c.prog + 8 * c.count
      → m'.byte b ≡ m.byte b
  byte_in_prog {m'} b f lo hi = f.same b (outside l.prog_apart)
    where
      outside : Apart c.prog (8 * c.count) c.scratch 64 → Apart b 1 c.scratch 64
      outside h = omega arith

  pub byte_in_pkt :
      {m' : Memory} (j : ℕ) → Frame c m m' → j < c.buflen → m'.byte (c.pkt + j) ≡ m.byte (c.pkt + j)
  byte_in_pkt {m'} j f lt = f.same (c.pkt + j) (outside l.pkt_apart)
    where
      outside : Apart c.pkt c.buflen c.scratch 64 → Apart (c.pkt + j) 1 c.scratch 64
      outside h = omega arith

  -- The eight bytes of the instruction at `s.pc` are read as they were written.
  module _ {r : Regs} {s : State} (sim : Sim c m r s) where
    abbrev pub current : RawInstruction
    current = instruction_at m (c.prog + 8 * s.pc)

    same_byte :
        (d : ℕ) → d < 8 → r.memory.byte (c.prog + 8 * s.pc + d) ≡ m.byte (c.prog + 8 * s.pc + d)
    same_byte d h =
        byte_in_prog (c.prog + 8 * s.pc + d) sim.frame (omega arith) (omega (arith, sim.pc_bound))

    fits : c.prog + 8 * s.pc + 8 ≤ r.memory.size
    fits = omega (arith, sim.pc_bound, sim.frame.size, l.prog_in)

    pub load-op : load16 r.memory r.pc ≡ some current.op
    unfolding load16
    load-op = rw sim.pc_eq (
        ground (arith, fits, rw add-zero at (same_byte 0 (omega arith)), same_byte 1 (omega arith)))

    pub load-k : load32 r.memory (r.prev + 12) ≡ some current.k
    unfolding load32
    load-k =
        let e : r.prev + 12 ≡ c.prog + 8 * s.pc + 4 = omega (arith, sim.prev_eq) in
        rw e (
          ground (
            arith,
            fits,
            same_byte 4 (omega arith),
            same_byte 5 (omega arith),
            same_byte 6 (omega arith),
            same_byte 7 (omega arith),
          ))

    pub load-jt : load8 r.memory (add32 r.prev 10) ≡ some current.jt
    unfolding load8
    load-jt =
        let e : add32 r.prev 10 ≡ c.prog + 8 * s.pc + 2 =
          omega (arith, sim.prev_eq, sim.pc_bound, l.prog_high) in
        rw e (ground (arith, fits, same_byte 2 (omega arith)))

    pub load-jf : load8 r.memory (add32 r.prev 11) ≡ some current.jf
    unfolding load8
    load-jf =
        let e : add32 r.prev 11 ≡ c.prog + 8 * s.pc + 3 =
          omega (arith, sim.prev_eq, sim.pc_bound, l.prog_high) in
        rw e (ground (arith, fits, same_byte 3 (omega arith)))

    pub k_bound : IsU32 current.k
    k_bound = omega (
      arith,
      l.bytes.bytes (c.prog + 8 * s.pc + 4),
      l.bytes.bytes (c.prog + 8 * s.pc + 4 + 1),
      l.bytes.bytes (c.prog + 8 * s.pc + 4 + 2),
      l.bytes.bytes (c.prog + 8 * s.pc + 4 + 3),
    )

    -- On to the next instruction with a new accumulator, or a new index register.
    pub next_a : (v : ℕ) → IsU32 v → SimNext c m v r (record s { pc = s.pc + 1; a = v })
    next_a v h = record {
      frame = sim.frame;
      slots = sim.slots;
      a_eq = refl;
      x_eq = sim.x_eq;
      back_eq = sim.back_eq;
      pc_eq = omega (arith, sim.pc_eq);
      a_bound = h;
      x_bound = sim.x_bound;
      back_bound = sim.back_bound;
      pc_bound = omega (arith, sim.pc_bound, l.prog_high);
    }

    pub next_x :
        (v : ℕ) → IsU32 v → SimNext c m r.a (record r { x = v }) (record s { pc = s.pc + 1; x = v })
    next_x v h = record {
      frame = sim.frame;
      slots = sim.slots;
      a_eq = sim.a_eq;
      x_eq = refl;
      back_eq = sim.back_eq;
      pc_eq = omega (arith, sim.pc_eq);
      a_bound = sim.a_bound;
      x_bound = h;
      back_bound = sim.back_bound;
      pc_bound = omega (arith, sim.pc_bound, l.prog_high);
    }

    -- A fallible value that is put into the accumulator, or rejects the packet.
    pub value_Agrees :
        (v : Option ℕ)
        → ((u : ℕ) → v ≡ some u → IsU32 u)
        → Agrees c m (with_value v λ u. record s { pc = s.pc + 1; a = u }) (some (or_reject v r))
    value_Agrees none h = stops 0 refl
    value_Agrees (some u) h =
        goes (record s { pc = s.pc + 1; a = u }) u r refl (next_a u (h u refl))

    pub operand-source : (o : Operand) → operand r o ≡ some (source s current.k o)
    operand-source konst = load-k
    operand-source index = ap some sim.x_eq

    pub source_bound : (o : Operand) → IsU32 (source s current.k o)
    source_bound konst = k_bound
    source_bound index = sim.x_bound
