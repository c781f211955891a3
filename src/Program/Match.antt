-- ===== src/Program/Match.antt =====
-- `Match` runs the program that `Instructions` shows on the captured part of the packet.
pub mod Kept
use go_pcapfilter.Prelude.{
  ℕ, zero, suc, ◌+◌, ◌-◌, ◌*◌, ◌≤◌, ◌<◌, ◌≡◌, not, ◌&&◌, leb, ◌==◌, ltb, if◌then◌else◌, min, List,
  [], ◌∷◌, none, some, length, get_elem?, take, All, arith, refl, ap, sym, ◌∙◌, true, subst,
}
use mathlib.Core.Path.{fun_ext}
use go_pcapfilter.Wasm.Words.{IsByte, u32, sub32}
use go_pcapfilter.Wasm.Memory.{Memory, copy_in, cell_or}
use go_pcapfilter.Wasm.Memory.Laws.{IsBytes, Apart}
use go_pcapfilter.Instruction.{RawInstruction, instruction_at}
use go_pcapfilter.Vm.Exec.{Call}
use go_pcapfilter.Vm.Run.{enough, returned, pcapint_filter}
use go_pcapfilter.Vm.Spec.{Input, eval, initial}
use go_pcapfilter.Vm.Sim.{Layout, Frame, input}
use go_pcapfilter.Vm.Filter.{call_of, pcapint_filter-eval}
use go_pcapfilter.Program.{Program, answer, instructions, match_packet}
use go_pcapfilter.Program.Match.Kept.{
  get_elem?-cell_or, length-take, take-IsByte, cell_or-IsByte, Touched, Touched-IsReady,
  Touched-instruction, Touched-instructions,
}
use go_pcapfilter.Program.Ready.{IsReady}
use go_pcapfilter.Program.Instructions.{
  decoded, length-decoded, get_elem?-decoded, instructions-decoded,
}

-- The part of a packet that the filter sees.
abbrev pub captured : Program → List ℕ → List ℕ
captured p packet = take (min (length packet) p.snaplen) packet

-- A program and a packet, given as lists.
abbrev pub listed : List RawInstruction → List ℕ → ℕ → Input
listed insns packet wirelen = record {
  fetch = get_elem? insns;
  count = length insns;
  octet = get_elem? packet;
  wirelen = wirelen;
}

module _ (p : Program) (r : IsReady p) where
  module _ (packet : List ℕ) (octets : All IsByte packet) (short : length packet < 4294967296) where
    abbrev seen : List ℕ
    seen = captured p packet

    abbrev copied : Memory
    copied = (copy_in p.memory p.pkt seen).0

    length-seen : (length seen ≡ min (length packet) p.snaplen)
    length-seen = length-take (min (length packet) p.snaplen) packet (omega arith)

    count-copied : (copy_in p.memory p.pkt seen).1 ≡ length seen
    unfolding copy_in
    count-copied = omega (arith, length-seen, r.pkt_in)

    copied-Touched : Touched p copied
    unfolding copy_in
    copied-Touched = record {
      bytes = record {
        bytes = λ b.
            ground (
              arith,
              r.bytes.bytes b,
              cell_or-IsByte seen (b - p.pkt) (take-IsByte _ packet octets),
            );
      };
      size = refl;
      same = λ b h g. ground (arith, length-seen);
    }

    abbrev call : Call
    call = call_of p.stack_pointer p.ptr p.n p.pkt (length packet) (length seen)

    copied-Layout : Layout call copied
    copied-Layout =
        let t = copied-Touched in
        record {
          bytes = t.bytes;
          size_bound = omega (arith, t.size, r.size_bound);
          count_bound = r.n_bound;
          prog_low = r.ptr_low;
          prog_high = omega (arith, r.ptr_high);
          prog_in = omega (arith, t.size, r.ptr_in);
          pkt_in = omega (arith, t.size, r.pkt_in, length-seen);
          scratch_in = omega (arith, t.size, r.stack_low, r.stack_high, r.stack_in);
          prog_apart = prog_scratch r.ptr_stack;
          pkt_apart = pkt_scratch r.pkt_stack;
          wirelen_bound = short;
        }
      where
        prog_scratch :
            Apart p.ptr (8 * p.n) (p.stack_pointer - 64) 64
            → Apart p.ptr (8 * p.n) (sub32 p.stack_pointer 64) 64
        prog_scratch h = omega (arith, r.stack_low, r.stack_high)

        pkt_scratch :
            Apart p.pkt p.snaplen (p.stack_pointer - 64) 64
            → Apart p.pkt (length seen) (sub32 p.stack_pointer 64) 64
        pkt_scratch h = omega (arith, r.stack_low, r.stack_high, length-seen)

    fetch-listed :
        (j : ℕ)
        → (if ltb j p.n then some (instruction_at copied (p.ptr + 8 * j)) else none)
          ≡ get_elem? (decoded p.memory p.ptr 0 p.n) j
    fetch-listed j = ground (
      arith,
      get_elem?-decoded p.memory p.ptr 0 p.n j,
      Touched-instruction p r copied j copied-Touched,
    )

    octet-listed :
        (j : ℕ)
        → (if ltb j (length seen) then some (copied.byte (p.pkt + j)) else none) ≡ get_elem? seen j
    unfolding copy_in
    octet-listed j =
        let e : p.pkt + j - p.pkt ≡ j = omega arith in
        rw e (ground (arith, get_elem?-cell_or seen j, length-seen, r.pkt_in))

    input-listed : input call copied ≡ listed (decoded p.memory p.ptr 0 p.n) seen (length packet)
    unfolding input
    input-listed = λ i. record {
      fetch = fun_ext fetch-listed i;
      count = sym (length-decoded p.memory p.ptr 0 p.n) i;
      octet = fun_ext octet-listed i;
      wirelen = length packet;
    }

    Frame-Touched : (m : Memory) → Frame call copied m → Touched p m
    Frame-Touched m f = record {
      bytes = f.bytes;
      size = f.size ∙ copied-Touched.size;
      same = λ b h g. f.same b (off_stack b g) ∙ copied-Touched.same b h g;
    }
      where
        off_stack :
            (b : ℕ) → Apart b 1 (p.stack_pointer - 64) 64 → Apart b 1 (sub32 p.stack_pointer 64) 64
        off_stack b g = omega (arith, r.stack_low, r.stack_high)

    matched :
        (v : ℕ) (m : Memory)
        → pcapint_filter copied p.stack_pointer p.ptr p.n p.pkt (length packet) (length seen)
          ≡ returned v m
        → match_packet p packet ≡ answer (not (v == 0)) m
    unfolding match_packet
    matched v m e =
        let inside : (ltb p.snaplen 2147483648 && (ltb p.pkt 2147483648 && leb p.pkt p.memory.size))
            ≡ true =
          ground (arith, r.snaplen_high, r.pkt_high, r.pkt_in) in
        let wire : u32 (length packet) ≡ length packet = omega arith in
        let count : u32 (copy_in p.memory p.pkt seen).1 ≡ length seen =
          omega (arith, count-copied, length-seen) in
        rw (inside, wire, count, e) refl

    -- On a ready program and a packet of fewer than 2 ^ 32 bytes, `Match` answers what the
    -- specification says, within its fuel, of the instructions that `Instructions` returns and the
    -- packet cut at the snapshot length, with the uncut length as the wire length. It leaves the
    -- program ready, with the same instructions.
    pub match_packet-eval :
        (insns : List RawInstruction)
        → instructions p ≡ some insns
        → (v : ℕ) × (m : Memory) × (match_packet p packet ≡ answer (not (v == 0)) m)
          × (eval (enough (length insns)) (listed insns seen (length packet)) initial ≡ some v)
          × IsReady (record p { memory = m })
          × (instructions (record p { memory = m }) ≡ some insns)
    match_packet-eval insns h =
        let (v, m, runs, spec, frame) =
          pcapint_filter-eval copied p.stack_pointer p.ptr p.n p.pkt (length packet) (length seen)
            copied-Layout r.n_pos in
        let t = Frame-Touched m frame in
        let same : decoded p.memory p.ptr 0 p.n ≡ insns = cc (instructions-decoded p r) in
        let counted =
          subst (λ k. eval (enough k) (input call copied) initial ≡ some v)
            (sym (length-decoded p.memory p.ptr 0 p.n)) spec in
        let listed_spec =
          subst (λ l. eval (enough (length l)) (listed l seen (length packet)) initial ≡ some v)
            same (rw input-listed at counted) in
        (
          v,
          m,
          matched v m runs,
          listed_spec,
          Touched-IsReady p r m t,
          Touched-instructions p r m t ∙ h,
        )
