-- ===== src/Vm/Sim/Packet.antt =====
-- Reads of the packet and of the scratch words, as the specification has them.
use go_pcapfilter.Prelude.{ℕ, ◌+◌, ◌*◌, ◌<◌, ◌≤◌, ◌≡◌, none, some, arith, bit_or}
use go_pcapfilter.Wasm.Words.{IsU32, u32, add32, ntohl}
use go_pcapfilter.Wasm.Words.Swap.{word, ntohl-word}
use go_pcapfilter.Wasm.Words.Bits.{or_disjoint}
use go_pcapfilter.Wasm.Memory.{Memory, load8, load32}
use go_pcapfilter.Vm.Exec.{Call, Regs}
use go_pcapfilter.Vm.Spec.{State, big_endian_16, big_endian_32}
use go_pcapfilter.Vm.Sim.{Layout, Sim, input, byte_in_pkt}

module _ (c : Call) (m : Memory) (l : Layout c m) {r : Regs} {s : State} (sim : Sim c m r s) where
  pkt_room :
      (p n : ℕ)
      → p + n ≤ c.buflen
      → 0 < n
      → (add32 c.pkt p ≡ c.pkt + p) × (c.pkt + p + n ≤ r.memory.size)
  pkt_room p n h pos = omega (arith, l.pkt_in, l.size_bound, sim.frame.size)

  pub octet_in : (p : ℕ) → p < c.buflen → load8 r.memory (add32 c.pkt p) ≡ some (m.byte (c.pkt + p))
  unfolding load8
  octet_in p h = ground (arith, pkt_room p 1, byte_in_pkt c m l p sim.frame h)

  octet_after :
      (p : ℕ)
      → p + 1 < c.buflen
      → load8 r.memory (add32 c.pkt p + 1) ≡ some (m.byte (c.pkt + (p + 1)))
  unfolding load8
  octet_after p h = ground (arith, pkt_room p 2, byte_in_pkt c m l (p + 1) sim.frame h)

  word_in :
      (p : ℕ)
      → p + 4 ≤ c.buflen
      → load32 r.memory (add32 c.pkt p)
        ≡ some (
            word
              (m.byte (c.pkt + (p + 3)))
              (m.byte (c.pkt + (p + 2)))
              (m.byte (c.pkt + (p + 1)))
              (m.byte (c.pkt + p)))
  unfolding load32
  word_in p h = ground (
    arith,
    pkt_room p 4,
    byte_in_pkt c m l p sim.frame,
    byte_in_pkt c m l (p + 1) sim.frame,
    byte_in_pkt c m l (p + 2) sim.frame,
    byte_in_pkt c m l (p + 3) sim.frame,
  )

  pub slot_in : (k : ℕ) → k < 16 → load32 r.memory (add32 c.scratch (u32 (k * 4))) ≡ some (s.slot k)
  slot_in k h =
      let e : add32 c.scratch (u32 (k * 4)) ≡ c.scratch + 4 * k =
        omega (arith, l.scratch_in, l.size_bound) in
      rw e (sim.slots k h).0

  -- A big-endian word of the packet, or its end.
  swapped :
      (p : ℕ)
      → ntohl (
          word
            (m.byte (c.pkt + (p + 3)))
            (m.byte (c.pkt + (p + 2)))
            (m.byte (c.pkt + (p + 1)))
            (m.byte (c.pkt + p)))
        ≡ word
            (m.byte (c.pkt + p))
            (m.byte (c.pkt + (p + 1)))
            (m.byte (c.pkt + (p + 2)))
            (m.byte (c.pkt + (p + 3)))
  swapped p =
      ntohl-word (m.byte (c.pkt + (p + 3))) (m.byte (c.pkt + (p + 2))) (m.byte (c.pkt + (p + 1)))
        (m.byte (c.pkt + p)) (l.bytes.bytes _) (l.bytes.bytes _) (l.bytes.bytes _) (l.bytes.bytes _)

  joined :
      (p : ℕ)
      → bit_or (m.byte (c.pkt + p) * 256) (m.byte (c.pkt + (p + 1)))
        ≡ m.byte (c.pkt + p) * 256 + m.byte (c.pkt + (p + 1))
  joined p = or_disjoint 8 (m.byte (c.pkt + p)) (m.byte (c.pkt + (p + 1))) (l.bytes.bytes _)

  pub read_32 :
      (p : ℕ)
      → p + 4 ≤ c.buflen
      → (w : ℕ) × (load32 r.memory (add32 c.pkt p) ≡ some w)
        × (big_endian_32 (input c m) p ≡ some (ntohl w))
  unfolding big_endian_32 input
  read_32 p h = (_, word_in p h, ground (arith, swapped p))

  pub read_16 :
      (p : ℕ)
      → p + 2 ≤ c.buflen
      → (hi : ℕ) × (lo : ℕ) × (load8 r.memory (add32 c.pkt p) ≡ some hi)
        × (load8 r.memory (add32 c.pkt p + 1) ≡ some lo)
        × (big_endian_16 (input c m) p ≡ some (bit_or (hi * 256) lo))
  unfolding big_endian_16 input
  read_16 p h =
      (_, _, octet_in p (omega arith), octet_after p (omega arith), ground (arith, joined p))

  pub past_32 : (p : ℕ) → c.buflen < p + 4 → big_endian_32 (input c m) p ≡ none
  unfolding big_endian_32 input
  past_32 p h = ground arith

  pub past_16 : (p : ℕ) → c.buflen < p + 2 → big_endian_16 (input c m) p ≡ none
  unfolding big_endian_16 input
  past_16 p h = ground arith

  pub buflen_bound : c.buflen ≤ 4294967296
  buflen_bound = omega (arith, l.pkt_in, l.size_bound)

  pub octet_byte : (p v : ℕ) → (input c m).octet p ≡ some v → v < 256
  unfolding input
  octet_byte p v e = ground (arith, l.bytes.bytes (c.pkt + p))

  pub big_endian_32-IsU32 : (p v : ℕ) → big_endian_32 (input c m) p ≡ some v → IsU32 v
  unfolding big_endian_32 input
  big_endian_32-IsU32 p v e = ground (
    arith,
    l.bytes.bytes (c.pkt + p),
    l.bytes.bytes (c.pkt + (p + 1)),
    l.bytes.bytes (c.pkt + (p + 2)),
    l.bytes.bytes (c.pkt + (p + 3)),
  )

  pub big_endian_16-IsU32 : (p v : ℕ) → big_endian_16 (input c m) p ≡ some v → IsU32 v
  unfolding big_endian_16 input
  big_endian_16-IsU32 p v e =
      ground (arith, l.bytes.bytes (c.pkt + p), l.bytes.bytes (c.pkt + (p + 1)))
