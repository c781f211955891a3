-- ===== src/Vm/Sim/Load.antt =====
-- The loads agree with the specification.
use go_pcapfilter.Prelude.{
  ℕ, ◌+◌, ◌*◌, ◌%◌, ◌<◌, ◌≡◌, Bool-cases, ltb, leb, if◌then◌else◌, Option, none, some, refl, arith,
  inl, inr, leb→le, ltb→lt, bit_and, ◌==◌, ==_iff,
}
use go_pcapfilter.Vm.Sim.Packet.{
  octet_in, slot_in, read_32, read_16, past_32, past_16, buflen_bound, octet_byte,
  big_endian_32-IsU32, big_endian_16-IsU32,
}
use go_pcapfilter.Wasm.Words.{IsU32, add32}
use go_pcapfilter.Wasm.Words.Bits.{passes_to, passes_to_sound}
use go_pcapfilter.Wasm.Memory.{Memory}
use go_pcapfilter.Vm.Label.{Load, LoadX}
use go_pcapfilter.Vm.Exec.{Call, Regs, Next, go, stop, or_reject, exec_load, exec_load_x}
use go_pcapfilter.Vm.Spec.{State, loaded, loaded_x, with_value}
use go_pcapfilter.Vm.Sim.{
  Layout, Sim, Agrees, current, load-k, k_bound, input, value_Agrees, next_x, goes, stops,
}

-- The four low bits of a byte, times 4.
msh_value : (b : ℕ) → b < 256 → bit_and (b * 4) 60 ≡ b % 16 * 4
unfolding passes_to
msh_value b h =
    (==_iff _ _).0
      (passes_to_sound (λ b. bit_and (b * 4) 60 == b % 16 * 4) 255 b (omega arith) refl)

-- As `or_reject`, for the index register.
abbrev or_reject_x : Option ℕ → Regs → Next
or_reject_x none r = stop 0
or_reject_x (some v) r = go r.a (record r { x = v })

module _ (c : Call) (m : Memory) (l : Layout c m) {r : Regs} {s : State} (sim : Sim c m r s) where
  abbrev k : ℕ
  k = (current c m l sim).k

  ind_address : s.x + k < c.buflen → add32 k r.x ≡ s.x + k
  ind_address h = omega (arith, sim.x_eq, (buflen_bound c m l sim))

  exec_load-loaded : (o : Load) → exec_load c r o ≡ some (or_reject (loaded (input c m) s k o) r)
  unfolding exec_load loaded
  exec_load-loaded Load.w_abs = rw (load-k c m l sim) (elim (Bool-cases (leb (k + 4) c.buflen)) [
    | inl inside ↦
        let (w, e, f) = read_32 c m l sim k (leb→le _ _ inside) in
        rw (e, f) (ground (arith, (buflen_bound c m l sim)))
    | inr outside ↦
        rw (past_32 c m l sim k (ground arith))
          (ground (arith, k_bound c m l sim, (buflen_bound c m l sim)))
  ])
  exec_load-loaded Load.h_abs = rw (load-k c m l sim) (elim (Bool-cases (leb (k + 2) c.buflen)) [
    | inl inside ↦
        let (hi, lo, e, f, g) = read_16 c m l sim k (leb→le _ _ inside) in
        rw (e, f, g) (ground (arith, (buflen_bound c m l sim)))
    | inr outside ↦
        rw (past_16 c m l sim k (ground arith))
          (ground (arith, k_bound c m l sim, (buflen_bound c m l sim)))
  ])
  exec_load-loaded Load.b_abs =
      rw (load-k c m l sim) (unfold input in ground (arith, octet_in c m l sim k))
  exec_load-loaded Load.w_ind =
      rw (load-k c m l sim) (elim (Bool-cases (leb (s.x + k + 4) c.buflen)) [
        | inl inside ↦
            let e : add32 k r.x ≡ s.x + k = ind_address (ground arith) in
            let (w, f, g) = read_32 c m l sim (s.x + k) (leb→le _ _ inside) in
            rw (e, f, g) (ground (arith, (buflen_bound c m l sim), sim.x_eq))
        | inr outside ↦
            rw (past_32 c m l sim (s.x + k) (ground arith))
              (ground (arith, k_bound c m l sim, sim.x_bound, sim.x_eq, (buflen_bound c m l sim)))
      ])
  exec_load-loaded Load.h_ind =
      rw (load-k c m l sim) (elim (Bool-cases (leb (s.x + k + 2) c.buflen)) [
        | inl inside ↦
            let e : add32 k r.x ≡ s.x + k = ind_address (ground arith) in
            let (hi, lo, f, g, h) = read_16 c m l sim (s.x + k) (leb→le _ _ inside) in
            rw (e, f, g, h) (ground (arith, (buflen_bound c m l sim), sim.x_eq))
        | inr outside ↦
            rw (past_16 c m l sim (s.x + k) (ground arith))
              (ground (arith, k_bound c m l sim, sim.x_bound, sim.x_eq, (buflen_bound c m l sim)))
      ])
  exec_load-loaded Load.b_ind = rw (load-k c m l sim) (elim (Bool-cases (ltb (s.x + k) c.buflen)) [
    | inl inside ↦
        let e : add32 (add32 c.pkt r.x) k ≡ add32 c.pkt (s.x + k) = omega (arith, sim.x_eq) in
        rw (e, octet_in c m l sim (s.x + k) (ltb→lt _ _ inside))
          (unfold input in ground (arith, (buflen_bound c m l sim), sim.x_eq))
    | inr outside ↦
        unfold input in
        ground (arith, k_bound c m l sim, sim.x_bound, sim.x_eq, (buflen_bound c m l sim))
  ])
  exec_load-loaded Load.len = unfold input in refl
  exec_load-loaded Load.imm = rw (load-k c m l sim) refl
  exec_load-loaded Load.mem = rw (load-k c m l sim) (ground (arith, slot_in c m l sim k))

  slot-IsU32 : (j v : ℕ) → (if ltb j 16 then some (s.slot j) else none) ≡ some v → IsU32 v
  slot-IsU32 j v e = ground (arith, λ (h : j < 16). (sim.slots j h).1)

  loaded-IsU32 : (o : Load) (v : ℕ) → loaded (input c m) s k o ≡ some v → IsU32 v
  unfolding loaded
  loaded-IsU32 Load.w_abs v e = big_endian_32-IsU32 c m l sim k v e
  loaded-IsU32 Load.h_abs v e = big_endian_16-IsU32 c m l sim k v e
  loaded-IsU32 Load.b_abs v e = omega (arith, octet_byte c m l sim k v e)
  loaded-IsU32 Load.w_ind v e = big_endian_32-IsU32 c m l sim (s.x + k) v e
  loaded-IsU32 Load.h_ind v e = big_endian_16-IsU32 c m l sim (s.x + k) v e
  loaded-IsU32 Load.b_ind v e = omega (arith, octet_byte c m l sim (s.x + k) v e)
  loaded-IsU32 Load.len v e = unfold input in ground (arith, l.wirelen_bound)
  loaded-IsU32 Load.imm v e = ground (arith, k_bound c m l sim)
  loaded-IsU32 Load.mem v e = slot-IsU32 k v e

  pub exec_load-Agrees :
      (o : Load)
      → Agrees c m
          (with_value
            (loaded (input c m) s (current c m l sim).k o)
            λ v. record s { pc = s.pc + 1; a = v })
          (exec_load c r o)
  exec_load-Agrees o =
      rw (exec_load-loaded o) (value_Agrees c m l sim (loaded (input c m) s k o) (loaded-IsU32 o))

  x_Agrees :
      (v : Option ℕ)
      → ((u : ℕ) → v ≡ some u → IsU32 u)
      → Agrees c m (with_value v λ u. record s { pc = s.pc + 1; x = u }) (some (or_reject_x v r))
  x_Agrees none h = stops 0 refl
  x_Agrees (some u) h = goes _ r.a (record r { x = u }) refl (next_x c m l sim u (h u refl))

  exec_load_x-loaded :
      (o : LoadX) → exec_load_x c r o ≡ some (or_reject_x (loaded_x (input c m) s k o) r)
  unfolding exec_load_x loaded_x
  exec_load_x-loaded LoadX.imm = rw (load-k c m l sim) refl
  exec_load_x-loaded LoadX.mem = rw (load-k c m l sim) (ground (arith, slot_in c m l sim k))
  exec_load_x-loaded LoadX.msh = rw (load-k c m l sim) (
      unfold input in
      ground
        (arith, octet_in c m l sim k, msh_value (m.byte (c.pkt + k)) (l.bytes.bytes (c.pkt + k))))
  exec_load_x-loaded LoadX.len = unfold input in refl

  loaded_x-IsU32 : (o : LoadX) (v : ℕ) → loaded_x (input c m) s k o ≡ some v → IsU32 v
  unfolding loaded_x
  loaded_x-IsU32 LoadX.imm v e = ground (arith, k_bound c m l sim)
  loaded_x-IsU32 LoadX.mem v e = slot-IsU32 k v e
  loaded_x-IsU32 LoadX.msh v e = unfold input in ground arith
  loaded_x-IsU32 LoadX.len v e = unfold input in ground (arith, l.wirelen_bound)

  pub exec_load_x-Agrees :
      (o : LoadX)
      → Agrees c m
          (with_value
            (loaded_x (input c m) s (current c m l sim).k o)
            λ v. record s { pc = s.pc + 1; x = v })
          (exec_load_x c r o)
  exec_load_x-Agrees o =
      rw (exec_load_x-loaded o) (x_Agrees (loaded_x (input c m) s k o) (loaded_x-IsU32 o))
