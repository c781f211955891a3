-- ===== src/Vm/Filter.antt =====
-- `Xpcapint_filter` as a whole: the guards, the cleared scratch memory and the run.
use native.Mathlib.Nat.{zero-div}
use go_pcapfilter.Prelude.{
  ℕ, ◌+◌, ◌-◌, ◌*◌, ◌/◌, ◌%◌, ◌^◌, ◌≤◌, ◌<◌, ◌≡◌, ◌≢◌, ◌⊎◌, ltb, ◌==◌, some, refl, false, arith,
  inl, inr, le→ltb, subst,
}
use go_pcapfilter.Wasm.Words.{IsU32, sub32, neg32}
use go_pcapfilter.Wasm.Memory.{Memory, load32, store64, put}
use go_pcapfilter.Wasm.Memory.Laws.{IsBytes, Apart, put-IsBytes}
use go_pcapfilter.Vm.Exec.{Call}
use go_pcapfilter.Vm.Run.{returned, clear_scratch, start, enough, pcapint_filter}
use go_pcapfilter.Vm.Spec.{eval, initial}
use go_pcapfilter.Vm.Sim.{Layout, Frame, Slots, Sim, input}
use go_pcapfilter.Vm.Refine.{run-eval}
use go_pcapfilter.Vm.Terminate.{eval_total}

-- Zero from `lo` up to `hi`, and as before elsewhere.
record Cleared (m m' : Memory) (lo hi : ℕ) : Type 0 where
  bytes : IsBytes m'
  size : m'.size ≡ m.size
  inside : (b : ℕ) → lo ≤ b → b < hi → m'.byte b ≡ 0
  outside : (b : ℕ) → (b < lo) ⊎ (hi ≤ b) → m'.byte b ≡ m.byte b

zero_digit : (k : ℕ) → 0 / 256 ^ k % 256 ≡ 0
zero_digit k = rw zero-div refl

clear_more :
    {m m' : Memory} (p hi : ℕ)
    → p + 8 ≤ hi
    → Cleared m m' (p + 8) hi
    → Cleared m (put 8 m' p 0) p hi
clear_more {m} {m'} p hi h c = record {
  bytes = put-IsBytes 8 p 0 c.bytes;
  size = c.size;
  inside = λ b lo up. ground (arith, c.inside b, zero_digit (b - p));
  outside = λ b apart. ground (arith, c.outside b);
}

store64_zero :
    {m m' : Memory} (p q hi : ℕ)
    → q ≡ p + 8
    → q ≤ hi
    → hi ≤ m.size
    → Cleared m m' q hi
    → (m'' : Memory) × (store64 m' p 0 ≡ some m'') × Cleared m m'' p hi
unfolding store64
store64_zero {m} {m'} p q hi e le fits c = (
  put 8 m' p 0,
  ground (arith, c.size),
  clear_more p hi (omega arith) (subst (λ q. Cleared m m' q hi) e c),
)

-- Eight bytes at a time, from the top.
clear_scratch-Cleared :
    {m : Memory} (p : ℕ)
    → IsBytes m
    → p + 64 ≤ m.size
    → (m' : Memory) × (clear_scratch m p ≡ some m') × Cleared m m' p (p + 64)
unfolding clear_scratch
clear_scratch-Cleared {m} p w fits =
    let c0 : Cleared m m (p + 64) (p + 64) = record {
      bytes = w;
      size = refl;
      inside = λ b lo up. absurd (omega arith);
      outside = λ b _. refl;
    } in
    let hi = p + 64 in
    let (m1, e1, c1) = store64_zero (p + 56) hi hi (omega arith) (omega arith) fits c0 in
    let (m2, e2, c2) = store64_zero (p + 48) (p + 56) hi (omega arith) (omega arith) fits c1 in
    let (m3, e3, c3) = store64_zero (p + 40) (p + 48) hi (omega arith) (omega arith) fits c2 in
    let (m4, e4, c4) = store64_zero (p + 32) (p + 40) hi (omega arith) (omega arith) fits c3 in
    let (m5, e5, c5) = store64_zero (p + 24) (p + 32) hi (omega arith) (omega arith) fits c4 in
    let (m6, e6, c6) = store64_zero (p + 16) (p + 24) hi (omega arith) (omega arith) fits c5 in
    let (m7, e7, c7) = store64_zero (p + 8) (p + 16) hi (omega arith) (omega arith) fits c6 in
    let (m8, e8, c8) = store64_zero p (p + 8) hi (omega arith) (omega arith) fits c7 in
    (m8, rw (e1, e2, e3, e4, e5, e6, e7) e8, c8)

Cleared-Slots :
    (c : Call) {m m' : Memory}
    → Cleared m m' c.scratch (c.scratch + 64)
    → c.scratch + 64 ≤ m.size
    → Slots c m' (λ _. 0)
unfolding load32
Cleared-Slots c h fits j hj = (
  ground (
    arith,
    h.size,
    h.inside (c.scratch + 4 * j),
    h.inside (c.scratch + 4 * j + 1),
    h.inside (c.scratch + 4 * j + 2),
    h.inside (c.scratch + 4 * j + 3),
  ),
  omega arith,
)

-- The registers that the loop starts with stand for the initial state.
start-Sim :
    (c : Call) (m m' : Memory)
    → Layout c m
    → 0 < c.count
    → Cleared m m' c.scratch (c.scratch + 64)
    → Sim c m (start c m') initial
start-Sim c m m' l pos h = record {
  frame = record { bytes = h.bytes; size = h.size; same = λ b apart. h.outside b (beyond b apart) };
  slots = Cleared-Slots c h l.scratch_in;
  a_eq = refl;
  x_eq = refl;
  back_eq = refl;
  pc_eq = omega arith;
  prev_eq = omega (arith, l.prog_low, l.prog_high);
  a_bound = omega arith;
  x_bound = omega arith;
  back_bound = omega arith;
  pc_bound = pos;
}
  where
    beyond : (b : ℕ) → Apart b 1 c.scratch 64 → (b < c.scratch) ⊎ (c.scratch + 64 ≤ b)
    beyond b apart = omega arith

abbrev pub call_of : ℕ → ℕ → ℕ → ℕ → ℕ → ℕ → Call
call_of stack_pointer prog count pkt wirelen buflen = record {
  prog = prog;
  count = count;
  pkt = pkt;
  wirelen = wirelen;
  buflen = buflen;
  scratch = sub32 stack_pointer 64;
}

-- The specification gives a verdict within the fuel of the compiled loop.
eval-input :
    (c : Call) (m : Memory) → (v : ℕ) × (eval (enough c.count) (input c m) initial ≡ some v)
unfolding input
eval-input c m =
    eval_total (enough c.count) (input c m) initial (λ p h. rw (le→ltb p c.count h)) (omega arith)

-- With a program of 1 to 3,060,000 arbitrary instructions and a packet that lie inside the memory,
-- apart from the 64 scratch bytes below the stack pointer, `Xpcapint_filter` returns, within its
-- fuel, the verdict of the specification, and changes no memory outside the scratch bytes.
pub pcapint_filter-eval :
    (m : Memory) (stack_pointer prog count pkt wirelen buflen : ℕ)
    → Layout (call_of stack_pointer prog count pkt wirelen buflen) m
    → 0 < count
    → let c = call_of stack_pointer prog count pkt wirelen buflen in
      (v : ℕ) × (m' : Memory) × (pcapint_filter m stack_pointer prog count pkt wirelen buflen
        ≡ returned v m')
      × (eval (enough count) (input c m) initial ≡ some v)
      × Frame c m m'
unfolding pcapint_filter
pcapint_filter-eval m sp prog count pkt wirelen buflen l pos =
    let c = call_of sp prog count pkt wirelen buflen in
    let (m₀, cleared, zeros) = clear_scratch-Cleared c.scratch l.bytes l.scratch_in in
    let (v, e) = eval-input c m in
    let (m', runs, frame) =
      run-eval c m l (enough count) (start c m₀) initial v (start-Sim c m m₀ l pos zeros) e in
    let real : (prog == 0) ≡ false = ground (arith, l.prog_low) in
    let counted : ltb (sub32 count 3060001) (neg32 3060000) ≡ false =
      ground (arith, l.count_bound) in
    (v, m', rw (pcapint_filter, real, counted, cleared) runs, e, frame)

-- With a program pointer that is not null, a count of 0 or above 3,060,000 gives 0, whatever the
-- memory holds, and leaves the memory as it was.
pcapint_filter_count :
    (m : Memory) (stack_pointer prog count pkt wirelen buflen : ℕ)
    → prog ≢ 0
    → IsU32 count
    → (count ≡ 0) ⊎ (3060000 < count)
    → pcapint_filter m stack_pointer prog count pkt wirelen buflen ≡ returned 0 m
unfolding pcapint_filter
pcapint_filter_count m sp prog count pkt wirelen buflen h w (inl e) = ground arith
pcapint_filter_count m sp prog count pkt wirelen buflen h w (inr e) = ground arith
