-- ===== src/Compile/Build.antt =====
-- The fields of the program, and the deferred functions.
use go_pcapfilter.Prelude.{
  ℕ, ◌-◌, ◌+◌, ◌≤◌, ◌<◌, ◌≡◌, ◌⊎◌, inl, inr, List, [], ◌∷◌, some, arith, refl, ◌==◌, leb, ltb, ◌&&◌,
  true, false, Bool-cases,
}
use go_pcapfilter.Wasm.Words.{u32}
use go_pcapfilter.Wasm.Memory.{Memory}
use go_pcapfilter.Wasm.Memory.Laws.{IsBytes}
use go_pcapfilter.Heap.{malloc, free}
use go_pcapfilter.Heap.Arena.{IsHeap, rounded}
use go_pcapfilter.Heap.Malloc.{malloc-IsHeap}
use go_pcapfilter.Env.{cstr, cstr_from}
use go_pcapfilter.Machine.{Machine, Result, done, thrown, crashed}
use go_pcapfilter.Machine.Contract.{IsUsable, IsRunning, IsCompiled, Ends}
use go_pcapfilter.Machine.Stores.{bpf_errbuf-inside, free-IsBytes, free-IsUsable}
use go_pcapfilter.Machine.Shim.{Delivers}
use go_pcapfilter.Program.{Program}
use go_pcapfilter.Program.Ready.{IsReady}
use go_pcapfilter.Compile.{
  Compiled, compiled, failed, panics, Built, refused, built, error_text, build, finish,
}

-- An error, or a program on which `Match` works, with this snapshot length, a positive int32.
abbrev pub IsSettled : ℕ → Compiled → Type 0
IsSettled snaplen (compiled p) =
    IsReady p × (p.snaplen ≡ snaplen) × (0 < snaplen) × (131072 ≤ p.memory.size)
IsSettled snaplen (failed message) = Unit
IsSettled snaplen panics = ⊥

-- The program that a machine and the fields make.
abbrev pub program_of : Machine → ℕ → ℕ → ℕ → ℕ → Program
program_of s n ptr pkt snaplen = record {
  memory = s.memory;
  stack_pointer = s.stack_pointer;
  n = n;
  ptr = ptr;
  pkt = pkt;
  snaplen = snaplen;
}

abbrev IsBuilt : ℕ → Machine → Built → Type 0
IsBuilt asked s (refused message) = Unit
IsBuilt asked s (built n ptr pkt snaplen) =
    IsReady (program_of s n ptr pkt snaplen) × (snaplen ≡ asked) × (0 < asked)

abbrev pub Buildable : ℕ → Machine × Built → Type 0
Buildable asked x = IsBytes x.0.memory × (131072 ≤ x.0.memory.size) × IsBuilt asked x.0 x.1

pub error_text-reads : (m : Memory) → IsUsable m → (text : List ℕ) × (error_text m ≡ some text)
unfolding error_text cstr
error_text-reads m u =
    let (a, at, lt) = bpf_errbuf-inside m u in
    let inside : leb a m.size ≡ true = ground arith in
    (cstr_from m (u32 m.size - a) a, rw (error_text, at, inside) refl)

malloc-refuses :
    (m : Memory) (size : ℕ) → (size ≡ 0) ⊎ (2147483648 ≤ size) → malloc m size ≡ some (m, 0)
unfolding malloc
malloc-refuses m size h = ground arith

IsReady-kept :
    (p : Program) (m : Memory)
    → IsReady p
    → IsBytes m
    → m.size ≡ p.memory.size
    → IsReady (record p { memory = m })
IsReady-kept p m r w size = record {
  bytes = w;
  size_bound = rw size r.size_bound;
  n_pos = r.n_pos;
  n_bound = r.n_bound;
  ptr_low = r.ptr_low;
  ptr_high = r.ptr_high;
  ptr_in = rw size r.ptr_in;
  pkt_high = r.pkt_high;
  snaplen_high = r.snaplen_high;
  pkt_in = rw size r.pkt_in;
  stack_low = r.stack_low;
  stack_high = r.stack_high;
  stack_in = rw size r.stack_in;
  ptr_stack = r.ptr_stack;
  pkt_stack = r.pkt_stack;
  ptr_pkt = r.ptr_pkt;
}

-- A text, or another if it is empty.
abbrev pub text_or : List ℕ → List ℕ → List ℕ
text_or [] message = message
text_or (c ∷ cs) message = c ∷ cs

pub finish-thrown :
    (text : ℕ) (s : Machine) (message : List ℕ) (m : Memory)
    → free s.memory text ≡ some m
    → (found : List ℕ) → error_text m ≡ some found
    → finish text (thrown s message) ≡ failed (text_or found message)
unfolding finish
finish-thrown text s message m freed [] read = rw (finish, freed, read) refl
finish-thrown text s message m freed (c ∷ cs) read = rw (finish, freed, read) refl

pub finish-IsSettled :
    (text asked : ℕ) (r : Result (Machine × Built))
    → Ends (Buildable asked) r
    → IsSettled asked (finish text r)
unfolding finish
finish-IsSettled text asked (done (s, refused message)) (w, low, _) =
    let (m, freed, _, _, _) = free-IsBytes s.memory text w low in
    let e : finish text (done (s, refused message)) ≡ failed message = rw (finish, freed) refl in
    rw e tt
finish-IsSettled text asked (done (s, built n ptr pkt snaplen)) (w, low, (ready, same, pos)) =
    let (m, freed, kept, size, _) = free-IsBytes s.memory text w low in
    let p = program_of s n ptr pkt snaplen in
    let e : finish text (done (s, built n ptr pkt snaplen)) ≡ compiled (record p { memory = m }) =
      rw (finish, freed) refl in
    rw e (IsReady-kept p m ready kept size, same, pos, rw size low)
finish-IsSettled text asked (thrown s message) u =
    let (m, freed, usable) = free-IsUsable s.memory text u in
    let (found, read) = error_text-reads m usable in
    finished found (finish-thrown text s message m freed found read)
  where
    finished :
        (found : List ℕ)
        → finish text (thrown s message) ≡ failed (text_or found message)
        → IsSettled asked (finish text (thrown s message))
    finished found e = rw e tt
finish-IsSettled text asked crashed h = absurd h

module _ (sp snaplen : ℕ) (lo : 80 ≤ sp) (hi : sp ≤ 65536) where
  allocated-IsReady :
      (s : Machine) (m : Memory) (b : ℕ) (c : IsCompiled s.memory b)
      → s.stack_pointer ≡ sp
      → snaplen < 2147483648
      → IsHeap m (b + rounded snaplen)
      → IsReady (program_of (record s { memory = m }) c.n c.ptr b snaplen)
  allocated-IsReady s m b c stack short h = record {
    bytes = h.arena.bytes;
    size_bound = h.arena.high;
    n_pos = c.n_pos;
    n_bound = c.n_bound;
    ptr_low = omega (arith, c.past_stack);
    ptr_high = omega (arith, c.inside, c.room);
    ptr_in = omega (arith, c.inside, h.inside);
    pkt_high = omega (arith, c.room);
    snaplen_high = short;
    pkt_in = omega (arith, h.inside);
    stack_low = omega arith;
    stack_high = omega arith;
    stack_in = omega (arith, h.arena.low);
    ptr_stack = inr (omega (arith, c.past_stack));
    pkt_stack = inr (omega (arith, c.past_stack, c.inside));
    ptr_pkt = inl c.inside;
  }

  build-compiled :
      (s : Machine) (b : ℕ) (r : IsRunning sp b s) (c : IsCompiled s.memory b)
      → Ends (Buildable snaplen) (build snaplen (s, (c.n, c.ptr)))
  unfolding build
  build-compiled s b r c =
      let count : leb 2147483648 c.n ≡ false = ground (arith, c.n_bound) in
      elim (Bool-cases (ltb 0 snaplen && ltb snaplen 2147483648)) [
        | inr bad ↦
            let refuses = malloc-refuses s.memory snaplen (ground arith) in
            rw (build, count, refuses) (r.usable.bytes, r.usable.low, tt)
        | inl good ↦ elim (malloc-IsHeap s.memory b snaplen r.heap (ground arith) (ground arith)) [
          | inl (fails, past) ↦ rw (build, count, fails) (r.usable.bytes, r.usable.low, tt)
          | inr (m, allocated, h, keeps) ↦
              let real : (b == 0) ≡ false = ground (arith, r.static) in
              rw (build, count, allocated, real)
                (
                  h.arena.bytes,
                  h.arena.low,
                  (allocated-IsReady s m b c r.stack (ground arith) h, refl, ground arith),
                )
        ]
      ]

  pub build-Ends :
      (x : Machine × (ℕ × ℕ)) → Delivers sp x → Ends (Buildable snaplen) (build snaplen x)
  unfolding build
  build-Ends (s, (n, ptr)) (b, r, inl minus) =
      let (found, read) = error_text-reads s.memory r.usable in
      rw (build, minus, read) (r.usable.bytes, r.usable.low, tt)
  build-Ends (s, (n, ptr)) (b, r, inr (c, en, ep)) = rw (en, ep) (build-compiled s b r c)
