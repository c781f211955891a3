-- ===== src/Machine/Shim.antt =====
-- What `Xbpf_compile` gives.
use go_pcapfilter.Prelude.{
  ℕ, ◌+◌, ◌≤◌, ◌≡◌, ◌≢◌, ◌⊎◌, inl, inr, List, some, arith, refl, sym, subst, ◌∙◌, ◌==◌, Bool-cases,
  true, false,
}
use go_pcapfilter.Wasm.Words.{add32, sub32, neg32}
use go_pcapfilter.Wasm.Memory.{Memory, load32, store8, put}
use go_pcapfilter.Wasm.Memory.Laws.{load32-put-Apart, load32-put_self}
use go_pcapfilter.Heap.{last_word}
use go_pcapfilter.Dummy.{open_dummy, close}
use go_pcapfilter.Machine.Handles.{open_dummy-IsRunning, close-IsRunning, close-IsCovered}
use go_pcapfilter.Machine.{
  Machine, ◌>>=◌, with_memory, to_result, program_struct, errbuf_start, failed_word, pcap_errbuf,
  leave, Libpcap, close_compiled, compile_opened, bpf_compile,
}
use go_pcapfilter.Machine.Contract.{
  IsRunning, IsOpen, IsCovered, IsCompiled, IsText, IsMessage, Ends, Ends->>=, IsLibpcap,
}
use go_pcapfilter.Machine.Staged.{
  IsText-same, IsText-Keeps, IsText-put, IsMessage-put, data-put, data-Keeps,
}
use go_pcapfilter.Machine.Stores.{
  stored, IsRunning-stored, IsRunning-failed, with_memory-store32, with_memory-store8,
}

-- The machine is as it was before the call, and the result is -1 or the compiled program.
abbrev pub Delivers : ℕ → Machine × (ℕ × ℕ) → Type 0
Delivers sp x =
    (b : ℕ) × IsRunning sp b x.0
    × ((x.1.0 ≡ neg32 1) ⊎ ((c : IsCompiled x.0.memory b) × (x.1.0 ≡ c.n) × (x.1.1 ≡ c.ptr)))

left :
    (sp frame b : ℕ) (s : Machine)
    → frame + 16 ≡ sp
    → sp ≤ 65536
    → IsRunning frame b s
    → IsRunning sp b (record s { stack_pointer = add32 frame 16 })
left sp frame b s e hi r = record {
  usable = r.usable;
  heap = r.heap;
  static = r.static;
  stack = omega arith;
}

IsCompiled-put : (m : Memory) (b v : ℕ) → IsCompiled m b → IsCompiled (put 4 m failed_word v) b
IsCompiled-put m b v c = record {
  n = c.n;
  ptr = c.ptr;
  n_read = load32-put-Apart 4 m failed_word v program_struct (inl (omega arith)) ∙ c.n_read;
  ptr_read =
      load32-put-Apart 4 m failed_word v (program_struct + 4) (inl (omega arith)) ∙ c.ptr_read;
  n_pos = c.n_pos;
  n_bound = c.n_bound;
  past_stack = c.past_stack;
  inside = c.inside;
  room = c.room;
}

IsCovered-put :
    (m : Memory) (handle v : ℕ) → IsCovered m handle → IsCovered (put 4 m failed_word v) handle
IsCovered-put m handle v (last, read, lt) =
    (last, load32-put-Apart 4 m failed_word v last_word (inl (omega arith)) ∙ read, lt)

module _ (Data : Memory → Type 0) (Fits : ℕ → List ℕ → Type 0) (lib : Libpcap)
    (ok : IsLibpcap Data Fits lib) where
  refuses :
      (b : ℕ) (s : Machine)
      → IsRunning 65520 b s
      → Ends (Delivers 65536) (leave s 65520 (neg32 1, 0))
  refuses b s r = (b, left 65536 65520 b s (omega arith) (omega arith) r, inl refl)

  delivers :
      (b : ℕ) (s : Machine)
      → IsRunning 65520 b s
      → IsCompiled s.memory b
      → Ends (Delivers 65536) (do
        ptr ← to_result (load32 s.memory (program_struct + 4))
        n ← to_result (load32 s.memory program_struct)
        leave s 65520 (n, ptr))
  delivers b s r c =
      rw (c.ptr_read, c.n_read)
        (b, left 65536 65520 b s (omega arith) (omega arith) r, inr (c, refl, refl))

  closes :
      (b : ℕ) (s : Machine) (handle : ℕ)
      → IsRunning 65520 b s
      → IsOpen b handle
      → Ends
          (Delivers 65536)
          (do s ← with_memory s (close s.memory handle); leave s 65520 (neg32 1, 0))
  closes b s handle r o =
      let (m', b', closed, r') = close-IsRunning 65520 b s handle r o in
      rw closed (refuses b' (record s { memory = m' }) r')

  close_compiled-Ends :
      (b : ℕ) (s : Machine) (handle status : ℕ)
      → IsRunning 65520 b s
      → IsOpen b handle
      → Data s.memory
      → (status ≡ 0 → IsCompiled s.memory b × IsCovered s.memory handle)
      → (status ≢ 0 → IsMessage s.memory handle)
      → Ends (Delivers 65536) (close_compiled lib 65520 handle (s, status))
  unfolding close_compiled
  close_compiled-Ends b s handle status r o loaded given spelled =
      let s₁ = stored 4 s failed_word 0 in
      let first = with_memory-store32 s failed_word 0 (omega (arith, r.usable.low)) in
      let r₁ = IsRunning-failed 65520 b s 0 (inl refl) r in
      elim (Bool-cases (status == 0)) [
        | inl zero ↦
            let (c, covered) = given (ground arith) in
            let c₁ = IsCompiled-put s.memory b 0 c in
            let kept =
              close-IsCovered b s₁.memory handle r₁.heap o
                (IsCovered-put s.memory handle 0 covered) in
            rw (close_compiled, first, zero, kept) (delivers b s₁ r₁ c₁)
        | inr other ↦
            let at : pcap_errbuf handle ≡ handle + 148 =
              omega (arith, o.inside, r.heap.inside, r.usable.high) in
            let s₂ = stored 4 s₁ 65520 (handle + 148) in
            let second =
              with_memory-store32 s₁ 65520 (handle + 148) (omega (arith, r.usable.low)) in
            let r₂ = IsRunning-stored 4 65520 b s₁ 65520 (handle + 148) (inl (omega arith)) r₁ in
            let loaded₂ : Data s₂.memory =
              data-put Data Fits lib ok 4 s₁.memory 65520 (handle + 148) (inl (omega arith)) (
                data-put Data Fits lib ok 4 s.memory failed_word 0
                  (inr (inr (omega arith, omega arith))) loaded) in
            let spelled₂ : IsMessage s₂.memory handle =
              IsMessage-put 4 s₁.memory 65520 (handle + 148) handle (omega arith) o.static (
                IsMessage-put 4 s.memory failed_word 0 handle (omega arith) o.static
                  (spelled (ground arith))) in
            let read =
              load32-put_self s₁.memory 65520 (handle + 148)
                (omega (arith, o.inside, r.heap.inside, r.usable.high))
                (omega (arith, r.usable.low)) in
            rw (close_compiled, first, other, at, second)
              (Ends->>= _ (Delivers 65536) (lib.snprintf s₂ errbuf_start 257 67476 65520) _
                (ok.message_ends b handle s₂ r₂ loaded₂ o spelled₂ read)
                (λ s₃ r₃. closes b s₃ handle r₃ o))
      ]

  compile_opened-null :
      (b : ℕ) (s : Machine) (filter optimize netmask handle : ℕ)
      → IsRunning 65520 b s
      → Data s.memory
      → handle ≡ 0
      → Ends (Delivers 65536) (compile_opened lib 65520 filter optimize netmask (s, handle))
  unfolding compile_opened
  compile_opened-null b s filter optimize netmask handle r loaded null =
      let none_open : (handle == 0) ≡ true = ground arith in
      rw (compile_opened, none_open)
        (Ends->>= _ (Delivers 65536) (lib.snprintf s errbuf_start 257 65549 0) _
          (ok.opening_ends b s r loaded) (λ s' r'. refuses b s' r'))

  compile_opened-Ends :
      (b : ℕ) (before : Memory) (s : Machine)
      → (link_type snaplen filter optimize netmask handle : ℕ) (t : List ℕ)
      → open_dummy before link_type snaplen ≡ some (s.memory, handle)
      → IsRunning 65520 b s
      → Data s.memory
      → IsText s.memory handle filter t
      → Fits handle t
      → IsOpen b handle
      → Ends (Delivers 65536) (compile_opened lib 65520 filter optimize netmask (s, handle))
  unfolding compile_opened
  compile_opened-Ends b before s link_type snaplen filter optimize netmask handle t opened r loaded
        held fits o =
      let s₁ = stored 4 s failed_word handle in
      let first = with_memory-store32 s failed_word handle (omega (arith, r.usable.low)) in
      let real : (handle == 0) ≡ false = ground (arith, o.static) in
      rw (compile_opened, real, first)
        (Ends->>= _ (Delivers 65536) (lib.compile s₁ handle program_struct filter optimize netmask)
          _
          (ok.compile_ends b before s.memory s₁ link_type snaplen handle filter optimize netmask t
            opened refl
            (IsRunning-failed 65520 b s handle (inr (omega (arith, o.inside, r.heap.inside))) r) o
            (data-put Data Fits lib ok 4 s.memory failed_word handle
              (inr (inr (omega arith, omega arith))) loaded)
            (IsText-put 4 s.memory failed_word handle handle filter t (omega arith) held) fits)
          (λ (s₂, status) (b₂, r₂, o₂, loaded₂, given, spelled).
            close_compiled-Ends b₂ s₂ handle status r₂ o₂ loaded₂ given spelled))

  opens :
      (b : ℕ) (s : Machine) (link_type snaplen filter optimize netmask : ℕ) (t : List ℕ)
      → IsRunning 65520 b s
      → Data s.memory
      → IsText s.memory b filter t
      → Fits b t
      → Ends (Delivers 65536) (do
        s ← with_memory s (store8 s.memory errbuf_start 0)
        opened ← to_result (open_dummy s.memory link_type snaplen)
        let (m, handle) = opened
        compile_opened lib 65520 filter optimize netmask (record s { memory = m }, handle))
  opens b s link_type snaplen filter optimize netmask t r loaded held fits =
      let s₁ = stored 1 s errbuf_start 0 in
      let first = with_memory-store8 s errbuf_start 0 (omega (arith, r.usable.low)) in
      let r₁ = IsRunning-stored 1 65520 b s errbuf_start 0 (inr (omega arith, omega arith)) r in
      let loaded₁ =
        data-put Data Fits lib ok 1 s.memory errbuf_start 0 (inr (inl (omega arith, omega arith)))
          loaded in
      let held₁ = IsText-put 1 s.memory errbuf_start 0 b filter t (omega arith) held in
      let (m₂, handle, b₂, opened, r₂, keeps, o) =
        open_dummy-IsRunning 65520 b s₁ link_type snaplen r₁ in
      let loaded₂ = data-Keeps Data Fits lib ok s₁.memory m₂ b r.static keeps loaded₁ in
      let held₂ = IsText-Keeps s₁.memory m₂ b filter t keeps held₁ in
      let s₂ : Machine = record s₁ { memory = m₂ } in
      rw (first, opened)
        (elim o [
          | inl null ↦ compile_opened-null b₂ s₂ filter optimize netmask handle r₂ loaded₂ null
          | inr (same, o₂) ↦
              compile_opened-Ends b₂ s₁.memory s₂ link_type snaplen filter optimize netmask handle t
                opened r₂ loaded₂ (subst (λ e. IsText m₂ e filter t) (sym same) held₂)
                (subst (λ e. Fits e t) (sym same) fits) o₂
        ])

  lowered :
      (b : ℕ) (s : Machine)
      → IsRunning 65536 b s
      → IsRunning 65520 b (record s { stack_pointer = 65520 })
  lowered b s r = record { usable = r.usable; heap = r.heap; static = r.static; stack = refl }

  -- The first compilation: the structure holds no program yet.
  pub bpf_compile-Ends :
      (b : ℕ) (s : Machine) (link_type snaplen filter optimize netmask : ℕ) (t : List ℕ)
      → IsRunning 65536 b s
      → Data s.memory
      → load32 s.memory (program_struct + 4) ≡ some 0
      → IsText s.memory b filter t
      → Fits b t
      → Ends (Delivers 65536) (bpf_compile lib s link_type snaplen filter optimize netmask)
  unfolding bpf_compile
  bpf_compile-Ends b s link_type snaplen filter optimize netmask t r loaded empty held fits =
      let s₀ : Machine = record s { stack_pointer = 65520 } in
      let down : sub32 s.stack_pointer 16 ≡ 65520 = omega (arith, r.stack) in
      let r₀ : IsRunning 65520 b s₀ = lowered b s r in
      rw (bpf_compile, down)
        (Ends->>= _ (Delivers 65536) (lib.freecode s₀ program_struct) _
          (ok.freecode_ends b s₀ r₀ loaded empty)
          (λ s₁ (r₁, loaded₁, le, same).
            opens b s₁ link_type snaplen filter optimize netmask t r₁ loaded₁
              (IsText-same s.memory s₁.memory b filter t le same held) fits))
