-- ===== src/Machine/Stores.antt =====
-- The stores of the shim: they keep the heap, and a memory with a word for the failed handle.
use go_pcapfilter.Prelude.{
  ℕ, ◌+◌, ◌≤◌, ◌<◌, ◌≡◌, ◌⊎◌, inl, inr, some, arith, refl, ◌∙◌, ◌==◌, ltb, ltb→lt, true, Bool-cases,
  subst, sym, ap,
}
use go_pcapfilter.Wasm.Memory.{Memory, load8, load32, store8, store32, put, le32}
use go_pcapfilter.Wasm.Memory.Laws.{IsBytes, Apart, put-IsBytes, load32-put-Apart, load32-put_self}
use go_pcapfilter.Heap.{break_word, last_word, free}
use go_pcapfilter.Heap.Arena.{IsHeap-put, store32-put}
use go_pcapfilter.Machine.{
  Machine, done, with_memory, failed_word, errbuf_start, pcap_errbuf, bpf_errbuf,
}
use go_pcapfilter.Machine.Contract.{IsHandle, IsUsable, IsRunning}

pub IsUsable-put :
    (n : ℕ) (m : Memory) (a v : ℕ) → Apart failed_word 4 a n → IsUsable m → IsUsable (put n m a v)
IsUsable-put n m a v apart u = record {
  bytes = put-IsBytes n a v u.bytes;
  low = u.low;
  high = u.high;
  failed = u.failed;
  failed_read = load32-put-Apart n m a v failed_word apart ∙ u.failed_read;
  failed_handle = u.failed_handle;
}

-- The machine after a store of `n` bytes.
abbrev pub stored : ℕ → Machine → ℕ → ℕ → Machine
stored n s a v = record s { memory = put n s.memory a v }

pub IsRunning-stored :
    (n sp b : ℕ) (s : Machine) (a v : ℕ)
    → (a + n ≤ break_word) ⊎ ((break_word + 8 ≤ a) × (a + n ≤ failed_word))
    → IsRunning sp b s
    → IsRunning sp b (stored n s a v)
IsRunning-stored n sp b s a v clear r = record {
  usable = IsUsable-put n s.memory a v (ground arith) r.usable;
  heap = IsHeap-put n s.memory b a v (ground arith) r.heap;
  static = r.static;
  stack = r.stack;
}

pub IsRunning-failed :
    (sp b : ℕ) (s : Machine) (handle : ℕ)
    → IsHandle s.memory handle
    → IsRunning sp b s
    → IsRunning sp b (stored 4 s failed_word handle)
IsRunning-failed sp b s handle ok r = record {
  usable = record {
    bytes = put-IsBytes 4 failed_word handle r.usable.bytes;
    low = r.usable.low;
    high = r.usable.high;
    failed = handle;
    failed_read =
        load32-put_self s.memory failed_word handle (ground (arith, r.usable.high))
          (omega (arith, r.usable.low));
    failed_handle = ok;
  };
  heap = IsHeap-put 4 s.memory b failed_word handle (inl (omega arith)) r.heap;
  static = r.static;
  stack = r.stack;
}

pub with_memory-store32 :
    (s : Machine) (a v : ℕ)
    → a + 4 ≤ s.memory.size
    → with_memory s (store32 s.memory a v) ≡ done (stored 4 s a v)
with_memory-store32 s a v h = rw (store32-put s.memory a v h) refl

pub with_memory-store8 :
    (s : Machine) (a v : ℕ)
    → a < s.memory.size
    → with_memory s (store8 s.memory a v) ≡ done (stored 1 s a v)
unfolding store8
with_memory-store8 s a v h = ground arith

-- Where an error is read from lies inside the memory.
pub bpf_errbuf-inside : (m : Memory) → IsUsable m → (a : ℕ) × (bpf_errbuf m ≡ some a) × (a < m.size)
unfolding bpf_errbuf load8
bpf_errbuf-inside m u = elim (Bool-cases (u.failed == 0)) [
  | inl null ↦ (errbuf_start, rw (bpf_errbuf, u.failed_read, null) refl, omega (arith, u.low))
  | inr real ↦
      let at : pcap_errbuf u.failed ≡ u.failed + 148 = ground (arith, u.failed_handle, u.high) in
      let read : ltb (u.failed + 148) m.size ≡ true = ground (arith, u.failed_handle) in
      elim (Bool-cases (m.byte (u.failed + 148) == 0)) [
        | inl empty ↦ (
          errbuf_start,
          rw (bpf_errbuf, u.failed_read, real, at, read, empty) refl,
          omega (arith, u.low),
        )
        | inr text ↦ (
          u.failed + 148,
          rw (bpf_errbuf, u.failed_read, real, at, read, text) (ap some at),
          ltb→lt _ _ read,
        )
      ]
]

pub load32-inside : (m : Memory) (a : ℕ) → a + 4 ≤ m.size → load32 m a ≡ some (le32 m a)
unfolding load32
load32-inside m a h = ground arith

-- `Xfree` on a memory with the static data: it ends, and writes the words of the allocator at most.
pub free-IsBytes :
    (m : Memory) (p : ℕ)
    → IsBytes m
    → 131072 ≤ m.size
    → (m' : Memory) × (free m p ≡ some m')
      × IsBytes m'
      × (m'.size ≡ m.size)
      × (load32 m' failed_word ≡ load32 m failed_word)
unfolding free
free-IsBytes m p w low =
    let read = load32-inside m last_word (omega arith) in
    let first = store32-put m break_word p (omega arith) in
    let second = store32-put (put 4 m break_word p) last_word 0 (omega arith) in
    elim (Bool-cases (p == 0)) [
      | inl null ↦ (m, rw (free, null) refl, w, refl, refl)
      | inr real ↦ elim (Bool-cases (p == le32 m last_word)) [
        | inl same ↦ (
          put 4 (put 4 m break_word p) last_word 0,
          rw (free, real, read, same, first, second) refl,
          put-IsBytes 4 last_word 0 (put-IsBytes 4 break_word p w),
          refl,
          load32-put-Apart 4 (put 4 m break_word p) last_word 0 failed_word (inr (omega arith))
              ∙ load32-put-Apart 4 m break_word p failed_word (inr (omega arith)),
        )
        | inr other ↦ (m, rw (free, real, read, other) refl, w, refl, refl)
      ]
    ]

pub free-IsUsable :
    (m : Memory) (p : ℕ) → IsUsable m → (m' : Memory) × (free m p ≡ some m') × IsUsable m'
free-IsUsable m p u =
    let (m', freed, w, size, word) = free-IsBytes m p u.bytes u.low in
    (
      m',
      freed,
      record {
        bytes = w;
        low = rw size u.low;
        high = rw size u.high;
        failed = u.failed;
        failed_read = word ∙ u.failed_read;
        failed_handle =
            subst (λ k. (u.failed ≡ 0) ⊎ (u.failed + 148 < k)) (sym size) u.failed_handle;
      },
    )
