-- ===== src/Machine/Handles.antt =====
-- The handle that the shim opens and closes.
use go_pcapfilter.Prelude.{ℕ, ◌+◌, ◌≤◌, ◌<◌, ◌≡◌, ◌⊎◌, inl, inr, some, arith, refl, ◌∙◌}
use go_pcapfilter.Wasm.Memory.{Memory, load32}
use go_pcapfilter.Heap.{last_word}
use go_pcapfilter.Heap.Arena.{IsHeap, Keeps}
use go_pcapfilter.Heap.Free.{free-IsHeap}
use go_pcapfilter.Dummy.{open_dummy, close}
use go_pcapfilter.Dummy.Handle.{open_dummy-IsHeap}
use go_pcapfilter.Machine.{Machine, failed_word}
use go_pcapfilter.Machine.Contract.{IsRunning, IsOpen, IsCovered}
use go_pcapfilter.Machine.Stores.{load32-inside}

pub load32-Keeps :
    (m m' : Memory) (b a : ℕ)
    → Keeps b m m'
    → 127528 ≤ a
    → a + 4 ≤ b
    → a + 4 ≤ m.size
    → load32 m' a ≡ load32 m a
unfolding load32
load32-Keeps m m' b a keeps low hi inside =
    let at : (k : ℕ) → k < 4 → m'.byte (a + k) ≡ m.byte (a + k) =
      λ k lt. keeps.same (a + k) (omega arith) (inr (omega arith)) (inr (omega arith)) in
    ground (arith, keeps.size, at 0, at 1, at 2, at 3)

IsRunning-Keeps :
    (sp lim b b' : ℕ) (s : Machine) (m' : Memory)
    → IsRunning sp b s
    → Keeps lim s.memory m'
    → 127840 ≤ lim
    → IsHeap m' b'
    → 127840 ≤ b'
    → IsRunning sp b' (record s { memory = m' })
IsRunning-Keeps sp lim b b' s m' r keeps low h static = record {
  usable = record {
    bytes = h.arena.bytes;
    low = h.arena.low;
    high = h.arena.high;
    failed = r.usable.failed;
    failed_read =
        load32-Keeps s.memory m' lim failed_word keeps (omega arith) (omega arith)
          (omega (arith, r.usable.low))
        ∙ r.usable.failed_read;
    failed_handle = ground (arith, r.usable.failed_handle, keeps.size);
  };
  heap = h;
  static = static;
  stack = r.stack;
}

-- The machine runs on, with a null handle or one at the end of the heap, and keeps what is below.
pub open_dummy-IsRunning :
    (sp b : ℕ) (s : Machine) (link_type snaplen : ℕ)
    → IsRunning sp b s
    → (m' : Memory) × (handle b' : ℕ) × (open_dummy s.memory link_type snaplen ≡ some (m', handle))
      × IsRunning sp b' (record s { memory = m' })
      × Keeps b s.memory m'
      × ((handle ≡ 0) ⊎ ((handle ≡ b) × IsOpen b' handle))
open_dummy-IsRunning sp b s link_type snaplen r =
    elim (open_dummy-IsHeap s.memory b link_type snaplen r.heap r.static) [
      | inl (null, full) ↦ (
        s.memory,
        0,
        b,
        null,
        r,
        record { size = omega arith; same = λ a lt g l. refl },
        inl refl,
      )
      | inr (m₁, m', stores, opened, h, keeps) ↦ (
        m',
        b,
        b + 512,
        opened,
        IsRunning-Keeps sp b b (b + 512) s m' r keeps r.static h (omega (arith, r.static)),
        keeps,
        inr (refl, record { aligned = r.heap.aligned; static = r.static; inside = omega arith }),
      )
    ]

-- Closing a handle gives the heap back from its start if it is the last block, and nothing if not.
pub close-IsRunning :
    (sp b : ℕ) (s : Machine) (handle : ℕ)
    → IsRunning sp b s
    → IsOpen b handle
    → (m' : Memory) × (b' : ℕ) × (close s.memory handle ≡ some m')
      × IsRunning sp b' (record s { memory = m' })
unfolding close
close-IsRunning sp b s handle r o =
    let read = load32-inside s.memory last_word (omega (arith, r.usable.low)) in
    elim (free-IsHeap s.memory b handle _ r.heap read o.aligned (omega (arith, o.static))
      (omega (arith, o.inside))) [
        | inl (last, m', freed, h, keeps) ↦
            (m', handle, freed, IsRunning-Keeps sp handle b handle s m' r keeps o.static h o.static)
        | inr (other, freed) ↦ (s.memory, b, freed, r)
      ]

-- A handle that is not the last block is not given back.
pub close-IsCovered :
    (b : ℕ) (m : Memory) (handle : ℕ)
    → IsHeap m b
    → IsOpen b handle
    → IsCovered m handle
    → close m handle ≡ some m
unfolding close
close-IsCovered b m handle h o (last, read, lt) =
    elim (free-IsHeap m b handle last h read o.aligned (omega (arith, o.static))
      (omega (arith, o.inside))) [
        | inl (same, m', freed, given, keeps) ↦ absurd (omega arith)
        | inr (other, freed) ↦ freed
      ]
