-- ===== src/Samples/Memory.antt =====
-- A fresh heap of two pages.
use go_pcapfilter.Prelude.{ℕ, ◌≢◌, ◌+◌, ◌<◌, ◌≤◌, ◌≡◌, ◌⊎◌, some, refl, arith}
use go_pcapfilter.Wasm.Memory.Fill.{Filled, memory_fill-Filled}
use go_pcapfilter.Wasm.Memory.{memory_fill, Memory, load32, put}
use go_pcapfilter.Wasm.Memory.Laws.{put-IsBytes}
use go_pcapfilter.Heap.Free.{free-IsHeap}
use go_pcapfilter.Heap.{free, last_word, break_word, limit_word, malloc}
use go_pcapfilter.Heap.Arena.{IsHeap, Keeps, rounded}
use go_pcapfilter.Heap.Malloc.{malloc-IsHeap}
use go_pcapfilter.Heap.Calloc.{calloc, calloc_uncleared}
use go_pcapfilter.Heap.Realloc.{realloc}
use go_pcapfilter.Heap.Realloc.Kept.{Moved, realloc-Moved}

abbrev pub fresh_memory : Memory
fresh_memory =
    put 4 (put 4 (record { size = 131072; byte = λ _. 0 }) break_word 127536) limit_word 131072

pub fresh_IsHeap : IsHeap fresh_memory 127536
unfolding load32
fresh_IsHeap = record {
  arena = record {
    bytes =
        put-IsBytes 4 limit_word _
          (put-IsBytes 4 break_word _ (record { bytes = λ _. omega arith }));
    paged = refl;
    low = omega arith;
    high = omega arith;
    limit = refl;
  };
  break = refl;
  aligned = refl;
  above = omega arith;
  inside = omega arith;
}

malloc-IsHeap_example :
    ((malloc fresh_memory 100000 ≡ some (fresh_memory, 0)) × (4294967296 < 127536 + rounded 100000))
    ⊎ ((m' : Memory) × (malloc fresh_memory 100000 ≡ some (m', 127536))
        × IsHeap m' (127536 + rounded 100000)
        × Keeps 127536 fresh_memory m')
malloc-IsHeap_example =
    malloc-IsHeap fresh_memory 127536 100000 fresh_IsHeap (omega arith) (omega arith)

memory_fill-Filled_example :
    (m' : Memory) × (memory_fill fresh_memory 1000 511 20000 ≡ some m')
    × Filled fresh_memory m' 1000 511 20000
memory_fill-Filled_example = memory_fill-Filled fresh_memory 1000 511 20000 (omega arith)

abbrev first_block : ℕ
first_block = 127536

-- The fresh memory with a first block of 16 bytes.
abbrev used_memory : Memory
used_memory = put 4 (put 4 fresh_memory last_word 127536) break_word 127552

used_IsHeap : IsHeap used_memory 127552
unfolding load32
used_IsHeap = record {
  arena = record {
    bytes = put-IsBytes 4 break_word _ (put-IsBytes 4 last_word _ fresh_IsHeap.arena.bytes);
    paged = refl;
    low = omega arith;
    high = omega arith;
    limit = refl;
  };
  break = refl;
  aligned = refl;
  above = omega arith;
  inside = omega arith;
}

used_last : load32 used_memory last_word ≡ some 127536
unfolding load32
used_last = refl

free-IsHeap_example :
    ((first_block ≡ 127536)
      × (m' : Memory) × (free used_memory 127536 ≡ some m')
      × IsHeap m' 127536
      × Keeps 127536 used_memory m')
    ⊎ ((first_block ≢ 127536) × (free used_memory 127536 ≡ some used_memory))
free-IsHeap_example =
    free-IsHeap used_memory 127552 127536 127536 used_IsHeap used_last refl (omega arith)
      (omega arith)

calloc_uncleared_example :
    (m₁ m₂ : Memory) × (free used_memory 127536 ≡ some m₁)
    × (calloc m₁ 2 8 ≡ some (m₂, 127536))
    × ((a : ℕ) → 127536 ≤ a → m₂.byte a ≡ used_memory.byte a)
calloc_uncleared_example =
    calloc_uncleared used_memory 127552 127536 used_IsHeap used_last refl (omega arith)
      (omega arith) 2 8 (omega arith) (omega arith) (omega arith)

realloc-Moved_example :
    ((m' : Memory) × (realloc used_memory first_block 40 ≡ some (m', 0))
      × IsHeap m' 127552
      × ((a : ℕ) → 127536 ≤ a → m'.byte a ≡ used_memory.byte a))
    ⊎ ((m' : Memory) × (q e : ℕ) × (realloc used_memory first_block 40 ≡ some (m', q))
        × IsHeap m' e
        × (q + 40 ≤ e)
        × Moved used_memory m' first_block q 40 127552)
realloc-Moved_example =
    realloc-Moved used_memory 127552 first_block 40 127536 used_IsHeap used_last refl (omega arith)
      (omega arith) (omega arith) (omega arith) (omega arith)
