-- ===== src/Heap/Arena.antt =====
-- The state of the allocator, and a block taken from its end.
use go_pcapfilter.Prelude.{ℕ, ◌+◌, ◌*◌, ◌/◌, ◌%◌, ◌≤◌, ◌<◌, ◌≡◌, inl, inr, some, arith, refl, ◌∙◌}
use go_pcapfilter.Wasm.Words.{add32, u32}
use go_pcapfilter.Wasm.Memory.{Memory, load32, store32, put}
use go_pcapfilter.Wasm.Memory.Laws.{
  IsBytes, Apart, put-IsBytes, put_outside, load32-put-Apart, load32-put_self,
}
use go_pcapfilter.Heap.{break_word, limit_word, last_word, take_block}

-- The memory has whole pages, past the words of the allocator, and its limit is its end.
pub record IsArena (m : Memory) : Type 0 where
  pub bytes : IsBytes m
  pub paged : m.size % 65536 ≡ 0
  pub low : 131072 ≤ m.size
  pub high : m.size ≤ 4294967296
  pub limit : load32 m limit_word ≡ some (u32 m.size)

-- An arena whose blocks end at `b`.
pub record IsHeap (m : Memory) (b : ℕ) : Type 0 where
  pub arena : IsArena m
  pub break : load32 m break_word ≡ some (u32 b)
  pub aligned : b % 16 ≡ 0
  pub above : 127536 ≤ b
  pub inside : b ≤ m.size

-- Below `b` nothing has changed but the words of the allocator, and the memory has not shrunk.
pub record Keeps (b : ℕ) (m m' : Memory) : Type 0 where
  pub size : m.size ≤ m'.size
  pub same : (a : ℕ) → a < b → Apart a 1 break_word 8 → Apart a 1 last_word 4 → m'.byte a ≡ m.byte a

abbrev pub rounded : ℕ → ℕ
rounded size = (size + 15) / 16 * 16

pub store32-put : (m : Memory) (a v : ℕ) → a + 4 ≤ m.size → store32 m a v ≡ some (put 4 m a v)
unfolding store32
store32-put m a v h = ground arith

pub take_block-IsHeap :
    (m : Memory) (b n : ℕ)
    → IsArena m
    → b % 16 ≡ 0
    → n % 16 ≡ 0
    → 0 < n
    → 127536 ≤ b
    → b + n ≤ m.size
    → (m' : Memory) × (take_block m b n ≡ some (m', b))
      × IsHeap m' (b + n)
      × Keeps b m m'
      × (m'.size ≡ m.size)
unfolding take_block
take_block-IsHeap m b n r ab an pos lo hi =
    let m₁ = put 4 m last_word b in
    let m₂ = put 4 m₁ break_word (add32 b n) in
    let first = store32-put m last_word b (omega (arith, r.low)) in
    let second = store32-put m₁ break_word (add32 b n) (omega (arith, r.low)) in
    (
      m₂,
      rw (first, second) refl,
      record {
        arena = record {
          bytes = put-IsBytes 4 break_word _ (put-IsBytes 4 last_word _ r.bytes);
          paged = r.paged;
          low = r.low;
          high = r.high;
          limit =
              load32-put-Apart 4 m₁ break_word (add32 b n) limit_word (inr (omega arith))
              ∙ load32-put-Apart 4 m last_word b limit_word (inl (omega arith))
              ∙ r.limit;
        };
        break = load32-put_self m₁ break_word (add32 b n) (omega arith) (omega (arith, r.low));
        aligned = omega arith;
        above = omega arith;
        inside = hi;
      },
      record {
        size = omega arith;
        same = λ a lt g h.
            put_outside 4 m₁ break_word (add32 b n) a (omega arith)
            ∙ put_outside 4 m last_word b a (omega arith);
      },
      refl,
    )

-- A store clear of the words of the allocator.
pub IsHeap-put :
    (n : ℕ) (m : Memory) (b a v : ℕ) → Apart break_word 8 a n → IsHeap m b → IsHeap (put n m a v) b
IsHeap-put n m b a v apart h = record {
  arena = record {
    bytes = put-IsBytes n a v h.arena.bytes;
    paged = h.arena.paged;
    low = h.arena.low;
    high = h.arena.high;
    limit = load32-put-Apart n m a v limit_word (ground arith) ∙ h.arena.limit;
  };
  break = load32-put-Apart n m a v break_word (ground arith) ∙ h.break;
  aligned = h.aligned;
  above = h.above;
  inside = h.inside;
}
