-- ===== src/Heap/Grow.antt =====
-- A heap that is too short for a block grows by whole pages.
use go_pcapfilter.Prelude.{
  none, Bool-cases, leb→le, true, ==_refl, ℕ, ◌+◌, ◌-◌, ◌*◌, ◌/◌, ◌%◌, ◌≤◌, ◌<◌, ◌≡◌, ◌⊎◌, inl, inr,
  some, arith, refl, ap, ◌∙◌, leb, ltb, ◌==◌, if◌then◌else◌, bit_and, suc, Option,
}
use go_pcapfilter.Wasm.Words.{add32, sub32, u32, neg32}
use go_pcapfilter.Wasm.Words.Bits.{and_mask}
use go_pcapfilter.Wasm.Memory.{Memory, put, memory_grow}
use go_pcapfilter.Wasm.Memory.Laws.{put-IsBytes, put_outside, load32-put_self}
use go_pcapfilter.Heap.{limit_word, take_block, extend_heap, grow_heap}
use go_pcapfilter.Heap.Arena.{IsArena, IsHeap, Keeps, store32-put, take_block-IsHeap}

mask_page : (v : ℕ) → v < 4294967296 → bit_and v (neg32 65536) ≡ v / 65536 * 65536
mask_page v h =
    let e : v ≡ v / 65536 * 65536 + v % 65536 = omega arith in
    ap (λ (t : ℕ). bit_and t 4294901760) e
    ∙ and_mask 16 16 (v / 65536) (v % 65536) (omega arith) (omega arith)

abbrev grown : Memory → ℕ → Memory
grown m pages = record {
  size = (m.size / 65536 + pages) * 65536;
  byte = λ a. if ltb a m.size then m.byte a else 0;
}

memory_grow-fits :
    (m : Memory) (pages : ℕ)
    → 0 < pages
    → m.size / 65536 + pages ≤ 65536
    → memory_grow m pages 65536 ≡ (grown m pages, some (m.size / 65536))
unfolding memory_grow
memory_grow-fits m pages pos h = ground arith

memory_grow-full :
    (m : Memory) (pages : ℕ)
    → 65536 < m.size / 65536 + pages
    → m.size ≤ 4294967296
    → memory_grow m pages 65536 ≡ (m, none)
unfolding memory_grow
memory_grow-full m pages h le = ground arith

-- More pages, and the limit at their end.
abbrev extended : Memory → ℕ → Memory
extended m pages = put 4 (grown m pages) limit_word (u32 ((m.size / 65536 + pages) * 65536))

extended-IsArena :
    (m : Memory) (pages : ℕ)
    → IsArena m
    → m.size / 65536 + pages ≤ 65536
    → IsArena (extended m pages)
extended-IsArena m pages r h = record {
  bytes = put-IsBytes 4 limit_word _ (record { bytes = λ a. ground (arith, r.bytes.bytes a) });
  paged = omega arith;
  low = omega (arith, r.low);
  high = omega arith;
  limit = load32-put_self (grown m pages) limit_word _ (omega arith) (omega (arith, r.low));
}

extended-Keeps : (m : Memory) (b pages : ℕ) → IsArena m → b ≤ m.size → Keeps b m (extended m pages)
extended-Keeps m b pages r h = record {
  size = omega (arith, r.paged);
  same = λ a lt g _.
      put_outside 4 (grown m pages) limit_word (u32 ((m.size / 65536 + pages) * 65536)) a
        (omega arith)
      ∙ ground arith;
}

pub Keeps-trans : (b : ℕ) (m₀ m₁ m₂ : Memory) → Keeps b m₀ m₁ → Keeps b m₁ m₂ → Keeps b m₀ m₂
Keeps-trans b m₀ m₁ m₂ k l = record {
  size = omega (arith, k.size, l.size);
  same = λ a lt g h. l.same a lt g h ∙ k.same a lt g h;
}

-- The memory has its length, or as many pages as `e` bytes need.
abbrev pub Tight : Memory → Memory → ℕ → Type 0
Tight m m' e = (m'.size ≡ m.size) ⊎ (m'.size < e + 65536)

-- The allocation fails, for want of address space, or gives the block from `b` on.
abbrev pub Allocates : Memory → ℕ → ℕ → Option (Memory × ℕ) → Type 0
Allocates m b n result =
    ((result ≡ some (m, 0)) × (4294967296 < b + n))
    ⊎ ((m' : Memory) × (result ≡ some (m', b))
        × IsHeap m' (b + n)
        × Keeps b m m'
        × Tight m m' (b + n))

-- The numbers of one round that asks for `need` bytes more.
record Round (m : Memory) (b n need : ℕ) : Type 0 where
  need_eq : add32 (sub32 n (m.size - b)) 0xffff ≡ need
  whole : bit_and need (neg32 65536) ≡ need / 65536 * 65536
  pos : 0 < need / 65536
  start : (u32 m.size == u32 (m.size / 65536 * 65536)) ≡ true
  limit : add32 (u32 m.size) (need / 65536 * 65536) ≡ u32 ((m.size / 65536 + need / 65536) * 65536)
  room : b + n ≤ (m.size / 65536 + need / 65536) * 65536
  tight : (m.size / 65536 + need / 65536) * 65536 < b + n + 65536
  short : 65536 < m.size / 65536 + need / 65536 → 4294967296 < b + n

round :
    (m : Memory) (b n : ℕ)
    → IsHeap m b
    → n ≤ 2147483648
    → m.size < b + n
    → Round m b n (n - (m.size - b) + 65535)
round m b n h le more =
    let s = h.arena.paged in
    let i = h.inside in
    let same : m.size / 65536 * 65536 ≡ m.size = omega arith in
    record {
      need_eq = omega arith;
      whole = mask_page _ (omega arith);
      pos = omega arith;
      start = rw same (==_refl (u32 m.size));
      limit = omega arith;
      room = omega arith;
      tight = omega arith;
      short = λ q. omega arith;
    }

-- A block, with what it keeps.
abbrev pub Taken : Memory → ℕ → ℕ → Option (Memory × ℕ) → Type 0
Taken m b n result =
    (m' : Memory) × (result ≡ some (m', b)) × IsHeap m' (b + n) × Keeps b m m' × (m'.size ≡ m.size)

extend_heap-fits :
    (m : Memory) (b n need : ℕ) (retry : Memory → ℕ → ℕ → ℕ → Option (Memory × ℕ))
    → IsHeap m b
    → 0 < n
    → Round m b n need
    → m.size / 65536 + need / 65536 ≤ 65536
    → extend_heap retry n (u32 m.size) (u32 b) need (grown m (need / 65536), some (m.size / 65536))
      ≡ take_block (extended m (need / 65536)) b n
unfolding extend_heap
extend_heap-fits m b n need retry h pos c ok =
    let small : u32 b ≡ b = omega (arith, c.room) in
    let end : ℕ = u32 ((m.size / 65536 + need / 65536) * 65536) in
    let stored = store32-put (grown m (need / 65536)) limit_word end (omega (arith, h.arena.low)) in
    rw (c.whole, c.start, c.limit, stored, small) refl

grow_heap-fits :
    (m : Memory) (b n fuel need : ℕ)
    → IsHeap m b
    → 0 < n
    → Round m b n need
    → m.size / 65536 + need / 65536 ≤ 65536
    → Taken (extended m (need / 65536)) b n (take_block (extended m (need / 65536)) b n)
    → Allocates m b n (grow_heap (suc fuel) m n (u32 m.size) (u32 b) (m.size - b))
unfolding grow_heap
grow_heap-fits m b n fuel need h pos c ok (m', taken, heap, keeps, size) = inr (
  m',
  rw (c.need_eq, memory_grow-fits m (need / 65536) c.pos ok)
      (extend_heap-fits m b n need _ h pos c ok ∙ taken),
  heap,
  Keeps-trans b m (extended m (need / 65536)) m'
      (extended-Keeps m b (need / 65536) h.arena h.inside) keeps,
  inr (omega (arith, size, c.tight)),
)

grow_heap-full :
    (m : Memory) (b n fuel need : ℕ)
    → IsHeap m b
    → Round m b n need
    → 65536 < m.size / 65536 + need / 65536
    → Allocates m b n (grow_heap (suc fuel) m n (u32 m.size) (u32 b) (m.size - b))
unfolding grow_heap extend_heap
grow_heap-full m b n fuel need h c full = inl (
  rw (grow_heap, c.need_eq, memory_grow-full m (need / 65536) full h.arena.high) refl,
  c.short full,
)

pub grow_heap-Allocates :
    (m : Memory) (b n fuel : ℕ)
    → IsHeap m b
    → n % 16 ≡ 0
    → 0 < n
    → n ≤ 2147483648
    → m.size < b + n
    → Allocates m b n (grow_heap (suc fuel) m n (u32 m.size) (u32 b) (m.size - b))
grow_heap-Allocates m b n fuel h an pos le more =
    let need : ℕ = n - (m.size - b) + 65535 in
    let pages : ℕ = need / 65536 in
    let c = round m b n h le more in
    elim (Bool-cases (leb (m.size / 65536 + pages) 65536)) [
      | inl fits ↦
          let ok = leb→le _ _ fits in
          grow_heap-fits m b n fuel need h pos c ok (
            take_block-IsHeap (extended m pages) b n (extended-IsArena m pages h.arena ok) h.aligned
              an pos h.above c.room)
      | inr full ↦ grow_heap-full m b n fuel need h c (ground arith)
    ]
