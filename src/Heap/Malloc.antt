-- ===== src/Heap/Malloc.antt =====
-- What an allocation gives.
use go_pcapfilter.Prelude.{
  Bool-cases, leb→le, true, false, ℕ, ◌+◌, ◌-◌, ◌*◌, ◌/◌, ◌%◌, ◌≤◌, ◌<◌, ◌≡◌, ◌⊎◌, inl, inr, some,
  arith, refl, ap, ◌∙◌, leb, ◌==◌, if◌then◌else◌, bit_and,
}
use go_pcapfilter.Wasm.Words.{add32, sub32, u32, neg32}
use go_pcapfilter.Wasm.Words.Bits.{and_mask}
use go_pcapfilter.Wasm.Memory.{Memory}
use go_pcapfilter.Heap.{take_block, grow_heap, malloc}
use go_pcapfilter.Heap.Arena.{IsHeap, Keeps, rounded, take_block-IsHeap}
use go_pcapfilter.Heap.Grow.{Allocates, Taken, grow_heap-Allocates}

mask_16 : (v : ℕ) → v < 4294967296 → bit_and v (neg32 16) ≡ v / 16 * 16
mask_16 v h =
    let e : v ≡ v / 16 * 16 + v % 16 = omega arith in
    ap (λ (t : ℕ). bit_and t 4294967280) e
    ∙ and_mask 4 28 (v / 16) (v % 16) (omega arith) (omega arith)

-- From `Xmalloc` to the block or the growth.
pub malloc-opened :
    (m : Memory) (b size : ℕ)
    → IsHeap m b
    → 0 < size
    → size < 2147483648
    → malloc m size ≡ (
        if leb (rounded size) (m.size - b)
        then take_block m (u32 b) (rounded size)
        else grow_heap 2 m (rounded size) (u32 m.size) (u32 b) (m.size - b))
unfolding malloc
malloc-opened m b size h pos lt =
    let no : (size == 0) ≡ false = ground arith in
    let sign : leb 2147483648 size ≡ false = ground arith in
    let up : add32 size 15 / 16 * 16 ≡ rounded size = omega arith in
    let mask : bit_and (add32 size 15) (neg32 16) ≡ rounded size = mask_16 _ (omega arith) ∙ up in
    let room : sub32 (u32 m.size) (u32 b) ≡ m.size - b =
      omega (arith, h.inside, h.above, h.arena.high) in
    rw (no, sign, mask, h.arena.limit, h.break, room) refl

malloc-fits :
    (m : Memory) (b size : ℕ)
    → IsHeap m b
    → 0 < size
    → size < 2147483648
    → b + rounded size ≤ m.size
    → Taken m b (rounded size) (take_block m b (rounded size))
    → Allocates m b (rounded size) (malloc m size)
malloc-fits m b size h pos lt le (m', taken, heap, keeps, size_kept) =
    let small : u32 b ≡ b = omega (arith, h.arena.high) in
    let fits : leb (rounded size) (m.size - b) ≡ true = ground arith in
    inr (m', malloc-opened m b size h pos lt ∙ rw (fits, small) taken, heap, keeps, inl size_kept)

malloc-grows :
    (m : Memory) (b size : ℕ)
    → IsHeap m b
    → 0 < size
    → size < 2147483648
    → m.size < b + rounded size
    → Allocates m b (rounded size) (malloc m size)
malloc-grows m b size h pos lt more =
    let short : leb (rounded size) (m.size - b) ≡ false = ground (arith, h.inside) in
    rw (malloc-opened m b size h pos lt, short)
      (grow_heap-Allocates m b (rounded size) 1 h (omega arith) (omega arith) (omega arith) more)

pub malloc-Allocates :
    (m : Memory) (b size : ℕ)
    → IsHeap m b
    → 0 < size
    → size < 2147483648
    → Allocates m b (rounded size) (malloc m size)
malloc-Allocates m b size h pos lt = elim (Bool-cases (leb (b + rounded size) m.size)) [
  | inl fits ↦
      let le = leb→le _ _ fits in
      malloc-fits m b size h pos lt le (
        take_block-IsHeap m b (rounded size) h.arena h.aligned (omega arith) (omega arith) h.above
          le)
  | inr short ↦ malloc-grows m b size h pos lt (exceeds short)
]
  where
    exceeds : leb (b + rounded size) m.size ≡ false → m.size < b + rounded size
    exceeds e = ground arith

-- For a positive size, `Xmalloc` fails only where the block would pass the end of the address
-- space, and changes nothing then; or it returns the end of the heap, aligned to 16 bytes, and the
-- heap ends past the block, inside the memory, with every byte below it kept but the allocator's.
pub malloc-IsHeap :
    (m : Memory) (b size : ℕ)
    → IsHeap m b
    → 0 < size
    → size < 2147483648
    → ((malloc m size ≡ some (m, 0)) × (4294967296 < b + rounded size))
      ⊎ ((m' : Memory) × (malloc m size ≡ some (m', b))
          × IsHeap m' (b + rounded size)
          × Keeps b m m')
malloc-IsHeap m b size h pos lt = elim (malloc-Allocates m b size h pos lt) [
  | inl fails ↦ inl fails
  | inr (m', taken, heap, keeps, tight) ↦ inr (m', taken, heap, keeps)
]
