-- ===== src/Heap/Calloc.antt =====
-- internal/bpf.go: `_calloc`, into which the compiler has copied the body of `Xmalloc`. A size of
-- more than 32 bits gives the null pointer.
use go_pcapfilter.Prelude.{
  ℕ, ◌+◌, ◌-◌, ◌*◌, ◌/◌, ◌%◌, ◌≤◌, ◌<◌, ◌≡◌, inr, ◌==◌, leb, true, false, not, if◌then◌else◌,
  Option, some, refl, arith, ◌∙◌,
}
use go_pcapfilter.Wasm.Words.{u32, add32}
use go_pcapfilter.Wasm.Memory.{Memory, load32, put}
use go_pcapfilter.Wasm.Memory.Laws.{put_outside}
use go_pcapfilter.Heap.{break_word, last_word, take_block, malloc, free}
use go_pcapfilter.Heap.Arena.{IsHeap, rounded, store32-put}
use go_pcapfilter.Heap.Malloc.{malloc-opened}
use go_pcapfilter.Heap.Free.{released, released-IsHeap}

unfoldable pub calloc : Memory → ℕ → ℕ → Option (Memory × ℕ)
calloc m count size =
    if not (count * size / 4294967296 == 0) then some (m, 0) else malloc m (u32 (count * size))

-- The heap after `n` bytes are taken at `p`.
abbrev taken : Memory → ℕ → ℕ → Memory
taken m p n = put 4 (put 4 m last_word p) break_word (add32 p n)

take_block-taken :
    (m : Memory) (p n : ℕ) → 131072 ≤ m.size → take_block m p n ≡ some (taken m p n, p)
unfolding take_block
take_block-taken m p n low =
    let first = store32-put m last_word p (omega arith) in
    let second = store32-put (put 4 m last_word p) break_word (add32 p n) (omega arith) in
    rw (take_block, first, second) refl

module _ (m : Memory) (b p : ℕ) (h : IsHeap m b) (last : load32 m last_word ≡ some p)
    (al : p % 16 ≡ 0) (lo : 127536 ≤ p) (lt : p < b) where
  free-released : free m p ≡ some (released m p)
  unfolding free
  free-released =
      let real : (p == 0) ≡ false = ground arith in
      let same : (p == p) ≡ true = ground arith in
      let first = store32-put m break_word p (omega (arith, h.arena.low)) in
      let second = store32-put (put 4 m break_word p) last_word 0 (omega (arith, h.arena.low)) in
      rw (free, real, last, same, first, second) refl

  freed-IsHeap : IsHeap (released m p) p
  freed-IsHeap =
      released-IsHeap m p h.arena al lo (omega (arith, h.inside))
        (omega (arith, h.inside, h.arena.high))

  calloc-taken :
      (count size : ℕ)
      → 0 < count * size
      → count * size < 2147483648
      → p + rounded (count * size) ≤ m.size
      → calloc (released m p) count size ≡ some (taken (released m p) p (rounded (count * size)), p)
  unfolding calloc
  calloc-taken count size pos short fits =
      let n : ℕ = count * size in
      let narrow : (n / 4294967296 == 0) ≡ true = ground arith in
      let same : u32 n ≡ n = omega arith in
      let start : u32 p ≡ p = omega (arith, h.inside, h.arena.high) in
      let room : leb (rounded n) (m.size - p) ≡ true = ground arith in
      let opened = malloc-opened (released m p) p n freed-IsHeap pos short in
      let took = take_block-taken (released m p) p (rounded n) h.arena.low in
      rw (calloc, narrow, same, opened, room, start) took

  -- Where the last block of a well-formed heap is given back, and `_calloc` is asked for a positive
  -- size, below 2 ^ 31, that fits the memory from the start of the block, it returns the block as
  -- it was: no byte from its start on is cleared.
  pub calloc_uncleared :
      (count size : ℕ)
      → 0 < count * size
      → count * size < 2147483648
      → p + rounded (count * size) ≤ m.size
      → (m₁ m₂ : Memory) × (free m p ≡ some m₁)
        × (calloc m₁ count size ≡ some (m₂, p))
        × ((a : ℕ) → p ≤ a → m₂.byte a ≡ m.byte a)
  calloc_uncleared count size pos short fits =
      let n : ℕ = rounded (count * size) in
      (
        released m p,
        taken (released m p) p n,
        free-released,
        calloc-taken count size pos short fits,
        λ a le.
            put_outside 4 (put 4 (released m p) last_word p) break_word (add32 p n) a
              (inr (omega arith))
            ∙ put_outside 4 (released m p) last_word p a (inr (omega arith))
            ∙ put_outside 4 (put 4 m break_word p) last_word 0 a (inr (omega arith))
            ∙ put_outside 4 m break_word p a (inr (omega arith)),
      )
