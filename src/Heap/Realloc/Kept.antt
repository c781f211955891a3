-- ===== src/Heap/Realloc/Kept.antt =====
-- A block that is resized keeps its bytes.
use go_pcapfilter.Prelude.{
  ℕ, ◌+◌, ◌-◌, ◌%◌, ◌≤◌, ◌<◌, ◌≡◌, ◌≢◌, ◌⊎◌, inl, inr, ◌==◌, ==_iff, true, false, leb, leb→le,
  if◌then◌else◌, min, some, arith, refl, ◌∙◌, sym, ap, Bool-cases,
}
use go_pcapfilter.Wasm.Words.{sub32, u32}
use go_pcapfilter.Wasm.Memory.{Memory, load32, memory_copy, put, within}
use go_pcapfilter.Wasm.Memory.Laws.{put_outside, put-IsBytes, load32-put_self, load32-put-Apart}
use go_pcapfilter.Heap.{break_word, limit_word, last_word, malloc}
use go_pcapfilter.Heap.Arena.{IsHeap, rounded, store32-put}
use go_pcapfilter.Heap.Malloc.{malloc-IsHeap}
use go_pcapfilter.Heap.Fresh.{malloc-same}
use go_pcapfilter.Env.Text.{IsHeap-above}
use go_pcapfilter.Heap.Realloc.{move_block, resize, realloc}

-- The arena with its break at `p`.
broken_at-IsHeap :
    (m : Memory) (b p : ℕ)
    → IsHeap m b
    → p % 16 ≡ 0
    → 127536 ≤ p
    → p < 4294967296
    → p ≤ m.size
    → IsHeap (put 4 m break_word p) p
broken_at-IsHeap m b p h al lo lt hi = record {
  arena = record {
    bytes = put-IsBytes 4 break_word p h.arena.bytes;
    paged = h.arena.paged;
    low = h.arena.low;
    high = h.arena.high;
    limit = load32-put-Apart 4 m break_word p limit_word (inr (omega arith)) ∙ h.arena.limit;
  };
  break =
      let small : u32 p ≡ p = omega arith in
      rw small (load32-put_self m break_word p lt (omega (arith, h.arena.low)));
  aligned = al;
  above = lo;
  inside = hi;
}

-- The block at `q`, of `size` bytes, begins with the bytes of the one at `p`, up to `b`.
abbrev pub Moved : Memory → Memory → ℕ → ℕ → ℕ → ℕ → Type 0
Moved m m' p q size b = (i : ℕ) → i < size → p + i < b → m'.byte (q + i) ≡ m.byte (p + i)

module _ (m : Memory) (b p size : ℕ) (h : IsHeap m b) (al : p % 16 ≡ 0) (lo : 127536 ≤ p)
    (lt : p < b) (pos : 0 < size) (short : size < 2147483648) (low : b < 4294967296) where
  -- The last block: it stays where it is, or nothing changes.
  resize_last :
      ((m' : Memory) × (resize m p size p ≡ some (m', 0))
        × IsHeap m' b
        × (4294967296 < p + rounded size)
        × ((a : ℕ) → 127536 ≤ a → m'.byte a ≡ m.byte a))
      ⊎ ((m' : Memory) × (resize m p size p ≡ some (m', p))
          × IsHeap m' (p + rounded size)
          × Moved m m' p p size b)
  unfolding resize move_block
  resize_last =
      let m₁ : Memory = put 4 m break_word p in
      let h₁ = broken_at-IsHeap m b p h al lo (omega arith) (omega (arith, h.inside)) in
      let same : (p == p) ≡ true = ground arith in
      let real : (p == 0) ≡ false = ground arith in
      let first = store32-put m break_word p (omega (arith, h.arena.low)) in
      elim (malloc-IsHeap m₁ p size h₁ pos short) [
        | inl (null, full) ↦
            let back = store32-put m₁ break_word (u32 b) (omega (arith, h.arena.low)) in
            let small : u32 b ≡ b = omega arith in
            inl (
              put 4 m₁ break_word (u32 b),
              rw (resize, h.break, same, first, null, back) refl,
              rw small (broken_at-IsHeap m₁ p b h₁ h.aligned h.above low h.inside),
              full,
              λ a le.
                  put_outside 4 m₁ break_word (u32 b) a (inr (omega arith))
                  ∙ put_outside 4 m break_word p a (inr (omega arith)),
            )
        | inr (m₂, taken, h₂, keeps) ↦ inr (
          m₂,
          rw (resize, h.break, same, first, taken, real, same) refl,
          h₂,
          λ i small inside.
              malloc-same m₁ m₂ size p (p + i) taken (omega arith) (omega (arith, h.inside))
              ∙ put_outside 4 m break_word p (p + i) (inr (omega arith)),
        )
      ]

  -- The bytes are copied to a new block at `b`.
  copied :
      (m₂ : Memory) (n : ℕ)
      → IsHeap m₂ (b + rounded size)
      → n ≤ size
      → p + n ≤ b
      → (m' : Memory) × (memory_copy m₂ b p n ≡ some m')
        × IsHeap m' (b + rounded size)
        × ((i : ℕ) → i < n → m'.byte (b + i) ≡ m₂.byte (p + i))
        × ((a : ℕ) → a < b → m'.byte a ≡ m₂.byte a)
  unfolding memory_copy
  copied m₂ n h₂ small before =
      let fits : leb (b + n) m₂.size ≡ true = ground (arith, h₂.inside) in
      let fits' : leb (p + n) m₂.size ≡ true = ground (arith, h₂.inside) in
      let moved : Memory = record m₂ {
        byte = λ a. if within b n a then m₂.byte (p + (a - b)) else m₂.byte a;
      } in
      let below : (a : ℕ) → a < b → moved.byte a ≡ m₂.byte a = λ a lt. ground arith in
      (
        moved,
        rw (fits, fits') refl,
        IsHeap-above m₂ moved (b + rounded size) b h₂
            (record {
              bytes =
                  λ a. ground (arith, h₂.arena.bytes.bytes a, h₂.arena.bytes.bytes (p + (a - b)));
            })
            refl h.above below,
        λ i lt. let at : b + i - b ≡ i = omega arith in rw at (ground arith),
        below,
      )

  resize_moves :
      (last : ℕ)
      → p ≢ last
      → (m₂ m' : Memory) → malloc m size ≡ some (m₂, b)
      → memory_copy m₂ b p (min size (b - p)) ≡ some m'
      → resize m p size last ≡ some (m', b)
  unfolding resize move_block
  resize_moves last other m₂ m' taken copy =
      let elsewhere : (p == last) ≡ false = ground arith in
      let real : (b == 0) ≡ false = ground arith in
      let fresh : (p == b) ≡ false = ground arith in
      let count : sub32 (u32 b) p ≡ b - p = omega arith in
      let some_bytes : (min size (b - p) == 0) ≡ false = ground arith in
      rw (resize, h.break, elsewhere, taken, real, fresh, count, some_bytes, copy) refl

  -- Another block: a new one is taken, or nothing changes.
  resize_other :
      (last : ℕ)
      → p ≢ last
      → ((m' : Memory) × (resize m p size last ≡ some (m', 0))
          × IsHeap m' b
          × (4294967296 < b + rounded size)
          × ((a : ℕ) → 127536 ≤ a → m'.byte a ≡ m.byte a))
        ⊎ ((m' : Memory) × (resize m p size last ≡ some (m', b))
            × IsHeap m' (b + rounded size)
            × Moved m m' p b size b)
  unfolding resize move_block
  resize_other last other =
      let elsewhere : (p == last) ≡ false = ground arith in
      elim (malloc-IsHeap m b size h pos short) [
        | inl (null, full) ↦
            let back = store32-put m break_word (u32 b) (omega (arith, h.arena.low)) in
            let small : u32 b ≡ b = omega arith in
            inl (
              put 4 m break_word (u32 b),
              rw (resize, h.break, elsewhere, null, back) refl,
              rw small (broken_at-IsHeap m b b h h.aligned h.above low h.inside),
              full,
              λ a le. put_outside 4 m break_word (u32 b) a (inr (omega arith)),
            )
        | inr (m₂, taken, h₂, keeps) ↦
            let (m', copy, h', at, below) =
              copied m₂ (min size (b - p)) h₂ (omega arith) (omega arith) in
            inr (
              m',
              resize_moves last other m₂ m' taken copy,
              h',
              λ i small inside.
                  at i (omega arith)
                  ∙ keeps.same (p + i) inside (inr (omega arith)) (inr (omega arith)),
            )
      ]

-- `_realloc` of a block inside a well-formed heap, which ends below 2 ^ 32, to a positive size
-- below 2 ^ 31: it returns a block of a well-formed heap that begins with the bytes of the old one,
-- as many as both have; or the null pointer, and then the heap ends where it did and every byte
-- past the allocator's words is as it was.
pub realloc-Moved :
    (m : Memory) (b p size last : ℕ)
    → IsHeap m b
    → load32 m last_word ≡ some last
    → p % 16 ≡ 0
    → 127536 ≤ p
    → p < b
    → b < 4294967296
    → 0 < size
    → size < 2147483648
    → ((m' : Memory) × (realloc m p size ≡ some (m', 0))
        × IsHeap m' b
        × ((a : ℕ) → 127536 ≤ a → m'.byte a ≡ m.byte a))
      ⊎ ((m' : Memory) × (q e : ℕ) × (realloc m p size ≡ some (m', q))
          × IsHeap m' e
          × (q + size ≤ e)
          × Moved m m' p q size b)
unfolding realloc
realloc-Moved m b p size last h read al lo lt low pos short =
    let real : (p == 0) ≡ false = ground arith in
    let wanted : (size == 0) ≡ false = ground arith in
    elim (Bool-cases (p == last)) [
      | inl same ↦
          let at : last ≡ p = sym ((==_iff _ _).0 same) in
          let opened : realloc m p size ≡ resize m p size p = elim (Bool-cases (leb size 16)) [
            | inl small ↦ rw (realloc, real, wanted, read, small, same) (ap (resize m p size) at)
            | inr large ↦ rw (realloc, real, wanted, read, large) (ap (resize m p size) at)
          ] in
          elim (resize_last m b p size h al lo lt pos short low) [
            | inl (m', null, h', full, kept) ↦ inl (m', opened ∙ null, h', kept)
            | inr (m', moved, h', bytes) ↦
                inr (m', p, p + rounded size, opened ∙ moved, h', omega arith, bytes)
          ]
      | inr other ↦ elim (Bool-cases (leb size 16)) [
        | inl small ↦ inr (
          m,
          p,
          b,
          rw (realloc, real, wanted, read, small, other) refl,
          h,
          omega (arith, leb→le _ _ small, h.aligned),
          λ i lt in_block. refl,
        )
        | inr large ↦
            let opened : realloc m p size ≡ resize m p size last =
              rw (realloc, real, wanted, read, large) refl in
            elim (resize_other m b p size h al lo lt pos short low last (ground arith)) [
              | inl (m', null, h', full, kept) ↦ inl (m', opened ∙ null, h', kept)
              | inr (m', moved, h', bytes) ↦
                  inr (m', b, b + rounded size, opened ∙ moved, h', omega arith, bytes)
            ]
      ]
    ]
