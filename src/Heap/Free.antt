-- ===== src/Heap/Free.antt =====
-- What giving back a block does.
use go_pcapfilter.Prelude.{
  ℕ, ◌%◌, ◌≤◌, ◌<◌, ◌≡◌, ◌≢◌, ◌⊎◌, inl, inr, some, arith, refl, ◌∙◌, ◌==◌, false, Bool-cases,
}
use go_pcapfilter.Wasm.Words.{u32}
use go_pcapfilter.Wasm.Memory.{Memory, load32, put}
use go_pcapfilter.Wasm.Memory.Laws.{put-IsBytes, put_outside, load32-put-Apart, load32-put_self}
use go_pcapfilter.Heap.{break_word, limit_word, last_word, free}
use go_pcapfilter.Heap.Arena.{IsArena, IsHeap, Keeps, store32-put}

abbrev pub released : Memory → ℕ → Memory
released m p = put 4 (put 4 m break_word p) last_word 0

pub released-IsHeap :
    (m : Memory) (p : ℕ)
    → IsArena m
    → p % 16 ≡ 0
    → 127536 ≤ p
    → p ≤ m.size
    → p < 4294967296
    → IsHeap (released m p) p
released-IsHeap m p r al lo hi lt = record {
  arena = record {
    bytes = put-IsBytes 4 last_word _ (put-IsBytes 4 break_word _ r.bytes);
    paged = r.paged;
    low = r.low;
    high = r.high;
    limit =
        load32-put-Apart 4 (put 4 m break_word p) last_word 0 limit_word (inl (omega arith))
        ∙ load32-put-Apart 4 m break_word p limit_word (inr (omega arith))
        ∙ r.limit;
  };
  break =
      let small : u32 p ≡ p = omega arith in
      rw small (
        load32-put-Apart 4 (put 4 m break_word p) last_word 0 break_word (inl (omega arith))
        ∙ load32-put_self m break_word p lt (omega (arith, r.low)));
  aligned = al;
  above = lo;
  inside = hi;
}

pub released-Keeps : (m : Memory) (p : ℕ) → Keeps p m (released m p)
released-Keeps m p = record {
  size = omega arith;
  same = λ a lt g h.
      put_outside 4 (put 4 m break_word p) last_word 0 a (omega arith)
      ∙ put_outside 4 m break_word p a (omega arith);
}

-- `Xfree` of a block inside a well-formed heap: if it is the last block, the heap ends at its start
-- again, and every byte below it is kept but the allocator's; if not, nothing changes.
pub free-IsHeap :
    (m : Memory) (b p last : ℕ)
    → IsHeap m b
    → load32 m last_word ≡ some last
    → p % 16 ≡ 0
    → 127536 ≤ p
    → p < b
    → ((p ≡ last) × (m' : Memory) × (free m p ≡ some m') × IsHeap m' p × Keeps p m m')
      ⊎ ((p ≢ last) × (free m p ≡ some m))
unfolding free
free-IsHeap m b p last h read al lo lt =
    let real : (p == 0) ≡ false = ground arith in
    let first = store32-put m break_word p (omega (arith, h.arena.low)) in
    let second = store32-put (put 4 m break_word p) last_word 0 (omega (arith, h.arena.low)) in
    elim (Bool-cases (p == last)) [
      | inl same ↦ inl (
        ground arith,
        released m p,
        rw (free, real, read, same, first, second) refl,
        released-IsHeap m p h.arena al lo (omega (arith, h.inside))
            (omega (arith, h.inside, h.arena.high)),
        released-Keeps m p,
      )
      | inr other ↦ inr (ground arith, rw (free, real, read, other) refl)
    ]
