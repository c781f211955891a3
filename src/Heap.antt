-- ===== src/Heap.antt =====
-- internal/bpf.go: `Xmalloc` and `Xfree`, `_calloc` in Calloc and `_realloc` in Realloc. The
-- allocator keeps its break, the end of its memory and the last block in three words of the linear
-- memory. Blocks are taken from the break upwards, and only the last one can be given back. `none`
-- is a Go panic.
pub mod Arena
pub mod Grow
pub mod Malloc
pub mod Free
pub mod Calloc
pub mod Fresh
pub mod Realloc
use go_pcapfilter.Prelude.{
  ℕ, zero, suc, ◌+◌, ◌*◌, ◌/◌, leb, ltb, ◌==◌, if◌then◌else◌, bit_and, Option, none, some, ◌>>=◌,
}
use go_pcapfilter.Wasm.Words.{add32, sub32, neg32, u32}
use go_pcapfilter.Wasm.Memory.{Memory, load32, store32, memory_grow}

abbrev pub break_word : ℕ
break_word = 125436

abbrev pub limit_word : ℕ
limit_word = 125440

abbrev pub last_word : ℕ
last_word = 127524

-- The label l0 of `Xmalloc`: the block at `p`, of `n` bytes.
unfoldable pub take_block : Memory → ℕ → ℕ → Option (Memory × ℕ)
take_block m p n = do m ← store32 m last_word p; m ← store32 m break_word (add32 p n); some (m, p)

-- One round of the loop from the label l1, after the memory has grown. `limit` and `brk` are v3 and
-- v4; `retry` is the next round, from the new limit, break and room.
unfoldable pub extend_heap :
    (Memory → ℕ → ℕ → ℕ → Option (Memory × ℕ))
    → ℕ
    → ℕ
    → ℕ
    → ℕ
    → Memory × Option ℕ
    → Option (Memory × ℕ)
extend_heap retry n limit brk need (m, none) = some (m, 0)
extend_heap retry n limit brk need (m, some old) =
    let start = u32 (old * 65536) in
    let next = u32 ((old + need / 65536) * 65536) in
    let whole = bit_and need (neg32 65536) in
    if limit == start
    then (do m ← store32 m limit_word (add32 limit whole); take_block m brk n)
    else do
      m ← store32 m break_word start
      m ← store32 m limit_word next
      if ltb whole n then retry m next start whole else take_block m start n

-- The loop. The second growth starts where the first one ended, so two rounds are enough.
unfoldable pub grow_heap : ℕ → Memory → ℕ → ℕ → ℕ → ℕ → Option (Memory × ℕ)
grow_heap zero m n limit brk room = none
grow_heap (suc fuel) m n limit brk room =
    let need = add32 (sub32 n room) 0xffff in
    extend_heap (λ m limit brk room. grow_heap fuel m n limit brk room) n limit brk need
      (memory_grow m (need / 65536) 65536)

-- A size that is not positive gives the null pointer, as does a memory that cannot grow.
unfoldable pub malloc : Memory → ℕ → Option (Memory × ℕ)
malloc m size = if size == 0 then some (m, 0) else if leb 2147483648 size then some (m, 0) else do
  let n = bit_and (add32 size 15) (neg32 16)
  limit ← load32 m limit_word
  brk ← load32 m break_word
  if leb n (sub32 limit brk)
      then take_block m brk n
      else grow_heap 2 m n limit brk (sub32 limit brk)

-- The last block is given back; any other call changes nothing.
unfoldable pub free : Memory → ℕ → Option Memory
free m p = if p == 0 then some m else do
  last ← load32 m last_word
  if p == last then (do m ← store32 m break_word p; store32 m last_word 0) else some m
