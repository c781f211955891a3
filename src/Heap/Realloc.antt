-- ===== src/Heap/Realloc.antt =====
-- internal/bpf.go: `_realloc`, into which the compiler has copied the bodies of `Xmalloc` and
-- `Xfree`.
pub mod Kept
use go_pcapfilter.Prelude.{ℕ, ◌+◌, ◌==◌, ◌||◌, leb, if◌then◌else◌, min, Option, none, some, ◌>>=◌}
use go_pcapfilter.Wasm.Words.{sub32}
use go_pcapfilter.Wasm.Memory.{Memory, load32, store32, memory_copy}
use go_pcapfilter.Heap.{break_word, last_word, malloc, free}

-- After the allocation of `q`: the label l4 for a null pointer, with the break as it was, and the
-- label l7 for a block, to which the bytes are copied if it is a new one.
unfoldable pub move_block : ℕ → ℕ → ℕ → Memory × ℕ → Option (Memory × ℕ)
move_block p size old (m, q) =
    if q == 0
    then (do m ← store32 m break_word old; some (m, 0))
    else if p == q
    then some (m, q)
    else if min size (sub32 old p) == 0
    then some (m, q)
    else do m ← memory_copy m q p (min size (sub32 old p)); some (m, q)

-- From the label l3: the last block is given back before the new one is taken.
unfoldable pub resize : Memory → ℕ → ℕ → ℕ → Option (Memory × ℕ)
resize m p size last = do
  old ← load32 m break_word
  m ← (if p == last then store32 m break_word p else some m)
  allocated ← malloc m size
  move_block p size old allocated

-- A block of up to 16 bytes is left where it is, unless it is the last one.
unfoldable pub realloc : Memory → ℕ → ℕ → Option (Memory × ℕ)
realloc m p size =
    if p == 0 then malloc m size else if size == 0 then (do m ← free m p; some (m, 0)) else do
      last ← load32 m last_word
      if leb size 16
          then (if p == last then resize m p size last else some (m, p))
          else resize m p size last
