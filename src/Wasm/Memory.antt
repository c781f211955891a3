-- ===== src/Wasm/Memory.antt =====
-- internal/bpf.go: loads, stores and bulk operations on the linear memory, a Go byte slice. A slice
-- is its length, which is also taken for its capacity, and its bytes; `none` is the Go panic of an
-- index or a slice bound out of range.
pub mod Laws
pub mod Fill
pub mod Texts
pub mod Puts
use go_pcapfilter.Prelude.{
  zero, suc, List, [], ◌∷◌, length, ℕ, ◌+◌, ◌-◌, ◌*◌, ◌/◌, ◌%◌, ◌^◌, Bool, ◌&&◌, ltb, leb, ◌==◌,
  if◌then◌else◌, min, Option, none, some,
}

pub record Memory : Type 0 where
  pub size : ℕ
  pub byte : ℕ → ℕ

-- `mem[addr]`
unfoldable pub load8 : Memory → ℕ → Option ℕ
load8 m a = if ltb a m.size then some (m.byte a) else none

abbrev pub le16 : Memory → ℕ → ℕ
le16 m a = m.byte a + 256 * m.byte (a + 1)

abbrev pub le32 : Memory → ℕ → ℕ
le32 m a = m.byte a + 256 * m.byte (a + 1) + 65536 * m.byte (a + 2) + 16777216 * m.byte (a + 3)

unfoldable pub load16 : Memory → ℕ → Option ℕ
load16 m a = if leb (a + 2) m.size then some (le16 m a) else none

unfoldable pub load32 : Memory → ℕ → Option ℕ
load32 m a = if leb (a + 4) m.size then some (le32 m a) else none

-- The eight bytes at `a` as one number, lowest first.
unfoldable pub load64 : Memory → ℕ → Option ℕ
load64 m a = if leb (a + 8) m.size then some (le32 m a + 4294967296 * le32 m (a + 4)) else none

abbrev pub within : ℕ → ℕ → ℕ → Bool
within p n a = leb p a && ltb a (p + n)

-- Write the `n` low bytes of `v` at `p`, lowest first.
abbrev pub put : ℕ → Memory → ℕ → ℕ → Memory
put n m p v = record m { byte = λ a. if within p n a then v / 256 ^ (a - p) % 256 else m.byte a }

-- `mem[addr] = byte(v)`
unfoldable pub store8 : Memory → ℕ → ℕ → Option Memory
store8 m a v = if ltb a m.size then some (put 1 m a v) else none

unfoldable pub store16 : Memory → ℕ → ℕ → Option Memory
store16 m a v = if leb (a + 2) m.size then some (put 2 m a v) else none

unfoldable pub store32 : Memory → ℕ → ℕ → Option Memory
store32 m a v = if leb (a + 4) m.size then some (put 4 m a v) else none

unfoldable pub store64 : Memory → ℕ → ℕ → Option Memory
store64 m a v = if leb (a + 8) m.size then some (put 8 m a v) else none

-- `copy(buf[i:], buf[:chunk])` inside the buffer at `dest`: `n` bytes from its start to `dest + i`.
abbrev pub repeat_start : Memory → ℕ → ℕ → ℕ → Memory
repeat_start m dest i n = record m {
  byte = λ a. if within (dest + i) n a then m.byte (dest + (a - (dest + i))) else m.byte a;
}

-- The loop of `memory_fill`: the first `i` bytes of the buffer are set, and are copied on.
unfoldable pub fill_loop : ℕ → Memory → ℕ → ℕ → ℕ → Option Memory
fill_loop zero m dest len i = none
fill_loop (suc fuel) m dest len i =
    let n = min (len - i) (min i 8192) in
    let rest = fill_loop fuel (repeat_start m dest i n) dest len (i + n) in
    if ltb i len then rest else some m

-- Each round sets a byte at least, so the length is enough fuel.
unfoldable pub memory_fill : Memory → ℕ → ℕ → ℕ → Option Memory
memory_fill m dest v n =
    if leb (dest + n) m.size
    then (if ltb 0 n then fill_loop n (put 1 m dest (v % 256)) dest n 1 else some m)
    else none

unfoldable pub memory_zero : Memory → ℕ → ℕ → Option Memory
memory_zero m dest n =
    if leb (dest + n) m.size
    then some (record m { byte = λ a. if within dest n a then 0 else m.byte a })
    else none

-- Go's `copy` reads all of the source first, so overlapping ranges are moved whole.
unfoldable pub memory_copy : Memory → ℕ → ℕ → ℕ → Option Memory
memory_copy m dest src n =
    if leb (dest + n) m.size && leb (src + n) m.size
    then some
        (record m { byte = λ a. if within dest n a then m.byte (src + (a - dest)) else m.byte a })
    else none

-- Pages of 65,536 bytes. The grown part reads as 0. The result is the old page count, or -1 as
-- `none`, and the memory that the call leaves. `delta` and `max` are the bits of int64 numbers.
unfoldable pub memory_grow : Memory → ℕ → ℕ → Memory × Option ℕ
memory_grow m delta max =
    let old = m.size / 65536 in
    if delta == 0
    then (m, some old)
    else if ltb (min max 140737488355327) (old + delta)
    then (m, none)
    else (
      record { size = (old + delta) * 65536; byte = λ a. if ltb a m.size then m.byte a else 0 },
      some old,
    )

-- `src[i]`, or `d` past the end.
abbrev pub cell_or : List ℕ → ℕ → ℕ → ℕ
cell_or [] i d = d
cell_or (x ∷ xs) zero d = x
cell_or (x ∷ xs) (suc i) d = cell_or xs i d

-- Go's `copy(mem[p:], src)`: as many bytes as both have, and that number. The
-- slice `mem[p:]` has to exist.
unfoldable pub copy_in : Memory → ℕ → List ℕ → Memory × ℕ
copy_in m p src =
    let n = min (m.size - p) (length src) in
    (
      record m { byte = λ a. if leb p a && ltb a (p + n) then cell_or src (a - p) 0 else m.byte a },
      n,
    )

-- The `k` bytes from `p` on, as a list.
unfoldable pub cells : Memory → ℕ → ℕ → List ℕ
cells m p zero = []
cells m p (suc k) = m.byte p ∷ cells m (p + 1) k
