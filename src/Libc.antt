-- ===== src/Libc.antt =====
-- internal/libc.go: the string functions that replace those of C. A comparison gives 0, 1 or the
-- bits of -1, as `bytes.Compare` does. `none` is a Go panic.
pub mod Lists
pub mod Strings
pub mod Copy
use go_pcapfilter.Prelude.{
  ℕ, zero, suc, ◌+◌, ◌-◌, ◌%◌, Bool, ◌&&◌, ◌||◌, ltb, leb, ◌==◌, if◌then◌else◌, min, List, [], ◌∷◌,
  Option, none, some, ◌>>=◌, length, take,
}
use go_pcapfilter.Wasm.Words.{add32, sub32, neg32, u32}
use go_pcapfilter.Wasm.Memory.{Memory, load8, cells}

-- `bytes.Compare`
unfoldable pub compare_bytes : List ℕ → List ℕ → ℕ
compare_bytes [] [] = 0
compare_bytes [] (d ∷ ds) = neg32 1
compare_bytes (c ∷ cs) [] = 1
compare_bytes (c ∷ cs) (d ∷ ds) =
    let rest = compare_bytes cs ds in if c == d then rest else if ltb c d then neg32 1 else 1

-- `bytes.IndexByte`
unfoldable pub index_byte : List ℕ → ℕ → Option ℕ
index_byte [] c = none
index_byte (d ∷ ds) c =
    let rest = index_byte ds c in if d == c then some 0 else do i ← rest; some (i + 1)

-- `m.memory[uint32(s):]`
unfoldable pub from : Memory → ℕ → Option (List ℕ)
from m s = if leb s m.size then some (cells m s (m.size - s)) else none

-- `m.memory[uint32(s):uint32(e):len(m.memory)]`
unfoldable pub between : Memory → ℕ → ℕ → Option (List ℕ)
between m s e = if leb s e && leb e m.size then some (cells m s (e - s)) else none

unfoldable pub memcmp : Memory → ℕ → ℕ → ℕ → Option ℕ
memcmp m s1 s2 n = if s1 == s2 then some 0 else do
  b1 ← between m s1 (add32 s1 n)
  b2 ← between m s2 (add32 s2 n)
  some (compare_bytes b1 b2)

unfoldable pub strcmp : Memory → ℕ → ℕ → Option ℕ
strcmp m s1 s2 = if s1 == s2 then some 0 else do
  b1 ← from m s1
  b2 ← from m s2
  let sz = min (length b1) (length b2)
  let end : ℕ = elim (index_byte (take sz b2) 0) [ none ↦ sz | some i ↦ i + 1 ]
  some (compare_bytes (take end b1) (take end b2))

unfoldable pub strlen : Memory → ℕ → Option ℕ
strlen m s = do b ← from m s; some (elim (index_byte b 0) [ none ↦ neg32 1 | some i ↦ u32 i ])

-- The loop of `_strchrnul`: the index where it returns.
unfoldable pub chrnul_index : List ℕ → ℕ → Option ℕ
chrnul_index [] c = none
chrnul_index (d ∷ ds) c =
    let rest = chrnul_index ds c in
    if d == 0 || d == c % 256 then some 0 else do i ← rest; some (i + 1)

unfoldable pub strchrnul : Memory → ℕ → ℕ → Option ℕ
strchrnul m s c = do
  b ← from m s
  some (elim (chrnul_index b c) [ none ↦ neg32 1 | some i ↦ add32 s (u32 i) ])

unfoldable pub strchr : Memory → ℕ → ℕ → Option ℕ
strchr m s c = do s ← strchrnul m s c; d ← load8 m s; some (if d == c % 256 then s else 0)
