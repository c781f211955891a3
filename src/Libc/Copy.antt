-- ===== src/Libc/Copy.antt =====
-- internal/bpf.go: `_strlcpy`, which copies a text into a buffer of a given size.
use go_pcapfilter.Prelude.{
  ℕ, ◌+◌, ◌-◌, ◌≤◌, ◌<◌, ◌≡◌, ◌⊎◌, inl, inr, ◌==◌, ◌&&◌, ltb, leb, min, true, false, Bool-cases,
  if◌then◌else◌, List, length, Option, some, ◌>>=◌, refl, ◌∙◌, arith,
}
use go_pcapfilter.Wasm.Words.{add32, sub32}
use go_pcapfilter.Wasm.Memory.{Memory, memory_copy, store8, put}
use go_pcapfilter.Wasm.Memory.Laws.{put_outside}
use go_pcapfilter.Libc.{strlen}
use go_pcapfilter.Libc.Strings.{IsText, strlen-IsText, IsText-inside}

-- The memory and the length of the text.
unfoldable pub strlcpy : Memory → ℕ → ℕ → ℕ → Option (Memory × ℕ)
strlcpy m dst src size = do
  n ← strlen m src
  if size == 0 then some (m, n) else do
    let room = sub32 size 1
    let count = if ltb room n then room else n
    m ← if count == 0 then some m else memory_copy m dst src count
    m ← store8 m (add32 dst count) 0
    some (m, n)

-- `count` bytes from `src` stand at `dst`, with a final zero, and nothing else has changed.
pub record IsCopied (m m' : Memory) (dst src count : ℕ) : Type 0 where
  pub size : m'.size ≡ m.size
  pub copied : (i : ℕ) → i < count → m'.byte (dst + i) ≡ m.byte (src + i)
  pub ended : m'.byte (dst + count) ≡ 0
  pub outside : (a : ℕ) → (a < dst) ⊎ (dst + count < a) → m'.byte a ≡ m.byte a

-- The copy, before the final zero.
record IsMoved (m m' : Memory) (dst src count : ℕ) : Type 0 where
  size : m'.size ≡ m.size
  copied : (i : ℕ) → i < count → m'.byte (dst + i) ≡ m.byte (src + i)
  outside : (a : ℕ) → (a < dst) ⊎ (dst + count ≤ a) → m'.byte a ≡ m.byte a

move-IsMoved :
    (m : Memory) (dst src count : ℕ)
    → dst + count ≤ m.size
    → src + count ≤ m.size
    → (m' : Memory) × ((if count == 0 then some m else memory_copy m dst src count) ≡ some m')
      × IsMoved m m' dst src count
unfolding memory_copy
move-IsMoved m dst src count to_fits from_fits = elim (Bool-cases (count == 0)) [
  | inl nothing ↦ (
    m,
    rw nothing refl,
    record { size = refl; copied = λ i lt. absurd (ground arith); outside = λ a h. refl },
  )
  | inr some_bytes ↦
      let inside : (leb (dst + count) m.size && leb (src + count) m.size) ≡ true = ground arith in
      (
        record m {
          byte =
              λ a. if leb dst a && ltb a (dst + count) then m.byte (src + (a - dst)) else m.byte a;
        },
        rw (some_bytes, memory_copy, inside) refl,
        record {
          size = refl;
          copied = λ i lt. let at : dst + i - dst ≡ i = omega arith in ground (arith, at);
          outside = λ a h. ground arith;
        },
      )
]

moved-IsCopied :
    (m m' : Memory) (dst src count : ℕ)
    → IsMoved m m' dst src count
    → IsCopied m (put 1 m' (dst + count) 0) dst src count
moved-IsCopied m m' dst src count h = record {
  size = h.size;
  copied = λ i lt. put_outside 1 m' (dst + count) 0 (dst + i) (inl (omega arith)) ∙ h.copied i lt;
  ended = ground arith;
  outside =
      λ a away. put_outside 1 m' (dst + count) 0 a (ground arith) ∙ h.outside a (ground arith);
}

strlcpy-writes :
    (m m₁ : Memory) (dst src size n count : ℕ)
    → strlen m src ≡ some n
    → (size == 0) ≡ false
    → (if ltb (sub32 size 1) n then sub32 size 1 else n) ≡ count
    → (if count == 0 then some m else memory_copy m dst src count) ≡ some m₁
    → m₁.size ≡ m.size
    → m.size ≤ 4294967296
    → dst + count < m.size
    → strlcpy m dst src size ≡ some (put 1 m₁ (dst + count) 0, n)
unfolding strlcpy store8
strlcpy-writes m m₁ dst src size n count read room cut moved kept high inside =
    let at : add32 dst count ≡ dst + count = omega arith in
    let fits : ltb (dst + count) m₁.size ≡ true = ground arith in
    rw (strlcpy, read, room, cut, moved, at, store8, fits) refl

-- In a memory of at most 2 ^ 32 bytes, `_strlcpy` of a text that ends inside the memory returns the
-- length of the text. Without room it changes nothing; else, where the memory has the room behind
-- `dst`, it copies what fits before the last byte of the room, ends it with a zero, and changes
-- nothing else, even if the text and the buffer overlap.
pub strlcpy-IsCopied :
    (m : Memory)
    → m.size ≤ 4294967296
    → (dst src size : ℕ) (t : List ℕ) → IsText m src t
    → dst + size ≤ m.size
    → ((size ≡ 0) × (strlcpy m dst src size ≡ some (m, length t)))
      ⊎ ((0 < size)
          × (m' : Memory) × (strlcpy m dst src size ≡ some (m', length t))
          × IsCopied m m' dst src (min (length t) (size - 1)))
unfolding strlcpy
strlcpy-IsCopied m high dst src size t w fits =
    let read = strlen-IsText m high src t w in
    let count = min (length t) (size - 1) in
    elim (Bool-cases (size == 0)) [
      | inl no_room ↦ inl (ground arith, rw (strlcpy, read, no_room) refl)
      | inr room ↦
          let pos : 0 < size = ground arith in
          let less : sub32 size 1 ≡ size - 1 = omega arith in
          let cut : (if ltb (sub32 size 1) (length t) then sub32 size 1 else length t) ≡ count =
            rw less (ground arith) in
          let (m₁, runs, moved) =
            move-IsMoved m dst src count (omega arith) (omega (arith, IsText-inside m high w)) in
          inr (
            pos,
            put 1 m₁ (dst + count) 0,
            strlcpy-writes m m₁ dst src size (length t) count read room cut runs moved.size high
                (omega arith),
            moved-IsCopied m m₁ dst src count moved,
          )
    ]
