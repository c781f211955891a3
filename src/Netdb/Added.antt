-- ===== src/Netdb/Added.antt =====
-- The nodes that are added for an address of each family.
use go_pcapfilter.Prelude.{
  ℕ, zero, suc, ◌+◌, ◌/◌, ◌%◌, ◌^◌, ◌≤◌, ◌<◌, ◌≡◌, ◌⊎◌, inl, inr, List, [], ◌∷◌, some, All, arith,
  refl, ◌∙◌,
}
use go_pcapfilter.Wasm.Words.{IsU32}
use go_pcapfilter.Wasm.Memory.{Memory, load32, store16, store64, put, le32}
use go_pcapfilter.Wasm.Memory.Laws.{IsBytes, Apart}
use go_pcapfilter.Wasm.Memory.Puts.{Stores, puts, puts-size, puts-Clear, Clear, Clear-append}
use go_pcapfilter.Heap.{break_word, last_word, malloc}
use go_pcapfilter.Heap.Arena.{IsHeap, Keeps, rounded}
use go_pcapfilter.Heap.Grow.{Tight, Keeps-trans}
use go_pcapfilter.Heap.Malloc.{malloc-Allocates}
use go_pcapfilter.Heap.Calloc.{calloc}
use go_pcapfilter.Heap.Fresh.{Cleared, calloc-Cleared}
use go_pcapfilter.Netdb.Nodes.{
  address_length, IsAddress, IsNode, IsHeap-puts, Cleared-puts, node_stores, linked-tail,
  linked-IsNode,
}

-- A block of `n` bytes, in a heap with only zeros behind its end.
calloc-IsHeap :
    (m : Memory) (b n : ℕ)
    → IsHeap m b
    → (lo : ℕ) → 127528 ≤ lo
    → Cleared lo m
    → 0 < n
    → n % 16 ≡ 0
    → n ≤ 32
    → b + n ≤ 4294967296
    → (m' : Memory) × (calloc m 1 n ≡ some (m', b))
      × IsHeap m' (b + n)
      × Keeps b m m'
      × Cleared lo m'
      × Tight m m' (b + n)
unfolding calloc
calloc-IsHeap m b n h lo static clear pos al small room =
    let whole : rounded n ≡ n = omega arith in
    let one : calloc m 1 n ≡ malloc m n = ground arith in
    elim (malloc-Allocates m b n h pos (omega arith)) [
      | inl (null, full) ↦ absurd (omega arith)
      | inr (m', taken, h', keeps, tight) ↦ (
        m',
        one ∙ taken,
        rw whole at h',
        keeps,
        calloc-Cleared lo m m' 1 n b static clear (one ∙ taken),
        rw whole at tight,
      )
    ]

-- The two blocks of a node.
pub both_blocks :
    (m : Memory) (b n : ℕ)
    → IsHeap m b
    → 127840 ≤ b
    → Cleared b m
    → 0 < n
    → n % 16 ≡ 0
    → n ≤ 32
    → b + 32 + n ≤ 4294967296
    → (m₁ m₂ : Memory) × (calloc m 1 32 ≡ some (m₁, b))
      × (calloc m₁ 1 n ≡ some (m₂, b + 32))
      × IsHeap m₂ (b + 32 + n)
      × Keeps b m m₂
      × Cleared b m₂
      × Tight m m₂ (b + 32 + n)
both_blocks m b n h static clear pos al small room =
    let (m₁, first, h₁, keeps₁, clear₁, tight₁) =
      calloc-IsHeap m b 32 h b (omega arith) clear (omega arith) refl (omega arith) (omega arith) in
    let (m₂, second, h₂, keeps₂, clear₂, tight₂) =
      calloc-IsHeap m₁ (b + 32) n h₁ b (omega arith) clear₁ pos al small room in
    (
      m₁,
      m₂,
      first,
      second,
      h₂,
      Keeps-trans b m m₁ m₂ keeps₁
          (record { size = keeps₂.size; same = λ a lt g l. keeps₂.same a (omega arith) g l }),
      clear₂,
      ground (arith, tight₁, tight₂),
    )

pub store16-put : (m : Memory) (a v : ℕ) → a + 2 ≤ m.size → store16 m a v ≡ some (put 2 m a v)
unfolding store16
store16-put m a v h = ground arith

pub store64-put : (m : Memory) (a v : ℕ) → a + 8 ≤ m.size → store64 m a v ≡ some (put 8 m a v)
unfolding store64
store64-put m a v h = ground arith

pub le32_digit :
    (m : Memory) (a i : ℕ) → IsBytes m → i < 4 → le32 m a / 256 ^ i % 256 ≡ m.byte (a + i)
le32_digit m a zero w lt =
    let at : a + 0 ≡ a = omega arith in
    rw at (omega (arith, w.bytes a, w.bytes (a + 1), w.bytes (a + 2), w.bytes (a + 3)))
le32_digit m a (suc zero) w lt =
    omega (arith, w.bytes a, w.bytes (a + 1), w.bytes (a + 2), w.bytes (a + 3))
le32_digit m a (suc (suc zero)) w lt =
    omega (arith, w.bytes a, w.bytes (a + 1), w.bytes (a + 2), w.bytes (a + 3))
le32_digit m a (suc (suc (suc zero))) w lt =
    omega (arith, w.bytes a, w.bytes (a + 1), w.bytes (a + 2), w.bytes (a + 3))
le32_digit m a (suc (suc (suc (suc i)))) w lt = absurd (omega arith)

-- What an added node leaves, for a heap that ended at `b` and ends at `e` now.
pub record Added (m m' : Memory) (b e tail socktype family : ℕ) (octets : List ℕ) : Type 0 where
  pub heap : IsHeap m' e
  pub cleared : Cleared e m'
  pub node : IsNode m' b socktype family octets 0
  pub linked : load32 m' tail ≡ some b
  pub size : m.size ≤ m'.size
  pub tight : Tight m m' e
  pub same :
      (a : ℕ)
      → a < b
      → Apart a 1 tail 4
      → Apart a 1 break_word 8
      → Apart a 1 last_word 4
      → m'.byte a ≡ m.byte a

-- Stores between `lo` and `hi`.
abbrev pub Within : ℕ → ℕ → Stores → Type 0
Within lo hi stores = All (λ s. (lo ≤ s.1.0) × (s.1.0 + s.0 ≤ hi)) stores

Within-Clear :
    (lo hi a k : ℕ) (stores : Stores)
    → (a + k ≤ lo) ⊎ (hi ≤ a)
    → Within lo hi stores
    → Clear a k stores
Within-Clear lo hi a k [] away within = tt
Within-Clear lo hi a k (s ∷ stores) away ((low, high), within) =
    (ground arith, Within-Clear lo hi a k stores away within)

load32-zero : (m : Memory) (lo a : ℕ) → Cleared lo m → lo ≤ a → a + 4 ≤ m.size → load32 m a ≡ some 0
unfolding load32
load32-zero m lo a clear le fits =
    ground (arith, clear a, clear (a + 1), clear (a + 2), clear (a + 3))

-- The stores of a node in two new blocks.
pub added :
    (m m₂ : Memory) (front : Stores) (b tail socktype family : ℕ) (octets : List ℕ)
    → IsHeap m₂ (b + 32 + address_length family)
    → Keeps b m m₂
    → Cleared b m₂
    → Tight m m₂ (b + 32 + address_length family)
    → 127840 ≤ b
    → IsU32 socktype
    → (family ≡ 1) ⊎ (family ≡ 2)
    → Within (b + 32) (b + 32 + address_length family) front
    → tail + 4 ≤ b
    → Apart break_word 8 tail 4
    → IsAddress (puts m₂ (node_stores front b socktype family tail)) (b + 32) family octets
    → Added m
        (puts m₂ (node_stores front b socktype family tail))
        b
        (b + 32 + address_length family)
        tail
        socktype
        family
        octets
added m m₂ front b tail socktype family octets h keeps clear tight static small kind within below
      apart address =
    let stores : Stores = node_stores front b socktype family tail in
    let n : (address_length family ≡ 16) ⊎ (address_length family ≡ 32) = ground arith in
    let fits : b + 48 ≤ m₂.size = omega (arith, h.inside) in
    let high : b + 48 ≤ 4294967296 = omega (arith, h.inside, h.arena.high) in
    let fits_tail : tail + 4 ≤ m₂.size = omega arith in
    let clear_front : (a k : ℕ)
        → (a + k ≤ b + 32) ⊎ (b + 32 + address_length family ≤ a)
        → Clear a k front =
      λ a k away. Within-Clear (b + 32) (b + 32 + address_length family) a k front away within in
    record {
      heap =
          IsHeap-puts m₂ (b + 32 + address_length family) stores
            (Clear-append break_word 8 front _ (clear_front break_word 8 (inl (omega arith)))
              (ground arith))
            h;
      cleared =
          Cleared-puts (b + 32 + address_length family) m₂ stores
            (λ a le. Clear-append a 1 front _ (clear_front a 1 (inr le)) (ground arith))
            (λ a le lt. clear a (omega arith) lt);
      node =
          linked-IsNode m₂ front b socktype family tail octets (omega arith) small kind fits
            fits_tail (inl below) (load32-zero m₂ b (b + 28) clear (omega arith) (omega arith))
            (clear_front (b + 28) 4 (inl (omega arith))) address;
      linked =
          linked-tail m₂ front b socktype family tail octets (omega arith) small kind fits fits_tail
            (inl below);
      tight = rw (puts-size m₂ stores) tight;
      size = omega (arith, puts-size m₂ stores, keeps.size);
      same = λ a lt away g l.
          let at : a + 0 ≡ a = omega arith in
          rw at at (
            puts-Clear m₂ stores a 1 0
              (Clear-append a 1 front _ (clear_front a 1 (inl (omega arith))) (ground arith))
              (omega arith))
          ∙ keeps.same a lt g l;
    }
