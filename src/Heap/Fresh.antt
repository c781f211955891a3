-- ===== src/Heap/Fresh.antt =====
-- Bytes behind the words of the allocator stay when blocks are taken, and new ones are zero.
use go_pcapfilter.Prelude.{
  ℕ, zero, suc, ◌+◌, Bool, true, false, if◌then◌else◌, ◌>>=◌, ◌==◌, Bool-cases, ltb, refl, ◌≤◌, ◌<◌,
  ◌≡◌, inl, inr, Option, none, some, arith, subst, Option-cases,
}
use go_pcapfilter.Wasm.Memory.{Memory, load32, store32, memory_grow}
use go_pcapfilter.Wasm.Memory.Laws.{put_outside}
use go_pcapfilter.Heap.{
  break_word, limit_word, last_word, take_block, extend_heap, grow_heap, malloc,
}
use go_pcapfilter.Heap.Calloc.{calloc}

-- In a memory of `n` bytes at least, those from `lo` on are given by `f`.
abbrev pub Agrees : ℕ → ℕ → (ℕ → ℕ) → Memory → Type 0
Agrees lo n f m = (n ≤ m.size) × ((a : ℕ) → lo ≤ a → a < m.size → m.byte a ≡ f a)

-- If it is a memory and a block, the memory agrees.
pub record Leaves (lo n : ℕ) (f : ℕ → ℕ) (result : Option (Memory × ℕ)) : Type 0 where
  pub agrees : (m : Memory) (p : ℕ) → result ≡ some (m, p) → Agrees lo n f m

absent {ℓ} : {A : Type ℓ} {a : A} → none ≡ some a → ⊥
absent e = cc

no_block : (lo n : ℕ) (f : ℕ → ℕ) → Leaves lo n f none
no_block lo n f = record { agrees = λ m p e. absurd (absent e) }

a_block :
    (lo n : ℕ) (f : ℕ → ℕ) (m : Memory) (p : ℕ) → Agrees lo n f m → Leaves lo n f (some (m, p))
a_block lo n f m p clear = record {
  agrees = λ m' p' e. let same : m ≡ m' = cc in subst (Agrees lo n f) same clear;
}

store32-Agrees :
    (lo n : ℕ) (f : ℕ → ℕ) (m m' : Memory) (a v : ℕ)
    → a + 4 ≤ lo
    → Agrees lo n f m
    → store32 m a v ≡ some m'
    → Agrees lo n f m'
unfolding store32
store32-Agrees lo n f m m' a v below clear e =
    (ground (arith, clear.0), λ c le lt. ground (arith, clear.1 c, put_outside 4 m a v c))

-- A store below `lo`, and what follows it.
store32-then :
    (lo n : ℕ) (f : ℕ → ℕ) (m : Memory) (a v : ℕ) (rest : Memory → Option (Memory × ℕ))
    → a + 4 ≤ lo
    → Agrees lo n f m
    → ((m' : Memory) → Agrees lo n f m' → Leaves lo n f (rest m'))
    → Leaves lo n f (do m ← store32 m a v; rest m)
store32-then lo n f m a v rest below clear next = elim (Option-cases (store32 m a v)) [
  | inl fails ↦ rw fails (no_block lo n f)
  | inr (m', e) ↦ rw e (next m' (store32-Agrees lo n f m m' a v below clear e))
]

load32-then :
    (lo n : ℕ) (f : ℕ → ℕ) (m : Memory) (a : ℕ) (rest : ℕ → Option (Memory × ℕ))
    → ((v : ℕ) → Leaves lo n f (rest v))
    → Leaves lo n f (do v ← load32 m a; rest v)
load32-then lo n f m a rest next = elim (Option-cases (load32 m a)) [
  | inl fails ↦ rw fails (no_block lo n f)
  | inr (v, e) ↦ rw e (next v)
]

either :
    (lo n : ℕ) (f : ℕ → ℕ) (c : Bool) (x y : Option (Memory × ℕ))
    → Leaves lo n f x
    → Leaves lo n f y
    → Leaves lo n f (if c then x else y)
either lo n f true x y clear _ = clear
either lo n f false x y _ clear = clear

module _ (lo n : ℕ) (f : ℕ → ℕ) (static : 127528 ≤ lo) (zeros : (a : ℕ) → n ≤ a → f a ≡ 0) where
  take_block-Agrees : (m : Memory) (p k : ℕ) → Agrees lo n f m → Leaves lo n f (take_block m p k)
  unfolding take_block
  take_block-Agrees m p k clear =
      store32-then lo n f m last_word p _ (omega arith) clear (λ m₁ clear₁.
        store32-then lo n f m₁ break_word _ _ (omega arith) clear₁
          (λ m₂ clear₂. a_block lo n f m₂ _ clear₂))

  memory_grow-Agrees :
      (m : Memory) (delta max : ℕ) → Agrees lo n f m → Agrees lo n f (memory_grow m delta max).0
  unfolding memory_grow
  memory_grow-Agrees m delta max clear = elim (Bool-cases (delta == 0)) [
    | inl none_more ↦ (ground (arith, clear.0), λ a le lt. ground (arith, clear.1 a))
    | inr more ↦ (ground (arith, clear.0), λ a le lt. ground (arith, clear.0, clear.1 a, zeros a))
  ]

  extend_heap-Agrees :
      (retry : Memory → ℕ → ℕ → ℕ → Option (Memory × ℕ)) (k limit brk need : ℕ) (m : Memory)
      (old : Option ℕ)
      → ((m' : Memory) (l j r : ℕ) → Agrees lo n f m' → Leaves lo n f (retry m' l j r))
      → Agrees lo n f m
      → Leaves lo n f (extend_heap retry k limit brk need (m, old))
  unfolding extend_heap
  extend_heap-Agrees retry k limit brk need m none again clear = a_block lo n f m 0 clear
  extend_heap-Agrees retry k limit brk need m (some old) again clear =
      either lo n f _ _ _
        (store32-then lo n f m limit_word _ _ (omega arith) clear
          (λ m₁ clear₁. take_block-Agrees m₁ brk k clear₁))
        (store32-then lo n f m break_word _ _ (omega arith) clear (λ m₁ clear₁.
          store32-then lo n f m₁ limit_word _ _ (omega arith) clear₁ (λ m₂ clear₂.
            either lo n f _ _ _ (again m₂ _ _ _ clear₂) (take_block-Agrees m₂ _ k clear₂))))

  grow_heap-Agrees :
      (fuel : ℕ) (m : Memory) (k limit brk room : ℕ)
      → Agrees lo n f m
      → Leaves lo n f (grow_heap fuel m k limit brk room)
  unfolding grow_heap
  grow_heap-Agrees zero m k limit brk room clear = no_block lo n f
  grow_heap-Agrees (suc fuel) m k limit brk room clear =
      extend_heap-Agrees _ k limit brk _ _ _
        (λ m' l j r clear'. grow_heap-Agrees fuel m' k l j r clear')
        (memory_grow-Agrees m _ 65536 clear)

  pub malloc-Agrees : (m : Memory) (size : ℕ) → Agrees lo n f m → Leaves lo n f (malloc m size)
  unfolding malloc
  malloc-Agrees m size clear = either lo n f _ _ _ (a_block lo n f m 0 clear) (
      either lo n f _ _ _ (a_block lo n f m 0 clear) (
        load32-then lo n f m limit_word _ (λ limit. load32-then lo n f m break_word _ (λ brk.
          either lo n f _ _ _ (take_block-Agrees m brk _ clear)
            (grow_heap-Agrees 2 m _ limit brk _ clear)))))

  pub calloc-Agrees :
      (m : Memory) (count size : ℕ) → Agrees lo n f m → Leaves lo n f (calloc m count size)
  unfolding calloc
  calloc-Agrees m count size clear =
      either lo n f _ _ _ (a_block lo n f m 0 clear) (malloc-Agrees m _ clear)

-- Zeros from `lo` to the end.
abbrev pub Cleared : ℕ → Memory → Type 0
Cleared lo m = (a : ℕ) → lo ≤ a → a < m.size → m.byte a ≡ 0

pub calloc-Cleared :
    (lo : ℕ) (m m' : Memory) (count size p : ℕ)
    → 127528 ≤ lo
    → Cleared lo m
    → calloc m count size ≡ some (m', p)
    → Cleared lo m'
calloc-Cleared lo m m' count size p static clear e =
    let leaves =
      calloc-Agrees lo 0 (λ a. 0) static (λ a le. refl) m count size (omega arith, clear) in
    (leaves.agrees m' p e).1

-- The bytes of `m`, and zeros behind them.
abbrev bytes_of : Memory → ℕ → ℕ
bytes_of m a = if ltb a m.size then m.byte a else 0

-- `Xmalloc` changes no byte behind its words.
pub malloc-same :
    (m m' : Memory) (size p a : ℕ)
    → malloc m size ≡ some (m', p)
    → 127528 ≤ a
    → a < m.size
    → m'.byte a ≡ m.byte a
malloc-same m m' size p a e le lt =
    let leaves =
      malloc-Agrees 127528 m.size (bytes_of m) (omega arith) (λ c past. ground arith) m size
        (omega arith, λ c low inside. ground arith) in
    let (size_kept, same) = leaves.agrees m' p e in ground (arith, same a)
