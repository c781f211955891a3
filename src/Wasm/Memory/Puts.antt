-- ===== src/Wasm/Memory/Puts.antt =====
-- Several stores, one after the other.
use go_pcapfilter.Prelude.{
  ℕ, ◌+◌, ◌-◌, ◌/◌, ◌%◌, ◌^◌, ◌≤◌, ◌<◌, ◌≡◌, ◌⊎◌, inl, inr, List, [], ◌∷◌, ◌++◌, some, All, arith,
  refl, ◌∙◌,
}
use go_pcapfilter.Wasm.Words.{IsU32}
use go_pcapfilter.Wasm.Memory.{Memory, load16, load32, put}
use go_pcapfilter.Wasm.Memory.Laws.{Apart, put_outside}

-- Each store is the number of its bytes, its address and its value.
abbrev pub Stores : Type 0
Stores = List (ℕ × (ℕ × ℕ))

unfoldable pub puts : Memory → Stores → Memory
puts m [] = m
puts m ((n, (p, v)) ∷ rest) = puts (put n m p v) rest

-- The `k` bytes at `a` are clear of the stores.
abbrev pub Clear : ℕ → ℕ → Stores → Type 0
Clear a k stores = All (λ s. Apart a k s.1.0 s.0) stores

-- The last of the stores that touch its bytes.
abbrev pub Last : ℕ → ℕ → ℕ → Stores → Type 0
Last n p v [] = ⊥
Last n p v (s ∷ rest) = ((s.0 ≡ n) × (s.1.0 ≡ p) × (s.1.1 ≡ v) × Clear p n rest) ⊎ Last n p v rest

pub puts-size : (m : Memory) (stores : Stores) → (puts m stores).size ≡ m.size
unfolding puts
puts-size m [] = refl
puts-size m ((n, (p, v)) ∷ rest) = puts-size (put n m p v) rest

pub puts-Clear :
    (m : Memory) (stores : Stores) (a k i : ℕ)
    → Clear a k stores
    → i < k
    → (puts m stores).byte (a + i) ≡ m.byte (a + i)
unfolding puts
puts-Clear m [] a k i clear lt = refl
puts-Clear m ((n, (p, v)) ∷ rest) a k i (apart, clear) lt =
    puts-Clear (put n m p v) rest a k i clear lt ∙ put_outside n m p v (a + i) (omega arith)

put_at : (n : ℕ) (m : Memory) (p v i : ℕ) → i < n → (put n m p v).byte (p + i) ≡ v / 256 ^ i % 256
put_at n m p v i lt = let e : p + i - p ≡ i = omega arith in rw e (ground arith)

pub puts-Last :
    (m : Memory) (stores : Stores) (n p v i : ℕ)
    → Last n p v stores
    → i < n
    → (puts m stores).byte (p + i) ≡ v / 256 ^ i % 256
unfolding puts
puts-Last m [] n p v i last lt = absurd last
puts-Last m ((n', (p', v')) ∷ rest) n p v i (inl (width, at, value, clear)) lt =
    puts-Clear (put n' m p' v') rest p n i clear lt ∙ rw (width, at, value) (put_at n m p v i lt)
puts-Last m ((n', (p', v')) ∷ rest) n p v i (inr later) lt =
    puts-Last (put n' m p' v') rest n p v i later lt

pub load32-puts :
    (m : Memory) (stores : Stores) (p v : ℕ)
    → Last 4 p v stores
    → IsU32 v
    → p + 4 ≤ m.size
    → load32 (puts m stores) p ≡ some v
unfolding load32
load32-puts m stores p v last small fits =
    let at : (i : ℕ) → i < 4 → (puts m stores).byte (p + i) ≡ v / 256 ^ i % 256 =
      λ i lt. puts-Last m stores 4 p v i last lt in
    ground (arith, puts-size m stores, at 0, at 1, at 2, at 3)

pub load16-puts :
    (m : Memory) (stores : Stores) (p v : ℕ)
    → Last 2 p v stores
    → v < 65536
    → p + 2 ≤ m.size
    → load16 (puts m stores) p ≡ some v
unfolding load16
load16-puts m stores p v last small fits =
    let at : (i : ℕ) → i < 2 → (puts m stores).byte (p + i) ≡ v / 256 ^ i % 256 =
      λ i lt. puts-Last m stores 2 p v i last lt in
    ground (arith, puts-size m stores, at 0, at 1)

pub load32-Clear :
    (m : Memory) (stores : Stores) (p : ℕ)
    → Clear p 4 stores
    → load32 (puts m stores) p ≡ load32 m p
unfolding load32
load32-Clear m stores p clear =
    let at : (i : ℕ) → i < 4 → (puts m stores).byte (p + i) ≡ m.byte (p + i) =
      λ i lt. puts-Clear m stores p 4 i clear lt in
    ground (arith, puts-size m stores, at 0, at 1, at 2, at 3)

pub Last-append : (n p v : ℕ) (front rest : Stores) → Last n p v rest → Last n p v (front ++ rest)
Last-append n p v [] rest last = last
Last-append n p v (s ∷ front) rest last = inr (Last-append n p v front rest last)

pub Clear-append :
    (a k : ℕ) (front rest : Stores) → Clear a k front → Clear a k rest → Clear a k (front ++ rest)
Clear-append a k [] rest first second = second
Clear-append a k (s ∷ front) rest (apart, first) second =
    (apart, Clear-append a k front rest first second)
