-- ===== src/Wasm/Memory/Laws.antt =====
-- What a store leaves for the loads that follow.
use go_pcapfilter.Prelude.{ℕ, ◌+◌, ◌-◌, ◌/◌, ◌%◌, ◌^◌, ◌≤◌, ◌<◌, ◌≡◌, ◌⊎◌, some, arith}
use go_pcapfilter.Wasm.Words.{IsU32}
use go_pcapfilter.Wasm.Memory.{Memory, load32, store32, put, le32}

-- Every cell holds a byte.
pub record IsBytes (m : Memory) : Type 0 where
  pub bytes : (a : ℕ) → m.byte a < 256

pub put-IsBytes : (n : ℕ) {m : Memory} (p v : ℕ) → IsBytes m → IsBytes (put n m p v)
put-IsBytes n {m} p v w = record { bytes = λ a. ground (arith, w.bytes a) }

pub put_outside :
    (n : ℕ) (m : Memory) (p v a : ℕ) → (a < p) ⊎ (p + n ≤ a) → (put n m p v).byte a ≡ m.byte a
put_outside n m p v a h = ground arith

-- A word at `b`, clear of the `n` bytes written at `p`.
abbrev pub Apart : ℕ → ℕ → ℕ → ℕ → Type 0
Apart b k p n = (b + k ≤ p) ⊎ (p + n ≤ b)

pub load32-put-Apart :
    (n : ℕ) (m : Memory) (p v b : ℕ) → Apart b 4 p n → load32 (put n m p v) b ≡ load32 m b
unfolding load32
load32-put-Apart n m p v b h = ground (
  arith,
  put_outside n m p v b,
  put_outside n m p v (b + 1),
  put_outside n m p v (b + 2),
  put_outside n m p v (b + 3),
)

put_inside :
    (n : ℕ) (m : Memory) (p v k : ℕ) → k < n → (put n m p v).byte (p + k) ≡ v / 256 ^ k % 256
put_inside n m p v k h = let e : p + k - p ≡ k = omega arith in rw e (ground arith)

pub le32-put : (m : Memory) (p v : ℕ) → IsU32 v → le32 (put 4 m p v) p ≡ v
le32-put m p v h = omega (
  arith,
  put_first m p v,
  put_inside 4 m p v 1 (omega arith),
  put_inside 4 m p v 2 (omega arith),
  put_inside 4 m p v 3 (omega arith),
)
  where
    put_first : (m : Memory) (p v : ℕ) → (put 4 m p v).byte p ≡ v % 256
    put_first m p v = let e : p - p ≡ 0 = omega arith in rw e (ground arith)

pub load32-put_self :
    (m : Memory) (p v : ℕ) → IsU32 v → p + 4 ≤ m.size → load32 (put 4 m p v) p ≡ some v
unfolding load32
load32-put_self m p v h fits = ground (arith, le32-put m p v h)

-- What a 32-bit store wrote is read back at its address, and the length is kept.
pub load32-store32 :
    (m m' : Memory) (a v : ℕ)
    → IsU32 v
    → store32 m a v ≡ some m'
    → (load32 m' a ≡ some v) × (m'.size ≡ m.size)
unfolding load32 store32
load32-store32 m m' a v h e = ground (arith, le32-put m a v h)

-- A 32-bit store changes no word that does not overlap it.
pub load32-store32-Apart :
    (m m' : Memory) (a v b : ℕ) → Apart b 4 a 4 → store32 m a v ≡ some m' → load32 m' b ≡ load32 m b
unfolding store32
load32-store32-Apart m m' a v b h e = ground (arith, load32-put-Apart 4 m a v b)
