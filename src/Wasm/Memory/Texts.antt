-- ===== src/Wasm/Memory/Texts.antt =====
-- A text in the memory, byte by byte.
use go_pcapfilter.Prelude.{ℕ, ◌+◌, ◌≤◌, ◌<◌, ◌≡◌, List, [], ◌∷◌, length, arith}
use go_pcapfilter.Wasm.Memory.{Memory}

-- The bytes of `t`, none of them zero, stand at `s`, and then a zero.
abbrev pub Spells : Memory → ℕ → List ℕ → Type 0
Spells m s [] = (s < m.size) × (m.byte s ≡ 0)
Spells m s (c ∷ t) = (m.byte s ≡ c) × (0 < c) × (c < 256) × Spells m (s + 1) t

pub Spells-inside : (m : Memory) (s : ℕ) (t : List ℕ) → Spells m s t → s + length t < m.size
Spells-inside m s [] (inside, stop) = omega arith
Spells-inside m s (c ∷ t) (read, pos, lt, rest) = omega (arith, Spells-inside m (s + 1) t rest)

-- A memory with the same bytes at the text has the text.
pub Spells-same :
    (m m' : Memory) (s : ℕ) (t : List ℕ)
    → m.size ≤ m'.size
    → ((a : ℕ) → s ≤ a → a ≤ s + length t → m'.byte a ≡ m.byte a)
    → Spells m s t
    → Spells m' s t
Spells-same m m' s [] le same (inside, stop) =
    (omega arith, omega (arith, same s (omega arith) (omega arith)))
Spells-same m m' s (c ∷ t) le same (read, pos, lt, rest) = (
  omega (arith, same s (omega arith) (omega arith)),
  pos,
  lt,
  Spells-same m m' (s + 1) t le (λ a lo hi. same a (omega arith) (omega arith)) rest,
)
