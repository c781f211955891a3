-- ===== src/Netdb/Stack.antt =====
-- An address on the stack, and the name of a host, in the memory.
use go_pcapfilter.Prelude.{
  ℕ, zero, suc, ◌+◌, ◌-◌, ◌≤◌, ◌<◌, ◌≡◌, inl, inr, true, false, ◌&&◌, List, [], ◌∷◌, some, length,
  All, arith, refl, ◌∙◌, sym, ap, ◌==◌, ltb, leb, Bool-cases,
}
use go_pcapfilter.Wasm.Words.{u32}
use go_pcapfilter.Wasm.Memory.{Memory, cell_or, load32}
use go_pcapfilter.Wasm.Memory.Laws.{IsBytes}
use go_pcapfilter.Wasm.Memory.Texts.{Spells, Spells-inside}
use go_pcapfilter.Heap.{break_word, limit_word}
use go_pcapfilter.Heap.Arena.{IsHeap}
use go_pcapfilter.Heap.Fresh.{Cleared}
use go_pcapfilter.Env.{cstr, cstr_from}
use go_pcapfilter.Env.Resolve.{Placed}

cell_or_bound : (s : List ℕ) (i : ℕ) → All (λ c. c < 256) s → cell_or s i 0 < 256
cell_or_bound [] i h = omega arith
cell_or_bound (c ∷ s) zero (lt, h) = lt
cell_or_bound (c ∷ s) (suc i) (lt, h) = cell_or_bound s i h

-- Bytes that are put on the stack.
module _ (m m' : Memory) (p b : ℕ) (src : List ℕ) (placed : Placed m m' p src)
    (low : p + length src ≤ 65536) where
  Placed-above : (a : ℕ) → 65536 ≤ a → m'.byte a ≡ m.byte a
  Placed-above a le = placed.rest a (inr (omega arith))

  Placed-IsBytes : All (λ c. c < 256) src → IsBytes m → IsBytes m'
  Placed-IsBytes small w = record {
    bytes = λ a. elim (Bool-cases (leb p a && ltb a (p + length src))) [
      | inl inside ↦
          let at : p + (a - p) ≡ a = ground arith in
          let e = rw at at (placed.at (a - p) (ground arith)) in
          omega (arith, e, cell_or_bound src (a - p) small)
      | inr outside ↦ omega (arith, placed.rest a (ground arith), w.bytes a)
    ];
  }

  load32-Placed : (a : ℕ) → 65536 ≤ a → load32 m' a ≡ load32 m a
  unfolding load32
  load32-Placed a le = ground (
    arith,
    placed.size,
    Placed-above a,
    Placed-above (a + 1),
    Placed-above (a + 2),
    Placed-above (a + 3),
  )

  pub Placed-IsHeap : All (λ c. c < 256) src → IsHeap m b → IsHeap m' b
  Placed-IsHeap small h = record {
    arena = record {
      bytes = Placed-IsBytes small h.arena.bytes;
      paged = rw placed.size h.arena.paged;
      low = rw placed.size h.arena.low;
      high = rw placed.size h.arena.high;
      limit =
          load32-Placed limit_word (omega arith)
          ∙ h.arena.limit
          ∙ ap (λ (n : ℕ). some (u32 n)) (sym placed.size);
    };
    break = load32-Placed break_word (omega arith) ∙ h.break;
    aligned = h.aligned;
    above = h.above;
    inside = rw placed.size h.inside;
  }

  pub Placed-Cleared : 65536 ≤ b → Cleared b m → Cleared b m'
  Placed-Cleared le clear a above lt =
      Placed-above a (omega arith) ∙ clear a above (omega (arith, placed.size))

-- A text in a memory of less than 2 ^ 32 bytes is read as it stands.
cstr_from-Spells :
    (m : Memory) (s left : ℕ) (t : List ℕ) → Spells m s t → length t < left → cstr_from m left s ≡ t
unfolding cstr_from
cstr_from-Spells m s zero t w lt = absurd (omega arith)
cstr_from-Spells m s (suc left) [] (inside, stop) lt = rw stop refl
cstr_from-Spells m s (suc left) (c ∷ t) (read, pos, small, w) lt =
    let no : (c == 0) ≡ false = ground arith in
    let rest = cstr_from-Spells m (s + 1) left t w (omega arith) in rw (read, no, rest) refl

pub cstr-Spells :
    (m : Memory) (s : ℕ) (t : List ℕ) → m.size < 4294967296 → Spells m s t → cstr m s ≡ some t
unfolding cstr
cstr-Spells m s t small w =
    let bound = Spells-inside m s t w in
    let inside : leb s m.size ≡ true = ground arith in
    let left : u32 m.size - s ≡ m.size - s = omega arith in
    rw (inside, left, cstr_from-Spells m s (m.size - s) t w (omega arith)) refl
