-- ===== src/Env/Text.antt =====
-- C strings in the memory.
use go_pcapfilter.Prelude.{
  ℕ, zero, suc, ◌+◌, ◌-◌, ◌≤◌, ◌<◌, ◌≡◌, ◌⊎◌, inl, inr, List, [], ◌∷◌, Option, none, some, length,
  All, arith, refl, ap, sym, ◌∙◌, ◌==◌, true, false, leb, ltb, ltb→lt, Bool-cases,
}
use go_pcapfilter.Wasm.Words.{u32, add32}
use go_pcapfilter.Wasm.Memory.{Memory, load32, store8, put, copy_in, cell_or}
use go_pcapfilter.Wasm.Memory.Laws.{IsBytes, put-IsBytes}
use go_pcapfilter.Wasm.Memory.Texts.{Spells}
use go_pcapfilter.Heap.{break_word, limit_word, malloc}
use go_pcapfilter.Heap.Arena.{IsHeap, Keeps, rounded}
use go_pcapfilter.Heap.Malloc.{malloc-IsHeap}
use go_pcapfilter.Env.{cstr_from, cstr, copy_at, mkcstr}

-- A byte that does not end a text.
abbrev pub IsTextByte : ℕ → Type 0
IsTextByte c = (0 < c) × (c < 256)

cstr_from_lem :
    (m : Memory) (s : List ℕ) (p left : ℕ)
    → All IsTextByte s
    → ((i : ℕ) → i < length s → m.byte (p + i) ≡ cell_or s i 0)
    → m.byte (p + length s) ≡ 0
    → length s < left
    → cstr_from m left p ≡ s
unfolding cstr_from
cstr_from_lem m s p zero ok same stop lt = absurd (omega arith)
cstr_from_lem m [] p (suc left) ok same stop lt =
    let at : p + 0 ≡ p = omega arith in
    let e : m.byte p ≡ 0 = ap m.byte (sym at) ∙ stop in rw e refl
cstr_from_lem m (c ∷ s) p (suc left) ((pos, _), ok) same stop lt =
    let at : p + 0 ≡ p = omega arith in
    let head : m.byte p ≡ c = ap m.byte (sym at) ∙ same 0 (omega arith) in
    let no : (c == 0) ≡ false = ground arith in
    let moved : (i : ℕ) → p + 1 + i ≡ p + suc i = λ i. omega arith in
    let rest : cstr_from m left (p + 1) ≡ s =
      cstr_from_lem m s (p + 1) left ok (λ i h. ap m.byte (moved i) ∙ same (suc i) (omega arith))
        (ap m.byte (moved (length s)) ∙ stop) (omega arith) in
    rw (head, no, rest) refl

Spells_lem :
    (m : Memory) (p : ℕ) (s : List ℕ)
    → All IsTextByte s
    → ((i : ℕ) → i < length s → m.byte (p + i) ≡ cell_or s i 0)
    → m.byte (p + length s) ≡ 0
    → p + length s < m.size
    → Spells m p s
Spells_lem m p [] ok same stop lt =
    let at : p + 0 ≡ p = omega arith in (omega arith, ap m.byte (sym at) ∙ stop)
Spells_lem m p (c ∷ s) ((pos, small), ok) same stop lt =
    let at : p + 0 ≡ p = omega arith in
    let moved : (i : ℕ) → p + 1 + i ≡ p + suc i = λ i. omega arith in
    (
      ap m.byte (sym at) ∙ same 0 (omega arith),
      pos,
      small,
      Spells_lem m (p + 1) s ok (λ i h. ap m.byte (moved i) ∙ same (suc i) (omega arith))
          (ap m.byte (moved (length s)) ∙ stop) (omega arith),
    )

pub load32-below :
    (m m' : Memory) (a lo : ℕ)
    → a + 4 ≤ lo
    → m'.size ≡ m.size
    → ((c : ℕ) → c < lo → m'.byte c ≡ m.byte c)
    → load32 m' a ≡ load32 m a
unfolding load32
load32-below m m' a lo h size same =
    rw
      (
        size,
        same a (omega arith),
        same (a + 1) (omega arith),
        same (a + 2) (omega arith),
        same (a + 3) (omega arith),
      )
      refl

-- A heap is what its words and its length say: bytes from `lo` on may be anything.
pub IsHeap-above :
    (m m' : Memory) (b lo : ℕ)
    → IsHeap m b
    → IsBytes m'
    → m'.size ≡ m.size
    → 127536 ≤ lo
    → ((a : ℕ) → a < lo → m'.byte a ≡ m.byte a)
    → IsHeap m' b
IsHeap-above m m' b lo h w size above same = record {
  arena = record {
    bytes = w;
    paged = rw size h.arena.paged;
    low = rw size h.arena.low;
    high = rw size h.arena.high;
    limit =
        load32-below m m' limit_word lo (omega arith) size same
        ∙ h.arena.limit
        ∙ ap (λ (n : ℕ). some (u32 n)) (sym size);
  };
  break = load32-below m m' break_word lo (omega arith) size same ∙ h.break;
  aligned = h.aligned;
  above = h.above;
  inside = rw size h.inside;
}

cell_or-IsByte : (s : List ℕ) (i : ℕ) → All IsTextByte s → cell_or s i 0 < 256
cell_or-IsByte [] i h = omega arith
cell_or-IsByte (c ∷ s) zero ((_, lt), _) = lt
cell_or-IsByte (c ∷ s) (suc i) (_, h) = cell_or-IsByte s i h

-- A text at `p`, with its final zero.
abbrev written : Memory → ℕ → List ℕ → Memory
written m p s = put 1 (copy_in m p s).0 (p + length s) 0

module _ (m : Memory) (p : ℕ) (s : List ℕ) (fits : p + length s + 1 ≤ m.size) where
  written-below : (a : ℕ) → a < p → (written m p s).byte a ≡ m.byte a
  unfolding copy_in
  written-below a lt = ground arith

  written-inside : (i : ℕ) → i < length s → (written m p s).byte (p + i) ≡ cell_or s i 0
  unfolding copy_in
  written-inside i lt = let e : p + i - p ≡ i = omega arith in rw e (ground arith)

  written-end : (written m p s).byte (p + length s) ≡ 0
  unfolding copy_in
  written-end = ground arith

  written-IsBytes : IsBytes m → All IsTextByte s → IsBytes (written m p s)
  unfolding copy_in
  written-IsBytes w ok =
      put-IsBytes 1 (p + length s) 0
        (record { bytes = λ a. ground (arith, w.bytes a, cell_or-IsByte s (a - p) ok) })

  copy_at-fits : copy_at m p s ≡ some (copy_in m p s).0
  unfolding copy_at
  copy_at-fits = let inside : leb p m.size ≡ true = ground arith in rw inside refl

  store8-end :
      m.size ≤ 4294967296
      → store8 (copy_in m p s).0 (add32 p (u32 (length s))) 0 ≡ some (written m p s)
  unfolding store8 copy_in
  store8-end le =
      let e : add32 p (u32 (length s)) ≡ p + length s = omega arith in rw e (ground arith)

  written-size : (written m p s).size ≡ m.size
  unfolding copy_in
  written-size = refl

  written-Spells : All IsTextByte s → Spells (written m p s) p s
  unfolding copy_in
  written-Spells ok =
      Spells_lem (written m p s) p s ok written-inside written-end (omega (arith, written-size))

  written-cstr : All IsTextByte s → m.size < 4294967296 → cstr (written m p s) p ≡ some s
  unfolding cstr cstr_from
  written-cstr ok lt =
      let inside : leb p m.size ≡ true = ground arith in
      let left : u32 m.size - p ≡ m.size - p = omega arith in
      let read : cstr_from (written m p s) (m.size - p) p ≡ s =
        cstr_from_lem (written m p s) s p (m.size - p) ok written-inside written-end
          (omega arith) in
      rw (written-size, inside, left, read) refl

  written-read :
      All IsTextByte s
      → m.size ≤ 4294967296
      → (cstr (written m p s) p ≡ some s) ⊎ ((written m p s).size ≡ 4294967296)
  written-read ok le = elim (Bool-cases (ltb m.size 4294967296)) [
    | inl lt ↦ inl (written-cstr ok (ltb→lt _ _ lt))
    | inr full ↦ inr (written-size ∙ ground arith)
  ]

-- A text that `mkcstr` has written at the end of the heap.
abbrev pub Stored : Memory → List ℕ → ℕ → Option (Memory × Option ℕ) → Type 0
Stored m s b result =
    (m' : Memory) × (result ≡ some (m', some b))
    × IsHeap m' (b + rounded (length s + 1))
    × Keeps b m m'
    × Spells m' b s
    × ((cstr m' b ≡ some s) ⊎ (m'.size ≡ 4294967296))

mkcstr-Stored :
    (m : Memory) (b : ℕ) (s : List ℕ)
    → length s + 1 < 2147483648
    → All IsTextByte s
    → 127536 ≤ b
    → (m₁ : Memory) → malloc m (length s + 1) ≡ some (m₁, b)
    → IsHeap m₁ (b + rounded (length s + 1))
    → Keeps b m m₁
    → Stored m s b (mkcstr m s)
unfolding mkcstr cstr copy_in
mkcstr-Stored m b s short ok low m₁ allocated heap keeps =
    let fits : b + length s + 1 ≤ m₁.size = omega (arith, heap.inside) in
    let size : u32 (length s + 1) ≡ length s + 1 = omega arith in
    let real : (b == 0) ≡ false = ground arith in
    let m₂ = written m₁ b s in
    (
      m₂,
      rw
          (
            mkcstr,
            size,
            allocated,
            real,
            copy_at-fits m₁ b s fits,
            store8-end m₁ b s fits heap.arena.high,
          )
          refl,
      IsHeap-above m₁ m₂ (b + rounded (length s + 1)) b heap
          (written-IsBytes m₁ b s fits heap.arena.bytes ok) refl low (written-below m₁ b s fits),
      record {
        size = keeps.size;
        same = λ a lt g h. written-below m₁ b s fits a lt ∙ keeps.same a lt g h;
      },
      written-Spells m₁ b s fits ok,
      written-read m₁ b s fits ok heap.arena.high,
    )

-- For a text without zero bytes, of fewer than 2 ^ 31 - 1 bytes, `mkcstr` fails only where it would
-- pass the end of the address space, and changes nothing then; or it returns the end of the heap,
-- the heap ends past the text, the bytes of the text and a zero stand there, and `cstr` reads the
-- text back, unless the memory has then grown to 2 ^ 32 bytes.
pub mkcstr-cstr :
    (m : Memory) (b : ℕ) (s : List ℕ)
    → IsHeap m b
    → All IsTextByte s
    → length s + 1 < 2147483648
    → ((mkcstr m s ≡ some (m, none)) × (4294967296 < b + rounded (length s + 1)))
      ⊎ Stored m s b (mkcstr m s)
unfolding mkcstr
mkcstr-cstr m b s h ok short =
    let size : u32 (length s + 1) ≡ length s + 1 = omega arith in
    elim (malloc-IsHeap m b (length s + 1) h (omega arith) short) [
      | inl (failed, past) ↦ inl (rw (mkcstr, size, failed) refl, past)
      | inr (m₁, allocated, heap, keeps) ↦
          inr (mkcstr-Stored m b s short ok h.above m₁ allocated heap keeps)
    ]

-- In a memory of 2 ^ 32 bytes, `cstr` reads every text as empty: the length, as a uint32, is 0.
pub cstr_full : (m : Memory) (p : ℕ) → m.size ≡ 4294967296 → p ≤ m.size → cstr m p ≡ some []
unfolding cstr cstr_from
cstr_full m p full h =
    let inside : leb p m.size ≡ true = ground arith in
    let left : u32 m.size - p ≡ 0 = omega arith in rw (inside, left) refl
