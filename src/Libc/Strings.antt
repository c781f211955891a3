-- ===== src/Libc/Strings.antt =====
-- The C functions on texts that end inside the memory.
use go_pcapfilter.Prelude.{
  leb→le, ltb→lt, ℕ, zero, suc, ◌+◌, ◌-◌, ◌%◌, ◌≤◌, ◌<◌, ◌≡◌, ◌↔◌, ◌⊎◌, refl, true, not, ◌&&◌, ltb,
  leb, ◌==◌, ==_iff, if◌then◌else◌, min, List, none, some, length, take, get_elem?, All, arith, ◌∙◌,
  sym, ap, Bool-cases, inl, inr,
}
use go_pcapfilter.Wasm.Words.{add32, u32}
use go_pcapfilter.Wasm.Memory.{Memory, load8, cells}
use go_pcapfilter.Libc.{
  compare_bytes, index_byte, from, between, memcmp, strcmp, strlen, strchrnul, strchr,
}
use go_pcapfilter.Libc.Lists.{
  get_elem?-first_index, IsNonzero, ended, compare_bytes_refl, index_byte-ended,
  compare_bytes-ended, first_index, first_index_bound, chrnul_index-ended, length-ended,
  index_byte-past, index_byte-before, compare_bytes_zero,
}

-- The text `t` stands at `s`, and its final zero too.
pub record IsText (m : Memory) (s : ℕ) (t : List ℕ) : Type 0 where
  pub rest : List ℕ
  pub nonzero : All IsNonzero t
  pub reads : from m s ≡ some (ended t rest)

length-cells : (m : Memory) (p n : ℕ) → length (cells m p n) ≡ n
unfolding cells
length-cells m p zero = refl
length-cells m p (suc n) = omega (arith, length-cells m (p + 1) n)

get_elem?-cells :
    (m : Memory) (p n i : ℕ) → i < n → get_elem? (cells m p n) i ≡ some (m.byte (p + i))
unfolding cells
get_elem?-cells m p zero i lt = absurd (omega arith)
get_elem?-cells m p (suc n) zero lt = let e : p + 0 ≡ p = omega arith in rw e refl
get_elem?-cells m p (suc n) (suc i) lt =
    let e : p + 1 + i ≡ p + suc i = omega arith in
    rw (← e) (get_elem?-cells m (p + 1) n i (omega arith))

some-injective : (a b : List ℕ) → some a ≡ some b → a ≡ b
some-injective a b e = cc

from_lem :
    (m : Memory) (s : ℕ) (b : List ℕ)
    → from m s ≡ some b
    → (s ≤ m.size) × (b ≡ cells m s (m.size - s)) × (length b ≡ m.size - s)
unfolding from
from_lem m s b h = elim (Bool-cases (leb s m.size)) [
  | inl inside ↦
      let same : cells m s (m.size - s) ≡ b = some-injective _ _ (rw inside at h) in
      (leb→le _ _ inside, sym same, ap length (sym same) ∙ length-cells m s (m.size - s))
  | inr outside ↦ cc (rw outside at h)
]

module _ (m : Memory) (small : m.size ≤ 4294967296) where
  number_injective : (a b : ℕ) → some a ≡ some b → a ≡ b
  number_injective a b e = cc

  pub IsText-inside : {s : ℕ} {t : List ℕ} → IsText m s t → s + length t + 1 ≤ m.size
  IsText-inside {s} {t} w =
      let (le, _, len) = from_lem m s (ended t w.rest) w.reads in
      omega (arith, length-ended t w.rest)

  -- In a memory of at most 2 ^ 32 bytes, `_strlen` of a text that ends inside the memory is its
  -- length.
  pub strlen-IsText : (s : ℕ) (t : List ℕ) → IsText m s t → strlen m s ≡ some (length t)
  unfolding strlen
  strlen-IsText s t w =
      let e : u32 (length t) ≡ length t = omega (arith, IsText-inside w) in
      rw (w.reads, index_byte-ended t w.rest w.nonzero, e) refl

  -- Where `_strcmp` stops.
  abbrev stop : List ℕ → List ℕ → ℕ
  stop b₁ b₂ =
      let sz = min (length b₁) (length b₂) in
      elim (index_byte (take sz b₂) 0) as (λ _. ℕ) [ none ↦ sz | some i ↦ i + 1 ]

  stop-found :
      (b₁ b₂ : List ℕ) (i : ℕ)
      → index_byte (take (min (length b₁) (length b₂)) b₂) 0 ≡ some i
      → stop b₁ b₂ ≡ i + 1
  stop-found b₁ b₂ i h = rw (stop, h) refl

  stop-missing :
      (b₁ b₂ : List ℕ)
      → index_byte (take (min (length b₁) (length b₂)) b₂) 0 ≡ none
      → stop b₁ b₂ ≡ min (length b₁) (length b₂)
  stop-missing b₁ b₂ h = rw (stop, h) refl

  stop-ended :
      (t₁ t₂ r₁ r₂ : List ℕ)
      → All IsNonzero t₂
      → (stop (ended t₁ r₁) (ended t₂ r₂) ≡ length t₂ + 1)
        ⊎ ((length t₁ < stop (ended t₁ r₁) (ended t₂ r₂))
            × (stop (ended t₁ r₁) (ended t₂ r₂) ≤ length t₂))
  stop-ended t₁ t₂ r₁ r₂ h =
      let sz : ℕ = min (length (ended t₁ r₁)) (length (ended t₂ r₂)) in
      elim (Bool-cases (ltb (length t₂) sz)) [
        | inl past ↦ inl (
            stop-found (ended t₁ r₁) (ended t₂ r₂) (length t₂)
              (index_byte-past sz t₂ r₂ h (ltb→lt _ _ past)))
        | inr short ↦
            let le : sz ≤ length t₂ = ground arith in
            let e = stop-missing (ended t₁ r₁) (ended t₂ r₂) (index_byte-before sz t₂ r₂ h le) in
            inr (omega (arith, e, length-ended t₁ r₁, length-ended t₂ r₂))
      ]

  -- In a memory of at most 2 ^ 32 bytes, `_strcmp` of two texts that end inside the memory compares
  -- the texts, whatever lies behind them.
  pub strcmp-IsText :
      (s₁ s₂ : ℕ) (t₁ t₂ : List ℕ)
      → IsText m s₁ t₁
      → IsText m s₂ t₂
      → strcmp m s₁ s₂ ≡ some (compare_bytes t₁ t₂)
  unfolding strcmp
  strcmp-IsText s₁ s₂ t₁ t₂ w₁ w₂ = elim (Bool-cases (s₁ == s₂)) [
    | inl same ↦
        let equal : ended t₁ w₁.rest ≡ ended t₂ w₂.rest =
          some-injective _ _ (sym w₁.reads ∙ ap (from m) ((==_iff _ _).0 same) ∙ w₂.reads) in
        let n : ℕ = length t₂ + 1 in
        let cut : compare_bytes (take n (ended t₁ w₁.rest)) (take n (ended t₂ w₂.rest)) ≡ 0 =
          rw equal (compare_bytes_refl (take n (ended t₂ w₂.rest))) in
        rw same (
          ap some (
            sym cut ∙ compare_bytes-ended n t₁ t₂ w₁.rest w₂.rest w₁.nonzero w₂.nonzero (inl refl)))
    | inr other ↦
        rw (other, w₁.reads, w₂.reads)
          (ap some (
            compare_bytes-ended (stop (ended t₁ w₁.rest) (ended t₂ w₂.rest)) t₁ t₂ w₁.rest w₂.rest
              w₁.nonzero w₂.nonzero (stop-ended t₁ t₂ w₁.rest w₂.rest w₂.nonzero)))
  ]

  -- In a memory of at most 2 ^ 32 bytes, `_strcmp` of two texts that end inside the memory is 0 if
  -- they are equal, and only then.
  pub strcmp_iff :
      (s₁ s₂ : ℕ) (t₁ t₂ : List ℕ)
      → IsText m s₁ t₁
      → IsText m s₂ t₂
      → (strcmp m s₁ s₂ ≡ some 0) ↔ (t₁ ≡ t₂)
  strcmp_iff s₁ s₂ t₁ t₂ w₁ w₂ =
      let runs = strcmp-IsText s₁ s₂ t₁ t₂ w₁ w₂ in
      (
        λ h. compare_bytes_zero t₁ t₂ (number_injective _ _ (sym runs ∙ h)),
        λ e. runs ∙ ap some (rw e (compare_bytes_refl t₂)),
      )

  -- `_strchrnul` in a text finds the first byte `c`, or the final zero.
  pub strchrnul-IsText :
      (s c : ℕ) (t : List ℕ)
      → IsText m s t
      → strchrnul m s c ≡ some (add32 s (first_index t (c % 256)))
  unfolding strchrnul
  strchrnul-IsText s c t w =
      let e : u32 (first_index t (c % 256)) ≡ first_index t (c % 256) =
        omega (arith, IsText-inside w, first_index_bound t (c % 256)) in
      rw (w.reads, chrnul_index-ended t w.rest c w.nonzero, e) refl

  byte_at :
      (s i v : ℕ) (t : List ℕ) (w : IsText m s t)
      → i ≤ length t
      → get_elem? (ended t w.rest) i ≡ some v
      → load8 m (s + i) ≡ some v
  unfolding load8
  byte_at s i v t w le h =
      let (inside, same, _) = from_lem m s (ended t w.rest) w.reads in
      let found : some (m.byte (s + i)) ≡ some v =
        sym (get_elem?-cells m s (m.size - s) i (omega (arith, IsText-inside w)))
        ∙ (rw same at h) in
      let lt : ltb (s + i) m.size ≡ true = ground (arith, IsText-inside w) in rw lt found

  -- In a memory of at most 2 ^ 32 bytes, `_strchr` in a text that ends inside the memory finds the
  -- first byte `c`; it finds the final zero if `c` is 0, and gives the null pointer if `c` is not
  -- in the text.
  pub strchr-IsText :
      (s c : ℕ) (t : List ℕ)
      → IsText m s t
      → strchr m s c
        ≡ some (
            if first_index t (c % 256) == length t && not (c % 256 == 0)
            then 0
            else s + first_index t (c % 256))
  unfolding strchr
  strchr-IsText s c t w =
      let i : ℕ = first_index t (c % 256) in
      let bound : i ≤ length t = first_index_bound t (c % 256) in
      let at : add32 s i ≡ s + i = omega (arith, IsText-inside w) in
      let byte = byte_at s i _ t w bound (get_elem?-first_index t w.rest (c % 256)) in
      rw (strchrnul-IsText s c t w, at, byte) (ground arith)

  between-cells :
      (s n : ℕ) → s + n ≤ m.size → s + n < 4294967296 → between m s (add32 s n) ≡ some (cells m s n)
  unfolding between
  between-cells s n inside lt =
      let e : add32 s n ≡ s + n = omega arith in
      let d : s + n - s ≡ n = omega arith in
      let ordered : leb s (s + n) ≡ true = ground arith in
      let fits : leb (s + n) m.size ≡ true = ground arith in rw (e, d, ordered, fits) refl

  -- In a memory of at most 2 ^ 32 bytes, `_memcmp` compares two ranges of `n` bytes that lie inside
  -- the memory and end before 2 ^ 32, without a panic.
  memcmp-cells :
      (s₁ s₂ n : ℕ)
      → s₁ + n ≤ m.size
      → s₂ + n ≤ m.size
      → s₁ + n < 4294967296
      → s₂ + n < 4294967296
      → memcmp m s₁ s₂ n ≡ some (compare_bytes (cells m s₁ n) (cells m s₂ n))
  unfolding memcmp
  memcmp-cells s₁ s₂ n in₁ in₂ lt₁ lt₂ = elim (Bool-cases (s₁ == s₂)) [
    | inl same ↦
        let e : s₁ ≡ s₂ = (==_iff _ _).0 same in
        rw same (rw e (ap some (sym (compare_bytes_refl (cells m s₂ n)))))
    | inr other ↦ rw (other, between-cells s₁ n in₁ lt₁, between-cells s₂ n in₂ lt₂) refl
  ]
