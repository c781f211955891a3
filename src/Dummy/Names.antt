-- ===== src/Dummy/Names.antt =====
-- The comparison of names without regard to case.
use go_pcapfilter.Prelude.{
  inl, inr, false, ℕ, zero, suc, ◌+◌, ◌≤◌, ◌<◌, ◌≡◌, ◌↔◌, true, false, Bool, ◌&&◌, ◌==◌, ==_iff,
  leb, bit_and, if◌then◌else◌, List, [], ◌∷◌, map, some, length, All, arith, refl, ap, ◌∙◌,
  Bool-cases,
}
use go_pcapfilter.Wasm.Words.{add32, sub32}
use go_pcapfilter.Wasm.Memory.{Memory, load8}
use go_pcapfilter.Wasm.Memory.Texts.{Spells, Spells-inside}
use go_pcapfilter.Dummy.{to_lower, strcasecmp}

-- A letter of ASCII in lower case.
abbrev pub lowered : ℕ → ℕ
lowered c = if leb 65 c && leb c 90 then c + 32 else c

abbrev IsTextByte : ℕ → Type 0
IsTextByte c = (0 < c) × (c < 256)

all_below : ℕ → (ℕ → Bool) → Bool
all_below zero f = true
all_below (suc n) f = f n && all_below n f

all_below_lem : (n : ℕ) (f : ℕ → Bool) (c : ℕ) → all_below n f ≡ true → c < n → f c ≡ true
unfolding all_below
all_below_lem zero f c all lt = absurd (omega arith)
all_below_lem (suc n) f c all lt = elim (Bool-cases (c == n)) [
  | inl same ↦ ap f ((==_iff _ _).0 same) ∙ ground arith
  | inr other ↦ all_below_lem n f c (ground arith) (ground arith)
]

to_lower_lem : (c : ℕ) → c < 256 → bit_and (to_lower c) 255 ≡ lowered c
unfolding to_lower all_below
to_lower_lem c lt =
    (==_iff _ _).0 (all_below_lem 256 (λ c. bit_and (to_lower c) 255 == lowered c) c refl lt)

-- Where the lower-cased texts differ for the first time: the difference of the bytes there, or 0.
abbrev pub case_difference : List ℕ → List ℕ → ℕ
case_difference [] [] = 0
case_difference [] (d ∷ t₂) = sub32 0 d
case_difference (c ∷ t₁) [] = c
case_difference (c ∷ t₁) (d ∷ t₂) =
    if lowered c == lowered d then case_difference t₁ t₂ else sub32 (lowered c) (lowered d)

lowered_bound : (c : ℕ) → c < 256 → lowered c < 256
lowered_bound c lt = ground arith

first_of : {a b : ℕ} {s t : List ℕ} → a ∷ s ≡ b ∷ t → a ≡ b
first_of e = cc

case_difference_iff :
    (t₁ t₂ : List ℕ)
    → All IsTextByte t₁
    → All IsTextByte t₂
    → (case_difference t₁ t₂ ≡ 0) ↔ (map lowered t₁ ≡ map lowered t₂)
case_difference_iff [] [] h₁ h₂ = (λ e. refl, λ e. refl)
case_difference_iff [] (d ∷ t₂) h₁ (pos, h₂) = (λ e. absurd (omega arith), λ e. cc)
case_difference_iff (c ∷ t₁) [] (pos, h₁) h₂ = (λ e. absurd (omega arith), λ e. cc)
case_difference_iff (c ∷ t₁) (d ∷ t₂) (pos₁, h₁) (pos₂, h₂) =
    elim (Bool-cases (lowered c == lowered d)) [
      | inl same ↦
          let head : lowered c ≡ lowered d = (==_iff _ _).0 same in
          let (to, from) = case_difference_iff t₁ t₂ h₁ h₂ in
          rw same (
            (
              λ e. ap (λ t. lowered c ∷ t) (to e) ∙ ap (λ k. k ∷ map lowered t₂) head,
              λ e. from (cc),
            ))
      | inr other ↦ rw other (
          (
            λ e. absurd (ground (arith, lowered_bound c, lowered_bound d)),
            λ e. absurd (ground (arith, first_of e)),
          ))
    ]

-- One round on the bytes `c` and `d`.
round :
    (fuel : ℕ) (m : Memory) (s₁ s₂ c d : ℕ)
    → load8 m s₁ ≡ some c
    → load8 m s₂ ≡ some d
    → c < 256
    → d < 256
    → strcasecmp (suc fuel) m s₁ s₂ ≡ (
        if c == 0
        then some (sub32 c d)
        else if d == 0
        then some (sub32 c d)
        else if lowered c == lowered d
        then strcasecmp fuel m (add32 s₁ 1) (add32 s₂ 1)
        else some (sub32 (lowered c) (lowered d)))
unfolding strcasecmp
round fuel m s₁ s₂ c d read₁ read₂ lt₁ lt₂ =
    let low₁ = to_lower_lem c lt₁ in
    let low₂ = to_lower_lem d lt₂ in
    elim (Bool-cases (lowered c == lowered d)) [
      | inl same ↦
          let no : (sub32 (lowered c) (lowered d) == 0) ≡ true = ground arith in
          rw (strcasecmp, read₂, read₁, low₁, low₂, no, same) refl
      | inr other ↦
          let no : (sub32 (lowered c) (lowered d) == 0) ≡ false = ground arith in
          rw (strcasecmp, read₂, read₁, low₁, low₂, no, other) refl
    ]

load8-inside : (m : Memory) (s c : ℕ) → s < m.size → m.byte s ≡ c → load8 m s ≡ some c
unfolding load8
load8-inside m s c inside read = ground arith

strcasecmp-Spells :
    (fuel : ℕ) (m : Memory) (s₁ s₂ : ℕ) (t₁ t₂ : List ℕ)
    → m.size ≤ 4294967296
    → Spells m s₁ t₁
    → Spells m s₂ t₂
    → length t₁ < fuel
    → strcasecmp fuel m s₁ s₂ ≡ some (case_difference t₁ t₂)
strcasecmp-Spells zero m s₁ s₂ t₁ t₂ small w₁ w₂ lt = absurd (omega arith)
strcasecmp-Spells (suc fuel) m s₁ s₂ [] [] small (in₁, e₁) (in₂, e₂) lt =
    round fuel m s₁ s₂ 0 0 (load8-inside m s₁ 0 in₁ e₁) (load8-inside m s₂ 0 in₂ e₂) (omega arith)
      (omega arith)
strcasecmp-Spells (suc fuel) m s₁ s₂ [] (d ∷ t₂) small (in₁, e₁) (e₂, pos₂, b₂, w₂) lt =
    round fuel m s₁ s₂ 0 d (load8-inside m s₁ 0 in₁ e₁)
      (load8-inside m s₂ d (omega (arith, Spells-inside m (s₂ + 1) t₂ w₂)) e₂) (omega arith) b₂
strcasecmp-Spells (suc fuel) m s₁ s₂ (c ∷ t₁) [] small (e₁, pos₁, b₁, w₁) (in₂, e₂) lt =
    round fuel m s₁ s₂ c 0 (load8-inside m s₁ c (omega (arith, Spells-inside m (s₁ + 1) t₁ w₁)) e₁)
      (load8-inside m s₂ 0 in₂ e₂) b₁ (omega arith)
    ∙ ground arith
strcasecmp-Spells (suc fuel) m s₁ s₂ (c ∷ t₁) (d ∷ t₂) small (e₁, pos₁, b₁, w₁) (e₂, pos₂, b₂, w₂)
      lt =
    let in₁ = Spells-inside m (s₁ + 1) t₁ w₁ in
    let in₂ = Spells-inside m (s₂ + 1) t₂ w₂ in
    let next₁ : add32 s₁ 1 ≡ s₁ + 1 = omega arith in
    let next₂ : add32 s₂ 1 ≡ s₂ + 1 = omega arith in
    let rest = strcasecmp-Spells fuel m (s₁ + 1) (s₂ + 1) t₁ t₂ small w₁ w₂ (omega arith) in
    let real₁ : (c == 0) ≡ false = ground arith in
    let real₂ : (d == 0) ≡ false = ground arith in
    round fuel m s₁ s₂ c d (load8-inside m s₁ c (omega arith) e₁)
      (load8-inside m s₂ d (omega arith) e₂) b₁ b₂
    ∙ rw (real₁, real₂, next₁, next₂, rest)
        (elim (Bool-cases (lowered c == lowered d)) [
          | inl same ↦ rw same refl
          | inr other ↦ rw other refl
        ])

Spells-IsTextByte : (m : Memory) (s : ℕ) (t : List ℕ) → Spells m s t → All IsTextByte t
Spells-IsTextByte m s [] w = tt
Spells-IsTextByte m s (c ∷ t) (read, pos, lt, rest) =
    ((pos, lt), Spells-IsTextByte m (s + 1) t rest)

-- In a memory of at most 2 ^ 32 bytes that spells two texts, the loop of `_pcapint_strcasecmp` ends
-- within one round more than the first text has bytes, and its result is 0 if the texts are equal
-- up to the case of the letters of ASCII, and only then.
pub strcasecmp_iff :
    (m : Memory) (s₁ s₂ : ℕ) (t₁ t₂ : List ℕ)
    → m.size ≤ 4294967296
    → Spells m s₁ t₁
    → Spells m s₂ t₂
    → (r : ℕ) × (strcasecmp (length t₁ + 1) m s₁ s₂ ≡ some r)
      × ((r ≡ 0) ↔ (map lowered t₁ ≡ map lowered t₂))
strcasecmp_iff m s₁ s₂ t₁ t₂ small w₁ w₂ = (
  case_difference t₁ t₂,
  strcasecmp-Spells (length t₁ + 1) m s₁ s₂ t₁ t₂ small w₁ w₂ (omega arith),
  case_difference_iff t₁ t₂ (Spells-IsTextByte m s₁ t₁ w₁) (Spells-IsTextByte m s₂ t₂ w₂),
)
