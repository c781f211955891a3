-- ===== src/Libc/Lists.antt =====
-- Comparing and searching lists of bytes.
use go_pcapfilter.Prelude.{
  get_elem?, ◌-◌, ℕ, zero, suc, ◌+◌, ◌%◌, ◌≤◌, ◌<◌, ◌≡◌, ◌⊎◌, refl, false, ◌==◌, ==_refl,
  if◌then◌else◌, List, [], ◌∷◌, ◌++◌, none, some, length, take, All, arith, ap,
}
use go_pcapfilter.Libc.{compare_bytes, index_byte, chrnul_index}

abbrev pub IsNonzero : ℕ → Type 0
IsNonzero c = 0 < c

-- The bytes of a text, its final zero, and what lies behind it.
abbrev pub ended : List ℕ → List ℕ → List ℕ
ended t rest = t ++ 0 ∷ rest

pub compare_bytes_refl : (b : List ℕ) → compare_bytes b b ≡ 0
unfolding compare_bytes
compare_bytes_refl [] = refl
compare_bytes_refl (c ∷ b) = rw (==_refl c, compare_bytes_refl b) refl

pub index_byte-ended :
    (t rest : List ℕ) → All IsNonzero t → index_byte (ended t rest) 0 ≡ some (length t)
unfolding index_byte
index_byte-ended [] rest h = refl
index_byte-ended (c ∷ t) rest (pos, h) =
    let other : (c == 0) ≡ false = ground arith in
    rw (other, index_byte-ended t rest h) (ap some (omega arith))

-- Cut behind the zero of the second text, or past the end of the first one but not of the second,
-- the bytes compare as the texts do.
pub compare_bytes-ended :
    (n : ℕ) (s t r₁ r₂ : List ℕ)
    → All IsNonzero s
    → All IsNonzero t
    → (n ≡ length t + 1) ⊎ ((length s < n) × (n ≤ length t))
    → compare_bytes (take n (ended s r₁)) (take n (ended t r₂)) ≡ compare_bytes s t
unfolding compare_bytes
compare_bytes-ended zero s t r₁ r₂ hs ht far = absurd (omega arith)
compare_bytes-ended (suc zero) [] [] r₁ r₂ hs ht far = refl
compare_bytes-ended (suc (suc n)) [] [] r₁ r₂ hs ht far = absurd (omega arith)
compare_bytes-ended (suc n) [] (d ∷ t) r₁ r₂ hs (pos, ht) far = ground arith
compare_bytes-ended (suc n) (c ∷ s) [] r₁ r₂ (pos, hs) ht far = ground arith
compare_bytes-ended (suc n) (c ∷ s) (d ∷ t) r₁ r₂ (_, hs) (_, ht) far =
    rw (compare_bytes-ended n s t r₁ r₂ hs ht (omega arith)) refl

-- The index of the first byte `c`, or of the final zero.
unfoldable pub first_index : List ℕ → ℕ → ℕ
first_index [] c = 0
first_index (d ∷ t) c = let rest = first_index t c in if d == c then 0 else rest + 1

pub first_index_bound : (t : List ℕ) (c : ℕ) → first_index t c ≤ length t
unfolding first_index
first_index_bound [] c = omega arith
first_index_bound (d ∷ t) c = ground (arith, first_index_bound t c)

pub chrnul_index-ended :
    (t rest : List ℕ) (c : ℕ)
    → All IsNonzero t
    → chrnul_index (ended t rest) c ≡ some (first_index t (c % 256))
unfolding chrnul_index first_index
chrnul_index-ended [] rest c h = refl
chrnul_index-ended (d ∷ t) rest c (pos, h) =
    let other : (d == 0) ≡ false = ground arith in
    rw (other, chrnul_index-ended t rest c h) (ground arith)

pub length-ended : (t rest : List ℕ) → length (ended t rest) ≡ length t + 1 + length rest
length-ended [] rest = omega arith
length-ended (c ∷ t) rest = omega (arith, length-ended t rest)

take-ended :
    (n : ℕ) (t rest : List ℕ)
    → length t < n
    → take n (ended t rest) ≡ ended t (take (n - length t - 1) rest)
take-ended zero t rest h = absurd (omega arith)
take-ended (suc n) [] rest h = let e : suc n - 0 - 1 ≡ n = omega arith in rw e refl
take-ended (suc n) (c ∷ t) rest h =
    let e : suc n - suc (length t) - 1 ≡ n - length t - 1 = omega arith in
    rw (e, take-ended n t rest (omega arith)) refl

pub index_byte-past :
    (n : ℕ) (t rest : List ℕ)
    → All IsNonzero t
    → length t < n
    → index_byte (take n (ended t rest)) 0 ≡ some (length t)
index_byte-past n t rest h lt =
    rw (take-ended n t rest lt) (index_byte-ended t (take (n - length t - 1) rest) h)

pub index_byte-before :
    (n : ℕ) (t rest : List ℕ)
    → All IsNonzero t
    → n ≤ length t
    → index_byte (take n (ended t rest)) 0 ≡ none
unfolding index_byte
index_byte-before zero [] rest h le = refl
index_byte-before zero (c ∷ t) rest h le = refl
index_byte-before (suc n) [] rest h le = absurd (omega arith)
index_byte-before (suc n) (c ∷ t) rest (pos, h) le =
    let other : (c == 0) ≡ false = ground arith in
    rw (other, index_byte-before n t rest h (omega arith)) refl

pub compare_bytes_zero : (s t : List ℕ) → compare_bytes s t ≡ 0 → s ≡ t
unfolding compare_bytes
compare_bytes_zero [] [] h = refl
compare_bytes_zero [] (d ∷ t) h = absurd (omega (arith, h))
compare_bytes_zero (c ∷ s) [] h = absurd (omega (arith, h))
compare_bytes_zero (c ∷ s) (d ∷ t) h = ground (arith, compare_bytes_zero s t)

-- The byte at the first index is `c`, or the final zero where `c` is not in the text.
pub get_elem?-first_index :
    (t rest : List ℕ) (c : ℕ)
    → get_elem? (ended t rest) (first_index t c)
      ≡ some (if first_index t c == length t then 0 else c)
unfolding first_index
get_elem?-first_index [] rest c = refl
get_elem?-first_index (d ∷ t) rest c = ground (arith, get_elem?-first_index t rest c)
