-- ===== src/Wasm/Words/Masks.antt =====
-- Numbers whose binary digits are all ones, by the test `v & (v + 1) == 0`.
use native.Mathlib.Nat.{pow-suc}
use go_pcapfilter.Prelude.{
  ℕ, zero, suc, ◌+◌, ◌/◌, ◌%◌, ◌^◌, ◌≤◌, ◌<◌, ◌≡◌, ◌↔◌, inl, inr, refl, ap, sym, ◌∙◌, bit_and, min,
  arith, ◌==◌, Bool-cases,
}
use go_pcapfilter.Wasm.Words.{u32}
use go_pcapfilter.Wasm.Words.Bits.{and_low, and-zero}

pub pow_pos : (k : ℕ) → 0 < 2 ^ k
pow_pos zero = omega arith
pow_pos (suc k) = omega (arith, pow-suc 2 k, pow_pos k)

pub pow-le : (k d : ℕ) → 2 ^ k ≤ 2 ^ (k + d)
pow-le k zero = let e : k + 0 ≡ k = omega arith in rw e (omega arith)
pow-le k (suc d) =
    let e : k + suc d ≡ suc (k + d) = omega arith in
    rw e (omega (arith, pow-suc 2 (k + d), pow-le k d))

and_self : (w v : ℕ) → v < 2 ^ w → bit_and v v ≡ v
and_self zero v lt = let e : v ≡ 0 = omega arith in rw e (and-zero 0 0 (omega arith))
and_self (suc w) v lt =
    omega (arith, and_low v v, pow-suc 2 w, and_self w (v / 2) (omega (arith, pow-suc 2 w)))

-- `v + 1` is a power of two.
abbrev pub IsOnes : ℕ → ℕ → Type 0
IsOnes w v = (k : ℕ) × (k ≤ w) × (v + 1 ≡ 2 ^ k)

pub and-IsOnes : (w v : ℕ) → v < 2 ^ w → bit_and v (v + 1) ≡ 0 → IsOnes w v
and-IsOnes zero v lt h = (0, omega arith, omega arith)
and-IsOnes (suc w) v lt h = elim (Bool-cases (v % 2 == 0)) [
  | inl even ↦
      let lower : v % 2 ≡ 0 = ground arith in
      let next : (v + 1) / 2 ≡ v / 2 = omega arith in
      let digit : min (v % 2) ((v + 1) % 2) ≡ 0 = ground arith in
      let small : v / 2 < 2 ^ w = omega (arith, pow-suc 2 w) in
      let same : bit_and (v / 2) ((v + 1) / 2) ≡ v / 2 =
        ap (bit_and (v / 2)) next ∙ and_self w (v / 2) small in
      (0, omega arith, omega (arith, and_low v (v + 1)))
  | inr odd ↦
      let upper : v % 2 ≡ 1 = ground arith in
      let next : (v + 1) / 2 ≡ v / 2 + 1 = omega arith in
      let small : v / 2 < 2 ^ w = omega (arith, pow-suc 2 w) in
      let rest : bit_and (v / 2) (v / 2 + 1) ≡ 0 =
        ap (bit_and (v / 2)) (sym next) ∙ omega (arith, and_low v (v + 1)) in
      let (k, le, e) = and-IsOnes w (v / 2) small rest in
      (suc k, omega arith, omega (arith, pow-suc 2 k))
]

pub and_of_ones : (k v : ℕ) → v + 1 ≡ 2 ^ k → bit_and v (v + 1) ≡ 0
and_of_ones zero v e = let none : v ≡ 0 = omega arith in rw none (and-zero 1 0 (omega arith) ∙ refl)
and_of_ones (suc k) v e =
    let half : v / 2 + 1 ≡ 2 ^ k = omega (arith, pow-suc 2 k, pow_pos k) in
    let next : (v + 1) / 2 ≡ v / 2 + 1 = omega (arith, pow-suc 2 k) in
    let rest : bit_and (v / 2) ((v + 1) / 2) ≡ 0 =
      ap (bit_and (v / 2)) next ∙ and_of_ones k (v / 2) half in
    omega (arith, and_low v (v + 1), pow-suc 2 k)

-- The test on a 32-bit word, in which the addition wraps around.
pub and_IsOnes_32 : (v : ℕ) → v < 4294967296 → (bit_and v (u32 (v + 1)) ≡ 0) ↔ IsOnes 32 v
and_IsOnes_32 v lt = elim (Bool-cases (v == 4294967295)) [
  | inl full ↦
      let wraps : u32 (v + 1) ≡ 0 = ground arith in
      (λ h. (32, omega arith, ground arith), λ ones. rw wraps (and-zero 32 v lt))
  | inr other ↦
      let stays : u32 (v + 1) ≡ v + 1 = ground arith in
      (λ h. and-IsOnes 32 v lt (rw stays at h), λ (k, le, e). rw stays (and_of_ones k v e))
]
