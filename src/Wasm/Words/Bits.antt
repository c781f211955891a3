-- ===== src/Wasm/Words/Bits.antt =====
-- The bitwise operations at variables: one digit at a time, then by fields of any width.
use Prim.Native.Nat.{digits, bitwise, differ, bit_and-bitwise, bit_or-bitwise, bit_xor-bitwise, max}
use native.Mathlib.Nat.{pow-suc}
use go_pcapfilter.Prelude.{
  ℕ, zero, suc, ◌+◌, ◌*◌, ◌/◌, ◌%◌, ◌^◌, ◌≤◌, ◌<◌, ◌≡◌, refl, ap, ◌∙◌, ◌-◌, bit_and, bit_or,
  bit_xor, min, arith, Bool, true, ◌&&◌,
}

-- An operation on binary digits: `f` on two digits, `z` where the first number has no more.
module _ (z : ℕ → ℕ) (f : ℕ → ℕ → ℕ) (ends : (b : ℕ) → z b ≡ z (b / 2) * 2 + f 0 (b % 2)) where
  one_more : (n a b : ℕ) → a ≤ n → digits z f (suc n) a b ≡ digits z f n a b
  one_more zero zero b p = refl
  one_more (suc n) zero b p = refl
  one_more zero (suc a) b p = absurd (omega arith)
  one_more (suc n) (suc a) b p =
      ap (λ (t : ℕ). t * 2 + f (suc a % 2) (b % 2)) (one_more n (suc a / 2) (b / 2) (omega arith))

  surplus : (k n a b : ℕ) → a ≤ n → digits z f (k + n) a b ≡ digits z f n a b
  surplus zero n a b p = let e : 0 + n ≡ n = omega arith in ap (λ (t : ℕ). digits z f t a b) e
  surplus (suc k) n a b p =
      let e : suc k + n ≡ suc (k + n) = omega arith in
      ap (λ (t : ℕ). digits z f t a b) e ∙ one_more (k + n) a b (omega arith) ∙ surplus k n a b p

  halved : (a b : ℕ) → digits z f a (suc a / 2) b ≡ bitwise z f (suc a / 2) b
  halved a b =
      let e : a ≡ a - suc a / 2 + suc a / 2 = omega arith in
      ap (λ (n : ℕ). digits z f n (suc a / 2) b) e
      ∙ surplus (a - suc a / 2) (suc a / 2) (suc a / 2) b (omega arith)

  low_digit : (a b : ℕ) → bitwise z f a b ≡ bitwise z f (a / 2) (b / 2) * 2 + f (a % 2) (b % 2)
  low_digit zero b = ends b
  low_digit (suc a) b = ap (λ (t : ℕ). t * 2 + f (suc a % 2) (b % 2)) (halved a (b / 2))

pub and_low : (a b : ℕ) → bit_and a b ≡ bit_and (a / 2) (b / 2) * 2 + min (a % 2) (b % 2)
and_low a b = simp bit_and-bitwise (low_digit (λ _. 0) min (λ b. omega arith) a b)

xor_low : (a b : ℕ) → bit_xor a b ≡ bit_xor (a / 2) (b / 2) * 2 + differ (a % 2) (b % 2)
xor_low a b = simp bit_xor-bitwise (low_digit (λ y. y) differ (λ b. omega arith) a b)

double : (h k : ℕ) → h * 2 ^ suc k ≡ 2 * (h * 2 ^ k)
double h k = omega (arith, ap (λ (t : ℕ). h * t) (pow-suc 2 k))

-- An operation on digits acts on each field of digits.
pub xor_by_fields :
    (k h g a b : ℕ)
    → a < 2 ^ k
    → b < 2 ^ k
    → bit_xor (h * 2 ^ k + a) (g * 2 ^ k + b) ≡ bit_xor h g * 2 ^ k + bit_xor a b
xor_by_fields zero h g a b p q = ground arith
xor_by_fields (suc k) h g a b p q = ground (
  arith,
  double h k,
  double g k,
  double (bit_xor h g) k,
  xor_low (h * 2 ^ suc k + a) (g * 2 ^ suc k + b),
  xor_low a b,
  xor_by_fields k h g (a / 2) (b / 2),
)

pub and_by_fields :
    (k h g a b : ℕ)
    → a < 2 ^ k
    → b < 2 ^ k
    → bit_and (h * 2 ^ k + a) (g * 2 ^ k + b) ≡ bit_and h g * 2 ^ k + bit_and a b
and_by_fields zero h g a b p q = ground arith
and_by_fields (suc k) h g a b p q = ground (
  arith,
  double h k,
  double g k,
  double (bit_and h g) k,
  and_low (h * 2 ^ suc k + a) (g * 2 ^ suc k + b),
  and_low a b,
  and_by_fields k h g (a / 2) (b / 2),
)

differ-differ : (a b : ℕ) → a < 2 → b < 2 → (differ (differ a b) a ≡ b) × (differ a b < 2)
differ-differ zero zero p q = omega arith
differ-differ zero (suc zero) p q = omega arith
differ-differ zero (suc (suc b)) p q = absurd (omega arith)
differ-differ (suc zero) zero p q = omega arith
differ-differ (suc zero) (suc zero) p q = omega arith
differ-differ (suc zero) (suc (suc b)) p q = absurd (omega arith)
differ-differ (suc (suc a)) b p q = absurd (omega arith)

-- What is mixed in twice is gone.
xor-xor_fuel : (n a b : ℕ) → a ≤ n → b ≤ n → bit_xor (bit_xor a b) a ≡ b
xor-xor_fuel zero zero zero p q = refl
xor-xor_fuel zero (suc a) b p q = absurd (omega arith)
xor-xor_fuel zero zero (suc b) p q = absurd (omega arith)
xor-xor_fuel (suc n) a b p q = ground (
  arith,
  xor_low a b,
  xor_low (bit_xor a b) a,
  differ-differ (a % 2) (b % 2),
  xor-xor_fuel n (a / 2) (b / 2),
)

pub xor-xor : (a b : ℕ) → bit_xor (bit_xor a b) a ≡ b
xor-xor a b = xor-xor_fuel (a + b) a b (omega arith) (omega arith)

pub zero-xor : (b : ℕ) → bit_xor 0 b ≡ b
zero-xor b = bit_xor-bitwise 0 b

differ-lt : (a b : ℕ) → a < 2 → b < 2 → differ a b < 2
differ-lt a b p q = omega (arith, differ-differ a b p q)

pub xor-lt : (k a b : ℕ) → a < 2 ^ k → b < 2 ^ k → bit_xor a b < 2 ^ k
xor-lt zero a b p q = ground arith
xor-lt (suc k) a b p q = omega (
  arith,
  pow-suc 2 k,
  xor_low a b,
  differ-lt (a % 2) (b % 2) (omega arith) (omega arith),
  xor-lt k (a / 2) (b / 2) (omega (arith, pow-suc 2 k)) (omega (arith, pow-suc 2 k)),
)

or_low : (a b : ℕ) → bit_or a b ≡ bit_or (a / 2) (b / 2) * 2 + max (a % 2) (b % 2)
or_low a b = simp bit_or-bitwise (low_digit (λ y. y) max (λ b. omega arith) a b)

or-zero_fuel : (n a : ℕ) → a ≤ n → bit_or a 0 ≡ a
or-zero_fuel n zero p = refl
or-zero_fuel zero (suc a) p = absurd (omega arith)
or-zero_fuel (suc n) (suc a) p =
    omega (arith, or_low (suc a) 0, or-zero_fuel n (suc a / 2) (omega arith))

-- `h << k | b` is a sum where `b` fits the low digits.
pub or_disjoint : (k h b : ℕ) → b < 2 ^ k → bit_or (h * 2 ^ k) b ≡ h * 2 ^ k + b
or_disjoint zero h b p = ground (arith, or-zero_fuel h h)
or_disjoint (suc k) h b p =
    ground (arith, double h k, or_low (h * 2 ^ suc k) b, or_disjoint k h (b / 2))

zero-and : (b : ℕ) → bit_and 0 b ≡ 0
zero-and b = bit_and-bitwise 0 b

pub and-lt : (k a b : ℕ) → a < 2 ^ k → bit_and a b < 2 ^ k
and-lt zero zero b p = omega (arith, zero-and b)
and-lt zero (suc a) b p = absurd (omega arith)
and-lt (suc k) a b p =
    omega (arith, pow-suc 2 k, and_low a b, and-lt k (a / 2) (b / 2) (omega (arith, pow-suc 2 k)))

ones_half : (k : ℕ) → ((2 ^ suc k - 1) / 2 ≡ 2 ^ k - 1) × ((2 ^ suc k - 1) % 2 ≡ 1)
ones_half k = omega (arith, pow-suc 2 k, one_le_pow k)
  where
    one_le_pow : (k : ℕ) → 1 ≤ 2 ^ k
    one_le_pow zero = omega arith
    one_le_pow (suc k) = omega (arith, pow-suc 2 k, one_le_pow k)

-- A mask of ones keeps a number that it covers.
and_ones : (k a : ℕ) → a < 2 ^ k → bit_and a (2 ^ k - 1) ≡ a
and_ones zero zero p = zero-and (2 ^ 0 - 1)
and_ones zero (suc a) p = absurd (omega arith)
and_ones (suc k) a p = ground (
  arith,
  pow-suc 2 k,
  and_low a (2 ^ suc k - 1),
  ones_half k,
  and_ones k (a / 2) (omega (arith, pow-suc 2 k)),
)

pub and-zero : (k a : ℕ) → a < 2 ^ k → bit_and a 0 ≡ 0
and-zero zero zero p = zero-and 0
and-zero zero (suc a) p = absurd (omega arith)
and-zero (suc k) a p =
    omega (arith, pow-suc 2 k, and_low a 0, and-zero k (a / 2) (omega (arith, pow-suc 2 k)))

-- A mask with `j` ones above `k` zeros clears the `k` low digits.
pub and_mask :
    (k j h a : ℕ)
    → a < 2 ^ k
    → h < 2 ^ j
    → bit_and (h * 2 ^ k + a) ((2 ^ j - 1) * 2 ^ k + 0) ≡ h * 2 ^ k
and_mask k j h a p q =
    ground
      (arith, and_by_fields k h (2 ^ j - 1) a 0 p (omega arith), and_ones j h q, and-zero k a p)

pub or-lt : (k a b : ℕ) → a < 2 ^ k → b < 2 ^ k → bit_or a b < 2 ^ k
or-lt zero a b p q = ground arith
or-lt (suc k) a b p q = omega (
  arith,
  pow-suc 2 k,
  or_low a b,
  or-lt k (a / 2) (b / 2) (omega (arith, pow-suc 2 k)) (omega (arith, pow-suc 2 k)),
)

-- A test that passes at every number up to `top`, by evaluation.
unfoldable pub passes_to : (ℕ → Bool) → ℕ → Bool
passes_to test zero = test zero
passes_to test (suc top) = passes_to test top && test (suc top)

pub passes_to_sound :
    (test : ℕ → Bool) (top x : ℕ) → x ≤ top → passes_to test top ≡ true → test x ≡ true
unfolding passes_to
passes_to_sound test zero zero le h = h
passes_to_sound test zero (suc x) le h = absurd (omega arith)
passes_to_sound test (suc top) x le h = ground (arith, passes_to_sound test top x)
