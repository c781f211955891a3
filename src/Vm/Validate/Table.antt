-- ===== src/Vm/Validate/Table.antt =====
-- The two switches on the opcode agree: what is checked of an instruction is what its label needs.
use go_pcapfilter.Prelude.{
  ℕ, ◌≤◌, ◌≡◌, ◌≢◌, refl, Bool, true, false, not, ltb, ◌==◌, ==_iff, ◌&&◌, ◌||◌, if◌then◌else◌,
  bit_and, List, [], ◌∷◌, ◌++◌, All, arith, ap, sym, ◌∙◌, Bool-cases, inl, inr, ◌⊎◌,
}
use go_pcapfilter.Wasm.Words.Bits.{passes_to, passes_to_sound}
use go_pcapfilter.Vm.Label.{
  konst, Load, LoadX, Alu, Label, find_label, low_cases, high_cases, label, invalid, ret_k, ret_a,
  st, stx, ja, load, load_x, jump, alu,
}
use go_pcapfilter.Vm.Validate.{
  always_ops, slot_ops, divisor_ops, shift_ops, elem, Check, always, slot, divisor, shift, never,
  check, Jumps, no_jump, far_jump, test_jump, jumps,
}

-- What the code behind a label needs of the constant.
abbrev pub needs : Label → Check
needs invalid = never
needs st = slot
needs stx = slot
needs (load Load.mem) = slot
needs (load_x LoadX.mem) = slot
needs (alu Alu.div konst) = divisor
needs (alu Alu.mod_ konst) = divisor
needs (alu Alu.lsh konst) = shift
needs (alu Alu.rsh konst) = shift
needs _ = always

abbrev pub jumps_of : Label → Jumps
jumps_of ja = far_jump
jumps_of (jump t o) = test_jump
jumps_of _ = no_jump

abbrev pub returns : Label → Bool
returns ret_k = true
returns ret_a = true
returns _ = false

abbrev check_code : Check → ℕ
check_code always = 0
check_code slot = 1
check_code divisor = 2
check_code shift = 3
check_code never = 4

abbrev check_at : ℕ → Check
check_at n =
    if n == 0
    then always
    else if n == 1
    then slot
    else if n == 2
    then divisor
    else if n == 3
    then shift
    else never

check_code_inverse : (c : Check) → check_at (check_code c) ≡ c
check_code_inverse always = refl
check_code_inverse slot = refl
check_code_inverse divisor = refl
check_code_inverse shift = refl
check_code_inverse never = refl

abbrev jumps_code : Jumps → ℕ
jumps_code no_jump = 0
jumps_code far_jump = 1
jumps_code test_jump = 2

abbrev jumps_at : ℕ → Jumps
jumps_at n = if n == 0 then no_jump else if n == 1 then far_jump else test_jump

jumps_code_inverse : (j : Jumps) → jumps_at (jumps_code j) ≡ j
jumps_code_inverse no_jump = refl
jumps_code_inverse far_jump = refl
jumps_code_inverse test_jump = refl

abbrev same_bool : Bool → Bool → Bool
same_bool true b = b
same_bool false b = not b

same_bool_sound : (a b : Bool) → same_bool a b ≡ true → a ≡ b
same_bool_sound true true h = refl
same_bool_sound true false h = cc
same_bool_sound false true h = cc
same_bool_sound false false h = refl

-- One opcode: the checks agree, and unless it is unknown, so do the jumps and the returns.
row : ℕ → Bool
row op =
    check_code (check op) == check_code (needs (label op))
    && (check_code (check op) == 4
        || (jumps_code (jumps op) == jumps_code (jumps_of (label op))
            && same_bool (bit_and op 7 == 6) (returns (label op))))

row_table : passes_to row 255 ≡ true
unfolding passes_to row check elem jumps label find_label
row_table = refl

find_label-above :
    (op : ℕ) (table : List (ℕ × Label))
    → 256 ≤ op
    → All (λ entry. ltb entry.0 256 ≡ true) table
    → find_label op table ≡ invalid
unfolding find_label
find_label-above op [] h all = refl
find_label-above op ((d, l) ∷ rest) h (small, all) =
    let other : (op == d) ≡ false = ground arith in rw other (find_label-above op rest h all)

elem-above :
    (op : ℕ) (ops : List ℕ) → 256 ≤ op → All (λ x. ltb x 256 ≡ true) ops → elem op ops ≡ false
unfolding elem
elem-above op [] h all = refl
elem-above op (x ∷ xs) h (small, all) =
    let other : (op == x) ≡ false = ground arith in rw (other, elem-above op xs h all) refl

all_below : List ℕ → Bool
all_below [] = true
all_below (x ∷ xs) = ltb x 256 && all_below xs

all_below_sound : (xs : List ℕ) → all_below xs ≡ true → All (λ x. ltb x 256 ≡ true) xs
unfolding all_below
all_below_sound [] h = tt
all_below_sound (x ∷ xs) h = (ground arith, all_below_sound xs (ground arith))

check-above : (op : ℕ) → 256 ≤ op → check op ≡ never
unfolding check all_below
check-above op h =
    rw
      (
        elem-above op always_ops h (all_below_sound always_ops refl),
        elem-above op slot_ops h (all_below_sound slot_ops refl),
        elem-above op divisor_ops h (all_below_sound divisor_ops refl),
        elem-above op shift_ops h (all_below_sound shift_ops refl),
      )
      refl

keys_below : List (ℕ × Label) → Bool
keys_below [] = true
keys_below ((d, _) ∷ rest) = ltb d 256 && keys_below rest

keys_below_sound :
    (t : List (ℕ × Label)) → keys_below t ≡ true → All (λ entry. ltb entry.0 256 ≡ true) t
unfolding keys_below
keys_below_sound [] h = tt
keys_below_sound ((d, l) ∷ t) h = (ground arith, keys_below_sound t (ground arith))

pub label-above : (op : ℕ) → 256 ≤ op → label op ≡ invalid
unfolding label keys_below
label-above op h =
    find_label-above op (low_cases ++ high_cases) h
      (keys_below_sound (low_cases ++ high_cases) refl)

check_code-injective : (c d : Check) → (check_code c == check_code d) ≡ true → c ≡ d
check_code-injective c d h =
    sym (check_code_inverse c)
    ∙ ap check_at {x = check_code c} {y = check_code d} ((==_iff _ _).0 h)
    ∙ check_code_inverse d

jumps_code-injective : (i j : Jumps) → (jumps_code i == jumps_code j) ≡ true → i ≡ j
jumps_code-injective i j h =
    sym (jumps_code_inverse i)
    ∙ ap jumps_at {x = jumps_code i} {y = jumps_code j} ((==_iff _ _).0 h)
    ∙ jumps_code_inverse j

-- The facts of a row.
pub record Row (op : ℕ) : Type 0 where
  pub checks : check op ≡ needs (label op)
  pub known :
      check op ≢ never
      → (jumps op ≡ jumps_of (label op)) × ((bit_and op 7 == 6) ≡ returns (label op))

if_known :
    (a b c d : Bool)
    → (a && (b || (c && d))) ≡ true
    → (a ≡ true) × ((b ≡ true) ⊎ ((c ≡ true) × (d ≡ true)))
if_known true true c d h = (refl, inl refl)
if_known true false true true h = (refl, inr (refl, refl))
if_known true false true false h = cc
if_known true false false d h = cc
if_known false b c d h = cc

row_sound : (op : ℕ) → row op ≡ true → Row op
unfolding row
row_sound op h =
    let (same, rest) =
      if_known (check_code (check op) == check_code (needs (label op))) (check_code (check op) == 4)
        (jumps_code (jumps op) == jumps_code (jumps_of (label op)))
        (same_bool (bit_and op 7 == 6) (returns (label op))) h in
    record {
      checks = check_code-injective (check op) (needs (label op)) same;
      known = λ k. elim rest [
        | inl unknown ↦ absurd (k (check_code-injective (check op) never unknown))
        | inr (j, r) ↦ (
          jumps_code-injective (jumps op) (jumps_of (label op)) j,
          same_bool_sound (bit_and op 7 == 6) (returns (label op)) r,
        )
      ];
    }

pub op-Row : (op : ℕ) → Row op
op-Row op = elim (Bool-cases (ltb op 256)) [
  | inl low ↦ row_sound op (passes_to_sound row 255 op (ground arith) row_table)
  | inr high ↦
      let far : 256 ≤ op = ground arith in
      record {
        checks = check-above op far ∙ sym (ap needs (label-above op far));
        known = λ k. absurd (k (check-above op far));
      }
]
