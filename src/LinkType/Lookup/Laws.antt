-- ===== src/LinkType/Lookup/Laws.antt =====
-- `LookupLinkType` by the key of a name: what the generated tables agree on.
use Prim.Native.String.{String}
use go_pcapfilter.LinkType.Values.{const_values}
use go_pcapfilter.Prelude.{
  ℕ, ◌≡◌, refl, Bool, true, false, ◌&&◌, ◌||◌, ◌==◌, List, [], ◌∷◌, Option, none, some, ◌⊎◌, inl,
  inr, Bool-cases, Option-cases, codes, text_eq, text_eq_sound, arith, ap, sym, subst, ◌∙◌,
}
use go_pcapfilter.LinkType.Constants.{link_type_constants}
use go_pcapfilter.LinkType.Cases.{lookup_cases}
use go_pcapfilter.LinkType.Lookup.{assoc, link_type_value, key, switch, lookup_link_type}

-- A name of a table.
abbrev pub Names {ℓ} : {V : Type ℓ} → List ℕ → List (String × V) → Type 0
Names n [] = ⊥
Names n ((k, v) ∷ rest) = (n ≡ codes k) ⊎ Names n rest

agree : Option ℕ → Option ℕ → Bool
agree none w = false
agree (some v) none = false
agree (some v) (some w) = v == w

agree_sound : (o w : Option ℕ) → agree o w ≡ true → (v : ℕ) × (o ≡ some v) × (w ≡ some v)
unfolding agree
agree_sound none w h = cc
agree_sound (some v) none h = cc
agree_sound (some v) (some w) h = (v, refl, ground arith)

-- The constant has a value, and its name leads to it.
finds : (ℕ → ℕ) → List ℕ → Bool
finds upper n = agree (link_type_value n) (lookup_link_type upper n)

all_found : (ℕ → ℕ) → List (String × String) → Bool
all_found upper [] = true
all_found upper ((n, _) ∷ rest) = finds upper (codes n) && all_found upper rest

all_found_table : (upper : ℕ → ℕ) → all_found upper link_type_constants ≡ true
unfolding all_found finds agree text_eq lookup_link_type switch key assoc link_type_value
    const_values link_type_constants lookup_cases
all_found_table upper = refl

found_by_name :
    (upper : ℕ → ℕ) (n : List ℕ) (table : List (String × String))
    → all_found upper table ≡ true
    → Names n table
    → finds upper n ≡ true
unfolding all_found
found_by_name upper n [] h m = absurd m
found_by_name upper n ((k, v) ∷ rest) h (inl e) = rw e (ground arith)
found_by_name upper n ((k, v) ∷ rest) h (inr m) = found_by_name upper n rest (ground arith) m

-- Names with one key lead to one result.
lookup-key :
    (upper : ℕ → ℕ) (s t : List ℕ)
    → key upper s ≡ key upper t
    → lookup_link_type upper s ≡ lookup_link_type upper t
unfolding lookup_link_type
lookup-key upper s t e = ap switch e

-- A name whose key is that of an exported constant leads to the value of that constant.
pub lookup_by_key :
    (upper : ℕ → ℕ) (n s : List ℕ)
    → Names n link_type_constants
    → key upper s ≡ key upper n
    → (v : ℕ) × (link_type_value n ≡ some v) × (lookup_link_type upper s ≡ some v)
unfolding finds
lookup_by_key upper n s m e =
    let (v, p, q) =
      agree_sound (link_type_value n) (lookup_link_type upper n)
        (found_by_name upper n link_type_constants (all_found_table upper) m) in
    (v, p, lookup-key upper s n e ∙ q)

-- The switch, the other way round: each case stands for an exported constant with that key.
named : List ℕ → List (String × String) → Bool
named n [] = false
named n ((k, v) ∷ rest) = text_eq n (codes k) || named n rest

named_sound : (n : List ℕ) (table : List (String × String)) → named n table ≡ true → Names n table
unfolding named
named_sound n [] h = cc
named_sound n ((k, v) ∷ rest) h = elim (Bool-cases (text_eq n (codes k))) [
  | inl e ↦ inl (text_eq_sound n (codes k) e)
  | inr e ↦ inr (named_sound n rest (ground arith))
]

all_cases : (ℕ → ℕ) → List (String × String) → Bool
all_cases upper [] = true
all_cases upper ((k, n) ∷ rest) =
    text_eq (key upper (codes n)) (codes k)
    && named (codes n) link_type_constants
    && all_cases upper rest

all_cases_table : (upper : ℕ → ℕ) → all_cases upper lookup_cases ≡ true
unfolding all_cases named text_eq key link_type_constants lookup_cases
all_cases_table upper = refl

case_constant :
    (upper : ℕ → ℕ) (k : List ℕ) (n : String) (table : List (String × String))
    → all_cases upper table ≡ true
    → assoc k table ≡ some n
    → Names (codes n) link_type_constants × (k ≡ key upper (codes n))
unfolding all_cases assoc
case_constant upper k n [] h e = cc
case_constant upper k n ((j, c) ∷ rest) h e = elim (Bool-cases (text_eq k (codes j))) [
  | inl here ↦
      let a : text_eq (key upper (codes c)) (codes j) ≡ true = ground arith in
      let b : named (codes c) link_type_constants ≡ true = ground arith in
      let same : c ≡ n = cc (rw here at e) in
      subst (λ n. Names (codes n) link_type_constants × (k ≡ key upper (codes n))) same
        (
          named_sound (codes c) link_type_constants b,
          text_eq_sound k (codes j) here ∙ sym (text_eq_sound (key upper (codes c)) (codes j) a),
        )
  | inr later ↦ case_constant upper k n rest (ground arith) (ground arith)
]

-- A result is the value of an exported constant with the key of the name.
pub lookup_has_key :
    (upper : ℕ → ℕ) (s : List ℕ) (v : ℕ)
    → lookup_link_type upper s ≡ some v
    → (n : List ℕ) × Names n link_type_constants
      × (link_type_value n ≡ some v)
      × (key upper s ≡ key upper n)
unfolding lookup_link_type switch
lookup_has_key upper s v h = elim (Option-cases (assoc (key upper s) lookup_cases)) [
  | inl missing ↦ cc (rw missing at h)
  | inr (n, found) ↦
      let (named, same) =
        case_constant upper (key upper s) n lookup_cases (all_cases_table upper) found in
      (codes n, named, rw found at h, same)
]
