-- ===== src/LinkType/Lookup/Spelling.antt =====
-- `LookupLinkType` and the spelling of a name: any letter may be small, and the prefix may be
-- missing.
use Prim.Native.String.{String}
use go_pcapfilter.Prelude.{
  ℕ, ◌+◌, ◌≤◌, ◌≡◌, refl, Bool, true, false, ◌&&◌, List, [], ◌∷◌, ◌++◌, map, none, some, ◌⊎◌, inl,
  inr, Option-cases, codes, text_eq, text_eq_sound, cut_prefix, trim_prefix, arith, ap, sym, ◌∙◌,
}
use go_pcapfilter.LinkType.Constants.{link_type_constants}
use go_pcapfilter.LinkType.Lookup.{to_upper, key, link_type_value, lookup_link_type}
use go_pcapfilter.LinkType.Lookup.Laws.{Names, lookup_by_key, lookup_has_key}

-- The code point itself, or its small letter.
abbrev SameLetter : ℕ → ℕ → Type 0
SameLetter c d = (c ≡ d) ⊎ ((65 ≤ d) × (d ≤ 90) × (c ≡ d + 32))

abbrev pub Spells : List ℕ → List ℕ → Type 0
Spells [] [] = Unit
Spells [] (d ∷ ds) = ⊥
Spells (c ∷ cs) [] = ⊥
Spells (c ∷ cs) (d ∷ ds) = SameLetter c d × Spells cs ds

abbrev prefix : List ℕ
prefix = codes "DLT_"

to_upper_same : (upper : ℕ → ℕ) (c d : ℕ) → SameLetter c d → to_upper upper c ≡ to_upper upper d
unfolding to_upper
to_upper_same upper c d (inl e) = ap (to_upper upper) e
to_upper_same upper c d (inr (lo, hi, e)) = ground arith

map-Spells :
    (upper : ℕ → ℕ) (s n : List ℕ) → Spells s n → map (to_upper upper) s ≡ map (to_upper upper) n
map-Spells upper [] [] h = refl
map-Spells upper [] (d ∷ ds) h = absurd h
map-Spells upper (c ∷ cs) [] h = absurd h
map-Spells upper (c ∷ cs) (d ∷ ds) (h, hs) =
    rw (to_upper_same upper c d h, map-Spells upper cs ds hs)

pub cut_prefix_sound : (p s r : List ℕ) → cut_prefix p s ≡ some r → s ≡ p ++ r
unfolding cut_prefix
cut_prefix_sound [] s r h = cc
cut_prefix_sound (p ∷ ps) [] r h = cc
cut_prefix_sound (p ∷ ps) (c ∷ cs) r h = ground (arith, cut_prefix_sound ps cs r)

cut_prefix-append : (p r : List ℕ) → cut_prefix p (p ++ r) ≡ some r
unfolding cut_prefix
cut_prefix-append [] r = refl
cut_prefix-append (p ∷ ps) r = ground (arith, cut_prefix-append ps r)

trim_prefix-found : (p s r : List ℕ) → cut_prefix p s ≡ some r → trim_prefix p s ≡ r
unfolding trim_prefix
trim_prefix-found p s r h = rw (trim_prefix, h) refl

trim_prefix-missing : (p s : List ℕ) → cut_prefix p s ≡ none → trim_prefix p s ≡ s
unfolding trim_prefix
trim_prefix-missing p s h = rw (trim_prefix, h) refl

pub trim_prefix-append : (p r : List ℕ) → trim_prefix p (p ++ r) ≡ r
trim_prefix-append p r = trim_prefix-found p (p ++ r) r (cut_prefix-append p r)

-- A name in capital letters, with the prefix once.
prefixed_once : List ℕ → Bool
prefixed_once n = elim (cut_prefix prefix n) [
  | none ↦ false
  | some r ↦ text_eq (trim_prefix prefix r) r
]

record Regular (upper : ℕ → ℕ) (n : List ℕ) : Type 0 where
  stem : List ℕ
  capital : map (to_upper upper) n ≡ n
  joined : n ≡ prefix ++ stem
  once : trim_prefix prefix stem ≡ stem

all_regular : (ℕ → ℕ) → List (String × String) → Bool
all_regular upper [] = true
all_regular upper ((n, _) ∷ rest) =
    text_eq (map (to_upper upper) (codes n)) (codes n)
    && prefixed_once (codes n)
    && all_regular upper rest

all_regular_table : (upper : ℕ → ℕ) → all_regular upper link_type_constants ≡ true
unfolding all_regular prefixed_once text_eq to_upper trim_prefix cut_prefix link_type_constants
all_regular_table upper = refl

regular :
    (upper : ℕ → ℕ) (n : List ℕ)
    → text_eq (map (to_upper upper) n) n ≡ true
    → prefixed_once n ≡ true
    → Regular upper n
unfolding prefixed_once cut_prefix
regular upper n c h = elim (Option-cases (cut_prefix prefix n)) [
  | inl missing ↦ cc (rw missing at h)
  | inr (r, found) ↦ record {
    stem = r;
    capital = text_eq_sound _ _ c;
    joined = cut_prefix_sound prefix n r found;
    once = text_eq_sound _ _ (rw found at h);
  }
]

name-Regular :
    (upper : ℕ → ℕ) (n : List ℕ) (table : List (String × String))
    → all_regular upper table ≡ true
    → Names n table
    → Regular upper n
unfolding all_regular
name-Regular upper n [] h m = absurd m
name-Regular upper n ((k, v) ∷ rest) h (inl e) =
    regular upper n (rw e (ground arith)) (rw e (ground arith))
name-Regular upper n ((k, v) ∷ rest) h (inr m) = name-Regular upper n rest (ground arith) m

key-Regular : (upper : ℕ → ℕ) (n : List ℕ) (r : Regular upper n) → key upper n ≡ r.stem
unfolding key
key-Regular upper n r = rw (r.capital, r.joined) (trim_prefix-append prefix r.stem)

key-Spells :
    (upper : ℕ → ℕ) (n s : List ℕ)
    → Names n link_type_constants
    → Spells s n ⊎ Spells (prefix ++ s) n
    → key upper s ≡ key upper n
unfolding key
key-Spells upper n s m (inl h) = ap (trim_prefix prefix) (map-Spells upper s n h)
key-Spells upper n s m (inr h) =
    let r = name-Regular upper n link_type_constants (all_regular_table upper) m in
    let joined : prefix ++ map (to_upper upper) s ≡ prefix ++ r.stem =
      unfold to_upper in map-Spells upper (prefix ++ s) n h ∙ r.capital ∙ r.joined in
    let stem : map (to_upper upper) s ≡ r.stem =
      sym (trim_prefix-append prefix (map (to_upper upper) s))
      ∙ ap (trim_prefix prefix) joined
      ∙ trim_prefix-append prefix r.stem in
    ap (trim_prefix prefix) stem ∙ r.once ∙ sym (key-Regular upper n r)

-- A text whose key is the stem of a name is that name, but for small letters and the prefix.
as_written :
    (upper : ℕ → ℕ) (s n : List ℕ) (r : Regular upper n)
    → key upper s ≡ r.stem
    → (map (to_upper upper) s ≡ n) ⊎ (prefix ++ map (to_upper upper) s ≡ n)
unfolding key
as_written upper s n r e = elim (Option-cases (cut_prefix prefix (map (to_upper upper) s))) [
  | inl missing ↦ inr (
      ap (λ (l : List ℕ). prefix ++ l)
        (sym (trim_prefix-missing prefix (map (to_upper upper) s) missing) ∙ e)
      ∙ sym r.joined)
  | inr (q, found) ↦ inl (
      cut_prefix_sound prefix (map (to_upper upper) s) q found
      ∙ ap (λ (l : List ℕ). prefix ++ l)
          (sym (trim_prefix-found prefix (map (to_upper upper) s) q found) ∙ e)
      ∙ sym r.joined)
]

-- However the name of an exported constant is spelled, with any of its letters small and with or
-- without the prefix, the lookup returns the value of that constant.
pub lookup_complete :
    (upper : ℕ → ℕ) (n s : List ℕ)
    → Names n link_type_constants
    → Spells s n ⊎ Spells (codes "DLT_" ++ s) n
    → (v : ℕ) × (link_type_value n ≡ some v) × (lookup_link_type upper s ≡ some v)
lookup_complete upper n s m h = lookup_by_key upper n s m (key-Spells upper n s m h)

-- A lookup that succeeds returns the value of an exported constant, whose name is the argument in
-- capital letters, or the prefix and the argument in capital letters.
pub lookup_sound :
    (upper : ℕ → ℕ) (s : List ℕ) (v : ℕ)
    → lookup_link_type upper s ≡ some v
    → (n : List ℕ) × Names n link_type_constants
      × (link_type_value n ≡ some v)
      × ((map (to_upper upper) s ≡ n) ⊎ (codes "DLT_" ++ map (to_upper upper) s ≡ n))
lookup_sound upper s v h =
    let (n, m, value, same) = lookup_has_key upper s v h in
    let r = name-Regular upper n link_type_constants (all_regular_table upper) m in
    (n, m, value, as_written upper s n r (same ∙ key-Regular upper n r))
