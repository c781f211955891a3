-- ===== src/LinkType/Generator/Labels.antt =====
-- The generated switch finds every name that it is generated for.
use go_pcapfilter.Prelude.{
  ℕ, ◌≡◌, ◌⊎◌, inl, inr, List, [], ◌∷◌, ◌++◌, some, text_eq, text_eq_sound, text_eq_refl,
  cut_prefix, trim_prefix, Bool-cases, Option-cases, refl, sym, ◌∙◌,
}
use go_pcapfilter.LinkType.Lookup.{to_upper, key}
use go_pcapfilter.LinkType.Lookup.Spelling.{cut_prefix_sound}
use go_pcapfilter.LinkType.Generator.{
  Decl, consts, other_decl, spec_names, block_names, dlt_names, dlt_prefix, label, case_entries,
  first_case,
}

-- A name is in a list.
abbrev pub Listed : List ℕ → List (List ℕ) → Type 0
Listed n [] = ⊥
Listed n (name ∷ names) = (n ≡ name) ⊎ Listed n names

abbrev pub IsPrefixed : List ℕ → Type 0
IsPrefixed n = (stem : List ℕ) × (n ≡ dlt_prefix ++ stem)

-- A name stands in a specification of one of the `const` blocks.
abbrev InBlock : List ℕ → List (List (List ℕ)) → Type 0
InBlock n [] = ⊥
InBlock n (spec ∷ specs) = Listed n spec ⊎ InBlock n specs

abbrev Declared : List ℕ → List Decl → Type 0
Declared n [] = ⊥
Declared n (consts specs ∷ decls) = InBlock n specs ⊎ Declared n decls
Declared n (other_decl ∷ decls) = Declared n decls

-- The constants for which the switch is written.
abbrev pub IsTaken : List Decl → List ℕ → Type 0
IsTaken decls n = Declared n decls × IsPrefixed n

Listed-append :
    (n : List ℕ) (xs ys : List (List ℕ)) → Listed n (xs ++ ys) → Listed n xs ⊎ Listed n ys
Listed-append n [] ys m = inr m
Listed-append n (x ∷ xs) ys (inl e) = inl (inl e)
Listed-append n (x ∷ xs) ys (inr m) = elim (Listed-append n xs ys m) [
  | inl left ↦ inl (inr left)
  | inr right ↦ inr right
]

Listed-left : (n : List ℕ) (xs ys : List (List ℕ)) → Listed n xs → Listed n (xs ++ ys)
Listed-left n [] ys m = absurd m
Listed-left n (x ∷ xs) ys (inl e) = inl e
Listed-left n (x ∷ xs) ys (inr m) = inr (Listed-left n xs ys m)

Listed-right : (n : List ℕ) (xs ys : List (List ℕ)) → Listed n ys → Listed n (xs ++ ys)
Listed-right n [] ys m = m
Listed-right n (x ∷ xs) ys m = inr (Listed-right n xs ys m)

spec_names_sound :
    (n : List ℕ) (names : List (List ℕ))
    → Listed n (spec_names names)
    → Listed n names × IsPrefixed n
unfolding spec_names
spec_names_sound n [] m = absurd m
spec_names_sound n (name ∷ names) m = elim (Option-cases (cut_prefix dlt_prefix name)) [
  | inl other ↦
      let skipped : spec_names (name ∷ names) ≡ spec_names names = rw (spec_names, other) refl in
      let (later, prefixed) = spec_names_sound n names (rw skipped at m) in (inr later, prefixed)
  | inr (stem, cut) ↦
      let kept : spec_names (name ∷ names) ≡ name ∷ spec_names names = rw (spec_names, cut) refl in
      let prefixed : name ≡ dlt_prefix ++ stem = cut_prefix_sound dlt_prefix name stem cut in
      let listed : Listed n (name ∷ spec_names names) = rw kept at m in
      elim listed [
        | inl here ↦ (inl here, (stem, here ∙ prefixed))
        | inr later ↦ let (found, begins) = spec_names_sound n names later in (inr found, begins)
      ]
]

cut_prefix-IsPrefixed :
    (name stem : List ℕ) → name ≡ dlt_prefix ++ stem → cut_prefix dlt_prefix name ≡ some stem
unfolding cut_prefix
cut_prefix-IsPrefixed name stem e = rw e refl

spec_names_complete :
    (n : List ℕ) (names : List (List ℕ))
    → Listed n names
    → IsPrefixed n
    → Listed n (spec_names names)
unfolding spec_names
spec_names_complete n [] m prefixed = absurd m
spec_names_complete n (name ∷ names) (inl e) (stem, begins) =
    let cut = cut_prefix-IsPrefixed name stem (sym e ∙ begins) in
    let kept : spec_names (name ∷ names) ≡ name ∷ spec_names names = rw (spec_names, cut) refl in
    rw kept (inl e)
spec_names_complete n (name ∷ names) (inr m) prefixed =
    let later = spec_names_complete n names m prefixed in
    elim (Option-cases (cut_prefix dlt_prefix name)) [
      | inl other ↦
          let skipped : spec_names (name ∷ names) ≡ spec_names names =
            rw (spec_names, other) refl in
          rw skipped later
      | inr (stem, cut) ↦
          let kept : spec_names (name ∷ names) ≡ name ∷ spec_names names =
            rw (spec_names, cut) refl in
          rw kept (inr later)
    ]

block_names_sound :
    (n : List ℕ) (specs : List (List (List ℕ)))
    → Listed n (block_names specs)
    → InBlock n specs × IsPrefixed n
unfolding block_names
block_names_sound n [] m = absurd m
block_names_sound n (spec ∷ specs) m =
    elim (Listed-append n (spec_names spec) (block_names specs) m) [
      | inl here ↦ let (found, begins) = spec_names_sound n spec here in (inl found, begins)
      | inr later ↦ let (found, begins) = block_names_sound n specs later in (inr found, begins)
    ]

block_names_complete :
    (n : List ℕ) (specs : List (List (List ℕ)))
    → InBlock n specs
    → IsPrefixed n
    → Listed n (block_names specs)
unfolding block_names
block_names_complete n [] m begins = absurd m
block_names_complete n (spec ∷ specs) (inl here) begins =
    Listed-left n (spec_names spec) (block_names specs) (spec_names_complete n spec here begins)
block_names_complete n (spec ∷ specs) (inr later) begins =
    Listed-right n (spec_names spec) (block_names specs) (block_names_complete n specs later begins)

dlt_names_sound : (n : List ℕ) (decls : List Decl) → Listed n (dlt_names decls) → IsTaken decls n
unfolding dlt_names
dlt_names_sound n [] m = absurd m
dlt_names_sound n (consts specs ∷ decls) m =
    elim (Listed-append n (block_names specs) (dlt_names decls) m) [
      | inl here ↦ let (found, begins) = block_names_sound n specs here in (inl found, begins)
      | inr later ↦ let (found, begins) = dlt_names_sound n decls later in (inr found, begins)
    ]
dlt_names_sound n (other_decl ∷ decls) m = dlt_names_sound n decls m

dlt_names_complete :
    (n : List ℕ) (decls : List Decl) → Declared n decls → IsPrefixed n → Listed n (dlt_names decls)
unfolding dlt_names
dlt_names_complete n [] m begins = absurd m
dlt_names_complete n (consts specs ∷ decls) (inl here) begins =
    Listed-left n (block_names specs) (dlt_names decls) (block_names_complete n specs here begins)
dlt_names_complete n (consts specs ∷ decls) (inr later) begins =
    Listed-right n (block_names specs) (dlt_names decls) (dlt_names_complete n decls later begins)
dlt_names_complete n (other_decl ∷ decls) m begins = dlt_names_complete n decls m begins

module _ (upper : ℕ → ℕ) where
  -- The generator cuts the prefix off before it changes the letters, and the lookup after it.
  label-key : (n : List ℕ) → IsPrefixed n → key upper n ≡ label upper n
  unfolding key to_upper trim_prefix cut_prefix
  label-key n (stem, e) = rw e refl

  first_case_sound :
      (k n : List ℕ) (names : List (List ℕ))
      → first_case k (case_entries upper names) ≡ some n
      → Listed n names × (k ≡ label upper n)
  unfolding first_case case_entries
  first_case_sound k n [] e = cc
  first_case_sound k n (name ∷ names) e = elim (Bool-cases (text_eq k (label upper name))) [
    | inl same ↦
        let here : some name ≡ some n = rw same at e in
        let it : n ≡ name = cc in (inl it, rw it (text_eq_sound _ _ same))
    | inr distinct ↦
        let (later, at) = first_case_sound k n names (rw distinct at e) in (inr later, at)
  ]

  first_case_finds :
      (n : List ℕ) (names : List (List ℕ))
      → Listed n names
      → (m : List ℕ) × (first_case (label upper n) (case_entries upper names) ≡ some m)
  unfolding first_case case_entries
  first_case_finds n [] m = absurd m
  first_case_finds n (name ∷ names) (inl e) = (name, rw (e, text_eq_refl (label upper name)) refl)
  first_case_finds n (name ∷ names) (inr later) =
      elim (Bool-cases (text_eq (label upper n) (label upper name))) [
        | inl same ↦ (name, rw same refl)
        | inr distinct ↦ let (m, found) = first_case_finds n names later in (m, rw distinct found)
      ]

  -- If no two of the constants with the prefix that some declarations declare, in whatever `const`
  -- block and specification, have one key, as Go demands of the cases of a switch, then the switch
  -- that `dlt.go` writes for the declarations returns a constant for a text exactly when it is one
  -- of them and the text is its key.
  pub first_case-key :
      (decls : List Decl)
      → ((n m : List ℕ) → IsTaken decls n → IsTaken decls m → key upper n ≡ key upper m → n ≡ m)
      → (k n : List ℕ)
      → (first_case k (case_entries upper (dlt_names decls)) ≡ some n
          → IsTaken decls n × (k ≡ key upper n))
        × (IsTaken decls n
            → k ≡ key upper n
            → first_case k (case_entries upper (dlt_names decls)) ≡ some n)
  first_case-key decls distinct k n = (
    λ e.
        let (listed, at) = first_case_sound k n (dlt_names decls) e in
        let taken = dlt_names_sound n decls listed in (taken, at ∙ sym (label-key n taken.1)),
    λ (declared, begins) at.
        let to_label = label-key n begins in
        let (m, found) =
          first_case_finds n (dlt_names decls) (dlt_names_complete n decls declared begins) in
        let here : first_case k (case_entries upper (dlt_names decls)) ≡ some m =
          rw (at, to_label) found in
        let (listed, same) = first_case_sound k m (dlt_names decls) here in
        let taken = dlt_names_sound m decls listed in
        let e : n ≡ m =
          distinct n m (declared, begins) taken (sym at ∙ same ∙ sym (label-key m taken.1)) in
        rw e here,
  )
