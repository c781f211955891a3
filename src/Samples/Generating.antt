-- ===== src/Samples/Generating.antt =====
-- `dlt.go` on two constants, and on the constants of the repository.
use go_pcapfilter.Prelude.{
  ℕ, ◌≡◌, ◌≢◌, ◌⊎◌, ◌∙◌, sym, Bool, ◌&&◌, true, false, List, [], ◌∷◌, map, some, inl, inr, refl,
  codes, text_eq, cut_prefix, trim_prefix,
}
use Prim.Native.String.{String}
use go_pcapfilter.LinkType.Values.{const_values}
use go_pcapfilter.LinkType.Constants.{link_type_constants}
use go_pcapfilter.LinkType.Cases.{lookup_cases}
use go_pcapfilter.LinkType.Lookup.{to_upper, key}
use go_pcapfilter.Constgen.{
  Sources, Entry, err, duplicate, generate, read_files, read_lines, define_of, has,
}
use go_pcapfilter.LinkType.Generator.{
  Decl, consts, other_decl, spec_names, block_names, dlt_names, constant_entries, case_entries,
  first_case,
}
use go_pcapfilter.LinkType.Generator.Labels.{IsTaken, first_case-key}

abbrev keep : ℕ → ℕ
keep c = c

abbrev two_decls : List Decl
two_decls =
    other_decl
    ∷ consts ((codes "DLT_NULL" ∷ []) ∷ (codes "X" ∷ []) ∷ (codes "DLT_RAW" ∷ []) ∷ [])
    ∷ []

two_names : dlt_names two_decls ≡ codes "DLT_NULL" ∷ codes "DLT_RAW" ∷ []
unfolding dlt_names block_names spec_names cut_prefix
two_names = refl

two_taken : (n : List ℕ) → IsTaken two_decls n → (n ≡ codes "DLT_NULL") ⊎ (n ≡ codes "DLT_RAW")
two_taken n (inl (inl (inl e)), begins) = inl e
two_taken n (inl (inl (inr none_left)), begins) = absurd none_left
two_taken n (inl (inr (inl (inl e))), (stem, begins)) = cc
two_taken n (inl (inr (inl (inr none_left))), begins) = absurd none_left
two_taken n (inl (inr (inr (inl (inl e)))), begins) = inr e
two_taken n (inl (inr (inr (inl (inr none_left)))), begins) = absurd none_left
two_taken n (inl (inr (inr (inr none_left))), begins) = absurd none_left
two_taken n (inr none_left, begins) = absurd none_left

null_raw : (n m : List ℕ) → n ≡ codes "DLT_NULL" → m ≡ codes "DLT_RAW" → key keep n ≢ key keep m
unfolding key to_upper trim_prefix cut_prefix
null_raw n m en em = rw (en, em) (λ e. cc)

two_distinct :
    (n m : List ℕ) → IsTaken two_decls n → IsTaken two_decls m → key keep n ≡ key keep m → n ≡ m
two_distinct n m tn tm e = elim (two_taken n tn) [
  | inl null ↦ elim (two_taken m tm) [
    | inl same ↦ null ∙ sym same
    | inr raw ↦ absurd (null_raw n m null raw e)
  ]
  | inr raw ↦ elim (two_taken m tm) [
    | inl null ↦ absurd (null_raw m n null raw (sym e))
    | inr same ↦ raw ∙ sym same
  ]
]

first_case-key_example :
    (first_case (codes "RAW") (case_entries keep (dlt_names two_decls)) ≡ some (codes "DLT_RAW")
      → IsTaken two_decls (codes "DLT_RAW") × (codes "RAW" ≡ key keep (codes "DLT_RAW")))
    × (IsTaken two_decls (codes "DLT_RAW")
        → codes "RAW" ≡ key keep (codes "DLT_RAW")
        → first_case (codes "RAW") (case_entries keep (dlt_names two_decls))
          ≡ some (codes "DLT_RAW"))
first_case-key_example = first_case-key keep two_decls two_distinct (codes "RAW") (codes "DLT_RAW")

-- One specification for each constant of the file.
abbrev repository_decls : List Decl
repository_decls = consts (map (λ entry. codes entry.0 ∷ []) const_values) ∷ []

same_entries : List (List ℕ × List ℕ) → List (String × String) → Bool
same_entries [] [] = true
same_entries [] (y ∷ ys) = false
same_entries (x ∷ xs) [] = false
same_entries ((a, b) ∷ xs) ((c, d) ∷ ys) =
    text_eq a (codes c) && text_eq b (codes d) && same_entries xs ys

repository_constants :
    same_entries (constant_entries (dlt_names repository_decls)) link_type_constants ≡ true
unfolding same_entries constant_entries dlt_names block_names spec_names cut_prefix text_eq
    const_values link_type_constants
repository_constants = refl

repository_cases : same_entries (case_entries keep (dlt_names repository_decls)) lookup_cases ≡ true
unfolding same_entries case_entries dlt_names block_names spec_names cut_prefix trim_prefix to_upper
    text_eq const_values lookup_cases
repository_cases = refl

-- Each line is a name, with the value 1, and each file has the lines `A` and `B`.
abbrev line_sources : Sources
line_sources = record {
  lines = λ file. some (codes "A" ∷ codes "B" ∷ []);
  fields = λ line. codes "#define" ∷ line ∷ codes "1" ∷ [];
  is_int = λ val. true;
}

abbrev two_entries : List (List Entry)
two_entries = ((codes "A", codes "1") ∷ (codes "B", codes "1") ∷ []) ∷ []

-- A name that stands in two files is refused.
two_files : generate line_sources (codes "h" ∷ codes "i" ∷ []) ≡ err (duplicate (codes "A"))
unfolding generate read_files read_lines define_of has text_eq
two_files = refl
