-- ===== src/LinkType/Generator.antt =====
-- dlt.go: the names that it takes from the declarations of internal/const.go, and the constants and
-- cases that it writes for them. The parsing and the formatting of Go text are go/parser's and
-- go/format's: a declaration is what they give, and an entry is what is printed for it.
pub mod Labels
use go_pcapfilter.Prelude.{
  ℕ, List, [], ◌∷◌, ◌++◌, map, Option, none, some, codes, text_eq, cut_prefix, trim_prefix,
  if◌then◌else◌,
}
use go_pcapfilter.LinkType.Lookup.{to_upper}

abbrev pub dlt_prefix : List ℕ
dlt_prefix = codes "DLT_"

-- A declaration: the names of each specification of a `const` block, or anything else.
pub data Decl : Type 0 where
  consts : List (List (List ℕ)) → Decl
  other_decl : Decl

-- The names of one specification that begin with the prefix.
unfoldable pub spec_names : List (List ℕ) → List (List ℕ)
spec_names [] = []
spec_names (name ∷ names) = elim (cut_prefix dlt_prefix name) [
  | none ↦ spec_names names
  | some rest ↦ name ∷ spec_names names
]

unfoldable pub block_names : List (List (List ℕ)) → List (List ℕ)
block_names [] = []
block_names (spec ∷ specs) = spec_names spec ++ block_names specs

unfoldable pub dlt_names : List Decl → List (List ℕ)
dlt_names [] = []
dlt_names (consts specs ∷ decls) = block_names specs ++ dlt_names decls
dlt_names (other_decl ∷ decls) = dlt_names decls

-- `strings.ToUpper(strings.TrimPrefix(name, "DLT_"))`
abbrev pub label : (ℕ → ℕ) → List ℕ → List ℕ
label upper name = map (to_upper upper) (trim_prefix dlt_prefix name)

-- Each exported constant, and the constant of `bpf_wasm` that it converts.
unfoldable pub constant_entries : List (List ℕ) → List (List ℕ × List ℕ)
constant_entries names = map (λ name. (name, name)) names

-- Each case of the switch, and the constant that it returns.
unfoldable pub case_entries : (ℕ → ℕ) → List (List ℕ) → List (List ℕ × List ℕ)
case_entries upper names = map (λ name. (label upper name, name)) names

-- What a switch with these cases returns.
unfoldable pub first_case : List ℕ → List (List ℕ × List ℕ) → Option (List ℕ)
first_case k [] = none
first_case k ((text, name) ∷ entries) =
    let later = first_case k entries in if text_eq k text then some name else later
