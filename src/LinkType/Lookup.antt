-- ===== src/LinkType/Lookup.antt =====
-- dlt_generated.go, `LookupLinkType`, and dlt.go, which generates that file from internal/const.go.
-- A name is a list of code points. How `strings.ToUpper` maps what is not ASCII is a parameter.
pub mod Laws
pub mod Spelling
use Prim.Native.String.{String}
use go_pcapfilter.Prelude.{
  ℕ, ◌-◌, Bool, true, false, ◌&&◌, ltb, leb, if◌then◌else◌, List, [], ◌∷◌, map, Option, none, some,
  ◌>>=◌, codes, text_eq, trim_prefix, cut_prefix,
}
use go_pcapfilter.LinkType.Values.{const_values}
use go_pcapfilter.LinkType.Constants.{link_type_constants}
use go_pcapfilter.LinkType.Cases.{lookup_cases}

-- The value that a text stands for in a table, at its first entry.
unfoldable pub assoc {ℓ} : {V : Type ℓ} → List ℕ → List (String × V) → Option V
assoc k [] = none
assoc k ((n, v) ∷ rest) = if text_eq k (codes n) then some v else assoc k rest

-- The value of an exported constant, through the constant of `bpf_wasm` that it converts.
unfoldable pub link_type_value : List ℕ → Option ℕ
link_type_value n = do internal ← assoc n link_type_constants; assoc (codes internal) const_values

-- `strings.ToUpper` on one code point.
unfoldable pub to_upper : (ℕ → ℕ) → ℕ → ℕ
to_upper upper c = if ltb c 128 then (if leb b'a' c && leb c b'z' then c - 32 else c) else upper c

-- What the switch compares with its cases.
unfoldable pub key : (ℕ → ℕ) → List ℕ → List ℕ
unfolding to_upper trim_prefix cut_prefix
key upper name = trim_prefix (codes "DLT_") (map (to_upper upper) name)

-- The switch; `none` is the result `0, false` of its default.
unfoldable pub switch : List ℕ → Option ℕ
switch k = do constant ← assoc k lookup_cases; link_type_value (codes constant)

unfoldable pub lookup_link_type : (ℕ → ℕ) → List ℕ → Option ℕ
lookup_link_type upper name = switch (key upper name)
