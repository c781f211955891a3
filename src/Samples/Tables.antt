-- ===== src/Samples/Tables.antt =====
-- Link types, and the arithmetic of the compiled code, at concrete inputs.
use go_pcapfilter.Prelude.{
  ℕ, map, ◌++◌, ◌⊎◌, ◌≡◌, List, some, refl, inl, inr, codes, text_eq, arith,
}
use go_pcapfilter.Wasm.Words.{ntohl}
use go_pcapfilter.Wasm.Words.Swap.{word, ntohl-word}
use go_pcapfilter.LinkType.Constants.{link_type_constants}
use go_pcapfilter.LinkType.Values.{const_values}
use go_pcapfilter.LinkType.Cases.{lookup_cases}
use go_pcapfilter.LinkType.Lookup.{to_upper, key, switch, assoc, link_type_value, lookup_link_type}
use go_pcapfilter.LinkType.Lookup.Laws.{Names}
use go_pcapfilter.LinkType.Lookup.Spelling.{Spells, lookup_complete, lookup_sound}

-- Code points past ASCII are left alone.
abbrev keep : ℕ → ℕ
keep c = c

lookup_mixed_case : lookup_link_type keep (codes "dlt_Linux_SLL") ≡ some 113
unfolding lookup_link_type switch key assoc link_type_value lookup_cases link_type_constants
    const_values text_eq
lookup_mixed_case = refl

spelled : Spells (codes "DLT_" ++ codes "en10Mb") (codes "DLT_EN10MB")
spelled = (
  inl refl,
  (
    inl refl,
    (
      inl refl,
      (
        inl refl,
        (
          inr (omega arith, omega arith, refl),
          (
            inr (omega arith, omega arith, refl),
            (inl refl, (inl refl, (inl refl, (inr (omega arith, omega arith, refl), tt)))),
          ),
        ),
      ),
    ),
  ),
)

lookup_complete_example :
    (v : ℕ) × (link_type_value (codes "DLT_EN10MB") ≡ some v)
    × (lookup_link_type keep (codes "en10Mb") ≡ some v)
unfolding link_type_constants
lookup_complete_example =
    lookup_complete keep (codes "DLT_EN10MB") (codes "en10Mb") (inr (inl refl)) (inr spelled)

lookup_sound_example :
    (n : List ℕ) × Names n link_type_constants
    × (link_type_value n ≡ some 113)
    × ((map (to_upper keep) (codes "dlt_Linux_SLL") ≡ n)
        ⊎ (codes "DLT_" ++ map (to_upper keep) (codes "dlt_Linux_SLL") ≡ n))
lookup_sound_example = lookup_sound keep (codes "dlt_Linux_SLL") 113 lookup_mixed_case

ntohl-word_example : ntohl (word 1 2 3 4) ≡ word 4 3 2 1
ntohl-word_example = ntohl-word 1 2 3 4 (omega arith) (omega arith) (omega arith) (omega arith)
