-- ===== src/Tool/Ethers.antt =====
-- `loadEthers`. The file, the parser of net and the functions of strings are parameters.
pub mod Last
use go_pcapfilter.Prelude.{
  ℕ, ◌==◌, if◌then◌else◌, Bool, true, false, List, [], ◌∷◌, Option, none, some, text_eq,
}

-- `open_file` gives the lines that the scanner reads, and whether it ends without an error.
pub record Files : Type 0 where
  pub open_file : List ℕ → Option (List (List ℕ) × Bool)
  pub trim_space : List ℕ → List ℕ
  pub fields : List ℕ → List (List ℕ)
  pub parse_mac : List ℕ → Option (List ℕ)

-- The map, newest entry first: an assignment hides the older ones.
abbrev pub Ethers : Type 0
Ethers = List (List ℕ × List ℕ)

unfoldable pub find : Ethers → List ℕ → Option (List ℕ)
find [] name = none
find ((key, mac) ∷ rest) name =
    let older = find rest name in if text_eq key name then some mac else older

module _ (files : Files) where
  -- The two fields of a line and what follows them.
  unfoldable pub entry_of_fields : List (List ℕ) → Option (List ℕ × List ℕ)
  entry_of_fields [] = none
  entry_of_fields (mac ∷ []) = none
  entry_of_fields (text ∷ name ∷ more) = elim (files.parse_mac text) [
    | none ↦ none
    | some mac ↦ some (name, mac)
  ]

  -- What a line says; `none` for a line that the loop passes over.
  unfoldable pub entry_of_trimmed : List ℕ → Option (List ℕ × List ℕ)
  entry_of_trimmed [] = none
  entry_of_trimmed (c ∷ cs) = if c == 35 then none else entry_of_fields (files.fields (c ∷ cs))

  unfoldable pub add_line : Ethers → List ℕ → Ethers
  add_line ethers line = elim (entry_of_trimmed (files.trim_space line)) [
    | none ↦ ethers
    | some entry ↦ entry ∷ ethers
  ]

  unfoldable pub scan : Ethers → List (List ℕ) → Ethers
  scan ethers [] = ethers
  scan ethers (line ∷ lines) = scan (add_line ethers line) lines

  -- The function for the addresses; `none` is an error of the file. Without a file, no name has an
  -- address.
  unfoldable pub load_ethers : List ℕ → Option (List ℕ → Option (List ℕ))
  load_ethers [] = some (λ host. none)
  load_ethers (c ∷ cs) = elim (files.open_file (c ∷ cs)) [
    | none ↦ none
    | some (lines, true) ↦ some (find (scan [] lines))
    | some (lines, false) ↦ none
  ]
