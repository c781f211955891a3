-- ===== src/Tool/Ethers/Last.antt =====
-- The last line for a name counts.
use go_pcapfilter.Prelude.{
  ℕ, ◌≡◌, ◌≢◌, List, [], ◌∷◌, ◌++◌, Option, none, some, true, Bool-cases, Option-cases, inl, inr,
  text_eq, text_eq_sound, text_eq_refl, All, refl, ap, ◌∙◌,
}
use go_pcapfilter.Tool.Ethers.{Files, Ethers, find, entry_of_trimmed, add_line, scan, load_ethers}

module _ (files : Files) where
  -- What the loop reads in a line.
  abbrev pub line_entry : List ℕ → Option (List ℕ × List ℕ)
  line_entry line = entry_of_trimmed files (files.trim_space line)

  -- The line is no entry for `host`.
  abbrev pub IsOther : List ℕ → List ℕ → Type 0
  IsOther host line = (mac : List ℕ) → line_entry line ≢ some (host, mac)

  find-other :
      (host line : List ℕ) (ethers : Ethers)
      → IsOther host line
      → find (add_line files ethers line) host ≡ find ethers host
  unfolding add_line find
  find-other host line ethers other = elim (Option-cases (line_entry line)) [
    | inl passed ↦ rw (add_line, passed) refl
    | inr ((name, mac), e) ↦ elim (Bool-cases (text_eq name host)) [
      | inl same ↦
          let named : name ≡ host = text_eq_sound name host same in
          absurd (other mac (e ∙ ap (λ n. some (n, mac)) named))
      | inr distinct ↦ rw (add_line, e, distinct) refl
    ]
  ]

  scan-others :
      (host : List ℕ) (lines : List (List ℕ)) (ethers : Ethers)
      → All (IsOther host) lines
      → find (scan files ethers lines) host ≡ find ethers host
  unfolding scan
  scan-others host [] ethers others = refl
  scan-others host (line ∷ lines) ethers (other, others) =
      scan-others host lines (add_line files ethers line) others ∙ find-other host line ethers other

  scan_append :
      (before after : List (List ℕ)) (ethers : Ethers)
      → scan files ethers (before ++ after) ≡ scan files (scan files ethers before) after
  unfolding scan
  scan_append [] after ethers = refl
  scan_append (line ∷ before) after ethers = scan_append before after (add_line files ethers line)

  scan-last :
      (host mac line : List ℕ) (before after : List (List ℕ))
      → line_entry line ≡ some (host, mac)
      → All (IsOther host) after
      → find (scan files [] (before ++ line ∷ after)) host ≡ some mac
  unfolding scan add_line find
  scan-last host mac line before after e others = rw (scan_append before (line ∷ after) []) (
      scan-others host after (add_line files (scan files [] before) line) others
      ∙ rw (add_line, e, text_eq_refl host) refl)

  -- For a file that is read without an error, the address that `loadEthers` finds for a name is
  -- that of the last line that is an entry for the name.
  pub load_ethers-last :
      (c : ℕ) (cs host mac line : List ℕ) (before after : List (List ℕ))
      → files.open_file (c ∷ cs) ≡ some (before ++ line ∷ after, true)
      → line_entry line ≡ some (host, mac)
      → All (IsOther host) after
      → (ethers : List ℕ → Option (List ℕ)) × (load_ethers files (c ∷ cs) ≡ some ethers)
        × (ethers host ≡ some mac)
  unfolding load_ethers
  load_ethers-last c cs host mac line before after read e others = (
    find (scan files [] (before ++ line ∷ after)),
    rw (load_ethers, read) refl,
    scan-last host mac line before after e others,
  )

  -- For a file that is read without an error and has no entry for a name, `loadEthers` finds no
  -- address.
  load_ethers-none :
      (c : ℕ) (cs host : List ℕ) (lines : List (List ℕ))
      → files.open_file (c ∷ cs) ≡ some (lines, true)
      → All (IsOther host) lines
      → (ethers : List ℕ → Option (List ℕ)) × (load_ethers files (c ∷ cs) ≡ some ethers)
        × (ethers host ≡ none)
  unfolding load_ethers find
  load_ethers-none c cs host lines read others =
      (find (scan files [] lines), rw (load_ethers, read) refl, scan-others host lines [] others)
