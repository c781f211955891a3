-- ===== src/Constgen/Entries.antt =====
-- What a run without an error gives.
use go_pcapfilter.Prelude.{ℕ, ◌≡◌, Bool, true, false, List, [], ◌∷◌, ◌++◌, Option, none, some}
use go_pcapfilter.Constgen.{Sources, Entry, Generated, ok, err, has, define_of}

-- The names of the entries, added to those seen before.
abbrev pub push : List (List ℕ) → List Entry → List (List ℕ)
push seen [] = seen
push seen ((name, val) ∷ entries) = push (name ∷ seen) entries

-- No name has been seen before, and no value is other than an integer.
abbrev pub IsNew : (List ℕ → Bool) → List (List ℕ) → List Entry → Type 0
IsNew is_int seen [] = Unit
IsNew is_int seen ((name, val) ∷ entries) =
    (has seen name ≡ false) × (is_int val ≡ true) × IsNew is_int (name ∷ seen) entries

-- The definitions among the lines, in order.
abbrev with_define : Option Entry → List Entry → List Entry
with_define none entries = entries
with_define (some entry) entries = entry ∷ entries

abbrev pub joined : List (List Entry) → List Entry
joined [] = []
joined (block ∷ blocks) = block ++ joined blocks

module _ (src : Sources) where
  abbrev pub defines : List (List ℕ) → List Entry
  defines [] = []
  defines (line ∷ lines) = with_define (define_of (src.fields line)) (defines lines)

  -- Each file can be read, and its block has its definitions.
  abbrev pub Reads : List (List ℕ) → List (List Entry) → Type 0
  Reads [] [] = Unit
  Reads [] (block ∷ blocks) = ⊥
  Reads (file ∷ files) [] = ⊥
  Reads (file ∷ files) (block ∷ blocks) =
      (lines : List (List ℕ)) × (src.lines file ≡ some lines)
      × (block ≡ defines lines)
      × Reads files blocks

  abbrev LinesRead : List (List ℕ) → List (List ℕ) → Generated (List Entry × List (List ℕ)) → Type 0
  LinesRead seen lines (err e) = Unit
  LinesRead seen lines (ok (entries, seen')) =
      (entries ≡ defines lines) × (seen' ≡ push seen entries) × IsNew src.is_int seen entries

  abbrev FilesRead : List (List ℕ) → List (List ℕ) → Generated (List (List Entry)) → Type 0
  FilesRead seen files (err e) = Unit
  FilesRead seen files (ok blocks) = Reads files blocks × IsNew src.is_int seen (joined blocks)
