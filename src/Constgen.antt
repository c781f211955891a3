-- ===== src/Constgen.antt =====
-- src/constgen.go: the constants that `run` reads in C headers. The reading of a file, the
-- functions of strings and `strconv.ParseInt` are parameters; what is written of an entry is its
-- name and its text.
pub mod Entries
use go_pcapfilter.Prelude.{
  ℕ, Bool, false, ◌||◌, if◌then◌else◌, List, [], ◌∷◌, Option, none, some, codes, text_eq,
}

-- `lines` gives the lines of a file, or `none` for an error; `fields` trims a line and splits it.
pub record Sources : Type 0 where
  pub lines : List ℕ → Option (List (List ℕ))
  pub fields : List ℕ → List (List ℕ)
  pub is_int : List ℕ → Bool

abbrev pub Entry : Type 0
Entry = List ℕ × List ℕ

pub data Failure : Type 0 where
  unreadable duplicate : List ℕ → Failure
  invalid : List ℕ → List ℕ → Failure

pub data Generated (A : Type 0) : Type 0 where
  ok : A → Generated A
  err : Failure → Generated A

infixl 5 ◌>>=◌ ◌>>◌
abbrev pub ◌>>=◌ : {A B : Type 0} → Generated A → (A → Generated B) → Generated B
ok a >>= f = f a
err e >>= f = err e

abbrev pub ◌>>◌ : {A B : Type 0} → Generated A → Generated B → Generated B
m >> k = m >>= λ _. k

-- `seen[name]`
unfoldable pub has : List (List ℕ) → List ℕ → Bool
has [] name = false
has (known ∷ names) name = text_eq known name || has names name

-- A line is an entry if it has three fields and the first is `#define`.
unfoldable pub define_of : List (List ℕ) → Option Entry
define_of (word ∷ name ∷ val ∷ []) =
    if text_eq word (codes "#define") then some (name, val) else none
define_of fields = none

module _ (src : Sources) where
  -- The loop over the lines: the entries and the names that are seen then.
  unfoldable pub read_lines : List (List ℕ) → List (List ℕ) → Generated (List Entry × List (List ℕ))
  read_lines seen [] = ok ([], seen)
  read_lines seen (line ∷ lines) =
      let skipped = read_lines seen lines in
      elim (define_of (src.fields line)) [
        | none ↦ skipped
        | some (name, val) ↦
            if has seen name
            then err (duplicate name)
            else if src.is_int val
            then (do rest ← read_lines (name ∷ seen) lines; ok ((name, val) ∷ rest.0, rest.1))
            else err (invalid name val)
      ]

  -- The loop over the files: a block of entries for each.
  unfoldable pub read_files : List (List ℕ) → List (List ℕ) → Generated (List (List Entry))
  read_files seen [] = ok []
  read_files seen (file ∷ files) = elim (src.lines file) [
    | none ↦ err (unreadable file)
    | some lines ↦ do
      block ← read_lines seen lines
      blocks ← read_files block.1 files
      ok (block.0 ∷ blocks)
  ]

  -- `run`
  unfoldable pub generate : List (List ℕ) → Generated (List (List Entry))
  generate files = read_files [] files
