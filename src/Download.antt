-- ===== src/Download.antt =====
-- src/download.go: `run`, which fetches an archive and unpacks it below one directory. The request,
-- the readers of gzip and tar and the file system are parameters; the result is what is written,
-- in order, and the error, if there is one.
pub mod Unpack
use go_pcapfilter.Prelude.{
  ℕ, ◌-◌, ◌==◌, ◌||◌, Bool, not, if◌then◌else◌, List, [], ◌∷◌, ◌++◌, Option, none, some, length,
  take, codes, text_eq, cut_prefix, trim_prefix,
}

-- A file of the archive. A copy that is `broken` fails behind the content.
pub record TarEntry : Type 0 where
  pub name : List ℕ
  pub is_dir : Bool
  pub content : List ℕ
  pub broken : Bool

pub data DownloadError : Type 0 where
  no_response not_removed no_gzip bad_tar no_commit : DownloadError
  bad_status : ℕ → DownloadError
  unexpected_path : List ℕ → List ℕ → DownloadError
  no_directory no_file not_written : List ℕ → DownloadError

-- `status` is `none` if the request fails. `ends` is whether the archive ends as it should, `path`
-- joins a name to the directory, and `make_dirs` makes the directories above a path.
pub record Site : Type 0 where
  pub status : Option ℕ
  pub removes : Bool
  pub unzips : Bool
  pub entries : List TarEntry
  pub ends : Bool
  pub path : List ℕ → List ℕ
  pub make_dirs : List ℕ → Bool
  pub create : List ℕ → Bool
  pub commit : List ℕ
  pub write_commit : Bool

abbrev pub Written : Type 0
Written = List (List ℕ × List ℕ)

abbrev pub Outcome : Type 0
Outcome = Written × Option DownloadError

-- What `strings.Cut` gives behind the first slash.
unfoldable pub after_slash : List ℕ → List ℕ
after_slash [] = []
after_slash (c ∷ s) = let rest = after_slash s in if c == 47 then s else rest

-- The prefix, found in the name of the first file; `none` where the file is passed over.
unfoldable pub prefix_of : List ℕ → List ℕ → Option (List ℕ)
prefix_of [] name =
    let rest = after_slash (trim_prefix (codes "./") name) in
    if length rest == 0 then none else some (take (length name - length rest) name)
prefix_of (c ∷ pfx) name = some (c ∷ pfx)

unfoldable pub skipped : TarEntry → Bool
skipped f = text_eq f.name (codes "pax_global_header") || f.is_dir

module _ (w : Site) where
  -- One file, and then what `rest` does.
  unfoldable pub unpack_file : TarEntry → List ℕ → Outcome → Outcome
  unpack_file f pfx rest = elim (cut_prefix pfx f.name) [
    | none ↦ ([], some (unexpected_path f.name pfx))
    | some name ↦
        let dst = w.path name in
        if not (w.make_dirs dst)
        then ([], some (no_directory dst))
        else if not (w.create dst)
        then ([], some (no_file dst))
        else if f.broken
        then ((dst, f.content) ∷ [], some (not_written dst))
        else ((dst, f.content) ∷ rest.0, rest.1)
  ]

  -- The loop over the archive.
  unfoldable pub unpack : List ℕ → List TarEntry → Outcome
  unpack pfx [] = ([], if w.ends then none else some bad_tar)
  unpack pfx (f ∷ fs) =
      let next = unpack pfx fs in
      if skipped f then next else elim (prefix_of pfx f.name) [
        | none ↦ next
        | some found ↦ unpack_file f found (unpack found fs)
      ]

  -- Behind the loop: the commit is written if nothing has failed.
  unfoldable pub write_last : Outcome → Outcome
  write_last (written, some failure) = (written, some failure)
  write_last (written, none) =
      if w.write_commit
      then (written ++ (w.path (codes "COMMIT"), w.commit) ∷ [], none)
      else (written, some no_commit)

  unfoldable pub download : Outcome
  download = elim w.status [
    | none ↦ ([], some no_response)
    | some status ↦
        if not (status == 200)
        then ([], some (bad_status status))
        else if not w.removes
        then ([], some not_removed)
        else if not w.unzips
        then ([], some no_gzip)
        else write_last (unpack [] w.entries)
  ]
