-- ===== src/Download/Unpack.antt =====
-- An archive whose files share one directory.
use go_pcapfilter.Prelude.{
  ℕ, ◌+◌, ◌-◌, ◌<◌, ◌≡◌, ◌≢◌, ◌⊎◌, inl, inr, ◌==◌, true, false, List, [], ◌∷◌, ◌++◌, map, none,
  some, All, length, take, codes, cut_prefix, trim_prefix, arith, refl, ◌∙◌, ap,
}
use go_pcapfilter.Download.{
  TarEntry, Site, Written, Outcome, after_slash, prefix_of, skipped, unpack_file, unpack,
  write_last, download,
}

-- The name of a directory, without a slash, and not the dot.
abbrev pub IsTop : List ℕ → Type 0
IsTop top = All (λ c. c ≢ 47) top × (top ≢ 46 ∷ [])

-- The entries are the files, each below `top`, with entries between them that are passed over.
abbrev pub Packs : List ℕ → List TarEntry → List (List ℕ × List ℕ) → Type 0
Packs top [] files = files ≡ []
Packs top (f ∷ fs) files =
    ((skipped f ≡ true) × Packs top fs files)
    ⊎ ((name : List ℕ) × (rest : List (List ℕ × List ℕ)) × (files ≡ (name, f.content) ∷ rest)
        × (skipped f ≡ false)
        × (f.name ≡ top ++ 47 ∷ name)
        × (0 < length name)
        × (f.broken ≡ false)
        × Packs top fs rest)

-- Nothing fails.
pub record IsWorking (w : Site) : Type 0 where
  pub responds : w.status ≡ some 200
  pub removes : w.removes ≡ true
  pub unzips : w.unzips ≡ true
  pub ends : w.ends ≡ true
  pub make_dirs : (p : List ℕ) → w.make_dirs p ≡ true
  pub create : (p : List ℕ) → w.create p ≡ true
  pub write_commit : w.write_commit ≡ true

cut_prefix-append : (p s : List ℕ) → cut_prefix p (p ++ s) ≡ some s
unfolding cut_prefix
cut_prefix-append [] s = refl
cut_prefix-append (c ∷ p) s = ground (arith, cut_prefix-append p s)

after_slash-append : (top s : List ℕ) → All (λ c. c ≢ 47) top → after_slash (top ++ 47 ∷ s) ≡ s
unfolding after_slash
after_slash-append [] s h = refl
after_slash-append (c ∷ top) s (other, h) = ground (arith, after_slash-append top s h)

trim_prefix-top :
    (top s : List ℕ) → IsTop top → trim_prefix (codes "./") (top ++ 47 ∷ s) ≡ top ++ 47 ∷ s
unfolding trim_prefix cut_prefix
trim_prefix-top [] s h = refl
trim_prefix-top (c ∷ []) s (h, other) =
    let ne : c ≢ 46 = λ e. other (ap (λ (k : ℕ). k ∷ []) e) in ground arith
trim_prefix-top (c ∷ d ∷ top) s ((first, (second, h)), other) = ground arith

length_append : (top s : List ℕ) → length (top ++ s) ≡ length top + length s
length_append [] s = omega arith
length_append (c ∷ top) s = omega (arith, length_append top s)

take-append : (top s : List ℕ) → take (length top) (top ++ s) ≡ top
take-append [] s = refl
take-append (c ∷ top) s = ap (λ t. c ∷ t) (take-append top s)

append_assoc : (top s : List ℕ) → top ++ 47 ∷ s ≡ (top ++ 47 ∷ []) ++ s
append_assoc [] s = refl
append_assoc (c ∷ top) s = ap (λ t. c ∷ t) (append_assoc top s)

prefix_of-top :
    (top name : List ℕ)
    → IsTop top
    → 0 < length name
    → prefix_of [] (top ++ 47 ∷ name) ≡ some (top ++ 47 ∷ [])
unfolding prefix_of
prefix_of-top top name h pos =
    let dropped = trim_prefix-top top name h in
    let rest = after_slash-append top name h.0 in
    let some_left : (length name == 0) ≡ false = ground arith in
    let count : length (top ++ 47 ∷ name) - length name ≡ length (top ++ 47 ∷ []) =
      omega (arith, length_append top (47 ∷ name), length_append top (47 ∷ [])) in
    rw (prefix_of, dropped, rest, some_left, count)
      (ap some (
        ap (take (length (top ++ 47 ∷ []))) (append_assoc top name)
        ∙ take-append (top ++ 47 ∷ []) name))

prefix_of_again : (top name : List ℕ) → prefix_of (top ++ 47 ∷ []) name ≡ some (top ++ 47 ∷ [])
unfolding prefix_of
prefix_of_again [] name = refl
prefix_of_again (c ∷ top) name = refl

module _ (w : Site) (ok : IsWorking w) (top : List ℕ) (h : IsTop top) where
  abbrev placed : List (List ℕ × List ℕ) → Written
  placed files = map (λ f. (w.path f.0, f.1)) files

  unpack_file-placed :
      (f : TarEntry) (name : List ℕ) (rest : Outcome)
      → f.name ≡ top ++ 47 ∷ name
      → f.broken ≡ false
      → unpack_file w f (top ++ 47 ∷ []) rest ≡ ((w.path name, f.content) ∷ rest.0, rest.1)
  unfolding unpack_file
  unpack_file-placed f name rest at whole =
      let cut : cut_prefix (top ++ 47 ∷ []) f.name ≡ some name =
        ap (cut_prefix (top ++ 47 ∷ [])) (at ∙ append_assoc top name)
        ∙ cut_prefix-append (top ++ 47 ∷ []) name in
      rw (unpack_file, cut, ok.make_dirs (w.path name), ok.create (w.path name), whole) refl

  -- The prefix is not known yet, or is the directory.
  abbrev IsPrefix : List ℕ → Type 0
  IsPrefix pfx = (pfx ≡ []) ⊎ (pfx ≡ top ++ 47 ∷ [])

  prefix_of-known :
      (pfx name : List ℕ)
      → IsPrefix pfx
      → 0 < length name
      → prefix_of pfx (top ++ 47 ∷ name) ≡ some (top ++ 47 ∷ [])
  prefix_of-known pfx name (inl start) pos = rw start (prefix_of-top top name h pos)
  prefix_of-known pfx name (inr found) pos = rw found (prefix_of_again top (top ++ 47 ∷ name))

  unpack-placed :
      (pfx : List ℕ) (entries : List TarEntry) (files : List (List ℕ × List ℕ))
      → IsPrefix pfx
      → Packs top entries files
      → unpack w pfx entries ≡ (placed files, none)
  unfolding unpack
  unpack-placed pfx [] files known packs = rw (packs, ok.ends) refl
  unpack-placed pfx (f ∷ fs) files known (inl (passed, packs)) =
      rw (unpack, passed) (unpack-placed pfx fs files known packs)
  unpack-placed pfx (f ∷ fs) files known (inr (name, rest, split, kept, at, pos, whole, packs)) =
      let found : prefix_of pfx f.name ≡ some (top ++ 47 ∷ []) =
        ap (prefix_of pfx) at ∙ prefix_of-known pfx name known pos in
      let next = unpack-placed (top ++ 47 ∷ []) fs rest (inr refl) packs in
      rw (unpack, kept, found, split)
        (unpack_file-placed f name (unpack w (top ++ 47 ∷ []) fs) at whole
          ∙ ap (λ (o : Outcome). ((w.path name, f.content) ∷ o.0, o.1)) next)

  -- Where nothing fails, an archive of files below one directory, whose name has no slash and is not
  -- the dot, with directories and headers between them, is unpacked to the files under their names
  -- without the directory, in order and with their contents, and then the commit.
  pub download-placed :
      (files : List (List ℕ × List ℕ))
      → Packs top w.entries files
      → download w ≡ (placed files ++ (w.path (codes "COMMIT"), w.commit) ∷ [], none)
  unfolding download write_last
  download-placed files packs =
      let all = unpack-placed [] w.entries files (inl refl) packs in
      rw (download, ok.responds, all, ok.removes, ok.unzips, ok.write_commit) refl
