-- ===== src/Samples/Archives.antt =====
-- An archive with a header, the directory `l`, and the files `a` and `b` below it.
use go_pcapfilter.Prelude.{
  ℕ, ◌≡◌, Bool, true, false, List, [], ◌∷◌, ◌++◌, map, none, some, codes, text_eq, inl, inr, arith,
  refl,
}
use go_pcapfilter.Download.{TarEntry, Site, skipped, download}
use go_pcapfilter.Download.Unpack.{Packs, IsWorking, download-placed}

abbrev entry : List ℕ → Bool → List ℕ → TarEntry
entry name is_dir content = record {
  name = name;
  is_dir = is_dir;
  content = content;
  broken = false;
}

abbrev archive : List TarEntry
archive =
    entry (codes "pax_global_header") false []
    ∷ entry (codes "l/") true []
    ∷ entry (codes "l/a") false (1 ∷ 2 ∷ [])
    ∷ entry (codes "l/b") false []
    ∷ []

abbrev working : Site
working = record {
  status = some 200;
  removes = true;
  unzips = true;
  entries = archive;
  ends = true;
  path = λ name. codes "libpcap/" ++ name;
  make_dirs = λ p. true;
  create = λ p. true;
  commit = codes "69733af";
  write_commit = true;
}

working-IsWorking : IsWorking working
working-IsWorking = record {
  responds = refl;
  removes = refl;
  unzips = refl;
  ends = refl;
  make_dirs = λ p. refl;
  create = λ p. refl;
  write_commit = refl;
}

abbrev packed : List (List ℕ × List ℕ)
packed = (codes "a", 1 ∷ 2 ∷ []) ∷ (codes "b", []) ∷ []

archive-Packs : Packs (codes "l") archive packed
unfolding skipped text_eq
archive-Packs = inl (
  refl,
  inl (
    refl,
    inr (
      codes "a",
      (codes "b", []) ∷ [],
      refl,
      refl,
      refl,
      omega arith,
      refl,
      inr (codes "b", [], refl, refl, refl, omega arith, refl, refl),
    ),
  ),
)

download-placed_example : download working ≡ (
  map (λ f. (working.path f.0, f.1)) packed ++ (working.path (codes "COMMIT"), working.commit) ∷ [],
  none,
)
download-placed_example =
    download-placed working working-IsWorking (codes "l") ((ground arith, tt), λ e. cc) packed
      archive-Packs
