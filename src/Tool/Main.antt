-- ===== src/Tool/Main.antt =====
-- `main`, from the flags and the arguments on. The file system, the resolver, the parsers and the
-- writing to the standard output are parameters.
use go_pcapfilter.Prelude.{
  ℕ, Bool, true, false, if◌then◌else◌, List, [], ◌∷◌, ◌++◌, Option, none, some,
}
use go_pcapfilter.LinkType.Lookup.{lookup_link_type}
use go_pcapfilter.Machine.{Machine, Libpcap}
use go_pcapfilter.Program.{Program, bytes}
use go_pcapfilter.Program.Text.{Image, program_string}
use go_pcapfilter.Compile.{Options, Lookups, Compiled, compiled, failed, panics, compile}
use go_pcapfilter.Tool.Mask.{Parsers, Mask, accepted, rejected, bad_shift, parse_mask}
use go_pcapfilter.Tool.Ethers.{Files, load_ethers}

-- The flags `-r`, `-o`, `-t`, `-s`, `-d`, `-e`, `-n`. The snapshot length is the bits of an int.
pub record Flags : Type 0 where
  pub raw : Bool
  pub optimize : Bool
  pub dlt_name : List ℕ
  pub snaplen : ℕ
  pub resolver : List ℕ
  pub ethers_path : List ℕ
  pub netmask : List ℕ

-- What surrounds the tool. `upper` is `strings.ToUpper` past ASCII, `resolve` takes the resolver's
-- address, and `write` tells whether the text could be written.
pub record World (A : Type 0) : Type 0 where
  pub parsers : Parsers A
  pub files : Files
  pub upper : ℕ → ℕ
  pub parse_int : List ℕ → Option ℕ
  pub resolve : List ℕ → List ℕ → Option (List A)
  pub write : List ℕ → Bool
  pub libpcap : Lookups A → Libpcap
  pub image : Image
  pub start : Machine

-- The exit code, or a Go panic.
pub data Exit : Type 0 where
  exits : ℕ → Exit
  crashes : Exit

-- `strings.Join(flag.Args(), " ")`
unfoldable pub join : List (List ℕ) → List ℕ
join [] = []
join (arg ∷ []) = arg
join (arg ∷ next ∷ args) = arg ++ 32 ∷ join (next ∷ args)

module _ {A : Type 0} (world : World A) where
  -- A name, or a number where no name is found.
  unfoldable pub link_type_of : List ℕ → Option ℕ
  link_type_of name = elim (lookup_link_type world.upper name) [
    | some link_type ↦ some link_type
    | none ↦ world.parse_int name
  ]

  -- `newLookup`. Without a resolver, every lookup fails. The line that the code prints first, and
  -- the lookup that it makes for it, are left out.
  unfoldable pub new_lookup : List ℕ → List ℕ → Option (List A)
  new_lookup [] host = none
  new_lookup (c ∷ cs) host = world.resolve (c ∷ cs) host

  unfoldable pub write_out : List ℕ → Exit
  write_out text = if world.write text then exits 0 else exits 1

  unfoldable pub output : Bool → Program → Exit
  output true p = elim (bytes p) [ none ↦ crashes | some text ↦ write_out text ]
  output false p = elim (program_string world.image p) [
    | none ↦ crashes
    | some (text, m) ↦ write_out (text ++ 10 ∷ [])
  ]

  unfoldable pub print : Bool → Compiled → Exit
  print raw (compiled p) = output raw p
  print raw (failed message) = exits 1
  print raw panics = crashes

  unfoldable pub options_of : Flags → ℕ → (List ℕ → Option (List ℕ)) → A → Options A
  options_of flags link_type ethers netmask = record {
    link_type = link_type;
    snaplen = flags.snaplen;
    netmask = netmask;
    optimize = flags.optimize;
    lookup = some (new_lookup flags.resolver);
    ethers = some ethers;
  }

  -- After the link type and the ethers file are read.
  unfoldable pub compile_masked :
      Flags → List (List ℕ) → ℕ → (List ℕ → Option (List ℕ)) → Mask A → Exit
  compile_masked flags args link_type ethers (accepted netmask) = print flags.raw (
      compile world.parsers.net world.libpcap world.start (join args)
        (some (options_of flags link_type ethers netmask)))
  compile_masked flags args link_type ethers (rejected message) = exits 2
  compile_masked flags args link_type ethers bad_shift = crashes

  unfoldable pub main : Flags → List (List ℕ) → Exit
  main flags [] = exits 2
  main flags (arg ∷ args) = elim (link_type_of flags.dlt_name) [
    | none ↦ exits 2
    | some link_type ↦ elim (load_ethers world.files flags.ethers_path) [
      | none ↦ exits 2
      | some ethers ↦
          compile_masked flags (arg ∷ args) link_type ethers
            (parse_mask world.parsers flags.netmask)
    ]
  ]
