-- ===== src/Compile/Errors.antt =====
-- The defaults of `Compile`.
use go_pcapfilter.Prelude.{ℕ, ◌≡◌, List, Option, none, some, arith, refl, ◌==◌, if◌then◌else◌}
use go_pcapfilter.Machine.{Machine, Libpcap}
use go_pcapfilter.Compile.{
  Netip, Options, Lookups, or_default, default_link_type, default_snaplen, zero_options, compile,
  compile_options,
}

module _ {A : Type 0} (net : Netip A) (libpcap : Lookups A → Libpcap) (start : Machine)
    (filter : List ℕ) where
  -- The defaults for what is 0, written out.
  abbrev pub explicit_options : Options A → Options A
  explicit_options opts = record opts {
    link_type = if opts.link_type == 0 then 1 else opts.link_type;
    snaplen = if opts.snaplen == 0 then 65535 else opts.snaplen;
  }

  abbrev pub explicit : Option (Options A) → Options A
  explicit none = explicit_options (zero_options net)
  explicit (some opts) = explicit_options opts

  compile_options-explicit :
      (opts : Options A)
      → compile_options net libpcap start filter opts
        ≡ compile_options net libpcap start filter (explicit_options opts)
  unfolding compile_options
  compile_options-explicit opts =
      let link : or_default default_link_type (explicit_options opts).link_type
          ≡ or_default default_link_type opts.link_type =
        ground arith in
      let length : or_default default_snaplen (explicit_options opts).snaplen
          ≡ or_default default_snaplen opts.snaplen =
        ground arith in
      rw (link, length) refl

  -- `Compile` gives what it gives with the link type DLT_EN10MB in place of 0 and the snapshot
  -- length 65535 in place of 0, and a nil pointer stands for options that are all zero.
  pub compile-explicit :
      (opts : Option (Options A))
      → compile net libpcap start filter opts
        ≡ compile net libpcap start filter (some (explicit opts))
  unfolding compile
  compile-explicit none = compile_options-explicit (zero_options net)
  compile-explicit (some opts) = compile_options-explicit opts
