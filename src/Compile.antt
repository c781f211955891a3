-- ===== src/Compile.antt =====
-- filter.go: `Compile`. The addresses of net/netip and libpcap are parameters, and so is the
-- machine that `New` makes: its memory and its stack pointer.
pub mod Build
pub mod Fresh
pub mod Ready
pub mod Match
pub mod Errors
use go_pcapfilter.Prelude.{
  ℕ, ◌+◌, ◌*◌, ◌==◌, Bool, false, ◌&&◌, leb, if◌then◌else◌, List, [], ◌∷◌, Option, none, some,
  length, codes,
}
use go_pcapfilter.Wasm.Words.{u32}
use go_pcapfilter.Wasm.Memory.{Memory, cell_or}
use go_pcapfilter.Heap.{malloc, free}
use go_pcapfilter.Env.{cstr, mkcstr}
use go_pcapfilter.Machine.{
  Machine, Result, done, thrown, crashed, ◌>>=◌, to_result, with_memory, Libpcap, bpf_compile,
  bpf_errbuf,
}
use go_pcapfilter.Program.{Program}

-- What the code asks of net/netip.
pub record Netip (A : Type 0) : Type 0 where
  pub zero_addr : A
  pub is_valid : A → Bool
  pub is4 : A → Bool
  pub as4 : A → List ℕ

-- A `LinkType` and a `Snaplen` are the bits of an int of 64 bits. A function that is `none` is nil,
-- and the result `none` of a function is an error.
pub record Options (A : Type 0) : Type 0 where
  pub link_type : ℕ
  pub snaplen : ℕ
  pub netmask : A
  pub optimize : Bool
  pub lookup : Option (List ℕ → Option (List A))
  pub ethers : Option (List ℕ → Option (List ℕ))

-- The type `env`, without the module.
pub record Lookups (A : Type 0) : Type 0 where
  pub lookup : Option (List ℕ → Option (List A))
  pub ethers : Option (List ℕ → Option (List ℕ))

pub data Compiled : Type 0 where
  compiled : Program → Compiled
  failed : List ℕ → Compiled
  panics : Compiled

-- The variables `DefaultLinkType` and `DefaultSnaplen`, as they are initialized.
abbrev pub default_link_type : ℕ
default_link_type = 1

abbrev pub default_snaplen : ℕ
default_snaplen = 65535

abbrev pub out_of_memory : List ℕ
out_of_memory = codes "out of wasm memory"

-- `binary.BigEndian.Uint32`
abbrev pub be32 : List ℕ → ℕ
be32 b = 16777216 * cell_or b 0 0 + 65536 * cell_or b 1 0 + 256 * cell_or b 2 0 + cell_or b 3 0

-- An int, as an int32, or the default in place of 0.
abbrev pub or_default : ℕ → ℕ → ℕ
or_default default v = if v == 0 then default else u32 v

abbrev pub flag : Bool → ℕ
flag b = if b then 1 else 0

-- What `Compile` does after the filter text is allocated: the error's text, or the fields of the
-- program.
pub data Built : Type 0 where
  refused : List ℕ → Built
  built : (n ptr pkt snaplen : ℕ) → Built

-- The text that `Xbpf_errbuf` points to; `none` is a Go panic.
unfoldable pub error_text : Memory → Option (List ℕ)
error_text m = elim (bpf_errbuf m) [ none ↦ none | some text ↦ cstr m text ]

-- The packet buffer.
unfoldable pub build : ℕ → Machine × (ℕ × ℕ) → Result (Machine × Built)
build snaplen (s, (n, ptr)) =
    if leb 2147483648 n
    then (do message ← to_result (error_text s.memory); done (s, refused message))
    else do
      allocated ← to_result (malloc s.memory snaplen)
      let (m, pkt) = allocated
      if pkt == 0
          then done (record s { memory = m }, refused out_of_memory)
          else done (record s { memory = m }, built n ptr pkt snaplen)

-- The deferred functions: the text of the filter is freed on every path, and a panic of `Xpanic`
-- becomes an error.
unfoldable pub finish : ℕ → Result (Machine × Built) → Compiled
finish text crashed = panics
finish text (thrown s message) = elim (free s.memory text) [
  | none ↦ panics
  | some m ↦ elim (error_text m) [
    | none ↦ panics
    | some [] ↦ failed message
    | some (c ∷ cs) ↦ failed (c ∷ cs)
  ]
]
finish text (done (s, b)) = elim (free s.memory text) [
  | none ↦ panics
  | some m ↦ elim b [
    | refused message ↦ failed message
    | built n ptr pkt snaplen ↦ compiled (record {
      memory = m;
      stack_pointer = s.stack_pointer;
      n = n;
      ptr = ptr;
      pkt = pkt;
      snaplen = snaplen;
    })
  ]
]

-- `Compile` after the options are read.
unfoldable pub compile_with : Libpcap → Machine → List ℕ → ℕ → ℕ → ℕ → ℕ → Compiled
compile_with lib start filter link_type snaplen optimize netmask =
    elim (mkcstr start.memory filter) [
      | none ↦ panics
      | some (m, none) ↦ failed out_of_memory
      | some (m, some text) ↦ finish text (do
        result ←
            bpf_compile lib (record start { memory = m }) link_type snaplen text optimize netmask
        build snaplen result)
    ]

module _ {A : Type 0} (net : Netip A) where
  unfoldable pub zero_options : Options A
  zero_options = record {
    link_type = 0;
    snaplen = 0;
    netmask = net.zero_addr;
    optimize = false;
    lookup = none;
    ethers = none;
  }

  -- The netmask that is given to libpcap: `PCAP_NETMASK_UNKNOWN` for what is not an IPv4 address.
  unfoldable pub netmask_word : A → ℕ
  netmask_word a = if net.is_valid a && net.is4 a then be32 (net.as4 a) else 4294967295

  unfoldable pub compile_options : (Lookups A → Libpcap) → Machine → List ℕ → Options A → Compiled
  compile_options libpcap start filter opts =
      let env : Lookups A = record { lookup = opts.lookup; ethers = opts.ethers } in
      compile_with (libpcap env) start filter (or_default default_link_type opts.link_type)
        (or_default default_snaplen opts.snaplen) (flag opts.optimize) (netmask_word opts.netmask)

  -- `Compile`; `none` is a nil pointer.
  unfoldable pub compile : (Lookups A → Libpcap) → Machine → List ℕ → Option (Options A) → Compiled
  compile libpcap start filter none = compile_options libpcap start filter zero_options
  compile libpcap start filter (some opts) = compile_options libpcap start filter opts
