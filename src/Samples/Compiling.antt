-- ===== src/Samples/Compiling.antt =====
-- A libpcap that compiles every filter to `ret #65535`, placed in the static data.
use go_pcapfilter.Prelude.{
  ℕ, ◌+◌, ◌≡◌, Bool, true, false, leb, if◌then◌else◌, List, [], ◌∷◌, none, some, arith, refl, codes,
}
use go_pcapfilter.Wasm.Memory.{Memory, load32, put}
use go_pcapfilter.Wasm.Memory.Laws.{put-IsBytes}
use go_pcapfilter.Heap.{break_word, limit_word, last_word}
use go_pcapfilter.Machine.{Machine, done, Libpcap, program_struct}
use go_pcapfilter.Machine.Stores.{stored}
use go_pcapfilter.Program.{Program}
use go_pcapfilter.Compile.{Netip, Options, Compiled, compiled, failed, panics, compile}
use go_pcapfilter.Compile.Fresh.{IsFresh}
use go_pcapfilter.Compile.Errors.{compile-explicit, explicit}

abbrev start_memory : Memory
start_memory =
    put 4 (put 4 (record { size = 131072; byte = λ _. 0 }) break_word 127840) limit_word 131072

abbrev pub start_machine : Machine
start_machine = record { memory = start_memory; stack_pointer = 65536 }

pub start_IsFresh : IsFresh start_machine 127840
unfolding load32
start_IsFresh = record {
  heap = record {
    arena = record {
      bytes =
          put-IsBytes 4 limit_word 131072
            (put-IsBytes 4 break_word 127840 (record { bytes = λ _. omega arith }));
      paged = refl;
      low = omega arith;
      high = omega arith;
      limit = refl;
    };
    break = refl;
    aligned = refl;
    above = omega arith;
    inside = omega arith;
  };
  static = omega arith;
  unfailed = refl;
  empty = refl;
  stack = refl;
}

-- `ret #65535`, and the structure that points to it.
abbrev with_ret : Machine → Machine
with_ret s =
    stored 4 (stored 4 (stored 4 (stored 4 s 100000 6) 100004 65535) program_struct 1)
      (program_struct + 4) 100000

-- An empty last block is taken after the handle.
abbrev covered : Machine → ℕ → Machine
covered s handle = stored 4 s last_word (handle + 512)

-- Without a text, the handle has no message.
abbrev silent : Machine → ℕ → Machine
silent s handle = stored 1 s (handle + 148) 0

-- An address is given by whether it is an IPv4 address.
abbrev addresses : Netip Bool
addresses = record {
  zero_addr = false;
  is_valid = λ a. a;
  is4 = λ a. a;
  as4 = λ a. 255 ∷ 255 ∷ 255 ∷ 0 ∷ [];
}

-- A memory past 2 ^ 30 bytes is refused.
abbrev ret_libpcap : Libpcap
ret_libpcap = record {
  freecode = λ s program. done s;
  compile = λ s handle program filter optimize netmask.
      if leb s.memory.size 1073741824
      then done (with_ret (covered s handle), 0)
      else done (silent s handle, 1);
  snprintf = λ s to size format args. done s;
}

-- It needs no data, and every text fits.
abbrev NoData : Memory → Type 0
NoData m = Unit

abbrev AllFit : ℕ → List ℕ → Type 0
AllFit e t = Unit

abbrev filter : List ℕ
filter = codes "ip"

compile-explicit_example :
    compile addresses (λ env. ret_libpcap) start_machine filter none
    ≡ compile addresses
        (λ env. ret_libpcap)
        start_machine
        filter
        (some (explicit addresses (λ env. ret_libpcap) start_machine filter none))
compile-explicit_example = compile-explicit addresses (λ env. ret_libpcap) start_machine filter none

abbrev short_options : Options Bool
short_options = record {
  link_type = 0;
  snaplen = 64;
  netmask = true;
  optimize = true;
  lookup = none;
  ethers = none;
}

abbrev result : Compiled
result = compile addresses (λ env. ret_libpcap) start_machine filter (some short_options)

abbrev blank : Program
blank = record { memory = start_memory; stack_pointer = 0; n = 0; ptr = 0; pkt = 0; snaplen = 0 }

abbrev made : Program
made = elim result [ compiled p ↦ p | failed message ↦ blank | panics ↦ blank ]
