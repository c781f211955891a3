-- ===== src/Machine.antt =====
-- internal/bpf.go: the module as the compiler runs in it, and `Xbpf_compile`, the C shim bpf.c in
-- its translation. libpcap is a parameter: the three functions that the shim calls, beside those of
-- pcap-dummy.c.
pub mod Contract
pub mod Stores
pub mod Handles
pub mod Staged
pub mod Shim
use go_pcapfilter.Prelude.{ℕ, ◌+◌, ◌==◌, not, if◌then◌else◌, List, Option, none, some}
use go_pcapfilter.Wasm.Words.{add32, sub32, neg32}
use go_pcapfilter.Wasm.Memory.{Memory, load8, load32, store8, store32}
use go_pcapfilter.Dummy.{open_dummy, close}
use go_pcapfilter.Env.{cstr}

pub record Machine : Type 0 where
  pub memory : Memory
  pub stack_pointer : ℕ

-- `thrown` is the Go panic that `Xpanic` makes, with its text; `crashed` is any other Go panic.
pub data Result (A : Type 0) : Type 0 where
  done : A → Result A
  thrown : Machine → List ℕ → Result A
  crashed : Result A

infixl 5 ◌>>=◌ ◌>>◌
abbrev pub ◌>>=◌ : {A B : Type 0} → Result A → (A → Result B) → Result B
done a >>= f = f a
thrown m s >>= f = thrown m s
crashed >>= f = crashed

abbrev pub ◌>>◌ : {A B : Type 0} → Result A → Result B → Result B
r >> s = r >>= λ _. s

abbrev pub to_result : {A : Type 0} → Option A → Result A
to_result none = crashed
to_result (some a) = done a

-- The machine, with the memory that an operation leaves.
abbrev pub with_memory : Machine → Option Memory → Result Machine
with_memory s none = crashed
with_memory s (some m) = done (record s { memory = m })

abbrev pub program_struct : ℕ
program_struct = 127552

abbrev pub errbuf_start : ℕ
errbuf_start = 127568

abbrev pub failed_word : ℕ
failed_word = 127828

-- `Xpanic`
unfoldable pub xpanic : {A : Type 0} → Machine → ℕ → Result A
xpanic s text = elim (cstr s.memory text) [ none ↦ crashed | some message ↦ thrown s message ]

-- The functions of libpcap that the shim calls and pcap-dummy.c does not stand for. `compile` takes
-- the handle, the program structure, the filter, the flag of the optimizer and the netmask.
pub record Libpcap : Type 0 where
  pub freecode : Machine → ℕ → Result Machine
  pub compile : Machine → ℕ → ℕ → ℕ → ℕ → ℕ → Result (Machine × ℕ)
  pub snprintf : Machine → ℕ → ℕ → ℕ → ℕ → Result Machine

-- `__pcap_errbuf`
abbrev pub pcap_errbuf : ℕ → ℕ
pcap_errbuf handle = add32 handle 148

-- The label l0: the frame is given back.
abbrev pub leave : Machine → ℕ → ℕ × ℕ → Result (Machine × (ℕ × ℕ))
leave s frame result = done (record s { stack_pointer = add32 frame 16 }, result)

module _ (lib : Libpcap) where
  -- After `_pcap_compile`, which has left `s` and returned `status`.
  unfoldable pub close_compiled : ℕ → ℕ → Machine × ℕ → Result (Machine × (ℕ × ℕ))
  close_compiled frame handle (s, status) = do
    s ← with_memory s (store32 s.memory failed_word 0)
    if not (status == 0)
        then (do
          s ← with_memory s (store32 s.memory frame (pcap_errbuf handle))
          s ← lib.snprintf s errbuf_start 257 67476 frame
          s ← with_memory s (close s.memory handle)
          leave s frame (neg32 1, 0))
        else do
          s ← with_memory s (close s.memory handle)
          ptr ← to_result (load32 s.memory (program_struct + 4))
          n ← to_result (load32 s.memory program_struct)
          leave s frame (n, ptr)

  -- After `_pcap_open_dummy`, which has left `s` and returned `handle`.
  unfoldable pub compile_opened : ℕ → ℕ → ℕ → ℕ → Machine × ℕ → Result (Machine × (ℕ × ℕ))
  compile_opened frame filter optimize netmask (s, handle) =
      if handle == 0
      then (do s ← lib.snprintf s errbuf_start 257 65549 0; leave s frame (neg32 1, 0))
      else do
        s ← with_memory s (store32 s.memory failed_word handle)
        result ← lib.compile s handle program_struct filter optimize netmask
        close_compiled frame handle result

  -- `Xbpf_compile`: the number of instructions and the address of the first one, or -1.
  unfoldable pub bpf_compile : Machine → ℕ → ℕ → ℕ → ℕ → ℕ → Result (Machine × (ℕ × ℕ))
  bpf_compile s link_type snaplen filter optimize netmask = do
    let frame = sub32 s.stack_pointer 16
    s ← lib.freecode (record s { stack_pointer = frame }) program_struct
    s ← with_memory s (store8 s.memory errbuf_start 0)
    opened ← to_result (open_dummy s.memory link_type snaplen)
    let (m, handle) = opened
    compile_opened frame filter optimize netmask (record s { memory = m }, handle)

  -- `Xbpf_result_free`
  unfoldable pub bpf_result_free : Machine → Result Machine
  bpf_result_free s = lib.freecode s program_struct

-- `_exit`, which libpcap calls where it cannot go on.
unfoldable pub exit : {A : Type 0} → Machine → Result A
exit s = xpanic s 66234

-- `Xbpf_errbuf`: the buffer of the handle that failed, if it holds a text, else the global one.
unfoldable pub bpf_errbuf : Memory → Option ℕ
bpf_errbuf m = elim (load32 m failed_word) [
  | none ↦ none
  | some failed ↦ if failed == 0 then some errbuf_start else elim (load8 m (pcap_errbuf failed)) [
    | none ↦ none
    | some first ↦ if first == 0 then some errbuf_start else some (pcap_errbuf failed)
  ]
]
