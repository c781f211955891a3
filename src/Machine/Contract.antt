-- ===== src/Machine/Contract.antt =====
-- What the shim relies on in libpcap: its functions keep the heap of the module, give the stack
-- back and lay the compiled program in the structure that they are given. A call of them may also
-- end in the panic of `Xpanic`.
use go_pcapfilter.Heap.{break_word, last_word}
use go_pcapfilter.Prelude.{◌%◌, ℕ, ◌+◌, ◌*◌, ◌≤◌, ◌<◌, ◌≡◌, ◌≢◌, ◌⊎◌, List, length, some}
use go_pcapfilter.Wasm.Memory.{Memory, load32, put}
use go_pcapfilter.Wasm.Memory.Laws.{IsBytes, Apart}
use go_pcapfilter.Wasm.Memory.Texts.{Spells}
use go_pcapfilter.Dummy.{open_dummy}
use go_pcapfilter.Heap.Arena.{IsHeap}
use go_pcapfilter.Machine.{
  Machine, Result, done, thrown, crashed, ◌>>=◌, Libpcap, program_struct, errbuf_start, failed_word,
}

-- A handle is null, or points to a structure with an error buffer.
abbrev pub IsHandle : Memory → ℕ → Type 0
IsHandle m handle = (handle ≡ 0) ⊎ (handle + 148 < m.size)

-- A memory from which an error can be read.
pub record IsUsable (m : Memory) : Type 0 where
  pub bytes : IsBytes m
  pub low : 131072 ≤ m.size
  pub high : m.size ≤ 4294967296
  pub failed : ℕ
  pub failed_read : load32 m failed_word ≡ some failed
  pub failed_handle : IsHandle m failed

-- A machine with the stack pointer `sp` and a heap that lies past the static data and ends at `b`.
pub record IsRunning (sp b : ℕ) (s : Machine) : Type 0 where
  pub usable : IsUsable s.memory
  pub heap : IsHeap s.memory b
  pub static : 127840 ≤ b
  pub stack : s.stack_pointer ≡ sp

-- The structure holds a program of a length that the virtual machine takes, past the stack and
-- below `b`, which leaves 2,048 bytes of the lower half of the address space.
pub record IsCompiled (m : Memory) (b : ℕ) : Type 0 where
  pub n : ℕ
  pub ptr : ℕ
  pub n_read : load32 m program_struct ≡ some n
  pub ptr_read : load32 m (program_struct + 4) ≡ some ptr
  pub n_pos : 0 < n
  pub n_bound : n ≤ 3060000
  pub past_stack : 65536 ≤ ptr
  pub inside : ptr + 8 * n ≤ b
  pub room : b + 2048 ≤ 2147483648

-- A handle is a block of 512 bytes of a heap that ends at `b`.
pub record IsOpen (b handle : ℕ) : Type 0 where
  pub aligned : handle % 16 ≡ 0
  pub static : 127840 ≤ handle
  pub inside : handle + 512 ≤ b

-- A block has been taken after the handle, such as that of the compiled program.
abbrev pub IsCovered : Memory → ℕ → Type 0
IsCovered m handle = (last : ℕ) × (load32 m last_word ≡ some last) × (handle < last)

-- The call does not crash, `P` holds of its result, and after an `Xpanic` the memory is usable.
abbrev pub Ends : {A : Type 0} → (A → Type 0) → Result A → Type 0
Ends P (done a) = P a
Ends P (thrown s message) = IsUsable s.memory
Ends P crashed = ⊥

-- A call, and what follows on each of its results.
module _ {A B : Type 0} (P : A → Type 0) (Q : B → Type 0) where
  pub Ends->>= :
      (call : Result A) (rest : A → Result B)
      → Ends P call
      → ((x : A) → P x → Ends Q (rest x))
      → Ends Q (call >>= rest)
  Ends->>= (done x) rest ends next = next x ends
  Ends->>= (thrown s message) rest ends next = ends
  Ends->>= crashed rest ends next = absurd ends

-- The text `t` stands at `filter`, past the static data and below `b`.
pub record IsText (m : Memory) (b filter : ℕ) (t : List ℕ) : Type 0 where
  pub static : 127840 ≤ filter
  pub below : filter + length t < b
  pub spells : Spells m filter t

-- A text of at most 256 bytes stands in the error buffer of the handle.
abbrev pub IsMessage : Memory → ℕ → Type 0
IsMessage m handle = (t : List ℕ) × (length t ≤ 256) × Spells m (handle + 148) t

-- A byte of the static data that neither the allocator nor the shim writes.
abbrev pub IsOwn : ℕ → Type 0
IsOwn a =
    (65536 ≤ a)
    × (a < 127840)
    × Apart a 1 break_word 8
    × Apart a 1 last_word 4
    × Apart a 1 errbuf_start 257
    × Apart a 1 failed_word 4

-- The calls that the shim makes while the module runs its first compilation, with the stack pointer
-- 16 below the one that `New` sets. `Data` says that the static data of libpcap are as it needs
-- them; it depends on their own bytes only. `Fits e t` says that the text `t`, for every link type
-- and every option and whatever the lookups answer, compiles within the stack of 64 KiB, into
-- 3,060,000 instructions at most, in a heap that ended at `e` and still ends 2,048 bytes below the
-- upper half of the address space.
pub record IsLibpcap (Data : Memory → Type 0) (Fits : ℕ → List ℕ → Type 0) (lib : Libpcap)
    : Type 0 where
  pub data_kept :
      (m m' : Memory)
      → m.size ≤ m'.size
      → ((a : ℕ) → IsOwn a → m'.byte a ≡ m.byte a)
      → Data m
      → Data m'
  -- `pcap_freecode` of a structure without a program.
  pub freecode_ends :
      (b : ℕ) (s : Machine)
      → IsRunning 65520 b s
      → Data s.memory
      → load32 s.memory (program_struct + 4) ≡ some 0
      → Ends
          (λ s'.
            IsRunning 65520 b s'
            × Data s'.memory
            × (s.memory.size ≤ s'.memory.size)
            × ((a : ℕ) → 127840 ≤ a → a < b → s'.memory.byte a ≡ s.memory.byte a))
          (lib.freecode s program_struct)
  -- `pcap_compile` of a text, on the handle that `pcap_open_dummy` has opened and the shim has
  -- noted. A failure leaves a message in the handle.
  pub compile_ends :
      (b : ℕ) (before opened : Memory) (s : Machine)
      → (link_type snaplen handle filter optimize netmask : ℕ) (t : List ℕ)
      → open_dummy before link_type snaplen ≡ some (opened, handle)
      → s.memory ≡ put 4 opened failed_word handle
      → IsRunning 65520 b s
      → IsOpen b handle
      → Data s.memory
      → IsText s.memory handle filter t
      → Fits handle t
      → Ends
          (λ x.
            (b' : ℕ) × IsRunning 65520 b' x.0
            × IsOpen b' handle
            × Data x.0.memory
            × (x.1 ≡ 0 → IsCompiled x.0.memory b' × IsCovered x.0.memory handle)
            × (x.1 ≢ 0 → IsMessage x.0.memory handle))
          (lib.compile s handle program_struct filter optimize netmask)
  -- `snprintf` of the text for a handle that could not be opened, which has no arguments.
  pub opening_ends :
      (b : ℕ) (s : Machine)
      → IsRunning 65520 b s
      → Data s.memory
      → Ends (λ s'. IsRunning 65520 b s') (lib.snprintf s errbuf_start 257 65549 0)
  -- `snprintf` with the format `%s` of the message of a handle.
  pub message_ends :
      (b handle : ℕ) (s : Machine)
      → IsRunning 65520 b s
      → Data s.memory
      → IsOpen b handle
      → IsMessage s.memory handle
      → load32 s.memory 65520 ≡ some (handle + 148)
      → Ends (λ s'. IsRunning 65520 b s') (lib.snprintf s errbuf_start 257 67476 65520)
