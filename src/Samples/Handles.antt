-- ===== src/Samples/Handles.antt =====
-- A handle for Ethernet in an empty heap, and two spellings of a name.
use go_pcapfilter.Prelude.{ℕ, ◌+◌, ◌<◌, ◌≡◌, ◌⊎◌, ◌↔◌, List, [], ◌∷◌, map, some, arith}
use go_pcapfilter.Wasm.Memory.{Memory, cell_or}
use go_pcapfilter.Heap.Arena.{IsHeap, Keeps}
use go_pcapfilter.Dummy.{open_dummy, datalink, snapshot, strcasecmp}
use go_pcapfilter.Dummy.Handle.{open_dummy-fields}
use go_pcapfilter.Dummy.Names.{lowered, strcasecmp_iff}
use go_pcapfilter.Samples.Compiling.{start_machine, start_IsFresh}

open_dummy-fields_example :
    ((open_dummy start_machine.memory 1 262144 ≡ some (start_machine.memory, 0))
      × (4294967296 < 127840 + 512))
    ⊎ ((m' : Memory) × (open_dummy start_machine.memory 1 262144 ≡ some (m', 127840))
        × IsHeap m' (127840 + 512)
        × Keeps 127840 start_machine.memory m'
        × (datalink m' 127840 ≡ some 1)
        × (snapshot m' 127840 ≡ some 262144))
open_dummy-fields_example =
    open_dummy-fields start_machine.memory 127840 1 262144 start_IsFresh.heap (omega arith)
      (omega arith) (omega arith)

abbrev tcp : List ℕ
tcp = 116 ∷ 99 ∷ 112 ∷ []

abbrev tcp_upper : List ℕ
tcp_upper = 84 ∷ 67 ∷ 112 ∷ []

abbrev names : Memory
names = record { size = 8; byte = λ a. cell_or (116 ∷ 99 ∷ 112 ∷ 0 ∷ 84 ∷ 67 ∷ 112 ∷ 0 ∷ []) a 0 }

strcasecmp_iff_example :
    (r : ℕ) × (strcasecmp 4 names 0 4 ≡ some r)
    × ((r ≡ 0) ↔ (map lowered tcp ≡ map lowered tcp_upper))
strcasecmp_iff_example =
    strcasecmp_iff names 0 4 tcp tcp_upper (omega arith) (ground arith) (ground arith)
