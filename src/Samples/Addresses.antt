-- ===== src/Samples/Addresses.antt =====
-- The name `a`, just below an empty heap, has an IPv6 and an IPv4 address.
use go_pcapfilter.Prelude.{
  ℕ, zero, suc, ◌+◌, ◌<◌, ◌≡◌, ◌⊎◌, inl, length, Bool, not, List, [], ◌∷◌, some, arith, refl, ◌==◌,
  if◌then◌else◌,
}
use go_pcapfilter.Wasm.Words.{neg32}
use go_pcapfilter.Wasm.Memory.{Memory, load32, load16, cell_or, put}
use go_pcapfilter.Wasm.Memory.Laws.{put-IsBytes}
use go_pcapfilter.Heap.Arena.{IsHeap, IsHeap-put, Keeps}
use go_pcapfilter.Machine.{Machine}
use go_pcapfilter.Netdb.{getaddrinfo, freeaddrinfo}
use go_pcapfilter.Netdb.Nodes.{IsList}
use go_pcapfilter.Netdb.Found.{IsNetip, known, first_entry, entries}
use go_pcapfilter.Netdb.Steps.{IsStage}
use go_pcapfilter.Netdb.Lists.{getaddrinfo-IsList}
use go_pcapfilter.Netdb.Release.{IsNodes, InNodes, freeaddrinfo-IsHeap}
use go_pcapfilter.Samples.Compiling.{start_machine, start_IsFresh}
use go_pcapfilter.Samples.Lookups.{is_four, four, sixteen, both}

abbrev host_machine : Machine
host_machine = record { memory = put 1 start_machine.memory 127832 97; stack_pointer = 65520 }

host_IsStage : IsStage host_machine.memory 127840 127832 (97 ∷ [])
host_IsStage = record {
  heap = IsHeap-put 1 start_machine.memory 127840 127832 97 (inl (omega arith)) start_IsFresh.heap;
  cleared = λ a le lt. ground arith;
  static = omega arith;
  short = omega arith;
  text = (refl, omega arith, omega arith, (omega arith, refl));
  above = omega arith;
  below = omega arith;
}

sample_IsNetip : IsNetip is_four not four sixteen
sample_IsNetip = record {
  four = λ a e. (refl, ground arith);
  sixteen = λ a e. (refl, ground arith);
}

abbrev sample_entries : List (ℕ × List ℕ)
sample_entries =
    entries is_four not four sixteen 0 (known is_four not four sixteen (some both) (97 ∷ []))

getaddrinfo-IsList_example :
    (m' : Memory) × (list : ℕ) × (getaddrinfo is_four not four sixteen
        (some both)
        host_machine
        127832
        0
        65524
      ≡ some (record host_machine { memory = m' }, if list == 0 then neg32 2 else 0))
    × (load32 m' 65524 ≡ some list)
    × IsList m' 0 list sample_entries
getaddrinfo-IsList_example =
    getaddrinfo-IsList is_four not four sixteen (some both) host_machine 127840 127832 0 65524 0 0
      (97 ∷ []) sample_IsNetip host_IsStage (omega arith) (omega arith) (omega arith) (omega arith)
      (inl (refl, refl, refl)) (omega arith) (omega arith)

two_addresses : sample_entries ≡ (1, four Bool.true) ∷ (2, sixteen Bool.false) ∷ []
unfolding first_entry
two_addresses = refl

abbrev node_memory : Memory
node_memory =
    put 4
      (put 4
        (put 4
          (put 4 (put 4 (put 2 (put 4 start_machine.memory 127876 16777226) 127872 1) 127844 1)
            127856 16)
          127860 127872)
        125436 127888)
      127524 127872

node_IsHeap : IsHeap node_memory 127888
unfolding load32
node_IsHeap = record {
  arena = record {
    bytes = put-IsBytes 4 127524 127872 (
        put-IsBytes 4 125436 127888 (
          put-IsBytes 4 127860 127872 (
            put-IsBytes 4 127856 16 (
              put-IsBytes 4 127844 1 (
                put-IsBytes 2 127872 1
                  (put-IsBytes 4 127876 16777226 start_IsFresh.heap.arena.bytes))))));
    paged = refl;
    low = omega arith;
    high = omega arith;
    limit = refl;
  };
  break = refl;
  aligned = refl;
  above = omega arith;
  inside = omega arith;
}

node_octets :
    (i : ℕ) → i < 4 → node_memory.byte (127872 + 4 + i) ≡ cell_or (10 ∷ 0 ∷ 0 ∷ 1 ∷ []) i 0
node_octets zero lt = refl
node_octets (suc zero) lt = refl
node_octets (suc (suc zero)) lt = refl
node_octets (suc (suc (suc zero))) lt = refl
node_octets (suc (suc (suc (suc i)))) lt = absurd (omega arith)

node_IsList : IsList node_memory 0 127840 ((1, 10 ∷ 0 ∷ 0 ∷ 1 ∷ []) ∷ [])
unfolding load32 load16
node_IsList = (
  omega arith,
  0,
  record {
    family_read = refl;
    socktype_read = refl;
    length_read = refl;
    address_read = refl;
    next_read = refl;
    address_at = record { family_read = refl; octets_at = node_octets };
  },
  refl,
)

freeaddrinfo-IsHeap_example :
    (nodes : List ℕ) × IsNodes node_memory 127840 nodes
    × (length nodes ≡ 1)
    × ((InNodes 127872 nodes
          × ((m' : Memory) × (freeaddrinfo 2 node_memory 127840 ≡ some m')
              × (m'.size ≡ 131072)
              × IsHeap m' 127872
              × Keeps 127872 node_memory m'))
        ⊎ ((InNodes 127872 nodes → ⊥) × (freeaddrinfo 2 node_memory 127840 ≡ some node_memory)))
unfolding load32
freeaddrinfo-IsHeap_example =
    freeaddrinfo-IsHeap node_memory 127888 0 127840 127872 ((1, 10 ∷ 0 ∷ 0 ∷ 1 ∷ []) ∷ [])
      node_IsHeap refl (omega arith) (omega arith) node_IsList
