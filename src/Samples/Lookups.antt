-- ===== src/Samples/Lookups.antt =====
-- Lookups for the name `a`, at address 0 of a memory of 64 bytes.
use go_pcapfilter.Prelude.{
  ℕ, ◌≡◌, ◌≢◌, ◌<◌, ◌+◌, ◌⊎◌, Bool, true, false, not, List, [], ◌∷◌, Option, none, some, length,
  refl, arith,
}
use go_pcapfilter.Wasm.Words.{neg32}
use go_pcapfilter.Wasm.Memory.{Memory, cell_or}
use go_pcapfilter.Heap.Arena.{rounded}
use go_pcapfilter.Env.{cstr, cstr_from, mkcstr, resolve_host, ether_hostton}
use go_pcapfilter.Env.Text.{Stored, mkcstr-cstr, cstr_full}
use go_pcapfilter.Env.Resolve.{
  Placed, Unsuited, resolve_host-first, resolve_host-none, ether_hostton-six,
}
use go_pcapfilter.Samples.Memory.{fresh_memory, fresh_IsHeap}

abbrev name_memory : Memory
name_memory = record { size = 64; byte = λ a. cell_or (97 ∷ []) a 0 }

name_read : cstr name_memory 0 ≡ some (97 ∷ [])
unfolding cstr cstr_from
name_read = refl

-- `true` is the address 10.0.0.1, and `false` the address ::1.
abbrev pub four : Bool → List ℕ
four _ = 10 ∷ 0 ∷ 0 ∷ 1 ∷ []

abbrev pub sixteen : Bool → List ℕ
sixteen _ = 0 ∷ 0 ∷ 0 ∷ 0 ∷ 0 ∷ 0 ∷ 0 ∷ 0 ∷ 0 ∷ 0 ∷ 0 ∷ 0 ∷ 0 ∷ 0 ∷ 0 ∷ 1 ∷ []

abbrev pub is_four : Bool → Bool
is_four b = b

abbrev pub both : List ℕ → Option (List Bool)
both _ = some (false ∷ true ∷ [])

resolve_host-first_example :
    (m' : Memory) × (resolve_host is_four not four sixteen (some both) name_memory 0 4 8
      ≡ some (m', 0))
    × Placed name_memory m' 8 (10 ∷ 0 ∷ 0 ∷ 1 ∷ [])
resolve_host-first_example =
    resolve_host-first is_four not four sixteen both name_memory 0 4 8 (97 ∷ []) (false ∷ []) []
      true name_read refl (refl, tt) refl (omega arith)

no_function :
    (f : List ℕ → Option (List Bool))
    → none ≡ some f
    → (f (97 ∷ []) ≡ none)
      ⊎ ((addrs : List Bool) × (f (97 ∷ []) ≡ some addrs)
          × Unsuited is_four not four sixteen 4 addrs)
no_function f e = cc

resolve_host-none_example :
    resolve_host is_four not four sixteen none name_memory 0 4 8 ≡ some (name_memory, neg32 1)
resolve_host-none_example =
    resolve_host-none is_four not four sixteen none name_memory 0 4 8 (97 ∷ []) name_read
      no_function

abbrev mac_bytes : List ℕ
mac_bytes = 2 ∷ 0 ∷ 0 ∷ 0 ∷ 0 ∷ 1 ∷ []

abbrev mac_of : List ℕ → Option (List ℕ)
mac_of _ = some mac_bytes

ether_hostton-six_example :
    ((length mac_bytes ≡ 6)
      × (m' : Memory) × (ether_hostton (some mac_of) name_memory 0 8 ≡ some (m', 0))
      × Placed name_memory m' 8 mac_bytes)
    ⊎ ((length mac_bytes ≢ 6)
        × (ether_hostton (some mac_of) name_memory 0 8 ≡ some (name_memory, neg32 1)))
ether_hostton-six_example =
    ether_hostton-six mac_of name_memory 0 8 (97 ∷ []) mac_bytes name_read refl (omega arith)

mkcstr-cstr_example :
    ((mkcstr fresh_memory (105 ∷ 112 ∷ []) ≡ some (fresh_memory, none))
      × (4294967296 < 127536 + rounded 3))
    ⊎ Stored fresh_memory (105 ∷ 112 ∷ []) 127536 (mkcstr fresh_memory (105 ∷ 112 ∷ []))
mkcstr-cstr_example =
    mkcstr-cstr fresh_memory 127536 (105 ∷ 112 ∷ []) fresh_IsHeap
      ((omega arith, omega arith), ((omega arith, omega arith), tt)) (omega arith)

-- A memory of the greatest size, with the text `a` at its start.
abbrev full_memory : Memory
full_memory = record name_memory { size = 4294967296 }

cstr_full_example : cstr full_memory 0 ≡ some []
cstr_full_example = cstr_full full_memory 0 refl (omega arith)
