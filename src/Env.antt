-- ===== src/Env.antt =====
-- filter.go: `env`, which the module calls for the addresses of a name, and the C strings by which
-- the package and the module exchange texts. A text is the list of its bytes. `none` is a Go panic.
pub mod Text
pub mod Resolve
use go_pcapfilter.Prelude.{
  ℕ, zero, suc, ◌+◌, ◌-◌, Bool, ◌&&◌, not, leb, ◌==◌, if◌then◌else◌, List, [], ◌∷◌, Option, none,
  some, ◌>>=◌, length,
}
use go_pcapfilter.Wasm.Words.{u32, add32, neg32}
use go_pcapfilter.Wasm.Memory.{Memory, store8, copy_in}
use go_pcapfilter.Heap.{malloc}

-- The bytes from `p` to the first zero, or to the end, which is `left` bytes away.
unfoldable pub cstr_from : Memory → ℕ → ℕ → List ℕ
cstr_from m zero p = []
cstr_from m (suc left) p =
    let rest = cstr_from m left (p + 1) in if m.byte p == 0 then [] else m.byte p ∷ rest

-- `cstr`. The loop compares with the length as a uint32.
unfoldable pub cstr : Memory → ℕ → Option (List ℕ)
cstr m ptr = if leb ptr m.size then some (cstr_from m (u32 m.size - ptr) ptr) else none

-- `copy(mem[p:], src)`
unfoldable pub copy_at : Memory → ℕ → List ℕ → Option Memory
copy_at m p src = if leb p m.size then some (copy_in m p src).0 else none

-- `mkcstr`: the new text, or no pointer if the module is out of memory.
unfoldable pub mkcstr : Memory → List ℕ → Option (Memory × Option ℕ)
mkcstr m s = do
  allocated ← malloc m (u32 (length s + 1))
  let (m, ptr) = allocated
  if ptr == 0
      then some (m, none)
      else do m ← copy_at m ptr s; m ← store8 m (add32 ptr (u32 (length s))) 0; some (m, some ptr)

-- `net/netip` is a library: an address is any type, with the tests and the bytes that the code
-- asks.
module _ {A : Type 0} (is4 is6 : A → Bool) (as4 as16 : A → List ℕ) where
  -- The loop of `Xresolve_host`: the memory and the result.
  unfoldable pub first_address : Memory → ℕ → ℕ → List A → Option (Memory × ℕ)
  first_address m family out [] = some (m, neg32 1)
  first_address m family out (addr ∷ addrs) =
      let rest = first_address m family out addrs in
      if family == 4 && is4 addr
      then (do m ← copy_at m out (as4 addr); some (m, 0))
      else if family == 6 && is6 addr
      then (do m ← copy_at m out (as16 addr); some (m, 0))
      else rest

  -- `none` for `lookup` is a nil function, and as its result an error.
  unfoldable pub resolve_host :
      Option (List ℕ → Option (List A)) → Memory → ℕ → ℕ → ℕ → Option (Memory × ℕ)
  resolve_host none m hostname family out = some (m, neg32 1)
  resolve_host (some lookup) m hostname family out = do
    name ← cstr m hostname
    elim (lookup name) [
      | none ↦ some (m, neg32 1)
      | some [] ↦ some (m, neg32 1)
      | some (addr ∷ addrs) ↦ first_address m family out (addr ∷ addrs)
    ]

unfoldable pub ether_hostton :
    Option (List ℕ → Option (List ℕ)) → Memory → ℕ → ℕ → Option (Memory × ℕ)
ether_hostton none m name out = some (m, neg32 1)
ether_hostton (some ethers) m name out = do
  host ← cstr m name
  elim (ethers host) [
    | none ↦ some (m, neg32 1)
    | some mac ↦
        if not (length mac == 6) then some (m, neg32 1) else do m ← copy_at m out mac; some (m, 0)
  ]
