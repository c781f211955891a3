-- ===== src/Netdb/Nodes.antt =====
-- A node of the list of addresses, and the stores that make it.
use go_pcapfilter.Prelude.{
  ℕ, ◌+◌, ◌≤◌, ◌<◌, ◌≡◌, ◌⊎◌, inl, inr, List, [], ◌∷◌, ◌++◌, some, length, ◌==◌, if◌then◌else◌,
  arith, refl, ◌∙◌,
}
use go_pcapfilter.Wasm.Words.{IsU32}
use go_pcapfilter.Wasm.Memory.{Memory, load16, load32, put, cell_or}
use go_pcapfilter.Wasm.Memory.Laws.{Apart}
use go_pcapfilter.Wasm.Memory.Puts.{
  Stores, puts, puts-size, puts-Clear, Clear, load32-puts, load32-Clear, Last-append, Clear-append,
}
use go_pcapfilter.Heap.{break_word}
use go_pcapfilter.Heap.Arena.{IsHeap, IsHeap-put, store32-put}
use go_pcapfilter.Heap.Fresh.{Cleared}
use go_pcapfilter.Netdb.{link_node}

-- The number of bytes of a socket address, and where its octets start, by the family.
abbrev pub address_length : ℕ → ℕ
address_length family = if family == 1 then 16 else 32

abbrev pub octets_start : ℕ → ℕ
octets_start family = if family == 1 then 4 else 8

-- The socket address at `p`, of the family 1 or 2, with its octets.
pub record IsAddress (m : Memory) (p family : ℕ) (octets : List ℕ) : Type 0 where
  pub family_read : load16 m p ≡ some family
  pub octets_at :
      (i : ℕ) → i < length octets → m.byte (p + octets_start family + i) ≡ cell_or octets i 0

-- The node at `p`: its family, the type of the socket, and the address, which stands behind it.
pub record IsNode (m : Memory) (p socktype family : ℕ) (octets : List ℕ) (next : ℕ) : Type 0 where
  pub family_read : load32 m (p + 4) ≡ some family
  pub socktype_read : load32 m (p + 8) ≡ some socktype
  pub length_read : load32 m (p + 16) ≡ some (address_length family)
  pub address_read : load32 m (p + 20) ≡ some (p + 32)
  pub next_read : load32 m (p + 28) ≡ some next
  pub address_at : IsAddress m (p + 32) family octets

-- The list from `p` on, past the static data, as pairs of a family and the octets of an address.
abbrev pub IsList : Memory → ℕ → ℕ → List (ℕ × List ℕ) → Type 0
IsList m socktype p [] = p ≡ 0
IsList m socktype p ((family, octets) ∷ rest) =
    (127840 ≤ p) × (next : ℕ) × IsNode m p socktype family octets next × IsList m socktype next rest

abbrev pub link_stores : ℕ → ℕ → ℕ → ℕ → ℕ → ℕ → Stores
link_stores ai addr len socktype family tail =
    (4, (ai + 20, addr))
    ∷ (4, (ai + 16, len))
    ∷ (4, (ai + 8, socktype))
    ∷ (4, (ai + 4, family))
    ∷ (4, (tail, ai))
    ∷ []

pub link_node-puts :
    (m : Memory) (ai addr len socktype family tail : ℕ)
    → ai + 24 ≤ m.size
    → tail + 4 ≤ m.size
    → link_node m ai addr len socktype family tail
      ≡ some (puts m (link_stores ai addr len socktype family tail))
unfolding link_node puts
link_node-puts m ai addr len socktype family tail fits fits_tail =
    let m₁ : Memory = put 4 m (ai + 20) addr in
    let m₂ : Memory = put 4 m₁ (ai + 16) len in
    let m₃ : Memory = put 4 m₂ (ai + 8) socktype in
    let m₄ : Memory = put 4 m₃ (ai + 4) family in
    rw
      (
        store32-put m (ai + 20) addr (omega arith),
        store32-put m₁ (ai + 16) len (omega arith),
        store32-put m₂ (ai + 8) socktype (omega arith),
        store32-put m₃ (ai + 4) family (omega arith),
        store32-put m₄ tail ai fits_tail,
      )
      refl

pub IsHeap-puts :
    (m : Memory) (b : ℕ) (stores : Stores)
    → Clear break_word 8 stores
    → IsHeap m b
    → IsHeap (puts m stores) b
unfolding puts
IsHeap-puts m b [] clear h = h
IsHeap-puts m b ((n, (p, v)) ∷ rest) (apart, clear) h =
    IsHeap-puts (put n m p v) b rest clear (IsHeap-put n m b p v apart h)

pub Cleared-puts :
    (lo : ℕ) (m : Memory) (stores : Stores)
    → ((a : ℕ) → lo ≤ a → Clear a 1 stores)
    → Cleared lo m
    → Cleared lo (puts m stores)
Cleared-puts lo m stores clear zeros a le lt =
    let at : a + 0 ≡ a = omega arith in
    rw at at (puts-Clear m stores a 1 0 (clear a le) (omega arith))
    ∙ zeros a le (omega (arith, puts-size m stores))

-- The stores of a node at `p`, with its address at `p + 32`, after those that make the address.
abbrev pub node_stores : Stores → ℕ → ℕ → ℕ → ℕ → Stores
node_stores front p socktype family tail =
    front ++ link_stores p (p + 32) (address_length family) socktype family tail

module _ (m : Memory) (front : Stores) (p socktype family tail : ℕ) (octets : List ℕ)
    (small : IsU32 (p + 32)) (small_type : IsU32 socktype) (kind : (family ≡ 1) ⊎ (family ≡ 2))
    (fits : p + 48 ≤ m.size) (fits_tail : tail + 4 ≤ m.size) (apart : Apart tail 4 p 64) where
  pub linked-tail : load32 (puts m (node_stores front p socktype family tail)) tail ≡ some p
  linked-tail =
      load32-puts m (node_stores front p socktype family tail) tail p
        (Last-append 4 tail p front _ (inr (inr (inr (inr (inl (refl, refl, refl, tt)))))))
        (omega arith) fits_tail

  pub linked-IsNode :
      load32 m (p + 28) ≡ some 0
      → Clear (p + 28) 4 front
      → IsAddress (puts m (node_stores front p socktype family tail)) (p + 32) family octets
      → IsNode (puts m (node_stores front p socktype family tail)) p socktype family octets 0
  linked-IsNode next clear address = record {
    family_read =
        load32-puts m (node_stores front p socktype family tail) (p + 4) family
          (Last-append 4 (p + 4) family front _
            (inr (inr (inr (inl (refl, refl, refl, ground arith))))))
          (ground arith) (omega arith);
    socktype_read =
        load32-puts m (node_stores front p socktype family tail) (p + 8) socktype
          (Last-append 4 (p + 8) socktype front _
            (inr (inr (inl (refl, refl, refl, ground arith)))))
          small_type (omega arith);
    length_read =
        load32-puts m (node_stores front p socktype family tail) (p + 16) (address_length family)
          (Last-append 4 (p + 16) (address_length family) front _
            (inr (inl (refl, refl, refl, ground arith))))
          (ground arith) (omega arith);
    address_read =
        load32-puts m (node_stores front p socktype family tail) (p + 20) (p + 32)
          (Last-append 4 (p + 20) (p + 32) front _ (inl (refl, refl, refl, ground arith))) small
          (omega arith);
    next_read =
        load32-Clear m (node_stores front p socktype family tail) (p + 28)
          (Clear-append (p + 28) 4 front _ clear (ground arith))
        ∙ next;
    address_at = address;
  }
