-- ===== src/Netdb/Linked.antt =====
-- The hints of a lookup, and a node whose link is written.
use go_pcapfilter.Prelude.{
  ℕ, ◌+◌, ◌≤◌, ◌<◌, ◌≡◌, ◌⊎◌, inl, inr, true, false, List, some, length, arith, refl, ◌∙◌, ◌==◌,
}
use go_pcapfilter.Wasm.Memory.{Memory, load16, load32, put}
use go_pcapfilter.Wasm.Memory.Laws.{Apart, put_outside, load32-put-Apart}
use go_pcapfilter.Wasm.Memory.Texts.{Spells-same}
use go_pcapfilter.Heap.Arena.{IsHeap-put, store32-put}
use go_pcapfilter.Netdb.{read_hints}
use go_pcapfilter.Netdb.Nodes.{IsNode}
use go_pcapfilter.Netdb.Steps.{IsStage}

pub load32-same :
    (m m' : Memory) (a v : ℕ)
    → m.size ≤ m'.size
    → ((c : ℕ) → a ≤ c → c < a + 4 → m'.byte c ≡ m.byte c)
    → load32 m a ≡ some v
    → load32 m' a ≡ some v
unfolding load32
load32-same m m' a v le same e = ground (arith, same a, same (a + 1), same (a + 2), same (a + 3))

pub load16-same :
    (m m' : Memory) (a v : ℕ)
    → m.size ≤ m'.size
    → ((c : ℕ) → a ≤ c → c < a + 2 → m'.byte c ≡ m.byte c)
    → load16 m a ≡ some v
    → load16 m' a ≡ some v
unfolding load16
load16-same m m' a v le same e = ground (arith, same a, same (a + 1))

-- The node of an IPv4 address, after its link has been written.
pub IsNode-linked :
    (m m' : Memory) (p socktype next : ℕ) (octets : List ℕ)
    → length octets ≡ 4
    → m.size ≤ m'.size
    → ((c : ℕ) → p ≤ c → c < p + 48 → Apart c 1 (p + 28) 4 → m'.byte c ≡ m.byte c)
    → load32 m' (p + 28) ≡ some next
    → IsNode m p socktype 1 octets 0
    → IsNode m' p socktype 1 octets next
IsNode-linked m m' p socktype next octets count le same link node = record {
  family_read =
      load32-same m m' _ _ le (λ c lo hi. same c (omega arith) (omega arith) (inl (omega arith)))
        node.family_read;
  socktype_read =
      load32-same m m' _ _ le (λ c lo hi. same c (omega arith) (omega arith) (inl (omega arith)))
        node.socktype_read;
  length_read =
      load32-same m m' _ _ le (λ c lo hi. same c (omega arith) (omega arith) (inl (omega arith)))
        node.length_read;
  address_read =
      load32-same m m' _ _ le (λ c lo hi. same c (omega arith) (omega arith) (inl (omega arith)))
        node.address_read;
  next_read = link;
  address_at = record {
    family_read =
        load16-same m m' _ _ le (λ c lo hi. same c (omega arith) (omega arith) (inr (omega arith)))
          node.address_at.family_read;
    octets_at = λ i lt.
        same (p + 32 + 4 + i) (omega arith) (omega arith) (inr (omega arith))
        ∙ node.address_at.octets_at i lt;
  };
}

-- The hints are null, or hold the family and the type of the socket, clear of the result.
abbrev pub IsHints : Memory → ℕ → ℕ → ℕ → ℕ → Type 0
IsHints m hints res family socktype =
    ((hints ≡ 0) × (family ≡ 0) × (socktype ≡ 0))
    ⊎ ((0 < hints)
        × Apart (hints + 4) 8 res 4
        × (load32 m (hints + 4) ≡ some family)
        × (load32 m (hints + 8) ≡ some socktype))

pub read_hints-IsHints :
    (m : Memory) (hints res family socktype : ℕ)
    → res + 4 ≤ m.size
    → IsHints m hints res family socktype
    → read_hints m hints res ≡ some (put 4 m res 0, (family, socktype))
unfolding read_hints
read_hints-IsHints m hints res family socktype fits (inl (null, no_family, no_type)) =
    let start = store32-put m res 0 fits in
    let none_given : (hints == 0) ≡ true = ground arith in
    rw (read_hints, start, none_given, no_family, no_type) refl
read_hints-IsHints m hints res family socktype fits (inr (pos, apart, family_read, type_read)) =
    let start = store32-put m res 0 fits in
    let given : (hints == 0) ≡ false = ground arith in
    let first = load32-put-Apart 4 m res 0 (hints + 8) (ground arith) ∙ type_read in
    let second = load32-put-Apart 4 m res 0 (hints + 4) (ground arith) ∙ family_read in
    rw (read_hints, start, given, first, second) refl

pub IsStage-put :
    (m : Memory) (b host res v : ℕ) (name : List ℕ)
    → res + 4 ≤ 65536
    → IsStage m b host name
    → IsStage (put 4 m res v) b host name
IsStage-put m b host res v name low st = record {
  heap = IsHeap-put 4 m b res v (inr (omega arith)) st.heap;
  cleared =
      λ a le lt. put_outside 4 m res v a (inr (omega (arith, st.static))) ∙ st.cleared a le lt;
  static = st.static;
  short = st.short;
  text =
      Spells-same m (put 4 m res v) host name (omega arith)
        (λ c lo hi. put_outside 4 m res v c (inr (omega (arith, st.above)))) st.text;
  above = st.above;
  below = st.below;
}
