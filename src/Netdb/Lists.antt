-- ===== src/Netdb/Lists.antt =====
-- What `_getaddrinfo` returns.
use go_pcapfilter.Prelude.{
  ℕ, ◌+◌, ◌-◌, ◌≤◌, ◌<◌, ◌≡◌, ◌⊎◌, inl, inr, Bool, false, List, [], ◌∷◌, Option, some, length,
  arith, refl, ◌==◌, if◌then◌else◌,
}
use go_pcapfilter.Wasm.Words.{neg32, IsU32, sub32, add32}
use go_pcapfilter.Wasm.Memory.{Memory, load32, put}
use go_pcapfilter.Wasm.Memory.Laws.{load32-put_self}
use go_pcapfilter.Machine.{Machine}
use go_pcapfilter.Netdb.{read_hints, lookup_ipv4, lookup_ipv6, getaddrinfo}
use go_pcapfilter.Netdb.Nodes.{IsList}
use go_pcapfilter.Netdb.Found.{IsNetip, known, entries}
use go_pcapfilter.Netdb.Steps.{
  IsStage, AddedFrom, AddedFrom-same, AddedFrom-size, AddedFrom-IsStage, lookup_ipv4-cases,
  lookup_ipv6-cases,
}
use go_pcapfilter.Netdb.Linked.{
  load32-same, IsNode-linked, IsHints, read_hints-IsHints, IsStage-put,
}

module _ {A : Type 0} (is4 is6 : A → Bool) (as4 as16 : A → List ℕ) (net : IsNetip is4 is6 as4 as16)
    (lookup : Option (List ℕ → Option (List A))) (host frame res family socktype : ℕ)
    (name : List ℕ) (stack : frame + 16 ≤ res) (low : res + 4 ≤ 65536) (one_of : family ≤ 2)
    (small : IsU32 socktype) where
  abbrev addresses : List (ℕ × List ℕ)
  addresses = entries is4 is6 as4 as16 family (known is4 is6 as4 as16 lookup name)

  -- The list in `m'`, whose first node is in the word at `res`.
  abbrev Listed : Memory → List (ℕ × List ℕ) → Type 0
  Listed m' found = (list : ℕ) × (load32 m' res ≡ some list) × IsList m' socktype list found

  -- The IPv6 lookup after one that has added the node at `b`.
  after_ipv4 :
      (m m₁ : Memory) (b : ℕ) (octets : List ℕ) (found6 : List (ℕ × List ℕ))
      → IsStage m b host name
      → b + 65648 ≤ 4294967296
      → (a : AddedFrom m m₁ b (b + 32 + 16) frame res socktype 1 octets) → length octets ≡ 4
      → (m' : Memory)
      → ((found6 ≡ []) × (m' ≡ m₁))
        ⊎ ((octets6 : List ℕ) × (found6 ≡ (2, octets6) ∷ [])
            × AddedFrom m₁ m'
                (b + 32 + 16)
                (b + 32 + 16 + 32 + 32)
                frame
                (b + 28)
                socktype
                2
                octets6
            × (length octets6 ≡ 16))
      → Listed m' ((1, octets) ∷ found6)
  after_ipv4 m m₁ b octets found6 st room a count m' (inl (empty, same)) =
      rw (empty, same) (b, a.added.linked, (ground (arith, st.static), 0, a.added.node, refl))
  after_ipv4 m m₁ b octets found6 st room a count m' (inr (octets6, one, a₆, count₆)) =
      let le = AddedFrom-size a₆ in
      let linked =
        load32-same m₁ m' res b le
          (λ c lo hi.
            AddedFrom-same a₆ c (omega (arith, st.static)) (inr (omega arith))
              (inl (omega (arith, st.static))) (inl (omega arith)) (inl (omega arith)))
          a.added.linked in
      let node =
        IsNode-linked m₁ m' b socktype (b + 32 + 16) octets count le
          (λ c lo hi away.
            AddedFrom-same a₆ c (omega arith) (inr (omega (arith, st.static))) away
              (inr (omega (arith, st.static))) (inr (omega (arith, st.static))))
          a₆.added.linked a.added.node in
      rw one (
        b,
        linked,
        (
          ground (arith, st.static),
          b + 32 + 16,
          node,
          (ground (arith, st.static), 0, a₆.added.node, refl),
        ),
      )

  lookups :
      (m : Memory) (b : ℕ)
      → IsStage m b host name
      → b + 65648 ≤ 4294967296
      → load32 m res ≡ some 0
      → (m₁ : Memory) × (tail : ℕ) × (m' : Memory) × (lookup_ipv4 is4 is6 as4 as16 lookup m host
            frame
            (family, socktype)
            res
          ≡ some (m₁, tail))
        × (lookup_ipv6 is4 is6 as4 as16 lookup m₁ host frame (family, socktype) tail ≡ some m')
        × Listed m' addresses
  lookups m b st room start =
      elim (lookup_ipv4-cases is4 is6 as4 as16 net lookup host frame socktype name (omega arith)
        small m b family res st (omega arith) (omega (arith, st.static)) (inr (omega arith))) [
          | inl (none4, first) ↦
              elim (lookup_ipv6-cases is4 is6 as4 as16 net lookup host frame socktype name
                (omega arith) small m b family res one_of st (omega arith)
                (omega (arith, st.static)) (inr (omega arith))) [
                  | inl (none6, second) ↦
                      (m, res, m, first, second, rw (none4, none6) (0, start, refl))
                  | inr (octets, one6, m', second, a, count) ↦ (
                    m,
                    res,
                    m',
                    first,
                    second,
                    rw (none4, one6)
                        (b, a.added.linked, (ground (arith, st.static), 0, a.added.node, refl)),
                  )
                ]
          | inr (octets, one4, m₁, first, a, count) ↦
              let st₁ =
                AddedFrom-IsStage a st (omega arith) (omega arith) (omega arith) (inl low) in
              elim (lookup_ipv6-cases is4 is6 as4 as16 net lookup host frame socktype name
                (omega arith) small m₁ (b + 32 + 16) family (b + 28) one_of st₁ (omega arith)
                (omega arith) (inl (omega (arith, st.static)))) [
                  | inl (none6, second) ↦ (
                    m₁,
                    b + 28,
                    m₁,
                    first,
                    second,
                    rw one4 (after_ipv4 m m₁ b octets _ st room a count m₁ (inl (none6, refl))),
                  )
                  | inr (octets6, one6, m', second, a₆, count₆) ↦ (
                    m₁,
                    b + 28,
                    m',
                    first,
                    second,
                    rw one4 (
                        after_ipv4 m m₁ b octets _ st room a count m'
                          (inr (octets6, one6, a₆, count₆))),
                  )
                ]
        ]

  -- The two lookups in the frame of the call.
  getaddrinfo-opened :
      (s : Machine) (hints tail list : ℕ) (m m₁ m' : Memory)
      → s.stack_pointer ≡ frame + 16
      → 0 < host
      → read_hints s.memory hints res ≡ some (m, (family, socktype))
      → lookup_ipv4 is4 is6 as4 as16 lookup m host frame (family, socktype) res ≡ some (m₁, tail)
      → lookup_ipv6 is4 is6 as4 as16 lookup m₁ host frame (family, socktype) tail ≡ some m'
      → load32 m' res ≡ some list
      → getaddrinfo is4 is6 as4 as16 lookup s host hints res
        ≡ some (record s { memory = m' }, if list == 0 then neg32 2 else 0)
  unfolding getaddrinfo
  getaddrinfo-opened s hints tail list m m₁ m' sp real asked first second read =
      let down : sub32 s.stack_pointer 16 ≡ frame = omega arith in
      let up : add32 frame 16 ≡ s.stack_pointer = omega arith in
      let given : (host == 0) ≡ false = ground arith in
      rw (getaddrinfo, down, up, given, asked, first, second, read) refl

-- `_getaddrinfo` on a well-formed heap with only zeros behind its end, and 65,648 bytes more up to
-- the end of the address space, for a name that stands below the end of the heap, hints of a known
-- family, and a result word above the frame: it returns with the stack pointer as it was, and the
-- result word starts a list with the first IPv4 address of the name and then its first IPv6
-- address, of those that the family asks for; the status is 0 if there is one, and -2 if not.
pub getaddrinfo-IsList :
    {A : Type 0} (is4 is6 : A → Bool) (as4 as16 : A → List ℕ)
    (lookup : Option (List ℕ → Option (List A))) (s : Machine)
    (b host hints res family socktype : ℕ) (name : List ℕ)
    → IsNetip is4 is6 as4 as16
    → IsStage s.memory b host name
    → b + 65648 ≤ 4294967296
    → 16 ≤ s.stack_pointer
    → s.stack_pointer ≤ res
    → res + 4 ≤ 65536
    → IsHints s.memory hints res family socktype
    → family ≤ 2
    → IsU32 socktype
    → (m' : Memory) × (list : ℕ) × (getaddrinfo is4 is6 as4 as16 lookup s host hints res
        ≡ some (record s { memory = m' }, if list == 0 then neg32 2 else 0))
      × (load32 m' res ≡ some list)
      × IsList m' socktype list
          (entries is4 is6 as4 as16 family (known is4 is6 as4 as16 lookup name))
getaddrinfo-IsList is4 is6 as4 as16 lookup s b host hints res family socktype name net st room
      sp_low sp_high low hinted one_of small =
    let frame : ℕ = s.stack_pointer - 16 in
    let fits : res + 4 ≤ s.memory.size = omega (arith, st.heap.arena.low) in
    let m : Memory = put 4 s.memory res 0 in
    let stack : frame + 16 ≤ res = omega arith in
    let asked = read_hints-IsHints s.memory hints res family socktype fits hinted in
    let start = load32-put_self s.memory res 0 (omega arith) fits in
    let (m₁, tail, m', first, second, (list, read, listed)) =
      lookups is4 is6 as4 as16 net lookup host frame res family socktype name stack low one_of small
        m b (IsStage-put s.memory b host res 0 name low st) room start in
    (
      m',
      list,
      getaddrinfo-opened is4 is6 as4 as16 net lookup host frame res family socktype name stack low
          one_of small s hints tail list m m₁ m' (omega arith) (omega (arith, st.above)) asked first
          second read,
      read,
      listed,
    )
