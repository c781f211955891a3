-- ===== src/Netdb/Steps.antt =====
-- The two lookups of `_getaddrinfo`, one after the other.
use go_pcapfilter.Prelude.{
  ℕ, zero, suc, ◌+◌, ◌≤◌, ◌<◌, ◌≡◌, ◌⊎◌, inl, inr, Bool, true, false, not, List, [], ◌∷◌, Option,
  some, length, arith, refl, ◌∙◌, ◌==◌, ltb, leb, if◌then◌else◌, Bool-cases, bit_and,
}
use go_pcapfilter.Wasm.Words.{neg32, IsU32}
use go_pcapfilter.Wasm.Memory.{Memory}
use go_pcapfilter.Wasm.Memory.Laws.{Apart}
use go_pcapfilter.Wasm.Memory.Texts.{Spells, Spells-same}
use go_pcapfilter.Heap.{break_word, last_word}
use go_pcapfilter.Heap.Arena.{IsHeap}
use go_pcapfilter.Heap.Fresh.{Cleared}
use go_pcapfilter.Env.Resolve.{Placed, suits}
use go_pcapfilter.Netdb.{lookup_ipv4, lookup_ipv6}
use go_pcapfilter.Netdb.Added.{Added}
use go_pcapfilter.Netdb.Families.{add_ipv4-Added, add_ipv6-Added}
use go_pcapfilter.Netdb.Found.{IsOctets, IsNetip, known, first_entry, resolve_host-cases}
use go_pcapfilter.Netdb.Stack.{Placed-IsHeap, Placed-Cleared, cstr-Spells}

-- Between the lookups: a heap with only zeros behind it, and the name of the host below its end.
pub record IsStage (m : Memory) (b host : ℕ) (name : List ℕ) : Type 0 where
  pub heap : IsHeap m b
  pub cleared : Cleared b m
  pub static : 127840 ≤ b
  pub short : m.size < 4294967296
  pub text : Spells m host name
  pub above : 127528 ≤ host
  pub below : host + length name < b

-- An added node, from a memory with the address on the stack.
pub record AddedFrom (m m' : Memory) (b e frame tail socktype family : ℕ) (octets : List ℕ)
    : Type 0 where
  pub start : Memory
  pub placed : Placed m start frame octets
  pub added : Added start m' b e tail socktype family octets

module _ {A : Type 0} (is4 is6 : A → Bool) (as4 as16 : A → List ℕ) (net : IsNetip is4 is6 as4 as16)
    (lookup : Option (List ℕ → Option (List A))) (host frame socktype : ℕ) (name : List ℕ)
    (stack : frame + 16 ≤ 65536) (small : IsU32 socktype) where
  octets4 : (a : A) → suits is4 is6 as4 as16 4 a ≡ true → IsOctets 4 (as4 a)
  octets4 a fits = net.four a (ground arith)

  octets6 : (a : A) → suits is4 is6 as4 as16 6 a ≡ true → IsOctets 16 (as16 a)
  octets6 a fits = net.sixteen a fits

  pub lookup_ipv4-cases :
      (m : Memory) (b family tail : ℕ)
      → IsStage m b host name
      → b + 48 ≤ 4294967296
      → tail + 4 ≤ b
      → Apart break_word 8 tail 4
      → (((if leb family 1
              then first_entry is4 is6 as4 as16 4 1 (known is4 is6 as4 as16 lookup name)
              else [])
            ≡ [])
          × (lookup_ipv4 is4 is6 as4 as16 lookup m host frame (family, socktype) tail
              ≡ some (m, tail)))
        ⊎ ((octets : List ℕ) × ((if leb family 1
                then first_entry is4 is6 as4 as16 4 1 (known is4 is6 as4 as16 lookup name)
                else [])
              ≡ (1, octets) ∷ [])
            × (m' : Memory) × (lookup_ipv4 is4 is6 as4 as16 lookup m host frame
                  (family, socktype)
                  tail
                ≡ some (m', b + 28))
            × AddedFrom m m' b (b + 32 + 16) frame tail socktype 1 octets
            × (length octets ≡ 4))
  unfolding lookup_ipv4
  lookup_ipv4-cases m b family tail st room below apart = elim (Bool-cases (leb family 1)) [
    | inr other ↦
        let skip : ltb 1 family ≡ true = ground arith in
        inl (rw other refl, rw (lookup_ipv4, skip) refl)
    | inl wanted ↦
        let go : ltb 1 family ≡ false = ground arith in
        elim (resolve_host-cases is4 is6 as4 as16 lookup m host 4 1 frame name
          (cstr-Spells m host name st.short st.text)
          (λ a fits. omega (arith, (octets4 a fits).0, st.heap.arena.low))) [
            | inl (empty, answer) ↦ inl (rw wanted empty, rw (lookup_ipv4, go, answer) refl)
            | inr (a, fits, entry, m₁, answer, placed) ↦
                let (count, bytes) = octets4 a fits in
                let low : frame + length (as4 a) ≤ 65536 = omega arith in
                let (m₂, added, node) =
                  add_ipv4-Added m₁ b frame socktype tail (as4 a)
                    (Placed-IsHeap m m₁ frame b (as4 a) placed low bytes st.heap) st.static
                    (Placed-Cleared m m₁ frame b (as4 a) placed low (omega (arith, st.static))
                      st.cleared)
                    stack small below apart placed.at count room in
                inr (
                  as4 a,
                  rw wanted entry,
                  m₂,
                  rw (lookup_ipv4, go, answer) added,
                  record { start = m₁; placed = placed; added = node },
                  count,
                )
          ]
  ]

  -- A family other than IPv6 and both is skipped.
  only_ipv4 : (family : ℕ) → family ≤ 2 → (bit_and family (neg32 3) == 0) ≡ not (family == 1)
  only_ipv4 zero le = refl
  only_ipv4 (suc zero) le = refl
  only_ipv4 (suc (suc zero)) le = refl
  only_ipv4 (suc (suc (suc n))) le = absurd (omega arith)

  pub lookup_ipv6-cases :
      (m : Memory) (b family tail : ℕ)
      → family ≤ 2
      → IsStage m b host name
      → b + 64 ≤ 4294967296
      → tail + 4 ≤ b
      → Apart break_word 8 tail 4
      → (((if family == 1
              then []
              else first_entry is4 is6 as4 as16 6 2 (known is4 is6 as4 as16 lookup name))
            ≡ [])
          × (lookup_ipv6 is4 is6 as4 as16 lookup m host frame (family, socktype) tail ≡ some m))
        ⊎ ((octets : List ℕ) × ((if family == 1
                then []
                else first_entry is4 is6 as4 as16 6 2 (known is4 is6 as4 as16 lookup name))
              ≡ (2, octets) ∷ [])
            × (m' : Memory) × (lookup_ipv6 is4 is6 as4 as16 lookup m host frame
                  (family, socktype)
                  tail
                ≡ some m')
            × AddedFrom m m' b (b + 32 + 32) frame tail socktype 2 octets
            × (length octets ≡ 16))
  unfolding lookup_ipv6
  lookup_ipv6-cases m b family tail le st room below apart =
      let mask = only_ipv4 family le in
      elim (Bool-cases (family == 1)) [
        | inl other ↦ inl (rw other refl, rw (lookup_ipv6, mask, other) refl)
        | inr wanted ↦
            elim (resolve_host-cases is4 is6 as4 as16 lookup m host 6 2 frame name
              (cstr-Spells m host name st.short st.text)
              (λ a fits. omega (arith, (octets6 a fits).0, st.heap.arena.low))) [
                | inl (empty, answer) ↦
                    inl (rw wanted empty, rw (lookup_ipv6, mask, wanted, answer) refl)
                | inr (a, fits, entry, m₁, answer, placed) ↦
                    let (count, bytes) = octets6 a fits in
                    let low : frame + length (as16 a) ≤ 65536 = omega arith in
                    let (m₂, added, node) =
                      add_ipv6-Added m₁ b frame socktype tail (as16 a)
                        (Placed-IsHeap m m₁ frame b (as16 a) placed low bytes st.heap) st.static
                        (Placed-Cleared m m₁ frame b (as16 a) placed low (omega (arith, st.static))
                          st.cleared)
                        stack small below apart placed.at count room in
                    inr (
                      as16 a,
                      rw wanted entry,
                      m₂,
                      rw (lookup_ipv6, mask, wanted, answer) added,
                      record { start = m₁; placed = placed; added = node },
                      count,
                    )
              ]
      ]

-- What an added node leaves as it was: all but the stack frame, the link and the allocator's words.
module _ {m m' : Memory} {b e frame tail socktype family : ℕ} {octets : List ℕ}
    (a : AddedFrom m m' b e frame tail socktype family octets) where
  pub AddedFrom-same :
      (c : ℕ)
      → c < b
      → Apart c 1 frame (length octets)
      → Apart c 1 tail 4
      → Apart c 1 break_word 8
      → Apart c 1 last_word 4
      → m'.byte c ≡ m.byte c
  AddedFrom-same c lt away link g l = a.added.same c lt link g l ∙ a.placed.rest c away

  pub AddedFrom-size : m.size ≤ m'.size
  AddedFrom-size = omega (arith, a.placed.size, a.added.size)

  pub AddedFrom-IsStage :
      {host : ℕ} {name : List ℕ}
      → IsStage m b host name
      → b ≤ e
      → e + 65536 ≤ 4294967296
      → frame + length octets ≤ 65536
      → (tail + 4 ≤ 65536) ⊎ (b ≤ tail)
      → IsStage m' e host name
  AddedFrom-IsStage {host} {name} st le room low link = record {
    heap = a.added.heap;
    cleared = a.added.cleared;
    static = omega (arith, st.static);
    short = ground (arith, a.added.tight, a.placed.size, st.short);
    text =
        Spells-same m m' host name AddedFrom-size
          (λ c lo hi.
            AddedFrom-same c (omega (arith, st.below)) (inr (omega (arith, st.above)))
              (ground (arith, st.above, st.below)) (inr (omega (arith, st.above)))
              (inr (omega (arith, st.above))))
          st.text;
    above = st.above;
    below = omega (arith, st.below);
  }
