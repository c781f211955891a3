-- ===== src/Netdb/Release.antt =====
-- A list that is given back.
use go_pcapfilter.Prelude.{
  ℕ, zero, suc, ◌+◌, ◌%◌, ◌≤◌, ◌<◌, ◌≡◌, ◌≢◌, ◌⊎◌, inl, inr, List, [], ◌∷◌, some, length, arith,
  refl, ap, ◌∙◌, ◌==◌, true, false, Bool-cases,
}
use go_pcapfilter.Wasm.Memory.{Memory, load32, put}
use go_pcapfilter.Wasm.Memory.Laws.{put_outside, load32-put_self}
use go_pcapfilter.Heap.{break_word, last_word, free}
use go_pcapfilter.Heap.Arena.{IsHeap, Keeps, store32-put}
use go_pcapfilter.Heap.Free.{released, released-IsHeap, released-Keeps}
use go_pcapfilter.Netdb.{freeaddrinfo}
use go_pcapfilter.Netdb.Nodes.{IsList}
use go_pcapfilter.Netdb.Linked.{load32-same}

-- The nodes from `p` on are at these addresses, in the order of the links, and each is followed by
-- its socket address.
abbrev pub IsNodes : Memory → ℕ → List ℕ → Type 0
IsNodes m p [] = p ≡ 0
IsNodes m p (q ∷ nodes) =
    (q ≡ p)
    × (127840 ≤ p)
    × (load32 m (p + 20) ≡ some (p + 32))
    × ((next : ℕ) × (load32 m (p + 28) ≡ some next) × IsNodes m next nodes)

-- A block is one of these nodes, or the socket address of one.
abbrev pub InNodes : ℕ → List ℕ → Type 0
InNodes block [] = ⊥
InNodes block (q ∷ nodes) = (block ≡ q + 32) ⊎ ((block ≡ q) ⊎ InNodes block nodes)

IsList-IsNodes :
    (m : Memory) (socktype p : ℕ) (found : List (ℕ × List ℕ))
    → IsList m socktype p found
    → (nodes : List ℕ) × IsNodes m p nodes × (length nodes ≡ length found)
IsList-IsNodes m socktype p [] null = ([], null, refl)
IsList-IsNodes m socktype p ((family, octets) ∷ found) (low, next, node, rest) =
    let (nodes, linked, count) = IsList-IsNodes m socktype next found rest in
    (p ∷ nodes, (refl, low, node.address_read, (next, node.next_read, linked)), ap suc count)

InNodes-above :
    (m : Memory) (p block : ℕ) (nodes : List ℕ)
    → IsNodes m p nodes
    → InNodes block nodes
    → 127840 ≤ block
InNodes-above m p block [] linked at = absurd at
InNodes-above m p block (q ∷ nodes) (same, low, address, linked) (inl e) = omega arith
InNodes-above m p block (q ∷ nodes) (same, low, address, linked) (inr (inl e)) = omega arith
InNodes-above m p block (q ∷ nodes) (same, low, address, (next, to, linked)) (inr (inr later)) =
    InNodes-above m next block nodes linked later

released-same : (m : Memory) (block a : ℕ) → 127528 ≤ a → (released m block).byte a ≡ m.byte a
released-same m block a le =
    put_outside 4 (put 4 m break_word block) last_word 0 a (inr (omega arith))
    ∙ put_outside 4 m break_word block a (inr (omega arith))

released-IsNodes :
    (m : Memory) (block p : ℕ) (nodes : List ℕ)
    → IsNodes m p nodes
    → IsNodes (released m block) p nodes
released-IsNodes m block p [] null = null
released-IsNodes m block p (q ∷ nodes) (same, low, address, (next, to, linked)) = (
  same,
  low,
  load32-same m (released m block) _ _ (omega arith)
      (λ c lo hi. released-same m block c (omega arith)) address,
  (
    next,
    load32-same m (released m block) _ _ (omega arith)
        (λ c lo hi. released-same m block c (omega arith)) to,
    released-IsNodes m block next nodes linked,
  ),
)

released-last :
    (m : Memory) (block : ℕ) → 131072 ≤ m.size → load32 (released m block) last_word ≡ some 0
released-last m block low =
    load32-put_self (put 4 m break_word block) last_word 0 (omega arith) (omega arith)

free-last :
    (m : Memory) (p last : ℕ)
    → 131072 ≤ m.size
    → load32 m last_word ≡ some last
    → 0 < p
    → last ≡ p
    → free m p ≡ some (released m p)
unfolding free
free-last m p last low read pos same =
    let real : (p == 0) ≡ false = ground arith in
    let at : (p == last) ≡ true = ground arith in
    let first = store32-put m break_word p (omega arith) in
    let second = store32-put (put 4 m break_word p) last_word 0 (omega arith) in
    rw (free, real, read, at, first, second) refl

free-other :
    (m : Memory) (p last : ℕ)
    → load32 m last_word ≡ some last
    → 0 < p
    → last ≢ p
    → free m p ≡ some m
unfolding free
free-other m p last read pos other =
    let real : (p == 0) ≡ false = ground arith in
    let at : (p == last) ≡ false = ground arith in rw (free, real, read, at) refl

-- One round.
freeaddrinfo-round :
    (fuel : ℕ) (m m₁ m₂ : Memory) (p next address : ℕ)
    → 0 < p
    → load32 m (p + 28) ≡ some next
    → load32 m (p + 20) ≡ some address
    → free m address ≡ some m₁
    → free m₁ p ≡ some m₂
    → freeaddrinfo (suc fuel) m p ≡ freeaddrinfo fuel m₂ next
unfolding freeaddrinfo
freeaddrinfo-round fuel m m₁ m₂ p next address pos to at first second =
    let real : (p == 0) ≡ false = ground arith in
    rw (freeaddrinfo, real, to, at, first, second) refl

freeaddrinfo-null : (fuel : ℕ) (m : Memory) → freeaddrinfo (suc fuel) m 0 ≡ some m
unfolding freeaddrinfo
freeaddrinfo-null fuel m = refl

-- Nothing is given back where the last block is not of the list.
freeaddrinfo-quiet :
    (fuel : ℕ) (m : Memory) (p last : ℕ) (nodes : List ℕ)
    → length nodes < fuel
    → load32 m last_word ≡ some last
    → IsNodes m p nodes
    → (InNodes last nodes → ⊥)
    → freeaddrinfo fuel m p ≡ some m
freeaddrinfo-quiet zero m p last nodes lt read linked other = absurd (omega arith)
freeaddrinfo-quiet (suc fuel) m p last [] lt read null other = rw null (freeaddrinfo-null fuel m)
freeaddrinfo-quiet (suc fuel) m p last (q ∷ nodes) lt read (same, low, address, (next, to, linked))
      other =
    let first = free-other m (p + 32) last read (omega arith) (λ e. other (inl (omega arith))) in
    let second = free-other m p last read (omega arith) (λ e. other (inr (inl (omega arith)))) in
    freeaddrinfo-round fuel m m m p next (p + 32) (omega arith) to address first second
    ∙ freeaddrinfo-quiet fuel m next last nodes (omega arith) read linked
        (λ later. other (inr (inr later)))

-- After the last block is given back, no other is.
freeaddrinfo-rest :
    (fuel : ℕ) (m : Memory) (p block : ℕ) (nodes : List ℕ)
    → length nodes < fuel
    → 131072 ≤ m.size
    → IsNodes m p nodes
    → freeaddrinfo fuel (released m block) p ≡ some (released m block)
freeaddrinfo-rest fuel m p block nodes lt low linked =
    let kept = released-IsNodes m block p nodes linked in
    freeaddrinfo-quiet fuel (released m block) p 0 nodes lt (released-last m block low) kept
      (λ at. absurd (omega (arith, InNodes-above (released m block) p 0 nodes kept at)))

freeaddrinfo-released :
    (fuel : ℕ) (m : Memory) (p last : ℕ) (nodes : List ℕ)
    → length nodes < fuel
    → 131072 ≤ m.size
    → load32 m last_word ≡ some last
    → IsNodes m p nodes
    → InNodes last nodes
    → freeaddrinfo fuel m p ≡ some (released m last)
freeaddrinfo-released zero m p last nodes lt low read linked at = absurd (omega arith)
freeaddrinfo-released (suc fuel) m p last [] lt low read null at = absurd at
freeaddrinfo-released (suc fuel) m p last (q ∷ nodes) lt low read
      (same, above, address, (next, to, linked)) at =
    elim (Bool-cases (last == p + 32)) [
      | inl here ↦
          let e : last ≡ p + 32 = ground arith in
          let first = free-last m (p + 32) last low read (omega arith) e in
          let second =
            free-other (released m (p + 32)) p 0 (released-last m (p + 32) low) (omega arith)
              (omega arith) in
          rw e (
            freeaddrinfo-round fuel m (released m (p + 32)) (released m (p + 32)) p next (p + 32)
              (omega arith) to address first second
            ∙ freeaddrinfo-rest fuel m next (p + 32) nodes (omega arith) low linked)
      | inr apart ↦
          let first = free-other m (p + 32) last read (omega arith) (ground arith) in
          elim (Bool-cases (last == p)) [
            | inl here ↦
                let e : last ≡ p = ground arith in
                let second = free-last m p last low read (omega arith) e in
                rw e (
                  freeaddrinfo-round fuel m m (released m p) p next (p + 32) (omega arith) to
                    address first second
                  ∙ freeaddrinfo-rest fuel m next p nodes (omega arith) low linked)
            | inr other ↦
                let second = free-other m p last read (omega arith) (ground arith) in
                let later : InNodes last nodes = elim at [
                  | inl e ↦ absurd (ground arith)
                  | inr (inl e) ↦ absurd (ground arith)
                  | inr (inr rest) ↦ rest
                ] in
                freeaddrinfo-round fuel m m m p next (p + 32) (omega arith) to address first second
                ∙ freeaddrinfo-released fuel m next last nodes (omega arith) low read linked later
          ]
    ]

InNodes-cases : (block : ℕ) (nodes : List ℕ) → InNodes block nodes ⊎ (InNodes block nodes → ⊥)
InNodes-cases block [] = inr (λ at. at)
InNodes-cases block (q ∷ nodes) = elim (Bool-cases (block == q + 32)) [
  | inl address ↦ inl (inl (ground arith))
  | inr no_address ↦ elim (Bool-cases (block == q)) [
    | inl node ↦ inl (inr (inl (ground arith)))
    | inr no_node ↦ elim (InNodes-cases block nodes) [
      | inl later ↦ inl (inr (inr later))
      | inr none_later ↦ inr (λ at. elim at [
        | inl e ↦ absurd (ground arith)
        | inr (inl e) ↦ absurd (ground arith)
        | inr (inr later) ↦ none_later later
      ])
    ]
  ]
]

-- On a well-formed heap whose last block is aligned and inside of it, the loop of `_freeaddrinfo`
-- on a list of addresses, of one node for each address, ends in one round more than the list has
-- nodes, without a Go panic. If the last block is one of the nodes or of their socket addresses,
-- that block is given back: the heap ends at its start, and every byte below it is kept but the
-- allocator's. If not, nothing changes.
pub freeaddrinfo-IsHeap :
    (m : Memory) (b socktype p last : ℕ) (found : List (ℕ × List ℕ))
    → IsHeap m b
    → load32 m last_word ≡ some last
    → last % 16 ≡ 0
    → last < b
    → IsList m socktype p found
    → (nodes : List ℕ) × IsNodes m p nodes
      × (length nodes ≡ length found)
      × ((InNodes last nodes
            × ((m' : Memory) × (freeaddrinfo (length found + 1) m p ≡ some m')
                × (m'.size ≡ m.size)
                × IsHeap m' last
                × Keeps last m m'))
          ⊎ ((InNodes last nodes → ⊥) × (freeaddrinfo (length found + 1) m p ≡ some m)))
freeaddrinfo-IsHeap m b socktype p last found h read aligned inside list =
    let (nodes, linked, count) = IsList-IsNodes m socktype p found list in
    let fuel : length nodes < length found + 1 = omega arith in
    (
      nodes,
      linked,
      count,
      elim (InNodes-cases last nodes) [
        | inl at ↦
            let above = InNodes-above m p last nodes linked at in
            inl (
              at,
              (
                released m last,
                freeaddrinfo-released (length found + 1) m p last nodes fuel h.arena.low read linked
                    at,
                refl,
                released-IsHeap m last h.arena aligned (omega arith) (omega (arith, h.inside))
                    (omega (arith, h.inside, h.arena.high)),
                released-Keeps m last,
              ),
            )
        | inr none_at ↦
            inr (
              none_at,
              freeaddrinfo-quiet (length found + 1) m p last nodes fuel read linked none_at,
            )
      ],
    )
