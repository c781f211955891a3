-- ===== src/Dummy/Handle.antt =====
-- A handle that is opened.
use go_pcapfilter.Prelude.{
  ℕ, ◌+◌, ◌≤◌, ◌<◌, ◌≡◌, ◌⊎◌, inl, inr, ◌==◌, false, List, [], ◌∷◌, some, All, refl, arith, ◌∙◌, ap,
  Option-cases, subst,
}
use go_pcapfilter.Wasm.Words.{IsU32}
use go_pcapfilter.Wasm.Memory.{Memory, load32, store32, put}
use go_pcapfilter.Wasm.Memory.Laws.{Apart, put_outside, load32-store32, load32-store32-Apart}
use go_pcapfilter.Heap.Arena.{IsHeap, IsHeap-put, Keeps, store32-put}
use go_pcapfilter.Heap.Malloc.{malloc-IsHeap}
use go_pcapfilter.Heap.Calloc.{calloc}
use go_pcapfilter.Dummy.{store_fields, handle_fields, open_dummy, snapshot, datalink}

-- Stores inside the block at `p`, which keep what lies below it.
store_fields-kept :
    (m : Memory) (p e : ℕ) (fields : List (ℕ × ℕ))
    → IsHeap m e
    → 127840 ≤ p
    → p + 512 ≤ e
    → All (λ f. f.0 + 4 ≤ 512) fields
    → (m' : Memory) × (store_fields m p fields ≡ some m')
      × IsHeap m' e
      × (m'.size ≡ m.size)
      × ((a : ℕ) → a < p → m'.byte a ≡ m.byte a)
unfolding store_fields
store_fields-kept m p e [] h lo hi ok = (m, refl, h, refl, λ a lt. refl)
store_fields-kept m p e ((offset, v) ∷ fields) h lo hi (fits, ok) =
    let m₁ = put 4 m (p + offset) v in
    let first = store32-put m (p + offset) v (omega (arith, h.inside)) in
    let (m', rest, h', size, same) =
      store_fields-kept m₁ p e fields (IsHeap-put 4 m e (p + offset) v (inl (omega arith)) h) lo hi
        ok in
    (
      m',
      rw (store_fields, first) rest,
      h',
      size,
      λ a lt. same a lt ∙ put_outside 4 m (p + offset) v a (inl (omega arith)),
    )

-- The last store at an offset, with those after it clear of it.
abbrev HoldsLast : ℕ → ℕ → List (ℕ × ℕ) → Type 0
HoldsLast o v [] = ⊥
HoldsLast o v ((offset, w) ∷ fields) =
    ((offset ≡ o) × (w ≡ v) × All (λ f. Apart o 4 f.0 4) fields) ⊎ HoldsLast o v fields

-- What follows the first of the stores.
store_fields-after :
    (m m' : Memory) (p offset v : ℕ) (fields : List (ℕ × ℕ))
    → store_fields m p ((offset, v) ∷ fields) ≡ some m'
    → (m₁ : Memory) × (store32 m (p + offset) v ≡ some m₁) × (store_fields m₁ p fields ≡ some m')
unfolding store_fields
store_fields-after m m' p offset v fields e = elim (Option-cases (store32 m (p + offset) v)) [
  | inl fails ↦ cc (rw (store_fields, fails) at e)
  | inr (m₁, first) ↦ (m₁, first, rw (store_fields, first) at e)
]

store_fields-Apart :
    (m m' : Memory) (p o : ℕ) (fields : List (ℕ × ℕ))
    → All (λ f. Apart o 4 f.0 4) fields
    → store_fields m p fields ≡ some m'
    → load32 m' (p + o) ≡ load32 m (p + o)
unfolding store_fields
store_fields-Apart m m' p o [] apart e = cc
store_fields-Apart m m' p o ((offset, v) ∷ fields) (clear, apart) e =
    let (m₁, first, rest) = store_fields-after m m' p offset v fields e in
    store_fields-Apart m₁ m' p o fields apart rest
    ∙ load32-store32-Apart m m₁ (p + offset) v (p + o) (ground arith) first

store_fields-reads :
    (m m' : Memory) (p o v : ℕ) (fields : List (ℕ × ℕ))
    → IsU32 v
    → HoldsLast o v fields
    → store_fields m p fields ≡ some m'
    → load32 m' (p + o) ≡ some v
store_fields-reads m m' p o v [] small last e = absurd last
store_fields-reads m m' p o v ((offset, w) ∷ fields) small (inl (at, value, apart)) e =
    let (m₁, first, rest) = store_fields-after m m' p offset w fields e in
    store_fields-Apart m₁ m' p o fields apart rest
    ∙ (subst (λ a. load32 m₁ (p + a) ≡ some w) at
          (load32-store32 m m₁ (p + offset) w (rw value small) first).0
        ∙ ap some value)
store_fields-reads m m' p o v ((offset, w) ∷ fields) small (inr later) e =
    let (m₁, first, rest) = store_fields-after m m' p offset w fields e in
    store_fields-reads m₁ m' p o v fields small later rest

-- A memory without 512 bytes up to the end of the address space, or the handle at `b`, with the
-- stores that made it.
pub open_dummy-IsHeap :
    (m : Memory) (b link_type snaplen : ℕ)
    → IsHeap m b
    → 127840 ≤ b
    → ((open_dummy m link_type snaplen ≡ some (m, 0)) × (4294967296 < b + 512))
      ⊎ ((m₁ m' : Memory) × (store_fields m₁ b (handle_fields link_type snaplen) ≡ some m')
          × (open_dummy m link_type snaplen ≡ some (m', b))
          × IsHeap m' (b + 512)
          × Keeps b m m')
unfolding open_dummy handle_fields calloc
open_dummy-IsHeap m b link_type snaplen h static =
    elim (malloc-IsHeap m b 512 h (omega arith) (omega arith)) [
      | inl (null, full) ↦ inl (rw (open_dummy, calloc, null) refl, full)
      | inr (m₁, alloc, h₁, keeps) ↦
          let real : (b == 0) ≡ false = ground arith in
          let (m₂, stores, h₂, size, same) =
            store_fields-kept m₁ b (b + 512) (handle_fields link_type snaplen) h₁ static
              (omega arith) (ground arith) in
          inr (
            m₁,
            m₂,
            stores,
            rw (open_dummy, calloc, alloc, real, stores) refl,
            h₂,
            record {
              size = omega (arith, keeps.size);
              same = λ a lt g l. same a lt ∙ keeps.same a lt g l;
            },
          )
    ]

-- On a well-formed heap past the static data, a handle is opened at the end of the heap, unless
-- 512 bytes more would pass the end of the address space: then the handle is null and nothing has
-- changed. An open handle gives back the link type and the snapshot length that it was opened with,
-- which are 32-bit numbers; the heap ends 512 bytes further, and what lies below is kept.
pub open_dummy-fields :
    (m : Memory) (b link_type snaplen : ℕ)
    → IsHeap m b
    → 127840 ≤ b
    → IsU32 link_type
    → IsU32 snaplen
    → ((open_dummy m link_type snaplen ≡ some (m, 0)) × (4294967296 < b + 512))
      ⊎ ((m' : Memory) × (open_dummy m link_type snaplen ≡ some (m', b))
          × IsHeap m' (b + 512)
          × Keeps b m m'
          × (datalink m' b ≡ some link_type)
          × (snapshot m' b ≡ some snaplen))
unfolding handle_fields datalink snapshot
open_dummy-fields m b link_type snaplen h static link_small snaplen_small =
    elim (open_dummy-IsHeap m b link_type snaplen h static) [
      | inl null ↦ inl null
      | inr (m₁, m₂, stores, opened, h₂, keeps) ↦
          let fields : List (ℕ × ℕ) = handle_fields link_type snaplen in
          let reads : (o v : ℕ) → IsU32 v → HoldsLast o v fields → load32 m₂ (b + o) ≡ some v =
            λ o v small last. store_fields-reads m₁ m₂ b o v fields small last stores in
          inr (
            m₂,
            opened,
            h₂,
            keeps,
            reads 64 link_type link_small (inr (inr (inl (refl, refl, ground arith)))),
            rw
                (reads 76 1 (omega arith) (
                  inr (
                    inr (
                      inr (
                        inr (
                          inr (
                            inr (
                              inr (
                                inr (
                                  inr (
                                    inr (
                                      inr (
                                        inr (
                                          inr (
                                            inr
                                              (inr (inl (refl, refl, ground arith))))))))))))))))))
                (reads 60 snaplen snaplen_small (inr (inr (inr (inl (refl, refl, ground arith)))))),
          )
    ]
