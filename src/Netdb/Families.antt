-- ===== src/Netdb/Families.antt =====
-- The node of an IPv4 and of an IPv6 address.
use go_pcapfilter.Prelude.{
  ℕ, zero, suc, ◌+◌, ◌-◌, ◌*◌, ◌/◌, ◌%◌, ◌^◌, ◌≤◌, ◌<◌, ◌≡◌, ◌⊎◌, inl, inr, List, [], ◌∷◌, some,
  length, arith, refl, ◌∙◌, ap, ltb, ltb→lt, Bool-cases, ◌==◌, false,
}
use go_pcapfilter.Wasm.Words.{IsU32, add32}
use go_pcapfilter.Wasm.Memory.{Memory, load64, put, cell_or, le32}
use go_pcapfilter.Wasm.Memory.Laws.{IsBytes, Apart, put_outside, put-IsBytes}
use go_pcapfilter.Wasm.Memory.Puts.{Stores, puts, puts-Last, load16-puts}
use go_pcapfilter.Heap.{break_word}
use go_pcapfilter.Heap.Arena.{IsHeap, Keeps, store32-put}
use go_pcapfilter.Heap.Fresh.{Cleared}
use go_pcapfilter.Machine.Stores.{load32-inside}
use go_pcapfilter.Netdb.{add_ipv4, add_ipv6}
use go_pcapfilter.Netdb.Nodes.{IsAddress, link_node-puts, node_stores}
use go_pcapfilter.Netdb.Added.{Added, added, both_blocks, store16-put, store64-put, le32_digit}

load64-inside :
    (m : Memory) (a : ℕ)
    → a + 8 ≤ m.size
    → load64 m a ≡ some (le32 m a + 4294967296 * le32 m (a + 4))
unfolding load64
load64-inside m a h = ground arith

le32_bound : (m : Memory) (a : ℕ) → IsBytes m → le32 m a < 4294967296
le32_bound m a w = omega (arith, w.bytes a, w.bytes (a + 1), w.bytes (a + 2), w.bytes (a + 3))

-- The low and the high half of eight digits.
low_digit : (lo hi i : ℕ) → i < 4 → (lo + 4294967296 * hi) / 256 ^ i % 256 ≡ lo / 256 ^ i % 256
low_digit lo hi zero lt = omega arith
low_digit lo hi (suc zero) lt = omega arith
low_digit lo hi (suc (suc zero)) lt = omega arith
low_digit lo hi (suc (suc (suc zero))) lt = omega arith
low_digit lo hi (suc (suc (suc (suc i)))) lt = absurd (omega arith)

high_digit :
    (lo hi k : ℕ)
    → lo < 4294967296
    → k < 4
    → (lo + 4294967296 * hi) / 256 ^ (4 + k) % 256 ≡ hi / 256 ^ k % 256
high_digit lo hi zero small lt = omega arith
high_digit lo hi (suc zero) small lt = omega arith
high_digit lo hi (suc (suc zero)) small lt = omega arith
high_digit lo hi (suc (suc (suc zero))) small lt = omega arith
high_digit lo hi (suc (suc (suc (suc k)))) small lt = absurd (omega arith)

le64_digit :
    (m : Memory) (a i : ℕ)
    → IsBytes m
    → i < 8
    → (le32 m a + 4294967296 * le32 m (a + 4)) / 256 ^ i % 256 ≡ m.byte (a + i)
le64_digit m a i w lt = elim (Bool-cases (ltb i 4)) [
  | inl first ↦
      low_digit (le32 m a) (le32 m (a + 4)) i (ltb→lt _ _ first)
      ∙ le32_digit m a i w (ltb→lt _ _ first)
  | inr second ↦
      let k : ℕ = i - 4 in
      let same : i ≡ 4 + k = ground arith in
      let at : a + 4 + k ≡ a + (4 + k) = omega arith in
      rw same (
        high_digit (le32 m a) (le32 m (a + 4)) k (le32_bound m a w) (omega arith)
        ∙ le32_digit m (a + 4) k w (omega arith)
        ∙ ap m.byte at)
]

-- Where a node can be linked from, the address can be read at `frame`, and two blocks fit.
module _ (m : Memory) (b frame socktype tail : ℕ) (octets : List ℕ) (h : IsHeap m b)
    (static : 127840 ≤ b) (clear : Cleared b m) (stack : frame + 16 ≤ 65536)
    (small : IsU32 socktype) (below : tail + 4 ≤ b) (apart : Apart break_word 8 tail 4)
    (read : (i : ℕ) → i < length octets → m.byte (frame + i) ≡ cell_or octets i 0) where
  -- The address is as it was when the blocks have been taken.
  on_stack :
      (m₂ : Memory) → Keeps b m m₂ → (i : ℕ) → i < 16 → m₂.byte (frame + i) ≡ m.byte (frame + i)
  on_stack m₂ keeps i lt =
      keeps.same (frame + i) (omega arith) (inl (omega arith)) (inl (omega arith))

  module _ (m₂ : Memory) (h₂ : IsHeap m₂ (b + 32 + 16)) (keeps : Keeps b m m₂) where
    abbrev word : ℕ
    word = le32 (put 2 m₂ (b + 32) 1) frame

    abbrev front4 : Stores
    front4 = (2, (b + 32, 1)) ∷ (4, (b + 32 + 4, word)) ∷ []

    address4 :
        length octets ≡ 4
        → IsAddress (puts m₂ (node_stores front4 b socktype 1 tail)) (b + 32) 1 octets
    address4 count = record {
      family_read =
          load16-puts m₂ (node_stores front4 b socktype 1 tail) (b + 32) 1
            (inl (refl, refl, refl, ground arith)) (omega arith) (omega (arith, h₂.inside));
      octets_at = λ i lt.
          puts-Last m₂ (node_stores front4 b socktype 1 tail) 4 (b + 32 + 4) word i
            (inr (inl (refl, refl, refl, ground arith))) (omega arith)
          ∙ le32_digit (put 2 m₂ (b + 32) 1) frame i (put-IsBytes 2 (b + 32) 1 h₂.arena.bytes)
              (omega arith)
          ∙ put_outside 2 m₂ (b + 32) 1 (frame + i) (inl (omega arith))
          ∙ on_stack m₂ keeps i (omega arith)
          ∙ read i lt;
    }

  pub add_ipv4-Added :
      length octets ≡ 4
      → b + 48 ≤ 4294967296
      → (m' : Memory) × (add_ipv4 m frame socktype tail ≡ some (m', b + 28))
        × Added m m' b (b + 32 + 16) tail socktype 1 octets
  unfolding add_ipv4 puts
  add_ipv4-Added count room =
      let (m₁, m₂, first, second, h₂, keeps, clear₂, tight) =
        both_blocks m b 16 h static clear (omega arith) refl (omega arith) (omega arith) in
      let real : (b == 0) ≡ false = ground arith in
      let real' : (b + 32 == 0) ≡ false = ground arith in
      let next : add32 b 28 ≡ b + 28 = omega arith in
      let m₃ : Memory = put 2 m₂ (b + 32) 1 in
      let w : ℕ = le32 m₃ frame in
      let m₄ : Memory = put 4 m₃ (b + 32 + 4) w in
      let size : b + 48 ≤ m₂.size = omega (arith, h₂.inside) in
      let s₁ = store16-put m₂ (b + 32) 1 (omega arith) in
      let s₂ = load32-inside m₃ frame (omega (arith, h₂.arena.low)) in
      let s₃ = store32-put m₃ (b + 32 + 4) w (omega arith) in
      let s₄ = link_node-puts m₄ b (b + 32) 16 socktype 1 tail (omega arith) (omega arith) in
      (
        puts m₂ (node_stores ((2, (b + 32, 1)) ∷ (4, (b + 32 + 4, w)) ∷ []) b socktype 1 tail),
        rw (add_ipv4, first, second, real, real', s₁, s₂, s₃, s₄, next) refl,
        added m m₂ ((2, (b + 32, 1)) ∷ (4, (b + 32 + 4, w)) ∷ []) b tail socktype 1 octets h₂ keeps
            clear₂ tight static small (inl refl) (ground arith) below apart
            (address4 m₂ h₂ keeps count),
      )

  module _ (m₂ : Memory) (h₂ : IsHeap m₂ (b + 32 + 32)) (keeps : Keeps b m m₂) where
    abbrev low : ℕ
    low = le32 m₂ frame + 4294967296 * le32 m₂ (frame + 4)

    abbrev high : ℕ
    high =
        let m₃ : Memory = put 8 m₂ (b + 32 + 8) low in
        le32 m₃ (frame + 8) + 4294967296 * le32 m₃ (frame + 8 + 4)

    abbrev front6 : Stores
    front6 = (8, (b + 32 + 8, low)) ∷ (8, (b + 32 + 16, high)) ∷ (2, (b + 32, 2)) ∷ []

    low_at : (i : ℕ) → i < 8 → low / 256 ^ i % 256 ≡ m.byte (frame + i)
    low_at i lt = le64_digit m₂ frame i h₂.arena.bytes lt ∙ on_stack m₂ keeps i (omega arith)

    high_at : (i : ℕ) → i < 8 → high / 256 ^ i % 256 ≡ m.byte (frame + (8 + i))
    high_at i lt =
        let at : frame + 8 + i ≡ frame + (8 + i) = omega arith in
        le64_digit (put 8 m₂ (b + 32 + 8) low) (frame + 8) i
          (put-IsBytes 8 (b + 32 + 8) low h₂.arena.bytes) lt
        ∙ put_outside 8 m₂ (b + 32 + 8) low (frame + 8 + i) (inl (omega arith))
        ∙ ap m₂.byte at
        ∙ on_stack m₂ keeps (8 + i) (omega arith)

    half :
        length octets ≡ 16
        → (i : ℕ) → i < length octets
        → (i < 8) ⊎ ((k : ℕ) × (i ≡ 8 + k) × (k < 8))
    half count i lt = elim (Bool-cases (ltb i 8)) [
      | inl first ↦ inl (ltb→lt _ _ first)
      | inr second ↦ inr (i - 8, ground arith, ground arith)
    ]

    address6 :
        length octets ≡ 16
        → IsAddress (puts m₂ (node_stores front6 b socktype 2 tail)) (b + 32) 2 octets
    address6 count = record {
      family_read =
          load16-puts m₂ (node_stores front6 b socktype 2 tail) (b + 32) 2
            (inr (inr (inl (refl, refl, refl, ground arith)))) (omega arith)
            (omega (arith, h₂.inside));
      octets_at = λ i lt. elim (half count i lt) [
        | inl first ↦
            puts-Last m₂ (node_stores front6 b socktype 2 tail) 8 (b + 32 + 8) low i
              (inl (refl, refl, refl, ground arith)) first
            ∙ low_at i first
            ∙ read i lt
        | inr (k, same, second) ↦
            let at : b + 32 + 8 + i ≡ b + 32 + 16 + k = omega arith in
            rw at (
              puts-Last m₂ (node_stores front6 b socktype 2 tail) 8 (b + 32 + 16) high k
                (inr (inl (refl, refl, refl, ground arith))) second)
            ∙ high_at k second
            ∙ rw (← same) (read i lt)
      ];
    }

  pub add_ipv6-Added :
      length octets ≡ 16
      → b + 64 ≤ 4294967296
      → (m' : Memory) × (add_ipv6 m frame socktype tail ≡ some m')
        × Added m m' b (b + 32 + 32) tail socktype 2 octets
  unfolding add_ipv6 puts
  add_ipv6-Added count room =
      let (m₁, m₂, first, second, h₂, keeps, clear₂, tight) =
        both_blocks m b 32 h static clear (omega arith) refl (omega arith) (omega arith) in
      let real : (b == 0) ≡ false = ground arith in
      let real' : (b + 32 == 0) ≡ false = ground arith in
      let w : ℕ = low m₂ h₂ keeps in
      let m₃ : Memory = put 8 m₂ (b + 32 + 8) w in
      let v : ℕ = high m₂ h₂ keeps in
      let m₄ : Memory = put 8 m₃ (b + 32 + 16) v in
      let m₅ : Memory = put 2 m₄ (b + 32) 2 in
      let size : b + 64 ≤ m₂.size = omega (arith, h₂.inside) in
      let s₁ = load64-inside m₂ frame (omega (arith, h₂.arena.low)) in
      let s₂ = store64-put m₂ (b + 32 + 8) w (omega arith) in
      let s₃ = load64-inside m₃ (frame + 8) (omega (arith, h₂.arena.low)) in
      let s₄ = store64-put m₃ (b + 32 + 16) v (omega arith) in
      let s₅ = store16-put m₄ (b + 32) 2 (omega arith) in
      let s₆ = link_node-puts m₅ b (b + 32) 32 socktype 2 tail (omega arith) (omega arith) in
      (
        puts m₂ (node_stores (front6 m₂ h₂ keeps) b socktype 2 tail),
        rw (add_ipv6, first, second, real, real', s₁, s₂, s₃, s₄, s₅, s₆) refl,
        added m m₂ (front6 m₂ h₂ keeps) b tail socktype 2 octets h₂ keeps clear₂ tight static small
            (inr refl) (ground arith) below apart (address6 m₂ h₂ keeps count),
      )
