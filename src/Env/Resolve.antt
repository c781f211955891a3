-- ===== src/Env/Resolve.antt =====
-- What the module is told of a host: the first address of the family that it asks for.
use go_pcapfilter.Prelude.{
  ℕ, ◌+◌, ◌-◌, ◌≤◌, ◌<◌, ◌≡◌, ◌⊎◌, inl, inr, Bool, true, false, ◌&&◌, ◌||◌, List, [], ◌∷◌, ◌++◌,
  Option, none, some, length, All, arith, refl, ◌==◌, if◌then◌else◌, leb, ◌≢◌, Bool-cases, ==_iff,
}
use go_pcapfilter.Wasm.Words.{neg32}
use go_pcapfilter.Wasm.Memory.{Memory, copy_in, cell_or}
use go_pcapfilter.Wasm.Memory.Laws.{Apart}
use go_pcapfilter.Env.{cstr, copy_at, first_address, resolve_host, ether_hostton}

-- `src` stands at `p`, and the rest of the memory is as before.
pub record Placed (m m' : Memory) (p : ℕ) (src : List ℕ) : Type 0 where
  pub size : m'.size ≡ m.size
  pub at : (i : ℕ) → i < length src → m'.byte (p + i) ≡ cell_or src i 0
  pub rest : (a : ℕ) → Apart a 1 p (length src) → m'.byte a ≡ m.byte a

copy_at-Placed :
    (m : Memory) (p : ℕ) (src : List ℕ)
    → p + length src ≤ m.size
    → (m' : Memory) × (copy_at m p src ≡ some m') × Placed m m' p src
unfolding copy_at copy_in
copy_at-Placed m p src fits =
    let inside : leb p m.size ≡ true = ground arith in
    (
      (copy_in m p src).0,
      rw inside refl,
      record {
        size = refl;
        at = λ i lt. let e : p + i - p ≡ i = omega arith in rw e (ground arith);
        rest = λ a h. ground arith;
      },
    )

module _ {A : Type 0} (is4 is6 : A → Bool) (as4 as16 : A → List ℕ) where
  abbrev pub suits : ℕ → A → Bool
  suits family addr = (family == 4 && is4 addr) || (family == 6 && is6 addr)

  abbrev pub octets : ℕ → A → List ℕ
  octets family addr = if family == 4 then as4 addr else as16 addr

  abbrev pub Unsuited : ℕ → List A → Type 0
  Unsuited family addrs = All (λ addr. suits family addr ≡ false) addrs

  first_address-Unsuited :
      (m : Memory) (family out : ℕ) (addrs : List A)
      → Unsuited family addrs
      → first_address is4 is6 as4 as16 m family out addrs ≡ some (m, neg32 1)
  unfolding first_address
  first_address-Unsuited m family out [] h = refl
  first_address-Unsuited m family out (addr ∷ addrs) (skip, h) =
      ground (arith, first_address-Unsuited m family out addrs h)

  first_address-here :
      (m m' : Memory) (family out : ℕ) (before after : List A) (addr : A)
      → Unsuited family before
      → suits family addr ≡ true
      → copy_at m out (octets family addr) ≡ some m'
      → first_address is4 is6 as4 as16 m family out (before ++ addr ∷ after) ≡ some (m', 0)
  unfolding first_address
  first_address-here m m' family out [] after addr h fit copied = ground arith
  first_address-here m m' family out (b ∷ before) after addr (skip, h) fit copied =
      ground (arith, first_address-here m m' family out before after addr h fit copied)

  -- A name that resolves is answered with the bytes of its first address of the asked family, and
  -- 0: if the bytes fit, they are put at `out`, and the rest of the memory stays.
  pub resolve_host-first :
      (lookup : List ℕ → Option (List A)) (m : Memory) (hostname family out : ℕ) (name : List ℕ)
      (before after : List A) (addr : A)
      → cstr m hostname ≡ some name
      → lookup name ≡ some (before ++ addr ∷ after)
      → Unsuited family before
      → suits family addr ≡ true
      → out + length (octets family addr) ≤ m.size
      → (m' : Memory) × (resolve_host is4 is6 as4 as16 (some lookup) m hostname family out
          ≡ some (m', 0))
        × Placed m m' out (octets family addr)
  unfolding resolve_host
  resolve_host-first lookup m hostname family out name before after addr read found h fit room =
      let (m', copied, placed) = copy_at-Placed m out (octets family addr) room in
      (
        m',
        opened before found (first_address-here m m' family out before after addr h fit copied),
        placed,
      )
    where
      opened :
          {m' : Memory} (before : List A)
          → lookup name ≡ some (before ++ addr ∷ after)
          → first_address is4 is6 as4 as16 m family out (before ++ addr ∷ after) ≡ some (m', 0)
          → resolve_host is4 is6 as4 as16 (some lookup) m hostname family out ≡ some (m', 0)
      opened [] found answer = rw (resolve_host, read, found) answer
      opened (b ∷ before) found answer = rw (resolve_host, read, found) answer

  -- Without a lookup function, with one that fails, and with one that finds no address of the asked
  -- family, the answer to a name that can be read is -1, and the memory stays as it was.
  pub resolve_host-none :
      (lookup : Option (List ℕ → Option (List A))) (m : Memory) (hostname family out : ℕ)
      (name : List ℕ)
      → cstr m hostname ≡ some name
      → ((f : List ℕ → Option (List A))
          → lookup ≡ some f
          → (f name ≡ none) ⊎ ((addrs : List A) × (f name ≡ some addrs) × Unsuited family addrs))
      → resolve_host is4 is6 as4 as16 lookup m hostname family out ≡ some (m, neg32 1)
  unfolding resolve_host
  resolve_host-none none m hostname family out name read h = refl
  resolve_host-none (some f) m hostname family out name read h = elim (h f refl) [
    | inl failed ↦ rw (read, failed) refl
    | inr ([], found, _) ↦ rw (read, found) refl
    | inr (addr ∷ addrs, found, unsuited) ↦
        rw (read, found) (first_address-Unsuited m family out (addr ∷ addrs) unsuited)
  ]

-- The hardware address of a host is written only if it has six bytes.
pub ether_hostton-six :
    (ethers : List ℕ → Option (List ℕ)) (m : Memory) (host out : ℕ) (name mac : List ℕ)
    → cstr m host ≡ some name
    → ethers name ≡ some mac
    → out + 6 ≤ m.size
    → ((length mac ≡ 6)
        × (m' : Memory) × (ether_hostton (some ethers) m host out ≡ some (m', 0))
        × Placed m m' out mac)
      ⊎ ((length mac ≢ 6) × (ether_hostton (some ethers) m host out ≡ some (m, neg32 1)))
unfolding ether_hostton
ether_hostton-six ethers m host out name mac read found room = elim (Bool-cases (length mac == 6)) [
  | inl six ↦
      let count : length mac ≡ 6 = (==_iff _ _).0 six in
      let (m', copied, placed) = copy_at-Placed m out mac (omega arith) in
      inl (count, m', rw (ether_hostton, read, found, six, copied) refl, placed)
  | inr other ↦ inr (ground arith, rw (ether_hostton, read, found, other) refl)
]
