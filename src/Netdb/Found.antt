-- ===== src/Netdb/Found.antt =====
-- The addresses that a lookup is answered with.
use go_pcapfilter.Prelude.{
  ℕ, ◌+◌, ◌≤◌, ◌<◌, ◌≡◌, ◌⊎◌, inl, inr, Bool, true, List, [], ◌∷◌, ◌++◌, Option, some, none, length,
  All, refl, ◌∙◌, ap, ◌==◌, leb, if◌then◌else◌, Bool-cases, Option-cases,
}
use go_pcapfilter.Wasm.Words.{neg32}
use go_pcapfilter.Wasm.Memory.{Memory}
use go_pcapfilter.Env.{cstr, resolve_host}
use go_pcapfilter.Env.Resolve.{
  Placed, suits, octets, Unsuited, resolve_host-first, resolve_host-none,
}

-- `n` bytes.
abbrev pub IsOctets : ℕ → List ℕ → Type 0
IsOctets n s = (length s ≡ n) × All (λ c. c < 256) s

answer_same :
    {A : Type 0} (f g : List ℕ → Option (List A)) (name : List ℕ)
    → some f ≡ some g
    → g name ≡ f name
answer_same f g name e = let same : g ≡ f = cc in ap (λ h. h name) same

module _ {A : Type 0} (is4 is6 : A → Bool) (as4 as16 : A → List ℕ) where
  -- As net/netip documents it: an IPv4 address has four bytes, and an IPv6 address sixteen.
  pub record IsNetip : Type 0 where
    pub four : (a : A) → is4 a ≡ true → IsOctets 4 (as4 a)
    pub sixteen : (a : A) → is6 a ≡ true → IsOctets 16 (as16 a)

  -- The addresses of a name; none without a lookup function, or with one that fails.
  abbrev pub known : Option (List ℕ → Option (List A)) → List ℕ → List A
  known none name = []
  known (some f) name = elim (f name) [ none ↦ [] | some addrs ↦ addrs ]

  -- The first address of the family, 4 or 6, with the number that stands for the family in a node.
  unfoldable pub first_entry : ℕ → ℕ → List A → List (ℕ × List ℕ)
  first_entry family tag [] = []
  first_entry family tag (a ∷ addrs) =
      if suits is4 is6 as4 as16 family a
      then (tag, octets is4 is6 as4 as16 family a) ∷ []
      else first_entry family tag addrs

  -- What a lookup of the family 1, 2 or, for both, 0 finds.
  abbrev pub entries : ℕ → List A → List (ℕ × List ℕ)
  entries family addrs =
      (if leb family 1 then first_entry 4 1 addrs else [])
      ++ (if family == 1 then [] else first_entry 6 2 addrs)

  -- None of the addresses suits, or the first one stands between others.
  first_entry-cases :
      (family tag : ℕ) (addrs : List A)
      → (Unsuited is4 is6 as4 as16 family addrs × (first_entry family tag addrs ≡ []))
        ⊎ ((before : List A) × (a : A) × (after : List A) × (addrs ≡ before ++ a ∷ after)
            × Unsuited is4 is6 as4 as16 family before
            × (suits is4 is6 as4 as16 family a ≡ true)
            × (first_entry family tag addrs ≡ (tag, octets is4 is6 as4 as16 family a) ∷ []))
  unfolding first_entry
  first_entry-cases family tag [] = inl (tt, refl)
  first_entry-cases family tag (a ∷ addrs) = elim (Bool-cases (suits is4 is6 as4 as16 family a)) [
    | inl fits ↦ inr ([], a, addrs, refl, tt, fits, rw (first_entry, fits) refl)
    | inr other ↦ elim (first_entry-cases family tag addrs) [
      | inl (unsuited, empty) ↦ inl ((other, unsuited), rw (first_entry, other) empty)
      | inr (before, b, after, split, unsuited, fits, found) ↦ inr (
        a ∷ before,
        b,
        after,
        ap (λ l. a ∷ l) split,
        (other, unsuited),
        fits,
        rw (first_entry, other) found,
      )
    ]
  ]

  -- A name that can be read is answered with -1 and nothing else, or with the octets of its first
  -- address of the family.
  pub resolve_host-cases :
      (lookup : Option (List ℕ → Option (List A))) (m : Memory) (host family tag out : ℕ)
      (name : List ℕ)
      → cstr m host ≡ some name
      → ((a : A)
          → suits is4 is6 as4 as16 family a ≡ true
          → out + length (octets is4 is6 as4 as16 family a) ≤ m.size)
      → ((first_entry family tag (known lookup name) ≡ [])
          × (resolve_host is4 is6 as4 as16 lookup m host family out ≡ some (m, neg32 1)))
        ⊎ ((a : A) × (suits is4 is6 as4 as16 family a ≡ true)
            × (first_entry family tag (known lookup name)
                ≡ (tag, octets is4 is6 as4 as16 family a) ∷ [])
            × (m' : Memory) × (resolve_host is4 is6 as4 as16 lookup m host family out
                ≡ some (m', 0))
            × Placed m m' out (octets is4 is6 as4 as16 family a))
  unfolding first_entry
  resolve_host-cases none m host family tag out name read room =
      inl (refl, resolve_host-none is4 is6 as4 as16 none m host family out name read (λ f e. cc))
  resolve_host-cases (some f) m host family tag out name read room = elim (Option-cases (f name)) [
    | inl failed ↦ inl (
      rw failed refl,
      resolve_host-none is4 is6 as4 as16 (some f) m host family out name read
          (λ g e. inl (answer_same f g name e ∙ failed)),
    )
    | inr (addrs, found) ↦ elim (first_entry-cases family tag addrs) [
      | inl (unsuited, empty) ↦ inl (
        rw found empty,
        resolve_host-none is4 is6 as4 as16 (some f) m host family out name read
            (λ g e. inr (addrs, answer_same f g name e ∙ found, unsuited)),
      )
      | inr (before, a, after, split, unsuited, fits, entry) ↦
          let (m', answer, placed) =
            resolve_host-first is4 is6 as4 as16 f m host family out name before after a read
              (found ∙ ap some split) unsuited fits (room a fits) in
          inr (a, fits, rw found entry, m', answer, placed)
    ]
  ]
