-- ===== src/Tool/Mask.antt =====
-- `parseMask`. The parsers of net/netip and strconv are parameters, with what they are documented
-- to give. An int is given by the 64 bits of its pattern.
pub mod Netmask
use go_pcapfilter.Prelude.{
  ℕ, zero, suc, ◌+◌, ◌-◌, ◌*◌, ◌/◌, ◌%◌, ◌^◌, ◌≤◌, ◌<◌, ◌≡◌, ◌≢◌, ◌↔◌, ◌⊎◌, inl, inr, refl, ap, sym,
  subst, ◌∙◌, bit_and, Option-cases, arith, Bool, true, false, not, ◌&&◌, ltb, leb, ◌==◌,
  Bool-cases, if◌then◌else◌, List, [], ◌∷◌, length, All, Option, none, some, codes,
}
use go_pcapfilter.Wasm.Words.{u32, IsByte}
use go_pcapfilter.Wasm.Words.Masks.{IsOnes, and_IsOnes_32, pow-le, pow_pos}
use go_pcapfilter.Compile.{Netip, be32}

-- `none` is an error. A prefix is an address and the count of its bits.
pub record Parsers (A : Type 0) : Type 0 where
  pub net : Netip A
  pub from4 : List ℕ → A
  pub parse_prefix : List ℕ → Option (A × ℕ)
  pub parse_addr : List ℕ → Option A
  pub atoi : List ℕ → Option ℕ

pub data Mask (A : Type 0) : Type 0 where
  accepted : A → Mask A
  rejected : List ℕ → Mask A
  bad_shift : Mask A

-- `byte(mask >> 24)` and the three others.
abbrev pub be_bytes : ℕ → List ℕ
be_bytes m = m / 16777216 % 256 ∷ m / 65536 % 256 ∷ m / 256 % 256 ∷ m % 256 ∷ []

-- `^uint32(0) << count`
abbrev pub ones_shl : ℕ → ℕ
ones_shl count = if ltb count 32 then 4294967295 * 2 ^ count % 4294967296 else 0

abbrev pub not_ipv4 : List ℕ
not_ipv4 = codes "not ipv4"

module _ {A : Type 0} (p : Parsers A) where
  -- `bitsToMask`. A shift by a negative count panics.
  unfoldable pub bits_to_mask : ℕ → Mask A
  bits_to_mask bits =
      let count = (18446744073709551616 + 32 - bits) % 18446744073709551616 in
      if leb 9223372036854775808 count
      then bad_shift
      else accepted (p.from4 (be_bytes (ones_shl count)))

  unfoldable pub mask_of_prefix : A × ℕ → Mask A
  mask_of_prefix (addr, bits) =
      if not (p.net.is4 addr) then rejected not_ipv4 else bits_to_mask bits

  unfoldable pub mask_of_addr : A → Mask A
  mask_of_addr addr =
      let inv = 4294967295 - be32 (p.net.as4 addr) in
      if not (p.net.is4 addr)
      then rejected not_ipv4
      else if not (bit_and inv (u32 (inv + 1)) == 0)
      then rejected (codes "invalid mask")
      else accepted addr

  unfoldable pub mask_of_count : Option ℕ → Mask A
  mask_of_count none = rejected (codes "not a valid cidr, mask, or prefix length")
  mask_of_count (some n) =
      if ltb n 9223372036854775808 && leb n 32
      then bits_to_mask n
      else rejected (codes "not a valid cidr, mask, or prefix length")

  unfoldable pub parse_mask : List ℕ → Mask A
  parse_mask [] = accepted p.net.zero_addr
  parse_mask (c ∷ cs) = elim (p.parse_prefix (c ∷ cs)) [
    | some prefix ↦ mask_of_prefix prefix
    | none ↦ elim (p.parse_addr (c ∷ cs)) [
      | some addr ↦ mask_of_addr addr
      | none ↦ mask_of_count (p.atoi (c ∷ cs))
    ]
  ]

  -- What the packages document: the four bytes of an IPv4 address, and a prefix of 32 bits at most.
  pub record IsParsers : Type 0 where
    pub as4_bytes : (a : A) → p.net.is4 a ≡ true → be32 (p.net.as4 a) < 4294967296
    pub from4_is4 : (b : List ℕ) → length b ≡ 4 → p.net.is4 (p.from4 b) ≡ true
    pub as4_from4 : (b : List ℕ) → length b ≡ 4 → All IsByte b → p.net.as4 (p.from4 b) ≡ b
    pub prefix_bits :
        (s : List ℕ) (a : A) (bits : ℕ)
        → p.parse_prefix s ≡ some (a, bits)
        → p.net.is4 a ≡ true
        → bits ≤ 32

  -- An IPv4 address of ones and then `k` zeros.
  abbrev pub IsNetmask : ℕ → A → Type 0
  IsNetmask k a = (p.net.is4 a ≡ true) × (be32 (p.net.as4 a) + 2 ^ k ≡ 4294967296)

  abbrev pub HoldsMask : Mask A → Type 0
  HoldsMask (accepted a) = (k : ℕ) × (k ≤ 32) × IsNetmask k a
  HoldsMask (rejected message) = Unit
  HoldsMask bad_shift = ⊥
