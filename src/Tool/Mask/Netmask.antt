-- ===== src/Tool/Mask/Netmask.antt =====
-- What `parseMask` accepts.
use go_pcapfilter.Prelude.{
  ℕ, ◌+◌, ◌-◌, ◌*◌, ◌%◌, ◌^◌, ◌≤◌, ◌<◌, ◌≡◌, ◌↔◌, inl, inr, refl, subst, bit_and, Option-cases,
  arith, true, false, ◌&&◌, ltb, leb, ◌==◌, Bool-cases, List, ◌∷◌, All, Option, none, some, codes,
}
use go_pcapfilter.Wasm.Words.{u32, IsByte}
use go_pcapfilter.Wasm.Words.Masks.{and_IsOnes_32, pow-le, pow_pos}
use go_pcapfilter.Compile.{be32}
use go_pcapfilter.Tool.Mask.{
  Parsers, Mask, accepted, rejected, be_bytes, ones_shl, bits_to_mask, mask_of_prefix, mask_of_addr,
  mask_of_count, parse_mask, IsParsers, IsNetmask, HoldsMask,
}

module _ {A : Type 0} (p : Parsers A) (laws : IsParsers p) where
  be_bytes-IsByte : (v : ℕ) → All IsByte (be_bytes v)
  be_bytes-IsByte v = (omega arith, (omega arith, (omega arith, (omega arith, tt))))

  be32-be_bytes : (v : ℕ) → v < 4294967296 → be32 (be_bytes v) ≡ v
  be32-be_bytes v lt = omega arith

  ones_shl-sum : (k : ℕ) → k ≤ 32 → (ones_shl k + 2 ^ k ≡ 4294967296)
  ones_shl-sum k le = elim (Bool-cases (ltb k 32)) [
    | inl less ↦
        let sum : k + (31 - k) ≡ 31 = ground arith in
        let small : 2 ^ k ≤ 2147483648 = subst (λ t. 2 ^ k ≤ 2 ^ t) sum (pow-le k (31 - k)) in
        let shifted : 4294967295 * 2 ^ k % 4294967296 + 2 ^ k ≡ 4294967296 =
          omega (arith, pow_pos k) in
        rw less shifted
    | inr full ↦ let all : k ≡ 32 = ground arith in rw (full, all) refl
  ]

  bits_to_mask-IsNetmask :
      (bits : ℕ)
      → bits ≤ 32
      → (a : A) × (bits_to_mask p bits ≡ accepted a) × IsNetmask p (32 - bits) a
  unfolding bits_to_mask
  bits_to_mask-IsNetmask bits le =
      let count : (18446744073709551616 + 32 - bits) % 18446744073709551616 ≡ 32 - bits =
        omega arith in
      let sign : leb 9223372036854775808 (32 - bits) ≡ false = ground arith in
      let value = ones_shl-sum (32 - bits) (omega arith) in
      let word : be32 (be_bytes (ones_shl (32 - bits))) ≡ ones_shl (32 - bits) =
        be32-be_bytes (ones_shl (32 - bits)) (omega (arith, value, pow_pos (32 - bits))) in
      let a = p.from4 (be_bytes (ones_shl (32 - bits))) in
      (
        a,
        rw (bits_to_mask, count, sign) refl,
        (
          laws.from4_is4 (be_bytes (ones_shl (32 - bits))) refl,
          rw
              (
                laws.as4_from4 (be_bytes (ones_shl (32 - bits))) refl
                    (be_bytes-IsByte (ones_shl (32 - bits))),
                word,
              )
              value,
        ),
      )

  mask_of_addr-IsNetmask :
      (a : A)
      → p.net.is4 a ≡ true
      → (mask_of_addr p a ≡ accepted a) ↔ ((k : ℕ) × (k ≤ 32) × IsNetmask p k a)
  unfolding mask_of_addr
  mask_of_addr-IsNetmask a four =
      let v = be32 (p.net.as4 a) in
      let small : v < 4294967296 = laws.as4_bytes a four in
      let (ones, back) = and_IsOnes_32 (4294967295 - v) (omega arith) in
      elim (Bool-cases (bit_and (4294967295 - v) (u32 (4294967295 - v + 1)) == 0)) [
        | inl zeros ↦
            let (k, le, e) = ones (ground arith) in
            (
              λ accepts. (k, le, (four, omega arith)),
              λ netmask. rw (mask_of_addr, four, zeros) refl,
            )
        | inr mixed ↦ (
          λ accepts. absurd (refuses accepts (rw (mask_of_addr, four, mixed) refl)),
          λ (k, le, (_, e)). absurd (ground (arith, back (k, le, omega arith))),
        )
      ]
    where
      refuses :
          mask_of_addr p a ≡ accepted a → mask_of_addr p a ≡ rejected (codes "invalid mask") → ⊥
      refuses x y = cc

  netmask-HoldsMask :
      (bits : ℕ) (r : Mask A)
      → ((a : A) × (r ≡ accepted a) × IsNetmask p (32 - bits) a)
      → HoldsMask p r
  netmask-HoldsMask bits r (a, e, netmask) = rw e (32 - bits, omega arith, netmask)

  prefix-HoldsMask :
      (s : List ℕ) (a : A) (bits : ℕ)
      → p.parse_prefix s ≡ some (a, bits)
      → HoldsMask p (mask_of_prefix p (a, bits))
  unfolding mask_of_prefix
  prefix-HoldsMask s a bits e = elim (Bool-cases (p.net.is4 a)) [
    | inl four ↦
        rw (mask_of_prefix, four)
          (netmask-HoldsMask bits (bits_to_mask p bits)
            (bits_to_mask-IsNetmask bits (laws.prefix_bits s a bits e four)))
    | inr other ↦ rw (mask_of_prefix, other) tt
  ]

  addr-HoldsMask : (a : A) → HoldsMask p (mask_of_addr p a)
  unfolding mask_of_addr
  addr-HoldsMask a = elim (Bool-cases (p.net.is4 a)) [
    | inr other ↦ rw (mask_of_addr, other) tt
    | inl four ↦
        let inv = 4294967295 - be32 (p.net.as4 a) in
        elim (Bool-cases (bit_and inv (u32 (inv + 1)) == 0)) [
          | inl zeros ↦
              let accepts : mask_of_addr p a ≡ accepted a = rw (mask_of_addr, four, zeros) refl in
              rw accepts ((mask_of_addr-IsNetmask a four).0 accepts)
          | inr mixed ↦ rw (mask_of_addr, four, mixed) tt
        ]
  ]

  count-HoldsMask : (n : Option ℕ) → HoldsMask p (mask_of_count p n)
  unfolding mask_of_count
  count-HoldsMask none = tt
  count-HoldsMask (some n) = elim (Bool-cases (ltb n 9223372036854775808 && leb n 32)) [
    | inl small ↦
        rw (mask_of_count, small)
          (netmask-HoldsMask n (bits_to_mask p n) (bits_to_mask-IsNetmask n (ground arith)))
    | inr large ↦ rw (mask_of_count, large) tt
  ]

  -- For the parsers as they are documented, `parseMask` of a text that is not empty does not
  -- panic, and what it accepts is an IPv4 address of ones and then zeros.
  pub parse_mask-HoldsMask : (c : ℕ) (cs : List ℕ) → HoldsMask p (parse_mask p (c ∷ cs))
  unfolding parse_mask
  parse_mask-HoldsMask c cs = elim (Option-cases (p.parse_prefix (c ∷ cs))) [
    | inr ((a, bits), e) ↦ rw (parse_mask, e) (prefix-HoldsMask (c ∷ cs) a bits e)
    | inl other ↦ elim (Option-cases (p.parse_addr (c ∷ cs))) [
      | inr (a, e) ↦ rw (parse_mask, other, e) (addr-HoldsMask a)
      | inl number ↦ rw (parse_mask, other, number) (count-HoldsMask (p.atoi (c ∷ cs)))
    ]
  ]

  -- For the parsers as they are documented, and a text that is not a prefix but an IPv4 address,
  -- `parseMask` accepts the address if it is ones and then zeros, and only then.
  pub parse_mask_iff :
      (c : ℕ) (cs : List ℕ) (a : A)
      → p.parse_prefix (c ∷ cs) ≡ none
      → p.parse_addr (c ∷ cs) ≡ some a
      → p.net.is4 a ≡ true
      → (parse_mask p (c ∷ cs) ≡ accepted a) ↔ ((k : ℕ) × (k ≤ 32) × IsNetmask p k a)
  unfolding parse_mask
  parse_mask_iff c cs a other e four = rw (parse_mask, other, e) (mask_of_addr-IsNetmask a four)

  -- For the parsers as they are documented, a text that is neither a prefix nor an address but a
  -- number up to 32 gives the netmask with so many ones.
  pub parse_mask_count :
      (c : ℕ) (cs : List ℕ) (n : ℕ)
      → p.parse_prefix (c ∷ cs) ≡ none
      → p.parse_addr (c ∷ cs) ≡ none
      → p.atoi (c ∷ cs) ≡ some n
      → n ≤ 32
      → (a : A) × (parse_mask p (c ∷ cs) ≡ accepted a) × IsNetmask p (32 - n) a
  unfolding parse_mask mask_of_count
  parse_mask_count c cs n other number e le =
      let small : (ltb n 9223372036854775808 && leb n 32) ≡ true = ground arith in
      rw (parse_mask, other, number, e, mask_of_count, small) (bits_to_mask-IsNetmask n le)
