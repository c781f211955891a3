-- ===== src/Wasm/Words/Swap.antt =====
-- The byte swap that the filter and `_ntohl` write with two rotations and a mask.
use go_pcapfilter.Prelude.{
  ℕ, ◌+◌, ◌*◌, ◌/◌, ◌<◌, ◌≡◌, ◌∙◌, refl, bit_and, bit_xor, arith, ◌==◌, ==_iff,
}
use go_pcapfilter.Wasm.Words.{ntohl, i32_rotr, neg32}
use go_pcapfilter.Wasm.Words.Bits.{
  passes_to, passes_to_sound, xor-xor, zero-xor, xor-lt, xor_by_fields, and_by_fields,
}

-- Four bytes, the first the highest.
abbrev pub word : ℕ → ℕ → ℕ → ℕ → ℕ
word a b c d = ((a * 256 + b) * 256 + c) * 256 + d

xor-word :
    (a b c d a' b' c' d' : ℕ)
    → b < 256
    → c < 256
    → d < 256
    → b' < 256
    → c' < 256
    → d' < 256
    → bit_xor (word a b c d) (word a' b' c' d')
      ≡ word (bit_xor a a') (bit_xor b b') (bit_xor c c') (bit_xor d d')
xor-word a b c d a' b' c' d' hb hc hd hb' hc' hd' = omega (
  arith,
  xor_by_fields 8 ((a * 256 + b) * 256 + c) ((a' * 256 + b') * 256 + c') d d' (omega arith)
      (omega arith),
  xor_by_fields 8 (a * 256 + b) (a' * 256 + b') c c' (omega arith) (omega arith),
  xor_by_fields 8 a a' b b' (omega arith) (omega arith),
)

xor_byte_lt : (a b : ℕ) → a < 256 → b < 256 → bit_xor a b < 256
xor_byte_lt a b p q = xor-lt 8 a b p q

masked_out : (x : ℕ) → x < 256 → bit_and x 0 ≡ 0
unfolding passes_to
masked_out x h = (==_iff _ _).0 (passes_to_sound (λ x. bit_and x 0 == 0) 255 x (omega arith) refl)

masked_in : (x : ℕ) → x < 256 → bit_and x 255 ≡ x
unfolding passes_to
masked_in x h = (==_iff _ _).0 (passes_to_sound (λ x. bit_and x 255 == x) 255 x (omega arith) refl)

and_mask :
    (a b c d : ℕ)
    → a < 256
    → b < 256
    → c < 256
    → d < 256
    → bit_and (word a b c d) (neg32 0xff0100) ≡ word a 0 c 0
and_mask a b c d ha hb hc hd = omega (
  arith,
  and_by_fields 8 ((a * 256 + b) * 256 + c) 0xff00ff d 0 (omega arith) (omega arith),
  and_by_fields 8 (a * 256 + b) 0xff00 c 255 (omega arith) (omega arith),
  and_by_fields 8 a 255 b 0 (omega arith) (omega arith),
  masked_in a ha,
  masked_out b hb,
  masked_in c hc,
  masked_out d hd,
)

rotr_sixteen :
    (a b c d : ℕ)
    → a < 256
    → b < 256
    → c < 256
    → d < 256
    → i32_rotr (word a b c d) 16 ≡ word c d a b
unfolding i32_rotr
rotr_sixteen a b c d ha hb hc hd = omega arith

rotr_eight :
    (a b c d : ℕ) → a < 256 → b < 256 → c < 256 → d < 256 → i32_rotr (word a b c d) 8 ≡ word d a b c
unfolding i32_rotr
rotr_eight a b c d ha hb hc hd = omega arith

-- The four bytes of a word are put in the opposite order.
pub ntohl-word :
    (a b c d : ℕ) → a < 256 → b < 256 → c < 256 → d < 256 → ntohl (word a b c d) ≡ word d c b a
unfolding ntohl
ntohl-word a b c d ha hb hc hd =
    let p = xor_byte_lt a c ha hc in
    let q = xor_byte_lt b d hb hd in
    let p' = xor_byte_lt c a hc ha in
    let q' = xor_byte_lt d b hd hb in
    rw
      (
        rotr_sixteen a b c d ha hb hc hd,
        rotr_eight a b c d ha hb hc hd,
        xor-word a b c d c d a b hb hc hd hd ha hb,
        and_mask (bit_xor a c) (bit_xor b d) (bit_xor c a) (bit_xor d b) p q p' q',
      )
      (shifted (bit_xor a c) (bit_xor c a) ∙ mixed p p')
  where
    shifted :
        (x y : ℕ)
        → bit_xor (word x 0 y 0 / 256) (word d a b c) ≡ bit_xor (word 0 x 0 y) (word d a b c)
    shifted x y = let e : word x 0 y 0 / 256 ≡ word 0 x 0 y = omega arith in rw e refl

    mixed :
        bit_xor a c < 256
        → bit_xor c a < 256
        → bit_xor (word 0 (bit_xor a c) 0 (bit_xor c a)) (word d a b c) ≡ word d c b a
    mixed p p' = omega (
      arith,
      xor-word 0 (bit_xor a c) 0 (bit_xor c a) d a b c p (omega arith) p' ha hb hc,
      zero-xor d,
      zero-xor b,
      xor-xor a c,
      xor-xor c a,
    )
