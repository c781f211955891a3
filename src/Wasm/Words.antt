-- ===== src/Wasm/Words.antt =====
-- internal/bpf.go: the int32 and uint32 arithmetic of the compiled code. Both are modelled by the
-- bit pattern, a number below 2 ^ 32, with the wrap-around written out.
pub mod Bits
pub mod Swap
pub mod Masks
use go_pcapfilter.Prelude.{
  ℕ, ◌+◌, ◌-◌, ◌*◌, ◌/◌, ◌%◌, ◌^◌, ◌<◌, bit_and, bit_xor, ltb, if◌then◌else◌,
}

abbrev pub IsU32 : ℕ → Type 0
IsU32 w = w < 4294967296

abbrev pub IsByte : ℕ → Type 0
IsByte b = b < 256

abbrev pub u32 : ℕ → ℕ
u32 n = n % 4294967296

-- int32 `a + b`, `a - b`, `a * b` on bit patterns.
abbrev pub add32 : ℕ → ℕ → ℕ
add32 a b = (a + b) % 4294967296

abbrev pub sub32 : ℕ → ℕ → ℕ
sub32 a b = (a + 4294967296 - b) % 4294967296

abbrev pub mul32 : ℕ → ℕ → ℕ
mul32 a b = a * b % 4294967296

-- The bit pattern of the int32 constant -k.
abbrev pub neg32 : ℕ → ℕ
neg32 k = (4294967296 - k) % 4294967296

unfoldable pub i32_shl : ℕ → ℕ → ℕ
i32_shl x y = x * 2 ^ (y % 32) % 4294967296

unfoldable pub i32_shr_u : ℕ → ℕ → ℕ
i32_shr_u x y = x / 2 ^ (y % 32)

-- `bits.RotateLeft32` counts modulo 32, and a negative count turns to the right.
unfoldable pub i32_rotl : ℕ → ℕ → ℕ
i32_rotl x y = x * 2 ^ (y % 32) % 4294967296 + x / 2 ^ (32 - y % 32)

unfoldable pub i32_rotr : ℕ → ℕ → ℕ
unfolding i32_rotl
i32_rotr x y = i32_rotl x (32 - y % 32)

-- `x >> 3` on an int32, which copies the sign.
abbrev pub sar3 : ℕ → ℕ
sar3 x = if ltb x 2147483648 then x / 8 else x / 8 + 3758096384

-- `_ntohl` and `_htonl`, and the same expression where the filter reads a word of the packet.
unfoldable pub ntohl : ℕ → ℕ
unfolding i32_rotr
ntohl v =
    let mixed = bit_and (bit_xor v (i32_rotr v 16)) (neg32 0xff0100) in
    bit_xor (mixed / 256) (i32_rotr v 8)
