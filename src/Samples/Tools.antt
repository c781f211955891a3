-- ===== src/Samples/Tools.antt =====
-- Netmasks as numbers, and a file of two lines for one name.
use go_pcapfilter.Prelude.{
  ℕ, ◌≤◌, ◌≡◌, ◌↔◌, ◌%◌, ◌/◌, true, ltb, if◌then◌else◌, List, [], ◌∷◌, Option, none, some, length,
  All, refl, arith, codes, text_eq,
}
use go_pcapfilter.Wasm.Words.{u32, IsByte}
use go_pcapfilter.Compile.{Netip, be32}
use go_pcapfilter.Tool.Mask.{
  Parsers, accepted, be_bytes, parse_mask, IsParsers, IsNetmask, HoldsMask,
}
use go_pcapfilter.Tool.Mask.Netmask.{parse_mask-HoldsMask, parse_mask_iff, parse_mask_count}
use go_pcapfilter.Tool.Ethers.{Files, load_ethers, entry_of_trimmed, entry_of_fields}
use go_pcapfilter.Tool.Ethers.Last.{line_entry, load_ethers-last}

-- An address is its 32-bit word; one number more stands for an address that is none.
abbrev word_netip : Netip ℕ
word_netip = record {
  zero_addr = 4294967296;
  is_valid = λ a. ltb a 4294967296;
  is4 = λ a. ltb a 4294967296;
  as4 = be_bytes;
}

abbrev mask_text : List ℕ
mask_text = codes "255.255.255.0"

abbrev count_text : List ℕ
count_text = codes "24"

abbrev pub word_parsers : Parsers ℕ
word_parsers = record {
  net = word_netip;
  from4 = λ b. u32 (be32 b);
  parse_prefix = λ s. none;
  parse_addr = λ s. if text_eq s mask_text then some 4294967040 else none;
  atoi = λ s. if text_eq s count_text then some 24 else none;
}

bytes_of_word : (b : List ℕ) → length b ≡ 4 → All IsByte b → be_bytes (u32 (be32 b)) ≡ b
bytes_of_word (w ∷ x ∷ y ∷ z ∷ []) e (hw, (hx, (hy, (hz, _)))) =
    let b = u32 (be32 (w ∷ x ∷ y ∷ z ∷ [])) in
    let first : b / 16777216 % 256 ≡ w = omega arith in
    let second : b / 65536 % 256 ≡ x = omega arith in
    let third : b / 256 % 256 ≡ y = omega arith in
    let fourth : b % 256 ≡ z = omega arith in rw (first, second, third, fourth) refl
bytes_of_word [] e h = absurd (omega arith)
bytes_of_word (w ∷ []) e h = absurd (omega arith)
bytes_of_word (w ∷ x ∷ []) e h = absurd (omega arith)
bytes_of_word (w ∷ x ∷ y ∷ []) e h = absurd (omega arith)
bytes_of_word (w ∷ x ∷ y ∷ z ∷ v ∷ b) e h = absurd (omega arith)

pub word_IsParsers : IsParsers word_parsers
word_IsParsers = record {
  as4_bytes = λ a four. omega arith;
  from4_is4 = λ b e. ground arith;
  as4_from4 = bytes_of_word;
  prefix_bits = λ s a bits e four. cc;
}

parse_mask-HoldsMask_example :
    HoldsMask word_parsers (parse_mask word_parsers (codes "255.255.255.0"))
parse_mask-HoldsMask_example =
    parse_mask-HoldsMask word_parsers word_IsParsers 50 (codes "55.255.255.0")

mask_read : word_parsers.parse_addr mask_text ≡ some 4294967040
unfolding text_eq
mask_read = refl

parse_mask_iff_example :
    (parse_mask word_parsers mask_text ≡ accepted 4294967040)
    ↔ ((k : ℕ) × (k ≤ 32) × IsNetmask word_parsers k 4294967040)
parse_mask_iff_example =
    parse_mask_iff word_parsers word_IsParsers 50 (codes "55.255.255.0") 4294967040 refl mask_read
      refl

count_read : word_parsers.atoi count_text ≡ some 24
unfolding text_eq
count_read = refl

count_no_addr : word_parsers.parse_addr count_text ≡ none
unfolding text_eq
count_no_addr = refl

parse_mask_count_example :
    (a : ℕ) × (parse_mask word_parsers count_text ≡ accepted a) × IsNetmask word_parsers 8 a
parse_mask_count_example =
    parse_mask_count word_parsers word_IsParsers 50 (codes "4") 24 refl count_no_addr count_read
      (omega arith)

-- The lines `1 a`, `2 b` and `3 a`; an address is the text that stands for it.
abbrev host_lines : List (List ℕ)
host_lines = codes "1 a" ∷ codes "2 b" ∷ codes "3 a" ∷ []

abbrev two_fields : List ℕ → List (List ℕ)
two_fields (x ∷ _ ∷ name) = (x ∷ []) ∷ name ∷ []
two_fields line = []

abbrev pub host_files : Files
host_files = record {
  open_file = λ name. some (host_lines, true);
  trim_space = λ s. s;
  fields = two_fields;
  parse_mac = λ s. some s;
}

third_line : line_entry host_files (codes "3 a") ≡ some (codes "a", codes "3")
unfolding entry_of_trimmed entry_of_fields
third_line = refl

load_ethers-last_example :
    (ethers : List ℕ → Option (List ℕ)) × (load_ethers host_files (codes "f") ≡ some ethers)
    × (ethers (codes "a") ≡ some (codes "3"))
load_ethers-last_example =
    load_ethers-last host_files 102 [] (codes "a") (codes "3") (codes "3 a")
      (codes "1 a" ∷ codes "2 b" ∷ []) [] refl third_line tt
