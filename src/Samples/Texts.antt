-- ===== src/Samples/Texts.antt =====
-- The texts `ab` and `ac`, at the addresses 0 and 3 of a memory of 8 bytes.
use go_pcapfilter.Prelude.{◌≡◌, ◌↔◌, ◌⊎◌, ◌<◌, ℕ, List, [], ◌∷◌, some, refl, arith}
use go_pcapfilter.Wasm.Memory.{Memory, cells, cell_or}
use go_pcapfilter.Libc.{compare_bytes, from, strcmp, strchr}
use go_pcapfilter.Libc.Copy.{strlcpy, IsCopied, strlcpy-IsCopied}
use go_pcapfilter.Libc.Lists.{first_index}
use go_pcapfilter.Libc.Strings.{IsText, strcmp-IsText, strcmp_iff, strchr-IsText}

abbrev ab : List ℕ
ab = 97 ∷ 98 ∷ []

abbrev ac : List ℕ
ac = 97 ∷ 99 ∷ []

abbrev two_texts : Memory
two_texts = record { size = 8; byte = λ a. cell_or (97 ∷ 98 ∷ 0 ∷ 97 ∷ 99 ∷ 0 ∷ 0 ∷ 0 ∷ []) a 0 }

first_IsText : IsText two_texts 0 ab
unfolding from cells
first_IsText = record {
  rest = 97 ∷ 99 ∷ 0 ∷ 0 ∷ 0 ∷ [];
  nonzero = (omega arith, (omega arith, tt));
  reads = refl;
}

second_IsText : IsText two_texts 3 ac
unfolding from cells
second_IsText = record {
  rest = 0 ∷ 0 ∷ [];
  nonzero = (omega arith, (omega arith, tt));
  reads = refl;
}

strcmp-IsText_example : strcmp two_texts 0 3 ≡ some (compare_bytes ab ac)
strcmp-IsText_example = strcmp-IsText two_texts (omega arith) 0 3 ab ac first_IsText second_IsText

strcmp_iff_example : (strcmp two_texts 0 3 ≡ some 0) ↔ (ab ≡ ac)
strcmp_iff_example = strcmp_iff two_texts (omega arith) 0 3 ab ac first_IsText second_IsText

strchr-IsText_example : strchr two_texts 0 98 ≡ some 1
unfolding first_index
strchr-IsText_example = strchr-IsText two_texts (omega arith) 0 98 ab first_IsText

abbrev room : ℕ
room = 2

-- Two bytes of room, at the address 6, for the text `ac`.
strlcpy-IsCopied_example :
    ((room ≡ 0) × (strlcpy two_texts 6 3 room ≡ some (two_texts, 2)))
    ⊎ ((0 < room)
        × (m' : Memory) × (strlcpy two_texts 6 3 room ≡ some (m', 2))
        × IsCopied two_texts m' 6 3 1)
strlcpy-IsCopied_example =
    strlcpy-IsCopied two_texts (omega arith) 6 3 room ac second_IsText (omega arith)
