-- ===== src/Wasm/Memory/Fill.antt =====
-- `memory_fill`, which copies what it has set so far, up to 8,192 bytes at a time.
use go_pcapfilter.Prelude.{
  ℕ, zero, suc, ◌+◌, ◌-◌, ◌%◌, ◌/◌, ◌^◌, ◌≤◌, ◌<◌, ◌≡◌, true, false, some, refl, arith, ltb, leb,
  if◌then◌else◌, min, Bool-cases, inl, inr, ltb→lt, ◌∙◌,
}
use go_pcapfilter.Wasm.Memory.{Memory, within, put, repeat_start, fill_loop, memory_fill}

-- The `n` bytes from `dest` on are the low byte of `v`, and the rest is as before.
pub record Filled (m m' : Memory) (dest v n : ℕ) : Type 0 where
  pub size : m'.size ≡ m.size
  pub byte : (a : ℕ) → m'.byte a ≡ (if within dest n a then v % 256 else m.byte a)

repeat_start-Filled :
    (m m' : Memory) (dest v i n : ℕ)
    → n ≤ i
    → Filled m m' dest v i
    → Filled m (repeat_start m' dest i n) dest v (i + n)
repeat_start-Filled m m' dest v i n le f = record {
  size = f.size;
  byte = λ a. ground (arith, f.byte a, f.byte (dest + (a - (dest + i))));
}

abbrev chunk : ℕ → ℕ → ℕ
chunk n i = min (n - i) (min i 8192)

fill_loop-more :
    (fuel : ℕ) (m : Memory) (dest n i : ℕ)
    → i < n
    → fill_loop (suc fuel) m dest n i
      ≡ fill_loop fuel (repeat_start m dest i (chunk n i)) dest n (i + chunk n i)
unfolding fill_loop
fill_loop-more fuel m dest n i lt = let more : ltb i n ≡ true = ground arith in rw more refl

fill_loop-done :
    (fuel : ℕ) (m : Memory) (dest n i : ℕ) → n ≤ i → fill_loop (suc fuel) m dest n i ≡ some m
unfolding fill_loop
fill_loop-done fuel m dest n i le = let done : ltb i n ≡ false = ground arith in rw done refl

low_byte : (dest v a : ℕ) → within dest 1 a ≡ true → v % 256 / 256 ^ (a - dest) % 256 ≡ v % 256
low_byte dest v a h = let e : a - dest ≡ 0 = ground arith in rw e (omega arith)

first_byte : (m : Memory) (dest v : ℕ) → Filled m (put 1 m dest (v % 256)) dest v 1
first_byte m dest v = record {
  size = refl;
  byte = λ a. elim (Bool-cases (within dest 1 a)) [
    | inl first ↦ rw first (low_byte dest v a first)
    | inr other ↦ rw other refl
  ];
}

fill_loop-Filled :
    (fuel : ℕ) (m m' : Memory) (dest v n i : ℕ)
    → 0 < i
    → i ≤ n
    → n ≤ i + fuel
    → Filled m m' dest v i
    → (m'' : Memory) × (fill_loop (suc fuel) m' dest n i ≡ some m'') × Filled m m'' dest v n
fill_loop-Filled zero m m' dest v n i pos le enough f =
    let same : i ≡ n = omega arith in (m', fill_loop-done 0 m' dest n i (omega arith), rw same at f)
fill_loop-Filled (suc fuel) m m' dest v n i pos le enough f = elim (Bool-cases (ltb i n)) [
  | inl more ↦
      let lt = ltb→lt i n more in
      let (m'', runs, filled) =
        fill_loop-Filled fuel m (repeat_start m' dest i (chunk n i)) dest v n (i + chunk n i)
          (omega arith) (omega arith) (omega arith)
          (repeat_start-Filled m m' dest v i (chunk n i) (omega arith) f) in
      (m'', fill_loop-more (suc fuel) m' dest n i lt ∙ runs, filled)
  | inr over ↦
      let same : i ≡ n = ground arith in
      (m', fill_loop-done (suc fuel) m' dest n i (omega arith), rw same at f)
]

-- Where the buffer lies inside the memory, `memory_fill` ends, within its fuel, with every byte of
-- the buffer set to the low byte of the value and the rest of the memory as it was.
pub memory_fill-Filled :
    (m : Memory) (dest v n : ℕ)
    → dest + n ≤ m.size
    → (m' : Memory) × (memory_fill m dest v n ≡ some m') × Filled m m' dest v n
unfolding memory_fill
memory_fill-Filled m dest v zero h =
    let inside : leb (dest + 0) m.size ≡ true = ground arith in
    (m, rw inside refl, record { size = refl; byte = λ a. ground arith })
memory_fill-Filled m dest v (suc n) h =
    let inside : leb (dest + suc n) m.size ≡ true = ground arith in
    let some_left : ltb 0 (suc n) ≡ true = ground arith in
    let (m', runs, filled) =
      fill_loop-Filled n m (put 1 m dest (v % 256)) dest v (suc n) 1 (omega arith) (omega arith)
        (omega arith) (first_byte m dest v) in
    (m', rw (inside, some_left) runs, filled)
