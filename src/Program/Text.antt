-- ===== src/Program/Text.antt =====
-- `String`. The disassembler `Xbpf_image` is libpcap's, and a parameter: it takes the memory, the
-- address of an instruction and its number, and gives the memory and the address of a text.
use go_pcapfilter.Prelude.{
  ℕ, zero, suc, ◌+◌, ◌*◌, ◌≤◌, ◌<◌, ◌≡◌, leb, true, false, List, [], ◌∷◌, ◌++◌, Option, some, ◌>>=◌,
  ltb, if◌then◌else◌, refl, arith, sym, ◌∙◌,
}
use go_pcapfilter.Wasm.Words.{add32, u32}
use go_pcapfilter.Wasm.Memory.{Memory}
use go_pcapfilter.Wasm.Memory.Laws.{IsBytes}
use go_pcapfilter.Env.{cstr}
use go_pcapfilter.Instruction.{RawInstruction, instruction_at}
use go_pcapfilter.Program.{Program, instructions}
use go_pcapfilter.Program.Ready.{IsReady}
use go_pcapfilter.Program.Instructions.{decoded, instructions-decoded}

abbrev pub Image : Type 0
Image = Memory → ℕ → ℕ → Option (Memory × ℕ)

module _ (image : Image) where
  -- The rounds from the instruction `i` on, of which `left` are left.
  unfoldable pub text_from : Memory → ℕ → ℕ → ℕ → Option (List ℕ × Memory)
  text_from m ptr i zero = some ([], m)
  text_from m ptr i (suc left) = do
    shown ← image m (add32 ptr (u32 (i * 8))) i
    line ← cstr shown.0 shown.1
    rest ← text_from shown.0 ptr (i + 1) left
    let text = line ++ rest.0
    some (if ltb 0 i then 10 ∷ text else text, rest.1)

  -- `String`, with the memory that it leaves. A negative count gives no round.
  unfoldable pub program_string : Program → Option (List ℕ × Memory)
  program_string p =
      if leb 2147483648 p.n then some ([], p.memory) else text_from p.memory p.ptr 0 p.n

-- A memory that keeps its length and the heap, and in which libpcap has its static data.
abbrev pub KeepsProgram : (Memory → Type 0) → Memory → Memory → Type 0
KeepsProgram Data m m' =
    Data m' × (m'.size ≡ m.size) × ((c : ℕ) → 127840 ≤ c → m'.byte c ≡ m.byte c)

-- `bpf_image`, where the static data of libpcap are as it needs them, which `Data` says: the text
-- of the instruction at an address in the heap, as a function of the instruction and its number. It
-- writes its own buffer, below the heap, and the text can be read, as the memory has fewer than
-- 2 ^ 32 bytes.
pub record IsImage (Data : Memory → Type 0) (show : RawInstruction → ℕ → List ℕ) (image : Image)
    : Type 0 where
  pub shows :
      (m : Memory) (a i : ℕ)
      → Data m
      → IsBytes m
      → 131072 ≤ m.size
      → m.size < 4294967296
      → 127840 ≤ a
      → a + 8 ≤ m.size
      → i < 2147483648
      → (m' : Memory) × (text : ℕ) × (image m a i ≡ some (m', text))
        × IsBytes m'
        × KeepsProgram Data m m'
        × (cstr m' text ≡ some (show (instruction_at m a) i))

-- Each line after a line feed.
abbrev pub continued : List (List ℕ) → List ℕ
continued [] = []
continued (line ∷ lines) = 10 ∷ line ++ continued lines

-- The lines, with line feeds between them.
abbrev pub joined : List (List ℕ) → List ℕ
joined [] = []
joined (line ∷ lines) = line ++ continued lines

-- The texts of the instructions, numbered from `i` on.
abbrev pub shown : (RawInstruction → ℕ → List ℕ) → ℕ → List RawInstruction → List (List ℕ)
shown show i [] = []
shown show i (insn ∷ insns) = show insn i ∷ shown show (i + 1) insns

instruction_at-same :
    (m m' : Memory) (a : ℕ)
    → 127840 ≤ a
    → ((c : ℕ) → 127840 ≤ c → m'.byte c ≡ m.byte c)
    → instruction_at m' a ≡ instruction_at m a
instruction_at-same m m' a low same =
    rw
      (
        same a low,
        same (a + 1) (omega arith),
        same (a + 2) (omega arith),
        same (a + 3) (omega arith),
        same (a + 4) (omega arith),
        same (a + 4 + 1) (omega arith),
        same (a + 4 + 2) (omega arith),
        same (a + 4 + 3) (omega arith),
      )
      refl

decoded-same :
    (m m' : Memory) (ptr i left : ℕ)
    → 127840 ≤ ptr
    → ((c : ℕ) → 127840 ≤ c → m'.byte c ≡ m.byte c)
    → decoded m' ptr i left ≡ decoded m ptr i left
unfolding decoded
decoded-same m m' ptr i zero low same = refl
decoded-same m m' ptr i (suc left) low same =
    rw
      (
        instruction_at-same m m' (ptr + 8 * i) (omega arith) same,
        decoded-same m m' ptr (i + 1) left low same,
      )
      refl

module _ (Data : Memory → Type 0) (show : RawInstruction → ℕ → List ℕ) (image : Image)
    (laws : IsImage Data show image) where
  -- One round: the line of the instruction `i`.
  shown_line :
      (m : Memory) (ptr i : ℕ)
      → Data m
      → IsBytes m
      → 131072 ≤ m.size
      → m.size < 4294967296
      → 127840 ≤ ptr
      → ptr + 8 * i + 8 ≤ m.size
      → ptr + 8 * i < 2147483648
      → (m' : Memory) × (text : ℕ) × (image m (add32 ptr (u32 (i * 8))) i ≡ some (m', text))
        × IsBytes m'
        × KeepsProgram Data m m'
        × (cstr m' text ≡ some (show (instruction_at m (ptr + 8 * i)) i))
  shown_line m ptr i loaded w low high above inside below =
      let at : add32 ptr (u32 (i * 8)) ≡ ptr + 8 * i = omega arith in
      rw at (laws.shows m (ptr + 8 * i) i loaded w low high (omega arith) inside (omega arith))

  text_from-continued :
      (m : Memory) (ptr i left : ℕ)
      → Data m
      → IsBytes m
      → 131072 ≤ m.size
      → m.size < 4294967296
      → 127840 ≤ ptr
      → ptr + 8 * (i + left) ≤ m.size
      → ptr + 8 * (i + left) < 2147483648
      → 0 < i
      → (m' : Memory) × (text_from image m ptr i left
          ≡ some (continued (shown show i (decoded m ptr i left)), m'))
        × KeepsProgram Data m m'
  unfolding text_from decoded
  text_from-continued m ptr i zero loaded w low high above inside below pos =
      (m, refl, (loaded, refl, λ c le. refl))
  text_from-continued m ptr i (suc left) loaded w low high above inside below pos =
      let (m₁, a, image_at, w₁, (loaded₁, size₁, same₁), read) =
        shown_line m ptr i loaded w low high above (omega arith) (omega arith) in
      let (m₂, rest, (loaded₂, size₂, same₂)) =
        text_from-continued m₁ ptr (i + 1) left loaded₁ w₁ (omega arith) (omega arith) above
          (omega arith) (omega arith) (omega arith) in
      let later : ltb 0 i ≡ true = ground arith in
      let tail = decoded-same m m₁ ptr (i + 1) left above same₁ in
      (
        m₂,
        rw (text_from, image_at, read, rest, later, tail) refl,
        (loaded₂, size₂ ∙ size₁, λ c le. same₂ c le ∙ same₁ c le),
      )

  text_from-joined :
      (m : Memory) (ptr left : ℕ)
      → Data m
      → IsBytes m
      → 131072 ≤ m.size
      → m.size < 4294967296
      → 127840 ≤ ptr
      → ptr + 8 * left ≤ m.size
      → ptr + 8 * left < 2147483648
      → (m' : Memory) × (text_from image m ptr 0 left
          ≡ some (joined (shown show 0 (decoded m ptr 0 left)), m'))
        × KeepsProgram Data m m'
  unfolding text_from decoded
  text_from-joined m ptr zero loaded w low high above inside below =
      (m, refl, (loaded, refl, λ c le. refl))
  text_from-joined m ptr (suc left) loaded w low high above inside below =
      let (m₁, a, image_at, w₁, (loaded₁, size₁, same₁), read) =
        shown_line m ptr 0 loaded w low high above (omega arith) (omega arith) in
      let (m₂, rest, (loaded₂, size₂, same₂)) =
        text_from-continued m₁ ptr 1 left loaded₁ w₁ (omega arith) (omega arith) above (omega arith)
          (omega arith) (omega arith) in
      let tail = decoded-same m m₁ ptr 1 left above same₁ in
      (
        m₂,
        rw (text_from, image_at, read, rest, tail) refl,
        (loaded₂, size₂ ∙ size₁, λ c le. same₂ c le ∙ same₁ c le),
      )

  -- Where the disassembler is as documented and has its static data, `String` of a ready program in
  -- the heap of a memory of fewer than 2 ^ 32 bytes does not panic: it is the texts of the
  -- instructions that `Instructions` gives, each with its number, with line feeds between them. The
  -- length of the memory and the bytes of the heap are kept.
  pub program_string-joined :
      (p : Program) (insns : List RawInstruction)
      → IsReady p
      → Data p.memory
      → 131072 ≤ p.memory.size
      → p.memory.size < 4294967296
      → 127840 ≤ p.ptr
      → instructions p ≡ some insns
      → (m' : Memory) × (program_string image p ≡ some (joined (shown show 0 insns), m'))
        × KeepsProgram Data p.memory m'
  unfolding program_string
  program_string-joined p insns r loaded low high above parsed =
      let count : leb 2147483648 p.n ≡ false = ground (arith, r.n_bound) in
      let both = sym parsed ∙ instructions-decoded p r in
      let same : insns ≡ decoded p.memory p.ptr 0 p.n = cc in
      let (m', text, kept) =
        text_from-joined p.memory p.ptr p.n loaded r.bytes low high above r.ptr_in
          (omega (arith, r.ptr_high)) in
      (m', rw (program_string, count, same) text, kept)
