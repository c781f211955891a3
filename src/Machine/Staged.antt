-- ===== src/Machine/Staged.antt =====
-- The static data of libpcap and the text of the filter, through the stores of the shim.
use go_pcapfilter.Prelude.{ℕ, ◌+◌, ◌≤◌, ◌<◌, ◌≡◌, ◌⊎◌, inr, List, arith}
use go_pcapfilter.Wasm.Memory.{Memory, put}
use go_pcapfilter.Wasm.Memory.Laws.{put_outside}
use go_pcapfilter.Wasm.Memory.Texts.{Spells-same}
use go_pcapfilter.Heap.Arena.{Keeps}
use go_pcapfilter.Machine.{Libpcap, errbuf_start, failed_word}
use go_pcapfilter.Machine.Contract.{IsText, IsMessage, IsLibpcap}

pub IsText-same :
    (m m' : Memory) (b filter : ℕ) (t : List ℕ)
    → m.size ≤ m'.size
    → ((a : ℕ) → 127840 ≤ a → a < b → m'.byte a ≡ m.byte a)
    → IsText m b filter t
    → IsText m' b filter t
IsText-same m m' b filter t le same held = record {
  static = held.static;
  below = held.below;
  spells =
      Spells-same m m' filter t le
        (λ a lo hi. same a (omega (arith, held.static)) (omega (arith, held.below))) held.spells;
}

pub IsText-Keeps :
    (m m' : Memory) (b filter : ℕ) (t : List ℕ)
    → Keeps b m m'
    → IsText m b filter t
    → IsText m' b filter t
IsText-Keeps m m' b filter t keeps =
    IsText-same m m' b filter t keeps.size
      (λ a lo hi. keeps.same a hi (inr (omega arith)) (inr (omega arith)))

pub IsText-put :
    (n : ℕ) (m : Memory) (a v b filter : ℕ) (t : List ℕ)
    → a + n ≤ 127840
    → IsText m b filter t
    → IsText (put n m a v) b filter t
IsText-put n m a v b filter t below =
    IsText-same m (put n m a v) b filter t (omega arith)
      (λ c lo hi. put_outside n m a v c (inr (omega arith)))

pub IsMessage-put :
    (n : ℕ) (m : Memory) (a v handle : ℕ)
    → a + n ≤ 127840
    → 127840 ≤ handle
    → IsMessage m handle
    → IsMessage (put n m a v) handle
IsMessage-put n m a v handle below static (t, short, held) = (
  t,
  short,
  Spells-same m (put n m a v) (handle + 148) t (omega arith)
      (λ c lo hi. put_outside n m a v c (inr (omega arith))) held,
)

-- The stack, the global error buffer and the word of the failed handle.
abbrev pub IsShimStore : ℕ → ℕ → Type 0
IsShimStore a n =
    (a + n ≤ 65536)
    ⊎ (((errbuf_start ≤ a) × (a + n ≤ errbuf_start + 257))
        ⊎ ((failed_word ≤ a) × (a + n ≤ failed_word + 4)))

module _ (Data : Memory → Type 0) (Fits : ℕ → List ℕ → Type 0) (lib : Libpcap)
    (ok : IsLibpcap Data Fits lib) where
  pub data-put : (n : ℕ) (m : Memory) (a v : ℕ) → IsShimStore a n → Data m → Data (put n m a v)
  data-put n m a v at =
      ok.data_kept m (put n m a v) (omega arith)
        (λ c (lo, hi, b, l, e, f). put_outside n m a v c (omega arith))

  pub data-Keeps : (m m' : Memory) (b : ℕ) → 127840 ≤ b → Keeps b m m' → Data m → Data m'
  data-Keeps m m' b static keeps =
      ok.data_kept m m' keeps.size (λ c (lo, hi, b, l, e, f). keeps.same c (omega arith) b l)
