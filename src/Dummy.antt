-- ===== src/Dummy.antt =====
-- internal/bpf.go: pcap-dummy.c in its translation, which stands for the part of libpcap that opens
-- and closes a capture: a handle of 512 bytes on the heap. `none` is a Go panic.
pub mod Handle
pub mod Names
use go_pcapfilter.Prelude.{
  ℕ, zero, suc, ◌+◌, ◌-◌, ◌==◌, ltb, if◌then◌else◌, bit_and, bit_or, List, [], ◌∷◌, Option, none,
  some, ◌>>=◌,
}
use go_pcapfilter.Wasm.Words.{add32, sub32, neg32}
use go_pcapfilter.Wasm.Memory.{Memory, load8, load32, store32}
use go_pcapfilter.Heap.{free}
use go_pcapfilter.Heap.Calloc.{calloc}

-- Words stored at offsets from `p`, in order.
unfoldable pub store_fields : Memory → ℕ → List (ℕ × ℕ) → Option Memory
store_fields m p [] = some m
store_fields m p ((offset, v) ∷ fields) = do m ← store32 m (p + offset) v; store_fields m p fields

-- The fields of a handle; those from 464 to 504 and at 0 are functions, by their table index.
unfoldable pub handle_fields : ℕ → ℕ → List (ℕ × ℕ)
handle_fields link_type snaplen =
    (460, 8)
    ∷ (116, 0)
    ∷ (64, link_type)
    ∷ (60, snaplen)
    ∷ (504, 9)
    ∷ (496, 10)
    ∷ (492, 11)
    ∷ (488, 12)
    ∷ (484, 13)
    ∷ (480, 14)
    ∷ (476, 15)
    ∷ (472, 16)
    ∷ (464, 17)
    ∷ (0, 18)
    ∷ (128, 0)
    ∷ (76, 1)
    ∷ []

-- `_pcap_open_dummy`: a null handle where there is no memory.
unfoldable pub open_dummy : Memory → ℕ → ℕ → Option (Memory × ℕ)
open_dummy m link_type snaplen = do
  allocated ← calloc m 1 512
  let (m, p) = allocated
  if p == 0
      then some (m, p)
      else do m ← store_fields m p (handle_fields link_type snaplen); some (m, p)

-- `_pcap_close`
unfoldable pub close : Memory → ℕ → Option Memory
close m handle = free m handle

-- `_pcap_snapshot`: -3 for a handle that is not activated.
unfoldable pub snapshot : Memory → ℕ → Option ℕ
snapshot m handle = do
  activated ← load32 m (handle + 76)
  if activated == 0 then some (neg32 3) else load32 m (handle + 60)

-- `_pcap_datalink`
unfoldable pub datalink : Memory → ℕ → Option ℕ
datalink m handle = load32 m (handle + 64)

-- `_tolower`
unfoldable pub to_lower : ℕ → ℕ
to_lower c = if ltb (sub32 c 65) 26 then bit_or c 32 else c

-- `_pcapint_strcasecmp`, on fuel for the loop.
unfoldable pub strcasecmp : ℕ → Memory → ℕ → ℕ → Option ℕ
strcasecmp zero m s1 s2 = none
strcasecmp (suc fuel) m s1 s2 =
    let rest = strcasecmp fuel m (add32 s1 1) (add32 s2 1) in
    do
      c2 ← load8 m s2
      c1 ← load8 m s1
      let difference = sub32 (bit_and (to_lower c1) 255) (bit_and (to_lower c2) 255)
      if c1 == 0
          then some (sub32 c1 c2)
          else if c2 == 0
          then some (sub32 c1 c2)
          else if difference == 0
          then rest
          else some difference
