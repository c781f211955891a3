-- ===== src/Netdb.antt =====
-- internal/bpf.go: netdb.c in its translation, the lookup of a host for the compiler of libpcap: a
-- linked list of `struct addrinfo` on the heap, with one address of each family at most. A node has
-- 32 bytes, and a socket address 16 or 32. `none` is a Go panic.
pub mod Nodes
pub mod Added
pub mod Families
pub mod Found
pub mod Stack
pub mod Steps
pub mod Linked
pub mod Lists
pub mod Release
use go_pcapfilter.Prelude.{
  ℕ, zero, suc, ◌+◌, ◌==◌, ◌||◌, ltb, not, Bool, if◌then◌else◌, bit_and, bit_or, List, Option, none,
  some, ◌>>=◌,
}
use go_pcapfilter.Wasm.Words.{add32, sub32, neg32, u32}
use go_pcapfilter.Wasm.Memory.{Memory, load32, load64, store16, store32, store64}
use go_pcapfilter.Heap.{free}
use go_pcapfilter.Heap.Calloc.{calloc}
use go_pcapfilter.Env.{resolve_host}
use go_pcapfilter.Machine.{Machine}

-- The node is filled, and linked from the word at `tail`.
unfoldable pub link_node : Memory → ℕ → ℕ → ℕ → ℕ → ℕ → ℕ → Option Memory
link_node m ai addr len socktype family tail = do
  m ← store32 m (ai + 20) addr
  m ← store32 m (ai + 16) len
  m ← store32 m (ai + 8) socktype
  m ← store32 m (ai + 4) family
  store32 m tail ai

-- The labels l2 and l4: there is no memory for the node or the address.
unfoldable pub free_both : Memory → ℕ → ℕ → Option Memory
free_both m ai addr = do m ← free m ai; free m addr

-- The hints: the family and the type of the socket, with the result set to an empty list first.
unfoldable pub read_hints : Memory → ℕ → ℕ → Option (Memory × (ℕ × ℕ))
read_hints m hints res = do
  m ← store32 m res 0
  if hints == 0 then some (m, (0, 0)) else do
    socktype ← load32 m (hints + 8)
    family ← load32 m (hints + 4)
    some (m, (family, socktype))

-- The IPv4 address that `_resolve_host` has put at `frame`: the memory, and where the list goes on.
unfoldable pub add_ipv4 : Memory → ℕ → ℕ → ℕ → Option (Memory × ℕ)
add_ipv4 m frame socktype tail = do
  node ← calloc m 1 32
  let (m, ai) = node
  address ← calloc m 1 16
  let (m, sin) = address
  if ai == 0 || sin == 0 then (do m ← free_both m ai sin; some (m, tail)) else do
    m ← store16 m sin 1
    addr ← load32 m frame
    m ← store32 m (sin + 4) addr
    m ← link_node m ai sin 16 socktype 1 tail
    some (m, add32 ai 28)

-- The IPv6 address at `frame`.
unfoldable pub add_ipv6 : Memory → ℕ → ℕ → ℕ → Option Memory
add_ipv6 m frame socktype tail = do
  node ← calloc m 1 32
  let (m, ai) = node
  address ← calloc m 1 32
  let (m, sin) = address
  if ai == 0 || sin == 0 then free_both m ai sin else do
    low ← load64 m frame
    m ← store64 m (sin + 8) low
    high ← load64 m (frame + 8)
    m ← store64 m (sin + 16) high
    m ← store16 m sin 2
    link_node m ai sin 32 socktype 2 tail

-- The addresses of net/netip and the lookup function of the program, as in the environment.
module _ {A : Type 0} (is4 is6 : A → Bool) (as4 as16 : A → List ℕ)
    (lookup : Option (List ℕ → Option (List A))) where
  -- To the label l1: the memory, and where the list goes on.
  unfoldable pub lookup_ipv4 : Memory → ℕ → ℕ → ℕ × ℕ → ℕ → Option (Memory × ℕ)
  lookup_ipv4 m host frame (family, socktype) res = if ltb 1 family then some (m, res) else do
    answer ← resolve_host is4 is6 as4 as16 lookup m host 4 frame
    let (m, status) = answer
    if not (status == 0) then some (m, res) else add_ipv4 m frame socktype res

  -- From the label l1 to the label l3.
  unfoldable pub lookup_ipv6 : Memory → ℕ → ℕ → ℕ × ℕ → ℕ → Option Memory
  lookup_ipv6 m host frame (family, socktype) tail =
      if not (bit_and family (neg32 3) == 0) then some m else do
        answer ← resolve_host is4 is6 as4 as16 lookup m host 6 frame
        let (m, status) = answer
        if not (status == 0) then some m else add_ipv6 m frame socktype tail

  -- `_getaddrinfo`: -2 for a null host and for an empty list.
  unfoldable pub getaddrinfo : Machine → ℕ → ℕ → ℕ → Option (Machine × ℕ)
  getaddrinfo s host hints res =
      let frame = sub32 s.stack_pointer 16 in
      let left = add32 frame 16 in
      if host == 0 then some (record s { stack_pointer = left }, neg32 2) else do
        hinted ← read_hints s.memory hints res
        let (m, wanted) = hinted
        found ← lookup_ipv4 m host frame wanted res
        let (m, tail) = found
        m ← lookup_ipv6 m host frame wanted tail
        list ← load32 m res
        some (record { memory = m; stack_pointer = left }, if list == 0 then neg32 2 else 0)

-- `_freeaddrinfo`, on fuel for the loop.
unfoldable pub freeaddrinfo : ℕ → Memory → ℕ → Option Memory
freeaddrinfo zero m res = none
freeaddrinfo (suc fuel) m res = if res == 0 then some m else do
  next ← load32 m (res + 28)
  address ← load32 m (res + 20)
  m ← free m address
  m ← free m res
  freeaddrinfo fuel m next
