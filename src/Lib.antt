-- ===== src/Lib.antt =====
-- go-pcapfilter compiles tcpdump filter expressions to BPF programs and runs them. The Go package
-- (filter.go) holds a compiled program in the linear memory of a module that was translated from
-- WebAssembly to Go (internal/bpf.go), which contains libpcap. This library models the part that
-- decides whether a packet matches, from `Program.Match` down to the single instruction, the
-- reading of a program, `Compile` around the compiler of libpcap, the exchange of texts and
-- addresses with the module, the link-layer types, and the parsing done by the command-line tool.
--
-- Prelude: Boolean tests, lists and options over the native numbers, texts as code points.
-- Wasm: internal/bpf.go, the helpers at its end. Wasm.Words has the 32-bit arithmetic (`i32_shl`,
-- `i32_rotr`, `_ntohl`, the operators of int32 on bit patterns); Wasm.Memory the linear memory
-- (`load32`, `store32`, `memory_fill` and the others), where `none` is a Go panic.
-- Vm: internal/bpf.go, `_pcapint_filter_with_aux_data` and `Xpcapint_filter`. Vm.Label is the
-- switch on the opcode, Vm.Exec the code behind the labels, Vm.Run the loop and the function as a
-- whole. Vm.Spec is the virtual machine as it is specified, without addresses; Vm.Sim, Vm.Refine,
-- Vm.Terminate and Vm.Filter relate the two. Vm.Fields is the encoding of an opcode by its fields,
-- beside the table of the switch. Vm.Validate is `_pcapint_validate_filter`, and the virtual
-- machine as a relation of steps.
-- Instruction and Program: filter.go, `RawInstruction`, `Program` and its methods `Bytes`,
-- `Instructions`, `Match` and `String`. A method holds the mutex of its program, so it is one
-- step.
-- Heap: internal/bpf.go, `Xmalloc`, `Xfree`, `_calloc` and `_realloc`, which keep their state in
-- words of the memory.
-- Libc: internal/libc.go, the C functions on strings that are written in Go, and `_strlcpy` of
-- internal/bpf.go.
-- Env: filter.go, the type `env`: `cstr` and `mkcstr` exchange texts with the module, and
-- `Xresolve_host` and `Xether_hostton` answer the lookups that the compiler of libpcap makes. The
-- lookup functions and the addresses of net/netip are parameters.
-- Netdb: internal/bpf.go, the functions of netdb.c that look up the addresses of a host for the
-- compiler of libpcap, as a linked list on the heap, and give the list back.
-- Dummy: internal/bpf.go, the functions of pcap-dummy.c that open, close and read the handle of a
-- capture, and compare names.
-- Machine: internal/bpf.go, `Xbpf_compile` and `Xbpf_errbuf`, the shim around libpcap. The three
-- functions of libpcap that it calls are parameters, and the handle is that of Dummy;
-- Machine.Contract says what is relied on in the calls that the shim makes: with the static data
-- of libpcap in place, the stack pointer of `New`, the handle as `_pcap_open_dummy` leaves it and
-- a text in the heap, `pcap_compile` keeps the heap, the handle and the stack, and lays the
-- compiled program past the stack and inside the heap, with a block behind the handle, or leaves a
-- message in the handle; `snprintf` of that message, and of the text without arguments, returns.
-- That a text fits, that is, that it compiles within the stack, the lower half of the address
-- space and 3,060,000 instructions, is a hypothesis on the text. A call may end in the panic of
-- `Xpanic`.
-- Compile: filter.go, `Compile`, with its options and its deferred functions, from the machine
-- that `New` makes. Its texts go through Env and Heap, its result is a `Program`.
-- LinkType: internal/const.go and dlt_generated.go, the constants and `LookupLinkType`, with the
-- tables as they are generated. LinkType.Generator is dlt.go, which generates them.
-- Tool: cmd/pcap-compile-filter/main.go, `parseMask`, `loadEthers` and `main`, which calls Compile
-- and Program. The parsers of net, net/netip and strconv, the functions of strings, the file, the
-- resolver and the writing of the output are parameters.
-- Constgen: src/constgen.go, which reads the constants of internal/const.go in C headers.
-- Download: src/download.go, which unpacks the archive that the build compiles.
-- Samples: small tests and concrete runs.
--
-- Bounds and fuel: a program has at most 3,060,000 instructions, as the compiled code demands.
-- Each instruction runs at most 65 times, since a jump goes back at most 64 times: 65 rounds for
-- each instruction and one more are always enough. A numeral below 2 ^ 32 stands for an int32 and
-- for a uint32 with the same bits. That the program, the packet buffer and the stack lie apart in
-- the memory is `IsReady`, a hypothesis on a program. The mapping of letters past ASCII by
-- `strings.ToUpper` is a parameter. The heap grows in two rounds at most, which are the fuel of
-- that loop. The loops over a text and over a list of addresses have one round more than the text
-- has bytes and the list has nodes. A Go slice is taken to end at its length, since its capacity
-- is up to the runtime.
--
-- Not modelled: the compiler of libpcap and its disassembler, which are a copy of another project;
-- `_inet_pton` of netinet.c, which is the code of another project too; the Go text around the
-- entries that the two generators print; the parsing of the command line and what the tool prints
-- on the standard error; the line that `newLookup` prints on the standard output for each lookup,
-- and the extra lookup that it makes for it. The variables `DefaultLinkType` and `DefaultSnaplen`
-- have the values that they are initialized with.
pub mod Prelude
pub mod Wasm
pub mod Instruction
pub mod Vm
pub mod LinkType
pub mod Program
pub mod Compile
pub mod Constgen
pub mod Download
pub mod Dummy
pub mod Env
pub mod Heap
pub mod Libc
pub mod Machine
pub mod Netdb
pub mod Tool
pub mod Samples
