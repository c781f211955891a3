-- ===== src/Wasm.antt =====
-- internal/bpf.go, the run-time part: 32-bit words, and the linear memory that the compiled code
-- and its host share.
pub mod Words
pub mod Memory
