-- ===== src/Tool.antt =====
-- cmd/pcap-compile-filter/main.go: the command-line tool.
pub mod Mask
pub mod Ethers
pub mod Main
