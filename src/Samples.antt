-- ===== src/Samples.antt =====
-- Concrete programs, and the theorems at concrete inputs.
mod Filtering
mod Tables
mod Memory
mod Lookups
mod Validation
mod Texts
mod Compiling
mod Tools
mod Running
mod Generating
mod Handles
mod Addresses
mod Archives
