-- ===== src/Vm.antt =====
-- internal/bpf.go, `_pcapint_filter_with_aux_data`: the BPF virtual machine that runs a compiled
-- filter over a packet. `Label` is its switch, `Exec` the code behind the labels, `Run` the loop.
pub mod Label
pub mod Exec
pub mod Run
pub mod Spec
pub mod Sim
pub mod Refine
pub mod Filter
pub mod Fields
pub mod Validate
pub mod Terminate
