-- ===== src/Compile/Ready.antt =====
-- What `Compile` gives.
use go_pcapfilter.Prelude.{ℕ, Option, none, some}
use go_pcapfilter.Machine.{Machine}
use go_pcapfilter.Wasm.Memory.{Memory}
use go_pcapfilter.Compile.{Options, or_default, default_snaplen}

-- The snapshot length that the options ask for.
unfoldable pub asked_snaplen : {A : Type 0} → Option (Options A) → ℕ
asked_snaplen none = default_snaplen
asked_snaplen (some opts) = or_default default_snaplen opts.snaplen
