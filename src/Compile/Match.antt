-- ===== src/Compile/Match.antt =====
-- `Compile`, and then `Match` on the program that it returns.
use go_pcapfilter.Prelude.{ℕ, ◌≡◌, ◌==◌, not, List, some, length}
use go_pcapfilter.Wasm.Memory.{Memory}
use go_pcapfilter.Vm.Run.{enough}
use go_pcapfilter.Vm.Spec.{eval, initial}
use go_pcapfilter.Machine.{Machine}
use go_pcapfilter.Program.{Program, answer, bytes, match_packet}
use go_pcapfilter.Program.Instructions.{parse}
use go_pcapfilter.Program.Match.{captured, listed}

-- `Bytes` and `Match` of a program agree on what it is: the answer is what the specification says
-- of the parsed bytes and the captured part of the packet.
abbrev pub Runs : Program → List ℕ → Type 0
Runs p packet =
    (bs : List ℕ) × (v : ℕ) × (m : Memory) × (bytes p ≡ some bs)
    × (match_packet p packet ≡ answer (not (v == 0)) m)
    × (eval (enough (length (parse bs))) (listed (parse bs) (captured p packet) (length packet))
          initial
        ≡ some v)
