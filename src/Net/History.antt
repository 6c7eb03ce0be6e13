-- ===== src/Net/History.antt =====
-- What wdc_net.c records of the network calls over any history of calls and connection changes.
use pulse_esp32_host.Base.{ℕ, List, [], ◌∷◌, Option, Text}
use pulse_esp32_host.Events.Queue.{EventQueue}
use pulse_esp32_host.HostCall.Opcode.{Opcode}
use pulse_esp32_host.Net.Defs.{NetState, Net}
use pulse_esp32_host.Net.Calls.{net_host_call}
use pulse_esp32_host.Net.Steps.{net_set_state}
use pulse_esp32_host.Net.Allowed.{}

-- A call of the guest, with the space of its answer, or a change of the connection.
pub data Step : Type 0 where
  call : Opcode → List ℕ → ℕ → Step
  change : NetState → Option Text → Step

unfoldable pub step : Step → Net × EventQueue → Net × EventQueue
unfolding net_host_call net_set_state
step (call o req cap) (n, q) = ((net_host_call o req cap n).1, q)
step (change state reason) (n, q) = let out = net_set_state state reason n q in (out.1, out.2)

unfoldable pub run : List Step → Net × EventQueue → Net × EventQueue
unfolding step
run [] s = s
run (x ∷ xs) s = run xs (step x s)
