-- ===== src/Net/Fits.antt =====
-- The answers of wdc_net.c fit their buffer, and a guest call with its hook keeps to its window.
use pulse_esp32_host.Base.{ℕ}
use pulse_esp32_host.HostCall.Opcode.{Opcode}
use pulse_esp32_host.HostCall.Bounds.{InBound}
use pulse_esp32_host.Net.Defs.{Net}
use pulse_esp32_host.Net.Calls.{Answer}

abbrev Fits : ℕ → Answer → Type 0
Fits cap a = InBound cap a.0
