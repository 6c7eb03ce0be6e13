-- ===== src/Caps/Spaced.antt =====
-- Two calls that a capability with a rate allows are its interval apart.
use pulse_esp32_host.Base.{ℕ, Bool, List, [], ◌∷◌, Status, ok, if◌then◌else◌}
use pulse_esp32_host.HostCall.Opcode.{Opcode}
use pulse_esp32_host.Caps.Defs.{check_resource, enforce_payload_limit}
use pulse_esp32_host.Caps.Authorize.{CapsState, if_ok, audited, decide}

-- A host call: its time, its opcode and its request.
abbrev pub Call : Type 0
Call = ℕ × Opcode × List ℕ

pub after_calls : CapsState → List Call → CapsState
after_calls s [] = s
after_calls s ((now, opcode, req) ∷ calls) = after_calls (decide now opcode req s).1 calls

-- The two checks before the rate limit.
abbrev checked : Opcode → ℕ → ℕ → List ℕ → Bool → CapsState → ℕ → Status × CapsState
checked opcode kind op req has_payload s id =
    if_ok
      (audited s
        (check_resource s.authorizer.capability_set s.authorizer.profile opcode kind op id))
      (λ s'.
        if has_payload then audited s' (enforce_payload_limit opcode req s'.audit) else (ok tt, s'))
