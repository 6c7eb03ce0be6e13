-- ===== src/HostCall/Dispatch.antt =====
-- wdc_host_call_dispatch and the authorization before it.
use pulse_esp32_host.Base.{
  ℕ, Bool, false, not, ◌||◌, ◌&&◌, List, [], Option, none, some, Result, Status, ok, err,
  unsupported_opcode, bad_length, bad_pointer, bad_encoding, response_too_small, capability_denied,
  ltb, ◌==◌, if◌then◌else◌, length,
}
use pulse_esp32_host.Cbor.Find.{is_empty_or_map}
use pulse_esp32_host.HostCall.Opcode.{
  Opcode, sys_get_info, timer_set, timer_cancel, config_get, config_set, config_delete, gpio_get,
  gpio_set, gpio_subscribe, net_status, mqtt_publish, mqtt_subscribe, http_request, opcode_known,
  opcode_supported_r8, opcode_safe_without_authorizer,
}
use pulse_esp32_host.HostCall.Handlers
use pulse_esp32_host.HostCall.Response.{sys_info, response_status}
use pulse_esp32_host.HostCall.Handlers.{Hooks, State, Reply}

-- A request pointer with its length: `null n` is the NULL pointer with the length n.
pub data Request : Type 0 where
  given : List ℕ → Request
  null : ℕ → Request

abbrev pub request_len : Request → ℕ
request_len (given req) = length req
request_len (null n) = n

abbrev pub request_bytes : Request → List ℕ
request_bytes (given req) = req
request_bytes (null n) = []

abbrev pub is_null_request : Request → Bool
is_null_request (given req) = false
is_null_request (null n) = not (n == 0)

-- What maybe_authorize leaves to do: an error to return, a response that was written, or the call.
pub data Verdict : Type 0 where
  refused : Result (List ℕ) → Verdict
  proceed : Verdict

abbrev pub verdict_of : ℕ → Result Status → Verdict
verdict_of cap (err e) = refused (err e)
verdict_of cap (ok (ok u)) = proceed
verdict_of cap (ok (err decision)) = refused (response_status cap (err decision))

module _ {W : Type 0} (hooks : Hooks W) where
  unfoldable pub authorize_with :
      Option (Opcode → List ℕ → W → Result Status × W)
      → Opcode
      → List ℕ
      → ℕ
      → State hooks
      → Verdict × State hooks
  unfolding opcode_safe_without_authorizer
  authorize_with none opcode req cap s =
      if opcode_safe_without_authorizer opcode
      then (proceed, s)
      else (refused (response_status cap (err capability_denied)), s)
  authorize_with (some authorizer) opcode req cap s =
      let (decision, world) = authorizer opcode req s.world in
      (verdict_of cap decision, record s { world = world })

  unfoldable pub maybe_authorize : Opcode → List ℕ → ℕ → State hooks → Verdict × State hooks
  unfolding authorize_with
  maybe_authorize opcode req cap s = authorize_with hooks.authorizer opcode req cap s

  -- The switch on the opcode.
  unfoldable pub run_handler : Opcode → List ℕ → ℕ → State hooks → Reply hooks
  run_handler sys_get_info req cap s = (sys_info cap, s)
  run_handler timer_set req cap s = Handlers.timer_set hooks req cap s
  run_handler timer_cancel req cap s = Handlers.timer_cancel hooks req cap s
  run_handler config_get req cap s = Handlers.config_get hooks req cap s
  run_handler config_set req cap s = Handlers.config_set hooks req cap s
  run_handler config_delete req cap s = Handlers.config_delete hooks req cap s
  run_handler gpio_get req cap s = Handlers.gpio_get hooks req cap s
  run_handler gpio_set req cap s = Handlers.gpio_set hooks req cap s
  run_handler gpio_subscribe req cap s = Handlers.gpio_subscribe hooks req cap s
  run_handler net_status req cap s = Handlers.network_call hooks net_status req cap s
  run_handler mqtt_publish req cap s = Handlers.network_call hooks mqtt_publish req cap s
  run_handler mqtt_subscribe req cap s = Handlers.network_call hooks mqtt_subscribe req cap s
  run_handler http_request req cap s = Handlers.network_call hooks http_request req cap s
  run_handler _ req cap s = (err unsupported_opcode, s)

  abbrev pub after_verdict : Opcode → List ℕ → ℕ → Verdict × State hooks → Reply hooks
  after_verdict opcode req cap (refused r, s) = (r, s)
  after_verdict opcode req cap (proceed, s) = run_handler opcode req cap s

  -- `rsp_given` says that the response pointer is not NULL, and `cap` is its capacity.
  unfoldable pub dispatch : Opcode → Request → Bool → ℕ → State hooks → Reply hooks
  unfolding opcode_known opcode_supported_r8 maybe_authorize run_handler
  dispatch opcode request rsp_given cap s =
      if not (opcode_known opcode) || not (opcode_supported_r8 opcode)
      then (err unsupported_opcode, s)
      else if ltb s.host.limits.max_request_bytes (request_len request)
          || ltb s.host.limits.max_response_bytes cap
      then (err bad_length, s)
      else if is_null_request request
      then (err bad_pointer, s)
      else if not rsp_given && not (cap == 0)
      then (err bad_pointer, s)
      else if cap == 0
      then (err response_too_small, s)
      else if not (is_empty_or_map (request_bytes request))
      then (err bad_encoding, s)
      else after_verdict opcode (request_bytes request) cap
          (maybe_authorize opcode (request_bytes request) cap s)
