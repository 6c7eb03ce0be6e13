-- ===== src/HostCall/Answers.antt =====
-- Every handler's answer fits the response buffer, and so does the answer of a call.
use pulse_esp32_host.Base.{
  ℕ, Bool, true, false, List, Option, none, some, Result, Status, ok, err, wdc_ok, not_available,
  invalid_resource, no_memory, capability_denied, arith, or_missing,
}
use pulse_esp32_host.Cbor.Find.{find_u32, find_bool, find_bytes, find_text}
use pulse_esp32_host.HostCall.Opcode.{Opcode}
use pulse_esp32_host.HostCall.Store.{ConfigSlot, TimerSlot, config_is, find_index}
use pulse_esp32_host.HostCall.Handlers
use pulse_esp32_host.HostCall.Response.{
  read_value, key_resource_id, key_timer_id, key_delay_ms, key_repeat, key_key, key_data,
}
use pulse_esp32_host.HostCall.Handlers.{
  Hooks, State, Reply, need, call_write, call_read, call_net, written_level, read_level, own_level,
  put_timer, put_config, get_config, checked_gpio_set, checked_gpio_get, checked_subscribe,
  checked_delay, checked_timer_set, timer_index, checked_cancel, checked_config_set, config_index,
  checked_config_get, checked_config_delete,
}
use pulse_esp32_host.HostCall.Dispatch.{
  Request, request_bytes, verdict_of, authorize_with, maybe_authorize, run_handler, after_verdict,
  dispatch,
}
use pulse_esp32_host.HostCall.Bounds.{
  InBound, response_status-InBound, response_status_value-InBound, sys_info-InBound,
  config_answer-InBound,
}

-- What the calls rely on where a network hook is installed: its answer fits the buffer it is given.
abbrev pub NetFits : {W : Type 0} → Option (Opcode → List ℕ → ℕ → W → Result (List ℕ) × W) → Type 0
NetFits none = Unit
NetFits {W} (some net) =
    (opcode : Opcode) (req : List ℕ) (cap : ℕ) (w : W) → InBound cap (net opcode req cap w).0

module _ {W : Type 0} (hooks : Hooks W) where
  need-InBound {ℓ} :
      {A : Type ℓ} (size : ℕ) (r : Result A) (s : State hooks) (k : A → Reply hooks)
      → ((a : A) → InBound size (k a).0)
      → InBound size (need hooks r s k).0
  need-InBound size (ok a) s k h = h a
  need-InBound size (err e) s k h = tt

  written_level-InBound :
      (size id value : ℕ) (r : Status × State hooks)
      → InBound size (written_level hooks size id value r).0
  written_level-InBound size id value (err e, s) = response_status-InBound size (err e)
  written_level-InBound size id value (ok u, s) = response_status-InBound size wdc_ok

  gpio_set-InBound :
      (req : List ℕ) (size : ℕ) (s : State hooks)
      → InBound size (Handlers.gpio_set hooks req size s).0
  unfolding Handlers.gpio_set
  gpio_set-InBound req size s =
      need-InBound size (find_u32 req key_resource_id) s
        (λ id. need hooks (read_value req) s (checked_gpio_set hooks size s id))
        (λ id. need-InBound size (read_value req) s (checked_gpio_set hooks size s id) (λ value.
          ground (
            arith,
            response_status-InBound size (err invalid_resource),
            written_level-InBound size id value (call_write hooks hooks.gpio_write id value s),
          )))

  read_level-InBound :
      (size id : ℕ) (r : Result ℕ × State hooks) → InBound size (read_level hooks size id r).0
  read_level-InBound size id (ok level, s) = response_status_value-InBound size wdc_ok _
  read_level-InBound size id (err not_available, s) = response_status_value-InBound size wdc_ok _
  read_level-InBound size id (err e, s) = response_status-InBound size (err e)

  gpio_get-InBound :
      (req : List ℕ) (size : ℕ) (s : State hooks)
      → InBound size (Handlers.gpio_get hooks req size s).0
  unfolding Handlers.gpio_get
  gpio_get-InBound req size s =
      need-InBound size (find_u32 req key_resource_id) s (checked_gpio_get hooks size s) (λ id.
        ground (
          arith,
          response_status-InBound size (err invalid_resource),
          read_level-InBound size id (call_read hooks hooks.gpio_read id s),
        ))

  gpio_subscribe-InBound :
      (req : List ℕ) (size : ℕ) (s : State hooks)
      → InBound size (Handlers.gpio_subscribe hooks req size s).0
  unfolding Handlers.gpio_subscribe
  gpio_subscribe-InBound req size s =
      need-InBound size (find_u32 req key_resource_id) s (checked_subscribe hooks size s) (λ id.
        ground (
          arith,
          response_status-InBound size (err invalid_resource),
          response_status-InBound size wdc_ok,
        ))

  put_timer-InBound :
      (size : ℕ) (t : TimerSlot) (o : Option ℕ) (s : State hooks)
      → InBound size (put_timer hooks size t o s).0
  put_timer-InBound size t none s = response_status-InBound size (err no_memory)
  put_timer-InBound size t (some i) s = response_status-InBound size wdc_ok

  timer_set-InBound :
      (req : List ℕ) (size : ℕ) (s : State hooks)
      → InBound size (Handlers.timer_set hooks req size s).0
  unfolding Handlers.timer_set
  timer_set-InBound req size s =
      need-InBound size (find_u32 req key_timer_id) s
        (λ id. need hooks (find_u32 req key_delay_ms) s (checked_delay hooks req size s id))
        (λ id.
          need-InBound size (find_u32 req key_delay_ms) s (checked_delay hooks req size s id)
            (λ delay. ground (
              arith,
              need-InBound size (or_missing (find_bool req key_repeat) false) s
                  (checked_timer_set hooks size s id delay)
                  (λ repeat. put_timer-InBound size _ (timer_index hooks s id) s),
            )))

  timer_cancel-InBound :
      (req : List ℕ) (size : ℕ) (s : State hooks)
      → InBound size (Handlers.timer_cancel hooks req size s).0
  unfolding Handlers.timer_cancel
  timer_cancel-InBound req size s =
      need-InBound size (find_u32 req key_timer_id) s (checked_cancel hooks size s)
        (λ id. ground (arith, response_status-InBound size wdc_ok))

  put_config-InBound :
      (size : ℕ) (c : ConfigSlot) (o : Option ℕ) (s : State hooks)
      → InBound size (put_config hooks size c o s).0
  put_config-InBound size c none s = response_status-InBound size (err no_memory)
  put_config-InBound size c (some i) s = response_status-InBound size wdc_ok

  config_set-InBound :
      (req : List ℕ) (size : ℕ) (s : State hooks)
      → InBound size (Handlers.config_set hooks req size s).0
  unfolding Handlers.config_set
  config_set-InBound req size s =
      need-InBound size (find_text req key_key) s
        (λ key. need hooks (find_bytes req key_data) s (checked_config_set hooks size s key))
        (λ key.
          need-InBound size (find_bytes req key_data) s (checked_config_set hooks size s key)
            (λ value. ground (
              arith,
              put_config-InBound size (record { used = true; key = key; value = value })
                  (config_index hooks s key) s,
            )))

  get_config-InBound :
      (size : ℕ) (o : Option ℕ) (s : State hooks) → InBound size (get_config hooks size o s).0
  get_config-InBound size none s = response_status-InBound size (err not_available)
  get_config-InBound size (some i) s = config_answer-InBound size _

  config_get-InBound :
      (req : List ℕ) (size : ℕ) (s : State hooks)
      → InBound size (Handlers.config_get hooks req size s).0
  unfolding Handlers.config_get
  config_get-InBound req size s =
      need-InBound size (find_text req key_key) s (checked_config_get hooks size s)
        (λ key. get_config-InBound size (find_index (config_is key) s.host.config) s)

  config_delete-InBound :
      (req : List ℕ) (size : ℕ) (s : State hooks)
      → InBound size (Handlers.config_delete hooks req size s).0
  unfolding Handlers.config_delete
  config_delete-InBound req size s =
      need-InBound size (find_text req key_key) s (checked_config_delete hooks size s)
        (λ key. response_status-InBound size wdc_ok)

  call_net-InBound :
      (net : Option (Opcode → List ℕ → ℕ → W → Result (List ℕ) × W)) (opcode : Opcode)
      (req : List ℕ) (size : ℕ) (s : State hooks)
      → NetFits net
      → InBound size (call_net hooks net opcode req size s).0
  unfolding call_net
  call_net-InBound none opcode req size s fits = response_status-InBound size (err not_available)
  call_net-InBound (some net) opcode req size s fits = fits opcode req size s.world

  module _ (fits : NetFits hooks.net) where
    run_handler-InBound :
        (opcode : Opcode) (req : List ℕ) (size : ℕ) (s : State hooks)
        → InBound size (run_handler hooks opcode req size s).0
    unfolding run_handler Handlers.network_call
    run_handler-InBound Opcode.sys_get_info req size s = sys_info-InBound size
    run_handler-InBound Opcode.timer_set req size s = timer_set-InBound req size s
    run_handler-InBound Opcode.timer_cancel req size s = timer_cancel-InBound req size s
    run_handler-InBound Opcode.config_get req size s = config_get-InBound req size s
    run_handler-InBound Opcode.config_set req size s = config_set-InBound req size s
    run_handler-InBound Opcode.config_delete req size s = config_delete-InBound req size s
    run_handler-InBound Opcode.gpio_get req size s = gpio_get-InBound req size s
    run_handler-InBound Opcode.gpio_set req size s = gpio_set-InBound req size s
    run_handler-InBound Opcode.gpio_subscribe req size s = gpio_subscribe-InBound req size s
    run_handler-InBound Opcode.net_status req size s = call_net-InBound hooks.net _ req size s fits
    run_handler-InBound Opcode.mqtt_publish req size s =
        call_net-InBound hooks.net _ req size s fits
    run_handler-InBound Opcode.mqtt_subscribe req size s =
        call_net-InBound hooks.net _ req size s fits
    run_handler-InBound Opcode.http_request req size s =
        call_net-InBound hooks.net _ req size s fits
    run_handler-InBound _ req size s = tt

    verdict-InBound :
        (opcode : Opcode) (req : List ℕ) (size : ℕ)
        (authorizer : Option (Opcode → List ℕ → W → Result Status × W)) (s : State hooks)
        → InBound size
            (after_verdict hooks opcode req size
              (authorize_with hooks authorizer opcode req size s)).0
    unfolding authorize_with
    verdict-InBound opcode req size none s = ground (
      arith,
      response_status-InBound size (err capability_denied),
      run_handler-InBound opcode req size s,
    )
    verdict-InBound opcode req size (some authorizer) s = decided (authorizer opcode req s.world)
      where
        decided :
            (r : Result Status × W)
            → InBound size
                (after_verdict hooks opcode req size
                  (verdict_of size r.0, record s { world = r.1 })).0
        decided (err e, w) = tt
        decided (ok (ok u), w) = run_handler-InBound opcode req size (record s { world = w })
        decided (ok (err e), w) = response_status-InBound size (err e)

    pub dispatch-InBound :
        (opcode : Opcode) (request : Request) (rsp_given : Bool) (size : ℕ) (s : State hooks)
        → InBound size (dispatch hooks opcode request rsp_given size s).0
    unfolding dispatch maybe_authorize
    dispatch-InBound opcode request rsp_given size s =
        ground (arith, verdict-InBound opcode (request_bytes request) size hooks.authorizer s)
