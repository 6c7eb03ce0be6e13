-- ===== src/Caps/Authorize.antt =====
-- enforce_rate_limit and wdc_caps_authorize_host_call. The clock is an argument: the milliseconds
-- that caps_now_ms answers. The context of the authorizer is not NULL.
use pulse_esp32_host.Base.{
  u64, ℕ, ◌+◌, ◌/◌, Bool, true, false, ◌||◌, ◌&&◌, List, Option, none, some, Result, Status, ok,
  err, bad_encoding, rate_limited, unsupported_opcode, ltb, leb, ◌==◌, if◌then◌else◌, length,
  get_or, set, replicate, Text,
}
use pulse_esp32_host.Cbor.Find.{find_u32, find_text}
use pulse_esp32_host.Profile.Defs.{DeviceProfile, kind_gpio, kind_network}
use pulse_esp32_host.HostCall.Opcode.{
  Opcode, sys_get_info, net_status, timer_set, timer_cancel, gpio_get, gpio_set, gpio_subscribe,
  config_get, config_set, config_delete, mqtt_publish, mqtt_subscribe, http_request,
}
use pulse_esp32_host.HostCall.Response.{key_resource_id, key_key}
use pulse_esp32_host.Caps.Defs.{
  op_read, op_write, op_subscribe, op_publish, op_request, max_capabilities, Capability,
  CapabilitySet, Audit, Authorizer, audit_decision, caps_of, check_resource, check_config_key,
  enforce_payload_limit, find_resource_capability_index, find_config_capability_index,
}

abbrev pub blank_capability : Capability
blank_capability = record {
  capability_id = 0;
  kind = 0;
  resource_id = 0;
  resource_name = none;
  ops = 0;
  max_payload_bytes = 0;
  max_rate_hz = 0;
}

-- The milliseconds between two calls.
unfoldable pub rate_interval : ℕ → ℕ
rate_interval max_rate_hz = if 1000 / max_rate_hz == 0 then 1 else 1000 / max_rate_hz

-- The state of the authorizer and of the last audit record.
pub record CapsState : Type 0 where
  pub authorizer : Authorizer
  pub audit : Audit

abbrev pub seen_at : Authorizer → ℕ → Bool
seen_at a i = get_or a.rate_seen i false

abbrev pub next_allowed : Authorizer → ℕ → ℕ → ℕ
next_allowed a i interval_ms = u64 (get_or a.last_allowed_ms i 0 + interval_ms)

-- The call is allowed at `now`, or comes too early.
unfoldable pub limit_rate : ℕ → ℕ → ℕ → ℕ → CapsState → Status × CapsState
limit_rate max_rate_hz interval_ms now i s =
    let a = s.authorizer in
    let next = next_allowed a i interval_ms in
    let audit' : Audit = record s.audit {
      rate_limit_hz = max_rate_hz;
      now_ms = now;
      next_allowed_ms = if seen_at a i then next else now;
    } in
    if seen_at a i && ltb now next
    then (err rate_limited, record s { audit = audit_decision audit' (err rate_limited) })
    else (
      ok tt,
      record {
        authorizer = record a {
          last_allowed_ms = set a.last_allowed_ms i now;
          rate_seen = set a.rate_seen i true;
        };
        audit = audit';
      },
    )

unfoldable pub enforce_rate_limit : ℕ → Option ℕ → CapsState → Status × CapsState
unfolding limit_rate rate_interval
enforce_rate_limit now none s = (ok tt, s)
enforce_rate_limit now (some i) s =
    let caps = caps_of s.authorizer.capability_set in
    let max_rate_hz = (get_or caps i blank_capability).max_rate_hz in
    if leb max_capabilities i || leb (length caps) i
    then (ok tt, s)
    else if max_rate_hz == 0
    then (ok tt, s)
    else limit_rate max_rate_hz (rate_interval max_rate_hz) now i s

-- A step of a decision runs only if the steps before it allowed the call.
abbrev pub if_ok : Status × CapsState → (CapsState → Status × CapsState) → Status × CapsState
if_ok (err e, s) k = (err e, s)
if_ok (ok u, s) k = k s

abbrev pub audited : CapsState → Status × Audit → Status × CapsState
audited s (r, a) = (r, record s { audit = a })

-- The capability check, the payload limit where the call has one, and the rate limit.
unfoldable pub decide_resource :
    ℕ → Opcode → ℕ → ℕ → List ℕ → Bool → CapsState → ℕ → Status × CapsState
unfolding check_resource enforce_payload_limit find_resource_capability_index enforce_rate_limit
decide_resource now opcode kind op req has_payload s resource_id =
    let auth = s.authorizer in
    if_ok
      (if_ok
        (audited s (check_resource auth.capability_set auth.profile opcode kind op resource_id))
        (λ s'.
          if has_payload
          then audited s' (enforce_payload_limit opcode req s'.audit)
          else (ok tt, s')))
      (enforce_rate_limit now
        (find_resource_capability_index auth.capability_set kind op resource_id))

unfoldable pub decide_config : ℕ → Opcode → ℕ → List ℕ → CapsState → Text → Status × CapsState
unfolding check_config_key enforce_payload_limit find_config_capability_index enforce_rate_limit
decide_config now opcode op req s key =
    let auth = s.authorizer in
    if_ok
      (if_ok (audited s (check_config_key auth.capability_set opcode op key))
        (λ s'. audited s' (enforce_payload_limit opcode req s'.audit)))
      (enforce_rate_limit now (find_config_capability_index auth.capability_set op key))

-- A key that the request must hold.
abbrev pub with_key {ℓ} :
    {A : Type ℓ} → Result A → CapsState → (A → Status × CapsState) → Status × CapsState
with_key (ok a) s k = k a
with_key (err e) s k = (err bad_encoding, s)

-- The switch on the opcode; the function itself always answers WDC_OK beside the decision.
unfoldable pub decide : ℕ → Opcode → List ℕ → CapsState → Status × CapsState
unfolding decide_resource decide_config
decide now sys_get_info req s = (ok tt, s)
decide now net_status req s = (ok tt, s)
decide now timer_set req s = (ok tt, s)
decide now timer_cancel req s = (ok tt, s)
decide now gpio_get req s =
    with_key (find_u32 req key_resource_id) s
      (decide_resource now gpio_get kind_gpio op_read req false s)
decide now gpio_set req s =
    with_key (find_u32 req key_resource_id) s
      (decide_resource now gpio_set kind_gpio op_write req false s)
decide now gpio_subscribe req s =
    with_key (find_u32 req key_resource_id) s
      (decide_resource now gpio_subscribe kind_gpio op_subscribe req false s)
decide now config_get req s =
    with_key (find_text req key_key) s (decide_config now config_get op_read req s)
decide now config_set req s =
    with_key (find_text req key_key) s (decide_config now config_set op_write req s)
decide now config_delete req s =
    with_key (find_text req key_key) s (decide_config now config_delete op_write req s)
decide now mqtt_publish req s =
    with_key (find_u32 req key_resource_id) s
      (decide_resource now mqtt_publish kind_network op_publish req true s)
decide now mqtt_subscribe req s =
    with_key (find_u32 req key_resource_id) s
      (decide_resource now mqtt_subscribe kind_network op_subscribe req true s)
decide now http_request req s =
    with_key (find_u32 req key_resource_id) s
      (decide_resource now http_request kind_network op_request req true s)
decide now _ req s = (err unsupported_opcode, s)

-- The state that wdc_caps_install_host_authorizer starts with; `audit` is the zeroed record.
unfoldable pub install : Option DeviceProfile → Option CapabilitySet → Authorizer
install profile capability_set = record {
  profile = profile;
  capability_set = capability_set;
  last_allowed_ms = replicate max_capabilities 0;
  rate_seen = replicate max_capabilities false;
}
