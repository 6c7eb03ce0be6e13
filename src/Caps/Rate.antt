-- ===== src/Caps/Rate.antt =====
-- The rate limit: a capability that allowed a call allows no other until its interval is over.
use pulse_esp32_host.Base.{
  ℕ, ◌+◌, ◌^◌, ◌<◌, ◌≡◌, ◌≢◌, Bool, true, false, Bool-cases, inl, inr, List, Option, none, some,
  Result, Status, ok, err, rate_limited, ◌==◌, if◌then◌else◌, length, length-set, get_or,
  get_or-set_ne, arith, Text,
}
use pulse_esp32_host.HostCall.Opcode.{Opcode}
use pulse_esp32_host.HostCall.Response.{key_resource_id, key_key}
use pulse_esp32_host.Cbor.Find.{find_u32, find_text}
use pulse_esp32_host.Caps.Defs.{
  CapabilitySet, Audit, Authorizer, max_capabilities, caps_of, check_resource, check_config_key,
  enforce_payload_limit, find_resource_capability_index, find_config_capability_index,
}
use pulse_esp32_host.Caps.Authorize.{
  CapsState, blank_capability, rate_interval, seen_at, limit_rate, enforce_rate_limit, if_ok,
  audited, decide_resource, decide_config, with_key, decide,
}

-- The tables have an entry for each capability.
pub record IsAuthorizer (a : Authorizer) : Type 0 where
  pub times : length a.last_allowed_ms ≡ max_capabilities
  pub flags : length a.rate_seen ≡ max_capabilities

-- The rate of the capability at an index.
abbrev pub rate_of : Option CapabilitySet → ℕ → ℕ
rate_of capability_set i = (get_or (caps_of capability_set) i blank_capability).max_rate_hz

module _ (i t : ℕ) (capability_set : Option CapabilitySet) where
  -- The capability allowed a call at `t`, and has a rate.
  pub record IsLocked (s : CapsState) : Type 0 where
    pub same_set : s.authorizer.capability_set ≡ capability_set
    pub tables : IsAuthorizer s.authorizer
    pub seen : seen_at s.authorizer i ≡ true
    pub last : get_or s.authorizer.last_allowed_ms i 0 ≡ t

  abbrev rate : ℕ
  rate = rate_of capability_set i

  module _ (fits : t + rate_interval rate < 2 ^ 64) (now : ℕ)
      (early : now < t + rate_interval rate) where
    limit_own :
        (s : CapsState)
        → IsLocked s
        → (limit_rate rate (rate_interval rate) now i s).0 ≡ err rate_limited
    unfolding limit_rate
    limit_own s l = ground (arith, l.seen, l.last)

    limit_own-IsLocked :
        (s : CapsState) → IsLocked s → IsLocked (limit_rate rate (rate_interval rate) now i s).1
    unfolding limit_rate
    limit_own-IsLocked s l = ground (arith, l.seen, l.last)

    limit_other-IsLocked :
        (r interval j : ℕ) (s : CapsState)
        → j ≢ i
        → IsLocked s
        → IsLocked (limit_rate r interval now j s).1
    unfolding limit_rate
    limit_other-IsLocked r interval j s ne l = ground (
      arith,
      length-set s.authorizer.last_allowed_ms j now,
      length-set s.authorizer.rate_seen j true,
      get_or-set_ne s.authorizer.last_allowed_ms j i now 0 ne,
      get_or-set_ne s.authorizer.rate_seen j i true false ne,
    )

    pub enforce_own :
        (s : CapsState)
        → IsLocked s
        → rate ≢ 0
        → i < max_capabilities
        → i < length (caps_of capability_set)
        → (enforce_rate_limit now (some i) s).0 ≡ err rate_limited
    unfolding enforce_rate_limit
    enforce_own s l positive small inside = ground (arith, limit_own s l, l.same_set)

    enforce-IsLocked :
        (o : Option ℕ) (s : CapsState) → IsLocked s → IsLocked (enforce_rate_limit now o s).1
    unfolding enforce_rate_limit
    enforce-IsLocked none s l = l
    enforce-IsLocked (some j) s l = elim (Bool-cases (j == i)) [
      | inl e ↦ ground (arith, limit_own-IsLocked s l, l.same_set)
      | inr e ↦ ground (
        arith,
        limit_other-IsLocked (rate_of s.authorizer.capability_set j)
            (rate_interval (rate_of s.authorizer.capability_set j)) j s (ground arith) l,
      )
    ]

    pub if_ok-IsLocked :
        (r : Status × CapsState) (k : CapsState → Status × CapsState)
        → IsLocked r.1
        → ((s : CapsState) → IsLocked s → IsLocked (k s).1)
        → IsLocked (if_ok r k).1
    if_ok-IsLocked (err e, s) k l h = l
    if_ok-IsLocked (ok u, s) k l h = h s l

    pub audited-IsLocked :
        (s : CapsState) (r : Status × Audit) → IsLocked s → IsLocked (audited s r).1
    audited-IsLocked s (r, a) l = record {
      same_set = l.same_set;
      tables = l.tables;
      seen = l.seen;
      last = l.last;
    }

    pub payload-IsLocked :
        (has_payload : Bool) (opcode : Opcode) (req : List ℕ) (s : CapsState)
        → IsLocked s
        → IsLocked
            (if has_payload
              then audited s (enforce_payload_limit opcode req s.audit)
              else (ok tt, s)).1
    payload-IsLocked true opcode req s l =
        audited-IsLocked s (enforce_payload_limit opcode req s.audit) l
    payload-IsLocked false opcode req s l = l

    decide_resource-IsLocked :
        (opcode : Opcode) (kind op : ℕ) (req : List ℕ) (has_payload : Bool) (s : CapsState) (id : ℕ)
        → IsLocked s
        → IsLocked (decide_resource now opcode kind op req has_payload s id).1
    unfolding decide_resource
    decide_resource-IsLocked opcode kind op req has_payload s id l =
        if_ok-IsLocked _ _
          (if_ok-IsLocked
            (audited s
              (check_resource s.authorizer.capability_set s.authorizer.profile opcode kind op id))
            _
            (audited-IsLocked s
              (check_resource s.authorizer.capability_set s.authorizer.profile opcode kind op id) l)
            (payload-IsLocked has_payload opcode req))
          (enforce-IsLocked (find_resource_capability_index s.authorizer.capability_set kind op id))

    decide_config-IsLocked :
        (opcode : Opcode) (op : ℕ) (req : List ℕ) (s : CapsState) (key : Text)
        → IsLocked s
        → IsLocked (decide_config now opcode op req s key).1
    unfolding decide_config
    decide_config-IsLocked opcode op req s key l =
        if_ok-IsLocked _ _
          (if_ok-IsLocked (audited s (check_config_key s.authorizer.capability_set opcode op key)) _
            (audited-IsLocked s (check_config_key s.authorizer.capability_set opcode op key) l)
            (payload-IsLocked true opcode req))
          (enforce-IsLocked (find_config_capability_index s.authorizer.capability_set op key))

    with_key-IsLocked {ℓ} :
        {A : Type ℓ} (r : Result A) (s : CapsState) (k : A → Status × CapsState)
        → IsLocked s
        → ((a : A) → IsLocked (k a).1)
        → IsLocked (with_key r s k).1
    with_key-IsLocked (ok a) s k l h = h a
    with_key-IsLocked (err e) s k l h = l

    pub decide-IsLocked :
        (opcode : Opcode) (req : List ℕ) (s : CapsState)
        → IsLocked s
        → IsLocked (decide now opcode req s).1
    unfolding decide
    decide-IsLocked Opcode.gpio_get req s l =
        with_key-IsLocked (find_u32 req key_resource_id) s _ l
          (λ id. decide_resource-IsLocked _ _ _ req false s id l)
    decide-IsLocked Opcode.gpio_set req s l =
        with_key-IsLocked (find_u32 req key_resource_id) s _ l
          (λ id. decide_resource-IsLocked _ _ _ req false s id l)
    decide-IsLocked Opcode.gpio_subscribe req s l =
        with_key-IsLocked (find_u32 req key_resource_id) s _ l
          (λ id. decide_resource-IsLocked _ _ _ req false s id l)
    decide-IsLocked Opcode.mqtt_publish req s l =
        with_key-IsLocked (find_u32 req key_resource_id) s _ l
          (λ id. decide_resource-IsLocked _ _ _ req true s id l)
    decide-IsLocked Opcode.mqtt_subscribe req s l =
        with_key-IsLocked (find_u32 req key_resource_id) s _ l
          (λ id. decide_resource-IsLocked _ _ _ req true s id l)
    decide-IsLocked Opcode.http_request req s l =
        with_key-IsLocked (find_u32 req key_resource_id) s _ l
          (λ id. decide_resource-IsLocked _ _ _ req true s id l)
    decide-IsLocked Opcode.config_get req s l =
        with_key-IsLocked (find_text req key_key) s _ l
          (λ key. decide_config-IsLocked _ _ req s key l)
    decide-IsLocked Opcode.config_set req s l =
        with_key-IsLocked (find_text req key_key) s _ l
          (λ key. decide_config-IsLocked _ _ req s key l)
    decide-IsLocked Opcode.config_delete req s l =
        with_key-IsLocked (find_text req key_key) s _ l
          (λ key. decide_config-IsLocked _ _ req s key l)
    decide-IsLocked _ req s l = l
