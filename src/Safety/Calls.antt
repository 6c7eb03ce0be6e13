-- ===== src/Safety/Calls.antt =====
-- Host calls that are dispatched with the guarded authorizer while the app does not run.
use pulse_esp32_host.Base.{
  ℕ, ◌≡◌, refl, sym, subst, Bool, true, false, List, Option, some, Result, Status, ok, err, Error,
  if◌then◌else◌, invalid_state, bad_encoding, response_too_small, bad_pointer, bad_length,
  unsupported_opcode, not, ◌||◌, ◌&&◌, ◌==◌, ltb,
}
use pulse_esp32_host.Gpio.Driver.{Driver}
use pulse_esp32_host.HostCall.Opcode.{Opcode, opcode_known, opcode_supported_r8}
use pulse_esp32_host.Cbor.Find.{is_empty_or_map}
use pulse_esp32_host.HostCall.Response.{response_status}
use pulse_esp32_host.HostCall.Handlers.{Hooks, State, Reply}
use pulse_esp32_host.HostCall.Dispatch.{
  Request, request_len, is_null_request, dispatch, request_bytes, authorize_with, maybe_authorize,
  after_verdict, verdict_of,
}
use pulse_esp32_host.Safety.Defs.{Shell, effectful_when_stopped}
use pulse_esp32_host.Safety.Force.{is_running}
use pulse_esp32_host.Safety.Steps.{authorize_host_call}
use pulse_esp32_host.Safety.Guard.{denied}

-- What wdc_host_call_set_authorizer installs: the function answers WDC_OK with its decision.
abbrev pub guard : (d : Driver) → ℕ → Opcode → List ℕ → Shell d → Result Status × Shell d
guard d now opcode req w =
    let (decision, w') = authorize_host_call d now opcode req w in (ok decision, w')

-- An answer that is an error of the dispatch or the response that carries the refusal.
abbrev pub IsRefusal : ℕ → Result (List ℕ) → Type 0
IsRefusal size (err e) = Unit
IsRefusal size (ok rsp) = response_status size (err invalid_state) ≡ ok rsp

err-IsRefusal : (size : ℕ) (e : Error) → IsRefusal size (err e)
err-IsRefusal size e = tt

response-IsRefusal : (size : ℕ) → IsRefusal size (response_status size (err invalid_state))
response-IsRefusal size = go (response_status size (err invalid_state)) refl
  where
    go : (r : Result (List ℕ)) → response_status size (err invalid_state) ≡ r → IsRefusal size r
    go (err e) h = tt
    go (ok rsp) h = h

module _ (d : Driver) (now : ℕ) (hooks : Hooks (Shell d)) where
  abbrev pub Unchanged : State hooks → State hooks → Type 0
  Unchanged s s' =
      (s'.host ≡ s.host)
      × (s'.world.gpio ≡ s.world.gpio)
      × (s'.world.caps ≡ s.world.caps)
      × (s'.world.status.state ≡ s.world.status.state)

  pub record IsRefused (size : ℕ) (s : State hooks) (reply : Reply hooks) : Type 0 where
    pub answer : IsRefusal size reply.0
    pub same : Unchanged s reply.1

  denial-IsRefused :
      (opcode : Opcode) (req : List ℕ) (size : ℕ) (s : State hooks) (decision : Status)
      (w : Shell d)
      → decision ≡ err invalid_state
      → Unchanged s (record s { world = w })
      → IsRefused size s (
          after_verdict hooks opcode req size
            (verdict_of size (ok decision), record s { world = w }))
  denial-IsRefused opcode req size s decision w h same =
      subst
        (λ (k : Status).
          IsRefused size s
            (after_verdict hooks opcode req size (verdict_of size (ok k), record s { world = w })))
        (sym h) (record { answer = response-IsRefusal size; same = same })

  authorized-IsRefused :
      (opcode : Opcode) (req : List ℕ) (size : ℕ) (s : State hooks)
      → hooks.authorizer ≡ some (guard d now)
      → is_running s.world.status.state ≡ false
      → effectful_when_stopped opcode ≡ true
      → IsRefused size s
          (after_verdict hooks opcode req size (maybe_authorize hooks opcode req size s))
  unfolding maybe_authorize authorize_with
  authorized-IsRefused opcode req size s h stopped e =
      let (answer, gpio, caps, state) = denied d now opcode req s.world stopped e in
      subst
        (λ (k : Option (Opcode → List ℕ → Shell d → Result Status × Shell d)).
          IsRefused size s
            (after_verdict hooks opcode req size (authorize_with hooks k opcode req size s)))
        (sym h)
        (denial-IsRefused opcode req size s (authorize_host_call d now opcode req s.world).0
          (authorize_host_call d now opcode req s.world).1 answer (refl, gpio, caps, state))

  if-IsRefused :
      (size : ℕ) (s : State hooks) (b : Bool) (e : Error) (r : Reply hooks)
      → IsRefused size s r
      → IsRefused size s (if b then (err e, s) else r)
  if-IsRefused size s true e r h = record { answer = tt; same = (refl, refl, refl, refl) }
  if-IsRefused size s false e r h = h

  -- A dispatched call with effects, while the app does not run and the guarded authorizer is
  -- installed, answers an error or the response that carries WDC_ERR_INVALID_STATE, and leaves the
  -- host tables, the outputs, the capabilities' state and the safety state as they were, whatever
  -- the request and the other hooks are.
  pub stopped_call-IsRefused :
      (opcode : Opcode) (request : Request) (rsp_given : Bool) (size : ℕ) (s : State hooks)
      → hooks.authorizer ≡ some (guard d now)
      → is_running s.world.status.state ≡ false
      → effectful_when_stopped opcode ≡ true
      → IsRefused size s (dispatch hooks opcode request rsp_given size s)
  unfolding dispatch
  stopped_call-IsRefused opcode request rsp_given size s h stopped e =
      let call = authorized-IsRefused opcode (request_bytes request) size s h stopped e in
      let bad_map =
        if-IsRefused size s (not (is_empty_or_map (request_bytes request))) bad_encoding _ call in
      let no_room = if-IsRefused size s (size == 0) response_too_small _ bad_map in
      let no_response =
        if-IsRefused size s (not rsp_given && not (size == 0)) bad_pointer _ no_room in
      let no_request = if-IsRefused size s (is_null_request request) bad_pointer _ no_response in
      let too_long =
        if-IsRefused size s
          (ltb s.host.limits.max_request_bytes (request_len request)
            || ltb s.host.limits.max_response_bytes size)
          bad_length _ no_request in
      if-IsRefused size s (not (opcode_known opcode) || not (opcode_supported_r8 opcode))
        unsupported_opcode _ too_long
