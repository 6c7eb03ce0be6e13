-- ===== src/Caps/Covered.antt =====
-- What the checks of a call on a resource find: a capability of the bundle that covers it.
use pulse_esp32_host.Base.{
  ℕ, suc, ◌≤◌, ◌<◌, ◌≡◌, ◌⊎◌, inl, inr, refl, sym, ap, ◌∙◌, Bool, true, false, Bool-cases, List, [],
  ◌∷◌, Option, none, some, Result, Status, ok, err, wdc_ok, Result-cases, ◌==◌, length, get_or,
  arith,
}
use pulse_esp32_host.Profile.Defs.{first, has_kind}
use pulse_esp32_host.HostCall.Opcode.{Opcode}
use pulse_esp32_host.Caps.Defs.{
  CapabilitySet, Capability, Audit, caps_of, resource_of, grant, audit_reset, check_resource,
  enforce_payload_limit, request_payload_len, grants_resource,
}
use pulse_esp32_host.Caps.Authorize.{CapsState, blank_capability, if_ok, audited, decide_resource}

-- The capability stands in the list.
abbrev pub Holds : List Capability → Capability → Type 0
Holds caps c = (j : ℕ) × (j < length caps) × (get_or caps j blank_capability ≡ c)

first-Holds :
    (test : Capability → Bool) (caps : List Capability) (c : Capability)
    → first test caps ≡ some c
    → Holds caps c × (test c ≡ true)
first-Holds test [] c h = absurd (ground arith)
first-Holds test (x ∷ xs) c h = elim (Bool-cases (test x)) [
  | inl e ↦ ((0, omega arith, ground arith), ground arith)
  | inr e ↦
      let ((j, lt, at), good) = first-Holds test xs c (ground arith) in
      ((suc j, omega arith, at), good)
]

-- The payload of the request is within the capability's limit, where it has one.
abbrev pub PayloadIn : Capability → Result ℕ → Type 0
PayloadIn c r = (c.max_payload_bytes ≡ 0) ⊎ ((n : ℕ) × (r ≡ ok n) × (n ≤ c.max_payload_bytes))

abbrev pub PayloadWhen : Bool → Capability → Result ℕ → Type 0
PayloadWhen true c r = PayloadIn c r
PayloadWhen false c r = Unit

payload_when :
    (has_payload : Bool) (c : Capability) (r : Result ℕ)
    → ((has_payload ≡ true) → PayloadIn c r)
    → PayloadWhen has_payload c r
payload_when true c r h = h refl
payload_when false c r h = tt

grant-some :
    (o : Option Capability) (a : Audit)
    → (grant o a).0 ≡ wdc_ok
    → (c : Capability) × (o ≡ some c) × ((grant o a).1.payload_limit ≡ c.max_payload_bytes)
unfolding grant
grant-some none a h = absurd (ground arith)
grant-some (some c) a h = (c, refl, refl)

payload-PayloadIn :
    (opcode : Opcode) (req : List ℕ) (a : Audit) (c : Capability)
    → a.payload_limit ≡ c.max_payload_bytes
    → (enforce_payload_limit opcode req a).0 ≡ wdc_ok
    → PayloadIn c (request_payload_len opcode req)
unfolding enforce_payload_limit
payload-PayloadIn opcode req a c limit h = elim (Bool-cases (a.payload_limit == 0)) [
  | inl e ↦ inl (ground arith)
  | inr e ↦ elim (Result-cases (request_payload_len opcode req)) [
    | inl (n, e') ↦ inr (n, e', ground arith)
    | inr (x, e') ↦ absurd (ground arith)
  ]
]

-- What the checks on a resource showed.
pub record IsCovered (s : CapsState) (opcode : Opcode) (kind op : ℕ) (req : List ℕ)
    (has_payload : Bool) (id : ℕ) : Type 0 where
  pub capability : Capability
  pub held : Holds (caps_of s.authorizer.capability_set) capability
  pub grants : grants_resource kind op id capability ≡ true
  pub resource : has_kind kind (resource_of s.authorizer.profile id) ≡ true
  pub payload : PayloadWhen has_payload capability (request_payload_len opcode req)

check_resource-grant :
    (set : Option CapabilitySet) (profile : _) (opcode : Opcode) (kind op id : ℕ)
    → (check_resource set profile opcode kind op id).0 ≡ wdc_ok
    → (has_kind kind (resource_of profile id) ≡ true)
      × (check_resource set profile opcode kind op id
          ≡ grant (first (grants_resource kind op id) (caps_of set)) (audit_reset set opcode id))
unfolding check_resource
check_resource-grant set profile opcode kind op id h = ground arith

if_ok-first :
    (r : Status × CapsState) (k : CapsState → Status × CapsState)
    → (if_ok r k).0 ≡ wdc_ok
    → (r.0 ≡ wdc_ok) × ((k r.1).0 ≡ wdc_ok)
if_ok-first (ok u, s) k h = (refl, h)
if_ok-first (err e, s) k h = absurd (ground arith)

pub decide_resource-IsCovered :
    (now : ℕ) (opcode : Opcode) (kind op : ℕ) (req : List ℕ) (has_payload : Bool) (s : CapsState)
    (id : ℕ)
    → (decide_resource now opcode kind op req has_payload s id).0 ≡ wdc_ok
    → IsCovered s opcode kind op req has_payload id
unfolding decide_resource
decide_resource-IsCovered now opcode kind op req has_payload s id h =
    let set = s.authorizer.capability_set in
    let check = check_resource set s.authorizer.profile opcode kind op id in
    let (both, rate) = if_ok-first (if_ok (audited s check) _) _ h in
    let (checked, paid) = if_ok-first (audited s check) _ both in
    let (kind_right, same) =
      check_resource-grant set s.authorizer.profile opcode kind op id checked in
    let (c, at, limit) =
      grant-some (first (grants_resource kind op id) (caps_of set)) (audit_reset set opcode id)
        (sym (ap (λ (r : Status × Audit). r.0) same) ∙ checked) in
    let (holds, good) = first-Holds (grants_resource kind op id) (caps_of set) c at in
    record {
      capability = c;
      held = holds;
      grants = good;
      resource = kind_right;
      payload = payload_when has_payload c (request_payload_len opcode req) (λ e.
          payload-PayloadIn opcode req check.1 c
            (ap (λ (r : Status × Audit). r.1.payload_limit) same ∙ limit) (ground arith));
    }
