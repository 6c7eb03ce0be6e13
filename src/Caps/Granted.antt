-- ===== src/Caps/Granted.antt =====
-- An allowed call is granted by a capability of the bundle.
use Prim.Native.Nat.{bit_and}
use pulse_esp32_host.Base.{
  ◌≢◌, not_available, ok_inj, ℕ, ◌≤◌, ◌≡◌, ◌⊎◌, inl, inr, refl, Bool, true, false, List, Option,
  none, some, Result, ok, err, wdc_ok, length, arith,
}
use pulse_esp32_host.Profile.Defs.{ProfileResource, has_kind, kind_gpio, kind_network}
use pulse_esp32_host.HostCall.Opcode.{
  Opcode, gpio_get, gpio_set, gpio_subscribe, mqtt_publish, mqtt_subscribe, http_request,
}
use pulse_esp32_host.HostCall.Response.{key_resource_id, key_data}
use pulse_esp32_host.Cbor.Find.{find_u32, find_bytes}
use pulse_esp32_host.Caps.Defs.{
  Capability, caps_of, found_len, op_read, op_write, op_subscribe, op_publish, op_request,
  resource_of, request_payload_len,
}
use pulse_esp32_host.Caps.Authorize.{CapsState, with_key, decide_resource, decide}
use pulse_esp32_host.Caps.Covered.{Holds, PayloadIn, PayloadWhen, decide_resource-IsCovered}

-- What each GPIO or network call needs: a capability of the kind with the operation. The last index
-- says whether the call carries data, which the capability limits.
pub data Needs : Opcode → ℕ → ℕ → Bool → Type 0 where
  to_get : Needs gpio_get kind_gpio op_read false
  to_set : Needs gpio_set kind_gpio op_write false
  to_watch : Needs gpio_subscribe kind_gpio op_subscribe false
  to_publish : Needs mqtt_publish kind_network op_publish true
  to_subscribe : Needs mqtt_subscribe kind_network op_subscribe false
  to_request : Needs http_request kind_network op_request true

-- The data of the request, if it has any, is no longer than the limit of the capability, if it has one.
abbrev pub DataWithin : Bool → Capability → List ℕ → Type 0
DataWithin false c req = Unit
DataWithin true c req =
    (c.max_payload_bytes ≡ 0)
    ⊎ (find_bytes req key_data ≡ err not_available)
    ⊎ ((xs : List ℕ) × (find_bytes req key_data ≡ ok xs) × (length xs ≤ c.max_payload_bytes))

-- The request names a resource of the kind in the profile, and a capability of the bundle is for this
-- kind, this resource and the operation, and for the data.
pub record IsGranted (s : CapsState) (kind op : ℕ) (carries : Bool) (req : List ℕ) : Type 0 where
  pub id : ℕ
  pub requested : find_u32 req key_resource_id ≡ ok id
  pub resource : ProfileResource
  pub on_profile : resource_of s.authorizer.profile id ≡ some resource
  pub resource_kind : resource.kind ≡ kind
  pub capability : Capability
  pub held : Holds (caps_of s.authorizer.capability_set) capability
  pub capability_kind : capability.kind ≡ kind
  pub capability_resource : capability.resource_id ≡ id
  pub capability_op : bit_and capability.ops op ≢ 0
  pub within : DataWithin carries capability req

has_kind-some :
    (kind : ℕ) (o : Option ProfileResource)
    → has_kind kind o ≡ true
    → (r : ProfileResource) × (o ≡ some r) × (r.kind ≡ kind)
has_kind-some kind none h = absurd (ground arith)
has_kind-some kind (some r) h = (r, refl, ground arith)

data_within :
    (c : Capability) (req : List ℕ) (found : Result (List ℕ))
    → find_bytes req key_data ≡ found
    → PayloadIn c (found_len found)
    → DataWithin true c req
data_within c req (ok xs) e (inl unlimited) = inl unlimited
data_within c req (ok xs) e (inr (n, same, fits)) = inr (inr (xs, e, ground (arith, ok_inj same)))
data_within c req (err not_available) e h = inr (inl e)
data_within c req (err _) e (inl unlimited) = inl unlimited
data_within c req (err _) e (inr (n, same, fits)) = absurd (ground arith)

granted :
    (now : ℕ) (opcode : Opcode) (kind op : ℕ) (req : List ℕ) (has_payload carries : Bool)
    (s : CapsState)
    → (with_key
        (find_u32 req key_resource_id)
        s
        (decide_resource now opcode kind op req has_payload s)).0
      ≡ wdc_ok
    → ((c : Capability)
        → PayloadWhen has_payload c (request_payload_len opcode req)
        → DataWithin carries c req)
    → IsGranted s kind op carries req
granted now opcode kind op req has_payload carries s h within =
    of_id (find_u32 req key_resource_id) refl h
  where
    of_id :
        (found : Result ℕ)
        → find_u32 req key_resource_id ≡ found
        → (with_key found s (decide_resource now opcode kind op req has_payload s)).0 ≡ wdc_ok
        → IsGranted s kind op carries req
    of_id (err x) e h = absurd (ground arith)
    of_id (ok id) e h =
        let i = decide_resource-IsCovered now opcode kind op req has_payload s id h in
        let (r, on_profile, right_kind) =
          has_kind-some kind (resource_of s.authorizer.profile id) i.resource in
        record {
          id = id;
          requested = e;
          resource = r;
          on_profile = on_profile;
          resource_kind = right_kind;
          capability = i.capability;
          held = i.held;
          capability_kind = ground (arith, i.grants);
          capability_resource = ground (arith, i.grants);
          capability_op = ground (arith, i.grants);
          within = within i.capability i.payload;
        }

-- A GPIO or network call that is allowed names a resource of the kind that the call needs in the
-- profile, and a capability of the bundle is for that kind, that resource and the operation that the
-- call needs. The data of a publish or of an HTTP request is no longer than the limit of the
-- capability, where it has one.
pub allowed-IsGranted :
    (now : ℕ) (opcode : Opcode) (kind op : ℕ) (carries : Bool) (req : List ℕ) (s : CapsState)
    → Needs opcode kind op carries
    → (decide now opcode req s).0 ≡ wdc_ok
    → IsGranted s kind op carries req
unfolding decide request_payload_len
allowed-IsGranted now _ _ _ _ req s to_get h =
    granted now gpio_get _ _ req false false s h λ c p. tt
allowed-IsGranted now _ _ _ _ req s to_set h =
    granted now gpio_set _ _ req false false s h λ c p. tt
allowed-IsGranted now _ _ _ _ req s to_watch h =
    granted now gpio_subscribe _ _ req false false s h λ c p. tt
allowed-IsGranted now _ _ _ _ req s to_subscribe h =
    granted now mqtt_subscribe _ _ req true false s h λ c p. tt
allowed-IsGranted now _ _ _ _ req s to_publish h =
    granted now mqtt_publish _ _ req true true s h
      λ c p. data_within c req (find_bytes req key_data) refl p
allowed-IsGranted now _ _ _ _ req s to_request h =
    granted now http_request _ _ req true true s h
      λ c p. data_within c req (find_bytes req key_data) refl p
