-- ===== src/Caps/Manifest.antt =====
-- wdc_caps_parse_manifest_json: the capability set that a manifest grants. The names are the C strings
-- in the arena, of which `string_len` bytes are used; nothing reads the set of a failure.
pub mod Resources
pub mod Bounds
pub mod Ends
use pulse_esp32_host.Base.{
  ℕ, zero, suc, ◌+◌, ◌-◌, Bool, true, false, not, ◌&&◌, ◌||◌, List, [], ◌∷◌, ◌++◌, Option, none,
  some, Result, ok, err, guard, bad_encoding, no_memory, invalid_resource, unterminated, ◌>>=◌,
  ◌>>◌, or_bad, leb, ltb, ◌==◌, if◌then◌else◌, length, Text, text_eq, codes, c_string,
}
use pulse_esp32_host.Profile.Defs.{
  DeviceProfile, ProfileResource, find_resource_by_name, kind_none, kind_gpio, kind_sensor,
  kind_network, kind_config, kind_storage,
}
use pulse_esp32_host.Caps.Defs.{
  Capability, CapabilitySet, max_capabilities, op_read, op_write, op_subscribe, op_publish,
  op_request,
}
use pulse_esp32_host.Caps.Scan.{
  skip_blanks, find_key, extract_slice, extract_uint, find_matching, behind_bracket, Matched,
}
use pulse_esp32_host.Caps.Ops.{
  kind_i2c, kind_ble, kind_diagnostics, kind_clock, op_none, resource_kind_from_string,
  parse_ops_array,
}

-- WDC_CAPS_STRING_ARENA_BYTES and the size of the arena's bundle_id
abbrev pub arena_bytes : ℕ
arena_bytes = 512

abbrev pub arena_id_bytes : ℕ
arena_id_bytes = 96

abbrev or_zero : Result ℕ → ℕ
or_zero (ok n) = n
or_zero (err e) = 0

abbrev pub found_value : Option (List ℕ) → Result (List ℕ)
found_value none = err bad_encoding
found_value (some v) = ok v

abbrev pub value_of : Text → List ℕ → Result (List ℕ)
value_of key p = found_value (find_key key p)

abbrev pub slice_text : List ℕ × List ℕ → Result (List ℕ)
slice_text (text, rest) = ok text

unfoldable pub slice_at : List ℕ → Result (List ℕ)
unfolding extract_slice
slice_at v = extract_slice v >>= slice_text

-- The text that stands under a key.
unfoldable pub slice_of : Text → List ℕ → Result (List ℕ)
unfolding slice_at
slice_of key p = value_of key p >>= slice_at

-- parse_optional_u32
unfoldable pub parse_optional_u32 : List ℕ → Text → ℕ
unfolding find_key extract_uint
parse_optional_u32 object key = or_zero (value_of key object >>= extract_uint)

-- arena_copy: the bytes used after it, where the text and its NUL fit
abbrev pub arena_copy : ℕ → List ℕ → Result ℕ
arena_copy string_len src =
    if ltb (arena_bytes - string_len) (length src + 1)
    then err no_memory
    else ok (string_len + (length src + 1))

-- The kinds whose names are not resources of the profile.
abbrev pub needs_no_resource : ℕ → Bool
needs_no_resource kind =
    kind == kind_config || kind == kind_storage || kind == kind_diagnostics || kind == kind_clock

abbrev pub id_or_invalid : Option ProfileResource → Result ℕ
id_or_invalid none = err invalid_resource
id_or_invalid (some r) = ok r.resource_id

-- wdc_profile_find_resource_by_name finds nothing without a profile.
abbrev pub named : Option DeviceProfile → ℕ → Text → Option ProfileResource
named none kind name = none
named (some profile) kind name = find_resource_by_name profile kind name

unfoldable pub resolve : Option DeviceProfile → ℕ → Text → Result ℕ
unfolding find_resource_by_name
resolve profile kind name =
    if needs_no_resource kind then ok 0 else id_or_invalid (named profile kind name)

unfoldable pub capability_of : List ℕ → ℕ → ℕ → Text → ℕ → Capability
unfolding parse_ops_array parse_optional_u32
capability_of object capability_id kind name resource_id = record {
  capability_id = capability_id;
  kind = kind;
  resource_id = resource_id;
  resource_name = some name;
  ops = parse_ops_array object;
  max_payload_bytes = parse_optional_u32 object (codes "max_payload_bytes");
  max_rate_hz = parse_optional_u32 object (codes "max_rate_hz");
}

-- From the resource's name on: the operations, the copy into the arena and the resource.
unfoldable pub with_resource :
    Option DeviceProfile → ℕ → List ℕ → ℕ → ℕ → List ℕ → Result (Capability × ℕ)
unfolding parse_ops_array resolve capability_of
with_resource profile string_len object capability_id kind src =
    guard (not (parse_ops_array object == op_none)) bad_encoding
    >> (arena_copy string_len src >>= λ used. resolve profile kind (c_string src) >>= λ resource_id.
        ok (capability_of object capability_id kind (c_string src) resource_id, used))

-- From the kind's name on.
unfoldable pub with_kind : Option DeviceProfile → ℕ → List ℕ → ℕ → List ℕ → Result (Capability × ℕ)
unfolding find_key extract_slice resource_kind_from_string with_resource
with_kind profile string_len object capability_id kind_text =
    let kind = resource_kind_from_string kind_text in
    guard (not (kind == kind_none)) bad_encoding
    >> (slice_of (codes "resource") object
        >>= with_resource profile string_len object capability_id kind)

unfoldable pub with_id : Option DeviceProfile → ℕ → List ℕ → ℕ → Result (Capability × ℕ)
unfolding slice_of with_kind
with_id profile string_len object capability_id =
    slice_of (codes "kind") object >>= with_kind profile string_len object capability_id

-- The body of the loop for one object: its capability and the bytes of the arena that are used then.
unfoldable pub parse_capability : Option DeviceProfile → ℕ → List ℕ → Result (Capability × ℕ)
unfolding find_key extract_uint with_id
parse_capability profile string_len object =
    (value_of (codes "id") object >>= extract_uint) >>= with_id profile string_len object

-- What the loop over the array has gathered.
pub record Gathered : Type 0 where
  pub capabilities : List Capability
  pub string_len : ℕ

abbrev pub nothing_gathered : Gathered
nothing_gathered = record { capabilities = []; string_len = 0 }

abbrev pub add_capability : Gathered → Capability × ℕ → Result Gathered
add_capability g (c, used) =
    ok (record { capabilities = g.capabilities ++ c ∷ []; string_len = used })

-- The object of one round.
unfoldable pub gather : Option DeviceProfile → Gathered → List ℕ → Result Gathered
unfolding parse_capability
gather profile g object =
    guard (ltb (length g.capabilities) max_capabilities) no_memory
    >> (parse_capability profile g.string_len object >>= add_capability g)

abbrev pub go_on : List ℕ → Gathered → Result (Gathered × List ℕ)
go_on rest g = ok (g, rest)

abbrev pub gather_matched : Option DeviceProfile → Gathered → Matched → Result (Gathered × List ℕ)
unfolding gather
gather_matched profile g none = err bad_encoding
gather_matched profile g (some (object, rest)) = gather profile g object >>= go_on rest

-- One round of the loop, at a byte that is not blank: a comma is passed over.
unfoldable pub gather_round :
    Option DeviceProfile → Gathered → ℕ → List ℕ → Result (Gathered × List ℕ)
unfolding find_matching gather_matched
gather_round profile g x xs =
    if x == 44
    then ok (g, xs)
    else if x == 123
    then gather_matched profile g (find_matching 123 125 (x ∷ xs))
    else err bad_encoding

abbrev pub uncurried : (Gathered → List ℕ → Result Gathered) → Gathered × List ℕ → Result Gathered
uncurried next (g, rest) = next g rest

abbrev pub caps_at :
    (Gathered → List ℕ → Result Gathered)
    → Option DeviceProfile
    → Gathered
    → List ℕ
    → Result Gathered
unfolding gather_round
caps_at next profile g [] = ok g
caps_at next profile g (x ∷ xs) = gather_round profile g x xs >>= uncurried next

-- The loop over the array, with a fuel of one for each round.
unfoldable pub caps_loop : ℕ → Option DeviceProfile → Gathered → List ℕ → Result Gathered
unfolding skip_blanks caps_at
caps_loop zero profile g p = err unterminated
caps_loop (suc fuel) profile g p = caps_at (caps_loop fuel profile) profile g (skip_blanks p)

abbrev pub array_in : Option DeviceProfile → Matched → Result Gathered
unfolding caps_loop
array_in profile none = err bad_encoding
array_in profile (some (inner, rest)) =
    caps_loop (suc (length inner)) profile nothing_gathered (behind_bracket inner)

-- The array behind "capabilities", from its bracket on.
unfoldable pub parse_array : Option DeviceProfile → List ℕ → Result Gathered
unfolding find_matching array_in
parse_array profile caps_value = array_in profile (find_matching 91 93 caps_value)

abbrev pub set_of : Text → ℕ → Gathered → CapabilitySet
set_of bundle_id bundle_version g = record {
  bundle_id = some bundle_id;
  bundle_version = bundle_version;
  capabilities = some g.capabilities;
}

-- From the array on.
unfoldable pub with_array : Option DeviceProfile → Text → ℕ → List ℕ → Result CapabilitySet
unfolding parse_array
with_array profile bundle_id bundle_version caps_value = parse_array profile caps_value >>= λ g.
    guard (ltb 0 (length g.capabilities)) bad_encoding >> ok (set_of bundle_id bundle_version g)

unfoldable pub with_version : Option DeviceProfile → List ℕ → Text → ℕ → Result CapabilitySet
unfolding with_array
with_version profile json bundle_id bundle_version =
    value_of (codes "capabilities") json >>= with_array profile bundle_id bundle_version

unfoldable pub with_bundle_id : Option DeviceProfile → List ℕ → List ℕ → Result CapabilitySet
unfolding extract_uint with_version
with_bundle_id profile json bundle_text =
    guard (ltb (length bundle_text) arena_id_bytes) bad_encoding
    >> ((value_of (codes "bundle_version") json >>= extract_uint)
        >>= with_version profile json (c_string bundle_text))

-- wdc_caps_parse_manifest_json; the pointers to the text, the arena and the set are not NULL.
unfoldable pub parse_manifest : Option DeviceProfile → List ℕ → Result CapabilitySet
unfolding slice_of with_bundle_id
parse_manifest profile json = slice_of (codes "bundle_id") json >>= with_bundle_id profile json
