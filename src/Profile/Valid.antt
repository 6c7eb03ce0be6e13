-- ===== src/Profile/Valid.antt =====
-- What a profile that wdc_profile_validate_basic accepts is like.
use pulse_esp32_host.Base.{
  ℕ, ◌≤◌, ◌≡◌, ◌≢◌, ◌↔◌, refl, true, false, ◌⊎◌, List, [], ◌∷◌, ◌++◌, Option, none, Status, wdc_ok,
  ℤ, pos, negsuc, Text, All, arith,
}
use pulse_esp32_host.Profile.Defs.{
  ProfileResource, GpioResource, NetworkResource, DeviceProfile, kind_none, kind_network, elems,
  is_none, is_empty, find_resource_by_id, resource_id_seen, check_resources, check_gpio,
  check_network, has_kind, for_each, validate_basic,
}

-- A string that is there and not empty.
abbrev pub Named : Option Text → Type 0
Named t = is_empty t ≡ false

pub record IsResource (r : ProfileResource) : Type 0 where
  pub id : r.resource_id ≢ 0
  pub kind : r.kind ≢ kind_none
  pub named : Named r.name

-- No entry has the id.
abbrev pub Fresh : ℕ → List ProfileResource → Type 0
Fresh id rs = All (λ (r : ProfileResource). r.resource_id ≢ id) rs

-- Each entry's id is fresh for the entries before it.
abbrev pub Distinct : List ProfileResource → List ProfileResource → Type 0
Distinct before [] = Unit
Distinct before (r ∷ rs) = Fresh r.resource_id before × Distinct (before ++ (r ∷ [])) rs

abbrev pub PinIn : ℤ → Type 0
PinIn (pos n) = n ≤ 48
PinIn (negsuc n) = ⊥

abbrev pub IsBit : ℤ → Type 0
IsBit (pos n) = n ≤ 1
IsBit (negsuc n) = ⊥

pub record IsGpio (p : DeviceProfile) (g : GpioResource) : Type 0 where
  pub id : g.resource_id ≢ 0
  pub named : Named g.name
  pub known : find_resource_by_id p g.resource_id ≢ none
  pub pin : PinIn g.pin
  pub safe : IsBit g.safe_level
  pub active : IsBit g.active_level

-- One of the three uses of a network resource is there.
abbrev pub HasUse : NetworkResource → Type 0
HasUse n =
    (is_none n.mqtt_topic_prefix ≡ false)
    ⊎ (is_none n.mqtt_subscribe_prefix ≡ false)
    ⊎ (is_none n.http_url_prefix ≡ false)

pub record IsNetwork (p : DeviceProfile) (n : NetworkResource) : Type 0 where
  pub id : n.resource_id ≢ 0
  pub named : Named n.name
  pub known : has_kind kind_network (find_resource_by_id p n.resource_id) ≡ true
  pub uses : HasUse n
  pub payload : n.max_payload_bytes ≢ 0

pub record IsProfile (p : DeviceProfile) : Type 0 where
  pub class_given : is_none p.device_class ≡ false
  pub hardware_given : is_none p.hardware ≡ false
  pub rev_given : is_none p.board_rev ≡ false
  pub some_resources : is_empty p.resources ≡ false
  pub some_gpio : is_empty p.gpio ≡ false
  pub some_network : is_empty p.network ≡ false
  pub resources_valid : All IsResource (elems p.resources)
  pub resources_distinct : Distinct [] (elems p.resources)
  pub gpio_valid : All (IsGpio p) (elems p.gpio)
  pub network_valid : All (IsNetwork p) (elems p.network)

seen_iff :
    (before : List ProfileResource) (id : ℕ)
    → (resource_id_seen before id ≡ false) ↔ Fresh id before
seen_iff [] id = (λ h. tt, λ h. refl)
seen_iff (r ∷ rs) id = (λ h. ground (arith, seen_iff rs id), λ h. ground (arith, seen_iff rs id))

resources_iff :
    (before rs : List ProfileResource)
    → (check_resources before rs ≡ wdc_ok) ↔ (All IsResource rs × Distinct before rs)
unfolding check_resources
resources_iff before [] = (λ h. (tt, tt), λ h. refl)
resources_iff before (r ∷ rs) =
    let rest = resources_iff (before ++ (r ∷ [])) rs in
    let seen = seen_iff before r.resource_id in
    (λ h. ground (arith, rest, seen), λ h. ground (arith, rest, seen))

IsGpio-iff : (p : DeviceProfile) (g : GpioResource) → (check_gpio p g ≡ wdc_ok) ↔ IsGpio p g
unfolding check_gpio
IsGpio-iff p g = (λ h. ground arith, λ h. ground arith)

IsNetwork-iff :
    (p : DeviceProfile) (n : NetworkResource) → (check_network p n ≡ wdc_ok) ↔ IsNetwork p n
unfolding check_network
IsNetwork-iff p n = (λ h. ground arith, λ h. ground arith)

for_each_iff {ℓ κ} :
    {A : Type ℓ} (check : A → Status) (P : A → Type κ) (xs : List A)
    → ((x : A) → (check x ≡ wdc_ok) ↔ P x)
    → (for_each check xs ≡ wdc_ok) ↔ All P xs
for_each_iff check P [] h = (λ e. tt, λ e. refl)
for_each_iff check P (x ∷ xs) h =
    let rest = for_each_iff check P xs h in
    (λ e. ground (arith, h x, rest), λ e. ground (arith, h x, rest))

-- A profile is accepted just when its pointers and tables are there, its resources are named, of a
-- kind, with ids that are not 0 and all different, and every GPIO and network entry is named, refers
-- to a known resource, has a pin from 0 to 48 with levels 0 or 1, or a use and a payload limit.
pub validate_basic_iff : (p : DeviceProfile) → (validate_basic p ≡ wdc_ok) ↔ IsProfile p
unfolding validate_basic
validate_basic_iff p =
    let rs = resources_iff [] (elems p.resources) in
    let gs = for_each_iff (check_gpio p) (IsGpio p) (elems p.gpio) (IsGpio-iff p) in
    let ns = for_each_iff (check_network p) (IsNetwork p) (elems p.network) (IsNetwork-iff p) in
    (λ h. ground (arith, rs, gs, ns), λ h. ground (arith, rs, gs, ns))
