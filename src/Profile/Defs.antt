-- ===== src/Profile/Defs.antt =====
-- WdcDeviceProfile and the functions of wdc_profile_static.c.
-- A pointer that may be NULL is an option, a C string its bytes without the final NUL.
use pulse_esp32_host.Base.{
  ℕ, Bool, true, false, not, ◌||◌, ◌&&◌, List, [], ◌∷◌, ◌++◌, Option, none, some, Status, err,
  wdc_ok, ◌>>◌, bad_pointer, bad_encoding, invalid_resource, leb, ◌==◌, if◌then◌else◌, ℤ, pos,
  negsuc, text_eq, Text,
}

pub data GpioMode : Type 0 where
  disabled input input_pullup output : GpioMode
  other_mode : ℕ → GpioMode

-- WDC_RESOURCE_KIND_NONE, _GPIO, _SENSOR, _NETWORK, _CONFIG and _STORAGE
abbrev pub kind_none : ℕ
kind_none = 0

abbrev pub kind_gpio : ℕ
kind_gpio = 1

abbrev pub kind_sensor : ℕ
kind_sensor = 2

abbrev pub kind_network : ℕ
kind_network = 4

abbrev pub kind_config : ℕ
kind_config = 6

abbrev pub kind_storage : ℕ
kind_storage = 7

pub record ProfileResource : Type 0 where
  pub resource_id : ℕ
  pub kind : ℕ
  pub name : Option Text

pub record GpioResource : Type 0 where
  pub resource_id : ℕ
  pub name : Option Text
  pub pin : ℤ
  pub mode : GpioMode
  pub active_level : ℤ
  pub safe_level : ℤ
  pub apply_safe_level : Bool

pub record NetworkResource : Type 0 where
  pub resource_id : ℕ
  pub name : Option Text
  pub mqtt_topic_prefix : Option Text
  pub mqtt_subscribe_prefix : Option Text
  pub http_url_prefix : Option Text
  pub http_methods_csv : Option Text
  pub max_payload_bytes : ℕ

-- An array and its count are a list.
pub record DeviceProfile : Type 0 where
  pub device_class : Option Text
  pub hardware : Option Text
  pub board_rev : Option Text
  pub resources : Option (List ProfileResource)
  pub gpio : Option (List GpioResource)
  pub network : Option (List NetworkResource)

abbrev pub elems {ℓ} : {A : Type ℓ} → Option (List A) → List A
elems none = []
elems (some xs) = xs

abbrev pub is_none {ℓ} : {A : Type ℓ} → Option A → Bool
is_none none = true
is_none (some a) = false

-- NULL, or a count of 0.
abbrev pub is_empty {ℓ} : {A : Type ℓ} → Option (List A) → Bool
is_empty none = true
is_empty (some []) = true
is_empty (some (x ∷ xs)) = false

-- The loops that return the first entry that passes a test.
abbrev pub first {ℓ} : {A : Type ℓ} → (A → Bool) → List A → Option A
first test [] = none
first test (x ∷ xs) = if test x then some x else first test xs

unfoldable pub find_resource_by_id : DeviceProfile → ℕ → Option ProfileResource
find_resource_by_id p resource_id =
    if resource_id == 0 then none else first (λ r. r.resource_id == resource_id) (elems p.resources)

abbrev pub name_is : Option Text → Text → Bool
name_is none name = false
name_is (some t) name = text_eq t name

unfoldable pub find_resource_by_name : DeviceProfile → ℕ → Text → Option ProfileResource
find_resource_by_name p kind name =
    first (λ r. r.kind == kind && name_is r.name name) (elems p.resources)

unfoldable pub find_gpio_by_id : DeviceProfile → ℕ → Option GpioResource
find_gpio_by_id p resource_id =
    if resource_id == 0 then none else first (λ g. g.resource_id == resource_id) (elems p.gpio)

unfoldable pub find_gpio_by_name : DeviceProfile → Text → Option GpioResource
find_gpio_by_name p name = first (λ g. name_is g.name name) (elems p.gpio)

unfoldable pub find_network_by_id : DeviceProfile → ℕ → Option NetworkResource
find_network_by_id p resource_id =
    if resource_id == 0 then none else first (λ n. n.resource_id == resource_id) (elems p.network)

unfoldable pub find_network_by_name : DeviceProfile → Text → Option NetworkResource
find_network_by_name p name = first (λ n. name_is n.name name) (elems p.network)

abbrev pub pin_valid : ℤ → Bool
pin_valid (pos n) = leb n 48
pin_valid (negsuc n) = false

abbrev pub is_bit : ℤ → Bool
is_bit (pos n) = n == 0 || n == 1
is_bit (negsuc n) = false

-- resource_id_seen, over the entries before the one that is checked.
abbrev pub resource_id_seen : List ProfileResource → ℕ → Bool
resource_id_seen [] resource_id = false
resource_id_seen (r ∷ rs) resource_id =
    r.resource_id == resource_id || resource_id_seen rs resource_id

unfoldable pub check_resources : List ProfileResource → List ProfileResource → Status
check_resources before [] = wdc_ok
check_resources before (r ∷ rs) =
    let rest = check_resources (before ++ (r ∷ [])) rs in
    if r.resource_id == 0 || r.kind == kind_none || is_empty r.name
    then err bad_encoding
    else if resource_id_seen before r.resource_id
    then err bad_encoding
    else rest

unfoldable pub check_gpio : DeviceProfile → GpioResource → Status
unfolding find_resource_by_id
check_gpio p g =
    if g.resource_id == 0 || is_empty g.name
    then err bad_encoding
    else if is_none (find_resource_by_id p g.resource_id)
    then err invalid_resource
    else if not (pin_valid g.pin)
    then err invalid_resource
    else if not (is_bit g.safe_level)
    then err bad_encoding
    else if not (is_bit g.active_level)
    then err bad_encoding
    else wdc_ok

abbrev pub has_kind : ℕ → Option ProfileResource → Bool
has_kind kind none = false
has_kind kind (some r) = r.kind == kind

unfoldable pub check_network : DeviceProfile → NetworkResource → Status
unfolding find_resource_by_id
check_network p n =
    if n.resource_id == 0 || is_empty n.name
    then err bad_encoding
    else if not (has_kind kind_network (find_resource_by_id p n.resource_id))
    then err invalid_resource
    else if is_none n.mqtt_topic_prefix
        && is_none n.mqtt_subscribe_prefix
        && is_none n.http_url_prefix
    then err bad_encoding
    else if n.max_payload_bytes == 0
    then err bad_encoding
    else wdc_ok

-- A loop that returns the first error.
abbrev pub for_each {ℓ} : {A : Type ℓ} → (A → Status) → List A → Status
for_each check [] = wdc_ok
for_each check (x ∷ xs) = check x >> for_each check xs

unfoldable pub validate_basic : DeviceProfile → Status
unfolding check_resources check_gpio check_network
validate_basic p =
    if is_none p.device_class
      || is_none p.hardware
      || is_none p.board_rev
      || is_empty p.resources
      || is_empty p.gpio
      || is_empty p.network
    then err bad_pointer
    else (check_resources [] (elems p.resources) >> for_each (check_gpio p) (elems p.gpio))
      >> for_each (check_network p) (elems p.network)
