-- ===== src/Bundle/Wasm.antt =====
-- The reader of the WebAssembly payload in wdc_bundle.c. An offset into the payload is the bytes from
-- there on. The parts of a LEB number are added: their bits are disjoint.
pub mod Leb
pub mod Exports
pub mod Modules
use pulse_esp32_host.Base.{
  u32, ℕ, zero, suc, ◌+◌, ◌*◌, ◌%◌, ◌^◌, Bool, true, false, not, ◌&&◌, ◌||◌, List, [], ◌∷◌, Option,
  none, some, ltb, leb, ◌==◌, if◌then◌else◌, length, take, drop, Text, text_eq, starts_with, codes,
}

abbrev pub Read : Type 0
Read = Option (ℕ × List ℕ)

-- The loop of wasm_read_u32_leb with its rounds left; the top bits of a fifth byte are shifted out.
unfoldable pub leb_loop : ℕ → ℕ → ℕ → List ℕ → Read
leb_loop zero shift result p = none
leb_loop (suc n) shift result [] = none
leb_loop (suc n) shift result (byte ∷ rest) =
    let value = result + u32 (byte % 128 * 2 ^ shift) in
    let next = leb_loop n (shift + 7) value rest in
    if ltb byte 128 then some (value, rest) else next

-- wasm_read_u32_leb
unfoldable pub read_u32_leb : List ℕ → Read
unfolding leb_loop
read_u32_leb p = leb_loop 5 0 0 p

-- wasm_skip_bytes
abbrev pub skip_bytes : ℕ → List ℕ → Option (List ℕ)
skip_bytes count p = if ltb (length p) count then none else some (drop count p)

pub record Export : Type 0 where
  pub name : List ℕ
  pub kind : ℕ
  pub index : ℕ

abbrev pub with_index : List ℕ → ℕ → Read → Option (Export × List ℕ)
with_index name kind none = none
with_index name kind (some (index, rest)) =
    some (record { name = name; kind = kind; index = index }, rest)

-- What follows the name: the kind and the index.
unfoldable pub read_kind : List ℕ → List ℕ → Option (Export × List ℕ)
unfolding read_u32_leb
read_kind name [] = none
read_kind name (kind ∷ p) = with_index name kind (read_u32_leb p)

abbrev pub with_name : Read → Option (Export × List ℕ)
unfolding read_kind
with_name none = none
with_name (some (name_len, rest)) =
    if ltb (length rest) name_len then none else read_kind (take name_len rest) (drop name_len rest)

-- One round of the loop over the exports.
unfoldable pub read_export : List ℕ → Option (Export × List ℕ)
unfolding read_u32_leb with_name
read_export p = with_name (read_u32_leb p)

abbrev pub is_function : Text → Export → Bool
is_function name e = e.kind == 0 && text_eq e.name name

-- The export that was read, or the exports behind it.
abbrev pub this_or_next : Text → (List ℕ → Bool) → Option (Export × List ℕ) → Bool
this_or_next name next none = false
this_or_next name next (some (e, rest)) = is_function name e || next rest

unfoldable pub find_export : ℕ → Text → List ℕ → Bool
unfolding read_export
find_export zero name p = false
find_export (suc count) name p = this_or_next name (find_export count name) (read_export p)

abbrev pub among_exports : Text → Read → Bool
unfolding find_export
among_exports name none = false
among_exports name (some (export_count, rest)) = find_export export_count name rest

-- wasm_export_section_has_function
unfoldable pub section_has_function : List ℕ → Text → Bool
unfolding read_u32_leb among_exports
section_has_function section name = among_exports name (read_u32_leb section)

-- WDC_EXPORT_INIT, WDC_EXPORT_ON_EVENT, WDC_EXPORT_HEALTH and WDC_EXPORT_SHUTDOWN
abbrev pub required_exports : List Text
required_exports =
    codes "wdc_module_init"
    ∷ codes "wdc_module_on_event"
    ∷ codes "wdc_module_health"
    ∷ codes "wdc_module_shutdown"
    ∷ []

-- `found`, an entry for each required name.
abbrev pub update_found : List ℕ → List Text → List Bool → List Bool
update_found section (name ∷ names) (found ∷ more) =
    (found || section_has_function section name) ∷ update_found section names more
update_found section _ _ = []

abbrev pub all_found : List Bool → Bool
all_found [] = true
all_found (found ∷ more) = found && all_found more

-- The state of the loop over the sections: the last id that is not custom, and `found`.
pub record Sections : Type 0 where
  pub previous : ℕ
  pub found : List Bool

abbrev pub in_order : Sections → ℕ → Bool
in_order s section_id = section_id == 0 || ltb s.previous section_id

abbrev pub see_section : Sections → ℕ → List ℕ → Sections
see_section s section_id section = record {
  previous = if section_id == 0 then s.previous else section_id;
  found = if section_id == 7 then update_found section required_exports s.found else s.found;
}

abbrev pub with_body : ℕ → Read → Option (ℕ × List ℕ × List ℕ)
with_body section_id none = none
with_body section_id (some (section_len, rest)) =
    if ltb (length rest) section_len
    then none
    else some (section_id, take section_len rest, drop section_len rest)

-- One section: its id, its bytes and what is behind it.
unfoldable pub read_section : List ℕ → Option (ℕ × List ℕ × List ℕ)
unfolding read_u32_leb
read_section [] = none
read_section (section_id ∷ p) = with_body section_id (read_u32_leb p)

abbrev pub visit :
    (Sections → List ℕ → Option (List Bool))
    → Sections
    → Option (ℕ × List ℕ × List ℕ)
    → Option (List Bool)
visit next s none = none
visit next s (some (section_id, section, rest)) =
    if in_order s section_id then next (see_section s section_id section) rest else none

-- The loop over the sections, with a fuel of one for each.
unfoldable pub section_loop : ℕ → Sections → List ℕ → Option (List Bool)
unfolding read_section section_has_function
section_loop fuel s [] = some s.found
section_loop zero s (x ∷ p) = none
section_loop (suc fuel) s (x ∷ p) = visit (section_loop fuel) s (read_section (x ∷ p))

abbrev pub none_found : Sections
none_found = record { previous = 0; found = false ∷ false ∷ false ∷ false ∷ [] }

abbrev pub wasm_magic : List ℕ
wasm_magic = 0 ∷ 97 ∷ 115 ∷ 109 ∷ 1 ∷ 0 ∷ 0 ∷ 0 ∷ []

abbrev pub found_all : Option (List Bool) → Bool
found_all none = false
found_all (some found) = all_found found

-- wasm_payload_has_required_exports
unfoldable pub has_required_exports : List ℕ → Bool
unfolding section_loop
has_required_exports payload =
    if starts_with wasm_magic payload
    then found_all (section_loop (length payload) none_found (drop 8 payload))
    else false
