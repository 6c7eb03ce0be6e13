-- ===== src/Tests/Manifests.antt =====
-- A module with its exports and a manifest with two capabilities.
use pulse_esp32_host.Base.{
  ℕ, ◌≡◌, refl, List, [], ◌∷◌, ◌++◌, none, some, Result, ok, err, Ends, length, ◌<◌, ◌^◌, codes,
  Text, arith,
}
use pulse_esp32_host.Profile.Builtin.{builtin}
use pulse_esp32_host.Caps.Defs.{CapabilitySet}
use pulse_esp32_host.Caps.Manifest.{parse_manifest}
use pulse_esp32_host.Caps.Manifest.Bounds.{IsGrantable, parse_manifest-IsGrantable}
use pulse_esp32_host.Caps.Manifest.Ends.{parse_manifest-Ends}
use pulse_esp32_host.Bundle.Wasm.{Export, required_exports, has_required_exports, wasm_magic}
use pulse_esp32_host.Bundle.Wasm.Leb.{leb}
use pulse_esp32_host.Bundle.Wasm.Exports.{section_bytes, exports_bytes, export_bytes}
use pulse_esp32_host.Bundle.Wasm.Modules.{
  Section, plain, exports, module_bytes, AllSections, all_provided, required_exports_found,
}

abbrev function : Text → ℕ → Export
function name index = record { name = name; kind = 0; index = index }

abbrev four_functions : List Export
four_functions =
    function (codes "wdc_module_init") 0
    ∷ function (codes "wdc_module_on_event") 1
    ∷ function (codes "wdc_module_health") 2
    ∷ function (codes "wdc_module_shutdown") 3
    ∷ []

abbrev two_sections : List Section
two_sections =
    plain 1 (1 ∷ 96 ∷ 0 ∷ 0 ∷ []) ∷ exports four_functions ∷ plain 10 (1 ∷ 2 ∷ 0 ∷ 11 ∷ []) ∷ []

export_section-length : length (section_bytes four_functions) ≡ 83
unfolding section_bytes exports_bytes export_bytes leb
export_section-length = refl

two_sections-All : AllSections two_sections
unfolding AllSections
two_sections-All =
    let few : length (section_bytes four_functions) < 2 ^ 32 =
      omega (arith, export_section-length) in
    (
      (ground arith, omega arith),
      (
        (
          omega arith,
          (
            (omega arith, omega arith),
            (
              (omega arith, omega arith),
              ((omega arith, omega arith), ((omega arith, omega arith), tt)),
            ),
          ),
          few,
        ),
        ((ground arith, omega arith), tt),
      ),
    )

required_exports_found_example :
    has_required_exports (wasm_magic ++ module_bytes two_sections)
    ≡ all_provided required_exports two_sections
required_exports_found_example =
    required_exports_found two_sections two_sections-All (refl, (refl, (refl, tt)))

abbrev caps_manifest : Text
caps_manifest =
    codes "{\"bundle_id\":\"relay\", \"bundle_version\": 4, \"capabilities\": ["
    ++ codes "{\"id\":1,\"kind\":\"gpio\",\"resource\":\"relay_1\",\"ops\":[\"read\",\"write\"]},"
    ++ codes
        "{\"id\":30,\"kind\":\"config\",\"resource\":\"app.*\",\"ops\":[\"read\"],\"max_rate_hz\":2}]}"

abbrev caps_parsed : Result CapabilitySet
unfolding parse_manifest
caps_parsed = parse_manifest (some builtin) caps_manifest

abbrev set_or_blank : Result CapabilitySet → CapabilitySet
set_or_blank (ok s) = s
set_or_blank (err e) = record { bundle_id = none; bundle_version = 0; capabilities = none }

caps_parsed_ok : parse_manifest (some builtin) caps_manifest ≡ ok (set_or_blank caps_parsed)
unfolding parse_manifest caps_parsed
caps_parsed_ok = refl

parse_manifest-IsGrantable_example : IsGrantable (some builtin) (set_or_blank caps_parsed)
parse_manifest-IsGrantable_example =
    parse_manifest-IsGrantable (some builtin) caps_manifest (set_or_blank caps_parsed)
      caps_parsed_ok

parse_manifest-Ends_example : Ends (parse_manifest (some builtin) caps_manifest)
parse_manifest-Ends_example = parse_manifest-Ends (some builtin) caps_manifest
