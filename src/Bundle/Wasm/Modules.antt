-- ===== src/Bundle/Wasm/Modules.antt =====
-- A module of sections with its exports, against the test that the verifier makes on its bytes.
use pulse_esp32_host.Base.{
  ℕ, zero, suc, ◌^◌, ◌<◌, ◌≤◌, ◌≡◌, ◌≢◌, refl, ap, ap₂, ◌∙◌, Bool, true, false, ◌||◌, ◌&&◌, List,
  [], ◌∷◌, ◌++◌, some, arith, length, ltb, ltb-false, ◌==◌, Text, length-append, take-append,
  drop-length, if◌then◌else◌,
}
use pulse_esp32_host.Bundle.Wasm.{
  Export, Sections, see_section, update_found, all_found, with_body, visit, read_section,
  section_loop, section_has_function, required_exports, has_required_exports, wasm_magic, found_all,
}
use pulse_esp32_host.Bundle.Wasm.Leb.{leb, leb_read_back}
use pulse_esp32_host.Bundle.Wasm.Exports.{
  AllExports, section_bytes, has_function, section_has_function-written,
}

-- A section with its id and its bytes, or the export section.
pub data Section : Type 0 where
  plain : ℕ → List ℕ → Section
  exports : List Export → Section

abbrev pub id_of : Section → ℕ
id_of (plain i body) = i
id_of (exports es) = 7

unfoldable pub body_of : Section → List ℕ
body_of (plain i body) = body
body_of (exports es) = section_bytes es

unfoldable pub module_bytes : List Section → List ℕ
module_bytes [] = []
module_bytes (s ∷ rest) = id_of s ∷ (leb (length (body_of s)) ++ (body_of s ++ module_bytes rest))

unfoldable pub IsSection : Section → Type 0
unfolding body_of
IsSection (plain i body) = (i ≢ 7) × (length body < 2 ^ 32)
IsSection (exports es) = (length es < 2 ^ 32) × AllExports es × (length (section_bytes es) < 2 ^ 32)

unfoldable pub AllSections : List Section → Type 0
unfolding IsSection
AllSections [] = Unit
AllSections (s ∷ rest) = IsSection s × AllSections rest

-- The ids other than 0 grow.
abbrev pub InOrder : ℕ → List Section → Type 0
InOrder previous [] = Unit
InOrder previous (s ∷ rest) =
    ((id_of s == 0 || ltb previous (id_of s)) ≡ true)
    × InOrder (if id_of s == 0 then previous else id_of s) rest

abbrev pub provides : Text → Section → Bool
provides name (plain i body) = false
provides name (exports es) = has_function name es

abbrev pub provided : Text → List Section → Bool
provided name [] = false
provided name (s ∷ rest) = provides name s || provided name rest

abbrev pub all_provided : List Text → List Section → Bool
all_provided [] secs = true
all_provided (name ∷ names) secs = provided name secs && all_provided names secs

abbrev flags : List Text → (Text → Bool) → List Bool
flags [] f = []
flags (name ∷ names) f = f name ∷ flags names f

flags_cong :
    (names : List Text) (f g : Text → Bool)
    → ((name : Text) → f name ≡ g name)
    → flags names f ≡ flags names g
flags_cong [] f g e = refl
flags_cong (name ∷ names) f g e = ap₂ ◌∷◌ (e name) (flags_cong names f g e)

update_found-flags :
    (section : List ℕ) (names : List Text) (f : Text → Bool)
    → update_found section names (flags names f)
      ≡ flags names (λ name. f name || section_has_function section name)
update_found-flags section [] f = refl
update_found-flags section (name ∷ names) f =
    ap (◌∷◌ (f name || section_has_function section name)) (update_found-flags section names f)

all_found-flags :
    (names : List Text) (secs : List Section)
    → all_found (flags names (λ name. provided name secs)) ≡ all_provided names secs
all_found-flags [] secs = refl
all_found-flags (name ∷ names) secs = ap (λ b. provided name secs && b) (all_found-flags names secs)

or_assoc : (a b c : Bool) → ((a || b) || c) ≡ (a || (b || c))
or_assoc true b c = refl
or_assoc false b c = refl

or_false : (a : Bool) → a ≡ (a || false)
or_false true = refl
or_false false = refl

with_body-written :
    (i : ℕ) (body rest : List ℕ)
    → with_body i (some (length body, body ++ rest)) ≡ some (i, body, rest)
with_body-written i body rest =
    let room : ltb (length (body ++ rest)) (length body) ≡ false =
      ltb-false (length (body ++ rest)) (length body) (omega (arith, length-append body rest)) in
    rw (room, take-append body rest, drop-length body rest) refl

body-fits : (s : Section) → IsSection s → length (body_of s) < 2 ^ 32
unfolding body_of IsSection
body-fits (plain i body) h = h.1
body-fits (exports es) h = h.2

read_section-written :
    (s : Section) (rest : List Section)
    → IsSection s
    → read_section (module_bytes (s ∷ rest)) ≡ some (id_of s, body_of s, module_bytes rest)
unfolding read_section module_bytes
read_section-written s rest h =
    ap (with_body (id_of s))
      (leb_read_back (length (body_of s)) (body_of s ++ module_bytes rest) (body-fits s h))
    ∙ with_body-written (id_of s) (body_of s) (module_bytes rest)

-- What a section adds to `found`.
see_section-flags :
    (s : Section) (previous : ℕ) (f : Text → Bool)
    → IsSection s
    → (see_section
        (record { previous = previous; found = flags required_exports f })
        (id_of s)
        (body_of s)).found
      ≡ flags required_exports (λ name. f name || provides name s)
unfolding body_of IsSection
see_section-flags (plain i body) previous f h =
    let other : (i == 7) ≡ false = ground arith in
    rw other (flags_cong required_exports f (λ name. f name || false) (λ name. or_false (f name)))
see_section-flags (exports es) previous f h =
    update_found-flags (section_bytes es) required_exports f
    ∙ flags_cong required_exports (λ name. f name || section_has_function (section_bytes es) name)
        (λ name. f name || has_function name es)
        (λ name. ap (λ b. f name || b) (section_has_function-written es name h.0 h.1))

section_loop-written :
    (secs : List Section) (fuel previous : ℕ) (f : Text → Bool)
    → length secs ≤ fuel
    → AllSections secs
    → InOrder previous secs
    → section_loop fuel
        (record { previous = previous; found = flags required_exports f })
        (module_bytes secs)
      ≡ some (flags required_exports (λ name. f name || provided name secs))
unfolding section_loop module_bytes AllSections
section_loop-written [] fuel previous f few h o =
    ap some (flags_cong required_exports f (λ name. f name || false) (λ name. or_false (f name)))
section_loop-written (s ∷ rest) zero previous f few h o = absurd (omega arith)
section_loop-written (s ∷ rest) (suc fuel) previous f few h o =
    let state : Sections = record { previous = previous; found = flags required_exports f } in
    ap (visit (section_loop fuel) state) (read_section-written s rest h.0)
    ∙ rw (o.0, see_section-flags s previous f h.0)
        (section_loop-written rest fuel (if id_of s == 0 then previous else id_of s)
          (λ name. f name || provides name s) (omega arith) h.1 o.1)
    ∙ ap some (
        flags_cong required_exports (λ name. (f name || provides name s) || provided name rest)
          (λ name. f name || (provides name s || provided name rest))
          (λ name. or_assoc (f name) (provides name s) (provided name rest)))

sections-length : (secs : List Section) → length secs ≤ length (module_bytes secs)
unfolding module_bytes
sections-length [] = omega arith
sections-length (s ∷ rest) = omega (
  arith,
  sections-length rest,
  length-append (leb (length (body_of s))) (body_of s ++ module_bytes rest),
  length-append (body_of s) (module_bytes rest),
)

-- A payload that is written as the magic number and sections passes the test of the exports exactly
-- when each of the four required names is an exported function in one of its export sections. The
-- bytes and the numbers of each section fit 32 bits, and the ids other than 0 grow.
pub required_exports_found :
    (secs : List Section)
    → AllSections secs
    → InOrder 0 secs
    → has_required_exports (wasm_magic ++ module_bytes secs) ≡ all_provided required_exports secs
unfolding has_required_exports
required_exports_found secs h o =
    let fuel = length (wasm_magic ++ module_bytes secs) in
    ap found_all
      (section_loop-written secs fuel 0 (λ name. false) (omega (arith, sections-length secs)) h o)
    ∙ all_found-flags required_exports secs
