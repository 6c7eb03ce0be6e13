-- ===== src/Bundle/Wasm/Exports.antt =====
-- An export section and a module written byte by byte, against what the reader finds in them.

use pulse_esp32_host.Base.{
  ℕ, ◌^◌, ◌<◌, ◌≡◌, refl, ap, ◌∙◌, Bool, false, ◌||◌, List, [], ◌∷◌, ◌++◌, some, arith, length, ltb,
  ltb-false, Text, length-append, take-append, drop-length,
}
use mathlib.Core.List.{append_assoc}
use pulse_esp32_host.Bundle.Wasm.{
  Export, is_function, with_index, with_name, this_or_next, among_exports, read_kind, read_export,
  find_export, section_has_function, read_u32_leb,
}
use pulse_esp32_host.Bundle.Wasm.Leb.{leb, leb_read_back}

unfoldable pub export_bytes : Export → List ℕ
export_bytes e = leb (length e.name) ++ (e.name ++ (e.kind ∷ leb e.index))

unfoldable pub exports_bytes : List Export → List ℕ
exports_bytes [] = []
exports_bytes (e ∷ es) = export_bytes e ++ exports_bytes es

unfoldable pub section_bytes : List Export → List ℕ
section_bytes es = leb (length es) ++ exports_bytes es

-- The numbers of an export fit their words.
abbrev pub IsExport : Export → Type 0
IsExport e = (length e.name < 2 ^ 32) × (e.index < 2 ^ 32)

abbrev pub AllExports : List Export → Type 0
AllExports [] = Unit
AllExports (e ∷ es) = IsExport e × AllExports es

abbrev pub has_function : Text → List Export → Bool
has_function name [] = false
has_function name (e ∷ es) = is_function name e || has_function name es

read_kind-written :
    (e : Export) (rest : List ℕ)
    → e.index < 2 ^ 32
    → read_kind e.name ((e.kind ∷ leb e.index) ++ rest) ≡ some (e, rest)
unfolding read_kind
read_kind-written e rest h = ap (with_index e.name e.kind) (leb_read_back e.index rest h)

with_name-written : (name p : List ℕ) → with_name (some (length name, name ++ p)) ≡ read_kind name p
unfolding with_name
with_name-written name p =
    let room : ltb (length (name ++ p)) (length name) ≡ false =
      ltb-false (length (name ++ p)) (length name) (omega (arith, length-append name p)) in
    rw (room, take-append name p, drop-length name p) refl

read_export-written :
    (e : Export) (rest : List ℕ)
    → IsExport e
    → read_export (export_bytes e ++ rest) ≡ some (e, rest)
unfolding read_export export_bytes
read_export-written e rest h =
    let tail = (e.kind ∷ leb e.index) ++ rest in
    let split : (leb (length e.name) ++ (e.name ++ (e.kind ∷ leb e.index))) ++ rest
        ≡ leb (length e.name) ++ (e.name ++ tail) =
      append_assoc (leb (length e.name)) (e.name ++ (e.kind ∷ leb e.index)) rest
      ∙ ap (λ p. leb (length e.name) ++ p) (append_assoc e.name (e.kind ∷ leb e.index) rest) in
    ap (λ p. with_name (read_u32_leb p)) split
    ∙ ap with_name (leb_read_back (length e.name) (e.name ++ tail) h.0)
    ∙ with_name-written e.name tail
    ∙ read_kind-written e rest h.1

find_export-written :
    (es : List Export) (name : Text)
    → AllExports es
    → find_export (length es) name (exports_bytes es) ≡ has_function name es
unfolding find_export exports_bytes
find_export-written [] name h = refl
find_export-written (e ∷ es) name h =
    ap (this_or_next name (find_export (length es) name))
      (read_export-written e (exports_bytes es) h.0)
    ∙ ap (λ b. is_function name e || b) (find_export-written es name h.1)

pub section_has_function-written :
    (es : List Export) (name : Text)
    → length es < 2 ^ 32
    → AllExports es
    → section_has_function (section_bytes es) name ≡ has_function name es
unfolding section_has_function section_bytes
section_has_function-written es name few h =
    ap (among_exports name) (leb_read_back (length es) (exports_bytes es) few)
    ∙ find_export-written es name h
