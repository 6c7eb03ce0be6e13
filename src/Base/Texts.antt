-- ===== src/Base/Texts.antt =====
-- C strings and slices as their bytes.
use Prim.Native.Nat.{ℕ, zero, suc, ◌+◌, ◌-◌, ◌/◌, ◌%◌}
use Prim.Native.Char.{code}
use Prim.Native.String.{String}
use mathlib.Core.Path.{◌≡◌, refl, ap₂}
use mathlib.Core.Bool.{Bool, true, false, ◌&&◌}
use mathlib.Core.List.{List, [], ◌∷◌, ◌++◌}
use native.Mathlib.Omega.{arith}
use pulse_esp32_host.Base.Tests.{◌==◌, ltb, if◌then◌else◌}
use pulse_esp32_host.Base.Lists.{take}

abbrev pub Text : Type 0
Text = List ℕ

-- strcmp(a, b) == 0, and memcmp over equal lengths
abbrev pub text_eq : Text → Text → Bool
text_eq [] [] = true
text_eq [] (y ∷ ys) = false
text_eq (x ∷ xs) [] = false
text_eq (x ∷ xs) (y ∷ ys) = x == y && text_eq xs ys

-- strncmp(text, prefix, strlen(prefix)) == 0
abbrev pub starts_with : Text → Text → Bool
starts_with [] text = true
starts_with (p ∷ ps) [] = false
starts_with (p ∷ ps) (x ∷ xs) = p == x && starts_with ps xs

pub text_eq_sound : (xs ys : Text) → text_eq xs ys ≡ true → xs ≡ ys
text_eq_sound [] [] h = refl
text_eq_sound [] (y ∷ ys) h = absurd (ground arith)
text_eq_sound (x ∷ xs) [] h = absurd (ground arith)
text_eq_sound (x ∷ xs) (y ∷ ys) h = ap₂ ◌∷◌ (ground arith) (text_eq_sound xs ys (ground arith))

pub text_eq_refl : (xs : Text) → text_eq xs xs ≡ true
text_eq_refl [] = refl
text_eq_refl (x ∷ xs) = ground (arith, text_eq_refl xs)

pub starts_with_sound :
    (prefix text : Text) → starts_with prefix text ≡ true → (rest : Text) × (text ≡ prefix ++ rest)
starts_with_sound [] text h = (text, refl)
starts_with_sound (p ∷ ps) [] h = absurd (ground arith)
starts_with_sound (p ∷ ps) (x ∷ xs) h =
    let (rest, e) = starts_with_sound ps xs (ground arith) in (rest, ap₂ ◌∷◌ (ground arith) e)

-- The bytes of a literal.
abbrev pub codes : String → Text
codes String.[] = []
codes (String.◌∷◌ c s) = code c ∷ codes s

-- snprintf into a buffer of `size` bytes keeps what fits before the NUL.
abbrev pub printed : ℕ → Text → Text
printed size text = take (size - 1) text

unfoldable pub digits : ℕ → ℕ → Text
digits zero n = []
digits (suc fuel) n =
    let high = digits fuel (n / 10) in
    if ltb n 10 then (48 + n) ∷ [] else high ++ ((48 + n % 10) ∷ [])

-- "%lu": a number has no more digits than it counts.
unfoldable pub decimal : ℕ → Text
unfolding digits
decimal n = digits (suc n) n

abbrev pub true_false : Bool → Text
true_false true = codes "true"
true_false false = codes "false"

-- The bytes before the first NUL.
abbrev pub c_string : Text → Text
c_string [] = []
c_string (x ∷ xs) = if x == 0 then [] else x ∷ c_string xs
