-- ===== src/Bundle/Json/Numbers.antt =====
-- The numbers that the scanner reads, against the decimal numbers they are written as.
use pulse_esp32_host.Base.{
  u64, ℕ, zero, suc, ◌+◌, ◌-◌, ◌*◌, ◌/◌, ◌%◌, ◌^◌, ◌≤◌, ◌<◌, ◌≡◌, refl, sym, ap, subst, ◌∙◌, true,
  false, Bool-cases, inl, inr, List, [], ◌∷◌, ◌++◌, ok, ltb, arith, decimal, digits,
}
use mathlib.Core.List.{append_assoc}
use pulse_esp32_host.Bundle.Json.{is_digit, is_space, skip_ws, read_digits, extract_uint64}

abbrev pub NoDigit : List ℕ → Type 0
NoDigit [] = Unit
NoDigit (x ∷ xs) = is_digit x ≡ false

read_digits-stop : (v : ℕ) (rest : List ℕ) → NoDigit rest → read_digits v rest ≡ v
unfolding read_digits
read_digits-stop v [] h = refl
read_digits-stop v (x ∷ xs) h = rw h refl

read_digits-step :
    (v d : ℕ) (rest : List ℕ)
    → d < 10
    → read_digits v ((48 + d) ∷ rest) ≡ read_digits (u64 (v * 10 + d)) rest
unfolding read_digits
read_digits-step v d rest h =
    let e : is_digit (48 + d) ≡ true = ground arith in
    let e' : v * 10 + (48 + d - 48) ≡ v * 10 + d = omega arith in
    rw e (ap (λ k. read_digits (u64 k) rest) e')

-- The digits of a number, whatever comes behind them.
read_digits-digits :
    (fuel n : ℕ) (rest : List ℕ)
    → n < fuel
    → read_digits 0 (digits fuel n ++ rest) ≡ read_digits (u64 n) rest
unfolding digits
read_digits-digits zero n rest h = absurd (omega arith)
read_digits-digits (suc fuel) n rest h = elim (Bool-cases (ltb n 10)) [
  | inl e ↦
      let small : n < 10 = ground arith in
      let same : u64 (0 * 10 + n) ≡ u64 n = omega arith in
      rw e (read_digits-step 0 n rest small ∙ ap (λ k. read_digits k rest) same)
  | inr e ↦
      let big : 10 ≤ n = ground arith in
      let d = n % 10 in
      let same : u64 (u64 (n / 10) * 10 + d) ≡ u64 n = omega arith in
      rw e (
        ap (read_digits 0) (append_assoc (digits fuel (n / 10)) ((48 + d) ∷ []) rest)
        ∙ read_digits-digits fuel (n / 10) ((48 + d) ∷ rest) (omega arith)
        ∙ read_digits-step (u64 (n / 10)) d rest (omega arith)
        ∙ ap (λ k. read_digits k rest) same)
]

-- A text that starts with a digit is read as a number from its first byte on.
abbrev StartsWithDigit : List ℕ → Type 0
StartsWithDigit [] = ⊥
StartsWithDigit (x ∷ xs) = is_digit x ≡ true

digits-StartsWithDigit :
    (fuel n : ℕ) (rest : List ℕ) → n < fuel → StartsWithDigit (digits fuel n ++ rest)
unfolding digits
digits-StartsWithDigit zero n rest h = absurd (omega arith)
digits-StartsWithDigit (suc fuel) n rest h = elim (Bool-cases (ltb n 10)) [
  | inl e ↦ rw e (ground arith)
  | inr e ↦ rw e (
      subst StartsWithDigit (sym (append_assoc (digits fuel (n / 10)) ((48 + n % 10) ∷ []) rest))
        (digits-StartsWithDigit fuel (n / 10) ((48 + n % 10) ∷ rest) (ground arith)))
]

extract_uint64-read : (p : List ℕ) → StartsWithDigit p → extract_uint64 p ≡ ok (read_digits 0 p)
unfolding extract_uint64 skip_ws
extract_uint64-read [] h = absurd h
extract_uint64-read (x ∷ xs) h = let e : is_space x ≡ false = ground arith in rw (e, h) refl

-- A number that is written in decimal, with no digit behind it, is read as that number modulo 2^64.
pub decimal_read_back :
    (n : ℕ) (rest : List ℕ) → NoDigit rest → extract_uint64 (decimal n ++ rest) ≡ ok (n % 2 ^ 64)
unfolding decimal
decimal_read_back n rest h =
    extract_uint64-read (digits (suc n) n ++ rest)
      (digits-StartsWithDigit (suc n) n rest (omega arith))
    ∙ ap ok (read_digits-digits (suc n) n rest (omega arith) ∙ read_digits-stop (u64 n) rest h)
