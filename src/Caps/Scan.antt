-- ===== src/Caps/Scan.antt =====
-- The scanner of wdc_caps.c, which is not the one of the bundle: it knows four blanks, wraps a number
-- at 32 bits, and takes a quote behind a backslash for text. A pointer into the text is the bytes from
-- it to the end of the scope; the byte at the end, which the code may look at, decides nothing.
pub mod Ends
use pulse_esp32_host.Base.{
  ℕ, suc, ◌+◌, ◌-◌, ◌*◌, Bool, true, false, not, ◌&&◌, ◌||◌, List, [], ◌∷◌, ◌++◌, Option, none,
  some, Result, ok, err, bad_encoding, ◌>>=◌, leb, ltb, ◌==◌, if◌then◌else◌, length, drop, Text,
  starts_with, u32,
}

abbrev pub is_blank : ℕ → Bool
is_blank c = c == 32 || c == 10 || c == 13 || c == 9

unfoldable pub skip_blanks : List ℕ → List ℕ
skip_blanks [] = []
skip_blanks (x ∷ xs) = if is_blank x then skip_blanks xs else x ∷ xs

abbrev behind_colon : List ℕ → Option (List ℕ) → Option (List ℕ)
unfolding skip_blanks
behind_colon [] rest = rest
behind_colon (x ∷ xs) rest = if x == 58 then some (skip_blanks xs) else rest

-- find_key
unfoldable pub find_key : Text → List ℕ → Option (List ℕ)
unfolding skip_blanks behind_colon
find_key key [] = none
find_key key (x ∷ xs) =
    let rest = find_key key xs in
    if ltb (length key + 2) (length (x ∷ xs))
    then (if x == 34 && starts_with (key ++ 34 ∷ []) xs
        then behind_colon (skip_blanks (drop (length key + 1) xs)) rest
        else rest)
    else none

abbrev pub cons_fst : ℕ → Result (List ℕ × List ℕ) → Result (List ℕ × List ℕ)
cons_fst x (err e) = err e
cons_fst x (ok (text, rest)) = ok (x ∷ text, rest)

-- The bytes up to the closing quote, and those behind it.
unfoldable pub text_body : List ℕ → Result (List ℕ × List ℕ)
text_body [] = err bad_encoding
text_body (x ∷ xs) =
    let more = cons_fst x (text_body xs) in
    if x == 34 then ok ([], xs) else if x == 92 then err bad_encoding else more

unfoldable pub text_at : List ℕ → Result (List ℕ × List ℕ)
unfolding text_body
text_at [] = err bad_encoding
text_at (x ∷ xs) = if x == 34 then text_body xs else err bad_encoding

-- extract_string_value: the slice, and what is behind its closing quote
unfoldable pub extract_slice : List ℕ → Result (List ℕ × List ℕ)
unfolding skip_blanks text_at
extract_slice p = text_at (skip_blanks p)

abbrev pub is_decimal : ℕ → Bool
is_decimal c = leb 48 c && leb c 57

unfoldable pub read_decimal : ℕ → List ℕ → ℕ
read_decimal value [] = value
read_decimal value (x ∷ xs) =
    let rest = read_decimal (u32 (value * 10 + (x - 48))) xs in if is_decimal x then rest else value

unfoldable pub decimal_at : List ℕ → Result ℕ
unfolding read_decimal
decimal_at [] = err bad_encoding
decimal_at (x ∷ xs) = if is_decimal x then ok (read_decimal 0 (x ∷ xs)) else err bad_encoding

-- extract_uint_value
unfoldable pub extract_uint : List ℕ → Result ℕ
unfolding skip_blanks decimal_at
extract_uint p = decimal_at (skip_blanks p)

abbrev pub Matched : Type 0
Matched = Option (List ℕ × List ℕ)

abbrev pub cons_matched : ℕ → Matched → Matched
cons_matched x none = none
cons_matched x (some (inner, rest)) = some (x ∷ inner, rest)

-- The loop of find_matching behind its first byte: the bytes before the bracket that closes the first,
-- and those behind it; `previous` is the byte before.
unfoldable pub match_loop : ℕ → ℕ → ℕ → Bool → ℕ → List ℕ → Matched
match_loop left right depth in_string previous [] = none
match_loop left right depth in_string previous (x ∷ xs) =
    let in_text = if x == 34 && not (previous == 92) then not in_string else in_string in
    let within = cons_matched x (match_loop left right depth true x xs) in
    let deeper = cons_matched x (match_loop left right (depth + 1) false x xs) in
    let higher = cons_matched x (match_loop left right (depth - 1) false x xs) in
    let same = cons_matched x (match_loop left right depth false x xs) in
    if in_text
    then within
    else if x == left
    then deeper
    else if x == right
    then (if depth == 1 then some ([], xs) else higher)
    else same

-- find_matching where the text starts with `left`, as every caller has checked
unfoldable pub find_matching : ℕ → ℕ → List ℕ → Matched
unfolding match_loop
find_matching left right [] = none
find_matching left right (x ∷ xs) =
    if x == left then cons_matched x (match_loop left right 1 false x xs) else none

abbrev pub behind_bracket : List ℕ → List ℕ
behind_bracket [] = []
behind_bracket (x ∷ xs) = xs
