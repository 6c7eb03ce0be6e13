-- ===== src/Bundle/Json.antt =====
-- The scanner of wdc_bundle.c for the manifest. A pointer into the text is the bytes from it to the
-- end of the scope; the byte at the end, which the code may look at, decides nothing. A `char` array
-- that is filled is the C string in it.
pub mod Numbers
use pulse_esp32_host.Base.{
  u64, c_string, ℕ, suc, ◌+◌, ◌-◌, ◌*◌, Bool, true, false, ◌&&◌, ◌||◌, List, [], ◌∷◌, ◌++◌, Option,
  none, some, Result, ok, err, bad_encoding, no_memory, ◌>>=◌, leb, ltb, ◌==◌, if◌then◌else◌,
  length, drop, Text, text_eq, starts_with, codes,
}

abbrev pub quote : ℕ
quote = 34

abbrev pub backslash : ℕ
backslash = 92

abbrev pub colon : ℕ
colon = 58

-- isspace and isdigit
abbrev pub is_space : ℕ → Bool
is_space c = c == 32 || leb 9 c && leb c 13

abbrev pub is_digit : ℕ → Bool
is_digit c = leb 48 c && leb c 57

abbrev pub head_is : ℕ → List ℕ → Bool
head_is c [] = false
head_is c (x ∷ xs) = x == c

unfoldable pub skip_ws : List ℕ → List ℕ
skip_ws [] = []
skip_ws (x ∷ xs) = if is_space x then skip_ws xs else x ∷ xs

abbrev pub quoted : Text → Text
quoted key = quote ∷ (key ++ quote ∷ [])

-- The value behind the colon that follows a key.
unfoldable pub after_colon : List ℕ → Option (List ℕ)
unfolding skip_ws
after_colon [] = none
after_colon (x ∷ xs) = if x == colon then some (skip_ws xs) else none

abbrev pub or_rest : Option (List ℕ) → Option (List ℕ) → Option (List ℕ)
or_rest (some v) rest = some v
or_rest none rest = rest

-- find_string_token and the loop of find_key_local in one: the search goes on one byte behind a token
-- that no colon follows.
unfoldable pub find_key : Text → List ℕ → Option (List ℕ)
unfolding after_colon skip_ws
find_key key [] = none
find_key key (x ∷ xs) =
    let rest = find_key key xs in
    if starts_with (quoted key) (x ∷ xs)
    then or_rest (after_colon (skip_ws (drop (length key + 2) (x ∷ xs)))) rest
    else rest

abbrev pub cons_to : ℕ → Option (List ℕ) → Option (List ℕ)
cons_to x none = none
cons_to x (some xs) = some (x ∷ xs)

-- Where the scan stands: outside of strings, inside one, or behind a backslash there.
pub data Scan : Type 0 where
  outside inside escaped : Scan

abbrev pub scan_inside : ℕ → Scan
scan_inside c = if c == backslash then escaped else if c == quote then outside else inside

-- The loop of find_matching_local: the bytes before the bracket that closes the first.
unfoldable pub match_from : ℕ → ℕ → ℕ → Scan → List ℕ → Option (List ℕ)
match_from open_ch close_ch depth s [] = none
match_from open_ch close_ch depth escaped (x ∷ xs) =
    cons_to x (match_from open_ch close_ch depth inside xs)
match_from open_ch close_ch depth inside (x ∷ xs) =
    cons_to x (match_from open_ch close_ch depth (scan_inside x) xs)
match_from open_ch close_ch depth outside (x ∷ xs) =
    let text = match_from open_ch close_ch depth inside xs in
    let deeper = match_from open_ch close_ch (depth + 1) outside xs in
    let higher = match_from open_ch close_ch (depth - 1) outside xs in
    let same = match_from open_ch close_ch depth outside xs in
    if x == quote
    then cons_to x text
    else if x == open_ch
    then cons_to x deeper
    else if x == close_ch
    then (if depth == 1 then some [] else cons_to x higher)
    else cons_to x same

-- find_matching_local
unfoldable pub find_matching : ℕ → ℕ → List ℕ → Option (List ℕ)
unfolding match_from
find_matching open_ch close_ch p =
    if head_is open_ch p then match_from open_ch close_ch 0 outside p else none

-- The loop of extract_string_value, with the bytes so far in number.
unfoldable pub string_body : ℕ → ℕ → List ℕ → Result (List ℕ)
string_body out_cap n [] = err bad_encoding
string_body out_cap n (x ∷ xs) =
    let rest = string_body out_cap (n + 1) xs in
    if x == quote
    then ok []
    else if x == backslash
    then err bad_encoding
    else if leb out_cap (n + 1)
    then err no_memory
    else rest >>= λ bytes. ok (x ∷ bytes)

abbrev string_at : ℕ → List ℕ → Result Text
string_at out_cap [] = err bad_encoding
string_at out_cap (x ∷ xs) =
    if x == quote
    then (string_body out_cap 0 xs >>= λ bytes. ok (c_string bytes))
    else err bad_encoding

-- extract_string_value
unfoldable pub extract_string : ℕ → List ℕ → Result Text
unfolding skip_ws string_body
extract_string out_cap p = string_at out_cap (skip_ws p)

-- The loop of extract_uint64_value; a larger number wraps.
unfoldable pub read_digits : ℕ → List ℕ → ℕ
read_digits value [] = value
read_digits value (x ∷ xs) =
    let rest = read_digits (u64 (value * 10 + (x - 48))) xs in if is_digit x then rest else value

abbrev digits_at : List ℕ → Result ℕ
digits_at [] = err bad_encoding
digits_at (x ∷ xs) = if is_digit x then ok (read_digits 0 (x ∷ xs)) else err bad_encoding

-- extract_uint64_value
unfoldable pub extract_uint64 : List ℕ → Result ℕ
unfolding skip_ws read_digits
extract_uint64 p = digits_at (skip_ws p)

-- A key that must be there.
abbrev pub at_key {ℓ} : {A : Type ℓ} → Option (List ℕ) → (List ℕ → Result A) → Result A
at_key none k = err bad_encoding
at_key (some p) k = k p

unfoldable pub extract_u32_key : List ℕ → Text → Result ℕ
unfolding find_key extract_uint64
extract_u32_key json key =
    at_key (find_key key json) λ p.
      extract_uint64 p >>= λ value. if ltb 0xffff_ffff value then err bad_encoding else ok value

unfoldable pub extract_u64_key : List ℕ → Text → Result ℕ
unfolding find_key extract_uint64
extract_u64_key json key = at_key (find_key key json) extract_uint64

unfoldable pub extract_string_key : List ℕ → Text → ℕ → Result Text
unfolding find_key extract_string
extract_string_key json key out_cap = at_key (find_key key json) (extract_string out_cap)

unfoldable pub extract_bool_key : List ℕ → Text → Result Bool
unfolding find_key
extract_bool_key json key = at_key (find_key key json) λ p.
    if starts_with (codes "true") p
    then ok true
    else if starts_with (codes "false") p
    then ok false
    else err bad_encoding

-- The object under a key: its bytes from `{` up to the brace that closes it.
unfoldable pub object_at : List ℕ → Text → Option (List ℕ)
unfolding find_key find_matching
object_at json key = elim (find_key key json) [ none ↦ none | some obj ↦ find_matching 123 125 obj ]

-- extract_object_string
unfoldable pub extract_object_string : List ℕ → Text → Text → ℕ → Result Text
unfolding object_at extract_string_key
extract_object_string json object_key key out_cap =
    at_key (object_at json object_key) λ obj. extract_string_key obj key out_cap

-- extract_object_u32, and extract_u32_from_nested_object with the same body
unfoldable pub extract_object_u32 : List ℕ → Text → Text → Result ℕ
unfolding object_at extract_u32_key
extract_object_u32 json object_key key =
    at_key (object_at json object_key) λ obj. extract_u32_key obj key

abbrev tail_of : List ℕ → List ℕ
tail_of [] = []
tail_of (x ∷ xs) = xs

-- The array under a key of an object: its bytes from `[` up to the bracket that closes it.
unfoldable pub array_at : List ℕ → Text → Option (List ℕ)
unfolding find_key find_matching
array_at obj key = elim (find_key key obj) [ none ↦ none | some array ↦ find_matching 91 93 array ]

-- extract_first_array_string_under_object
unfoldable pub extract_first_string : List ℕ → Text → Text → ℕ → Result Text
unfolding object_at array_at extract_string
extract_first_string json object_key array_key out_cap =
    at_key (object_at json object_key)
      λ obj. at_key (array_at obj array_key) λ array. extract_string out_cap (tail_of array)

abbrev text_found : Text → Result Text → Bool
text_found needle (ok t) = text_eq t needle
text_found needle (err e) = false

-- The loop of array_contains_string; `in_text` while it looks for the end of another text.
unfoldable pub array_loop : Text → Bool → List ℕ → Bool
unfolding extract_string
array_loop needle in_text [] = false
array_loop needle true (x ∷ xs) = array_loop needle (if x == quote then false else true) xs
array_loop needle false (x ∷ xs) =
    let rest = array_loop needle (x == quote) xs in
    if x == quote && text_found needle (extract_string 96 (x ∷ xs)) then true else rest

-- array_contains_string at the array under a key
unfoldable pub array_contains : Text → Option (List ℕ) → Bool
unfolding array_loop
array_contains needle none = false
array_contains needle (some array) = array_loop needle false (tail_of array)

-- target_array_contains; a NULL needle is `none`.
unfoldable pub target_array_contains : List ℕ → Text → Option Text → Bool
unfolding object_at array_at array_contains
target_array_contains json array_key none = false
target_array_contains json array_key (some needle) = elim (object_at json (codes "target")) [
  | none ↦ false
  | some target ↦ array_contains needle (array_at target array_key)
]
