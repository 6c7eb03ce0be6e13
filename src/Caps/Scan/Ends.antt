-- ===== src/Caps/Scan/Ends.antt =====
-- What the scanner of wdc_caps.c leaves behind what it read, and its errors.
use pulse_esp32_host.Base.{
  ℕ, suc, ◌+◌, ◌-◌, ◌≤◌, Bool, true, false, not, ◌&&◌, List, [], ◌∷◌, none, some, Result, ok, err,
  bad_encoding, ◌==◌, if◌then◌else◌, if_both, length, arith, Ends,
}
use pulse_esp32_host.Caps.Scan.{
  skip_blanks, text_body, extract_slice, extract_uint, match_loop, find_matching, Matched,
  cons_matched, cons_fst, text_at, decimal_at, is_decimal, read_decimal, is_blank,
}

-- What is left behind a bracket or a text is no longer than the bytes it was looked for in.
abbrev pub LeavesAtMost : ℕ → Matched → Type 0
LeavesAtMost n none = Unit
LeavesAtMost n (some (inner, rest)) = length rest ≤ n

cons_matched-LeavesAtMost :
    (x n : ℕ) (m : Matched) → LeavesAtMost n m → LeavesAtMost n (cons_matched x m)
cons_matched-LeavesAtMost x n none h = tt
cons_matched-LeavesAtMost x n (some (inner, rest)) h = h

LeavesAtMost-suc : (n : ℕ) (m : Matched) → LeavesAtMost n m → LeavesAtMost (suc n) m
LeavesAtMost-suc n none h = tt
LeavesAtMost-suc n (some (inner, rest)) h = omega arith

match_loop-LeavesAtMost :
    (left right depth : ℕ) (in_string : Bool) (previous : ℕ) (p : List ℕ)
    → LeavesAtMost (length p) (match_loop left right depth in_string previous p)
unfolding match_loop
match_loop-LeavesAtMost left right depth in_string previous [] = tt
match_loop-LeavesAtMost left right depth in_string previous (x ∷ xs) =
    let n = length xs in
    let P = LeavesAtMost n in
    let keep : (m : Matched) → LeavesAtMost n m → P (cons_matched x m) =
      cons_matched-LeavesAtMost x n in
    let in_text = if x == 34 && not (previous == 92) then not in_string else in_string in
    let within = match_loop left right depth true x xs in
    let deeper = match_loop left right (depth + 1) false x xs in
    let higher = match_loop left right (depth - 1) false x xs in
    let same = match_loop left right depth false x xs in
    let closed = if depth == 1 then some ([], xs) else cons_matched x higher in
    let at_close = if x == right then closed else cons_matched x same in
    LeavesAtMost-suc n (match_loop left right depth in_string previous (x ∷ xs)) (
      if_both P in_text (cons_matched x within)
        (if x == left then cons_matched x deeper else at_close)
        (keep within (match_loop-LeavesAtMost left right depth true x xs))
        (if_both P (x == left) (cons_matched x deeper) at_close
          (keep deeper (match_loop-LeavesAtMost left right (depth + 1) false x xs))
          (if_both P (x == right) closed (cons_matched x same)
            (if_both P (depth == 1) (some ([], xs)) (cons_matched x higher) (omega arith)
              (keep higher (match_loop-LeavesAtMost left right (depth - 1) false x xs)))
            (keep same (match_loop-LeavesAtMost left right depth false x xs)))))

pub find_matching-LeavesAtMost :
    (left right x : ℕ) (xs : List ℕ) → LeavesAtMost (length xs) (find_matching left right (x ∷ xs))
unfolding find_matching
find_matching-LeavesAtMost left right x xs =
    let m = match_loop left right 1 false x xs in
    if_both (LeavesAtMost (length xs)) (x == left) (cons_matched x m) none
      (cons_matched-LeavesAtMost x (length xs) m (match_loop-LeavesAtMost left right 1 false x xs))
      tt

cons_fst-Ends : (x : ℕ) (r : Result (List ℕ × List ℕ)) → Ends r → Ends (cons_fst x r)
cons_fst-Ends x (ok (text, rest)) h = tt
cons_fst-Ends x (err e) h = h

text_body-Ends : (p : List ℕ) → Ends (text_body p)
unfolding text_body
text_body-Ends [] = tt
text_body-Ends (x ∷ xs) =
    let P : Result (List ℕ × List ℕ) → Type 0 = λ r. Ends r in
    let more = cons_fst x (text_body xs) in
    if_both P (x == 34) (ok ([], xs)) (if x == 92 then err bad_encoding else more) tt (
      if_both P (x == 92) (err bad_encoding) more tt
        (cons_fst-Ends x (text_body xs) (text_body-Ends xs)))

text_at-Ends : (p : List ℕ) → Ends (text_at p)
unfolding text_at
text_at-Ends [] = tt
text_at-Ends (x ∷ xs) =
    let P : Result (List ℕ × List ℕ) → Type 0 = λ r. Ends r in
    if_both P (x == 34) (text_body xs) (err bad_encoding) (text_body-Ends xs) tt

pub extract_slice-Ends : (p : List ℕ) → Ends (extract_slice p)
unfolding extract_slice
extract_slice-Ends p = text_at-Ends (skip_blanks p)

decimal_at-Ends : (p : List ℕ) → Ends (decimal_at p)
unfolding decimal_at
decimal_at-Ends [] = tt
decimal_at-Ends (x ∷ xs) =
    let P : Result ℕ → Type 0 = λ r. Ends r in
    if_both P (is_decimal x) (ok (read_decimal 0 (x ∷ xs))) (err bad_encoding) tt tt

pub extract_uint-Ends : (p : List ℕ) → Ends (extract_uint p)
unfolding extract_uint
extract_uint-Ends p = decimal_at-Ends (skip_blanks p)

pub skip_blanks-shorter : (p : List ℕ) → length (skip_blanks p) ≤ length p
unfolding skip_blanks
skip_blanks-shorter [] = omega arith
skip_blanks-shorter (x ∷ xs) =
    if_both (λ (q : List ℕ). length q ≤ suc (length xs)) (is_blank x) (skip_blanks xs) (x ∷ xs)
      (omega (arith, skip_blanks-shorter xs)) (omega arith)
