-- ===== src/Cbor/Place.antt =====
-- Bytes at an offset of a message.
use mathlib.Core.List.{append_assoc}
use pulse_esp32_host.Base.{
  take-append, ℕ, ◌+◌, ◌≤◌, ◌≡◌, refl, sym, ap, ◌∙◌, List, [], ◌∷◌, ◌++◌, length, length-append,
  get_or, take, drop, arith,
}
use pulse_esp32_host.Cbor.Read.{byte}

-- The bytes `xs` stand in `buf` from `offset` on.
pub record At (buf : List ℕ) (offset : ℕ) (xs : List ℕ) : Type 0 where
  pub before : List ℕ
  pub after : List ℕ
  pub split : buf ≡ before ++ (xs ++ after)
  pub place : length before ≡ offset

pub At-tail :
    {buf : List ℕ} {offset x : ℕ} {xs : List ℕ} → At buf offset (x ∷ xs) → At buf (offset + 1) xs
At-tail {buf} {offset} {x} {xs} a = record {
  before = a.before ++ (x ∷ []);
  after = a.after;
  split = a.split ∙ sym (append_assoc a.before (x ∷ []) (xs ++ a.after));
  place = omega (arith, length-append a.before (x ∷ []), a.place);
}

pub At-left :
    {buf : List ℕ} {offset : ℕ} (xs ys : List ℕ) → At buf offset (xs ++ ys) → At buf offset xs
At-left xs ys a = record {
  before = a.before;
  after = ys ++ a.after;
  split = a.split ∙ ap (◌++◌ a.before) (append_assoc xs ys a.after);
  place = a.place;
}

pub At-right :
    {buf : List ℕ} {offset : ℕ} (xs ys : List ℕ)
    → At buf offset (xs ++ ys)
    → At buf (offset + length xs) ys
At-right xs ys a = record {
  before = a.before ++ xs;
  after = a.after;
  split =
      a.split
      ∙ ap (◌++◌ a.before) (append_assoc xs ys a.after)
      ∙ sym (append_assoc a.before xs (ys ++ a.after));
  place = omega (arith, length-append a.before xs, a.place);
}

pub At-room :
    {buf : List ℕ} {offset : ℕ} (xs : List ℕ) → At buf offset xs → offset + length xs ≤ length buf
At-room {buf} {offset} xs a = omega (
  arith,
  ap length a.split,
  length-append a.before (xs ++ a.after),
  length-append xs a.after,
  a.place,
)

pub At-whole : (xs : List ℕ) (tail : List ℕ) → At (xs ++ tail) 0 xs
At-whole xs tail = record { before = []; after = tail; split = refl; place = refl }

get_or-after :
    (before : List ℕ) (x : ℕ) (rest : List ℕ) → get_or (before ++ (x ∷ rest)) (length before) 0 ≡ x
get_or-after [] x rest = refl
get_or-after (b ∷ bs) x rest = get_or-after bs x rest

pub At-byte :
    {buf : List ℕ} {offset x : ℕ} {xs : List ℕ} → At buf offset (x ∷ xs) → byte buf offset ≡ x
At-byte {buf} {offset} {x} {xs} a =
    rw (a.split, ← a.place) (get_or-after a.before x (xs ++ a.after))

drop-after : (before rest : List ℕ) → drop (length before) (before ++ rest) ≡ rest
drop-after [] rest = refl
drop-after (b ∷ bs) rest = drop-after bs rest

-- What a pointer to the bytes and their number name.
pub At-slice :
    {buf : List ℕ} {offset : ℕ} (xs : List ℕ)
    → At buf offset xs
    → take (length xs) (drop offset buf) ≡ xs
At-slice {buf} {offset} xs a = rw (a.split, ← a.place, drop-after a.before) (take-append xs a.after)
