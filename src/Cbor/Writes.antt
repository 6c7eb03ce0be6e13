-- ===== src/Cbor/Writes.antt =====
-- What the put functions write, all of it or nothing to speak of.
use mathlib.Core.List.{append_assoc}
use pulse_esp32_host.Base.{
  ℕ, zero, suc, ◌+◌, ◌*◌, ◌/◌, ◌%◌, ◌^◌, ◌≤◌, ◌<◌, ◌≡◌, ap, fun_ext, ◌∙◌, List, [], ◌∷◌, ◌++◌,
  Result, ok, err, ◌>>=◌, response_too_small, leb, if◌then◌else◌, length, length-append, arith,
  Bool-cases, inl, inr,
}
use pulse_esp32_host.Cbor.Build.{
  Builder, append_bytes, put_u8, put_raw, put_shifted, put_type_value,
}

-- All of `xs` is written if there is room for it, and the answer is WDC_ERR_RESPONSE_TOO_SMALL if not.
abbrev pub written : Builder → List ℕ → Result Builder
written b xs =
    if leb (length b.bytes + length xs) b.cap
    then ok (append_bytes b xs)
    else err response_too_small

pub record Writes (f : Builder → Result Builder) (xs : List ℕ) : Type 0 where
  pub at : (b : Builder) → f b ≡ written b xs

-- The bytes of `value`, high byte first.
unfoldable pub shifted : ℕ → ℕ → List ℕ
shifted zero value = []
shifted (suc n) value = (value / 2 ^ (8 * n) % 256) ∷ shifted n value

-- The head of an item: the shortest form that holds the value.
unfoldable pub head_bytes : ℕ → ℕ → List ℕ
unfolding shifted
head_bytes major value =
    if leb value 23
    then (major * 32 + value) ∷ []
    else if leb value 0xff
    then (major * 32 + 24) ∷ value ∷ []
    else if leb value 0xffff
    then (major * 32 + 25) ∷ shifted 2 value
    else if leb value 0xffff_ffff
    then (major * 32 + 26) ∷ shifted 4 value
    else (major * 32 + 27) ∷ shifted 8 value

put_u8-at : (x : ℕ) (b : Builder) → x < 256 → put_u8 x b ≡ written b (x ∷ [])
unfolding put_u8
put_u8-at x b h = ground arith

pub put_u8-Writes : (x : ℕ) → x < 256 → Writes (put_u8 x) (x ∷ [])
put_u8-Writes x h = record { at = λ b. put_u8-at x b h }

put_raw-at : (xs : List ℕ) (b : Builder) → put_raw xs b ≡ written b xs
unfolding put_raw
put_raw-at xs b = ground arith

pub put_raw-Writes : (xs : List ℕ) → Writes (put_raw xs) xs
put_raw-Writes xs = record { at = put_raw-at xs }

append-written :
    (b : Builder) (xs ys : List ℕ) → (written b xs >>= λ b'. written b' ys) ≡ written b (xs ++ ys)
append-written b xs ys =
    ground (arith, length-append b.bytes xs, length-append xs ys, append_assoc b.bytes xs ys)

pub seq-Writes :
    {f g : Builder → Result Builder} {xs ys : List ℕ}
    → Writes f xs
    → Writes g ys
    → Writes (λ b. f b >>= g) (xs ++ ys)
seq-Writes {f} {g} {xs} {ys} hf hg = record {
  at = λ b. rw hf.at (
      ap (λ (k : Builder → Result Builder). written b xs >>= k) (fun_ext hg.at)
      ∙ append-written b xs ys);
}

put_shifted-Writes : (n value : ℕ) → Writes (put_shifted (suc n) value) (shifted (suc n) value)
unfolding put_shifted shifted
put_shifted-Writes zero value = record {
  at = λ b. ground (arith, put_u8-at (value / 2 ^ 0 % 256) b);
}
put_shifted-Writes (suc n) value =
    seq-Writes (put_u8-Writes _ (omega arith)) (put_shifted-Writes n value)

-- `put_type_value` below: each of its five branches is a first byte and a second part.
module _ (major value : ℕ) (h : major < 8) where
  head_two :
      value ≤ 0xff
      → Writes (λ b. put_u8 (major * 32 + 24) b >>= put_u8 value) ((major * 32 + 24) ∷ value ∷ [])
  head_two le = seq-Writes (put_u8-Writes _ (omega arith)) (put_u8-Writes _ (omega arith))

  head_three :
      Writes
        (λ b. (put_u8 (major * 32 + 25) b >>= put_u8 (value / 256 % 256)) >>= put_u8 (value % 256))
        ((major * 32 + 25) ∷ (value / 256 % 256) ∷ (value % 256) ∷ [])
  head_three =
      seq-Writes (seq-Writes (put_u8-Writes _ (omega arith)) (put_u8-Writes _ (omega arith)))
        (put_u8-Writes _ (omega arith))

  head_many :
      (n addl : ℕ)
      → addl < 32
      → Writes
          (λ b. put_u8 (major * 32 + addl) b >>= put_shifted (suc n) value)
          ((major * 32 + addl) ∷ shifted (suc n) value)
  head_many n addl k = seq-Writes (put_u8-Writes _ (omega arith)) (put_shifted-Writes n value)

  two_low_bytes : shifted 2 value ≡ (value / 256 % 256) ∷ (value % 256) ∷ []
  unfolding shifted
  two_low_bytes = ap (λ k. (value / 256 % 256) ∷ k ∷ []) (omega arith)

  put_type_value-at :
      (b : Builder) → put_type_value major value b ≡ written b (head_bytes major value)
  unfolding put_type_value head_bytes
  put_type_value-at b = elim (Bool-cases (leb value 23)) [
    | inl e ↦ rw (e, put_type_value, head_bytes) (put_u8-at _ b (ground arith))
    | inr e ↦ elim (Bool-cases (leb value 0xff)) [
      | inl e' ↦ rw (e, put_type_value, head_bytes) (rw e' ((head_two (ground arith)).at b))
      | inr e' ↦ elim (Bool-cases (leb value 0xffff)) [
        | inl e'' ↦
            rw (e, put_type_value, head_bytes) (rw (e', e'', two_low_bytes) (head_three.at b))
        | inr e'' ↦ elim (Bool-cases (leb value 0xffff_ffff)) [
          | inl f ↦
              rw (e, put_type_value, head_bytes)
                (rw (e', e'', f) ((head_many 3 26 (omega arith)).at b))
          | inr f ↦
              rw (e, put_type_value, head_bytes)
                (rw (e', e'', f) ((head_many 7 27 (omega arith)).at b))
        ]
      ]
    ]
  ]

pub put_type_value-Writes :
    (major value : ℕ) → major < 8 → Writes (put_type_value major value) (head_bytes major value)
put_type_value-Writes major value h = record { at = put_type_value-at major value h }
