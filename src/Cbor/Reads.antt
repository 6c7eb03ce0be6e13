-- ===== src/Cbor/Reads.antt =====
-- The head of an item is read back as it was written.
use pulse_esp32_host.Base.{
  ℕ, ◌+◌, ◌*◌, ◌/◌, ◌^◌, ◌≤◌, ◌<◌, ◌≡◌, Bool-cases, inl, inr, List, [], ◌∷◌, ok, leb, length, arith,
}
use pulse_esp32_host.Cbor.Read.{byte, Head, read_shifted, read_type_value}
use pulse_esp32_host.Cbor.Writes.{shifted, head_bytes}
use pulse_esp32_host.Cbor.Place.{At, At-tail, At-room, At-byte}

abbrev head_at : ℕ → ℕ → ℕ → Head
head_at major value next = record { major = major; value = value; next = next }

module _ (buf : List ℕ) (major value : ℕ) (h : major < 8) (offset : ℕ) where
  read_one :
      value ≤ 23
      → At buf offset ((major * 32 + value) ∷ [])
      → read_type_value buf offset ≡ ok (head_at major value (offset + 1))
  unfolding read_type_value
  read_one le a = ground (arith, At-byte a, At-room _ a)

  read_two :
      value ≤ 0xff
      → At buf offset ((major * 32 + 24) ∷ value ∷ [])
      → read_type_value buf offset ≡ ok (head_at major value (offset + 2))
  unfolding read_type_value
  read_two le a = ground (arith, At-byte a, At-byte (At-tail a), At-room _ a)

  read_three :
      value ≤ 0xffff
      → At buf offset ((major * 32 + 25) ∷ shifted 2 value)
      → read_type_value buf offset ≡ ok (head_at major value (offset + 3))
  unfolding read_type_value shifted
  read_three le a =
      ground (arith, At-byte a, At-byte (At-tail a), At-byte (At-tail (At-tail a)), At-room _ a)

  read_five :
      value ≤ 0xffff_ffff
      → At buf offset ((major * 32 + 26) ∷ shifted 4 value)
      → read_type_value buf offset ≡ ok (head_at major value (offset + 5))
  unfolding read_type_value shifted
  read_five le a = ground (
    arith,
    At-byte a,
    At-byte (At-tail a),
    At-byte (At-tail (At-tail a)),
    At-byte (At-tail (At-tail (At-tail a))),
    At-byte (At-tail (At-tail (At-tail (At-tail a)))),
    At-room _ a,
  )

  eight_bytes :
      value < 2 ^ 64
      → At buf (offset + 1) (shifted 8 value)
      → read_shifted buf 8 (offset + 1) 0 ≡ value
  unfolding read_shifted shifted
  eight_bytes lt a =
      let a₁ = At-tail a in
      let a₂ = At-tail a₁ in
      let a₃ = At-tail a₂ in
      let a₄ = At-tail a₃ in
      let a₅ = At-tail a₄ in
      let a₆ = At-tail a₅ in
      let a₇ = At-tail a₆ in
      rw
        (
          At-byte a,
          At-byte a₁,
          At-byte a₂,
          At-byte a₃,
          At-byte a₄,
          At-byte a₅,
          At-byte a₆,
          At-byte a₇,
        )
        (omega arith)

  read_nine :
      value < 2 ^ 64
      → At buf offset ((major * 32 + 27) ∷ shifted 8 value)
      → read_type_value buf offset ≡ ok (head_at major value (offset + 9))
  unfolding read_type_value shifted
  read_nine lt a = ground (arith, At-byte a, eight_bytes lt (At-tail a), At-room _ a)

-- A fact of every form of a head.
pub head_cases {ℓ} :
    (P : List ℕ → Type ℓ) (major value : ℕ)
    → (value ≤ 23 → P ((major * 32 + value) ∷ []))
    → (value ≤ 0xff → P ((major * 32 + 24) ∷ value ∷ []))
    → (value ≤ 0xffff → P ((major * 32 + 25) ∷ shifted 2 value))
    → (value ≤ 0xffff_ffff → P ((major * 32 + 26) ∷ shifted 4 value))
    → P ((major * 32 + 27) ∷ shifted 8 value)
    → P (head_bytes major value)
unfolding head_bytes
head_cases P major value p₁ p₂ p₃ p₅ p₉ = elim (Bool-cases (leb value 23)) [
  | inl e ↦ rw (e, head_bytes) (p₁ (ground arith))
  | inr e ↦ elim (Bool-cases (leb value 0xff)) [
    | inl e' ↦ rw (e, head_bytes) (rw e' (p₂ (ground arith)))
    | inr e' ↦ elim (Bool-cases (leb value 0xffff)) [
      | inl f ↦ rw (e, head_bytes) (rw (e', f) (p₃ (ground arith)))
      | inr f ↦ elim (Bool-cases (leb value 0xffff_ffff)) [
        | inl f' ↦ rw (e, head_bytes) (rw (e', f, f') (p₅ (ground arith)))
        | inr f' ↦ rw (e, head_bytes) (rw (e', f, f') p₉)
      ]
    ]
  ]
]

-- The head is read back, and its first byte shows the major type.
pub read_head :
    (buf : List ℕ) (major value : ℕ) (offset : ℕ)
    → major < 8
    → value < 2 ^ 64
    → At buf offset (head_bytes major value)
    → (read_type_value buf offset
        ≡ ok (head_at major value (offset + length (head_bytes major value))))
      × (byte buf offset / 32 ≡ major)
read_head buf major value offset h lt =
    head_cases
      (λ xs.
        At buf offset xs
        → (read_type_value buf offset ≡ ok (head_at major value (offset + length xs)))
          × (byte buf offset / 32 ≡ major))
      major value (λ le a. (read_one buf major value h offset le a, omega (arith, At-byte a)))
      (λ le a. (read_two buf major value h offset le a, omega (arith, At-byte a)))
      (λ le a.
        (unfold shifted in read_three buf major value h offset le a, omega (arith, At-byte a)))
      (λ le a.
        (unfold shifted in read_five buf major value h offset le a, omega (arith, At-byte a)))
      (λ a. (unfold shifted in read_nine buf major value h offset lt a, omega (arith, At-byte a)))

-- A head has one byte at least and nine at most.
pub length-head_bytes :
    (major value : ℕ)
    → (0 < length (head_bytes major value)) × (length (head_bytes major value) ≤ 9)
unfolding shifted
length-head_bytes major value =
    head_cases (λ xs. (0 < length xs) × (length xs ≤ 9)) major value (λ le. omega arith)
      (λ le. omega arith) (λ le. omega arith) (λ le. omega arith) (omega arith)

pub length-head_bytes_small : (major value : ℕ) → value ≤ 23 → length (head_bytes major value) ≡ 1
unfolding head_bytes
length-head_bytes_small major value le = ground arith

pub length-head_bytes_byte : (major value : ℕ) → value ≤ 0xff → length (head_bytes major value) ≤ 2
unfolding head_bytes
length-head_bytes_byte major value le = ground arith

pub length-head_bytes_word :
    (major value : ℕ) → value ≤ 0xffff_ffff → length (head_bytes major value) ≤ 5
unfolding head_bytes shifted
length-head_bytes_word major value le = ground arith
