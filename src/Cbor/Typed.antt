-- ===== src/Cbor/Typed.antt =====
-- What the typed lookups of wdc_cbor.c make of a value that a message holds.
use pulse_esp32_host.Base.{
  ℕ, ◌^◌, ◌≡◌, refl, Bool, List, Result, ok, err, bad_encoding, ltb, if◌then◌else◌, ℤ, pos, negsuc,
  arith,
}
use pulse_esp32_host.Cbor.Read.{Item}
use pulse_esp32_host.Cbor.Find.{as_u32, as_u64, as_i32, as_bool, as_bytes, as_text}
use pulse_esp32_host.Cbor.Encoding.{Value, uint, sint, flag, bytes, text, Fits, item_of}

-- What each lookup must answer for a value: a number for each type that holds it, without regard to
-- the put function that wrote it, a Boolean, the bytes or the text for its own type, and an error for
-- any other.
abbrev pub u32_in : Value → Result ℕ
u32_in (uint n) = if ltb n (2 ^ 32) then ok n else err bad_encoding
u32_in (sint (pos n)) = ok n
u32_in _ = err bad_encoding

abbrev pub u64_in : Value → Result ℕ
u64_in (uint n) = ok n
u64_in (sint (pos n)) = ok n
u64_in _ = err bad_encoding

abbrev pub i32_in : Value → Result ℤ
i32_in (uint n) = if ltb n (2 ^ 31) then ok (pos n) else err bad_encoding
i32_in (sint i) = ok i
i32_in _ = err bad_encoding

abbrev pub bool_in : Value → Result Bool
bool_in (flag b) = ok b
bool_in _ = err bad_encoding

abbrev pub bytes_in : Value → Result (List ℕ)
bytes_in (bytes xs) = ok xs
bytes_in _ = err bad_encoding

abbrev pub text_in : Value → Result (List ℕ)
text_in (text xs) = ok xs
text_in _ = err bad_encoding

-- A conversion of the code that gives what a lookup must answer.
abbrev pub Gives {ℓ} : {A : Type ℓ} → (Item → Result A) → (Value → Result A) → Type ℓ
Gives conv value_in = (v : Value) (n : ℕ) → Fits v → conv (item_of v n) ≡ value_in v

pub as_u32-Gives : Gives as_u32 u32_in
as_u32-Gives (uint k) n h = ground arith
as_u32-Gives (sint (pos k)) n h = ground arith
as_u32-Gives (sint (negsuc k)) n h = refl
as_u32-Gives (flag b) n h = refl
as_u32-Gives (bytes xs) n h = refl
as_u32-Gives (text xs) n h = refl

pub as_u64-Gives : Gives as_u64 u64_in
as_u64-Gives (uint k) n h = refl
as_u64-Gives (sint (pos k)) n h = refl
as_u64-Gives (sint (negsuc k)) n h = refl
as_u64-Gives (flag b) n h = refl
as_u64-Gives (bytes xs) n h = refl
as_u64-Gives (text xs) n h = refl

pub as_i32-Gives : Gives as_i32 i32_in
as_i32-Gives (uint k) n h = ground arith
as_i32-Gives (sint (pos k)) n h = ground arith
as_i32-Gives (sint (negsuc k)) n h = ground arith
as_i32-Gives (flag b) n h = refl
as_i32-Gives (bytes xs) n h = refl
as_i32-Gives (text xs) n h = refl

pub as_bool-Gives : Gives as_bool bool_in
as_bool-Gives (uint k) n h = refl
as_bool-Gives (sint (pos k)) n h = refl
as_bool-Gives (sint (negsuc k)) n h = refl
as_bool-Gives (flag b) n h = refl
as_bool-Gives (bytes xs) n h = refl
as_bool-Gives (text xs) n h = refl

pub as_bytes-Gives : Gives as_bytes bytes_in
as_bytes-Gives (uint k) n h = refl
as_bytes-Gives (sint (pos k)) n h = refl
as_bytes-Gives (sint (negsuc k)) n h = refl
as_bytes-Gives (flag b) n h = refl
as_bytes-Gives (bytes xs) n h = refl
as_bytes-Gives (text xs) n h = refl

pub as_text-Gives : Gives as_text text_in
as_text-Gives (uint k) n h = refl
as_text-Gives (sint (pos k)) n h = refl
as_text-Gives (sint (negsuc k)) n h = refl
as_text-Gives (flag b) n h = refl
as_text-Gives (bytes xs) n h = refl
as_text-Gives (text xs) n h = refl
