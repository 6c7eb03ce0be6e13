-- ===== src/Bundle/Wasm/Leb.antt =====
-- The LEB numbers of a payload, against the shortest encoding of a number.
use Prim.Native.Nat.pow
use pulse_esp32_host.Base.{
  u32, ℕ, zero, suc, ◌+◌, ◌*◌, ◌/◌, ◌%◌, ◌^◌, ◌<◌, ◌≤◌, ◌≡◌, refl, ap, ◌∙◌, Bool-cases, inl, inr,
  List, [], ◌∷◌, ◌++◌, some, subst, false, true, ltb, if◌then◌else◌, arith,
}
use pulse_esp32_host.Bundle.Wasm.{leb_loop, read_u32_leb}

unfoldable pub leb_bytes : ℕ → ℕ → List ℕ
leb_bytes zero n = []
leb_bytes (suc k) n =
    let high = leb_bytes k (n / 128) in if ltb n 128 then n ∷ [] else (128 + n % 128) ∷ high

-- The bytes of a uint32_t.
unfoldable pub leb : ℕ → List ℕ
unfolding leb_bytes
leb n = leb_bytes 5 n

split_shift : (q m w : ℕ) → (q * 128 + m) * w ≡ q * (w * 128) + m * w
split_shift q m w = omega arith

split_low : (n : ℕ) → n ≡ n / 128 * 128 + n % 128
split_low n = omega arith

double : (n m : ℕ) → m ≡ suc n → 2 ^ m ≡ 2 ^ n * 2
double n m e = ap (λ k. 2 ^ k) e ∙ pow.suc 2 n

pow_shift : (n : ℕ) → 2 ^ (n + 7) ≡ 2 ^ n * 128
pow_shift n =
    let a = double n (n + 1) (omega arith) in
    let b = double (n + 1) (n + 2) (omega arith) in
    let c = double (n + 2) (n + 3) (omega arith) in
    let d = double (n + 3) (n + 4) (omega arith) in
    let e = double (n + 4) (n + 5) (omega arith) in
    let f = double (n + 5) (n + 6) (omega arith) in
    let g = double (n + 6) (n + 7) (omega arith) in omega arith

-- A byte of a number that is shifted by `w` loses no bit, and the part above it fits as well.
low_fits : (n w : ℕ) → n * w < 2 ^ 32 → u32 (n % 128 * w) ≡ n % 128 * w
low_fits n w h =
    let e : n * w ≡ n / 128 * (w * 128) + n % 128 * w =
      ap (λ k. k * w) (split_low n) ∙ split_shift (n / 128) (n % 128) w in
    omega arith

high_fits : (n w : ℕ) → n * w < 2 ^ 32 → n / 128 * (w * 128) < 2 ^ 32
high_fits n w h =
    let e : n * w ≡ n / 128 * (w * 128) + n % 128 * w =
      ap (λ k. k * w) (split_low n) ∙ split_shift (n / 128) (n % 128) w in
    omega arith

sum_split : (r n w : ℕ) → r + n % 128 * w + n / 128 * (w * 128) ≡ r + n * w
sum_split r n w =
    let e : n * w ≡ n / 128 * (w * 128) + n % 128 * w =
      ap (λ k. k * w) (split_low n) ∙ split_shift (n / 128) (n % 128) w in
    omega arith

leb_last :
    (k shift r n : ℕ) (rest : List ℕ)
    → n * 2 ^ shift < 2 ^ 32
    → n < 128
    → leb_loop (suc k) shift r (leb_bytes (suc k) n ++ rest) ≡ some (r + n * 2 ^ shift, rest)
unfolding leb_loop leb_bytes
leb_last k shift r n rest fits h =
    let e : ltb n 128 ≡ true = ground arith in
    let whole : n % 128 ≡ n = omega arith in
    let low : u32 (n % 128 * 2 ^ shift) ≡ n * 2 ^ shift =
      low_fits n (2 ^ shift) fits ∙ ap (λ m. m * 2 ^ shift) whole in
    rw (e, e, low) refl

leb_more :
    (k shift r n : ℕ) (rest : List ℕ)
    → n * 2 ^ shift < 2 ^ 32
    → 128 ≤ n
    → leb_loop (suc k) shift r (leb_bytes (suc k) n ++ rest)
      ≡ leb_loop k (shift + 7) (r + n % 128 * 2 ^ shift) (leb_bytes k (n / 128) ++ rest)
unfolding leb_loop leb_bytes
leb_more k shift r n rest fits h =
    let e : ltb n 128 ≡ false = ground arith in
    let last : ltb (128 + n % 128) 128 ≡ false = ground arith in
    let whole : (128 + n % 128) % 128 ≡ n % 128 = omega arith in
    rw (e, last, whole, low_fits n (2 ^ shift) fits) refl

-- A number that is shifted by `shift` and fits 32 bits is read back, whatever bits are read already.
leb_loop-leb_bytes :
    (k shift r n : ℕ) (rest : List ℕ)
    → n * 2 ^ shift < 2 ^ 32
    → n < 128 ^ suc k
    → leb_loop (suc k) shift r (leb_bytes (suc k) n ++ rest) ≡ some (r + n * 2 ^ shift, rest)
leb_loop-leb_bytes zero shift r n rest fits h = leb_last 0 shift r n rest fits (omega arith)
leb_loop-leb_bytes (suc k) shift r n rest fits h = elim (Bool-cases (ltb n 128)) [
  | inl e ↦ leb_last (suc k) shift r n rest fits (ground arith)
  | inr e ↦
      let w = 2 ^ shift in
      let next : n / 128 * 2 ^ (shift + 7) ≡ n / 128 * (w * 128) =
        ap (λ k. n / 128 * k) (pow_shift shift) in
      let room : n < 128 ^ suc k * 128 = subst (λ (m : ℕ). n < m) (pow.suc 128 (suc k)) h in
      leb_more (suc k) shift r n rest fits (ground arith)
      ∙ leb_loop-leb_bytes k (shift + 7) (r + n % 128 * w) (n / 128) rest
          (omega (arith, high_fits n w fits)) (omega arith)
      ∙ ap (λ m. some (m, rest)) (ap (λ m. r + n % 128 * w + m) next ∙ sum_split r n w)
]

-- Every uint32_t is read back from the bytes that encode it, whatever is behind them.
pub leb_read_back :
    (n : ℕ) (rest : List ℕ) → n < 2 ^ 32 → read_u32_leb (leb n ++ rest) ≡ some (n, rest)
unfolding read_u32_leb leb
leb_read_back n rest h =
    leb_loop-leb_bytes 4 0 0 n rest (omega arith) (omega arith)
    ∙ ap (λ m. some (m, rest)) (omega arith)
