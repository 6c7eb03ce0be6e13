-- ===== src/Bundle/Sha256.antt =====
-- SHA-256 and HMAC of wdc_bundle.c, with its streaming context. A byte is a number below 256.
pub mod Padding
pub mod Whole
pub mod Nested
use Prim.Native.Nat.{bit_and, bit_or, bit_xor}
use pulse_esp32_host.Base.{
  u64, u32, ℕ, zero, suc, ◌+◌, ◌-◌, ◌*◌, ◌/◌, ◌%◌, ◌^◌, List, [], ◌∷◌, ◌++◌, Option, none, some,
  map, ltb, ◌==◌, if◌then◌else◌, length, get_or, set, take, replicate,
}

-- ctx->state, in the order of its eight words
pub record Words : Type 0 where
  pub a : ℕ
  pub b : ℕ
  pub c : ℕ
  pub d : ℕ
  pub e : ℕ
  pub f : ℕ
  pub g : ℕ
  pub h : ℕ

-- `buffer` is ctx->data.
pub record Sha256Ctx : Type 0 where
  pub buffer : List ℕ
  pub datalen : ℕ
  pub bitlen : ℕ
  pub state : Words

-- s_k
abbrev pub round_constants : List ℕ
round_constants =
    0x428a2f98 ∷ 0x71374491 ∷ 0xb5c0fbcf ∷ 0xe9b5dba5 ∷ 0x3956c25b ∷ 0x59f111f1 ∷ 0x923f82a4
    ∷ 0xab1c5ed5 ∷ 0xd807aa98 ∷ 0x12835b01 ∷ 0x243185be ∷ 0x550c7dc3 ∷ 0x72be5d74 ∷ 0x80deb1fe
    ∷ 0x9bdc06a7 ∷ 0xc19bf174 ∷ 0xe49b69c1 ∷ 0xefbe4786 ∷ 0x0fc19dc6 ∷ 0x240ca1cc ∷ 0x2de92c6f
    ∷ 0x4a7484aa ∷ 0x5cb0a9dc ∷ 0x76f988da ∷ 0x983e5152 ∷ 0xa831c66d ∷ 0xb00327c8 ∷ 0xbf597fc7
    ∷ 0xc6e00bf3 ∷ 0xd5a79147 ∷ 0x06ca6351 ∷ 0x14292967 ∷ 0x27b70a85 ∷ 0x2e1b2138 ∷ 0x4d2c6dfc
    ∷ 0x53380d13 ∷ 0x650a7354 ∷ 0x766a0abb ∷ 0x81c2c92e ∷ 0x92722c85 ∷ 0xa2bfe8a1 ∷ 0xa81a664b
    ∷ 0xc24b8b70 ∷ 0xc76c51a3 ∷ 0xd192e819 ∷ 0xd6990624 ∷ 0xf40e3585 ∷ 0x106aa070 ∷ 0x19a4c116
    ∷ 0x1e376c08 ∷ 0x2748774c ∷ 0x34b0bcb5 ∷ 0x391c0cb3 ∷ 0x4ed8aa4a ∷ 0x5b9cca4f ∷ 0x682e6ff3
    ∷ 0x748f82ee ∷ 0x78a5636f ∷ 0x84c87814 ∷ 0x8cc70208 ∷ 0x90befffa ∷ 0xa4506ceb ∷ 0xbef9a3f7
    ∷ 0xc67178f2 ∷ []

unfoldable pub rotr : ℕ → ℕ → ℕ
rotr a b = bit_or (a / 2 ^ b) (u32 (a * 2 ^ (32 - b)))

-- The first loop of the transform: big-endian words, while four bytes are left.
block_words : List ℕ → List ℕ
block_words (p ∷ q ∷ r ∷ s ∷ bytes) =
    bit_or (p * 2 ^ 24) (bit_or (q * 2 ^ 16) (bit_or (r * 2 ^ 8) s)) ∷ block_words bytes
block_words _ = []

-- m[i] of the second loop, where `m` holds the words before it
next_word : List ℕ → ℕ
unfolding rotr
next_word m =
    let i = length m in
    let x = get_or m (i - 15) 0 in
    let y = get_or m (i - 2) 0 in
    let s0 = bit_xor (bit_xor (rotr x 7) (rotr x 18)) (x / 2 ^ 3) in
    let s1 = bit_xor (bit_xor (rotr y 17) (rotr y 19)) (y / 2 ^ 10) in
    u32 (get_or m (i - 16) 0 + s0 + get_or m (i - 7) 0 + s1)

expand : ℕ → List ℕ → List ℕ
unfolding next_word
expand zero m = m
expand (suc n) m = expand n (m ++ (next_word m ∷ []))

-- One round of the third loop; `~e` is the exclusive or with all ones.
round : ℕ → ℕ → Words → Words
unfolding rotr
round k m w =
    let s1 = bit_xor (bit_xor (rotr w.e 6) (rotr w.e 11)) (rotr w.e 25) in
    let ch = bit_xor (bit_and w.e w.f) (bit_and (bit_xor w.e 0xffff_ffff) w.g) in
    let temp1 = u32 (w.h + s1 + ch + k + m) in
    let s0 = bit_xor (bit_xor (rotr w.a 2) (rotr w.a 13)) (rotr w.a 22) in
    let maj = bit_xor (bit_xor (bit_and w.a w.b) (bit_and w.a w.c)) (bit_and w.b w.c) in
    let temp2 = u32 (s0 + maj) in
    record {
      a = u32 (temp1 + temp2);
      b = w.a;
      c = w.b;
      d = w.c;
      e = u32 (w.d + temp1);
      f = w.e;
      g = w.f;
      h = w.g;
    }

rounds : List ℕ → List ℕ → Words → Words
unfolding round
rounds (k ∷ ks) (m ∷ ms) w = rounds ks ms (round k m w)
rounds _ _ w = w

-- sha256_transform, on the state and a block of 64 bytes
unfoldable pub compress : Words → List ℕ → Words
unfolding block_words expand rounds
compress s block =
    let w = rounds round_constants (expand 48 (block_words block)) s in
    record {
      a = u32 (s.a + w.a);
      b = u32 (s.b + w.b);
      c = u32 (s.c + w.c);
      d = u32 (s.d + w.d);
      e = u32 (s.e + w.e);
      f = u32 (s.f + w.f);
      g = u32 (s.g + w.g);
      h = u32 (s.h + w.h);
    }

abbrev pub initial_words : Words
initial_words = record {
  a = 0x6a09e667;
  b = 0xbb67ae85;
  c = 0x3c6ef372;
  d = 0xa54ff53a;
  e = 0x510e527f;
  f = 0x9b05688c;
  g = 0x1f83d9ab;
  h = 0x5be0cd19;
}

unfoldable pub sha256_init : Sha256Ctx
sha256_init = record { buffer = replicate 64 0; datalen = 0; bitlen = 0; state = initial_words }

-- The body of the loop of sha256_update.
unfoldable pub update_byte : Sha256Ctx → ℕ → Sha256Ctx
update_byte ctx x =
    let buffer = set ctx.buffer ctx.datalen x in
    if ctx.datalen + 1 == 64
    then record {
      buffer = buffer;
      datalen = 0;
      bitlen = u64 (ctx.bitlen + 512);
      state = compress ctx.state buffer;
    }
    else record ctx { buffer = buffer; datalen = ctx.datalen + 1 }

-- A NULL pointer or a length of 0 is the empty list.
unfoldable pub sha256_update : Sha256Ctx → List ℕ → Sha256Ctx
unfolding update_byte compress
sha256_update ctx [] = ctx
sha256_update ctx (x ∷ xs) = sha256_update (update_byte ctx x) xs

-- Writes of consecutive bytes from an index on.
unfoldable pub put_bytes : List ℕ → ℕ → List ℕ → List ℕ
put_bytes buffer i [] = buffer
put_bytes buffer i (x ∷ xs) = put_bytes (set buffer i x) (i + 1) xs

-- The eight bytes of a uint64_t, the highest first.
abbrev pub big_endian_8 : ℕ → List ℕ
big_endian_8 n =
    n / 2 ^ 56 % 256
    ∷ n / 2 ^ 48 % 256
    ∷ n / 2 ^ 40 % 256
    ∷ n / 2 ^ 32 % 256
    ∷ n / 2 ^ 24 % 256
    ∷ n / 2 ^ 16 % 256
    ∷ n / 2 ^ 8 % 256
    ∷ n % 256
    ∷ []

abbrev pub big_endian_4 : ℕ → List ℕ
big_endian_4 n = n / 2 ^ 24 % 256 ∷ n / 2 ^ 16 % 256 ∷ n / 2 ^ 8 % 256 ∷ n % 256 ∷ []

-- The bytes of the hash, four for each word.
abbrev pub digest : Words → List ℕ
digest w =
    big_endian_4 w.a
    ++ (big_endian_4 w.b
        ++ (big_endian_4 w.c
            ++ (big_endian_4 w.d
                ++ (big_endian_4 w.e
                    ++ (big_endian_4 w.f ++ (big_endian_4 w.g ++ big_endian_4 w.h))))))

-- The byte 0x80 and zeros up to `size`.
abbrev pub fill : Sha256Ctx → ℕ → List ℕ
fill ctx size = put_bytes ctx.buffer ctx.datalen (0x80 ∷ replicate (size - 1 - ctx.datalen) 0)

-- The buffer and the state before the length is written.
unfoldable pub padded_buffer : Sha256Ctx → List ℕ × Words
unfolding put_bytes compress
padded_buffer ctx =
    if ltb ctx.datalen 56
    then (fill ctx 56, ctx.state)
    else (put_bytes (fill ctx 64) 0 (replicate 56 0), compress ctx.state (fill ctx 64))

unfoldable pub sha256_final : Sha256Ctx → List ℕ
unfolding padded_buffer put_bytes compress
sha256_final ctx =
    let (buffer, state) = padded_buffer ctx in
    let bitlen = u64 (ctx.bitlen + ctx.datalen * 8) in
    digest (compress state (put_bytes buffer 56 (big_endian_8 bitlen)))

-- wdc_sha256
unfoldable pub sha256 : List ℕ → List ℕ
unfolding sha256_init sha256_update sha256_final
sha256 bytes = sha256_final (sha256_update sha256_init bytes)

-- A key longer than a block is hashed; zeros fill the block. `none` is a NULL key.
unfoldable pub key_block : Option (List ℕ) → List ℕ
unfolding sha256 put_bytes
key_block none = replicate 64 0
key_block (some key) =
    put_bytes (replicate 64 0) 0 (if ltb 64 (length key) then sha256 key else key)

-- wdc_hmac_sha256
unfoldable pub hmac_sha256 : Option (List ℕ) → List ℕ → List ℕ → List ℕ → List ℕ
unfolding key_block sha256_init sha256_update sha256_final
hmac_sha256 key part0 part1 part2 =
    let ipad = map (λ x. bit_xor x 0x36) (key_block key) in
    let opad = map (λ x. bit_xor x 0x5c) (key_block key) in
    let inner = sha256_final (
      sha256_update (sha256_update (sha256_update (sha256_update sha256_init ipad) part0) part1)
        part2) in
    sha256_final (sha256_update (sha256_update sha256_init opad) inner)
