-- ===== src/Bundle/Sha256/Whole.antt =====
-- The whole hash: the last one or two blocks that sha256_final makes.
use mathlib.Core.List.{append_assoc}
use pulse_esp32_host.Base.{
  u64, ℕ, zero, suc, ◌+◌, ◌-◌, ◌*◌, ◌%◌, ◌≤◌, ◌<◌, ◌≡◌, refl, sym, ap, ap₂, ◌∙◌, true, false,
  Bool-cases, inl, inr, List, [], ◌∷◌, ◌++◌, ltb, length, length-append, length-replicate,
  length-take, take, replicate, All, All-append, arith,
}
use pulse_esp32_host.Bundle.Sha256.{
  Words, Sha256Ctx, compress, initial_words, sha256_init, sha256_update, put_bytes, big_endian_8,
  digest, fill, padded_buffer, sha256_final, sha256,
}
use pulse_esp32_host.Bundle.Sha256.Padding.{
  compress_all, join, IsBlock, padded, compress_all-append, join-append, length-join, take_all,
  length-put_bytes, take-put_bytes, IsAbsorbed, init-IsAbsorbed, update-IsAbsorbed,
}

-- What a hash of `xs` from its padded blocks is.
pub record IsHash (xs : List ℕ) (hash : List ℕ) : Type 0 where
  pub blocks : List (List ℕ)
  pub whole : All IsBlock blocks
  pub joined : join blocks ≡ padded xs
  pub hashed : hash ≡ digest (compress_all initial_words blocks)

replicate-append : (n m x : ℕ) → replicate n x ++ replicate m x ≡ replicate (n + m) x
replicate-append zero m x = let e : m ≡ 0 + m = omega arith in ap (λ k. replicate k x) e
replicate-append (suc n) m x =
    let e : suc (n + m) ≡ suc n + m = omega arith in
    ap (◌∷◌ x) (replicate-append n m x) ∙ ap (λ k. replicate k x) e

-- A buffer whose first `i` bytes are `xs`, with the eight bytes of the length after them.
put_length :
    (buffer xs : List ℕ) (bitlen : ℕ)
    → length buffer ≡ 64
    → take 56 buffer ≡ xs
    → put_bytes buffer 56 (big_endian_8 bitlen) ≡ xs ++ big_endian_8 bitlen
put_length buffer xs bitlen size e =
    let all = put_bytes buffer 56 (big_endian_8 bitlen) in
    sym (take_all all 64 (length-put_bytes buffer 56 (big_endian_8 bitlen) ∙ size))
    ∙ take-put_bytes buffer 56 64 (big_endian_8 bitlen) (omega arith) (omega (arith, size))
    ∙ ap (λ k. k ++ big_endian_8 bitlen) e

module _ (xs : List ℕ) (ctx : Sha256Ctx) (v : IsAbsorbed xs ctx) where
  length_xs : length xs ≡ 64 * length v.blocks + ctx.datalen
  length_xs = omega (
    arith,
    ap length v.joined,
    length-append (join v.blocks) (take ctx.datalen ctx.buffer),
    length-join v.blocks v.whole,
    buffered,
  )
    where
      buffered : length (take ctx.datalen ctx.buffer) ≡ ctx.datalen
      buffered = length-take ctx.datalen ctx.buffer (omega (arith, v.room, v.size))

  bits_xs : u64 (ctx.bitlen + ctx.datalen * 8) ≡ u64 (length xs * 8)
  bits_xs = omega (arith, v.bits, length_xs)

  filled :
      (size : ℕ)
      → ctx.datalen < size
      → size ≤ 64
      → take size (fill ctx size)
        ≡ take ctx.datalen ctx.buffer ++ 0x80 ∷ replicate (size - 1 - ctx.datalen) 0
  filled size h top =
      take-put_bytes ctx.buffer ctx.datalen size (0x80 ∷ replicate (size - 1 - ctx.datalen) 0)
        (omega (arith, length-replicate {A = ℕ} (size - 1 - ctx.datalen) 0)) (omega (arith, v.size))

  length-fill : (size : ℕ) → length (fill ctx size) ≡ 64
  length-fill size =
      length-put_bytes ctx.buffer ctx.datalen (0x80 ∷ replicate (size - 1 - ctx.datalen) 0) ∙ v.size

  abbrev bitlen : ℕ
  bitlen = u64 (ctx.bitlen + ctx.datalen * 8)

  abbrev zeros : ℕ
  zeros = (119 - length xs % 64) % 64

  -- The padding fits behind the bytes of the buffer.
  one_block :
      ltb ctx.datalen 56 ≡ true
      → IsHash xs (digest (compress ctx.state (put_bytes (fill ctx 56) 56 (big_endian_8 bitlen))))
  one_block h =
      let short : ctx.datalen < 56 = ground arith in
      let rest = take ctx.datalen ctx.buffer in
      let pad : List ℕ = 0x80 ∷ replicate (55 - ctx.datalen) 0 in
      let last = put_bytes (fill ctx 56) 56 (big_endian_8 bitlen) in
      let same : last ≡ (rest ++ pad) ++ big_endian_8 bitlen =
        put_length (fill ctx 56) (rest ++ pad) bitlen (length-fill 56)
          (filled 56 short (omega arith)) in
      let size : length last ≡ 64 =
        length-put_bytes (fill ctx 56) 56 (big_endian_8 bitlen) ∙ length-fill 56 in
      let count : 55 - ctx.datalen ≡ zeros = omega (arith, length_xs) in
      record {
        blocks = v.blocks ++ last ∷ [];
        whole = All-append IsBlock v.blocks (last ∷ []) v.whole (size, tt);
        joined =
            join-append v.blocks last
            ∙ ap (◌++◌ (join v.blocks)) (same ∙ append_assoc rest pad (big_endian_8 bitlen))
            ∙ sym (append_assoc (join v.blocks) rest (pad ++ big_endian_8 bitlen))
            ∙ ap (λ k. k ++ (pad ++ big_endian_8 bitlen)) v.joined
            ∙ ap₂ (λ k n. xs ++ (0x80 ∷ (replicate k 0 ++ big_endian_8 n))) count bits_xs;
        hashed = ap digest (
            ap (λ (s : Words). compress s last) v.absorbed
            ∙ sym (compress_all-append initial_words v.blocks last));
      }

  -- The padding takes a block of its own.
  two_blocks :
      ltb ctx.datalen 56 ≡ false
      → IsHash xs (
          digest (
            compress
              (compress ctx.state (fill ctx 64))
              (put_bytes (put_bytes (fill ctx 64) 0 (replicate 56 0)) 56 (big_endian_8 bitlen))))
  two_blocks h =
      let long : 56 ≤ ctx.datalen = ground arith in
      let rest = take ctx.datalen ctx.buffer in
      let pad : List ℕ = 0x80 ∷ replicate (63 - ctx.datalen) 0 in
      let blank = put_bytes (fill ctx 64) 0 (replicate 56 0) in
      let last = put_bytes blank 56 (big_endian_8 bitlen) in
      let first_same : fill ctx 64 ≡ rest ++ pad =
        sym (take_all (fill ctx 64) 64 (length-fill 64)) ∙ filled 64 v.room (omega arith) in
      let blank_size : length blank ≡ 64 =
        length-put_bytes (fill ctx 64) 0 (replicate 56 0) ∙ length-fill 64 in
      let same : last ≡ replicate 56 0 ++ big_endian_8 bitlen =
        put_length blank (replicate 56 0) bitlen blank_size (
          take-put_bytes (fill ctx 64) 0 56 (replicate 56 0) refl
            (omega (arith, length-fill 64))) in
      let size : length last ≡ 64 = length-put_bytes blank 56 (big_endian_8 bitlen) ∙ blank_size in
      let count : (63 - ctx.datalen) + 56 ≡ zeros = omega (arith, length_xs, v.room) in
      let tail = replicate 56 0 ++ big_endian_8 bitlen in
      record {
        blocks = (v.blocks ++ fill ctx 64 ∷ []) ++ last ∷ [];
        whole =
            All-append IsBlock (v.blocks ++ fill ctx 64 ∷ []) (last ∷ [])
              (All-append IsBlock v.blocks (fill ctx 64 ∷ []) v.whole (length-fill 64, tt))
              (size, tt);
        joined =
            join-append (v.blocks ++ fill ctx 64 ∷ []) last
            ∙ ap₂ ◌++◌ (join-append v.blocks (fill ctx 64) ∙ ap (◌++◌ (join v.blocks)) first_same)
                same
            ∙ ap (λ k. k ++ tail)
                (sym (append_assoc (join v.blocks) rest pad) ∙ ap (λ k. k ++ pad) v.joined)
            ∙ append_assoc xs pad tail
            ∙ ap (λ k. xs ++ (0x80 ∷ k))
                (sym (
                    append_assoc (replicate (63 - ctx.datalen) 0) (replicate 56 0)
                      (big_endian_8 bitlen))
                  ∙ ap (λ k. k ++ big_endian_8 bitlen) (replicate-append (63 - ctx.datalen) 56 0))
            ∙ ap₂ (λ k n. xs ++ (0x80 ∷ (replicate k 0 ++ big_endian_8 n))) count bits_xs;
        hashed = ap digest (
            ap (λ (s : Words). compress (compress s (fill ctx 64)) last) v.absorbed
            ∙ ap (λ (s : Words). compress s last)
                (sym (compress_all-append initial_words v.blocks (fill ctx 64)))
            ∙ sym (compress_all-append initial_words (v.blocks ++ fill ctx 64 ∷ []) last));
      }

  pub final-IsHash : IsHash xs (sha256_final ctx)
  unfolding sha256_final padded_buffer
  final-IsHash = elim (Bool-cases (ltb ctx.datalen 56)) [
    | inl e ↦ rw e (one_block e)
    | inr e ↦ rw e (two_blocks e)
  ]

-- The hash of any message is the SHA-256 of its description: the message with a bit, zeros and its
-- length in bits behind it, cut into blocks of 64 bytes that are compressed in order.
pub sha256-IsHash : (xs : List ℕ) → IsHash xs (sha256 xs)
unfolding sha256
sha256-IsHash xs =
    final-IsHash xs (sha256_update sha256_init xs)
      (update-IsAbsorbed [] sha256_init xs init-IsAbsorbed)
