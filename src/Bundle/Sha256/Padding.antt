-- ===== src/Bundle/Sha256/Padding.antt =====
-- The streaming context against the description of SHA-256 by padded blocks.
use mathlib.Core.List.{append-nil, append_assoc}
use pulse_esp32_host.Base.{
  u64, ℕ, zero, suc, ◌+◌, ◌-◌, ◌*◌, ◌%◌, ◌≤◌, ◌<◌, ◌≡◌, refl, sym, ap, subst, ◌∙◌, Bool-cases, inl,
  inr, List, [], ◌∷◌, ◌++◌, ◌==◌, length, length-append, length-set, set, take, replicate, All,
  All-append, arith,
}
use pulse_esp32_host.Bundle.Sha256.{
  Words, Sha256Ctx, compress, initial_words, sha256_init, update_byte, sha256_update, put_bytes,
  big_endian_8,
}

-- The state after blocks of 64 bytes.
abbrev pub compress_all : Words → List (List ℕ) → Words
compress_all s [] = s
compress_all s (b ∷ bs) = compress_all (compress s b) bs

abbrev pub join : List (List ℕ) → List ℕ
join [] = []
join (b ∷ bs) = b ++ join bs

abbrev pub IsBlock : List ℕ → Type 0
IsBlock b = length b ≡ 64

-- The message, a bit, zeros and the length in bits: a multiple of 64 bytes.
abbrev pub padded : List ℕ → List ℕ
padded xs =
    xs ++ (0x80 ∷ (replicate ((119 - length xs % 64) % 64) 0 ++ big_endian_8 (u64 (length xs * 8))))

pub compress_all-append :
    (s : Words) (bs : List (List ℕ)) (b : List ℕ)
    → compress_all s (bs ++ b ∷ []) ≡ compress (compress_all s bs) b
compress_all-append s [] b = refl
compress_all-append s (c ∷ bs) b = compress_all-append (compress s c) bs b

pub join-append : (bs : List (List ℕ)) (b : List ℕ) → join (bs ++ b ∷ []) ≡ join bs ++ b
join-append [] b = append-nil b
join-append (c ∷ bs) b = ap (◌++◌ c) (join-append bs b) ∙ sym (append_assoc c (join bs) b)

pub length-join : (bs : List (List ℕ)) → All IsBlock bs → length (join bs) ≡ 64 * length bs
length-join [] h = omega arith
length-join (b ∷ bs) (e, h) = omega (arith, e, length-append b (join bs), length-join bs h)

take-set : (xs : List ℕ) (i x : ℕ) → i < length xs → take (i + 1) (set xs i x) ≡ take i xs ++ x ∷ []
take-set [] i x h = absurd (omega arith)
take-set (y ∷ ys) zero x h = refl
take-set (y ∷ ys) (suc i) x h = ground (arith, take-set ys i x (omega arith))

pub take_all : (xs : List ℕ) (n : ℕ) → length xs ≡ n → take n xs ≡ xs
take_all [] zero h = refl
take_all [] (suc n) h = refl
take_all (x ∷ xs) zero h = absurd (omega arith)
take_all (x ∷ xs) (suc n) h = ap (◌∷◌ x) (take_all xs n (omega arith))

pub length-put_bytes :
    (buffer : List ℕ) (i : ℕ) (xs : List ℕ) → length (put_bytes buffer i xs) ≡ length buffer
unfolding put_bytes
length-put_bytes buffer i [] = refl
length-put_bytes buffer i (x ∷ xs) =
    length-put_bytes (set buffer i x) (i + 1) xs ∙ length-set buffer i x

-- What a run of writes leaves before and in its range.
pub take-put_bytes :
    (buffer : List ℕ) (i n : ℕ) (xs : List ℕ)
    → i + length xs ≡ n
    → n ≤ length buffer
    → take n (put_bytes buffer i xs) ≡ take i buffer ++ xs
unfolding put_bytes
take-put_bytes buffer i n [] e h =
    let e' : n ≡ i = omega arith in ap (λ k. take k buffer) e' ∙ sym (append-nil (take i buffer))
take-put_bytes buffer i n (x ∷ xs) e h =
    take-put_bytes (set buffer i x) (i + 1) n xs (omega arith)
      (omega (arith, length-set buffer i x))
    ∙ ap (λ k. k ++ xs) (take-set buffer i x (omega arith))
    ∙ append_assoc (take i buffer) (x ∷ []) xs

-- The context holds `xs`: whole blocks in its state, the rest in its buffer.
pub record IsAbsorbed (xs : List ℕ) (ctx : Sha256Ctx) : Type 0 where
  pub blocks : List (List ℕ)
  pub whole : All IsBlock blocks
  pub joined : join blocks ++ take ctx.datalen ctx.buffer ≡ xs
  pub absorbed : ctx.state ≡ compress_all initial_words blocks
  pub bits : ctx.bitlen ≡ u64 (512 * length blocks)
  pub room : ctx.datalen < 64
  pub size : length ctx.buffer ≡ 64

pub init-IsAbsorbed : IsAbsorbed [] sha256_init
unfolding sha256_init
init-IsAbsorbed = record {
  blocks = [];
  whole = tt;
  joined = refl;
  absorbed = refl;
  bits = refl;
  room = omega arith;
  size = refl;
}

-- The buffer with one byte more.
longer :
    (xs : List ℕ) (ctx : Sha256Ctx) (x : ℕ) (v : IsAbsorbed xs ctx)
    → join v.blocks ++ take (ctx.datalen + 1) (set ctx.buffer ctx.datalen x) ≡ xs ++ x ∷ []
longer xs ctx x v =
    ap (◌++◌ (join v.blocks)) (take-set ctx.buffer ctx.datalen x (omega (arith, v.room, v.size)))
    ∙ sym (append_assoc (join v.blocks) (take ctx.datalen ctx.buffer) (x ∷ []))
    ∙ ap (λ k. k ++ x ∷ []) v.joined

update_byte-IsAbsorbed :
    (xs : List ℕ) (ctx : Sha256Ctx) (x : ℕ)
    → IsAbsorbed xs ctx
    → IsAbsorbed (xs ++ x ∷ []) (update_byte ctx x)
unfolding update_byte
update_byte-IsAbsorbed xs ctx x v =
    let buffer = set ctx.buffer ctx.datalen x in
    let size : length buffer ≡ 64 = length-set ctx.buffer ctx.datalen x ∙ v.size in
    elim (Bool-cases (ctx.datalen + 1 == 64)) [
      | inl e ↦
          let full : ctx.datalen + 1 ≡ 64 = ground arith in
          rw e (record {
            blocks = v.blocks ++ buffer ∷ [];
            whole = All-append IsBlock v.blocks (buffer ∷ []) v.whole (size, tt);
            joined =
                append-nil (join (v.blocks ++ buffer ∷ []))
                ∙ join-append v.blocks buffer
                ∙ ap (◌++◌ (join v.blocks))
                    (sym (take_all buffer 64 size) ∙ ap (λ k. take k buffer) (sym full))
                ∙ longer xs ctx x v;
            absorbed =
                ap (λ (s : Words). compress s buffer) v.absorbed
                ∙ sym (compress_all-append initial_words v.blocks buffer);
            bits = omega (arith, v.bits, length-append v.blocks (buffer ∷ []));
            room = omega arith;
            size = size;
          })
      | inr e ↦ rw e (record {
        blocks = v.blocks;
        whole = v.whole;
        joined = longer xs ctx x v;
        absorbed = v.absorbed;
        bits = v.bits;
        room = ground (arith, v.room);
        size = size;
      })
    ]

pub update-IsAbsorbed :
    (xs : List ℕ) (ctx : Sha256Ctx) (ys : List ℕ)
    → IsAbsorbed xs ctx
    → IsAbsorbed (xs ++ ys) (sha256_update ctx ys)
unfolding sha256_update
update-IsAbsorbed xs ctx [] v = subst (λ (k : List ℕ). IsAbsorbed k ctx) (sym (append-nil xs)) v
update-IsAbsorbed xs ctx (y ∷ ys) v =
    subst (λ (k : List ℕ). IsAbsorbed k (sha256_update (update_byte ctx y) ys))
      (append_assoc xs (y ∷ []) ys)
      (update-IsAbsorbed (xs ++ y ∷ []) (update_byte ctx y) ys (update_byte-IsAbsorbed xs ctx y v))
