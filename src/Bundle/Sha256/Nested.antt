-- ===== src/Bundle/Sha256/Nested.antt =====
-- HMAC against its description by two hashes.
use Prim.Native.Nat.{bit_xor}
use mathlib.Core.List.{append_assoc}
use pulse_esp32_host.Base.{ℕ, ◌≡◌, refl, ap, ◌∙◌, List, [], ◌∷◌, ◌++◌, Option, map}
use pulse_esp32_host.Bundle.Sha256.{
  Sha256Ctx, sha256_init, update_byte, sha256_update, sha256_final, sha256, key_block, hmac_sha256,
}

-- Two updates are one of both parts.
pub update-append :
    (ctx : Sha256Ctx) (xs ys : List ℕ)
    → sha256_update (sha256_update ctx xs) ys ≡ sha256_update ctx (xs ++ ys)
unfolding sha256_update
update-append ctx [] ys = refl
update-append ctx (x ∷ xs) ys = update-append (update_byte ctx x) xs ys

-- The HMAC of three parts is the hash of the outer key block and the hash of the inner key block
-- and the parts in order, for every key.
pub hmac-sha256 :
    (key : Option (List ℕ)) (part0 part1 part2 : List ℕ)
    → hmac_sha256 key part0 part1 part2
      ≡ sha256 (
          map (λ x. bit_xor x 0x5c) (key_block key)
          ++ sha256 (map (λ x. bit_xor x 0x36) (key_block key) ++ (part0 ++ (part1 ++ part2))))
unfolding hmac_sha256 sha256
hmac-sha256 key part0 part1 part2 =
    let ipad = map (λ x. bit_xor x 0x36) (key_block key) in
    let opad = map (λ x. bit_xor x 0x5c) (key_block key) in
    let inner : sha256_update
          (sha256_update (sha256_update (sha256_update sha256_init ipad) part0) part1) part2
        ≡ sha256_update sha256_init (ipad ++ (part0 ++ (part1 ++ part2))) =
      ap (λ (c : Sha256Ctx). sha256_update (sha256_update c part1) part2)
        (update-append sha256_init ipad part0)
      ∙ ap (λ (c : Sha256Ctx). sha256_update c part2)
          (update-append sha256_init (ipad ++ part0) part1)
      ∙ update-append sha256_init ((ipad ++ part0) ++ part1) part2
      ∙ ap (sha256_update sha256_init)
          (append_assoc (ipad ++ part0) part1 part2 ∙ append_assoc ipad part0 (part1 ++ part2)) in
    ap
      (λ (c : Sha256Ctx).
        sha256_final (sha256_update (sha256_update sha256_init opad) (sha256_final c)))
      inner
    ∙ ap sha256_final (update-append sha256_init opad _)
