-- ===== src/Base/Rings.antt =====
-- An array read round its end: the contents of the firmware's ring buffers, oldest entry first.
use Prim.Native.Nat.{ℕ, zero, suc, ◌+◌, ◌-◌, ◌%◌, ◌≤◌, ◌<◌}
use mathlib.Core.Path.{◌≡◌, refl, ◌∙◌, ap, ap₂}
use mathlib.Core.Logic.{◌≢◌}
use mathlib.Core.List.{List, [], ◌∷◌, ◌++◌}
use native.Mathlib.Nat.{mod-add-mod, mod-eq_of_lt, mod-eq-sub-mod, add-zero}
use native.Mathlib.Decide.{dec_lt}
use native.Mathlib.Omega.{arith}
use pulse_esp32_host.Base.Lists.{length, get_or, set, get_or-set_self, get_or-set_ne}

module _ {ℓ} {A : Type ℓ} (blank : A) (cap : ℕ) where
  -- The `n` entries from `start` on.
  abbrev pub ring : List A → ℕ → ℕ → List A
  ring buf start zero = []
  ring buf start (suc n) = get_or buf start blank ∷ ring buf ((start + 1) % cap) n

  pub length-ring : (buf : List A) (start n : ℕ) → length (ring buf start n) ≡ n
  length-ring buf start zero = refl
  length-ring buf start (suc n) = ap suc (length-ring buf ((start + 1) % cap) n)

  -- The code tests a count against 0 where `ring` matches on it.
  pub ring-pos :
      (buf : List A) (start n : ℕ)
      → n ≢ 0
      → ring buf start n ≡ get_or buf start blank ∷ ring buf ((start + 1) % cap) (n - 1)
  ring-pos buf start zero h = absurd (h refl)
  ring-pos buf start (suc n) h = ap (λ k. ring buf start (suc k)) (omega arith)

  moved-ne : (start k : ℕ) → start < cap → suc k < cap → (start + suc k) % cap ≢ start
  moved-ne start k hs hk = elim (dec_lt (start + suc k) cap) [
    | yes p ↦ omega (arith, mod-eq_of_lt p)
    | no p ↦ omega (
      arith,
      mod-eq-sub-mod {n = start + suc k} {m = cap} (omega arith),
      mod-eq_of_lt {n = start + suc k - cap} {m = cap} (omega arith),
    )
  ]

  -- A write at the first free place adds one entry at the end.
  pub ring-set_end :
      (buf : List A) (a : A) (n start i : ℕ)
      → cap ≤ length buf
      → start < cap
      → n < cap
      → i ≡ (start + n) % cap
      → ring (set buf i a) start (suc n) ≡ ring buf start n ++ (a ∷ [])
  ring-set_end buf a zero start i room hs hn at =
      rw (at, add-zero, mod-eq_of_lt hs, get_or-set_self buf start a blank (omega arith))
  ring-set_end buf a (suc n) start i room hs hn at =
      ap₂ ◌∷◌ (get_or-set_ne buf i start a blank (rw at (moved-ne start n hs hn)))
        (ring-set_end buf a n ((start + 1) % cap) i room (omega arith) (omega arith) (at ∙ round))
    where
      round : (start + suc n) % cap ≡ ((start + 1) % cap + n) % cap
      round = rw mod-add-mod (ap (λ k. k % cap) (omega arith))

  -- A write in a full ring at its oldest entry, and a step on, replaces that entry at the other end.
  pub ring-set_full :
      (buf : List A) (a : A) (n start : ℕ)
      → cap ≤ length buf
      → start < cap
      → suc n ≡ cap
      → ring (set buf start a) ((start + 1) % cap) (suc n)
        ≡ ring buf ((start + 1) % cap) n ++ (a ∷ [])
  ring-set_full buf a n start room hs full =
      ring-set_end buf a n ((start + 1) % cap) start room (omega arith) (omega arith) back
    where
      back : start ≡ ((start + 1) % cap + n) % cap
      back = rw mod-add-mod (
          omega (
            arith,
            mod-eq-sub-mod {n = start + 1 + n} {m = cap} (omega arith),
            mod-eq_of_lt {n = start + 1 + n - cap} {m = cap} (omega arith),
          ))

  -- The entry at an index, with the wrap of the index.
  pub get_or-ring :
      (buf : List A) (n start i : ℕ)
      → start < cap
      → i < n
      → get_or (ring buf start n) i blank ≡ get_or buf ((start + i) % cap) blank
  get_or-ring buf zero start i hs hi = absurd (omega arith)
  get_or-ring buf (suc n) start zero hs hi = rw (add-zero, mod-eq_of_lt hs) refl
  get_or-ring buf (suc n) start (suc i) hs hi =
      get_or-ring buf n ((start + 1) % cap) i (omega arith) (omega arith)
      ∙ ap (λ k. get_or buf k blank) round
    where
      round : ((start + 1) % cap + i) % cap ≡ (start + suc i) % cap
      round = rw mod-add-mod (ap (λ k. k % cap) (omega arith))
