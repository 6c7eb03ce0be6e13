-- ===== src/Base/Outcome.antt =====
-- WdcStatus of components/wdc_abi/include/wdc_abi.h, and results that carry a value beside it.
use mathlib.Core.Path.{◌≡◌, refl, ap}
use mathlib.Core.Bool.{Bool, true, false}
use mathlib.Core.Logic.{◌⊎◌, inl, inr}
use native.Mathlib.Omega.{arith}

-- The codes below zero, in the order of the enum, from WDC_ERR_UNKNOWN = -1.
-- `unterminated` is no C value: a recursion on fuel answers it where the fuel runs out.
pub data Error : Type 0 where
  unknown unsupported_abi bad_pointer bad_length bad_encoding unsupported_opcode : Error
  capability_denied invalid_resource invalid_state busy timeout no_memory : Error
  response_too_small rate_limited contract_violation io not_available : Error
  not_synchronized unterminated : Error

-- A call that writes a value through a pointer on WDC_OK, and returns a code otherwise.
pub data Result {ℓ} (A : Type ℓ) : Type ℓ where
  ok : A → Result A
  err : Error → Result A

abbrev pub Status : Type 0
Status = Result (Unit {0})

-- WDC_OK
pattern abbrev pub wdc_ok : Status
wdc_ok = ok tt

infixl 5 ◌>>=◌ ◌>>◌
abbrev pub ◌>>=◌ {ℓ κ} : {A : Type ℓ} {B : Type κ} → Result A → (A → Result B) → Result B
ok a >>= f = f a
err e >>= f = err e

abbrev pub ◌>>◌ {ℓ} : {B : Type ℓ} → Status → Result B → Result B
m >> k = m >>= λ _. k

abbrev pub guard : Bool → Error → Status
guard true e = ok tt
guard false e = err e

pub Result-cases {ℓ} :
    {A : Type ℓ} (r : Result A) → ((a : A) × (r ≡ ok a)) ⊎ ((e : Error) × (r ≡ err e))
Result-cases (ok a) = inl (a, refl)
Result-cases (err e) = inr (e, refl)

-- A lookup that must succeed.
abbrev pub or_bad {ℓ} : {A : Type ℓ} → Result A → Result A
or_bad (ok a) = ok a
or_bad (err e) = err bad_encoding

-- A lookup of a key that may be missing.
abbrev pub or_missing {ℓ} : {A : Type ℓ} → Result A → A → Result A
or_missing (ok a) d = ok a
or_missing (err not_available) d = ok d
or_missing (err _) d = err bad_encoding

-- What an ok result of a chain says of its links.
pub bind_ok {ℓ κ} :
    {A : Type ℓ} {B : Type κ} (m : Result A) (f : A → Result B) (b : B)
    → (m >>= f) ≡ ok b
    → (a : A) × (m ≡ ok a) × (f a ≡ ok b)
bind_ok (ok a) f b h = (a, refl, h)
bind_ok (err e) f b h = absurd (ground arith)

pub guard_ok {ℓ} :
    {B : Type ℓ} (t : Bool) (e : Error) (k : Result B) (b : B)
    → (guard t e >> k) ≡ ok b
    → (t ≡ true) × (k ≡ ok b)
guard_ok true e k b h = (refl, h)
guard_ok false e k b h = absurd (ground arith)

pub ok_inj {ℓ} : {A : Type ℓ} {a b : A} → ok a ≡ ok b → a ≡ b
ok_inj {a} {b} e = ap (λ r. elim r [ ok x ↦ x | err _ ↦ a ]) e

-- A result that is not the one of a recursion without fuel.
abbrev pub Ends {ℓ} : {A : Type ℓ} → Result A → Type 0
Ends (ok a) = Unit
Ends (err unterminated) = ⊥
Ends (err _) = Unit

pub bind-Ends {ℓ κ} :
    {A : Type ℓ} {B : Type κ} (m : Result A) (f : A → Result B)
    → Ends m
    → ((a : A) → m ≡ ok a → Ends (f a))
    → Ends (m >>= f)
bind-Ends (ok a) f h k = k a refl
bind-Ends (err unterminated) f h k = absurd h
bind-Ends (err unknown) f h k = tt
bind-Ends (err unsupported_abi) f h k = tt
bind-Ends (err bad_pointer) f h k = tt
bind-Ends (err bad_length) f h k = tt
bind-Ends (err bad_encoding) f h k = tt
bind-Ends (err unsupported_opcode) f h k = tt
bind-Ends (err capability_denied) f h k = tt
bind-Ends (err invalid_resource) f h k = tt
bind-Ends (err invalid_state) f h k = tt
bind-Ends (err busy) f h k = tt
bind-Ends (err timeout) f h k = tt
bind-Ends (err no_memory) f h k = tt
bind-Ends (err response_too_small) f h k = tt
bind-Ends (err rate_limited) f h k = tt
bind-Ends (err contract_violation) f h k = tt
bind-Ends (err io) f h k = tt
bind-Ends (err not_available) f h k = tt
bind-Ends (err not_synchronized) f h k = tt

pub guard-Ends {ℓ} :
    {B : Type ℓ} (t : Bool) (e : Error) (k : Result B)
    → Ends {A = B} (err e)
    → Ends k
    → Ends (guard t e >> k)
guard-Ends true e k he h = h
guard-Ends false e k he h = he

pub Ends-or_bad {ℓ} : {A : Type ℓ} (m : Result A) → Ends (or_bad m)
Ends-or_bad (ok a) = tt
Ends-or_bad (err e) = tt
