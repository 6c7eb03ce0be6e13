-- ===== src/Caps/Manifest/Resources.antt =====
-- The resource that a capability of a manifest names, described without the parser's lookup.
use mathlib.Core.List.{Mem, mem-cons_self, mem-cons_of_mem}
use pulse_esp32_host.Base.{
  ℕ, ◌≡◌, ◌≢◌, ◌⊎◌, inl, inr, refl, subst, ap, Bool, true, false, Bool-cases, List, [], ◌∷◌, Option,
  none, some, ok, and_split, ◌&&◌, if_cases, sym, ok_inj, ◌==◌, ==_iff, Text, text_eq_sound, arith,
}
use pulse_esp32_host.Profile.Defs.{
  DeviceProfile, ProfileResource, elems, first, name_is, find_resource_by_name, kind_config,
  kind_storage,
}
use pulse_esp32_host.Caps.Ops.{kind_diagnostics, kind_clock}
use pulse_esp32_host.Caps.Manifest.{needs_no_resource, id_or_invalid, named, resolve}

-- A kind whose names are no resources of the profile.
abbrev pub IsBareKind : ℕ → Type 0
IsBareKind kind =
    (kind ≡ kind_config) ⊎ (kind ≡ kind_storage) ⊎ (kind ≡ kind_diagnostics) ⊎ (kind ≡ kind_clock)

-- The profile has a resource of the kind, which is not bare, with the name, and this is its id.
pub record IsOnProfile (profile : Option DeviceProfile) (kind : ℕ) (name : Text) (id : ℕ)
    : Type 0 where
  pub not_bare :
      (kind ≢ kind_config) × (kind ≢ kind_storage) × (kind ≢ kind_diagnostics) × (kind ≢ kind_clock)
  pub board : DeviceProfile
  pub given : profile ≡ some board
  pub resource : ProfileResource
  pub listed : Mem resource (elems board.resources)
  pub same_kind : resource.kind ≡ kind
  pub same_name : resource.name ≡ some name
  pub same_id : resource.resource_id ≡ id

-- No resource of the profile, with the id 0, for a bare kind, and one of the profile otherwise.
abbrev pub IsResource : Option DeviceProfile → ℕ → Text → ℕ → Type 0
IsResource profile kind name id = (IsBareKind kind × (id ≡ 0)) ⊎ IsOnProfile profile kind name id

some_inj {ℓ} : {A : Type ℓ} {a b : A} → some a ≡ some b → a ≡ b
some_inj {a} {b} e = ap (λ o. elim o [ some x ↦ x | none ↦ a ]) e

first-Mem {ℓ} :
    {A : Type ℓ} (test : A → Bool) (xs : List A) (a : A)
    → first test xs ≡ some a
    → Mem a xs × (test a ≡ true)
first-Mem {A} test [] a h = absurd (ground arith)
first-Mem {A} test (x ∷ xs) a h = elim (Bool-cases (test x)) [
  | inl e ↦
      let same : x ≡ a = some_inj (rw e at h) in
      (
        subst (λ (k : A). Mem k (x ∷ xs)) same mem-cons_self,
        subst (λ (k : A). test k ≡ true) same e,
      )
  | inr e ↦ let (m, good) = first-Mem test xs a (rw e at h) in (mem-cons_of_mem x m, good)
]

name_is-some : (o : Option Text) (name : Text) → name_is o name ≡ true → o ≡ some name
name_is-some none name h = absurd (ground arith)
name_is-some (some t) name h = ap some (text_eq_sound t name h)

bare-IsBareKind : (kind : ℕ) → needs_no_resource kind ≡ true → IsBareKind kind
bare-IsBareKind kind h = ground arith

found-IsOnProfile :
    (profile : Option DeviceProfile) (kind : ℕ) (name : Text) (id : ℕ)
    → needs_no_resource kind ≡ false
    → id_or_invalid (named profile kind name) ≡ ok id
    → IsOnProfile profile kind name id
unfolding find_resource_by_name
found-IsOnProfile none kind name id b h = absurd (ground arith)
found-IsOnProfile (some p) kind name id b h =
    of_first
      (first (λ (r : ProfileResource). r.kind == kind && name_is r.name name) (elems p.resources))
      refl h
  where
    of_first :
        (o : Option ProfileResource)
        → first (λ (r : ProfileResource). r.kind == kind && name_is r.name name) (elems p.resources)
          ≡ o
        → id_or_invalid o ≡ ok id
        → IsOnProfile (some p) kind name id
    of_first none e h = absurd (ground arith)
    of_first (some r) e h =
        let (listed, good) =
          first-Mem (λ (r : ProfileResource). r.kind == kind && name_is r.name name)
            (elems p.resources) r e in
        let (right_kind, right_name) = and_split (r.kind == kind) (name_is r.name name) good in
        record {
          not_bare = ground arith;
          board = p;
          given = refl;
          resource = r;
          listed = listed;
          same_kind = (==_iff r.kind kind).0 right_kind;
          same_name = name_is-some r.name name right_name;
          same_id = ok_inj h;
        }

pub resolve-IsResource :
    (profile : Option DeviceProfile) (kind : ℕ) (name : Text) (id : ℕ)
    → resolve profile kind name ≡ ok id
    → IsResource profile kind name id
unfolding resolve
resolve-IsResource profile kind name id h =
    elim (if_cases (needs_no_resource kind) (ok 0) (id_or_invalid (named profile kind name)) (ok id)
      h) [
        | inl (bare, e) ↦ inl (bare-IsBareKind kind bare, sym (ok_inj e))
        | inr (other, e) ↦ inr (found-IsOnProfile profile kind name id other e)
      ]
