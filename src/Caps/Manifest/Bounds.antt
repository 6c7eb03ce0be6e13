-- ===== src/Caps/Manifest/Bounds.antt =====
-- The capability sets that a manifest can grant.
use pulse_esp32_host.Base.{
  ℕ, zero, suc, ◌+◌, ◌≤◌, ◌<◌, ◌≡◌, ◌≢◌, refl, ap, subst, not, List, [], ◌∷◌, ◌++◌, Option, none,
  some, Result, ok, err, guard, bad_encoding, no_memory, ◌>>=◌, ◌>>◌, ltb, ltb→lt, ◌==◌,
  if◌then◌else◌, if_cases, inl, inr, length, All, Text, c_string, bind_ok, guard_ok, ok_inj, codes,
  arith, length-append,
}
use pulse_esp32_host.Profile.Defs.{DeviceProfile}
use pulse_esp32_host.Caps.Defs.{Capability, CapabilitySet, max_capabilities, caps_of}
use pulse_esp32_host.Caps.Ops.{parse_ops_array, resource_kind_from_string}
use pulse_esp32_host.Caps.Scan.{extract_uint, skip_blanks, find_matching, behind_bracket, Matched}
use pulse_esp32_host.Caps.Manifest.{
  Gathered, nothing_gathered, arena_copy, parse_capability, gather, add_capability, with_resource,
  with_kind, with_id, capability_of, value_of, slice_of, go_on, uncurried, array_in, with_array,
  with_version, with_bundle_id, set_of, gather_round, gather_matched, caps_at, caps_loop,
  parse_array, parse_manifest, resolve, arena_bytes, arena_id_bytes,
}
use pulse_esp32_host.Caps.Manifest.Resources.{IsResource, resolve-IsResource}

-- A capability of a known kind with some operation and a name, on the resource that has the name or
-- on none.
pub record IsResolved (profile : Option DeviceProfile) (c : Capability) : Type 0 where
  known_kind : c.kind ≢ 0
  some_op : c.ops ≢ 0
  name : Text
  named : c.resource_name ≡ some name
  resource : IsResource profile c.kind name c.resource_id

unfoldable pub name_bytes : Option Text → ℕ
name_bytes none = 0
name_bytes (some t) = length t + 1

abbrev pub names_bytes : List Capability → ℕ
unfolding name_bytes
names_bytes [] = 0
names_bytes (c ∷ cs) = name_bytes c.resource_name + names_bytes cs

record IsGathered (profile : Option DeviceProfile) (g : Gathered) : Type 0 where
  resolved : All (IsResolved profile) g.capabilities
  few : length g.capabilities ≤ max_capabilities
  names : names_bytes g.capabilities ≤ g.string_len
  used : g.string_len ≤ arena_bytes

c_string-shorter : (t : List ℕ) → length (c_string t) ≤ length t
c_string-shorter [] = omega arith
c_string-shorter (x ∷ xs) = ground (arith, c_string-shorter xs)

arena_copy-used :
    (n : ℕ) (src : List ℕ) (m : ℕ)
    → n ≤ arena_bytes
    → arena_copy n src ≡ ok m
    → (m ≡ n + (length src + 1)) × (m ≤ arena_bytes)
arena_copy-used n src m h e = ground arith

with_resource-IsResolved :
    (profile : Option DeviceProfile) (n : ℕ) (object : List ℕ) (id kind : ℕ) (src : List ℕ)
    (c : Capability) (m : ℕ)
    → n ≤ arena_bytes
    → kind ≢ 0
    → with_resource profile n object id kind src ≡ ok (c, m)
    → IsResolved profile c × (name_bytes c.resource_name + n ≤ m) × (m ≤ arena_bytes)
unfolding with_resource name_bytes capability_of
with_resource-IsResolved profile n object id kind src c m h known e =
    let ops = parse_ops_array object in
    let name = c_string src in
    let step2 : ℕ → ℕ → Result (Capability × ℕ) =
      λ used resource_id. ok (capability_of object id kind name resource_id, used) in
    let step1 : ℕ → Result (Capability × ℕ) = λ used. resolve profile kind name >>= step2 used in
    let (o, e1) = guard_ok (not (ops == 0)) bad_encoding (arena_copy n src >>= step1) (c, m) e in
    let (used, u, e2) = bind_ok (arena_copy n src) step1 (c, m) e1 in
    let (resource_id, r, e3) = bind_ok (resolve profile kind name) (step2 used) (c, m) e2 in
    let (total, fits) = arena_copy-used n src used h u in
    let some_op : ops ≢ 0 = ground arith in
    let shorter : length name ≤ length src = c_string-shorter src in
    let done : IsResolved profile (capability_of object id kind name resource_id) = record {
      known_kind = known;
      some_op = some_op;
      name = name;
      named = refl;
      resource = resolve-IsResource profile kind name resource_id r;
    } in
    subst
      (λ (k : Capability × ℕ).
        IsResolved profile k.0 × (name_bytes k.0.resource_name + n ≤ k.1) × (k.1 ≤ arena_bytes))
      (ok_inj e3) (done, omega arith, fits)

parse_capability-IsResolved :
    (profile : Option DeviceProfile) (n : ℕ) (object : List ℕ) (c : Capability) (m : ℕ)
    → n ≤ arena_bytes
    → parse_capability profile n object ≡ ok (c, m)
    → IsResolved profile c × (name_bytes c.resource_name + n ≤ m) × (m ≤ arena_bytes)
unfolding parse_capability with_id with_kind
parse_capability-IsResolved profile n object c m h e =
    let (id, _, e1) =
      bind_ok (value_of (codes "id") object >>= extract_uint) (with_id profile n object) (c, m) e in
    let (text, _, e2) =
      bind_ok (slice_of (codes "kind") object) (with_kind profile n object id) (c, m) e1 in
    let kind = resource_kind_from_string text in
    let tail = with_resource profile n object id kind in
    let (k, e3) =
      guard_ok (not (kind == 0)) bad_encoding (slice_of (codes "resource") object >>= tail) (c, m)
        e2 in
    let (src, _, e4) = bind_ok (slice_of (codes "resource") object) tail (c, m) e3 in
    with_resource-IsResolved profile n object id kind src c m h (ground arith) e4

names_bytes-append :
    (cs : List Capability) (c : Capability)
    → names_bytes (cs ++ c ∷ []) ≡ names_bytes cs + name_bytes c.resource_name
unfolding names_bytes
names_bytes-append [] c = omega arith
names_bytes-append (d ∷ cs) c = omega (arith, names_bytes-append cs c)

All-snoc {ℓ} :
    (P : Capability → Type ℓ) (cs : List Capability) (c : Capability)
    → All P cs
    → P c
    → All P (cs ++ c ∷ [])
All-snoc P [] c a h = (h, tt)
All-snoc P (d ∷ cs) c (p, a) h = (p, All-snoc P cs c a h)

gather-IsGathered :
    (profile : Option DeviceProfile) (g : Gathered) (object : List ℕ) (g' : Gathered)
    → IsGathered profile g
    → gather profile g object ≡ ok g'
    → IsGathered profile g'
unfolding gather
gather-IsGathered profile g object g' i e =
    let (room, e1) =
      guard_ok (ltb (length g.capabilities) max_capabilities) no_memory
        (parse_capability profile g.string_len object >>= add_capability g) g' e in
    let ((c, used), p, e2) =
      bind_ok (parse_capability profile g.string_len object) (add_capability g) g' e1 in
    let (resolved, names, fits) =
      parse_capability-IsResolved profile g.string_len object c used i.used p in
    let few : length g.capabilities < 16 = ltb→lt (length g.capabilities) 16 room in
    let next : IsGathered profile
        (record { capabilities = g.capabilities ++ c ∷ []; string_len = used }) =
      record {
        resolved = All-snoc (IsResolved profile) g.capabilities c i.resolved resolved;
        few = omega (arith, length-append g.capabilities (c ∷ []));
        names = omega (arith, names_bytes-append g.capabilities c, i.names);
        used = fits;
      } in
    subst (IsGathered profile) (ok_inj e2) next

gather_matched-IsGathered :
    (profile : Option DeviceProfile) (g : Gathered) (m : Matched) (g' : Gathered) (rest : List ℕ)
    → IsGathered profile g
    → gather_matched profile g m ≡ ok (g', rest)
    → IsGathered profile g'
unfolding gather_matched
gather_matched-IsGathered profile g none g' rest i e = absurd (ground arith)
gather_matched-IsGathered profile g (some (object, behind)) g' rest i e =
    let (found, h, e1) = bind_ok (gather profile g object) (go_on behind) (g', rest) e in
    subst (IsGathered profile) (ap (λ (k : Gathered × List ℕ). k.0) (ok_inj e1))
      (gather-IsGathered profile g object found i h)

gather_round-IsGathered :
    (profile : Option DeviceProfile) (g : Gathered) (x : ℕ) (xs : List ℕ) (g' : Gathered)
    (rest : List ℕ)
    → IsGathered profile g
    → gather_round profile g x xs ≡ ok (g', rest)
    → IsGathered profile g'
unfolding gather_round gather_matched
gather_round-IsGathered profile g x xs g' rest i e =
    let matched = gather_matched profile g (find_matching 123 125 (x ∷ xs)) in
    let objects = if x == 123 then matched else err bad_encoding in
    elim (if_cases (x == 44) (ok (g, xs)) objects (ok (g', rest)) e) [
      | inl (_, same) ↦
          subst (IsGathered profile) (ap (λ (k : Gathered × List ℕ). k.0) (ok_inj same)) i
      | inr (_, e1) ↦ elim (if_cases (x == 123) matched (err bad_encoding) (ok (g', rest)) e1) [
        | inl (_, e2) ↦
            gather_matched-IsGathered profile g (find_matching 123 125 (x ∷ xs)) g' rest i e2
        | inr (_, e2) ↦ absurd (ground arith)
      ]
    ]

caps_at-IsGathered :
    (next : Gathered → List ℕ → Result Gathered) (profile : Option DeviceProfile) (g : Gathered)
    (p : List ℕ) (g' : Gathered)
    → ((h : Gathered) (q : List ℕ) (h' : Gathered)
        → IsGathered profile h
        → next h q ≡ ok h'
        → IsGathered profile h')
    → IsGathered profile g
    → caps_at next profile g p ≡ ok g'
    → IsGathered profile g'
unfolding caps_at
caps_at-IsGathered next profile g [] g' keeps i e = subst (IsGathered profile) (ok_inj e) i
caps_at-IsGathered next profile g (x ∷ xs) g' keeps i e =
    let ((h, rest), r, e1) = bind_ok (gather_round profile g x xs) (uncurried next) g' e in
    keeps h rest g' (gather_round-IsGathered profile g x xs h rest i r) e1

caps_loop-IsGathered :
    (fuel : ℕ) (profile : Option DeviceProfile) (g : Gathered) (p : List ℕ) (g' : Gathered)
    → IsGathered profile g
    → caps_loop fuel profile g p ≡ ok g'
    → IsGathered profile g'
unfolding caps_loop
caps_loop-IsGathered zero profile g p g' i e = absurd (ground arith)
caps_loop-IsGathered (suc fuel) profile g p g' i e =
    caps_at-IsGathered (caps_loop fuel profile) profile g (skip_blanks p) g'
      (caps_loop-IsGathered fuel profile) i e

array_in-IsGathered :
    (profile : Option DeviceProfile) (m : Matched) (g : Gathered)
    → array_in profile m ≡ ok g
    → IsGathered profile g
unfolding array_in names_bytes
array_in-IsGathered profile none g e = absurd (ground arith)
array_in-IsGathered profile (some (inner, rest)) g e =
    let start : IsGathered profile nothing_gathered = record {
      resolved = tt;
      few = omega arith;
      names = omega arith;
      used = omega arith;
    } in
    caps_loop-IsGathered (suc (length inner)) profile nothing_gathered (behind_bracket inner) g
      start e

-- A set that a manifest may grant on a device with this profile.
pub record IsGrantable (profile : Option DeviceProfile) (s : CapabilitySet) : Type 0 where
  bundle_id : Text
  known_bundle : s.bundle_id ≡ some bundle_id
  id_fits : length bundle_id < arena_id_bytes
  some_capability : 1 ≤ length (caps_of (some s))
  few : length (caps_of (some s)) ≤ max_capabilities
  names_fit : names_bytes (caps_of (some s)) ≤ arena_bytes
  resolved : All (IsResolved profile) (caps_of (some s))

-- A set that is read from a manifest is grantable: its bundle id fits, it has 1 to 16 capabilities,
-- each of a known kind and with some operation, their names fit the arena together, and the resource
-- of each is 0 for the kinds config, storage, diagnostics and clock, and for the other kinds one that
-- the profile lists with that kind and name.
pub parse_manifest-IsGrantable :
    (profile : Option DeviceProfile) (json : List ℕ) (s : CapabilitySet)
    → parse_manifest profile json ≡ ok s
    → IsGrantable profile s
unfolding parse_manifest with_bundle_id with_version with_array parse_array
parse_manifest-IsGrantable profile json s e =
    let (text, _, e1) =
      bind_ok (slice_of (codes "bundle_id") json) (with_bundle_id profile json) s e in
    let id = c_string text in
    let at_version = with_version profile json id in
    let version = value_of (codes "bundle_version") json >>= extract_uint in
    let (room, e2) =
      guard_ok (ltb (length text) arena_id_bytes) bad_encoding (version >>= at_version) s e1 in
    let (v, _, e3) = bind_ok version at_version s e2 in
    let (array, _, e4) =
      bind_ok (value_of (codes "capabilities") json) (with_array profile id v) s e3 in
    let finish : Gathered → Result CapabilitySet =
      λ g. guard (ltb 0 (length g.capabilities)) bad_encoding >> ok (set_of id v g) in
    let (g, a, e5) = bind_ok (parse_array profile array) finish s e4 in
    let (some_left, e6) =
      guard_ok (ltb 0 (length g.capabilities)) bad_encoding (ok (set_of id v g)) s e5 in
    let i = array_in-IsGathered profile (find_matching 91 93 array) g a in
    let done : IsGrantable profile (set_of id v g) = record {
      bundle_id = id;
      known_bundle = refl;
      id_fits = omega (arith, c_string-shorter text, ltb→lt (length text) 96 room);
      some_capability = omega (arith, ltb→lt 0 (length g.capabilities) some_left);
      few = i.few;
      names_fit = omega (arith, i.names, i.used);
      resolved = i.resolved;
    } in
    subst (IsGrantable profile) (ok_inj e6) done
