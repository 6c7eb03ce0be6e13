-- ===== src/Caps/Manifest/Ends.antt =====
-- The loops of the manifest parser of wdc_caps.c come to an end on the fuel that they get.
use pulse_esp32_host.Base.{
  ℕ, zero, suc, ◌+◌, ◌-◌, ◌≤◌, ◌<◌, subst, not, List, [], ◌∷◌, Option, none, some, Result, ok, err,
  guard, bad_encoding, no_memory, ◌>>=◌, ◌>>◌, ltb, ◌==◌, if◌then◌else◌, if_both, length, Text,
  c_string, codes, arith, Ends, bind-Ends, guard-Ends,
}
use pulse_esp32_host.Profile.Defs.{DeviceProfile, ProfileResource}
use pulse_esp32_host.Caps.Defs.{Capability, CapabilitySet, max_capabilities}
use pulse_esp32_host.Caps.Ops.{parse_ops_array, resource_kind_from_string}
use pulse_esp32_host.Caps.Scan.{
  skip_blanks, find_key, extract_slice, extract_uint, find_matching, behind_bracket, Matched,
}
use pulse_esp32_host.Caps.Manifest.{
  Gathered, nothing_gathered, arena_copy, value_of, slice_of, resolve, named, id_or_invalid,
  needs_no_resource, arena_bytes, arena_id_bytes, slice_at, slice_text, found_value, capability_of,
  with_resource, with_kind, with_id, parse_capability, add_capability, gather, go_on,
  gather_matched, gather_round, uncurried, caps_at, caps_loop, array_in, parse_array, set_of,
  with_array, with_version, with_bundle_id, parse_manifest,
}
use pulse_esp32_host.Caps.Scan.Ends.{
  LeavesAtMost, find_matching-LeavesAtMost, extract_slice-Ends, extract_uint-Ends,
  skip_blanks-shorter,
}

found_value-Ends : (v : Option (List ℕ)) → Ends (found_value v)
found_value-Ends none = tt
found_value-Ends (some v) = tt

value_of-Ends : (key : Text) (p : List ℕ) → Ends (value_of key p)
value_of-Ends key p = found_value-Ends (find_key key p)

number-Ends : (key : Text) (p : List ℕ) → Ends (value_of key p >>= extract_uint)
number-Ends key p =
    bind-Ends (value_of key p) extract_uint (value_of-Ends key p) (λ v _. extract_uint-Ends v)

slice_at-Ends : (v : List ℕ) → Ends (slice_at v)
unfolding slice_at
slice_at-Ends v = bind-Ends (extract_slice v) slice_text (extract_slice-Ends v) (λ slice _. tt)

slice_of-Ends : (key : Text) (p : List ℕ) → Ends (slice_of key p)
unfolding slice_of
slice_of-Ends key p =
    bind-Ends (value_of key p) slice_at (value_of-Ends key p) (λ v _. slice_at-Ends v)

id_or_invalid-Ends : (r : Option ProfileResource) → Ends (id_or_invalid r)
id_or_invalid-Ends none = tt
id_or_invalid-Ends (some r) = tt

resolve-Ends :
    (profile : Option DeviceProfile) (kind : ℕ) (name : Text) → Ends (resolve profile kind name)
unfolding resolve
resolve-Ends profile kind name =
    let P : Result ℕ → Type 0 = λ r. Ends r in
    let found = named profile kind name in
    if_both P (needs_no_resource kind) (ok 0) (id_or_invalid found) tt (id_or_invalid-Ends found)

arena_copy-Ends : (n : ℕ) (src : List ℕ) → Ends (arena_copy n src)
arena_copy-Ends n src =
    let P : Result ℕ → Type 0 = λ r. Ends r in
    if_both P (ltb (arena_bytes - n) (length src + 1)) (err no_memory) (ok (n + (length src + 1)))
      tt tt

with_resource-Ends :
    (profile : Option DeviceProfile) (n : ℕ) (object : List ℕ) (id kind : ℕ) (src : List ℕ)
    → Ends (with_resource profile n object id kind src)
unfolding with_resource
with_resource-Ends profile n object id kind src =
    let name = c_string src in
    let step2 : ℕ → ℕ → Result (Capability × ℕ) =
      λ used resource_id. ok (capability_of object id kind name resource_id, used) in
    let step1 : ℕ → Result (Capability × ℕ) = λ used. resolve profile kind name >>= step2 used in
    guard-Ends (not (parse_ops_array object == 0)) bad_encoding (arena_copy n src >>= step1) tt (
      bind-Ends (arena_copy n src) step1 (arena_copy-Ends n src) λ used _.
        bind-Ends (resolve profile kind name) (step2 used) (resolve-Ends profile kind name)
          λ resource_id _. tt)

parse_capability-Ends :
    (profile : Option DeviceProfile) (n : ℕ) (object : List ℕ)
    → Ends (parse_capability profile n object)
unfolding parse_capability with_id with_kind
parse_capability-Ends profile n object =
    bind-Ends (value_of (codes "id") object >>= extract_uint) (with_id profile n object)
      (number-Ends (codes "id") object)
      λ id _.
        bind-Ends (slice_of (codes "kind") object) (with_kind profile n object id)
          (slice_of-Ends (codes "kind") object)
          λ text _.
            let kind = resource_kind_from_string text in
            let tail = with_resource profile n object id kind in
            guard-Ends (not (kind == 0)) bad_encoding (slice_of (codes "resource") object >>= tail)
              tt
              (bind-Ends (slice_of (codes "resource") object) tail
                (slice_of-Ends (codes "resource") object)
                λ src _. with_resource-Ends profile n object id kind src)

gather-Ends :
    (profile : Option DeviceProfile) (g : Gathered) (object : List ℕ)
    → Ends (gather profile g object)
unfolding gather
gather-Ends profile g object =
    let parsed = parse_capability profile g.string_len object in
    guard-Ends (ltb (length g.capabilities) max_capabilities) no_memory
      (parsed >>= add_capability g) tt
      (bind-Ends parsed (add_capability g) (parse_capability-Ends profile g.string_len object)
        λ c _. tt)

gather_matched-Ends :
    (profile : Option DeviceProfile) (g : Gathered) (m : Matched)
    → Ends (gather_matched profile g m)
unfolding gather_matched
gather_matched-Ends profile g none = tt
gather_matched-Ends profile g (some (object, rest)) =
    bind-Ends (gather profile g object) (go_on rest) (gather-Ends profile g object) λ g' _. tt

gather_round-Ends :
    (profile : Option DeviceProfile) (g : Gathered) (x : ℕ) (xs : List ℕ)
    → Ends (gather_round profile g x xs)
unfolding gather_round
gather_round-Ends profile g x xs =
    let P : Result (Gathered × List ℕ) → Type 0 = λ r. Ends r in
    let matched = gather_matched profile g (find_matching 123 125 (x ∷ xs)) in
    if_both P (x == 44) (ok (g, xs)) (if x == 123 then matched else err bad_encoding) tt (
      if_both P (x == 123) matched (err bad_encoding)
        (gather_matched-Ends profile g (find_matching 123 125 (x ∷ xs))) tt)

-- A round leaves fewer bytes than it finds.
abbrev Leaves : ℕ → Result (Gathered × List ℕ) → Type 0
Leaves n (ok (g, rest)) = length rest ≤ n
Leaves n (err e) = Unit

go_on-Leaves :
    (n : ℕ) (rest : List ℕ) (r : Result Gathered) → length rest ≤ n → Leaves n (r >>= go_on rest)
go_on-Leaves n rest (ok g) h = h
go_on-Leaves n rest (err e) h = tt

gather_matched-Leaves :
    (n : ℕ) (profile : Option DeviceProfile) (g : Gathered) (m : Matched)
    → LeavesAtMost n m
    → Leaves n (gather_matched profile g m)
unfolding gather_matched
gather_matched-Leaves n profile g none h = tt
gather_matched-Leaves n profile g (some (object, rest)) h =
    go_on-Leaves n rest (gather profile g object) h

gather_round-Leaves :
    (profile : Option DeviceProfile) (g : Gathered) (x : ℕ) (xs : List ℕ)
    → Leaves (length xs) (gather_round profile g x xs)
unfolding gather_round
gather_round-Leaves profile g x xs =
    let P : Result (Gathered × List ℕ) → Type 0 = Leaves (length xs) in
    let m = find_matching 123 125 (x ∷ xs) in
    let matched = gather_matched profile g m in
    if_both P (x == 44) (ok (g, xs)) (if x == 123 then matched else err bad_encoding) (omega arith)
      (if_both P (x == 123) matched (err bad_encoding)
        (gather_matched-Leaves (length xs) profile g m (find_matching-LeavesAtMost 123 125 x xs))
        tt)

caps_at-Ends :
    (fuel : ℕ) (next : Gathered → List ℕ → Result Gathered) (profile : Option DeviceProfile)
    (g : Gathered) (p : List ℕ)
    → length p ≤ fuel
    → ((h : Gathered) (q : List ℕ) → length q < fuel → Ends (next h q))
    → Ends (caps_at next profile g p)
unfolding caps_at
caps_at-Ends fuel next profile g [] few k = tt
caps_at-Ends fuel next profile g (x ∷ xs) few k =
    bind-Ends (gather_round profile g x xs) (uncurried next) (gather_round-Ends profile g x xs)
      λ (h, q) e.
        let left : length q ≤ length xs =
          subst (Leaves (length xs)) e (gather_round-Leaves profile g x xs) in
        k h q (omega arith)

caps_loop-Ends :
    (fuel : ℕ) (profile : Option DeviceProfile) (g : Gathered) (p : List ℕ)
    → length p < fuel
    → Ends (caps_loop fuel profile g p)
unfolding caps_loop
caps_loop-Ends zero profile g p few = absurd (omega arith)
caps_loop-Ends (suc fuel) profile g p few =
    caps_at-Ends fuel (caps_loop fuel profile) profile g (skip_blanks p)
      (omega (arith, skip_blanks-shorter p)) (caps_loop-Ends fuel profile)

length-behind_bracket : (p : List ℕ) → length (behind_bracket p) ≤ length p
length-behind_bracket [] = omega arith
length-behind_bracket (x ∷ xs) = omega arith

array_in-Ends : (profile : Option DeviceProfile) (m : Matched) → Ends (array_in profile m)
unfolding array_in
array_in-Ends profile none = tt
array_in-Ends profile (some (inner, rest)) =
    caps_loop-Ends (suc (length inner)) profile nothing_gathered (behind_bracket inner)
      (omega (arith, length-behind_bracket inner))

with_array-Ends :
    (profile : Option DeviceProfile) (id : Text) (v : ℕ) (array : List ℕ)
    → Ends (with_array profile id v array)
unfolding with_array parse_array
with_array-Ends profile id v array =
    let m = find_matching 91 93 array in
    let finish : Gathered → Result CapabilitySet =
      λ g. guard (ltb 0 (length g.capabilities)) bad_encoding >> ok (set_of id v g) in
    bind-Ends (array_in profile m) finish (array_in-Ends profile m)
      λ g _. guard-Ends (ltb 0 (length g.capabilities)) bad_encoding (ok (set_of id v g)) tt tt

-- Reading a manifest comes to an end, with a set or with an error of the code: the fuel of one round
-- for each byte of the array is never used up.
pub parse_manifest-Ends :
    (profile : Option DeviceProfile) (json : List ℕ) → Ends (parse_manifest profile json)
unfolding parse_manifest with_bundle_id with_version with_array parse_array
parse_manifest-Ends profile json =
    bind-Ends (slice_of (codes "bundle_id") json) (with_bundle_id profile json)
      (slice_of-Ends (codes "bundle_id") json)
      λ text _.
        let id = c_string text in
        let at_version = with_version profile json id in
        let version = value_of (codes "bundle_version") json >>= extract_uint in
        guard-Ends (ltb (length text) arena_id_bytes) bad_encoding (version >>= at_version) tt (
          bind-Ends version at_version (number-Ends (codes "bundle_version") json) λ v _.
            bind-Ends (value_of (codes "capabilities") json) (with_array profile id v)
              (value_of-Ends (codes "capabilities") json)
              λ array _. with_array-Ends profile id v array)
