-- ===== src/Tests/Boot.antt =====
-- The activation at a concrete metadata.
use pulse_esp32_host.Base.{
  ℕ, ◌≡◌, ◌⊎◌, false, true, List, [], ◌∷◌, none, some, ok, pos, negsuc, replicate, arith, refl,
}
use pulse_esp32_host.Bundle.Metadata.{
  SlotId, slot_a, slot_b, SlotState, verified, pending, confirmed, SlotRecord, Metadata,
  metadata_magic, seal, init, IsSealed, metadata_crc32, mark_verified, VerifyResult,
}
use pulse_esp32_host.Activation.Defs.{
  run_candidate, run_confirmed, rollback_to_last_good, slot_is_confirmed, slot_is_runnable,
  default_policy, normalize_policy,
}
use pulse_esp32_host.Activation.Boot.{prepare_pending, on_boot, confirm, record_fault}
use pulse_esp32_host.Activation.Safe.{IsSound, IsHalted, on_boot-IsSound}
use pulse_esp32_host.Activation.Keeps.{
  IsGood, Reach, here, then_step, staged, prepared, booted, Reach-IsGood,
}
use pulse_esp32_host.Activation.Probation.{
  HasKind, KeptOnError, unconfirmed_rolls_back, confirmed_runs_on, fault_hands_over,
  errors_keep_metadata,
}

-- A layout that shows the generation alone.
abbrev layout : Metadata → List ℕ
layout m = m.metadata_generation ∷ []

abbrev slot_in : SlotState → SlotRecord
slot_in st = record {
  state = st;
  bundle_version = 3;
  security_counter = 1;
  payload_sha256 = replicate 32 0;
}

-- Slot A runs as confirmed; slot B is in the given state.
abbrev metadata_with : SlotId → SlotState → Metadata
metadata_with active st =
    (seal layout (record {
      magic = metadata_magic;
      version = 1;
      reserved = 0;
      active_slot = active;
      last_good_slot = slot_a;
      record_a = slot_in confirmed;
      record_b = slot_in st;
      candidate_boot_count = 0;
      candidate_fault_count = 0;
      last_failure_reason = pos 0;
      metadata_generation = 12;
      metadata_crc = 0;
    })).1

metadata_with-IsSealed :
    (active : SlotId) (st : SlotState) → IsSealed layout (metadata_with active st)
unfolding metadata_crc32
metadata_with-IsSealed active st = record {
  magic_right = refl;
  version_right = refl;
  crc_right = refl;
}

unconfirmed_rolls_back_example :
    let m = metadata_with slot_a verified in
    let (s₁, m₁) = prepare_pending layout m slot_b in
    let (s₂, m₂, d₂) = on_boot layout m₁ none in
    let (s₃, m₃, d₃) = on_boot layout m₂ (some default_policy) in
    (s₁ ≡ ok tt)
    × (s₂ ≡ ok tt)
    × HasKind d₂ run_candidate slot_b
    × (s₃ ≡ ok tt)
    × HasKind d₃ rollback_to_last_good slot_a
    × (slot_is_runnable m₃ slot_b ≡ false)
unfolding slot_is_confirmed normalize_policy
unconfirmed_rolls_back_example =
    unconfirmed_rolls_back layout (metadata_with slot_a verified) slot_b none (some default_policy)
      (metadata_with-IsSealed slot_a verified) refl refl refl

confirmed_runs_on_example :
    let m = metadata_with slot_b pending in
    let (s₁, m₁) = confirm layout m slot_b 2 in
    let (s₂, m₂, d₂) = on_boot layout m₁ (some default_policy) in
    (s₁ ≡ ok tt) × (s₂ ≡ ok tt) × (m₂ ≡ m₁) × HasKind d₂ run_confirmed slot_b
confirmed_runs_on_example =
    confirmed_runs_on layout (metadata_with slot_b pending) 2 (some default_policy)
      (metadata_with-IsSealed slot_b pending) refl (ground arith)

fault_hands_over_example :
    let m = metadata_with slot_b pending in
    let (s₁, m₁, d₁) = record_fault layout m slot_b (negsuc 14) in
    let (s₂, m₂, d₂) = on_boot layout m₁ none in
    (s₁ ≡ ok tt)
    × HasKind d₁ rollback_to_last_good slot_a
    × (s₂ ≡ ok tt)
    × (m₂ ≡ m₁)
    × HasKind d₂ run_confirmed slot_a
    × (slot_is_runnable m₂ slot_b ≡ false)
unfolding slot_is_confirmed
fault_hands_over_example =
    fault_hands_over layout (metadata_with slot_b pending) (negsuc 14) none
      (metadata_with-IsSealed slot_b pending) refl refl

errors_keep_metadata_example :
    let m = metadata_with slot_b pending in
    KeptOnError m (prepare_pending layout m slot_b)
    × KeptOnError m (confirm layout m slot_b 0)
    × KeptOnError m
        ((record_fault layout m slot_b (pos 0)).0, (record_fault layout m slot_b (pos 0)).1)
    × KeptOnError m ((on_boot layout m none).0, (on_boot layout m none).1)
errors_keep_metadata_example =
    errors_keep_metadata layout (metadata_with slot_b pending) slot_b 0 (pos 0) none

on_boot-IsSound_example :
    let m = metadata_with slot_b pending in
    let (s, m', d) = on_boot layout m none in
    IsSound m' d × (IsSealed layout m ⊎ IsHalted layout m (s, m', d))
on_boot-IsSound_example = on_boot-IsSound layout (metadata_with slot_b pending) none

-- A bundle staged into slot A, activated and booted.
abbrev staged_bundle : VerifyResult
staged_bundle = record {
  status = ok tt;
  payload_hash_ok = true;
  bundle_version = 4;
  security_counter = 1;
  payload_sha256 = replicate 32 7;
}

abbrev first_metadata : Metadata
first_metadata = (mark_verified layout (init layout) slot_a staged_bundle).1

abbrev second_metadata : Metadata
second_metadata = (prepare_pending layout first_metadata slot_a).1

abbrev third_metadata : Metadata
third_metadata = (on_boot layout second_metadata none).1

third-Reach : Reach layout (init layout) third_metadata
unfolding init
third-Reach =
    then_step
      (then_step (then_step here (staged slot_a staged_bundle (λ e. ground arith)))
        (prepared slot_a))
      (booted none)

Reach-IsGood_example : IsGood layout third_metadata
Reach-IsGood_example = Reach-IsGood layout third-Reach
