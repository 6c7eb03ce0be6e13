-- ===== src/Activation/Safe.antt =====
-- What holds of every decision and of the metadata after every operation.
use pulse_esp32_host.Base.{
  ℕ, ◌≡◌, ◌≢◌, ◌⊎◌, inl, inr, Bool-cases, ◌==◌, ok, err, Error, bad_encoding, contract_violation,
  refl, ap, Bool, true, false, List, Option, none, some, ℤ, arith,
}
use Prim.Native.String.{String}
use pulse_esp32_host.Bundle.Metadata.{
  SlotId, no_slot, SlotState, running_pending, SlotRecord, Metadata, record_for_slot, validate,
  IsSealed, metadata_crc32, metadata_magic, metadata_version,
}
use pulse_esp32_host.Activation.Probation.{HasKind}
use pulse_esp32_host.Activation.Defs.{
  DecisionKind, run_confirmed, run_candidate, no_bundle, fault_no_fallback, rollback_to_last_good,
  Policy, Decision, Reply, normalize_policy, slot_is_confirmed, roll_back, holds_state,
  is_confirmed_state,
}
use pulse_esp32_host.Activation.Boot.{
  on_boot, boot_inactive, boot_confirmed, boot_pending, boot_running, boot_state, boot_record,
}

abbrev is_probation_state : SlotState → Bool
is_probation_state running_pending = true
is_probation_state _ = false

abbrev pub in_probation : Metadata → SlotId → Bool
in_probation m slot = holds_state is_probation_state (record_for_slot m slot)

-- What a decision of each kind must say of the metadata that it comes with.
abbrev pub IsSoundFor : DecisionKind → Metadata → Decision → Type 0
IsSoundFor run_confirmed m d =
    (slot_is_confirmed m d.slot_to_run ≡ true)
    × (d.slot_to_run ≡ m.active_slot)
    × (d.probation ≡ false)
IsSoundFor rollback_to_last_good m d =
    (slot_is_confirmed m d.slot_to_run ≡ true)
    × (d.slot_to_run ≡ m.active_slot)
    × (d.slot_to_run ≢ d.candidate_slot)
    × (d.probation ≡ false)
IsSoundFor run_candidate m d =
    (in_probation m d.slot_to_run ≡ true) × (d.slot_to_run ≡ m.active_slot) × (d.probation ≡ true)
IsSoundFor no_bundle m d = d.slot_to_run ≡ no_slot
IsSoundFor fault_no_fallback m d = d.slot_to_run ≡ no_slot

-- A reply without a decision has nothing to show.
abbrev pub IsSound : Metadata → Option Decision → Type 0
IsSound m none = Unit
IsSound m (some d) = IsSoundFor d.kind m d

module _ (layout : Metadata → List ℕ) where
  roll_back-IsSound :
      (m : Metadata) (slot : SlotId) (reason : ℤ) (message : String)
      → let (s, m', d) = roll_back layout m slot reason message in IsSound m' d
  unfolding roll_back slot_is_confirmed
  roll_back-IsSound m slot reason message = ground arith

  boot_confirmed-IsSound :
      (m : Metadata)
      → slot_is_confirmed m m.active_slot ≡ true
      → let (s, m', d) = boot_confirmed layout m in IsSound m' d
  unfolding boot_confirmed slot_is_confirmed
  boot_confirmed-IsSound m h = ground arith

  boot_pending-IsSound :
      (p : Policy) (m : Metadata) (r : SlotRecord)
      → record_for_slot m m.active_slot ≡ some r
      → let (s, m', d) = boot_pending layout p m in IsSound m' d
  unfolding boot_pending
  boot_pending-IsSound p m r h = ground (arith, roll_back-IsSound m m.active_slot)

  boot_running-IsSound :
      (p : Policy) (m : Metadata)
      → in_probation m m.active_slot ≡ true
      → let (s, m', d) = boot_running layout p m in IsSound m' d
  unfolding boot_running
  boot_running-IsSound p m h = ground (arith, roll_back-IsSound m m.active_slot)

  boot_record-IsSound :
      (p : Policy) (m : Metadata) (r : Option SlotRecord)
      → record_for_slot m m.active_slot ≡ r
      → let (s, m', d) = boot_record layout p m r in IsSound m' d
  unfolding boot_record boot_confirmed boot_running
  boot_record-IsSound p m none h = roll_back-IsSound m m.active_slot _ _
  boot_record-IsSound p m (some r) h = boot_state_sound r.state refl
    where
      boot_state_sound :
          (st : SlotState)
          → r.state ≡ st
          → let (s, m', d) = boot_state layout p m st in IsSound m' d
      boot_state_sound SlotState.confirmed e =
          boot_confirmed-IsSound m (rw (h, slot_is_confirmed) (ap is_confirmed_state e))
      boot_state_sound SlotState.pending e = boot_pending-IsSound p m r h
      boot_state_sound SlotState.running_pending e =
          boot_running-IsSound p m (rw h (ap is_probation_state e))
      boot_state_sound _ e = roll_back-IsSound m m.active_slot _ _

  validate-cases : (m : Metadata) → IsSealed layout m ⊎ ((e : Error) × (validate layout m ≡ err e))
  unfolding validate
  validate-cases m = elim (Bool-cases (m.magic == metadata_magic)) [
    | inr e ↦ inr (bad_encoding, ground arith)
    | inl right_magic ↦ elim (Bool-cases (m.version == metadata_version)) [
      | inr e ↦ inr (bad_encoding, ground arith)
      | inl right_version ↦ elim (Bool-cases (m.metadata_crc == metadata_crc32 layout m)) [
        | inr e ↦ inr (contract_violation, ground arith)
        | inl right_sum ↦ inl (record {
          magic_right = ground arith;
          version_right = ground arith;
          crc_right = ground arith;
        })
      ]
    ]
  ]

  -- A boot that answers an error, keeps the metadata and runs no slot.
  abbrev pub IsHalted : Metadata → Reply → Type 0
  IsHalted m (s, m', d) = (s ≢ ok tt) × (m' ≡ m) × HasKind d fault_no_fallback no_slot

  damaged-IsHalted :
      (m : Metadata) (policy : Option Policy) (e : Error)
      → validate layout m ≡ err e
      → IsHalted m (on_boot layout m policy)
  unfolding on_boot
  damaged-IsHalted m policy e h = ground arith

  -- Whatever the metadata holds, the decision of a boot is sound: a slot that is run as confirmed is
  -- confirmed and active, a rollback runs another slot than the one that failed, a candidate runs
  -- only in probation, and otherwise no slot runs. Unless the magic number, the version and the
  -- checksum of the metadata are right, the boot answers an error, keeps the metadata and runs no
  -- slot.
  pub on_boot-IsSound :
      (m : Metadata) (policy : Option Policy)
      → let (s, m', d) = on_boot layout m policy in
        IsSound m' d × (IsSealed layout m ⊎ IsHalted m (s, m', d))
  unfolding on_boot boot_inactive slot_is_confirmed
  on_boot-IsSound m policy = (
    ground (
      arith,
      boot_record-IsSound (normalize_policy policy) m (record_for_slot m m.active_slot) refl,
    ),
    elim (validate-cases m) [
      | inl good ↦ inl good
      | inr (e, bad) ↦ inr (damaged-IsHalted m policy e bad)
    ],
  )
