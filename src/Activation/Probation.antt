-- ===== src/Activation/Probation.antt =====
-- The life of a candidate: activated, booted once in probation, then confirmed or rolled back.
use pulse_esp32_host.Base.{
  ℕ, ◌≡◌, ◌≢◌, true, false, List, Option, none, some, ok, err, ℤ, arith, Status,
}
use pulse_esp32_host.Bundle.Metadata.{
  SlotId, Metadata, record_for_slot, validate, IsSealed, metadata_crc32,
}
use pulse_esp32_host.Activation.Defs.{
  DecisionKind, run_confirmed, run_candidate, rollback_to_last_good, Policy, Decision,
  slot_is_confirmed, holds_state, is_verified_state, normalize_policy, is_pending_state,
  slot_is_runnable,
}
use pulse_esp32_host.Activation.Boot.{
  prepare_pending, on_boot, boot_confirmed, boot_pending, boot_running, confirm, record_fault,
}

abbrev pub HasKind : Option Decision → DecisionKind → SlotId → Type 0
HasKind none k s = ⊥
HasKind (some d) k s = (d.kind ≡ k) × (d.slot_to_run ≡ s)

abbrev pub KeptOnError : Metadata → Status × Metadata → Type 0
KeptOnError m (ok u, m') = Unit
KeptOnError m (err e, m') = m' ≡ m

module _ (layout : Metadata → List ℕ) where
  -- A candidate activated over a confirmed slot is booted once, in probation, under any policy; if
  -- the device boots again before the candidate was confirmed, under any policy that fails a running
  -- candidate, the slot that ran before runs again and the candidate cannot be run.
  pub unconfirmed_rolls_back :
      (m : Metadata) (slot : SlotId) (first second : Option Policy)
      → IsSealed layout m
      → (normalize_policy second).fail_running_candidate_on_boot ≡ true
      → slot_is_confirmed m m.active_slot ≡ true
      → holds_state is_verified_state (record_for_slot m slot) ≡ true
      → let (s₁, m₁) = prepare_pending layout m slot in
        let (s₂, m₂, d₂) = on_boot layout m₁ first in
        let (s₃, m₃, d₃) = on_boot layout m₂ second in
        (s₁ ≡ ok tt)
        × (s₂ ≡ ok tt)
        × HasKind d₂ run_candidate slot
        × (s₃ ≡ ok tt)
        × HasKind d₃ rollback_to_last_good m.active_slot
        × (slot_is_runnable m₃ slot ≡ false)
  unfolding prepare_pending on_boot boot_confirmed boot_pending boot_running slot_is_confirmed
      slot_is_runnable metadata_crc32 validate normalize_policy
  unconfirmed_rolls_back m slot first second g fails active candidate = ground arith

  -- A candidate that is active and pending, and passed a health check, is confirmed: every later
  -- boot, under any policy, runs it as confirmed and changes the metadata no more.
  pub confirmed_runs_on :
      (m : Metadata) (checks : ℕ) (policy : Option Policy)
      → IsSealed layout m
      → holds_state is_pending_state (record_for_slot m m.active_slot) ≡ true
      → checks ≢ 0
      → let (s₁, m₁) = confirm layout m m.active_slot checks in
        let (s₂, m₂, d₂) = on_boot layout m₁ policy in
        (s₁ ≡ ok tt) × (s₂ ≡ ok tt) × (m₂ ≡ m₁) × HasKind d₂ run_confirmed m.active_slot
  unfolding confirm on_boot boot_confirmed slot_is_confirmed metadata_crc32 validate
  confirmed_runs_on m checks policy g candidate h = ground arith

  -- A candidate that faults in probation over a confirmed fallback hands over to the fallback at
  -- once. The next boot, under any policy, runs the fallback and leaves the metadata as it is, with
  -- the candidate not runnable, so that every boot after it does the same.
  pub fault_hands_over :
      (m : Metadata) (reason : ℤ) (policy : Option Policy)
      → IsSealed layout m
      → holds_state is_pending_state (record_for_slot m m.active_slot) ≡ true
      → slot_is_confirmed m m.last_good_slot ≡ true
      → let (s₁, m₁, d₁) = record_fault layout m m.active_slot reason in
        let (s₂, m₂, d₂) = on_boot layout m₁ policy in
        (s₁ ≡ ok tt)
        × HasKind d₁ rollback_to_last_good m.last_good_slot
        × (s₂ ≡ ok tt)
        × (m₂ ≡ m₁)
        × HasKind d₂ run_confirmed m.last_good_slot
        × (slot_is_runnable m₂ m.active_slot ≡ false)
  unfolding record_fault on_boot boot_confirmed slot_is_confirmed slot_is_runnable metadata_crc32
      validate
  fault_hands_over m reason policy g candidate fallback = ground arith

  -- An operation that answers an error leaves the metadata as it was.
  pub errors_keep_metadata :
      (m : Metadata) (slot : SlotId) (checks : ℕ) (reason : ℤ) (policy : Option Policy)
      → KeptOnError m (prepare_pending layout m slot)
        × KeptOnError m (confirm layout m slot checks)
        × KeptOnError m
            ((record_fault layout m slot reason).0, (record_fault layout m slot reason).1)
        × KeptOnError m ((on_boot layout m policy).0, (on_boot layout m policy).1)
  unfolding prepare_pending confirm record_fault on_boot boot_confirmed boot_pending boot_running
  errors_keep_metadata m slot checks reason policy = ground arith
