-- ===== src/Activation/Keeps.antt =====
-- The metadata stays sealed, and its fallback stays a confirmed slot, through every operation.
use Prim.Native.String.{String}
use pulse_esp32_host.Base.{
  ℕ, ◌≡◌, ◌≢◌, ◌⊎◌, ◌↔◌, refl, true, false, List, Option, none, some, ok, err, ℤ, arith,
  status_code, timeout, not_synchronized, invalid_state,
}
use pulse_esp32_host.Bundle.Metadata.{
  SlotId, no_slot, SlotState, SlotRecord, Metadata, record_for_slot, validate, init, IsSealed,
  metadata_crc32, VerifyResult, mark_verified,
}
use pulse_esp32_host.Activation.Defs.{Policy, normalize_policy, slot_is_confirmed, roll_back}
use pulse_esp32_host.Activation.Boot.{
  prepare_pending, on_boot, boot_inactive, boot_confirmed, boot_pending, boot_running, boot_state,
  boot_record, confirm, record_fault,
}

-- The fallback, if there is one, is a confirmed slot.
abbrev pub HasSafeFallback : Metadata → Type 0
HasSafeFallback m = (m.last_good_slot ≡ no_slot) ⊎ (slot_is_confirmed m m.last_good_slot ≡ true)

pub record IsGood (layout : Metadata → List ℕ) (m : Metadata) : Type 0 where
  pub sealed : IsSealed layout m
  pub fallback : HasSafeFallback m

module _ (layout : Metadata → List ℕ) where
  pub validate_iff : (m : Metadata) → (validate layout m ≡ ok tt) ↔ IsSealed layout m
  unfolding validate
  validate_iff m = (λ h. ground arith, λ h. ground arith)

  pub init-IsGood : IsGood layout (init layout)
  unfolding init metadata_crc32
  init-IsGood = ground arith

  roll_back-IsGood :
      (m : Metadata) (slot : SlotId) (reason : ℤ) (message : String)
      → slot_is_confirmed m slot ≡ false
      → IsGood layout m
      → IsGood layout (roll_back layout m slot reason message).1
  unfolding roll_back metadata_crc32 slot_is_confirmed
  roll_back-IsGood m slot reason message h g = ground arith

  prepare_pending-IsGood :
      (m : Metadata) (slot : SlotId)
      → IsGood layout m
      → IsGood layout (prepare_pending layout m slot).1
  unfolding prepare_pending metadata_crc32 slot_is_confirmed
  prepare_pending-IsGood m slot g = ground arith

  confirm-IsGood :
      (m : Metadata) (slot : SlotId) (checks : ℕ)
      → IsGood layout m
      → IsGood layout (confirm layout m slot checks).1
  unfolding confirm metadata_crc32 slot_is_confirmed
  confirm-IsGood m slot checks g = ground arith

  record_fault-IsGood :
      (m : Metadata) (slot : SlotId) (reason : ℤ)
      → IsGood layout m
      → IsGood layout (record_fault layout m slot reason).1
  unfolding record_fault slot_is_confirmed
  record_fault-IsGood m slot reason g =
      ground (arith, roll_back-IsGood m slot reason "candidate faulted during probation")

  boot_state-IsGood :
      (p : Policy) (m : Metadata) (st : SlotState) (r : SlotRecord)
      → record_for_slot m m.active_slot ≡ some r
      → r.state ≡ st
      → IsGood layout m
      → IsGood layout (boot_state layout p m st).1
  unfolding boot_state boot_confirmed boot_pending boot_running metadata_crc32 slot_is_confirmed
  boot_state-IsGood p m SlotState.confirmed r h e g = ground arith
  boot_state-IsGood p m _ r h e g = ground (
    arith,
    roll_back-IsGood m m.active_slot (status_code (err timeout))
        "candidate exceeded boot attempt budget",
    roll_back-IsGood m m.active_slot (status_code (err not_synchronized))
        "candidate rebooted before confirmation",
    roll_back-IsGood m m.active_slot (status_code (err invalid_state))
        "active slot is not runnable",
  )

  boot_record-IsGood :
      (p : Policy) (m : Metadata) (r : Option SlotRecord)
      → record_for_slot m m.active_slot ≡ r
      → IsGood layout m
      → IsGood layout (boot_record layout p m r).1
  unfolding boot_record slot_is_confirmed
  boot_record-IsGood p m none h g = roll_back-IsGood m m.active_slot _ _ (ground arith) g
  boot_record-IsGood p m (some r) h g = boot_state-IsGood p m r.state r h refl g

  on_boot-IsGood :
      (m : Metadata) (policy : Option Policy)
      → IsGood layout m
      → IsGood layout (on_boot layout m policy).1
  unfolding on_boot boot_inactive metadata_crc32 slot_is_confirmed
  on_boot-IsGood m policy g =
      ground (
        arith,
        boot_record-IsGood (normalize_policy policy) m (record_for_slot m m.active_slot) refl,
      )

  mark_verified-IsGood :
      (m : Metadata) (slot : SlotId) (v : VerifyResult)
      → slot ≢ m.last_good_slot
      → IsGood layout m
      → IsGood layout (mark_verified layout m slot v).1
  unfolding mark_verified metadata_crc32 slot_is_confirmed
  mark_verified-IsGood m slot v h g = ground arith

  -- What the shell does to the metadata. A bundle is staged into a slot that is not the fallback.
  pub data Step (m : Metadata) : Metadata → Type 0 where
    staged :
        (slot : SlotId) (v : VerifyResult)
        → slot ≢ m.last_good_slot
        → Step m (mark_verified layout m slot v).1
    prepared : (slot : SlotId) → Step m (prepare_pending layout m slot).1
    booted : (policy : Option Policy) → Step m (on_boot layout m policy).1
    passed : (slot : SlotId) (checks : ℕ) → Step m (confirm layout m slot checks).1
    faulted : (slot : SlotId) (reason : ℤ) → Step m (record_fault layout m slot reason).1

  pub data Reach (m : Metadata) : Metadata → Type 0 where
    here : Reach m m
    then_step : {m' m'' : Metadata} → Reach m m' → Step m' m'' → Reach m m''

  pub Step-IsGood : {m m' : Metadata} → Step m m' → IsGood layout m → IsGood layout m'
  Step-IsGood {m} (staged slot v h) g = mark_verified-IsGood m slot v h g
  Step-IsGood {m} (prepared slot) g = prepare_pending-IsGood m slot g
  Step-IsGood {m} (booted policy) g = on_boot-IsGood m policy g
  Step-IsGood {m} (passed slot checks) g = confirm-IsGood m slot checks g
  Step-IsGood {m} (faulted slot reason) g = record_fault-IsGood m slot reason g

  -- After any history of staging, activation, boots, confirmations and faults, with no bundle staged
  -- over the fallback, the metadata is sealed and its fallback, if it has one, is a confirmed slot.
  pub Reach-IsGood : {m : Metadata} → Reach (init layout) m → IsGood layout m
  Reach-IsGood here = init-IsGood
  Reach-IsGood (then_step r st) = Step-IsGood st (Reach-IsGood r)
