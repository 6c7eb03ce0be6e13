-- ===== src/Activation/Boot.antt =====
-- The operations of wdc_activation.c.
use pulse_esp32_host.Base.{
  u32, ℕ, ◌+◌, true, ◌&&◌, not, List, Option, none, some, ok, err, Status, ℤ, pos, status_code,
  invalid_resource, invalid_state, not_available, not_synchronized, timeout, leb, ◌==◌,
  if◌then◌else◌,
}
use pulse_esp32_host.Bundle.Metadata.{
  SlotId, no_slot, SlotState, pending, running_pending, confirmed, SlotRecord, Metadata,
  record_for_slot, seal, validate,
}
use pulse_esp32_host.Activation.Defs.{
  run_confirmed, run_candidate, no_bundle, fault_no_fallback, Policy, Reply, normalize_policy,
  decision_init, slot_eq, is_pending_state, is_verified_state, slot_is_confirmed, fallback_is_valid,
  set_state, next_generation, roll_back,
}

-- `last_good_slot` follows the active slot if that is confirmed.
abbrev pub keep_last_good : Metadata → Metadata
unfolding slot_is_confirmed
keep_last_good m =
    if not (slot_eq m.active_slot no_slot) && slot_is_confirmed m m.active_slot
    then record m { last_good_slot = m.active_slot }
    else m

module _ (layout : Metadata → List ℕ) where
  unfoldable pub prepare_record : Metadata → SlotId → Option SlotRecord → Status × Metadata
  unfolding slot_is_confirmed
  prepare_record m slot none = (err invalid_resource, m)
  prepare_record m slot (some r) =
      if is_verified_state r.state
      then seal layout (
          next_generation (record (set_state (keep_last_good m) slot pending) {
            active_slot = slot;
            candidate_boot_count = 0;
            candidate_fault_count = 0;
            last_failure_reason = pos 0;
          }))
      else (err invalid_state, m)

  -- The policy argument is not read.
  unfoldable pub prepare_pending : Metadata → SlotId → Status × Metadata
  unfolding prepare_record
  prepare_pending m slot = elim (validate layout m) [
    | err e ↦ (err e, m)
    | ok u ↦ prepare_record m slot (record_for_slot m slot)
  ]

  unfoldable pub boot_inactive : Metadata → Reply
  unfolding fallback_is_valid
  boot_inactive m =
      if fallback_is_valid m
      then (let (s, m') =
            seal layout (next_generation (record m { active_slot = m.last_good_slot })) in
          (
            s,
            m',
            some (record (decision_init run_confirmed (pos 0) "running last good confirmed slot") {
              slot_to_run = m'.active_slot;
              fallback_slot = m'.last_good_slot;
              metadata_changed = true;
            }),
          ))
      else (
        ok tt,
        m,
        some (
            decision_init no_bundle (status_code (err not_available))
              "no active or last-good bundle"),
      )

  unfoldable pub boot_confirmed : Metadata → Reply
  boot_confirmed m =
      let changed = not (slot_eq m.last_good_slot m.active_slot) in
      let m' =
        (if changed
          then (seal layout (next_generation (record m { last_good_slot = m.active_slot }))).1
          else m) in
      (
        ok tt,
        m',
        some (record (decision_init run_confirmed (pos 0) "running confirmed slot") {
          slot_to_run = m'.active_slot;
          fallback_slot = m'.last_good_slot;
          metadata_changed = changed;
        }),
      )

  unfoldable pub boot_pending : Policy → Metadata → Reply
  unfolding roll_back
  boot_pending p m =
      if leb p.max_candidate_boots m.candidate_boot_count
      then roll_back layout m m.active_slot (status_code (err timeout))
          "candidate exceeded boot attempt budget"
      else (let (s, m') = seal layout (
            next_generation (
              set_state (record m { candidate_boot_count = u32 (m.candidate_boot_count + 1) })
                m.active_slot running_pending)) in
          (
            s,
            m',
            some (record (decision_init run_candidate (pos 0) "running candidate in probation") {
              slot_to_run = m'.active_slot;
              candidate_slot = m'.active_slot;
              fallback_slot = m'.last_good_slot;
              probation = true;
              metadata_changed = true;
              candidate_boot_count = m'.candidate_boot_count;
            }),
          ))

  unfoldable pub boot_running : Policy → Metadata → Reply
  unfolding roll_back
  boot_running p m =
      if p.fail_running_candidate_on_boot
      then roll_back layout m m.active_slot (status_code (err not_synchronized))
          "candidate rebooted before confirmation"
      else (
        ok tt,
        m,
        some (record (decision_init run_candidate (pos 0) "resuming candidate probation") {
          slot_to_run = m.active_slot;
          candidate_slot = m.active_slot;
          fallback_slot = m.last_good_slot;
          probation = true;
          candidate_boot_count = m.candidate_boot_count;
        }),
      )

  -- The switch of wdc_activation_on_boot; the last clause is all the other states.
  unfoldable pub boot_state : Policy → Metadata → SlotState → Reply
  unfolding boot_confirmed boot_pending boot_running roll_back
  boot_state p m confirmed = boot_confirmed m
  boot_state p m pending = boot_pending p m
  boot_state p m running_pending = boot_running p m
  boot_state p m _ =
      roll_back layout m m.active_slot (status_code (err invalid_state))
        "active slot is not runnable"

  unfoldable pub boot_record : Policy → Metadata → Option SlotRecord → Reply
  unfolding boot_state
  boot_record p m none =
      roll_back layout m m.active_slot (status_code (err invalid_resource))
        "invalid active slot; rollback attempted"
  boot_record p m (some r) = boot_state p m r.state

  unfoldable pub on_boot : Metadata → Option Policy → Reply
  unfolding boot_inactive boot_record normalize_policy
  on_boot m policy =
      let p = normalize_policy policy in
      elim (validate layout m) [
        | err e ↦ (
          err e,
          m,
          some (decision_init fault_no_fallback (status_code (err e)) "metadata validation failed"),
        )
        | ok u ↦
            if slot_eq m.active_slot no_slot
            then boot_inactive m
            else boot_record p m (record_for_slot m m.active_slot)
      ]

  unfoldable pub confirm_record : Metadata → SlotId → Option SlotRecord → Status × Metadata
  confirm_record m slot none = (err invalid_resource, m)
  confirm_record m slot (some r) =
      if is_pending_state r.state
      then seal layout (
          next_generation (record (set_state m slot confirmed) {
            active_slot = slot;
            last_good_slot = slot;
            candidate_boot_count = 0;
            candidate_fault_count = 0;
            last_failure_reason = pos 0;
          }))
      else (err invalid_state, m)

  unfoldable pub confirm : Metadata → SlotId → ℕ → Status × Metadata
  unfolding confirm_record
  confirm m slot observed_health_checks =
      if observed_health_checks == 0 then (err invalid_state, m) else elim (validate layout m) [
        | err e ↦ (err e, m)
        | ok u ↦
            if slot_eq m.active_slot slot
            then confirm_record m slot (record_for_slot m slot)
            else (err invalid_state, m)
      ]

  unfoldable pub fault_record : Metadata → SlotId → ℤ → Option SlotRecord → Reply
  unfolding roll_back
  fault_record m slot reason none = (err invalid_resource, m, none)
  fault_record m slot reason (some r) =
      if is_pending_state r.state
      then roll_back layout m slot reason "candidate faulted during probation"
      else (err invalid_state, m, none)

  -- wdc_activation_abort_pending is this too.
  unfoldable pub record_fault : Metadata → SlotId → ℤ → Reply
  unfolding fault_record
  record_fault m slot reason = elim (validate layout m) [
    | err e ↦ (err e, m, none)
    | ok u ↦ fault_record m slot reason (record_for_slot m slot)
  ]
