-- ===== src/Activation/Defs.antt =====
-- The policy, the decision and the helpers of wdc_activation.c.
use Prim.Native.String.{String}
use pulse_esp32_host.Base.{
  u32, ℕ, suc, ◌+◌, Bool, true, false, ◌&&◌, not, List, Option, none, some, Status, ℤ, ◌==◌,
  if◌then◌else◌,
}
use pulse_esp32_host.Bundle.Metadata.{
  SlotId, no_slot, slot_a, slot_b, other_slot, SlotState, verified, pending, running_pending,
  confirmed, failed, SlotRecord, Metadata, record_for_slot, update_record, seal,
}

pub data DecisionKind : Type 0 where
  no_bundle run_confirmed run_candidate rollback_to_last_good fault_no_fallback : DecisionKind

pub record Policy : Type 0 where
  pub max_candidate_boots : ℕ
  pub required_health_checks : ℕ
  pub fail_running_candidate_on_boot : Bool

pub record Decision : Type 0 where
  pub kind : DecisionKind
  pub slot_to_run : SlotId
  pub candidate_slot : SlotId
  pub fallback_slot : SlotId
  pub probation : Bool
  pub metadata_changed : Bool
  pub rollback : Bool
  pub reason : ℤ
  pub candidate_boot_count : ℕ
  pub message : String

-- The status, the metadata, and the decision where the call writes one. The decision is computed
-- alike where `out_decision` is NULL, and then dropped.
abbrev pub Reply : Type 0
Reply = Status × Metadata × Option Decision

unfoldable pub default_policy : Policy
default_policy = record {
  max_candidate_boots = 1;
  required_health_checks = 1;
  fail_running_candidate_on_boot = true;
}

-- `none` is a NULL policy.
abbrev given_policy : Option Policy → Policy
unfolding default_policy
given_policy none = default_policy
given_policy (some p) = p

unfoldable pub normalize_policy : Option Policy → Policy
unfolding default_policy
normalize_policy policy =
    let p = given_policy policy in
    record p {
      max_candidate_boots = if p.max_candidate_boots == 0 then 1 else p.max_candidate_boots;
      required_health_checks =
          if p.required_health_checks == 0 then 1 else p.required_health_checks;
    }

abbrev pub decision_init : DecisionKind → ℤ → String → Decision
decision_init kind reason message = record {
  kind = kind;
  slot_to_run = no_slot;
  candidate_slot = no_slot;
  fallback_slot = no_slot;
  probation = false;
  metadata_changed = false;
  rollback = false;
  reason = reason;
  candidate_boot_count = 0;
  message = message;
}

abbrev pub slot_number : SlotId → ℕ
slot_number no_slot = 0
slot_number slot_a = 1
slot_number slot_b = 2
slot_number (other_slot n) = suc (suc (suc n))

abbrev pub slot_eq : SlotId → SlotId → Bool
slot_eq s t = slot_number s == slot_number t

abbrev pub is_confirmed_state : SlotState → Bool
is_confirmed_state confirmed = true
is_confirmed_state _ = false

abbrev pub is_pending_state : SlotState → Bool
is_pending_state pending = true
is_pending_state running_pending = true
is_pending_state _ = false

abbrev pub is_verified_state : SlotState → Bool
is_verified_state verified = true
is_verified_state _ = false

abbrev pub holds_state : (SlotState → Bool) → Option SlotRecord → Bool
holds_state test none = false
holds_state test (some r) = test r.state

unfoldable pub slot_is_confirmed : Metadata → SlotId → Bool
slot_is_confirmed m slot = holds_state is_confirmed_state (record_for_slot m slot)

unfoldable pub fallback_is_valid : Metadata → Bool
unfolding slot_is_confirmed
fallback_is_valid m = not (slot_eq m.last_good_slot no_slot) && slot_is_confirmed m m.last_good_slot

abbrev runnable_state : SlotState → Bool
runnable_state confirmed = true
runnable_state pending = true
runnable_state running_pending = true
runnable_state _ = false

unfoldable pub slot_is_runnable : Metadata → SlotId → Bool
slot_is_runnable m slot = holds_state runnable_state (record_for_slot m slot)

abbrev pub set_state : Metadata → SlotId → SlotState → Metadata
set_state m slot st = update_record m slot (λ r. record r { state = st })

abbrev pub next_generation : Metadata → Metadata
next_generation m = record m { metadata_generation = u32 (m.metadata_generation + 1) }

-- The metadata after `failed->state`, the fault count and the reason are written.
abbrev pub marked_failed : Metadata → SlotId → ℤ → Metadata
marked_failed m failed_slot reason =
    let m' = set_state m failed_slot failed in
    record m' {
      candidate_fault_count = u32 (m'.candidate_fault_count + 1);
      last_failure_reason = reason;
    }

module _ (layout : Metadata → List ℕ) where
  unfoldable pub roll_back : Metadata → SlotId → ℤ → String → Reply
  unfolding fallback_is_valid
  roll_back m failed_slot reason message =
      let m' = marked_failed m failed_slot reason in
      if fallback_is_valid m'
      then (let (s, sealed) =
            seal layout (next_generation (record m' { active_slot = m'.last_good_slot })) in
          (
            s,
            sealed,
            some (record (decision_init rollback_to_last_good reason message) {
              candidate_slot = failed_slot;
              fallback_slot = m'.last_good_slot;
              slot_to_run = m'.last_good_slot;
              rollback = true;
              metadata_changed = true;
              candidate_boot_count = m'.candidate_boot_count;
            }),
          ))
      else (let (s, sealed) = seal layout (next_generation (record m' { active_slot = no_slot })) in
          (
            s,
            sealed,
            some (record (decision_init fault_no_fallback reason message) {
              candidate_slot = failed_slot;
              rollback = true;
              metadata_changed = true;
              candidate_boot_count = m'.candidate_boot_count;
            }),
          ))
