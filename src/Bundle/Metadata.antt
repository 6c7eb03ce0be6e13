-- ===== src/Bundle/Metadata.antt =====
-- WdcBundleMetadataV1 of components/wdc_bundle: the slot records, sealed by a checksum.
-- `layout` stands for the bytes of the structure in memory, which the compiler chooses.
use Prim.Native.Nat.{bit_and, bit_xor}
use pulse_esp32_host.Base.{
  u32, ℕ, zero, suc, ◌+◌, ◌-◌, ◌/◌, ◌^◌, ◌≡◌, Bool, not, ◌||◌, List, [], ◌∷◌, Option, none, some,
  ok, err, Status, ℤ, pos, bad_encoding, contract_violation, invalid_state, invalid_resource, ◌==◌,
  if◌then◌else◌, replicate,
}

-- WdcBundleSlotId; a word read from flash may hold another value.
pub data SlotId : Type 0 where
  no_slot slot_a slot_b : SlotId
  other_slot : ℕ → SlotId

-- WdcSlotState; `other_state` is a value outside the enum.
pub data SlotState : Type 0 where
  empty downloaded verified pending running_pending confirmed failed : SlotState
  other_state : ℕ → SlotState

pub record SlotRecord : Type 0 where
  pub state : SlotState
  pub bundle_version : ℕ
  pub security_counter : ℕ
  pub payload_sha256 : List ℕ

pub record Metadata : Type 0 where
  pub magic : ℕ
  pub version : ℕ
  pub reserved : ℕ
  pub active_slot : SlotId
  pub last_good_slot : SlotId
  pub record_a : SlotRecord
  pub record_b : SlotRecord
  pub candidate_boot_count : ℕ
  pub candidate_fault_count : ℕ
  pub last_failure_reason : ℤ
  pub metadata_generation : ℕ
  pub metadata_crc : ℕ

-- WDC_BUNDLE_METADATA_MAGIC and WDC_BUNDLE_METADATA_VERSION
abbrev pub metadata_magic : ℕ
metadata_magic = 0x5744434d

abbrev pub metadata_version : ℕ
metadata_version = 1

-- One round of the inner loop; `0u - (crc & 1u)` wraps to all ones.
abbrev crc32_bit : ℕ → ℕ
crc32_bit crc = bit_xor (crc / 2) (bit_and 0xedb88320 (u32 (2 ^ 32 - bit_and crc 1)))

crc32_bits : ℕ → ℕ → ℕ
crc32_bits zero crc = crc
crc32_bits (suc n) crc = crc32_bits n (crc32_bit crc)

crc32_bytes : List ℕ → ℕ → ℕ
unfolding crc32_bits
crc32_bytes [] crc = crc
crc32_bytes (b ∷ bs) crc = crc32_bytes bs (crc32_bits 8 (bit_xor crc b))

-- `~` on uint32_t is the exclusive or with all ones.
unfoldable pub crc32_update : ℕ → List ℕ → ℕ
unfolding crc32_bytes
crc32_update crc bytes = bit_xor (crc32_bytes bytes (bit_xor crc 0xffff_ffff)) 0xffff_ffff

abbrev blank_record : SlotRecord
blank_record = record {
  state = empty;
  bundle_version = 0;
  security_counter = 0;
  payload_sha256 = replicate 32 0;
}

-- What the bundle verifier hands over to the metadata.
pub record VerifyResult : Type 0 where
  pub status : Status
  pub payload_hash_ok : Bool
  pub bundle_version : ℕ
  pub security_counter : ℕ
  pub payload_sha256 : List ℕ

abbrev pub record_for_slot : Metadata → SlotId → Option SlotRecord
record_for_slot m slot_a = some m.record_a
record_for_slot m slot_b = some m.record_b
record_for_slot m _ = none

-- A write through the pointer that the code gets for a slot; none for a slot without a record.
abbrev pub update_record : Metadata → SlotId → (SlotRecord → SlotRecord) → Metadata
update_record m slot_a f = record m { record_a = f m.record_a }
update_record m slot_b f = record m { record_b = f m.record_b }
update_record m _ f = m

module _ (layout : Metadata → List ℕ) where
  unfoldable pub metadata_crc32 : Metadata → ℕ
  metadata_crc32 m = crc32_update 0 (layout (record m { metadata_crc = 0 }))

  abbrev pub seal : Metadata → Status × Metadata
  seal m = (ok tt, record m { metadata_crc = metadata_crc32 (record m { metadata_crc = 0 }) })

  unfoldable pub validate : Metadata → Status
  validate m =
      if not (m.magic == metadata_magic) || not (m.version == metadata_version)
      then err bad_encoding
      else if m.metadata_crc == metadata_crc32 m
      then ok tt
      else err contract_violation

  unfoldable pub init : Metadata
  init =
      (seal (record {
        magic = metadata_magic;
        version = metadata_version;
        reserved = 0;
        active_slot = no_slot;
        last_good_slot = no_slot;
        record_a = blank_record;
        record_b = blank_record;
        candidate_boot_count = 0;
        candidate_fault_count = 0;
        last_failure_reason = pos 0;
        metadata_generation = 0;
        metadata_crc = 0;
      })).1

  -- The new record of a slot whose bundle was verified.
  abbrev verified_record : VerifyResult → SlotRecord → SlotRecord
  verified_record v r = record {
    state = verified;
    bundle_version = v.bundle_version;
    security_counter = v.security_counter;
    payload_sha256 = v.payload_sha256;
  }

  unfoldable pub mark_slot :
      Metadata → SlotId → VerifyResult → Option SlotRecord → Status × Metadata
  mark_slot m slot v none = (err invalid_resource, m)
  mark_slot m slot v (some r) =
      let m' = update_record m slot (verified_record v) in
      seal (record m' { metadata_generation = u32 (m'.metadata_generation + 1) })

  unfoldable pub mark_verified : Metadata → SlotId → VerifyResult → Status × Metadata
  unfolding mark_slot
  mark_verified m slot v = elim v.status [
    | err e ↦ (err invalid_state, m)
    | ok u ↦
        if v.payload_hash_ok
        then mark_slot m slot v (record_for_slot m slot)
        else (err invalid_state, m)
  ]

  -- What a metadata read back from flash must satisfy to be used.
  pub record IsSealed (m : Metadata) : Type 0 where
    pub magic_right : m.magic ≡ metadata_magic
    pub version_right : m.version ≡ metadata_version
    pub crc_right : m.metadata_crc ≡ metadata_crc32 m
