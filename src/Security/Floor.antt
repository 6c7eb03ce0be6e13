-- ===== src/Security/Floor.antt =====
-- The anti-rollback floor of the slots, through a verification and the installation of its bundle.
use pulse_esp32_host.Bundle.Metadata.{Metadata, SlotRecord, verified, VerifyResult}

abbrev new_record : VerifyResult → SlotRecord
new_record v = record {
  state = verified;
  bundle_version = v.bundle_version;
  security_counter = v.security_counter;
  payload_sha256 = v.payload_sha256;
}
