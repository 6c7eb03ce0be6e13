-- ===== src/Base/Int.antt =====
-- int32_t values as integers, and the number of each status code.
use Prim.Native.Nat.{ℕ}
use pulse_esp32_host.Base.Outcome.{Error, ok, err, Status}

-- `negsuc n` is -(n + 1).
pub data ℤ : Type 0 where
  pos : ℕ → ℤ
  negsuc : ℕ → ℤ

-- The place of a code in the enum, counted from WDC_ERR_UNKNOWN.
abbrev pub error_index : Error → ℕ
error_index Error.unknown = 0
error_index Error.unsupported_abi = 1
error_index Error.bad_pointer = 2
error_index Error.bad_length = 3
error_index Error.bad_encoding = 4
error_index Error.unsupported_opcode = 5
error_index Error.capability_denied = 6
error_index Error.invalid_resource = 7
error_index Error.invalid_state = 8
error_index Error.busy = 9
error_index Error.timeout = 10
error_index Error.no_memory = 11
error_index Error.response_too_small = 12
error_index Error.rate_limited = 13
error_index Error.contract_violation = 14
error_index Error.io = 15
error_index Error.not_available = 16
error_index Error.not_synchronized = 17
error_index Error.unterminated = 18

abbrev pub status_code : Status → ℤ
status_code (ok u) = pos 0
status_code (err e) = negsuc (error_index e)
