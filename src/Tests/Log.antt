-- ===== src/Tests/Log.antt =====
-- Two entries of the log.
use pulse_esp32_host.Base.{
  ◌≡◌, refl, List, [], ◌∷◌, none, some, ok, length, ◌<◌, get_or, arith, codes,
}
use pulse_esp32_host.Diag.Log.{
  diag_init, diag_log, diag_get, log_ready, blank_record, log_info, log_warn, ring_capacity,
}
use pulse_esp32_host.Diag.Last.{Call, log_all, logged, records, keep_last, log_keeps_last}

abbrev two_calls : List Call
two_calls = (10, log_info, some (codes "boot")) ∷ (25, log_warn, none) ∷ []

both_logged : length (logged (log_all diag_init two_calls)) ≡ 2
unfolding log_all diag_log diag_init log_ready
both_logged = refl

second_logged : 1 < length (logged (log_all diag_init two_calls))
second_logged = ground (arith, both_logged)

log_keeps_last_example :
    let d = log_all diag_init two_calls in
    (logged d ≡ keep_last ring_capacity (records 1 two_calls))
    × (diag_get d 1 ≡ ok (get_or (logged d) 1 blank_record))
log_keeps_last_example = log_keeps_last two_calls 1 second_logged
