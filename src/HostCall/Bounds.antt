-- ===== src/HostCall/Bounds.antt =====
-- A response has no more bytes than its buffer.
use pulse_esp32_host.Base.{
  ℕ, ◌≤◌, ◌≡◌, refl, List, Result, Status, ok, err, wdc_ok, ◌>>=◌, length, length-append, arith,
  codes, status_code,
}
use pulse_esp32_host.Cbor.Build.{Builder, builder_init, begin_map}
use pulse_esp32_host.Cbor.Writes.{written, Writes}
use pulse_esp32_host.Cbor.Encoding.{uint, sint, text, bytes}
use pulse_esp32_host.Cbor.Whole.{put_value-Writes, begin_map-Writes}
use pulse_esp32_host.HostCall.Response.{
  finish, response_status, response_status_value, sys_info, config_answer,
}

-- The bytes of an answer fit its buffer.
abbrev pub InBound : ℕ → Result (List ℕ) → Type 0
InBound cap (ok rsp) = length rsp ≤ cap
InBound cap (err e) = Unit

abbrev pub BuilderIn : ℕ → Result Builder → Type 0
BuilderIn size (ok b) = (b.cap ≡ size) × (length b.bytes ≤ size)
BuilderIn size (err e) = Unit

written-BuilderIn :
    (size : ℕ) (b : Builder) (xs : List ℕ) → BuilderIn size (ok b) → BuilderIn size (written b xs)
written-BuilderIn size b xs h = ground (arith, length-append b.bytes xs)

pub then-BuilderIn :
    (size : ℕ) (r : Result Builder) (f : Builder → Result Builder) (xs : List ℕ)
    → Writes f xs
    → BuilderIn size r
    → BuilderIn size (r >>= f)
then-BuilderIn size (ok b) f xs w h = rw (w.at b) (written-BuilderIn size b xs h)
then-BuilderIn size (err e) f xs w h = h

pub finish-InBound : (size : ℕ) (r : Result Builder) → BuilderIn size r → InBound size (finish r)
finish-InBound size (ok b) h = h.1
finish-InBound size (err e) h = tt

pub start-BuilderIn : (pairs size : ℕ) → BuilderIn size (begin_map pairs (builder_init size))
start-BuilderIn pairs size =
    then-BuilderIn size (ok (builder_init size)) (begin_map pairs) _ (begin_map-Writes pairs)
      (refl, omega arith)

pub response_status-InBound : (size : ℕ) (code : Status) → InBound size (response_status size code)
unfolding response_status
response_status-InBound size code = finish-InBound size _ (
    then-BuilderIn size _ _ _ (put_value-Writes 0 (sint (status_code code)))
      (start-BuilderIn 1 size))

pub response_status_value-InBound :
    (size : ℕ) (code : Status) (value : ℕ) → InBound size (response_status_value size code value)
unfolding response_status_value
response_status_value-InBound size code value = finish-InBound size _ (
    then-BuilderIn size _ _ _ (put_value-Writes 4 (uint value)) (
      then-BuilderIn size _ _ _ (put_value-Writes 0 (sint (status_code code)))
        (start-BuilderIn 2 size)))

pub sys_info-InBound : (size : ℕ) → InBound size (sys_info size)
unfolding sys_info
sys_info-InBound size = finish-InBound size _ (
    then-BuilderIn size _ _ _ (put_value-Writes 11 (text (codes "0.1.0-r9"))) (
      then-BuilderIn size _ _ _ (put_value-Writes 10 (text (codes "R9"))) (
        then-BuilderIn size _ _ _ (put_value-Writes 2 (uint 0)) (
          then-BuilderIn size _ _ _ (put_value-Writes 1 (uint 1)) (
            then-BuilderIn size _ _ _ (put_value-Writes 0 (sint (status_code wdc_ok)))
              (start-BuilderIn 5 size))))))

pub config_answer-InBound : (size : ℕ) (value : List ℕ) → InBound size (config_answer size value)
config_answer-InBound size value = finish-InBound size _ (
    then-BuilderIn size _ _ _ (put_value-Writes 9 (bytes value)) (
      then-BuilderIn size _ _ _ (put_value-Writes 0 (sint (status_code wdc_ok)))
        (start-BuilderIn 2 size)))
