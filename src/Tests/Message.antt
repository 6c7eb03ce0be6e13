-- ===== src/Tests/Message.antt =====
-- The encoder and the decoder at a concrete message.
use pulse_esp32_host.Base.{
  ℕ, ◌≡◌, ◌≢◌, true, List, [], ◌∷◌, ok, err, unterminated, response_too_small, if◌then◌else◌, leb,
  length, arith, negsuc,
}
use pulse_esp32_host.Cbor.Read.{read_item, enough}
use pulse_esp32_host.Cbor.Find.{is_empty_or_map, find_item}
use pulse_esp32_host.Cbor.Writes.{head_bytes}
use pulse_esp32_host.Cbor.Encoding.{Value, uint, sint, flag, bytes, text, map_bytes}
use pulse_esp32_host.Cbor.Lookup.{IsMessage, Answers}
use pulse_esp32_host.Cbor.Whole.{build_map, build_map_exact}
use pulse_esp32_host.Cbor.RoundTrip.{build_then_find}
use pulse_esp32_host.Cbor.Total.{Ends, decoder-Ends}

-- Five pairs, one of each type, and key 4 once more.
abbrev pairs : List (ℕ × Value)
pairs =
    (0, sint (negsuc 8))
    ∷ (4, uint 70000)
    ∷ (7, flag true)
    ∷ (9, bytes (1 ∷ 2 ∷ 3 ∷ []))
    ∷ (20, text (0x6c ∷ 0x65 ∷ 0x64 ∷ []))
    ∷ (4, uint 5)
    ∷ []

pairs-IsMessage : IsMessage pairs
pairs-IsMessage = ground arith

build_map_exact_example : build_map 16 pairs ≡ (
    if leb (length (map_bytes pairs)) 16
    then ok (record { cap = 16; bytes = map_bytes pairs })
    else err response_too_small)
build_map_exact_example = build_map_exact 16 pairs

pairs_built : build_map 64 pairs ≡ ok (record { cap = 64; bytes = map_bytes pairs })
unfolding head_bytes
pairs_built = build_map_exact 64 pairs

build_then_find_example :
    (is_empty_or_map (map_bytes pairs) ≡ true) × Answers (map_bytes pairs) 4 pairs
build_then_find_example =
    build_then_find 64 pairs (record { cap = 64; bytes = map_bytes pairs }) 4 pairs-IsMessage
      pairs_built

-- A map head that promises three pairs, and nested arrays that never end.
abbrev damaged : List ℕ
damaged = 0xa3 ∷ 0x81 ∷ 0x81 ∷ 0x81 ∷ []

decoder-Ends_example :
    Ends damaged 1 (read_item (enough damaged) damaged 1) × (find_item damaged 7 ≢ err unterminated)
decoder-Ends_example = decoder-Ends damaged 1 7 (omega arith)
