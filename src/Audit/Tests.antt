-- ===== src/Audit/Tests.antt =====
-- Payloads that are masked.
use microfinance_microservic.Common.{String, ◌≡◌, refl}
use microfinance_microservic.Audit.{
  Value, text, array, object, nil, item, Payload, end, entry, mask_payload,
}

abbrev other_secret : String → Value → Value
other_secret key value = text "0000"

abbrev purchase : Payload
purchase = entry "pan" (text "4000123412341234") (
    entry "auth" (object (entry "pin" (text "4321") end))
      (entry "legs" (array (item (object (entry "ksn" (text "FF01") end)) nil)) end))

mask_payload_run :
    mask_payload purchase
    ≡ entry "pan" (text "...1234") (
        entry "auth"
          (object (entry "pin" (text "<redacted>") end))
          (entry "legs" (array (item (object (entry "ksn" (text "<redacted>") end)) nil)) end))
unfolding mask_payload
mask_payload_run = refl

abbrev nested : Payload
nested =
    entry "a" (array (item (array (item (object (entry "pin" (text "4321") end)) nil)) nil)) end

-- A payload in an array of an array is logged as it is.
nested_pin_logged : mask_payload nested ≡ nested
unfolding mask_payload
nested_pin_logged = refl
