-- ===== src/Audit/Blind.antt =====
-- What is logged does not depend on the secrets of a payload.
use microfinance_microservic.Common.{String, Bool, true, false, ◌≡◌, refl, ap, if◌then◌else◌}
use microfinance_microservic.Audit.{
  Value, scalar, text, array, object, Items, nil, item, Payload, end, entry, key_in,
  sensitive_json_keys, card_keys, redacted, masked, masked_card, mask_payload, mask_value,
  mask_items,
}

-- The values under the sensitive keys are others, and all else is the same. An array inside an
-- array is left as it is, as is what stands under the key of a card.
abbrev pub exchanged : (String → Value → Value) → String → Value → Value → Value
exchanged secret key value inner =
    if key_in key sensitive_json_keys
    then secret key value
    else (if key_in key card_keys then value else inner)

unfoldable mutual
  pub exchange : (String → Value → Value) → Payload → Payload
  exchange secret end = end
  exchange secret (entry key value rest) =
      entry key (exchanged secret key value (exchange_value secret value)) (exchange secret rest)

  pub exchange_value : (String → Value → Value) → Value → Value
  exchange_value secret (scalar s) = scalar s
  exchange_value secret (text s) = text s
  exchange_value secret (array items) = array (exchange_items secret items)
  exchange_value secret (object payload) = object (exchange secret payload)

  pub exchange_items : (String → Value → Value) → Items → Items
  exchange_items secret nil = nil
  exchange_items secret (item (scalar s) rest) = item (scalar s) (exchange_items secret rest)
  exchange_items secret (item (text s) rest) = item (text s) (exchange_items secret rest)
  exchange_items secret (item (array items) rest) = item (array items) (exchange_items secret rest)
  exchange_items secret (item (object payload) rest) =
      item (object (exchange secret payload)) (exchange_items secret rest)

-- A value that is exchanged by the tests of its key is masked alike by the same tests.
masked_alike :
    (sensitive card : Bool) (shown secret value inner : Value)
    → mask_value inner ≡ mask_value value
    → (let put = if sensitive then secret else (if card then value else inner) in
        if sensitive then shown else (if card then masked_card put else mask_value put))
      ≡ (if sensitive then shown else (if card then masked_card value else mask_value value))
masked_alike true card shown secret value inner same = refl
masked_alike false true shown secret value inner same = refl
masked_alike false false shown secret value inner same = same

masked-exchanged :
    (secret : String → Value → Value) (key : String) (value inner : Value)
    → mask_value inner ≡ mask_value value
    → masked key (exchanged secret key value inner) (mask_value (exchanged secret key value inner))
      ≡ masked key value (mask_value value)
unfolding masked
masked-exchanged secret key value inner same =
    masked_alike (key_in key sensitive_json_keys) (key_in key card_keys) (text redacted)
      (secret key value) value inner same

mutual
  unfolding mask_payload exchange

  mask_payload-exchange :
      (secret : String → Value → Value) (payload : Payload)
      → mask_payload (exchange secret payload) ≡ mask_payload payload
  mask_payload-exchange secret end = refl
  mask_payload-exchange secret (entry key value rest) = cc (
    masked-exchanged secret key value (exchange_value secret value)
        (mask_value-exchange secret value),
    mask_payload-exchange secret rest,
  )

  mask_value-exchange :
      (secret : String → Value → Value) (value : Value)
      → mask_value (exchange_value secret value) ≡ mask_value value
  mask_value-exchange secret (scalar s) = refl
  mask_value-exchange secret (text s) = refl
  mask_value-exchange secret (array items) = ap array (mask_items-exchange secret items)
  mask_value-exchange secret (object payload) = ap object (mask_payload-exchange secret payload)

  mask_items-exchange :
      (secret : String → Value → Value) (items : Items)
      → mask_items (exchange_items secret items) ≡ mask_items items
  mask_items-exchange secret nil = refl
  mask_items-exchange secret (item (scalar s) rest) =
      ap (item (scalar s)) (mask_items-exchange secret rest)
  mask_items-exchange secret (item (text s) rest) =
      ap (item (text s)) (mask_items-exchange secret rest)
  mask_items-exchange secret (item (array items) rest) =
      ap (item (array items)) (mask_items-exchange secret rest)
  mask_items-exchange secret (item (object payload) rest) =
      cc (mask_payload-exchange secret payload, mask_items-exchange secret rest)
