-- ===== src/Audit.antt =====
-- libs/mfcommon/mfcommon/observability/audit.py: what is masked before a message is logged.
-- A payload is JSON: an object's entries in their order, each number, Boolean or null as it is
-- spelled.
pub mod Blind
mod Tests
use microfinance_microservic.Common.{
  String, Bool, true, false, Option, none, some, List, [], ◌∷◌, ltb, ◌==◌, HasEq-text, ◌||◌,
  if◌then◌else◌,
}
use microfinance_microservic.Common.Text.{append, len, last_chars}

mutual
  pub data Value : Type 0 where
    scalar : String → Value
    text : String → Value
    array : Items → Value
    object : Payload → Value

  pub data Items : Type 0 where
    nil : Items
    item : Value → Items → Items

  pub data Payload : Type 0 where
    end : Payload
    entry : String → Value → Payload → Payload

abbrev pub key_in : String → List String → Bool
key_in key [] = false
key_in key (k ∷ keys) = (key == k) || key_in key keys

-- SENSITIVE_JSON_KEYS
abbrev pub sensitive_json_keys : List String
sensitive_json_keys =
    "pin" ∷ "sender_pin" ∷ "password" ∷ "new_password" ∷ "pin_block" ∷ "pin_block_hex"
    ∷ "pinBlockHex" ∷ "access_token" ∷ "authorization" ∷ "password_hash" ∷ "ksn" ∷ []

abbrev pub card_keys : List String
card_keys = "card_number" ∷ "sender_card_number" ∷ "pan" ∷ []

abbrev pub redacted : String
redacted = "<redacted>"

-- `f"...{pan[-4:]}"`
abbrev pub last_four : String → String
last_four pan = append "..." (last_chars 4 pan)

abbrev pub given_pan : String → String
given_pan String.[] = "-"
given_pan (String.◌∷◌ c s) =
    if ltb 4 (len (String.◌∷◌ c s)) then last_four (String.◌∷◌ c s) else "..."

unfoldable pub mask_pan : Option String → String
mask_pan none = "-"
mask_pan (some pan) = given_pan pan

unfoldable pub masked_card : Value → Value
unfolding mask_pan
masked_card (scalar s) = scalar s
masked_card (text pan) = text (mask_pan (some pan))
masked_card (array items) = array items
masked_card (object payload) = object payload

-- What an entry is logged as, with what its value is where its key is of no consequence.
unfoldable pub masked : String → Value → Value → Value
unfolding masked_card
masked key value inner =
    if key_in key sensitive_json_keys
    then text redacted
    else (if key_in key card_keys then masked_card value else inner)

unfoldable mutual
  unfolding masked

  pub mask_payload : Payload → Payload
  mask_payload end = end
  mask_payload (entry key value rest) =
      entry key (masked key value (mask_value value)) (mask_payload rest)

  pub mask_value : Value → Value
  mask_value (scalar s) = scalar s
  mask_value (text s) = text s
  mask_value (array items) = array (mask_items items)
  mask_value (object payload) = object (mask_payload payload)

  pub mask_items : Items → Items
  mask_items nil = nil
  mask_items (item (scalar s) rest) = item (scalar s) (mask_items rest)
  mask_items (item (text s) rest) = item (text s) (mask_items rest)
  mask_items (item (array items) rest) = item (array items) (mask_items rest)
  mask_items (item (object payload) rest) = item (object (mask_payload payload)) (mask_items rest)
