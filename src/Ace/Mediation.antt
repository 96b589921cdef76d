-- ===== src/Ace/Mediation.antt =====
-- services/ace-stub/app/mediation.py: SOAP fields as data elements of ISO 8583, and back. The fields of
-- SOAP are texts, those of ISO 8583 lists of code points; `hex_error` is what `bytes.fromhex` says of
-- a text that is none.
use microfinance_microservic.Common.{
  ℕ, ◌-◌, String, Bool, false, ◌||◌, Option, none, some, List, [], ◌∷◌, ◌++◌, nat_eq, ◌==◌,
  HasEq-text, if◌then◌else◌, length, replicate,
}
use microfinance_microservic.Common.Text.{append, codes, string_of}
use microfinance_microservic.Iso8583.Bcd.{Bytes, Text, fromhex}
use microfinance_microservic.Iso8583.Fields.{decimal}
use microfinance_microservic.Iso8583.Message.{Message}
use microfinance_microservic.Ace.Codes.{repr, response_text}
use microfinance_microservic.Soap.Envelope.{Dict, get}
use microfinance_microservic.Switch.Client.{Fields, get_field, mti_network}
use microfinance_microservic.Switch.Correlation.{mti_reversal}
use microfinance_microservic.Switch.Host.{mti_request}

-- A value, or a `MediationError` with its text; the category is always VALIDATION
pub data Mediated (A : Type 0) : Type 0 where
  mapped : A → Mediated A
  refused : String → Mediated A

infixl 5 ◌>>=◌
abbrev pub ◌>>=◌ : {A B : Type 0} → Mediated A → (A → Mediated B) → Mediated B
mapped a >>= f = f a
refused why >>= f = refused why

abbrev pub required : String → Option String → Mediated String
required name (some (String.◌∷◌ c s)) = mapped (String.◌∷◌ c s)
required name _ = refused (append "Required element <" (append name "> is missing or empty"))

-- `_require`
unfoldable pub require : Dict → String → Mediated String
unfolding get
require fields name = required name (get name fields)

-- `fields.get(name) or other`
abbrev pub or_given : String → Option String → String
or_given other none = other
or_given other (some String.[]) = other
or_given other (some (String.◌∷◌ c s)) = String.◌∷◌ c s

-- A field that is set where its element is there and not empty
abbrev pub optional : ℕ → (String → Text) → Option String → Fields
optional de f none = []
optional de f (some String.[]) = []
optional de f (some (String.◌∷◌ c s)) = (de, f (String.◌∷◌ c s)) ∷ []

-- `ksn.rjust(16, "0")`
abbrev pub rjust_16 : String → Text
rjust_16 s = replicate (16 - length (codes s)) 48 ++ codes s

-- f"{n}"
abbrev pub number : ℕ → String
unfolding decimal
number n = string_of (decimal n n)

abbrev pub pin_block_of : (String → String) → String → Option Bytes → Mediated Fields
pin_block_of hex_error s none = refused (append "pinBlockHex is not valid hex: " (hex_error s))
pin_block_of hex_error s (some block) =
    if nat_eq (length block) 8
    then mapped ((52, block) ∷ [])
    else refused (
        append "DE 52 must be exactly 8 bytes; got " (
          append (number (length block))
            (append " from " (append (number (length (codes s))) " hex characters"))))

-- The field 52, of the bytes as code points of latin-1
unfoldable pub pin_block : (String → String) → Option String → Mediated Fields
unfolding fromhex decimal
pin_block hex_error none = mapped []
pin_block hex_error (some String.[]) = mapped []
pin_block hex_error (some (String.◌∷◌ c s)) =
    pin_block_of hex_error (String.◌∷◌ c s) (fromhex (codes (String.◌∷◌ c s)))

unfoldable pub soap_to_iso_authorize : (String → String) → Dict → Mediated (Text × Fields)
unfolding require pin_block get
soap_to_iso_authorize hex_error fields = do
  pan ← require fields "pan"
  processing_code ← require fields "processingCode"
  amount_minor ← require fields "amountMinor"
  rrn ← require fields "rrn"
  block ← pin_block hex_error (get "pinBlockHex" fields)
  mapped (
    mti_request,
    ((2, codes pan)
          ∷ (3, codes processing_code)
          ∷ (4, codes amount_minor)
          ∷ (22, codes (or_given "05" (get "entryMode" fields)))
          ∷ (37, codes rrn)
          ∷ (49, codes (or_given "840" (get "currencyCode" fields)))
          ∷ [])
        ++ (block
            ++ (optional 53 rjust_16 (get "ksn" fields)
                ++ (optional 103 codes (get "accountId2" fields)
                    ++ optional 48 codes (get "additionalData" fields)))),
  )

unfoldable pub soap_to_iso_reverse : Dict → Mediated (Text × Fields)
unfolding require
soap_to_iso_reverse fields = do
  pan ← require fields "pan"
  amount_minor ← require fields "amountMinor"
  rrn ← require fields "rrn"
  mapped (mti_reversal, (2, codes pan) ∷ (4, codes amount_minor) ∷ (37, codes rrn) ∷ [])

abbrev pub network_codes : List String
network_codes = "001" ∷ "002" ∷ "301" ∷ "161" ∷ "201" ∷ "302" ∷ []

abbrev among : String → List String → Bool
among s [] = false
among s (t ∷ ts) = (s == t) || among s ts

unfoldable pub soap_to_iso_network : Dict → Mediated (Text × Fields)
unfolding get repr string_of
soap_to_iso_network fields =
    let network_code = or_given "301" (get "networkCode" fields) in
    if among network_code network_codes
    then mapped (mti_network, (70, codes network_code) ∷ [])
    else refused (
        append "Unrecognised DE 70 network management code: "
          (string_of (repr (codes network_code))))

abbrev pub string_option : Option Text → Option String
string_option none = none
string_option (some s) = some (string_of s)

-- `de.get(n, other)`
abbrev pub string_or : String → Option Text → String
string_or other none = other
string_or other (some s) = string_of s

unfoldable pub iso_to_soap_authorize : Message → String → List (String × Option String)
unfolding get_field response_text string_of
iso_to_soap_authorize parsed fallback_rrn =
    ("responseCode", some (string_or "" (get_field 39 parsed.fields)))
    ∷ ("responseText", some (response_text (get_field 39 parsed.fields)))
    ∷ ("authId", string_option (get_field 38 parsed.fields))
    ∷ ("stan", some (string_or "000000" (get_field 11 parsed.fields)))
    ∷ ("rrn", some (string_or fallback_rrn (get_field 37 parsed.fields)))
    ∷ ("mti", some (string_of parsed.mti))
    ∷ []

unfoldable pub iso_to_soap_reverse : Message → List (String × Option String)
unfolding get_field response_text string_of
iso_to_soap_reverse parsed =
    ("responseCode", some (string_or "" (get_field 39 parsed.fields)))
    ∷ ("responseText", some (response_text (get_field 39 parsed.fields)))
    ∷ ("stan", some (string_or "000000" (get_field 11 parsed.fields)))
    ∷ []

unfoldable pub iso_to_soap_network : Message → List (String × Option String)
unfolding get_field string_of
iso_to_soap_network parsed =
    ("responseCode", some (string_or "00" (get_field 39 parsed.fields)))
    ∷ ("networkCode", some (string_or "" (get_field 70 parsed.fields)))
    ∷ ("stan", some (string_or "000000" (get_field 11 parsed.fields)))
    ∷ []
