-- ===== src/Ace/Mapping.antt =====
-- The requests of the SOAP client, as the mediation maps them.
use microfinance_microservic.Common.{
  ◌≡◌, ◌≢◌, refl, String, Option, none, some, List, [], ◌∷◌, ◌++◌, length, nat_eq_iff,
}
use microfinance_microservic.Common.Text.{codes}
use microfinance_microservic.Iso8583.Bcd.{Bytes, fromhex}
use microfinance_microservic.Soap.Fields.{present}
use microfinance_microservic.Switch.Client.{Fields}
use microfinance_microservic.Switch.Host.{mti_request}
use microfinance_microservic.Ace.Mediation.{
  mapped, required, or_given, optional, rjust_16, pin_block, soap_to_iso_authorize,
}

pub required-given : (name s : String) → s ≢ "" → required name (some s) ≡ mapped s
required-given name String.[] h = absurd (h refl)
required-given name (String.◌∷◌ c s) h = refl

abbrev pub ksn_of : Option (String × String) → Option String
ksn_of none = none
ksn_of (some (ksn, hex)) = some ksn

abbrev pub hex_of : Option (String × String) → Option String
hex_of none = none
hex_of (some (ksn, hex)) = some hex

-- The fields of `authorizeRequest`, as the client lists them
abbrev pub authorize_fields :
    String
    → String
    → String
    → String
    → String
    → String
    → Option (String × String)
    → Option String
    → List (String × Option String)
authorize_fields pan processing_code amount_minor entry_mode rrn currency_code block account_id_2 =
    ("pan", some pan)
    ∷ ("processingCode", some processing_code)
    ∷ ("amountMinor", some amount_minor)
    ∷ ("entryMode", some entry_mode)
    ∷ ("rrn", some rrn)
    ∷ ("currencyCode", some currency_code)
    ∷ ("pinBlockHex", hex_of block)
    ∷ ("ksn", ksn_of block)
    ∷ ("stan", none)
    ∷ ("accountId2", account_id_2)
    ∷ []

-- A key serial number and a block in hexadecimal digits, or neither; the block is eight bytes.
abbrev pub IsBlock : Option (String × String) → Fields → Type 0
IsBlock none fields = fields ≡ []
IsBlock (some (ksn, hex)) fields =
    (hex ≢ "")
    × (block : Bytes) × (fromhex (codes hex) ≡ some block)
    × (length block ≡ 8)
    × (fields ≡ (52, block) ∷ [])

pin_block_lem :
    (hex_error : String → String) (hex : String) (block : Bytes)
    → hex ≢ ""
    → fromhex (codes hex) ≡ some block
    → length block ≡ 8
    → pin_block hex_error (some hex) ≡ mapped ((52, block) ∷ [])
unfolding pin_block
pin_block_lem hex_error String.[] block h e size = absurd (h refl)
pin_block_lem hex_error (String.◌∷◌ c s) block h e size =
    rw (e, (nat_eq_iff (length block) 8).1 size) refl

-- The data elements that an authorization is sent with
abbrev pub authorize_elements :
    String
    → String
    → String
    → String
    → String
    → String
    → Fields
    → Option String
    → Option String
    → Fields
authorize_elements pan processing_code amount_minor entry_mode rrn currency_code block ksn
      account_id_2 =
    ((2, codes pan)
      ∷ (3, codes processing_code)
      ∷ (4, codes amount_minor)
      ∷ (22, codes (or_given "05" (some entry_mode)))
      ∷ (37, codes rrn)
      ∷ (49, codes (or_given "840" (some currency_code)))
      ∷ [])
    ++ (block ++ (optional 53 rjust_16 ksn ++ (optional 103 codes account_id_2 ++ [])))

module _ (hex_error : String → String)
    (pan processing_code amount_minor entry_mode rrn currency_code : String) (given_pan : pan ≢ "")
    (given_code : processing_code ≢ "") (given_amount : amount_minor ≢ "")
    (given_rrn : rrn ≢ "") where
  -- The mediation maps what the client sends for an authorization.
  pub authorize_mapped :
      (block : Option (String × String)) (account_id_2 : Option String) (fields : Fields)
      → IsBlock block fields
      → soap_to_iso_authorize hex_error (
          present (
            authorize_fields pan processing_code amount_minor entry_mode rrn currency_code block
              account_id_2))
        ≡ mapped (
          mti_request,
          authorize_elements pan processing_code amount_minor entry_mode rrn currency_code fields
              (ksn_of block)
              account_id_2,
        )
  unfolding soap_to_iso_authorize
  authorize_mapped none none fields h =
      rw
        (
          required-given "pan" pan given_pan,
          required-given "processingCode" processing_code given_code,
          required-given "amountMinor" amount_minor given_amount,
          required-given "rrn" rrn given_rrn,
          h,
        )
        refl
  authorize_mapped none (some account) fields h =
      rw
        (
          required-given "pan" pan given_pan,
          required-given "processingCode" processing_code given_code,
          required-given "amountMinor" amount_minor given_amount,
          required-given "rrn" rrn given_rrn,
          h,
        )
        refl
  authorize_mapped (some (ksn, hex)) none fields (given, raw, e, size, h) =
      rw
        (
          required-given "pan" pan given_pan,
          required-given "processingCode" processing_code given_code,
          required-given "amountMinor" amount_minor given_amount,
          required-given "rrn" rrn given_rrn,
          h,
          pin_block_lem hex_error hex raw given e size,
        )
        refl
  authorize_mapped (some (ksn, hex)) (some account) fields (given, raw, e, size, h) =
      rw
        (
          required-given "pan" pan given_pan,
          required-given "processingCode" processing_code given_code,
          required-given "amountMinor" amount_minor given_amount,
          required-given "rrn" rrn given_rrn,
          h,
          pin_block_lem hex_error hex raw given e size,
        )
        refl
