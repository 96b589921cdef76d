-- ===== src/Ace/Codes.antt =====
-- Texts of the answers of services/ace-stub/app/mediation.py: the meanings of response codes, of
-- libs/mfcommon/mfcommon/iso8583/parser.py, and the `repr` of Python for texts of latin-1.
use microfinance_microservic.Common.{
  ℕ, ◌+◌, ◌/◌, ◌%◌, String, Bool, false, ◌&&◌, ◌||◌, not, Option, none, some, [], ◌∷◌, ◌++◌, ltb,
  leb, nat_eq, HasEq-text, if◌then◌else◌,
}
use microfinance_microservic.Common.Text.{append, string_of}
use microfinance_microservic.Iso8583.Bcd.{Text}
use microfinance_microservic.Soap.Envelope.{Dict, get}

abbrev hex_small : ℕ → ℕ
hex_small v = if ltb v 10 then 48 + v else 87 + v

-- A character as `repr` writes it, between these quotes
abbrev pub repr_char : ℕ → ℕ → Text
repr_char quote n =
    if nat_eq n quote || nat_eq n 92
    then 92 ∷ n ∷ []
    else if nat_eq n 9
    then 92 ∷ b't' ∷ []
    else if nat_eq n 10
    then 92 ∷ b'n' ∷ []
    else if nat_eq n 13
    then 92 ∷ b'r' ∷ []
    else if ltb n 32 || ((leb 127 n && leb n 160) || nat_eq n 173)
    then 92 ∷ b'x' ∷ hex_small (n / 16) ∷ hex_small (n % 16) ∷ []
    else n ∷ []

abbrev pub has_char : ℕ → Text → Bool
has_char c [] = false
has_char c (d ∷ s) = nat_eq c d || has_char c s

abbrev pub repr_chars : ℕ → Text → Text
repr_chars quote [] = []
repr_chars quote (n ∷ s) = repr_char quote n ++ repr_chars quote s

-- `repr` of a text of latin-1
unfoldable pub repr : Text → Text
repr s =
    let quote : ℕ = if has_char 39 s && not (has_char 34 s) then 34 else 39 in
    quote ∷ repr_chars quote s ++ quote ∷ []

-- DE39_RESPONSE_CODES of libs/mfcommon/mfcommon/iso8583/parser.py
abbrev pub de39_response_codes : Dict
de39_response_codes =
    ("00", "Approved / completed successfully")
    ∷ ("01", "Refer to card issuer")
    ∷ ("02", "Refer to card issuer, special condition")
    ∷ ("03", "Invalid merchant")
    ∷ ("04", "Pick up card")
    ∷ ("05", "Do not honor")
    ∷ ("06", "Error")
    ∷ ("07", "Pick up card, special condition")
    ∷ ("08", "Honor with identification")
    ∷ ("09", "Request in progress")
    ∷ ("10", "Approved for partial amount")
    ∷ ("12", "Invalid transaction")
    ∷ ("13", "Invalid amount")
    ∷ ("14", "Invalid card number")
    ∷ ("15", "No such issuer")
    ∷ ("17", "Customer cancellation")
    ∷ ("19", "Re-enter transaction")
    ∷ ("20", "Invalid response")
    ∷ ("21", "No action taken")
    ∷ ("25", "Unable to locate record")
    ∷ ("30", "Format error")
    ∷ ("31", "Bank not supported by switch")
    ∷ ("33", "Expired card, pick up")
    ∷ ("34", "Suspected fraud, pick up")
    ∷ ("38", "PIN tries exceeded, pick up")
    ∷ ("39", "No credit account")
    ∷ ("41", "Lost card, pick up")
    ∷ ("43", "Stolen card, pick up")
    ∷ ("51", "Insufficient funds")
    ∷ ("52", "No checking account")
    ∷ ("53", "No savings account")
    ∷ ("54", "Expired card")
    ∷ ("55", "Incorrect PIN")
    ∷ ("56", "No card record")
    ∷ ("57", "Transaction not permitted to cardholder")
    ∷ ("58", "Transaction not permitted to terminal")
    ∷ ("59", "Suspected fraud")
    ∷ ("61", "Exceeds withdrawal amount limit")
    ∷ ("62", "Restricted card")
    ∷ ("63", "Security violation")
    ∷ ("65", "Exceeds withdrawal frequency limit")
    ∷ ("68", "Response received too late")
    ∷ ("75", "PIN tries exceeded")
    ∷ ("76", "Unable to locate previous message")
    ∷ ("77", "Original amount incorrect")
    ∷ ("78", "No account")
    ∷ ("80", "Invalid date")
    ∷ ("81", "Cryptographic error in PIN")
    ∷ ("82", "Negative CVV")
    ∷ ("83", "Cannot verify PIN")
    ∷ ("85", "No reason to decline")
    ∷ ("91", "Issuer or switch inoperative")
    ∷ ("92", "Financial institution not found for routing")
    ∷ ("93", "Transaction cannot be completed, violation of law")
    ∷ ("94", "Duplicate transmission")
    ∷ ("96", "System malfunction")
    ∷ []

abbrev or_unmapped : Text → Option String → String
or_unmapped de39 none = append "Unmapped response code " (string_of (repr de39))
or_unmapped de39 (some meaning) = meaning

abbrev or_nothing : Option Text → Text
or_nothing none = []
or_nothing (some s) = s

-- `DE39_RESPONSE_CODES.get(code, …)` of the code, which is empty where the field 39 is not there
unfoldable pub response_text : Option Text → String
unfolding get repr string_of
response_text de39 =
    or_unmapped (or_nothing de39) (get (string_of (or_nothing de39)) de39_response_codes)
