-- ===== src/Ace/Chain.antt =====
-- The adapter's gateway as it is deployed: the SOAP client of
-- libs/mfcommon/mfcommon/soap/client.py, over HTTP to the endpoint of services/ace-stub.
use microfinance_microservic.Common.{
  ℕ, suc, ◌-◌, String, Option, none, ◌∷◌, ◌++◌, length, replicate,
}
use microfinance_microservic.Common.Int.{ℤ, pos, negsuc}
use microfinance_microservic.Common.Text.{string_of}
use microfinance_microservic.Iso8583.Bcd.{Text}
use microfinance_microservic.Iso8583.Fields.{decimal}
use microfinance_microservic.Soap.Tree.{Xml}
use microfinance_microservic.Soap.Envelope.{iso8583_ns}
use microfinance_microservic.Soap.Client.{SoapClient, Posted, response, authorize, reverse}
use microfinance_microservic.Switch.Client.{Fields}
use microfinance_microservic.Adapter.{Gateway}
use microfinance_microservic.Ace.Endpoint.{Sent, Texts, soap_endpoint}
use microfinance_microservic.Ace.Mapping.{hex_of, ksn_of}

-- Decimal digits, filled up with zeros
abbrev pub zfill : ℕ → ℕ → Text
zfill width n = let digits : Text = decimal n n in replicate (width - length digits) 48 ++ digits

-- `_amount_to_de4` of services/iso8583-adapter/app/main.py
unfoldable pub amount_to_de4 : ℤ → String
unfolding decimal string_of
amount_to_de4 (pos n) = string_of (zfill 12 n)
amount_to_de4 (negsuc n) = string_of (45 ∷ zfill 11 (suc n))

-- The settings of `Iso8583SoapClient`
pub record Settings (Wire : Type 0) : Type 0 where
  pub endpoint : String
  pub username : Option String
  pub password : Option String
  pub timeout_text : String → String
  pub non_soap_text : ℕ → Wire → String
  pub correlation_id : Option String

module _ {Wire W : Type 0} (xml : Xml Wire) (send_and_wait : Text → Fields → W → Sent × W)
    (texts : Texts Wire) (settings : Settings Wire) where
  abbrev pub posted : (ℕ × Wire) × W → Posted Wire × W
  posted ((status, content), w) = (response status content, w)

  abbrev pub client : SoapClient Wire W
  client = record {
    post = λ action raw w. posted (soap_endpoint xml send_and_wait texts raw w);
    endpoint = settings.endpoint;
    namespace = iso8583_ns;
    username = settings.username;
    password = settings.password;
    timeout_text = settings.timeout_text;
    non_soap_text = settings.non_soap_text;
  }

  -- What services/iso8583-adapter calls, with the arguments that it passes
  unfoldable pub gateway : (String → String → W → Option (String × String) × W) → Gateway W
  unfolding authorize reverse amount_to_de4
  gateway encrypt_pin_block = record {
    authorize = λ r w.
        authorize xml client settings.correlation_id r.pan r.processing_code
          (amount_to_de4 r.amount_minor) r.entry_mode r.rrn r.currency_code (hex_of r.pin_block)
          (ksn_of r.pin_block) none r.account_id_2 w;
    reverse = λ r w.
        reverse xml client settings.correlation_id r.original_mti r.original_stan r.rrn
          (amount_to_de4 r.amount_minor) r.pan w;
    encrypt_pin_block = encrypt_pin_block;
  }
