-- ===== src/Soap/Envelope.antt =====
-- libs/mfcommon/mfcommon/soap/envelope.py: SOAP 1.1 envelopes. A dictionary is a list of its items, in
-- the order in which its keys were first set; what a function raises is an answer of its own.
use microfinance_microservic.Common.{
  String, Option, none, some, List, [], ◌∷◌, ◌==◌, HasEq-text, if◌then◌else◌,
}
use microfinance_microservic.Soap.Tree.{
  Tag, Element, element, Children, nil, child, leaf, node, qn, tag_eq, tag_of, local_name, or_empty,
  children_of, text_of, find_child, Document, document, malformed, Xml, strip, text_or,
}

abbrev pub soap_env_ns : String
soap_env_ns = "http://schemas.xmlsoap.org/soap/envelope/"

abbrev pub wsse_ns : String
wsse_ns = "http://docs.oasis-open.org/wss/2004/01/oasis-200401-wss-wssecurity-secext-1.0.xsd"

abbrev pub password_text_type : String
password_text_type =
    "http://docs.oasis-open.org/wss/2004/01/oasis-200401-wss-username-token-profile-1.0#PasswordText"

abbrev pub iso8583_ns : String
iso8583_ns = "urn:microfinance:iso8583:v1"

abbrev pub Dict : Type 0
Dict = List (String × String)

-- `d[key] = value`
unfoldable pub put : String → String → Dict → Dict
put key value [] = (key, value) ∷ []
put key value ((k, v) ∷ items) =
    let later = put key value items in if k == key then (k, value) ∷ items else (k, v) ∷ later

-- `d.get(key)`
unfoldable pub get : String → Dict → Option String
get key [] = none
get key ((k, v) ∷ items) = let later = get key items in if k == key then some v else later

-- The entries of a dictionary of which None is left out
abbrev pub entries : String → List (String × Option String) → Children
entries namespace [] = nil
entries namespace ((name, none) ∷ fields) = entries namespace fields
entries namespace ((name, some value) ∷ fields) =
    child (leaf (qn namespace name) value) (entries namespace fields)

-- What the keyword arguments of `build_envelope` put into the header
pub record Credentials : Type 0 where
  pub username : Option String
  pub password : Option String
  pub correlation_id : Option String

abbrev pub correlation : String → Option String → Children
correlation namespace none = nil
correlation namespace (some id) = child (leaf (qn namespace "CorrelationId") id) nil

abbrev pub password_element : Option String → Element
password_element password =
    element (qn wsse_ns "Password") ((((none, "Type"), password_text_type)) ∷ [])
      (some (or_empty password)) nil

abbrev pub security : Option String → Option String → Children → Children
security none password rest = rest
security (some username) password rest =
    child
      (element (qn wsse_ns "Security") ((qn soap_env_ns "mustUnderstand", "1") ∷ []) none (
        child
          (node (qn wsse_ns "UsernameToken")
            (child (leaf (qn wsse_ns "Username") username) (child (password_element password) nil)))
          nil))
      rest

unfoldable pub envelope : String → List (String × Option String) → String → Credentials → Element
envelope body_tag fields namespace c = node (qn soap_env_ns "Envelope") (
    child
      (node (qn soap_env_ns "Header")
        (security c.username c.password (correlation namespace c.correlation_id)))
      (child
        (node (qn soap_env_ns "Body")
          (child (node (qn namespace body_tag) (entries namespace fields)) nil))
        nil))

unfoldable pub response_envelope : String → List (String × Option String) → String → Element
response_envelope body_tag fields namespace = node (qn soap_env_ns "Envelope") (
    child
      (node (qn soap_env_ns "Body")
        (child (node (qn namespace body_tag) (entries namespace fields)) nil))
      nil)

pub record SoapFault : Type 0 where
  pub code : String
  pub string : String
  pub detail : Option String

abbrev pub detail_child : Option String → Children
detail_child none = nil
detail_child (some String.[]) = nil
detail_child (some (String.◌∷◌ c s)) = child (leaf (none, "detail") (String.◌∷◌ c s)) nil

unfoldable pub fault_envelope : SoapFault → Element
fault_envelope f = node (qn soap_env_ns "Envelope") (
    child
      (node (qn soap_env_ns "Body") (
        child
          (node (qn soap_env_ns "Fault") (
            child (leaf (none, "faultcode") f.code)
              (child (leaf (none, "faultstring") f.string) (detail_child f.detail))))
          nil))
      nil)

-- A `SoapProtocolError`, by what it complains of
pub data ProtocolError : Type 0 where
  not_well_formed : String → ProtocolError
  not_an_envelope : Tag → ProtocolError
  no_body empty_body : ProtocolError

pub data Parsed (A : Type 0) : Type 0 where
  body : A → Parsed A
  faulted : SoapFault → Parsed A
  protocol_error : ProtocolError → Parsed A

-- The loop over the children of an operation
abbrev pub collect : Children → Dict → Dict
collect nil fields = fields
collect (child e rest) fields = collect rest (put (local_name e) (text_of e) fields)

pub record Headers : Type 0 where
  pub correlation_id : Option String
  pub username : Option String

abbrev pub or_keep : Option String → Option String → Option String
or_keep none old = old
or_keep (some String.[]) old = old
or_keep (some (String.◌∷◌ c s)) old = some (String.◌∷◌ c s)

-- One round of the loop over `header_el.iter()`
abbrev pub header : String → Option String → Headers → Headers
header tag s h = record {
  correlation_id = if tag == "CorrelationId" then or_keep s h.correlation_id else h.correlation_id;
  username = if tag == "Username" then or_keep s h.username else h.username;
}

abbrev mutual
  pub iter : Element → Headers → Headers
  iter (element tag attributes s children) h = iter_children children (header tag.1 s h)

  pub iter_children : Children → Headers → Headers
  iter_children nil h = h
  iter_children (child e rest) h = iter_children rest (iter e h)

abbrev pub no_headers : Headers
no_headers = record { correlation_id = none; username = none }

abbrev pub headers_of : Option Element → Headers
headers_of none = no_headers
headers_of (some e) = iter e no_headers

pub record Request : Type 0 where
  pub operation : String
  pub fields : Dict
  pub headers : Headers

abbrev pub first_request : Headers → Children → Parsed Request
first_request h nil = protocol_error empty_body
first_request h (child e rest) =
    body (record { operation = local_name e; fields = collect (children_of e) []; headers = h })

abbrev pub request_body : Headers → Option Element → Parsed Request
request_body h none = protocol_error no_body
request_body h (some e) = first_request h (children_of e)

abbrev pub first_response : Children → Parsed Dict
first_response nil = protocol_error empty_body
first_response (child e rest) = body (collect (children_of e) [])

module _ {Wire : Type 0} (xml : Xml Wire) where
  unfoldable pub build_envelope :
      String → List (String × Option String) → String → Credentials → Wire
  unfolding envelope
  build_envelope body_tag fields namespace c = xml.tostring (envelope body_tag fields namespace c)

  unfoldable pub build_response : String → List (String × Option String) → String → Wire
  unfolding response_envelope
  build_response body_tag fields namespace =
      xml.tostring (response_envelope body_tag fields namespace)

  unfoldable pub build_fault : SoapFault → Wire
  unfolding fault_envelope
  build_fault f = xml.tostring (fault_envelope f)

  abbrev pub request_of : Document → Parsed Request
  request_of (malformed why) = protocol_error (not_well_formed why)
  request_of (document root) =
      request_body (headers_of (find_child (qn soap_env_ns "Header") root))
        (find_child (qn soap_env_ns "Body") root)

  unfoldable pub parse_request : Wire → Parsed Request
  unfolding put
  parse_request raw = request_of (xml.fromstring raw)

  abbrev pub detail_of : Option Element → Option String
  detail_of none = none
  detail_of (some e) = some (strip (xml.unicode e))

  abbrev pub fault_of : Element → SoapFault
  fault_of e = record {
    code = strip (text_or "unknown" (find_child (none, "faultcode") e));
    string = strip (text_or "no faultstring provided" (find_child (none, "faultstring") e));
    detail = detail_of (find_child (none, "detail") e);
  }

  abbrev pub or_response : Element → Option Element → Parsed Dict
  or_response e (some f) = faulted (fault_of f)
  or_response e none = first_response (children_of e)

  abbrev pub response_body : Option Element → Parsed Dict
  response_body none = protocol_error no_body
  response_body (some e) = or_response e (find_child (qn soap_env_ns "Fault") e)

  abbrev pub response_of : Document → Parsed Dict
  response_of (malformed why) = protocol_error (not_well_formed why)
  response_of (document root) =
      if tag_eq (tag_of root) (qn soap_env_ns "Envelope")
      then response_body (find_child (qn soap_env_ns "Body") root)
      else protocol_error (not_an_envelope (tag_of root))

  unfoldable pub parse_response : Wire → Parsed Dict
  unfolding put strip
  parse_response raw = response_of (xml.fromstring raw)
