-- ===== src/Soap/Roundtrip.antt =====
-- What the two sides of a SOAP call read of what the other has written.
use microfinance_microservic.Common.{
  ◌≡◌, refl, ap, ◌∙◌, String, true, false, Option, none, some, List, [], HasEq-text, ◌≢◌,
}
use microfinance_microservic.Common.Text.{append, AllChars}
use microfinance_microservic.Soap.Tree.{
  Tag, leaf, qn, tag_eq, seen, seen_children, PlainChildren, PlainOption, IsPlain, IsVerbatim, Xml,
  is_name, is_namespace, named_children, text_or, first_with, rstrip, lstrip, strip, keep_before,
}
use microfinance_microservic.Soap.Envelope.{
  Dict, envelope, response_envelope, fault_envelope, Credentials, SoapFault, detail_child,
  build_envelope, build_response, build_fault, parse_request, parse_response, request_of,
  response_of, detail_of, Parsed, body, faulted, Request, Headers, soap_env_ns, correlation,
}
use microfinance_microservic.Soap.Fields.{
  present, Distinct, PlainFields, all_named, named_entries, collect-entries, AllFresh-nil,
  plain_entries,
}
use microfinance_microservic.Soap.Headers.{
  told_headers, plain_security, plain_correlation, named_security, header_lem,
}

named_detail : (detail : Option String) → named_children (detail_child detail) ≡ true
named_detail none = refl
named_detail (some String.[]) = refl
named_detail (some (String.◌∷◌ c s)) = refl

abbrev request_with : String → Dict → Headers → Parsed Request
request_with operation fields headers =
    body (record { operation = operation; fields = fields; headers = headers })

request_same :
    (operation : String) {d e : Dict} {h k : Headers}
    → d ≡ e
    → h ≡ k
    → request_with operation d h ≡ request_with operation e k
request_same operation p q = cc

-- A text that has no white space at its ends, and some character.
abbrev pub IsTrim : String → Type 0
IsTrim s = (strip s ≡ s) × (s ≢ "")

-- The detail of a fault as the other side has it: the element that was sent.
abbrev pub detail_text : Option String → Option String
detail_text none = none
detail_text (some String.[]) = none
detail_text (some (String.◌∷◌ c s)) = some (append "<detail>" (append (String.◌∷◌ c s) "</detail>"))

abbrev pub VerbatimOption : Option String → Type 0
VerbatimOption none = Unit
VerbatimOption (some s) = AllChars IsVerbatim s

verbatim-IsPlain : (s : String) → AllChars IsVerbatim s → IsPlain s
verbatim-IsPlain String.[] h = tt
verbatim-IsPlain (String.◌∷◌ c s) ((low, high, e), hs) = ((low, high), verbatim-IsPlain s hs)

-- White space at the end of a text is that of its last part.
pub rstrip-append : (s t : String) → rstrip t ≡ t → t ≢ "" → rstrip (append s t) ≡ append s t
unfolding rstrip
rstrip-append String.[] t e h = e
rstrip-append (String.◌∷◌ c String.[]) String.[] e h = absurd (h refl)
rstrip-append (String.◌∷◌ c String.[]) (String.◌∷◌ d t) e h = ap (keep_before c) e
rstrip-append (String.◌∷◌ c (String.◌∷◌ d s)) t e h =
    ap (keep_before c) (rstrip-append (String.◌∷◌ d s) t e h)

strip_detail :
    (s : String)
    → strip (append "<detail>" (append s "</detail>")) ≡ append "<detail>" (append s "</detail>")
unfolding strip
strip_detail s = ap lstrip (rstrip-append (append "<detail>" s) "</detail>" refl (λ e. cc))

text_or-seen :
    (other : String) (tag : Tag) (s : String)
    → s ≢ ""
    → text_or other (some (seen (leaf tag s))) ≡ s
text_or-seen other tag String.[] h = absurd (h refl)
text_or-seen other tag (String.◌∷◌ c s) h = refl

strip_told :
    (other : String) (tag : Tag) (s : String)
    → IsTrim s
    → strip (text_or other (some (seen (leaf tag s)))) ≡ s
strip_told other tag s (e, some_text) = ap strip (text_or-seen other tag s some_text) ∙ e

faulted_same :
    {code string : String} {detail : Option String} (code' string' : String)
    (detail' : Option String)
    → code' ≡ code
    → string' ≡ string
    → detail' ≡ detail
    → ◌≡◌ {A = Parsed Dict}
        (faulted (record { code = code'; string = string'; detail = detail' }))
        (faulted (record { code = code; string = string; detail = detail }))
faulted_same code' string' detail' p q r = cc

module _ {Wire : Type 0} (xml : Xml Wire) where
  -- A request is read as it was sent: the operation, the fields that are not None, an empty text as one,
  -- and the correlation id and the user name of the header where they are not empty. The operation and the
  -- field names are names of XML in ASCII, the namespace is one that a prefix can be bound to, the field
  -- names are distinct, and the texts printable.
  pub parse_request-build_envelope :
      (operation namespace : String) (fields : List (String × Option String)) (c : Credentials)
      → is_name operation ≡ true
      → is_namespace namespace ≡ true
      → all_named fields ≡ true
      → Distinct (present fields)
      → PlainFields fields
      → PlainOption c.username
      → PlainOption c.password
      → PlainOption c.correlation_id
      → parse_request xml (build_envelope xml operation fields namespace c)
        ≡ body (record { operation = operation; fields = present fields; headers = told_headers c })
  unfolding parse_request build_envelope
  parse_request-build_envelope operation namespace fields c name space names distinct hf hu hp hi =
      ap (request_of xml) (
        xml.read_back (envelope operation fields namespace c)
          (rw
            (
              named_security namespace c.username c.password c.correlation_id space,
              name,
              space,
              named_entries namespace fields space names,
            )
            refl)
          (
            tt,
            tt,
            (
              (
                tt,
                tt,
                plain_security c.username c.password (correlation namespace c.correlation_id) hu hp
                    (plain_correlation namespace c.correlation_id hi),
              ),
              ((tt, tt, ((tt, tt, plain_entries namespace fields hf), tt)), tt),
            ),
          ))
      ∙ request_same operation
          (collect-entries namespace fields [] distinct (AllFresh-nil (present fields)))
          (header_lem namespace c)

  -- A response is read as it was sent: the fields that are not None. Its element is not a `Fault` of the
  -- envelope, it and the fields have names of XML, its field names are distinct, and its texts printable.
  pub parse_response-build_response :
      (tag namespace : String) (fields : List (String × Option String))
      → is_name tag ≡ true
      → is_namespace namespace ≡ true
      → all_named fields ≡ true
      → tag_eq (qn namespace tag) (qn soap_env_ns "Fault") ≡ false
      → Distinct (present fields)
      → PlainFields fields
      → parse_response xml (build_response xml tag fields namespace) ≡ body (present fields)
  unfolding parse_response build_response
  parse_response-build_response tag namespace fields name space names other distinct hf =
      ap (response_of xml) (
        xml.read_back (response_envelope tag fields namespace)
          (rw (name, space, named_entries namespace fields space names) refl)
          (tt, tt, ((tt, tt, ((tt, tt, plain_entries namespace fields hf), tt)), tt)))
      ∙ rw other
          (ap body (collect-entries namespace fields [] distinct (AllFresh-nil (present fields))))

  plain_detail :
      (detail : Option String) → VerbatimOption detail → PlainChildren (detail_child detail)
  plain_detail none h = tt
  plain_detail (some String.[]) h = tt
  plain_detail (some (String.◌∷◌ c s)) h = ((tt, verbatim-IsPlain (String.◌∷◌ c s) h, tt), tt)

  detail_read :
      (detail : Option String)
      → VerbatimOption detail
      → detail_of xml (first_with (none, "detail") (seen_children (detail_child detail)))
        ≡ detail_text detail
  detail_read none h = refl
  detail_read (some String.[]) h = refl
  detail_read (some (String.◌∷◌ c s)) h =
      ap (λ t. some (strip t)) (xml.unicode_detail (String.◌∷◌ c s) h)
      ∙ ap some (strip_detail (String.◌∷◌ c s))

  -- A fault is read as it was sent, its detail as the element around it. Its code and its text are
  -- printable, have no white space at their ends and are not empty; the detail has no character that XML
  -- escapes.
  pub parse_response-build_fault :
      (f : SoapFault)
      → IsTrim f.code
      → IsTrim f.string
      → IsPlain f.code
      → IsPlain f.string
      → VerbatimOption f.detail
      → parse_response xml (build_fault xml f)
        ≡ faulted (record { code = f.code; string = f.string; detail = detail_text f.detail })
  unfolding parse_response build_fault
  parse_response-build_fault f hc hs pc ps hd =
      ap (response_of xml) (
        xml.read_back (fault_envelope f) (rw (named_detail f.detail) refl) (
          tt,
          tt,
          ((tt, tt, ((tt, tt, ((tt, pc, tt), ((tt, ps, tt), plain_detail f.detail hd))), tt)), tt),
        ))
      ∙ faulted_same _ _ _ (strip_told "unknown" (none, "faultcode") f.code hc)
          (strip_told "no faultstring provided" (none, "faultstring") f.string hs)
          (detail_read f.detail hd)
