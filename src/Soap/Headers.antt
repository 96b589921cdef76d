-- ===== src/Soap/Headers.antt =====
-- The header of an envelope: its texts and names, and what the other side is told.
use microfinance_microservic.Common.{◌≡◌, refl, String, true, Option, none, some, HasEq-text, arith}
use microfinance_microservic.Soap.Tree.{
  Children, seen_text, seen_children, PlainElement, PlainChildren, PlainOption, IsPlain,
  is_namespace, named_children,
}
use microfinance_microservic.Soap.Envelope.{
  Credentials, iter_children, no_headers, Headers, or_keep, password_element, security, correlation,
}

-- What a header tells of an optional value: an empty one is not told.
abbrev pub told : Option String → Option String
told o = or_keep o none

or_keep-seen : (o : Option String) → or_keep (seen_text o) none ≡ told o
or_keep-seen none = refl
or_keep-seen (some String.[]) = refl
or_keep-seen (some (String.◌∷◌ c s)) = refl

-- The headers that the other side is told.
abbrev pub told_headers : Credentials → Headers
told_headers c = record { correlation_id = told c.correlation_id; username = told c.username }

uri-IsPlain :
    IsPlain
      "http://docs.oasis-open.org/wss/2004/01/oasis-200401-wss-username-token-profile-1.0#PasswordText"
uri-IsPlain = omega arith

plain_password :
    (password : Option String) → PlainOption password → PlainElement (password_element password)
plain_password none h = ((uri-IsPlain, tt), tt, tt)
plain_password (some password) h = ((uri-IsPlain, tt), h, tt)

pub plain_correlation :
    (namespace : String) (id : Option String)
    → PlainOption id
    → PlainChildren (correlation namespace id)
plain_correlation namespace none h = tt
plain_correlation namespace (some id) h = ((tt, h, tt), tt)

pub plain_security :
    (username password : Option String) (rest : Children)
    → PlainOption username
    → PlainOption password
    → PlainChildren rest
    → PlainChildren (security username password rest)
plain_security none password rest hu hp hr = hr
plain_security (some user) password rest hu hp hr =
    (((omega arith, tt), tt, ((tt, tt, ((tt, hu, tt), (plain_password password hp, tt))), tt)), hr)

pub named_security :
    (namespace : String) (username password id : Option String)
    → is_namespace namespace ≡ true
    → named_children (security username password (correlation namespace id)) ≡ true
named_security namespace none password none h = refl
named_security namespace (some user) password none h = refl
named_security namespace none password (some id) h = rw h refl
named_security namespace (some user) password (some id) h = rw h refl

header_told :
    (namespace : String) (username password id : Option String)
    → iter_children
        (seen_children (security username password (correlation namespace id)))
        no_headers
      ≡ record { correlation_id = told id; username = told username }
header_told namespace none password none = refl
header_told namespace none password (some String.[]) = refl
header_told namespace none password (some (String.◌∷◌ c s)) = refl
header_told namespace (some String.[]) password none = refl
header_told namespace (some String.[]) password (some String.[]) = refl
header_told namespace (some String.[]) password (some (String.◌∷◌ c s)) = refl
header_told namespace (some (String.◌∷◌ d u)) password none = refl
header_told namespace (some (String.◌∷◌ d u)) password (some String.[]) = refl
header_told namespace (some (String.◌∷◌ d u)) password (some (String.◌∷◌ c s)) = refl

pub header_lem :
    (namespace : String) (c : Credentials)
    → iter_children
        (seen_children (security c.username c.password (correlation namespace c.correlation_id)))
        no_headers
      ≡ told_headers c
header_lem namespace c = header_told namespace c.username c.password c.correlation_id
