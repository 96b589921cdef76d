-- ===== src/Soap/Tree.antt =====
-- The elements of ElementTree, as libs/mfcommon/mfcommon/soap/envelope.py uses them. An element has a
-- tag, `{namespace}name` or a bare `name` (no name has a brace in it), attributes, a text and children;
-- the text after an element is of no consequence. Serialisation is the record `Xml`.
use Prim.Native.Char.{Char, code}
use microfinance_microservic.Common.{
  ℕ, ◌≤◌, ◌≡◌, String, Bool, false, true, not, ◌&&◌, ◌||◌, Option, none, some, List, [], ◌∷◌, leb,
  nat_eq, ◌==◌, HasEq-text, option_eq, if◌then◌else◌,
}
use microfinance_microservic.Common.Text.{append, AllChars}

abbrev pub Tag : Type 0
Tag = Option String × String

mutual
  pub data Element : Type 0 where
    element : Tag → List (Tag × String) → Option String → Children → Element

  pub data Children : Type 0 where
    nil : Children
    child : Element → Children → Children

abbrev pub leaf : Tag → String → Element
leaf tag s = element tag [] (some s) nil

abbrev pub node : Tag → Children → Element
node tag children = element tag [] none children

-- `_qn`
abbrev pub qn : String → String → Tag
qn namespace tag = (some namespace, tag)

abbrev pub tag_eq : Tag → Tag → Bool
tag_eq (namespace, tag) (other, name) = option_eq namespace other && tag == name

abbrev pub tag_of : Element → Tag
tag_of (element tag attributes s children) = tag

-- `tag.split("}", 1)[-1]`
abbrev pub local_name : Element → String
local_name e = (tag_of e).1

abbrev pub children_of : Element → Children
children_of (element tag attributes s children) = children

abbrev pub or_empty : Option String → String
or_empty none = ""
or_empty (some s) = s

-- `child.text if child.text is not None else ""`
abbrev pub text_of : Element → String
text_of (element tag attributes s children) = or_empty s

-- `findtext`, and `find`, which looks among the children
abbrev pub first_with : Tag → Children → Option Element
first_with tag nil = none
first_with tag (child e rest) =
    let later = first_with tag rest in if tag_eq (tag_of e) tag then some e else later

abbrev pub find_child : Tag → Element → Option Element
find_child tag e = first_with tag (children_of e)

-- An empty text is read as none.
abbrev pub seen_text : Option String → Option String
seen_text none = none
seen_text (some String.[]) = none
seen_text (some (String.◌∷◌ c s)) = some (String.◌∷◌ c s)

-- An element as it is read again
abbrev mutual
  pub seen : Element → Element
  seen (element tag attributes s children) =
      element tag attributes (seen_text s) (seen_children children)

  pub seen_children : Children → Children
  seen_children nil = nil
  seen_children (child e rest) = child (seen e) (seen_children rest)

-- A printable character of ASCII, which XML can hold and gives back as it is
abbrev pub IsPrintable : Char → Type 0
IsPrintable c = (32 ≤ code c) × (code c ≤ 126)

abbrev pub IsPlain : String → Type 0
IsPlain s = AllChars IsPrintable s

abbrev pub PlainOption : Option String → Type 0
PlainOption none = Unit
PlainOption (some s) = IsPlain s

abbrev pub PlainAttributes : List (Tag × String) → Type 0
PlainAttributes [] = Unit
PlainAttributes ((tag, s) ∷ attributes) = IsPlain s × PlainAttributes attributes

abbrev mutual
  pub PlainElement : Element → Type 0
  PlainElement (element tag attributes s children) =
      PlainAttributes attributes × PlainOption s × PlainChildren children

  pub PlainChildren : Children → Type 0
  PlainChildren nil = Unit
  PlainChildren (child e rest) = PlainElement e × PlainChildren rest

-- A letter of ASCII or an underscore, and what may follow it in a name
abbrev is_start : ℕ → Bool
is_start n = (leb 65 n && leb n 90) || ((leb 97 n && leb n 122) || nat_eq n 95)

abbrev is_later : ℕ → Bool
is_later n = is_start n || ((leb 48 n && leb n 57) || (nat_eq n 45 || nat_eq n 46))

abbrev all_later : String → Bool
all_later String.[] = true
all_later (String.◌∷◌ c s) = is_later (code c) && all_later s

-- A name of XML in ASCII, without a prefix
abbrev pub is_name : String → Bool
is_name String.[] = false
is_name (String.◌∷◌ c s) = is_start (code c) && all_later s

-- Printable without braces
abbrev all_unbraced : String → Bool
all_unbraced String.[] = true
all_unbraced (String.◌∷◌ c s) =
    let n = code c in
    (leb 32 n && leb n 126 && not (nat_eq n 123 || nat_eq n 125)) && all_unbraced s

-- A namespace that a prefix can be bound to: it is not empty, and none of the two that XML reserves
abbrev pub is_namespace : String → Bool
is_namespace s =
    not (s == "")
    && (not (s == "http://www.w3.org/2000/xmlns/")
        && (not (s == "http://www.w3.org/XML/1998/namespace") && all_unbraced s))

abbrev pub is_tag : Tag → Bool
is_tag (none, name) = is_name name
is_tag (some namespace, name) = is_namespace namespace && is_name name

abbrev has_attribute : Tag → List (Tag × String) → Bool
has_attribute tag [] = false
has_attribute tag ((other, s) ∷ attributes) = tag_eq tag other || has_attribute tag attributes

-- Attributes with names, none twice; `xmlns` is no attribute.
abbrev pub named_attributes : List (Tag × String) → Bool
named_attributes [] = true
named_attributes ((tag, s) ∷ attributes) =
    is_tag tag
    && (not (tag_eq tag (none, "xmlns"))
        && (not (has_attribute tag attributes) && named_attributes attributes))

-- The tags and the attributes of an element, and of those in it, have names.
abbrev mutual
  pub is_named : Element → Bool
  is_named (element tag attributes s children) =
      is_tag tag && (named_attributes attributes && named_children children)

  pub named_children : Children → Bool
  named_children nil = true
  named_children (child e rest) = is_named e && named_children rest

-- What `ET.fromstring` makes of bytes: an element, or a `ParseError` with its text
pub data Document : Type 0 where
  document : Element → Document
  malformed : String → Document

-- A character that a text is written with as it is
abbrev pub IsVerbatim : Char → Type 0
IsVerbatim c =
    (32 ≤ code c)
    × (code c ≤ 126)
    × (nat_eq (code c) b'&' || (nat_eq (code c) b'<' || nat_eq (code c) b'>') ≡ false)

-- `xml.etree.ElementTree`: an envelope as bytes behind its declaration, its reading, and an element
-- as a text. What is written of names and printable text is read again, and an element with nothing but a text
-- is that text between its tags.
pub record Xml (Wire : Type 0) : Type 0 where
  pub tostring : Element → Wire
  pub fromstring : Wire → Document
  pub unicode : Element → String
  pub read_back :
      (e : Element)
      → is_named e ≡ true
      → PlainElement e
      → fromstring (tostring e) ≡ document (seen e)
  pub unicode_detail :
      (s : String)
      → AllChars IsVerbatim s
      → unicode (leaf (none, "detail") s) ≡ append "<detail>" (append s "</detail>")

-- `str.strip`, of the white space of Unicode
abbrev pub is_white : Char → Bool
is_white c =
    let n = code c in
    (leb 9 n && leb n 13)
    || ((leb 28 n && leb n 32)
        || (nat_eq n 133
            || (nat_eq n 160
                || (nat_eq n 5760
                    || ((leb 8192 n && leb n 8202)
                        || (nat_eq n 8232
                            || (nat_eq n 8233
                                || (nat_eq n 8239 || (nat_eq n 8287 || nat_eq n 12288)))))))))

unfoldable pub lstrip : String → String
lstrip String.[] = String.[]
lstrip (String.◌∷◌ c s) = let later = lstrip s in if is_white c then later else String.◌∷◌ c s

abbrev pub keep_before : Char → String → String
keep_before c String.[] = if is_white c then String.[] else String.◌∷◌ c String.[]
keep_before c (String.◌∷◌ d s) = String.◌∷◌ c (String.◌∷◌ d s)

unfoldable pub rstrip : String → String
rstrip String.[] = String.[]
rstrip (String.◌∷◌ c s) = keep_before c (rstrip s)

unfoldable pub strip : String → String
unfolding lstrip rstrip
strip s = lstrip (rstrip s)

-- `findtext(tag) or other`
abbrev pub text_or : String → Option Element → String
text_or other none = other
text_or other (some e) = elim (text_of e) [ String.[] ↦ other | String.◌∷◌ c s ↦ String.◌∷◌ c s ]
