-- ===== src/Soap/Fields.antt =====
-- The fields of a dictionary, as they are sent and gathered again.
use microfinance_microservic.Common.{
  ◌≡◌, refl, sym, ap, ◌∙◌, String, Bool, true, false, not, ◌&&◌, Option, none, some, List, [], ◌∷◌,
  ◌++◌, append_assoc, append-nil, ◌==◌, HasEq-text, arith,
}
use microfinance_microservic.Soap.Tree.{
  Tag, leaf, qn, text_of, seen, seen_children, PlainChildren, PlainOption, is_name, is_namespace,
  named_children,
}
use microfinance_microservic.Soap.Envelope.{Dict, put, entries, collect}

-- What a dictionary sends, without what is None.
abbrev pub present : List (String × Option String) → Dict
present [] = []
present ((name, none) ∷ fields) = present fields
present ((name, some value) ∷ fields) = (name, value) ∷ present fields

-- A name is not among those of a list, and no name of a list is there twice.
abbrev pub IsFresh : String → Dict → Type 0
IsFresh name [] = Unit
IsFresh name ((k, v) ∷ items) = (k == name ≡ false) × IsFresh name items

abbrev pub Distinct : Dict → Type 0
Distinct [] = Unit
Distinct ((name, v) ∷ items) = IsFresh name items × Distinct items

abbrev pub is_fresh : String → Dict → Bool
is_fresh name [] = true
is_fresh name ((k, v) ∷ items) = not (k == name) && is_fresh name items

-- The test of `Distinct`
abbrev pub distinct : Dict → Bool
distinct [] = true
distinct ((name, v) ∷ items) = is_fresh name items && distinct items

pub is_fresh-IsFresh : (name : String) (d : Dict) → is_fresh name d ≡ true → IsFresh name d
is_fresh-IsFresh name [] h = tt
is_fresh-IsFresh name ((k, v) ∷ items) h = ground (arith, is_fresh-IsFresh name items)

pub distinct-Distinct : (d : Dict) → distinct d ≡ true → Distinct d
distinct-Distinct [] h = tt
distinct-Distinct ((name, v) ∷ items) h =
    ground (arith, is_fresh-IsFresh name items, distinct-Distinct items)

abbrev pub AllFresh : Dict → Dict → Type 0
AllFresh old [] = Unit
AllFresh old ((name, v) ∷ items) = IsFresh name old × AllFresh old items

both : (a b : Bool) → a && b ≡ true → (a ≡ true) × (b ≡ true)
both true b h = (refl, h)
both false b h = cc

abbrev pub PlainFields : List (String × Option String) → Type 0
PlainFields [] = Unit
PlainFields ((name, value) ∷ fields) = PlainOption value × PlainFields fields

-- The names of a dictionary are names of XML.
abbrev pub all_named : List (String × Option String) → Bool
all_named [] = true
all_named ((name, value) ∷ fields) = is_name name && all_named fields

pub named_entries :
    (namespace : String) (fields : List (String × Option String))
    → is_namespace namespace ≡ true
    → all_named fields ≡ true
    → named_children (entries namespace fields) ≡ true
named_entries namespace [] h hs = refl
named_entries namespace ((name, none) ∷ fields) h hs =
    named_entries namespace fields h (both (is_name name) (all_named fields) hs).1
named_entries namespace ((name, some value) ∷ fields) h hs =
    let (first, later) = both (is_name name) (all_named fields) hs in
    rw (h, first, named_entries namespace fields h later) refl

pub text_of-seen : (tag : Tag) (s : String) → text_of (seen (leaf tag s)) ≡ s
text_of-seen tag String.[] = refl
text_of-seen tag (String.◌∷◌ c s) = refl

pub put-IsFresh : (name v : String) (d : Dict) → IsFresh name d → put name v d ≡ d ++ (name, v) ∷ []
unfolding put
put-IsFresh name v [] h = refl
put-IsFresh name v ((k, w) ∷ items) (h, hs) =
    rw h (ap (λ d. (k, w) ∷ d) (put-IsFresh name v items hs))

pub IsFresh-snoc :
    (name k v : String) (d : Dict)
    → IsFresh name d
    → (k == name ≡ false)
    → IsFresh name (d ++ (k, v) ∷ [])
IsFresh-snoc name k v [] h e = (e, tt)
IsFresh-snoc name k v ((j, w) ∷ items) (h, hs) e = (h, IsFresh-snoc name k v items hs e)

pub swap_test : (k name : String) → k == name ≡ false → name == k ≡ false
swap_test k name h = ground (arith, h, HasEq-text.test_iff k name, HasEq-text.test_iff name k)

pub AllFresh-snoc :
    (old : Dict) (k v : String) (d : Dict)
    → AllFresh old d
    → IsFresh k d
    → AllFresh (old ++ (k, v) ∷ []) d
AllFresh-snoc old k v [] h fresh = tt
AllFresh-snoc old k v ((name, w) ∷ items) (h, hs) (e, fresh) =
    (IsFresh-snoc name k v old h (swap_test name k e), AllFresh-snoc old k v items hs fresh)

-- The loop over the children of an operation gathers what was sent.
pub collect-entries :
    (namespace : String) (fields : List (String × Option String)) (old : Dict)
    → Distinct (present fields)
    → AllFresh old (present fields)
    → collect (seen_children (entries namespace fields)) old ≡ old ++ present fields
collect-entries namespace [] old h fresh = sym (append-nil old)
collect-entries namespace ((name, none) ∷ fields) old h fresh =
    collect-entries namespace fields old h fresh
collect-entries namespace ((name, some value) ∷ fields) old (h, hs) (e, fresh) =
    ap (λ s. collect (seen_children (entries namespace fields)) (put name s old))
      (text_of-seen (qn namespace name) value)
    ∙ ap (collect (seen_children (entries namespace fields))) (put-IsFresh name value old e)
    ∙ collect-entries namespace fields (old ++ (name, value) ∷ []) hs
        (AllFresh-snoc old name value (present fields) fresh h)
    ∙ append_assoc old ((name, value) ∷ []) (present fields)

pub AllFresh-nil : (d : Dict) → AllFresh [] d
AllFresh-nil [] = tt
AllFresh-nil (item ∷ items) = (tt, AllFresh-nil items)

pub plain_entries :
    (namespace : String) (fields : List (String × Option String))
    → PlainFields fields
    → PlainChildren (entries namespace fields)
plain_entries namespace [] h = tt
plain_entries namespace ((name, none) ∷ fields) (h, hs) = plain_entries namespace fields hs
plain_entries namespace ((name, some value) ∷ fields) (h, hs) =
    ((tt, h, tt), plain_entries namespace fields hs)
