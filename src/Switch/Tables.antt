-- ===== src/Switch/Tables.antt =====
-- What holds of every entry of the tables of a `CorrelationManager` holds of what is looked up there.
use microfinance_microservic.Common.{
  ℕ, ◌≡◌, refl, sym, Bool, true, false, ◌&&◌, some, List, [], ◌∷◌, nat_eq, nat_eq_iff, All,
  Bool-cases, inl, inr,
}
use microfinance_microservic.Iso8583.Bcd.{Text}
use microfinance_microservic.Iso8583.Message.{Message}
use microfinance_microservic.Switch.Client.{get_field}
use microfinance_microservic.Switch.Correlation.{text_eq, find_pending, pop_pending, response_of}

both : (a b : Bool) → (a && b) ≡ true → (a ≡ true) × (b ≡ true)
both true b h = (refl, h)
both false b h = cc

text_eq_sound : (s t : Text) → text_eq s t ≡ true → s ≡ t
unfolding text_eq
text_eq_sound [] [] h = refl
text_eq_sound [] (d ∷ t) h = cc
text_eq_sound (c ∷ s) [] h = cc
text_eq_sound (c ∷ s) (d ∷ t) h =
    let (head, tail) = both (nat_eq c d) (text_eq s t) h in
    rw ((nat_eq_iff c d).0 head, text_eq_sound s t tail) refl

some_inj : (x y : ℕ) → some x ≡ some y → x ≡ y
some_inj x y e = cc

message_inj : (x y : Message) → some x ≡ some y → x ≡ y
message_inj x y e = cc

module _ (P : Text × ℕ → Type 0) where
  pub find_pending-All :
      (stan : Text) (request : ℕ) (pending : List (Text × ℕ))
      → All P pending
      → find_pending stan pending ≡ some request
      → P (stan, request)
  unfolding find_pending
  find_pending-All stan request [] h found = cc
  find_pending-All stan request ((key, other) ∷ pending) h found =
      elim (Bool-cases (text_eq key stan)) [
        | inl e ↦
            let same : other ≡ request = some_inj other request (rw e at found) in
            rw (sym same, sym (text_eq_sound key stan e)) h.0
        | inr e ↦ find_pending-All stan request pending h.1 (rw e at found)
      ]

  pub pop_pending-All :
      (stan : Text) (pending : List (Text × ℕ)) → All P pending → All P (pop_pending stan pending)
  unfolding pop_pending
  pop_pending-All stan [] h = tt
  pop_pending-All stan ((key, other) ∷ pending) h = elim (Bool-cases (text_eq key stan)) [
    | inl e ↦ rw e (pop_pending-All stan pending h.1)
    | inr e ↦ rw e (h.0, pop_pending-All stan pending h.1)
  ]

pub response_of-All :
    (P : ℕ × Message → Type 0) (request : ℕ) (message : Message) (responses : List (ℕ × Message))
    → All P responses
    → response_of request responses ≡ some message
    → P (request, message)
unfolding response_of
response_of-All P request message [] h found = cc
response_of-All P request message ((other, m) ∷ responses) h found =
    elim (Bool-cases (nat_eq other request)) [
      | inl e ↦
          let same : m ≡ message = message_inj m message (rw e at found) in
          rw (sym same, sym ((nat_eq_iff other request).0 e)) h.0
      | inr e ↦ response_of-All P request message responses h.1 (rw e at found)
    ]

-- A message that carries a STAN.
abbrev pub HasStan : Text → Message → Type 0
HasStan stan message = get_field 11 message.fields ≡ some stan
