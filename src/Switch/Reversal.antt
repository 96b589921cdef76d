-- ===== src/Switch/Reversal.antt =====
-- What a call that times out leaves on the wire.
use microfinance_microservic.Common.{
  ℕ, zero, suc, ◌+◌, ◌%◌, ◌<◌, ◌≡◌, refl, sym, ap, ◌∙◌, true, Option, none, some, List, [], ◌∷◌,
  ◌++◌, length, length-append, append-nil, lt→ltb, Bool-cases, Option-cases, ◌⊎◌, inl, inr, All,
  All-append, arith, replicate,
}
use microfinance_microservic.Iso8583.Bcd.{Bytes, Text}
use microfinance_microservic.Iso8583.Catalog.{field_spec, find_spec, field_specs}
use microfinance_microservic.Iso8583.Fields.{decode_fields, decode_field, decode_as, decode_body}
use microfinance_microservic.Iso8583.Message.{
  Message, in_order, insert, build_message, parse_message,
}
use microfinance_microservic.Iso8583.BcdRoundtrip.{IsDecimal}
use microfinance_microservic.Iso8583.FieldRoundtrip.{FitsField}
use microfinance_microservic.Iso8583.MessageRoundtrip.{message_lem}
use microfinance_microservic.Switch.Framing.{write_framed_message, to_bytes, digits_of}
use microfinance_microservic.Switch.Client.{
  Fields, Client, six_digits, next_stan, frame, send_message, build_original_data_elements,
  build_reversal_fields,
}
use microfinance_microservic.Switch.Correlation.{
  text_eq, find_pending, pop_pending, Manager, Call, returned, timed_out, wait, response_of, popped,
  mti_reversal,
}

-- A number of decimal digits.
abbrev pub IsNumeral : ℕ → Text → Type 0
IsNumeral n s = All IsDecimal s × (length s ≡ n)

six_digits-IsNumeral : (n : ℕ) → IsNumeral 6 (six_digits n)
six_digits-IsNumeral n = (omega arith, refl)

zeros-IsNumeral : (n : ℕ) → IsNumeral n (replicate n 48)
zeros-IsNumeral zero = (tt, refl)
zeros-IsNumeral (suc n) =
    let (digits, size) = zeros-IsNumeral n in ((omega arith, digits), rw size refl)

append-IsNumeral :
    (n m : ℕ) (s t : Text) → IsNumeral n s → IsNumeral m t → IsNumeral (n + m) (s ++ t)
append-IsNumeral n m s t hs ht =
    (All-append IsDecimal s t hs.0 ht.0, omega (arith, length-append s t, hs.1, ht.1))

original-IsNumeral :
    (mti stan : Text)
    → IsNumeral 4 mti
    → IsNumeral 6 stan
    → IsNumeral 42 (build_original_data_elements mti stan)
unfolding build_original_data_elements
original-IsNumeral mti stan hm hs =
    append-IsNumeral 4 38 mti (stan ++ (replicate 10 48 ++ (replicate 11 48 ++ replicate 11 48))) hm
      (append-IsNumeral 6 32 stan (replicate 10 48 ++ (replicate 11 48 ++ replicate 11 48)) hs
        (zeros-IsNumeral 32))

-- A message that goes onto the socket, and what the switch parses of it.
abbrev pub Framed : Text → Fields → Bytes → Type 0
Framed mti fields raw =
    (message : Bytes) × (build_message mti fields ≡ some message)
    × (write_framed_message 2 message ≡ some raw)
    × (parse_message message
        ≡ some ((record { mti = mti; fields = in_order fields }), length message))

abbrev pub parsed_size : Option (Fields × ℕ) → ℕ
parsed_size none = 0
parsed_size (some (fields, n)) = n

reversal_size :
    (stan original : Text) (raw : Bytes) (n : ℕ)
    → decode_fields (11 ∷ 90 ∷ []) raw ≡ some ((11, stan) ∷ (90, original) ∷ [], n)
    → n ≡ 24
unfolding decode_fields field_spec find_spec field_specs decode_field decode_as decode_body
reversal_size stan original raw n h = sym (ap parsed_size h)

pub write_fits :
    (message : Bytes)
    → length message < 65536
    → (raw : Bytes) × (write_framed_message 2 message ≡ some raw)
unfolding write_framed_message to_bytes
write_fits message h =
    (digits_of 2 (length message) ++ message, rw (lt→ltb (length message) 65536 h) refl)

reversal_fits :
    (stan original : Text)
    → IsNumeral 6 stan
    → IsNumeral 42 original
    → All FitsField ((11, stan) ∷ (90, original) ∷ [])
unfolding field_spec find_spec field_specs
reversal_fits stan original hs ho = (hs, (ho, tt))

reversal_order :
    (stan original : Text)
    → in_order ((11, stan) ∷ (90, original) ∷ []) ≡ (11, stan) ∷ (90, original) ∷ []
unfolding in_order insert
reversal_order stan original = refl

-- A reversal of a request always goes onto the wire.
pub reversal_frame :
    (stan mti original : Text)
    → IsNumeral 6 stan
    → IsNumeral 4 mti
    → IsNumeral 6 original
    → (raw : Bytes) × (frame mti_reversal (build_reversal_fields stan mti original) ≡ some raw)
      × Framed mti_reversal (build_reversal_fields stan mti original) raw
unfolding frame build_reversal_fields
reversal_frame stan mti original hs hm ho =
    let elements : Text = build_original_data_elements mti original in
    let (message, made, parsed, body, wrote, read, most) =
      message_lem mti_reversal ((11, stan) ∷ (90, elements) ∷ []) [] (omega arith) refl
        (reversal_fits stan elements hs (original-IsNumeral mti original hm ho))
        (refl, (refl, tt)) in
    let size : length body ≡ 24 =
      reversal_size stan elements (body ++ []) (length body)
        (rw (reversal_order stan elements) at read) in
    let (raw, framed) = write_fits message (omega (arith, most, size)) in
    (raw, rw made framed, (message, made, framed, rw (append-nil message) at parsed))

find_pending-pop_pending :
    (stan : Text) (pending : List (Text × ℕ)) → find_pending stan (pop_pending stan pending) ≡ none
unfolding find_pending pop_pending
find_pending-pop_pending stan [] = refl
find_pending-pop_pending stan ((key, request) ∷ pending) = elim (Bool-cases (text_eq key stan)) [
  | inl e ↦ rw e (find_pending-pop_pending stan pending)
  | inr e ↦ rw (e, e) (find_pending-pop_pending stan pending)
]

abbrev pub sent_by : Bytes → Client → Client
sent_by raw c = record {
  connected = c.connected;
  stan_counter = c.stan_counter;
  sent = c.sent ++ raw ∷ [];
}

pub send_message-frame :
    (mti : Text) (fields : Fields) (raw : Bytes) (c : Client)
    → c.connected ≡ true
    → frame mti fields ≡ some raw
    → send_message mti fields c ≡ some (sent_by raw c)
unfolding send_message
send_message-frame mti fields raw c up framed = rw (up, framed) refl

pub next_stan-IsNumeral : (c : Client) → IsNumeral 6 (next_stan c).0
unfolding next_stan
next_stan-IsNumeral c = six_digits-IsNumeral ((c.stan_counter + 1) % 1000000)

pub next_stan-connected : (c : Client) → (next_stan c).1.connected ≡ c.connected
unfolding next_stan
next_stan-connected c = refl

-- On a connection that is up, the wait of a call for a request with a STAN ends, and with it the
-- request's place in the table. Where a response has arrived it is returned and nothing is sent;
-- where none has, one message goes onto the wire: a reversal under the client's next STAN, which the
-- switch parses as one, with the type and the STAN of the request in its field 90.
pub wait_lem :
    (call : Call) (m : Manager)
    → m.client.connected ≡ true
    → IsNumeral 4 call.mti
    → IsNumeral 6 call.stan
    → (find_pending call.stan (wait call m).1.pending ≡ none)
      × (((message : Message) × (response_of call.request m.responses ≡ some message)
            × (wait call m ≡ (returned message, popped call.stan m.client m)))
          ⊎ ((response_of call.request m.responses ≡ none)
              × (raw : Bytes) × Framed mti_reversal
                  (build_reversal_fields (next_stan m.client).0 call.mti call.stan)
                  raw
              × (wait call m
                  ≡ (timed_out, popped call.stan (sent_by raw (next_stan m.client).1) m))))
unfolding wait
wait_lem call m up hm hs = elim (Option-cases (response_of call.request m.responses)) [
  | inl e ↦
      let (raw, framed, seen) =
        reversal_frame (next_stan m.client).0 call.mti call.stan (next_stan-IsNumeral m.client) hm
          hs in
      let sent =
        send_message-frame mti_reversal
          (build_reversal_fields (next_stan m.client).0 call.mti call.stan) raw
          (next_stan m.client).1 (next_stan-connected m.client ∙ up) framed in
      let result : wait call m
          ≡ (timed_out, popped call.stan (sent_by raw (next_stan m.client).1) m) =
        rw (e, sent) refl in
      (rw result (find_pending-pop_pending call.stan m.pending), inr (e, raw, seen, result))
  | inr found ↦
      let result : wait call m ≡ (returned found.0, popped call.stan m.client m) =
        rw found.1 refl in
      (rw result (find_pending-pop_pending call.stan m.pending), inl (found.0, found.1, result))
]
