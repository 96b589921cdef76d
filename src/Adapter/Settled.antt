-- ===== src/Adapter/Settled.antt =====
-- What an authorization tells its caller, beside the calls of the gateway that it has made.
use microfinance_microservic.Common.{
  ◌≡◌, ◌⊎◌, refl, String, Bool, none, HasEq-text, ◌==◌, true, false, Option, some, List, [], ◌∷◌,
  arith, eq_iff,
}
use microfinance_microservic.Saga.Interface.{AuthOutcome, or_else, or_text}
use microfinance_microservic.Adapter.{
  AuthorizeRequest, AuthorizeResponse, SoapAuthorize, SoapCall, authorizing, reversing, Reply,
  returned, raised, State, Gateway, authorize, on_result, on_fault, sent, pin_block, contains,
  soap_request,
}
use microfinance_microservic.Soap.Envelope.{get}
use microfinance_microservic.Soap.Client.{
  SoapResult, answer, fault, timed_out, unreachable, garbled,
}

-- A call is for the request: its reference, its amount and its card.
abbrev pub IsFor : AuthorizeRequest → SoapCall → Type 0
IsFor body (authorizing r) =
    (r.rrn ≡ body.rrn) × (r.amount_minor ≡ body.amount_cents) × (r.pan ≡ body.card_number)
IsFor body (reversing r) =
    (r.rrn ≡ body.rrn) × (r.amount_minor ≡ body.amount_cents) × (r.pan ≡ body.card_number)

-- One call, for the authorization, or two, the second of them its reversal.
abbrev pub Alone : AuthorizeRequest → List SoapCall → Type 0
Alone body (authorizing r ∷ []) = IsFor body (authorizing r)
Alone body _ = ⊥

abbrev pub Reversed : AuthorizeRequest → List SoapCall → Type 0
Reversed body (authorizing r ∷ reversing q ∷ []) =
    IsFor body (authorizing r) × IsFor body (reversing q)
Reversed body _ = ⊥

-- What the gateway has answered: a response code 00 or another; that the switch has timed out, so that the
-- gateway has reversed; nothing in time; or what is raised.
abbrev pub HasCode : Bool → SoapResult → Type 0
HasCode zeros (answer d) = (or_else (get "responseCode" d) "" == "00") ≡ zeros
HasCode zeros _ = ⊥

abbrev pub IsTimeout : SoapResult → Type 0
IsTimeout (fault f) = contains "SWITCH_TIMEOUT" (or_text f.detail "") ≡ true
IsTimeout _ = ⊥

abbrev pub IsSilent : SoapResult → Type 0
IsSilent (timed_out why) = Unit
IsSilent _ = ⊥

abbrev pub IsRefused : SoapResult → Type 0
IsRefused (fault f) = contains "SWITCH_TIMEOUT" (or_text f.detail "") ≡ false
IsRefused (unreachable why) = Unit
IsRefused (garbled why) = Unit
IsRefused _ = ⊥

abbrev pub Backed :
    AuthorizeRequest → AuthorizeResponse → List SoapCall → SoapResult → AuthOutcome → Type 0
Backed body r calls result AuthOutcome.approved =
    (r.response_code ≡ some "00")
    × (r.reversal_sent ≡ false)
    × Alone body calls
    × HasCode true result
Backed body r calls result AuthOutcome.declined =
    (r.reversal_sent ≡ false) × Alone body calls × HasCode false result
Backed body r calls result AuthOutcome.unknown =
    ((r.reversal_sent ≡ true) × Alone body calls × IsTimeout result)
    ⊎ (Reversed body calls × IsSilent result)

-- What is told, by the gateway's answer, if it was asked
abbrev pub Settled :
    {W : Type 0} → AuthorizeRequest → Option SoapResult → Reply AuthorizeResponse × State W → Type 0
Settled body none (returned r, st) = ⊥
Settled body none (raised status why, st) = (status ≡ 500) × (st.calls ≡ [])
Settled body (some result) (returned r, st) = Backed body r st.calls result r.outcome
Settled body (some result) (raised status why, st) = Alone body st.calls × IsRefused result

module _ {W : Type 0} (g : Gateway W) (default_currency : String) where
  -- The gateway's answer, where a PIN block is made or none is needed
  abbrev pub asked : AuthorizeRequest → Option (Option (String × String)) × W → Option SoapResult
  asked body (none, w) = none
  asked body (some block, w) = some (g.authorize (soap_request g default_currency body block) w).0

  on_result-Settled :
      (body : AuthorizeRequest) (request : SoapAuthorize) (r : SoapResult) (w : W)
      → IsFor body (authorizing request)
      → Settled body (some r) (
          on_result g default_currency body r
            (record { world = w; calls = authorizing request ∷ [] }))
  unfolding on_result on_fault
  on_result-Settled body request (answer r) w h =
      ground (arith, eq_iff (or_else (get "responseCode" r) "") "00")
  on_result-Settled body request (fault f) w h = ground arith
  on_result-Settled body request (timed_out why) w h = ground arith
  on_result-Settled body request (unreachable why) w h = ground arith
  on_result-Settled body request (garbled why) w h = ground arith

  sent-Settled :
      (body : AuthorizeRequest) (o : Option (Option (String × String)) × W)
      → Settled body (asked body o) (sent g default_currency body [] o)
  unfolding sent
  sent-Settled body (none, w) = (refl, refl)
  sent-Settled body (some block, w) =
      let request = soap_request g default_currency body block in
      on_result-Settled body request (g.authorize request w).0 (g.authorize request w).1
        (refl, refl, refl)

  -- Where the HSM raises, an authorization ends with a 500 and no call of the gateway. Else it calls the
  -- gateway to authorize once, for the request's reference, amount and card, and what it tells is by the
  -- answer: approved on a response code 00, declined on another. An unknown outcome is told where the answer
  -- is the fault of a switch that has timed out, whose sender reverses, or where there was no answer in
  -- time, and then one reversal of the same reference, amount and card has followed. It raises on every
  -- other fault, and where the gateway cannot be reached or read; no reversal goes before that.
  pub authorize-Settled :
      (body : AuthorizeRequest) (w : W)
      → Settled body
          (asked body (pin_block g default_currency body body.pin w))
          (authorize g default_currency body (record { world = w; calls = [] }))
  unfolding authorize
  authorize-Settled body w = sent-Settled body (pin_block g default_currency body body.pin w)
