-- ===== src/Gateway/Routes.antt =====
-- services/api-gateway/app/main.py: `_claim`, `_release_on_definite_failure` and the three routes
-- that move money. The call of transaction-service is a function on a world `W`, with its log.
use microfinance_microservic.Common.{ℕ, String, ◌&&◌, List, [], ◌∷◌, ◌++◌, if◌then◌else◌, leb, ltb}
use microfinance_microservic.Common.Int.{ℤ}
use microfinance_microservic.Gateway.Store.{
  Store, ClaimOutcome, new, duplicate, mismatch, in_progress, claim, store_response, release,
}

-- What the shared client makes of a call: an answer, a 4xx, or no answer.
pub data CallResult (R : Type 0) : Type 0 where
  answered : R → CallResult R
  rejected : ℕ → String → CallResult R
  unavailable : String → CallResult R

pub record PurchaseRequest (F : Type 0) : Type 0 where
  pub amount : F
  pub card_number : String
  pub pin : String
  pub idempotency_key : String
  pub entry_mode : String

pub record TopupRequest (F : Type 0) : Type 0 where
  pub amount : F
  pub card_number : String
  pub idempotency_key : String

pub record TransferRequest (F : Type 0) : Type 0 where
  pub amount : F
  pub sender_card_number : String
  pub sender_pin : String
  pub recipient_account : String
  pub idempotency_key : String

-- The bodies that go to transaction-service
pub data Call : Type 0 where
  to_purchase : (user_id card_number pin : String) → ℤ → (entry_mode : String) → Call
  to_topup : (user_id card_number : String) → ℤ → Call
  to_transfer : (user_id sender_card_number sender_pin recipient_account : String) → ℤ → Call

-- An HTTPException with its detail
pub data Detail : Type 0 where
  different_body being_processed : Detail
  refused unavailable_because : String → Detail

pub data Reply (R : Type 0) : Type 0 where
  returned : R → Reply R
  raised : ℕ → Detail → Reply R

-- The gateway's store, the world, and the calls made so far.
pub record State (W R : Type 0) : Type 0 where
  pub store : Store R
  pub world : W
  pub calls : List Call

-- `_release_on_definite_failure`
unfoldable pub release_on_definite_failure : {R : Type 0} → String → ℕ → Store R → Store R
unfolding release
release_on_definite_failure key status s =
    if leb 400 status && ltb status 500 then release key s else s

-- The code of the three money routes is the same but for the body that it sends; a body's amount is
-- of a type F of floats, `to_cents` is `round(amount * 100)`, and `hash` is of the body's JSON.
module _ {W R : Type 0} (now : W → ℕ) (send : Call → W → CallResult R × W) where
  -- After the call
  unfoldable pub settled :
      String → Call → Store R → List Call → CallResult R × W → Reply R × State W R
  unfolding release_on_definite_failure store_response
  settled key c s calls (answered r, w) =
      (returned r, record { store = store_response key r s; world = w; calls = calls ++ c ∷ [] })
  settled key c s calls (rejected status detail, w) = (
    raised status (refused detail),
    record { store = release_on_definite_failure key status s; world = w; calls = calls ++ c ∷ [] },
  )
  settled key c s calls (unavailable why, w) = (
    raised 503 (unavailable_because why),
    record { store = s; world = w; calls = calls ++ c ∷ [] },
  )

  -- What a route makes of `_claim`: a cached response, an exception, or the call
  unfoldable pub on_claim :
      String → Call → W → List Call → ClaimOutcome R × Store R → Reply R × State W R
  unfolding settled
  on_claim key c w calls (new, s) = settled key c s calls (send c w)
  on_claim key c w calls (duplicate r, s) =
      (returned r, record { store = s; world = w; calls = calls })
  on_claim key c w calls (mismatch, s) =
      (raised 400 different_body, record { store = s; world = w; calls = calls })
  on_claim key c w calls (in_progress, s) =
      (raised 409 being_processed, record { store = s; world = w; calls = calls })

  unfoldable pub money_route : String → String → Call → State W R → Reply R × State W R
  unfolding on_claim claim
  money_route key request_hash c st =
      on_claim key c st.world st.calls (claim (now st.world) key request_hash st.store)

  -- `purchase`
  unfoldable pub purchase :
      {F : Type 0}
      → (F → ℤ)
      → (PurchaseRequest F → String)
      → String
      → PurchaseRequest F
      → State W R
      → Reply R × State W R
  unfolding money_route
  purchase to_cents hash user_id body st =
      money_route body.idempotency_key (hash body)
        (to_purchase user_id body.card_number body.pin (to_cents body.amount) body.entry_mode) st

  -- `topup`
  unfoldable pub topup :
      {F : Type 0}
      → (F → ℤ)
      → (TopupRequest F → String)
      → String
      → TopupRequest F
      → State W R
      → Reply R × State W R
  unfolding money_route
  topup to_cents hash user_id body st =
      money_route body.idempotency_key (hash body)
        (to_topup user_id body.card_number (to_cents body.amount)) st

  -- `transfer`
  unfoldable pub transfer :
      {F : Type 0}
      → (F → ℤ)
      → (TransferRequest F → String)
      → String
      → TransferRequest F
      → State W R
      → Reply R × State W R
  unfolding money_route
  transfer to_cents hash user_id body st =
      money_route body.idempotency_key (hash body)
        (to_transfer user_id body.sender_card_number body.sender_pin body.recipient_account
          (to_cents body.amount))
        st
