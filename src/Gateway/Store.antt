-- ===== src/Gateway/Store.antt =====
-- services/api-gateway/app/idempotency.py: `InMemoryIdempotencyStore`. Each method runs under one
-- lock, so it is one step. Time is the clock's, as a number of seconds.
use microfinance_microservic.Common.{
  ℕ, ◌+◌, String, Option, none, some, List, [], ◌∷◌, HasEq-text, ◌==◌, if◌then◌else◌, ltb,
}

-- A value of `_entries`
pub record Claim (R : Type 0) : Type 0 where
  pub request_hash : String
  pub response : Option R
  pub claimed_at : ℕ

-- An item of `_entries`
pub record Item (R : Type 0) : Type 0 where
  pub key : String
  pub value : Claim R

pub record Store (R : Type 0) : Type 0 where
  pub entries : List (Item R)
  pub ttl : ℕ

pub data ClaimOutcome (R : Type 0) : Type 0 where
  new : ClaimOutcome R
  duplicate : R → ClaimOutcome R
  mismatch : ClaimOutcome R
  in_progress : ClaimOutcome R

module _ {R : Type 0} where
  -- `_entries.get(key)`
  unfoldable pub find : String → List (Item R) → Option (Claim R)
  find key [] = none
  find key (x ∷ rest) = let r = find key rest in if x.key == key then some x.value else r

  -- `_entries[key] = value`
  unfoldable pub put : String → Claim R → List (Item R) → List (Item R)
  put key c [] = record { key = key; value = c } ∷ []
  put key c (x ∷ rest) =
      let others = put key c rest in
      if x.key == key then record { key = key; value = c } ∷ rest else x ∷ others

  -- `_entries.pop(key, None)`
  unfoldable pub pop : String → List (Item R) → List (Item R)
  pop key [] = []
  pop key (x ∷ rest) = let others = pop key rest in if x.key == key then others else x ∷ others

  -- `_prune_expired`
  unfoldable pub live : ℕ → ℕ → List (Item R) → List (Item R)
  live ttl now [] = []
  live ttl now (x ∷ rest) =
      let others = live ttl now rest in
      if ltb (x.value.claimed_at + ttl) now then others else x ∷ others

  unfoldable pub prune_expired : ℕ → Store R → Store R
  unfolding live
  prune_expired now s = record s { entries = live s.ttl now s.entries }

  abbrev pub answer_of : Option R → ClaimOutcome R
  answer_of none = in_progress
  answer_of (some r) = duplicate r

  unfoldable pub claim_found :
      ℕ → String → String → Option (Claim R) → Store R → ClaimOutcome R × Store R
  unfolding put
  claim_found now key request_hash none s = (
    new,
    record s {
      entries =
          put key (record { request_hash = request_hash; response = none; claimed_at = now })
            s.entries;
    },
  )
  claim_found now key request_hash (some c) s =
      if c.request_hash == request_hash then (answer_of c.response, s) else (mismatch, s)

  unfoldable pub claim_in : ℕ → String → String → Store R → ClaimOutcome R × Store R
  unfolding claim_found find
  claim_in now key request_hash s = claim_found now key request_hash (find key s.entries) s

  -- `claim`
  unfoldable pub claim : ℕ → String → String → Store R → ClaimOutcome R × Store R
  unfolding prune_expired claim_in
  claim now key request_hash s = claim_in now key request_hash (prune_expired now s)

  abbrev pub answered : String → R → Option (Claim R) → List (Item R) → List (Item R)
  answered key r none entries = entries
  answered key r (some c) entries = put key (record c { response = some r }) entries

  -- `store_response`
  unfoldable pub store_response : String → R → Store R → Store R
  unfolding find put
  store_response key r s = record s { entries = answered key r (find key s.entries) s.entries }

  -- `release`
  unfoldable pub release : String → Store R → Store R
  unfolding pop
  release key s = record s { entries = pop key s.entries }

  -- `clear_all`
  abbrev pub clear_all : Store R → Store R
  clear_all s = record s { entries = [] }
