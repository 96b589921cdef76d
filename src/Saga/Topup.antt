-- ===== src/Saga/Topup.antt =====
-- The top-up: no switch, and a fresh reference after a collision.
use microfinance_microservic.Common.{
  ◌≡◌, ◌≢◌, ◌⊎◌, false, none, some, Option, String, List, [], ◌∷◌, map, arith,
}
use microfinance_microservic.Common.Int.{ℤ}
use microfinance_microservic.Saga.{topup, top_up_attempts}
use microfinance_microservic.Saga.Interface.{
  Call, TopupRequest, Services, Trace, Result, ok, raised, Response, Status, CallResult, answered,
  rejected, unreachable, is_rrn_collision, Answer, PostStatus, LedgerStatus, posted,
}
use microfinance_microservic.Saga.Verdict.{credit}
use microfinance_microservic.Saga.Order.{Stage, resolving, crediting, stage, fresh, IsPrefix}

-- At most three attempts at the ledger.
abbrev pub topup_script : List Stage
topup_script = resolving ∷ crediting ∷ crediting ∷ crediting ∷ []

-- The ledger answers, or refuses with anything but a collision.
abbrev pub NoCollision : {A : Type 0} → CallResult A → Type 0
NoCollision (answered a) = Unit
NoCollision (rejected status detail) = is_rrn_collision detail ≡ false
NoCollision (unreachable why) = Unit

-- The reference of the last call, and a ledger's status as it is told
abbrev pub last_reference : List Call → Option String
last_reference (Call.top_up rrn account_id amount_cents ∷ []) = some rrn
last_reference (c ∷ rest) = last_reference rest
last_reference [] = none

abbrev pub shown : Option PostStatus → Option LedgerStatus
shown none = none
shown (some status) = some (posted status)

-- A top-up that returns is approved, with the status that the ledger has answered.
abbrev pub Credited : {W : Type 0} → Result Response × Trace W → Type 0
Credited (ok r, t) =
    (r.status ≡ Status.approved)
    × (r.ledger_status ≡ shown (credit t.answers))
    × (r.ledger_status ≢ none)
    × (r.rrn ≡ last_reference t.calls)
    × ((map stage t.calls ≡ resolving ∷ crediting ∷ [])
        ⊎ (map stage t.calls ≡ resolving ∷ crediting ∷ crediting ∷ [])
        ⊎ (map stage t.calls ≡ topup_script))
Credited (raised status cause, t) =
    IsPrefix (map stage t.calls) topup_script × (credit t.answers ≡ none)

module _ {W : Type 0} (s : Services W) where
  -- A top-up asks the ledger three times at most and never the switch. It returns exactly where the ledger
  -- has answered, behind nothing but collisions of references; then it is approved, with the status
  -- of that answer and the reference of that call.
  pub topup-Credited : (body : TopupRequest) (w : W) → Credited (topup s body (fresh w))
  unfolding topup top_up_attempts
  topup-Credited body w = ground arith

  attempts_once :
      (account_id identifier : String) (amount : ℤ) (answers : List Answer) (w : W)
      → ((rrn : String) (v : W) → NoCollision (s.top_up rrn account_id amount v).0)
      → IsPrefix
          (map stage
            (top_up_attempts s 3 account_id amount (record {
              world = w;
              calls = Call.resolve identifier ∷ [];
              answers = answers;
            })).1.calls)
          (resolving ∷ crediting ∷ [])
  unfolding top_up_attempts
  attempts_once account_id identifier amount answers w clear =
      ground (arith, clear (s.new_rrn w).0 (s.new_rrn w).1)

  -- Where the ledger reports no collision of references, a top-up asks it once at most.
  pub topup_once :
      (body : TopupRequest) (w : W)
      → ((rrn account_id : String) (v : W)
          → NoCollision (s.top_up rrn account_id body.amount_cents v).0)
      → IsPrefix (map stage (topup s body (fresh w)).1.calls) (resolving ∷ crediting ∷ [])
  unfolding topup
  topup_once body w clear = grind (
    arith,
    λ (account_id identifier : String) (answers : List Answer) (v : W).
        attempts_once account_id identifier body.amount_cents answers v
          (λ rrn u. clear rrn account_id u),
  )
