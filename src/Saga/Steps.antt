-- ===== src/Saga/Steps.antt =====
-- services/transaction-service/app/main.py: the checks of a body, the steps of the saga and the
-- response. A step returns, or raises an HTTPException; either way the calls it made stay made.
use microfinance_microservic.Common.{
  ℕ, String, Bool, true, false, ◌&&◌, Option, none, some, List, [], ◌∷◌, ◌++◌, HasEq-text,
  HasEq-nat, ◌==◌, if◌then◌else◌, leb,
}
use microfinance_microservic.Common.Int.{ℤ, pos, ltb_ℤ, leb_ℤ}
use microfinance_microservic.Common.Text.{append, len}
use microfinance_microservic.Saga.Interface.{
  CallResult, answered, rejected, unreachable, Party, Decision, AuthOutcome, Authorization,
  PostStatus, LedgerStatus, posted, reversed, reconciliation_required, Status, Response,
  PurchaseRequest, TopupRequest, TransferRequest, AuthRequest, LedgerPosting, ReverseRequest, Call,
  Answer, of_resolve, of_balance, of_evaluate, of_authorize, of_post, of_reverse, Cause, message,
  relayed, unavailable, Result, ok, raised, Services, Trace, or_text,
}

within : ℕ → ℕ → String → Bool
within lo hi s = leb lo (len s) && leb (len s) hi

-- The limits of the `Field`s
unfoldable pub valid_purchase : PurchaseRequest → Bool
unfolding within
valid_purchase body =
    within 12 19 body.card_number && within 4 12 body.pin && ltb_ℤ (pos 0) body.amount_cents

unfoldable pub valid_topup : TopupRequest → Bool
unfolding within
valid_topup body = within 12 19 body.card_number && ltb_ℤ (pos 0) body.amount_cents

unfoldable pub valid_transfer : TransferRequest → Bool
unfolding within
valid_transfer body =
    within 12 19 body.sender_card_number
    && within 4 12 body.sender_pin
    && ltb_ℤ (pos 0) body.amount_cents

-- "; ".join(reasons)
unfoldable pub join_reasons : List String → String
join_reasons [] = ""
join_reasons (r ∷ []) = r
join_reasons (r ∷ q ∷ rest) = append r (append "; " (join_reasons (q ∷ rest)))

-- `_respond`
unfoldable pub respond : Authorization → String → LedgerStatus → Response
respond auth rrn (posted status) = record {
  status = Status.approved;
  reason = auth.response_text;
  rrn = some rrn;
  stan = auth.stan;
  authorization_id = auth.authorization_id;
  ledger_status = some (posted status);
  requires_reconciliation = false;
}
respond auth rrn reversed = record {
  status = Status.reversed;
  reason =
      some
        "The payment could not be recorded and the authorization was reversed. No money left your account.";
  rrn = some rrn;
  stan = auth.stan;
  authorization_id = auth.authorization_id;
  ledger_status = some reversed;
  requires_reconciliation = false;
}
respond auth rrn reconciliation_required = record {
  status = Status.unknown;
  reason =
      some
        "The payment is in an uncertain state and is being reconciled. Do not retry; you will be contacted.";
  rrn = some rrn;
  stan = auth.stan;
  authorization_id = auth.authorization_id;
  ledger_status = some reconciliation_required;
  requires_reconciliation = true;
}

-- A response that names no authorization.
abbrev pub early : Status → Option String → Option String → Option String → Bool → Response
early status reason rrn stan reconcile = record {
  status = status;
  reason = reason;
  rrn = rrn;
  stan = stan;
  authorization_id = none;
  ledger_status = none;
  requires_reconciliation = reconcile;
}

abbrev pub insufficient : Response
insufficient =
    early Status.declined (some "Insufficient funds. Top up your wallet and try again.") none none
      false

abbrev pub M : Type 0 → Type 0 → Type 0
M W A = Trace W → Result A × Trace W

infixl 5 ◌>>=◌
abbrev pub ◌>>=◌ : {W A B : Type 0} → M W A → (A → M W B) → M W B
◌>>=◌ m f t = let (r, t') = m t in elim r [ ok a ↦ f a t' | raised n c ↦ (raised n c, t') ]

abbrev pub pure : {W A : Type 0} → A → M W A
pure a t = (ok a, t)

abbrev pub raise : {W A : Type 0} → ℕ → Cause → M W A
raise status cause t = (raised status cause, t)

-- One call of another service, and its answer.
abbrev pub calling :
    {W A : Type 0} → Call → (CallResult A → Answer) → (W → CallResult A × W) → M W (CallResult A)
calling c heard f t =
    let (r, w) = f t.world in
    (ok r, record { world = w; calls = t.calls ++ c ∷ []; answers = t.answers ++ heard r ∷ [] })

module _ {W : Type 0} (s : Services W) where
  unfoldable pub resolved : String → CallResult Party → M W Party
  resolved text (answered party) = pure party
  resolved text (rejected status detail) =
      if status == 404 then raise 404 (message text) else raise status (relayed detail)
  resolved text (unreachable why) = raise 503 (unavailable why)

  -- `_resolve_or_404`
  unfoldable pub resolve_or_404 : String → String → M W Party
  unfolding resolved
  resolve_or_404 identifier text = do
    r ← calling (Call.resolve identifier) of_resolve (s.resolve identifier)
    resolved text r

  unfoldable pub covered : ℤ → CallResult ℤ → Bool
  covered amount_cents (answered balance_cents) = leb_ℤ amount_cents balance_cents
  covered amount_cents _ = true

  -- `_can_afford`, which fails open
  unfoldable pub can_afford : String → ℤ → M W Bool
  unfolding covered
  can_afford account_id amount_cents = do
    r ← calling (Call.balance account_id) of_balance (s.balance account_id)
    pure (covered amount_cents r)

  unfoldable pub decided : CallResult Decision → M W Decision
  decided (answered decision) = pure decision
  decided (rejected status detail) = raise 500 (relayed detail)
  decided (unreachable why) =
      raise 503 (message "Risk evaluation unavailable; transaction refused.")

  -- The call of the risk service: down, the payment is refused; a 4xx is not caught
  unfoldable pub evaluate_risk : String → ℤ → String → M W Decision
  unfolding decided
  evaluate_risk card_number amount_cents entry_mode = do
    r ←
        calling (Call.evaluate card_number amount_cents entry_mode) of_evaluate
          (s.evaluate card_number amount_cents entry_mode)
    decided r

  unfoldable pub generate_rrn : M W String
  generate_rrn t = let (rrn, w) = s.new_rrn t.world in (ok rrn, record t { world = w })

  unfoldable pub authorized : AuthRequest → CallResult Authorization → M W Authorization
  authorized request (answered auth) = pure auth
  authorized request (rejected status detail) = raise status (relayed detail)
  authorized request (unreachable why) = pure (record {
    outcome = AuthOutcome.unknown;
    response_text = some (append "ISO 8583 adapter unreachable: " why);
    authorization_id = none;
    stan = none;
    rrn = some request.rrn;
  })

  -- `_authorize`
  unfoldable pub authorize : AuthRequest → M W Authorization
  unfolding authorized
  authorize request = do
    r ← calling (Call.authorize request) of_authorize (s.authorize request)
    authorized request r

  unfoldable pub acknowledged : CallResult (Unit {0}) → Bool
  acknowledged (answered u) = true
  acknowledged _ = false

  -- `_compensate_with_reversal`
  unfoldable pub compensate_with_reversal : ReverseRequest → M W Bool
  unfolding acknowledged
  compensate_with_reversal request = do
    r ← calling (Call.reverse request) of_reverse (s.reverse request)
    pure (acknowledged r)

  unfoldable pub settled : ReverseRequest → CallResult PostStatus → M W LedgerStatus
  settled request (answered status) = pure (posted status)
  settled request _ = do
    compensated ← compensate_with_reversal request
    pure (if compensated then reversed else reconciliation_required)

  -- `_post_to_ledger`
  unfoldable pub post_to_ledger : LedgerPosting → String → Option String → M W LedgerStatus
  unfolding settled compensate_with_reversal
  post_to_ledger p card_number stan = do
    r ← calling (Call.post p) of_post (s.post p)
    settled
        (record {
          rrn = p.rrn;
          original_stan = or_text stan "000000";
          original_mti = "0200";
          amount_cents = p.amount_cents;
          card_number = card_number;
        })
        r
