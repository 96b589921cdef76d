-- ===== src/Ledger/Tests.antt =====
-- Runs of the ledger at concrete inputs, and the theorems of its modules at those inputs.
use microfinance_microservic.Common.{
  ap, ℕ, ◌≡◌, refl, true, false, none, some, List, [], ◌∷◌, arith, eq_iff, HasEq-text,
  if◌then◌else◌,
}
use microfinance_microservic.Common.Int.{pos, negsuc, ◌+ℤ◌, ◌-ℤ◌, ◌≤ℤ◌}
use microfinance_microservic.Ledger.{
  Posting, record_posting, recorded, already_recorded, assert_solvent, write_posting,
  posting_details, attempted, ensure_system_accounts, create_account, topup, funding_posting,
}
use microfinance_microservic.Ledger.Balances.{
  signed_sum, signed_amount, balance, side_sum, entries_of, is_balanced,
}
use microfinance_microservic.Ledger.Tables.{
  Account, Db, ok, err, Details, rrn_collision, insufficient_funds, account_named, card_numbered,
  transaction_named, insert_account, insert_card, insert_transaction, insert_entry,
}
use microfinance_microservic.Ledger.Outcome.{short, outcome, record_posting-eq-outcome}
use microfinance_microservic.Ledger.Sums.{balance-eq-signed_sum}
use microfinance_microservic.Ledger.Replay.{collision_lem}
use microfinance_microservic.Ledger.Invariant.{IsValid}
use microfinance_microservic.Ledger.Reach.{
  reachable-IsValid, reachable-wallet_nonneg, reachable-is_balanced,
}
use microfinance_microservic.Ledger.Effect.{retry_reports_overdraft, Effect, record_posting-Effect}
use microfinance_microservic.Ledger.Retry.{recorded_once}
use microfinance_microservic.Ledger.Routes.{Request, open_account, top_up, serve_all, start}

abbrev requests : List (ℕ × Request)
requests =
    (1, open_account "acc_a" "u1" "4000000000000001" "wallet" (some "923001234567"))
    ∷ (2, open_account "acc_b" "u2" "4000000000000002" "wallet" none)
    ∷ (3, top_up "rrn001" "acc_a" (pos 100))
    ∷ []

-- Its line opens what a run computes with.
stocked : Db
unfolding record_posting serve_all start write_posting assert_solvent account_named topup
    create_account insert_account ensure_system_accounts insert_card card_numbered
    insert_transaction transaction_named insert_entry ◌-ℤ◌ signed_sum ◌+ℤ◌ signed_amount balance
    side_sum entries_of posting_details short
stocked = serve_all false requests (start 0)

abbrev purchase : Posting
purchase = record {
  rrn = "rrn002";
  debit_account = "acc_a";
  credit_account = "acc_b";
  amount_cents = pos 80;
  kind = "purchase";
}

purchase_stays : (record_posting 5 purchase stocked).0 ≡ ok (recorded (pos 80))
unfolding stocked
purchase_stays = refl

wallet_a : Account
wallet_a = record {
  account_id = "acc_a";
  user_id = "u1";
  msisdn = some "923001234567";
  kind = "wallet";
  created_at = 1;
}

found_a : account_named "acc_a" stocked.accounts ≡ some wallet_a
unfolding stocked wallet_a
found_a = refl

balances :
    (balance "acc_a" stocked ≡ pos 100)
    × (balance "acc_system_funding" stocked ≡ negsuc 99)
    × (balance "acc_b" (record_posting 5 purchase stocked).1 ≡ pos 80)
unfolding stocked
balances = (refl, refl, refl)

-- The second purchase of 80 cents finds 20.
overdraft :
    (record_posting 6 (record purchase { rrn = "rrn003" }) (record_posting 5 purchase stocked).1).0
    ≡ err (insufficient_funds "acc_a" (pos 20) (pos 80))
unfolding stocked
overdraft = refl

stocked-IsValid : IsValid stocked
unfolding stocked
stocked-IsValid = reachable-IsValid false 0 requests

reachable-wallet_nonneg_example : pos 0 ≤ℤ balance "acc_a" (serve_all false requests (start 0))
unfolding stocked wallet_a
reachable-wallet_nonneg_example =
    reachable-wallet_nonneg false 0 requests "acc_a" wallet_a refl refl

reachable-is_balanced_example : is_balanced (serve_all false requests (start 0)) ≡ true
reachable-is_balanced_example = reachable-is_balanced false 0 requests

record_posting-Effect_example : Effect purchase stocked (record_posting 5 purchase stocked)
record_posting-Effect_example = record_posting-Effect 5 purchase stocked

retry_reports_overdraft_example :
    let after = (record_posting 5 purchase stocked).1 in
    record_posting 6 purchase after
    ≡ (err (insufficient_funds "acc_a" (signed_sum "acc_a" after.entries) (pos 80)), after)
unfolding stocked wallet_a
retry_reports_overdraft_example =
    retry_reports_overdraft 5 6 purchase stocked wallet_a (pos 80) stocked-IsValid purchase_stays
      found_a refl (ground (arith, eq_iff "acc_b" "acc_a")) (omega arith)

abbrev later_requests : List (ℕ × Request)
later_requests = (7, top_up "rrn004" "acc_a" (pos 500)) ∷ []

recorded_once_example :
    let after = serve_all false later_requests (record_posting 5 purchase stocked).1 in
    record_posting 8 purchase after ≡ (
      if short purchase after
      then (err (insufficient_funds "acc_a" (signed_sum "acc_a" after.entries) (pos 80)), after)
      else (ok already_recorded, after))
recorded_once_example =
    recorded_once false 5 8 later_requests purchase stocked (pos 80) stocked-IsValid purchase_stays
      (tt, tt)

record_posting-eq-outcome_example : record_posting 5 purchase stocked ≡ outcome 5 purchase stocked
record_posting-eq-outcome_example = record_posting-eq-outcome 5 purchase stocked

balance-eq-signed_sum_run : balance "acc_a" stocked ≡ signed_sum "acc_a" stocked.entries
balance-eq-signed_sum_run = balance-eq-signed_sum "acc_a" stocked

-- Another amount under the RRN of the top-up.
abbrev clash : Posting
clash = funding_posting "acc_b" (pos 7) "rrn001"

collision_lem_run : record_posting 9 clash stocked ≡ (
  err (
      rrn_collision "rrn001"
        (attempted (funding_posting "acc_a" (pos 100) "rrn001"))
        (attempted clash)),
  stocked,
)
unfolding stocked
collision_lem_run =
    collision_lem 9 (funding_posting "acc_a" (pos 100) "rrn001") clash stocked refl refl
      (λ e. cc (ap (λ (d : Details). d.amount_cents) e)) refl
