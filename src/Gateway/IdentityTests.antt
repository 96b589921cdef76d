-- ===== src/Gateway/IdentityTests.antt =====
-- An instance of the theorem on registrations, with a ledger that refuses the account and a compensation
-- that fails.
use microfinance_microservic.Common.{ℕ, String, []}
use microfinance_microservic.Iso8583.Bcd.{Text}
use microfinance_microservic.Gateway.Register.{Called, rejected, RegisterRequest, AccountBody}
use microfinance_microservic.Gateway.AllOrNothing.{Platform}

abbrev card_taken : AccountBody → ℕ → Called String × ℕ
card_taken body n = (rejected 409, n)

abbrev bilal : RegisterRequest
bilal = record {
  full_name = "Bilal";
  msisdn = "0301-7654321";
  bind_card_number = "4111111111111111";
  password = "battery staple";
}

abbrev nobody : Platform Text ℕ
nobody = record { users = []; ledger = 0 }
