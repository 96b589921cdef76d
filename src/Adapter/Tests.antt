-- ===== src/Adapter/Tests.antt =====
-- A run of the adapter, and an instance of its theorem.
use microfinance_microservic.Common.{ℕ, ◌+◌, none, some, [], ◌∷◌}
use microfinance_microservic.Common.Int.{pos}
use microfinance_microservic.Adapter.{AuthorizeRequest, Gateway, authorize, pin_block}
use microfinance_microservic.Soap.Client.{answer, timed_out}
use microfinance_microservic.Adapter.Settled.{Settled, authorize-Settled}

abbrev body : AuthorizeRequest
body = record {
  card_number = "5555444433332222";
  pin = some "1234";
  amount_cents = pos 5000;
  processing_code = "000000";
  entry_mode = "05";
  rrn = "170000000042";
  currency_code = none;
  credit_account = none;
}

-- A gateway that never answers an authorization, and acknowledges a reversal.
abbrev silent : Gateway ℕ
silent = record {
  authorize = λ r w. (timed_out "no response", w + 30);
  reverse = λ r w. (answer (("responseCode", "00") ∷ []), w + 1);
  encrypt_pin_block = λ pin pan w. (some ("ksn", "block"), w);
}

authorize-Settled_example :
    Settled body
      (some (timed_out "no response"))
      (authorize silent "586" body (record { world = 0; calls = [] }))
unfolding pin_block
authorize-Settled_example = authorize-Settled silent "586" body 0
