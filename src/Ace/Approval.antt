-- ===== src/Ace/Approval.antt =====
-- The approval of the host, as the gateway hands it on and the adapter reports it.
use Prim.Native.Char.{code}
use microfinance_microservic.Common.{Bool-cases, ◌==◌, HasEq-text, inl, inr}
use microfinance_microservic.Common.{
  ◌<◌, ◌≡◌, refl, sym, ap, ◌∙◌, String, false, some, subst, [], ◌∷◌, All, arith,
}
use microfinance_microservic.Common.Text.{codes, string_of, string_of-codes, AllChars}
use microfinance_microservic.Iso8583.Bcd.{Text}
use microfinance_microservic.Iso8583.BcdRoundtrip.{IsDecimal}
use microfinance_microservic.Iso8583.Message.{in_order, insert}
use microfinance_microservic.Saga.Interface.{AuthOutcome, or_text}
use microfinance_microservic.Soap.Tree.{IsPlain}
use microfinance_microservic.Soap.Fields.{PlainFields}
use microfinance_microservic.Switch.Client.{next_stan}
use microfinance_microservic.Switch.Correlation.{Manager}
use microfinance_microservic.Switch.Host.{mti_response}
use microfinance_microservic.Switch.Reversal.{next_stan-IsNumeral}
use microfinance_microservic.Switch.Approved.{approval, message_of}
use microfinance_microservic.Adapter.{AuthorizeResponse, Reply}
use microfinance_microservic.Ace.Mediation.{iso_to_soap_authorize}
use microfinance_microservic.Ace.Endpoint.{answered}
use microfinance_microservic.Ace.Amounts.{IsVisible, string_of-IsPlain}
use microfinance_microservic.Ace.Reported.{reported}

plain_small : (s : String) → IsPlain s → AllChars (λ c. code c < 55296) s
plain_small String.[] h = tt
plain_small (String.◌∷◌ c s) (h, hs) = (omega arith, plain_small s hs)

plain_codes : (s : String) → IsPlain s → string_of (codes s) ≡ s
plain_codes s h = string_of-codes s (plain_small s h)

-- What the adapter reports of an approval of the host
abbrev pub approval_response : String → Text → AuthorizeResponse
approval_response rrn stan = record {
  outcome = AuthOutcome.approved;
  response_code = some "00";
  response_text = some "Approved / completed successfully";
  authorization_id = some "A18008";
  stan = some (string_of stan);
  rrn = rrn;
  reversal_sent = false;
}

digits-IsVisible : (s : Text) → All IsDecimal s → All IsVisible s
digits-IsVisible [] h = tt
digits-IsVisible (c ∷ s) (h, hs) = (omega arith, digits-IsVisible s hs)

stan-IsPlain : (m : Manager) → IsPlain (string_of (next_stan m.client).0)
stan-IsPlain m =
    string_of-IsPlain (next_stan m.client).0
      (digits-IsVisible (next_stan m.client).0 (next_stan-IsNumeral m.client).0)

-- What the mediation makes of an approval
approval_fields :
    (stan : Text) (rrn own : String)
    → iso_to_soap_authorize (message_of mti_response (approval stan (some (codes rrn)))) own
      ≡ ("responseCode", some "00")
        ∷ ("responseText", some "Approved / completed successfully")
        ∷ ("authId", some "A18008")
        ∷ ("stan", some (string_of stan))
        ∷ ("rrn", some (string_of (codes rrn)))
        ∷ ("mti", some "0210")
        ∷ []
unfolding iso_to_soap_authorize in_order insert
approval_fields stan rrn own = refl

or_text_self : (s : String) → or_text (some s) s ≡ s
or_text_self s = elim (Bool-cases (s == "")) [ inl e ↦ rw e refl | inr e ↦ rw e refl ]

pub reported-approval :
    (seconds : String) (stan : Text) (rrn : String)
    → IsPlain rrn
    → reported seconds rrn (answered (message_of mti_response (approval stan (some (codes rrn)))))
      ≡ Reply.returned (approval_response rrn stan)
unfolding iso_to_soap_authorize in_order insert
reported-approval seconds stan rrn h =
    ap (λ r. Reply.returned (approval_response r stan))
      (ap (λ s. or_text (some s) rrn) (plain_codes rrn h) ∙ or_text_self rrn)

pub approval_told :
    (m : Manager) (rrn own : String)
    → IsPlain rrn
    → PlainFields (
        iso_to_soap_authorize
          (message_of mti_response (approval (next_stan m.client).0 (some (codes rrn))))
          own)
approval_told m rrn own h =
    subst PlainFields (sym (approval_fields (next_stan m.client).0 rrn own)) (
      omega arith,
      (
        omega arith,
        (
          omega arith,
          (stan-IsPlain m, (subst IsPlain (sym (plain_codes rrn h)) h, (omega arith, tt))),
        ),
      ),
    )
