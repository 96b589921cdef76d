-- ===== src/Switch/Sound.antt =====
-- What holds of every exchange, and what a registration and a message keep of it.
use microfinance_microservic.Common.{
  ℕ, suc, ◌<◌, ◌≡◌, refl, ap, ◌∙◌, Option, none, some, List, [], ◌∷◌, All, arith,
}
use microfinance_microservic.Iso8583.Bcd.{Text}
use microfinance_microservic.Iso8583.Message.{Message}
use microfinance_microservic.Switch.Client.{Client, get_field}
use microfinance_microservic.Switch.Correlation.{
  Manager, pop_pending, absorbed, lookup_pending, Call, popped, registered, begun,
}
use microfinance_microservic.Switch.Tables.{HasStan, find_pending-All, pop_pending-All}
use microfinance_microservic.Switch.Exchange.{Exchange, started, with_manager}

-- What stands in the tables for the request of a call is under its STAN.
abbrev pub OwnEntry : Call → Text × ℕ → Type 0
OwnEntry call (stan, request) = request ≡ call.request → stan ≡ call.stan

abbrev pub OwnResponse : Call → ℕ × Message → Type 0
OwnResponse call (request, message) = request ≡ call.request → HasStan call.stan message

abbrev pub Known : Manager → Call → Type 0
Known m call =
    (call.request < m.requests) × All (OwnEntry call) m.pending × All (OwnResponse call) m.responses

abbrev pub Answered : Call × Message → Type 0
Answered (call, message) = HasStan call.stan message

abbrev pub IsSound : Exchange → Type 0
IsSound e =
    All (λ p. p.1 < e.manager.requests) e.manager.pending
    × All (λ r. r.0 < e.manager.requests) e.manager.responses
    × All (Known e.manager) e.calls
    × All Answered e.answers

-- Lists of calls keep what holds of each, where each of them keeps it.
module _ {A : Type 0} (P Q : A → Type 0) (keep : (a : A) → P a → Q a) where
  pub All_map : (xs : List A) → All P xs → All Q xs
  All_map [] h = tt
  All_map (x ∷ xs) h = (keep x h.0, All_map xs h.1)

pub Known-popped :
    (stan : Text) (c : Client) (m : Manager) (call : Call)
    → Known m call
    → Known (popped stan c m) call
Known-popped stan c m call h = (h.0, pop_pending-All (OwnEntry call) stan m.pending h.1, h.2)

pub popped-IsSound :
    (stan : Text) (c : Client) (e : Exchange)
    → IsSound e
    → IsSound (with_manager (popped stan c e.manager) e)
popped-IsSound stan c e h = (
  pop_pending-All (λ p. p.1 < e.manager.requests) stan e.manager.pending h.0,
  h.1,
  All_map (Known e.manager) (Known (popped stan c e.manager)) (Known-popped stan c e.manager)
      e.calls h.2,
  h.3,
)

pub absorbed-IsSound :
    (parsed : Message) (e : Exchange) (stan : Option Text) (found : Option ℕ)
    → get_field 11 parsed.fields ≡ stan
    → lookup_pending stan e.manager.pending ≡ found
    → IsSound e
    → IsSound (with_manager (absorbed parsed e.manager found) e)
absorbed-IsSound parsed e stan none field entry h = h
absorbed-IsSound parsed e none (some request) field entry h = cc
absorbed-IsSound parsed e (some stan) (some request) field entry h = (
  h.0,
  (find_pending-All (λ p. p.1 < e.manager.requests) stan request e.manager.pending h.0 entry, h.1),
  All_map (Known e.manager) (Known (absorbed parsed e.manager (some request)))
      (λ call known. (
        known.0,
        known.1,
        (
          (λ same.
              field
              ∙ ap some (
                  find_pending-All (OwnEntry call) stan request e.manager.pending known.1 entry
                    same)),
          known.2,
        ),
      ))
      e.calls h.2,
  h.3,
)

-- A new request, under its STAN.
pub entry_new : (call : Call) (n : ℕ) → call.request < n → (stan : Text) → OwnEntry call (stan, n)
entry_new call n lt stan same = absurd (omega (arith, same, lt))

pub older_entries :
    (call : Call) (pending : List (Text × ℕ))
    → All (λ p. p.1 < call.request) pending
    → All (OwnEntry call) pending
older_entries call [] h = tt
older_entries call ((stan, n) ∷ pending) h =
    ((λ same. absurd (omega (arith, same, h.0))), older_entries call pending h.1)

pub older_responses :
    (call : Call) (responses : List (ℕ × Message))
    → All (λ r. r.0 < call.request) responses
    → All (OwnResponse call) responses
older_responses call [] h = tt
older_responses call ((n, message) ∷ responses) h =
    ((λ same. absurd (omega (arith, same, h.0))), older_responses call responses h.1)

pub Known-registered :
    (stan : Text) (c : Client) (m : Manager) (call : Call)
    → Known m call
    → Known (registered stan c m) call
Known-registered stan c m call h = (
  omega (arith, h.0),
  (entry_new call m.requests h.0 stan, pop_pending-All (OwnEntry call) stan m.pending h.1),
  h.2,
)

pub registered-IsSound :
    (stan : Text) (c : Client) (e : Exchange)
    → IsSound e
    → IsSound (with_manager (registered stan c e.manager) e)
registered-IsSound stan c e h = (
  (
    omega arith,
    All_map (λ p. p.1 < e.manager.requests) (λ p. p.1 < suc e.manager.requests)
        (λ p lt. omega (arith, lt)) (pop_pending stan e.manager.pending)
        (pop_pending-All (λ p. p.1 < e.manager.requests) stan e.manager.pending h.0),
  ),
  All_map (λ r. r.0 < e.manager.requests) (λ r. r.0 < suc e.manager.requests)
      (λ r lt. omega (arith, lt)) e.manager.responses h.1,
  All_map (Known e.manager) (Known (registered stan c e.manager))
      (Known-registered stan c e.manager) e.calls h.2,
  h.3,
)

pub begun-IsSound :
    (mti stan : Text) (c : Client) (sent : Option Client) (e : Exchange)
    → IsSound e
    → IsSound (started e (begun mti stan e.manager.requests (registered stan c e.manager) sent))
begun-IsSound mti stan c none e h =
    popped-IsSound stan c (with_manager (registered stan c e.manager) e)
      (registered-IsSound stan c e h)
begun-IsSound mti stan c (some after) e h =
    let (entries, replies, known, answered) = registered-IsSound stan c e h in
    let call : Call = record { request = e.manager.requests; mti = mti; stan = stan } in
    (
      entries,
      replies,
      (
        (
          omega arith,
          (
            (λ same. refl),
            pop_pending-All (OwnEntry call) stan e.manager.pending
                (older_entries call e.manager.pending h.0),
          ),
          older_responses call e.manager.responses h.1,
        ),
        known,
      ),
      answered,
    )
