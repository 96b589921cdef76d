-- ===== src/Lib.antt =====
-- The money path of a mobile wallet platform: Python services that keep a double-entry ledger, move
-- money by a saga over HTTP, and speak ISO 8583 to a card switch.
--
-- The parts, and the files here that model them:
--
-- * Ledger.antt and Ledger/: services/ledger-service/app/repository.py, with the transaction of
--   libs/mfcommon/mfcommon/db/dialect.py, and the routes of services/ledger-service/app/main.py.
--   Ledger/Tables is the database: the four tables as lists of rows, with their primary, unique and
--   foreign keys as the errors of an insert, and a transaction that puts the old tables back when its
--   body raises. Ledger/Balances, Ledger/Resolve and Ledger.antt have the methods, under their names
--   (balance, resolve_account, record_posting, topup and so on); Ledger/Routes has the handlers.
--   Ledger/Reach runs any sequence of requests from start-up.
-- * Saga.antt and Saga/: services/transaction-service/app/main.py. Saga/Interface has the requests,
--   the responses and the record of services that the saga calls; Saga/Steps has its steps; Saga.antt
--   has the handlers purchase, transfer and topup. Each call of another service is logged with its
--   answer, so that what the saga does in which order is a statement about a list; Saga/Verdict reads
--   the list of answers on its own.
-- * HttpClient.antt and HttpClient/: libs/mfcommon/mfcommon/http/client.py, the circuit breaker and
--   the retry loop that every call between services goes through. The results that Saga/Interface and
--   Gateway/Routes give a call are the ones that this client has: an answer, a 4xx, or no answer.
-- * Adapter.antt and Adapter/: services/iso8583-adapter/app/main.py, the routes authorize and
--   reverse, which the saga's `authorize` and `reverse` call.
-- * Risk.antt and Risk/: services/risk-service/app/rules.py and velocity.py. VelocityTracker is the
--   interface between them, with the tracker in memory as its implementation.
-- * Gateway.antt and Gateway/: services/api-gateway/app/idempotency.py (Gateway/Store) and the
--   money routes of main.py (Gateway/Routes). Gateway/Once takes the store's methods one after
--   another, in any order, as concurrent requests make them. Gateway/Register is `register`, the saga
--   over auth-service and the ledger; Gateway/AllOrNothing puts the handlers of auth-service behind
--   its calls, each of which may be lost on its way or on its way back. Gateway/Identity has
--   current_user, login, whoami and balance.
-- * Auth.antt and Auth/: services/auth-service/app/main.py, its table of users and the handlers
--   register, login, introspect, delete_user and purge_users, with the interfaces that they use of
--   libs/mfcommon/mfcommon/auth: PasswordHashing, which Auth/Passwords (passwords.py) implements, and
--   TokenIssuing, which Auth/Issuing implements by the tokens of Auth/Tokens (tokens.py).
-- * Iso8583.antt and Iso8583/: libs/mfcommon/mfcommon/iso8583/parser.py: packed decimal
--   (Iso8583/Bcd), the catalog of data elements (Iso8583/Catalog), the loops over the fields
--   (Iso8583/Fields), the bitmap (Iso8583/Bitmap), build_message and parse_message (Iso8583/Message),
--   and the files of messages (Iso8583/Files).
-- * Switch.antt and Switch/: the connection to the switch, of libs/mfcommon/mfcommon/iso8583:
--   framing.py (Switch/Framing), client.py and reversal.py (Switch/Client), correlation.py
--   (Switch/Correlation) and host_simulator.py (Switch/Host). A call of send_and_wait is the two
--   steps `send` and `wait`; Switch/Exchange runs any interleaving of them with incoming messages,
--   heartbeats and reconnections.
-- * Pin.antt and Pin/: libs/mfcommon/mfcommon/security/pin_block.py and mock_hsm.py, the PIN block
--   of ISO 9564 format 0 and what the mock HSM makes of it.
-- * Soap.antt and Soap/: libs/mfcommon/mfcommon/soap: envelope.py (Soap/Envelope, over the elements
--   of Soap/Tree) and client.py (Soap/Client), whose answers the adapter works on.
-- * Ace.antt and Ace/: services/ace-stub: app/mediation.py (Ace/Mediation and Ace/Codes) and the
--   endpoint of app/main.py (Ace/Endpoint). Ace/Chain puts the SOAP client and the endpoint behind
--   the adapter, and Ace/Switched the correlation layer behind the endpoint.
-- * Audit.antt and Audit/: libs/mfcommon/mfcommon/observability/audit.py, mask_pan and
--   mask_payload, what is masked of a payload before it is logged.
-- * Sync.antt and Sync/: services/analytics-sync/app/sync.py, the loop that loads pages of the
--   ledger's export into the warehouse.
-- * Msisdn.antt and Msisdn/: libs/mfcommon/mfcommon/identity/msisdn.py, the phone numbers that the
--   ledger resolves accounts by.
-- * Common.antt and Common/: Boolean tests, lists, texts and integers.
--
-- Money is an integer number of cents without a bound (ℤ of Common/Int), as Python has it; the 64
-- bits of the database's columns are not modelled. Times are natural numbers. The loops run by
-- structural recursion: a retry loop on the attempts that are left, a loop over rows or fields on
-- their list; fuel is that of the decimal digits of a length beyond its prefix, where the number
-- itself is enough (as it is for a number's hexadecimal digits in Pin), and that of a read from a
-- socket, where the number of bytes asked for is, since every round brings one, that of reading a
-- file, where the number of its bytes is, for the same reason, and that of the synchronisation, one
-- more than the rows that the warehouse lacks.
--
-- Parameters of the model: the other services and the generator of references in the saga; httpx with
-- its reading of JSON, the clock and the sleep in the client; the hash of a request's body, the
-- conversion of a float to cents and the call of transaction-service in the gateway; the SOAP client
-- and the HSM in the adapter, of which Ace/Chain fills the first; ElementTree and httpx under the
-- SOAP client; the socket under the framing; the derivation of keys (PBKDF2 and the HMAC of the HSM),
-- the random identifiers and salts and the time in auth-service; base64, json and HMAC under the
-- tokens; the failures of the warehouse; the digits outside ASCII in phone numbers.
--
-- Not modelled: engine failures of the database other than constraint violations, and statements of
-- several transactions interleaved; the stores in Redis; the threads of the TCP client and of the
-- host simulator, whose steps are events, a STAN being drawn in one step; a failure of a socket in
-- the middle of a send; the tables of the warehouse, the masking of ISO 8583 fields, the console,
-- logging and tracing.
pub mod Common
pub mod Ledger
pub mod Msisdn
pub mod Saga
pub mod Adapter
pub mod HttpClient
pub mod Risk
pub mod Gateway
pub mod Iso8583
pub mod Switch
pub mod Auth
pub mod Pin
pub mod Audit
pub mod Soap
pub mod Ace
pub mod Sync
