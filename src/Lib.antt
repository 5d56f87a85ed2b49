-- ===== src/Lib.antt =====
-- OpenID Connect WASI Hub, an OAuth 2.0 and OpenID Connect provider in Rust: its grants, the database
-- they run on, and the rules that decide what a request may do.
--
-- A request reaches a grant of crates/oidc-oidc/src/flows. The grant opens a transaction, reads and
-- writes the tables through the repositories of crates/oidc-repository, asks the token service for
-- tokens, and stores a session. Sessions that descend from one another by rotation form a family.
--
-- Files:
--   Prelude          the natural numbers, integers, texts and lists of the model
--   Error            crates/oidc-core/src/errors.rs; `?` is the bind of Result
--   External         the crates sha2, base64, hex, url and uuid, as operations the model is given
--   Token            crates/oidc-core/src/utils/token.rs and pkce.rs
--   Acr              crates/oidc-core/src/utils/acr.rs
--   Models           crates/oidc-core/src/models: the structs that the grants and endpoints use
--   Db               crates/oidc-repository/src: the tables (Tables), each query as a function on
--                    them (Sessions, Codes, Ciba, Consents, Audit, Rpts, Authorization, Scopes,
--                    Directory), `with_transaction!` (Transaction), and code that keeps what it wrote
--                    before an error (Attempt)
--   Actions          endpoints/required_actions.rs of crates/oidc-oidc/src: the queue of actions that a user must
--                    still take (Store, Pending, Needed), and its order (Order)
--   Flows            crates/oidc-oidc/src/flows: State (what a grant is given), Claims (shared
--                    steps), AuthorizationCode, RefreshToken, DeviceCode, Ciba, ClientCredentials,
--                    Password (Setting, Credentials, SignIn, Tokens), and Lifecycle (sessions under
--                    interleaved steps of all these grants, of revocations, and of other code)
--   Endpoints        crates/oidc-oidc/src: TokenState (endpoints/introspect.rs and revoke.rs),
--                    CibaDecision (the user's answer in endpoints/ciba.rs, and its way to the token
--                    grant), Account (what the answer reads of the account), and Permissions and
--                    UmaTicket (the ticket grant of endpoints/authorization_services.rs)
--   Requests         crates/oidc-core/src/models/response_type.rs
--   Policies         crates/oidc-core/src/models: password_policy.rs (Passwords) and client_policy.rs
--                    (Clients, and Globs for its patterns), authorization_service.rs (Permissions)
--   RateLimit        crates/openid-connect-wasi/src/middleware/rate_limit.rs
--   Examples         the code run on small inputs, and the conditions of the theorems at work
--
-- State: a grant is a function from the tables to its result and the tables after it. A query is a
-- function on a table, in the row order of the list; an UPDATE that names an id changes each row with
-- that id. Each transaction is one step; the two phases of a refresh are two transactions, and
-- Lifecycle interleaves them with those of other requests: of all modelled grants and all revocations,
-- and of code outside the model, which stores a session of a new family or of none, or leaves the
-- sessions alone. Inside a step that can fail after a write,
-- the tables are carried with the error (Attempt), and the transaction around it drops them. A fault of
-- the connection is a result of connect, begin or commit, drawn by each request (Link); a fault inside
-- a query is not modelled, nor are constraint violations. Clock readings, random values and new
-- identifiers are drawn too (Draw). A handler without a transaction commits each statement by itself.
--
-- Numbers: a UUID is a natural number, a time is in seconds (an Instant in nanoseconds), a Duration in
-- seconds is an integer. The counter of RateLimit is a u32 and wraps; no other arithmetic of the
-- modelled code comes near the bounds of its types. Recursion is structural but for the search of a
-- glob pattern, which runs on fuel: each new checkpoint costs at most one pass over the pattern and the
-- value, so (length of value + 2) * (length of pattern + length of value + 1) turns are enough.
--
-- The intervals and lifetimes of CIBA are naturals, which the checks of the database bound from below.
--
-- Given to the model as operations that may fail: the token service and its verification of access
-- tokens, the claim sources, encryption of ID tokens and decryption, the reading of JSON, LOWER of
-- the database, SHA-256, base64, hex and URL parsing, Argon2, external directories, the second
-- factor, the rows of the query for effective roles, the workflows that an audit event starts, and
-- the delivery of CIBA pings.
--
-- Not modelled: HTTP and JSON, the authorization endpoint, client authentication, the start of a
-- CIBA request, the handlers of the required actions, the registration of protected resources and
-- the creation of permission tickets, DPoP, API keys, the JWT service, SAML, LDAP and social login,
-- the administration API. Lifecycle has no step that removes sessions: the clean-up of expired rows and
-- the import of a realm are left out of it.
pub mod Prelude
pub mod Error
pub mod External
pub mod Token
pub mod Models
pub mod Db
pub mod Acr
pub mod Policies
pub mod Requests
pub mod Actions
pub mod RateLimit
pub mod Flows
pub mod Endpoints
pub mod Examples
