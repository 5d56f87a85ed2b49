-- ===== src/Flows/Ciba/Pending.antt =====
-- The answer to a poll of a request that its user has not decided, and the interval between polls.
use open_id_connect_wasi_hub.Prelude.{
  ℕ, ◌≡◌, ◌+◌, ◌≤◌, ◌<◌, min, Option, none, some, true, false, leb, nat_eq,
}
use open_id_connect_wasi_hub.Error.{Result, err, authorization_pending, slow_down}
use open_id_connect_wasi_hub.Models.{Client, CibaAuthenticationRequest}
use open_id_connect_wasi_hub.Db.Tables.{Db}
use open_id_connect_wasi_hub.Db.Directory.{find_client_by_id}
use open_id_connect_wasi_hub.Db.Ciba.{record_poll}
use open_id_connect_wasi_hub.Db.Transaction.{IsUp}
use open_id_connect_wasi_hub.Flows.State.{OidcState, Draw, TokenResponse}
use open_id_connect_wasi_hub.Flows.Ciba
use open_id_connect_wasi_hub.Flows.Ciba.{CibaPoll, CibaOutcome, Clocks, ciba_body}
use open_id_connect_wasi_hub.Flows.Ciba.Polling.{request_named}

-- What a poll at `now` is answered, when the last one was at `last` and `interval` seconds must pass
-- between two of them; and the interval from then on.
pub data PollAnswer (last : Option ℕ) (interval now : ℕ) : Result TokenResponse → ℕ → Type 0 where
  first_poll : last ≡ none → PollAnswer last interval now (err authorization_pending) interval
  in_time :
      (before : ℕ)
      → last ≡ some before
      → before + interval ≤ now
      → PollAnswer last interval now (err authorization_pending) interval
  too_soon :
      (before : ℕ)
      → last ≡ some before
      → now < before + interval
      → PollAnswer last interval now (err slow_down) (min (interval + 5) 60)

-- The request after a poll at `now`, which is found again under its digest; nothing else is changed.
pub record IsRecorded (st : OidcState) (req : CibaPoll) (now interval : ℕ)
    (request : CibaAuthenticationRequest) (db db' : Db) : Type 0 where
  pub found_again :
      request_named st req db'
      ≡ some (record request {
        last_polled_at = some now;
        interval_seconds = interval;
        updated_at = now;
      })
  pub only_requests :
      db' ≡ record db { ciba_authentication_requests = db'.ciba_authentication_requests }

module _ (st : OidcState) (req : CibaPoll) (db : Db) (request : CibaAuthenticationRequest)
    (found : request_named st req db ≡ some request) where
  module _ (clocks : Clocks) (draw : Draw) (client : Client)
      (live : leb request.expires_at clocks.at_expiry ≡ false)
      (known : find_client_by_id request.client_id db ≡ some client) (on : client.enabled ≡ true)
      (same : client.client_id ≡ req.client_id) (waiting : request.status ≡ "pending")
      (up : IsUp draw.link) where
    -- The tables after a poll that leaves an interval.
    abbrev polled : ℕ → Db
    polled interval = record db {
      ciba_authentication_requests =
          record_poll request.id interval draw.db_now db.ciba_authentication_requests;
    }
