-- ===== src/Examples/Feeds.antt =====
-- The theorems on the clients of twitterapi.io and of the broker, on the sync of the monitor list and on the redactor.
use x_social_trader.Base.{
  String, refl, true, false, none, some, List, [], ◌∷◌, pos, str_eq, leb, if◌then◌else◌,
}
use x_social_trader.Models.{WatchedAccountRow}
use x_social_trader.Models.Json.{int, text, object, Fields, end, field, JsonText}
use x_social_trader.Runtime.Sample.{Sample, sample}
use x_social_trader.Providers.Twitterapi.{
  Request, get_list_users, Reply, response, request_error, Wire, send,
}
use x_social_trader.Providers.Twitterapi.Attempts.{Tried, send-Tried}
use x_social_trader.Providers.Feed.{Clock, Connection, refused, closed, broken, text_frame}
use x_social_trader.Providers.Ib.{Gateway, IbProvider, IbTrace, connect}
use x_social_trader.Providers.Ib.Connection.{Connects, connect-Connects}
use x_social_trader.Services.WatchedAccounts.{MonitorClient}
use x_social_trader.Services.WatchedAccounts.Alignment.{HasAligned, sync-HasAligned}
use x_social_trader.Logging.{redact}
use x_social_trader.Logging.Redaction.{Shown, redact-Shown}

-- A server that fails twice.
abbrev flaky : List Request → Request → Reply Sample
flaky [] request = request_error
flaky (r ∷ []) request = response 503 none
flaky (r ∷ s ∷ rs) request = response 200 none

abbrev silent : Wire
silent = record { sent = []; slept = 0 }

send-Tried_example :
    let (a, wire') = send flaky get_list_users silent in
    Tried flaky get_list_users 3 0 silent a wire'
send-Tried_example = send-Tried flaky get_list_users silent

abbrev tweet_json : JsonText Sample
tweet_json = record {
  loads = λ s. if str_eq s "tweet" then some (object (field "id" (int (pos 1)) end)) else none;
  str_of = λ v. "1";
}

abbrev some_clock : Clock Sample
some_clock = record { fromisoformat = λ s. none; fromtimestamp = λ x. none; now = 1 }

abbrev some_connections : List Connection
some_connections =
    refused false
    ∷ refused false
    ∷ broken false (text_frame "tweet" ∷ [])
    ∷ closed false (text_frame "no JSON" ∷ [])
    ∷ closed true []
    ∷ []

abbrev some_accounts : List WatchedAccountRow
some_accounts =
    record { username = "anna"; active = true }
    ∷ record { username = "boris"; active = false }
    ∷ record { username = "carla"; active = true }
    ∷ []

abbrev monitored_before : List String
monitored_before = "boris" ∷ "carla" ∷ []

abbrev willing : MonitorClient
willing = record { listed = some monitored_before; accepts = λ made c. true }

sync-HasAligned_example : HasAligned willing some_accounts monitored_before
sync-HasAligned_example =
    sync-HasAligned willing some_accounts monitored_before refl (λ made c. refl)

abbrev masks : List (String → String)
masks =
    (λ s. if str_eq s "sk-0123456789" then "***REDACTED***" else s)
    ∷ (λ s. if str_eq s "ghp_0123" then "***REDACTED***" else s)
    ∷ []

abbrev some_event : Fields Sample
some_event =
    field "event" (text "call")
      (field "api_key" (text "k") (field "body" (text "sk-0123456789") end))

redact-Shown_example : Shown sample masks "" (object some_event) (redact sample masks some_event)
redact-Shown_example = redact-Shown sample masks some_event

abbrev accounts_of : List String → Gateway Sample
accounts_of accounts = record {
  connects = λ attempt. leb 1 attempt;
  managed_accounts = accounts;
  is_connected = true;
  account_summary = λ account. [];
  positions = λ account. [];
  open_orders = [];
}

abbrev some_provider : IbProvider
some_provider = record { expected_account_id = "DU1"; retry_max = 3; held = none }

abbrev untouched : IbTrace
untouched = record { attempts = 0; pauses = []; disconnects = 0 }

connect-Connects_example :
    Connects
      (accounts_of ("DU2" ∷ []))
      some_provider
      untouched
      (connect (accounts_of ("DU2" ∷ [])) some_provider untouched)
connect-Connects_example = connect-Connects (accounts_of ("DU2" ∷ [])) some_provider untouched
