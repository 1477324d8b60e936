-- ===== src/Services/WatchedAccounts.antt =====
-- backend/services/watched_accounts_sync.py, over what it uses of the client of twitterapi.io. A
-- set is the list of what it was built from.
pub mod Alignment
use x_social_trader.Base.{
  String, Bool, true, false, ◌&&◌, not, Option, none, some, List, [], ◌∷◌, map, keep, contains,
  sorted_set, if◌then◌else◌,
}
use x_social_trader.Models.{WatchedAccountRow}

-- A call of `add_user_to_monitor` or `remove_user_from_monitor`.
pub data MonitorCall : Type 0 where
  add_user remove_user : String → MonitorCall

-- The client: the users that `list_monitored_users` names, `none` when it raises, and which calls
-- succeed, from the calls before, the newest first.
pub record MonitorClient : Type 0 where
  pub listed : Option (List String)
  pub accepts : List MonitorCall → MonitorCall → Bool

pub record WatchedAccountsReport : Type 0 where
  pub added : List String
  pub removed : List String
  pub unchanged : List String

-- the query: the user names of the active rows
unfoldable pub active_usernames : List WatchedAccountRow → List String
active_usernames [] = []
active_usernames (row ∷ rows) =
    let rest = active_usernames rows in if row.active then row.username ∷ rest else rest

-- `xs - ys` and `xs & ys`
abbrev pub difference : List String → List String → List String
difference xs ys = keep (λ k. not (contains k ys)) xs

abbrev pub intersection : List String → List String → List String
intersection xs ys = keep (λ k. contains k ys) xs

-- A loop of calls, which ends at the first one that raises: whether none raised, and the calls.
unfoldable pub call_each :
    MonitorClient
    → (String → MonitorCall)
    → List String
    → List MonitorCall
    → Bool × List MonitorCall
call_each client call [] made = (true, made)
call_each client call (username ∷ usernames) made =
    let rest = call_each client call usernames (call username ∷ made) in
    if client.accepts made (call username) then rest else (false, call username ∷ made)

-- `sync_watched_accounts`: the report, `none` when it raises, and the calls
unfoldable pub sync_watched_accounts :
    MonitorClient → List WatchedAccountRow → Option WatchedAccountsReport × List MonitorCall
unfolding call_each
sync_watched_accounts client rows =
    let db_active = active_usernames rows in
    elim client.listed [
      | none ↦ (none, [])
      | some remote ↦
          let to_add = sorted_set (difference db_active remote) in
          let to_remove = sorted_set (difference remote db_active) in
          let unchanged = sorted_set (intersection db_active remote) in
          let (adds_pass, made) = call_each client add_user to_add [] in
          let (removes_pass, made') = call_each client remove_user to_remove made in
          if adds_pass
          then (if removes_pass
              then (
                some (record { added = to_add; removed = to_remove; unchanged = unchanged }),
                made',
              )
              else (none, made'))
          else (none, made)
    ]
