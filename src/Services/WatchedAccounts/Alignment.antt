-- ===== src/Services/WatchedAccounts/Alignment.antt =====
-- The monitor list after a sync, and the calls of one that is cut short.
use x_social_trader.Base.{
  ◌≡◌, refl, sym, ap, subst, inl, inr, String, str_eq, eq_iff, eq_refl, Bool, true, false, ◌&&◌,
  ◌||◌, not, some, List, [], ◌∷◌, keep, contains, sorted_set, contains-sorted_set, arith, All,
  Bool-cases,
}
use x_social_trader.Models.{WatchedAccountRow}
use x_social_trader.Services.WatchedAccounts.{
  MonitorCall, add_user, remove_user, MonitorClient, WatchedAccountsReport, active_usernames,
  difference, intersection, call_each, sync_watched_accounts,
}

-- The users that are monitored after some calls, the newest of which stands first.
abbrev pub monitored : List String → List MonitorCall → List String
monitored users [] = users
monitored users (add_user k ∷ calls) = k ∷ monitored users calls
monitored users (remove_user k ∷ calls) = keep (λ j. not (str_eq j k)) (monitored users calls)

contains-keep :
    (p : String → Bool) (k : String) (l : List String)
    → contains k (keep p l) ≡ (p k && contains k l)
contains-keep p k [] = ground arith
contains-keep p k (x ∷ l) = elim (Bool-cases (str_eq k x)) [
  | inl e ↦ ground (arith, e, ap p ((eq_iff k x).0 e), contains-keep p k l)
  | inr e ↦ ground (arith, e, contains-keep p k l)
]

difference_lem :
    (k : String) (xs ys : List String)
    → contains k (sorted_set (difference xs ys)) ≡ (contains k xs && not (contains k ys))
difference_lem k xs ys =
    ground (
      arith,
      contains-sorted_set k (difference xs ys),
      contains-keep (λ j. not (contains j ys)) k xs,
    )

intersection_lem :
    (k : String) (xs ys : List String)
    → contains k (sorted_set (intersection xs ys)) ≡ (contains k xs && contains k ys)
intersection_lem k xs ys =
    ground
      (arith, contains-sorted_set k (intersection xs ys), contains-keep (λ j. contains j ys) k xs)

module _ (client : MonitorClient) (users : List String) where
  monitored-adds :
      ((made : List MonitorCall) (c : MonitorCall) → client.accepts made c ≡ true)
      → (l : List String) (made : List MonitorCall) (k : String)
      → let (pass, made') = call_each client add_user l made in
        (pass ≡ true)
        × (contains k (monitored users made') ≡ (contains k l || contains k (monitored users made)))
  unfolding call_each
  monitored-adds ok [] made k = (refl, refl)
  monitored-adds ok (x ∷ l) made k =
      let (p, c) = monitored-adds ok l (add_user x ∷ made) k in
      (ground (arith, ok made (add_user x), p), ground (arith, ok made (add_user x), c))

  monitored-removes :
      ((made : List MonitorCall) (c : MonitorCall) → client.accepts made c ≡ true)
      → (l : List String) (made : List MonitorCall) (k : String)
      → let (pass, made') = call_each client remove_user l made in
        (pass ≡ true)
        × (contains k (monitored users made')
            ≡ (not (contains k l) && contains k (monitored users made)))
  unfolding call_each
  monitored-removes ok [] made k = (refl, refl)
  monitored-removes ok (x ∷ l) made k =
      let (p, c) = monitored-removes ok l (remove_user x ∷ made) k in
      (
        ground (arith, ok made (remove_user x), p),
        ground (
          arith,
          ok made (remove_user x),
          c,
          contains-keep (λ j. not (str_eq j x)) k (monitored users made),
        ),
      )

module _ (client : MonitorClient) (rows : List WatchedAccountRow) (remote : List String) where
  pub record HasAligned : Type 0 where
    pub report : WatchedAccountsReport
    pub calls : List MonitorCall
    pub result : sync_watched_accounts client rows ≡ (some report, calls)
    pub users :
        (k : String) → contains k (monitored remote calls) ≡ contains k (active_usernames rows)
    pub added :
        (k : String)
        → contains k report.added ≡ (contains k (active_usernames rows) && not (contains k remote))
    pub removed :
        (k : String)
        → contains k report.removed
          ≡ (contains k remote && not (contains k (active_usernames rows)))
    pub unchanged :
        (k : String)
        → contains k report.unchanged ≡ (contains k (active_usernames rows) && contains k remote)

  -- If the client names its users and no call raises, then a sync returns a report, and the users
  -- that are monitored after its calls are those of the active rows; the report lists as added the
  -- active users that were not monitored, as removed the monitored ones that are not active, and as
  -- unchanged those that are both.
  pub sync-HasAligned :
      client.listed ≡ some remote
      → ((made : List MonitorCall) (c : MonitorCall) → client.accepts made c ≡ true)
      → HasAligned
  unfolding sync_watched_accounts
  sync-HasAligned listed ok =
      let active = active_usernames rows in
      let to_add = sorted_set (difference active remote) in
      let to_remove = sorted_set (difference remote active) in
      let adds = call_each client add_user to_add [] in
      let removes = call_each client remove_user to_remove adds.1 in
      let adds_pass = (monitored-adds client remote ok to_add [] "").0 in
      let removes_pass = (monitored-removes client remote ok to_remove adds.1 "").0 in
      record {
        report = record {
          added = to_add;
          removed = to_remove;
          unchanged = sorted_set (intersection active remote);
        };
        calls = removes.1;
        result = ground (arith, listed, adds_pass, removes_pass);
        users = λ k. ground (
          arith,
          difference_lem k active remote,
          difference_lem k remote active,
          (monitored-adds client remote ok to_add [] k).1,
          (monitored-removes client remote ok to_remove adds.1 k).1,
        );
        added = λ k. difference_lem k active remote;
        removed = λ k. difference_lem k remote active;
        unchanged = λ k. intersection_lem k active remote;
      }

All-at {ℓ} :
    {A : Type ℓ} (P : A → Type 0) {xs : List A} (ys : List A) → xs ≡ ys → All P ys → All P xs
All-at P ys e h = subst (All P) (sym e) h

call_each-All :
    (client : MonitorClient) (call : String → MonitorCall) (P : MonitorCall → Type 0)
    (l : List String) (made : List MonitorCall)
    → ((k : String) → contains k l ≡ true → P (call k))
    → All P made
    → All P (call_each client call l made).1
unfolding call_each
call_each-All client call P [] made h a = a
call_each-All client call P (x ∷ l) made h a =
    let due = h x (ground (arith, eq_refl x)) in
    let rest =
      call_each-All client call P l (call x ∷ made) (λ k c. h k (ground (arith, c))) (due, a) in
    elim (Bool-cases (client.accepts made (call x))) [ inl e ↦ rw e rest | inr e ↦ rw e (due, a) ]

module _ (client : MonitorClient) (rows : List WatchedAccountRow) (remote : List String) where
  -- An addition of an active user that is not monitored, or a removal of a monitored one that is not
  -- active.
  abbrev pub IsDue : MonitorCall → Type 0
  IsDue (add_user k) = (contains k (active_usernames rows) ≡ true) × (contains k remote ≡ false)
  IsDue (remove_user k) = (contains k (active_usernames rows) ≡ false) × (contains k remote ≡ true)

  -- If the client names its users, then each call of a sync, one that raises included, adds an active
  -- user that was not monitored or removes a monitored one that is not active.
  sync_calls-IsDue : client.listed ≡ some remote → All IsDue (sync_watched_accounts client rows).1
  unfolding sync_watched_accounts
  sync_calls-IsDue listed =
      let active = active_usernames rows in
      let to_add = sorted_set (difference active remote) in
      let to_remove = sorted_set (difference remote active) in
      let adds = call_each client add_user to_add [] in
      let added =
        call_each-All client add_user IsDue to_add []
          (λ k c. (
            ground (arith, c, difference_lem k active remote),
            ground (arith, c, difference_lem k active remote),
          ))
          tt in
      let removed =
        call_each-All client remove_user IsDue to_remove adds.1
          (λ k c. (
            ground (arith, c, difference_lem k remote active),
            ground (arith, c, difference_lem k remote active),
          ))
          added in
      let removes = call_each client remove_user to_remove adds.1 in
      elim (Bool-cases adds.0) [
        | inl e ↦
            All-at IsDue removes.1
              (elim (Bool-cases removes.0) [
                | inl f ↦ ground (arith, listed, e, f)
                | inr f ↦ ground (arith, listed, e, f)
              ])
              removed
        | inr e ↦ All-at IsDue adds.1 (ground (arith, listed, e)) added
      ]
