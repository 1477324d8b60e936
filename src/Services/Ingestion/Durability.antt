-- ===== src/Services/Ingestion/Durability.antt =====
-- What a run of the ingestion has stored and queued.
use mathlib.Core.List.{reverse, append-nil, append_assoc, reverse-append}
use x_social_trader.Base.{
  ℕ, suc, ◌+◌, ◌≡◌, inl, inr, refl, sym, ap, ◌∙◌, subst, String, str_append, true, false, Option,
  none, some, List, [], ◌∷◌, ◌++◌, map, length, length-append, arith, Absent, Distinct, pos,
  Option-cases, Bool-cases, eq_iff,
}
use x_social_trader.Models.{RawTweet, RawTweetRow}
use x_social_trader.Runtime.{Runtime}
use x_social_trader.World.{World}
use x_social_trader.KillSwitch.{is_active, activate}
use x_social_trader.Services.Budget.{
  TwitterApiBudgetTracker, record_tweet, trigger_from_budget, add_spend,
}
use x_social_trader.Services.Ingestion.{
  IngestionReport, tweet_stored, raw_tweet_row, persist_raw_tweet, publish, ingest_from,
  run_ingestion, report,
}

abbrev pub tweet_ids : List RawTweetRow → List String
tweet_ids = map (λ r. r.tweet_id)

tweet_stored-Absent :
    (t : String) (rs : List RawTweetRow) → tweet_stored t rs ≡ false → Absent t (tweet_ids rs)
tweet_stored-Absent t [] h = tt
tweet_stored-Absent t (r ∷ rs) h =
    (ground (arith, h, eq_iff t r.tweet_id), tweet_stored-Absent t rs (ground (arith, h)))

-- The messages of rows, given the newest first, in the order in which the rows were added.
abbrev pub messages : {R : Type 0} → Runtime R → List RawTweetRow → List String
messages py rows = map (λ r. py.show_int (pos r.id)) (reverse rows)

messages-append :
    {R : Type 0} (py : Runtime R) (new : List RawTweetRow) (row : RawTweetRow)
    → messages py (new ++ row ∷ []) ≡ py.show_int (pos row.id) ∷ messages py new
messages-append py new row = rw (reverse-append new (row ∷ []))

module _ {R : Type 0} ⦃py : Runtime R⦄ where
  module _ (budget : TwitterApiBudgetTracker R) (id : ℕ) (w : World R) where
    rows-publish : (publish budget id w).1.db.raw_tweets ≡ w.db.raw_tweets
    unfolding publish record_tweet trigger_from_budget activate add_spend
    rows-publish = ground arith

    queue-publish :
        (publish budget id w).1.redis.raw_tweets ≡ w.redis.raw_tweets ++ py.show_int (pos id) ∷ []
    unfolding publish record_tweet trigger_from_budget activate add_spend
    queue-publish = ground arith

  -- What a run from `w` that ends in `w'` has done, with the counters it began with.
  pub record IsDurable (p : ℕ) (w : World R) (r : IngestionReport) (w' : World R) : Type 0 where
    pub new : List RawTweetRow
    pub stored : w'.db.raw_tweets ≡ new ++ w.db.raw_tweets
    pub queued : w'.redis.raw_tweets ≡ w.redis.raw_tweets ++ messages py new
    pub counted : r.persisted ≡ p + length new
    pub distinct : Distinct (tweet_ids w'.db.raw_tweets)

  IsDurable-none :
      (p d : ℕ) (reason : Option String) (w : World R)
      → Distinct (tweet_ids w.db.raw_tweets)
      → IsDurable p w (report p d reason) w
  IsDurable-none p d reason w once = record {
    new = [];
    stored = refl;
    queued = sym (append-nil w.redis.raw_tweets);
    counted = omega arith;
    distinct = once;
  }

  -- one tweet stored and queued, and then the rest
  IsDurable-cons :
      (p : ℕ) (row : RawTweetRow) (w u w' : World R) (r : IngestionReport)
      → u.db.raw_tweets ≡ row ∷ w.db.raw_tweets
      → u.redis.raw_tweets ≡ w.redis.raw_tweets ++ py.show_int (pos row.id) ∷ []
      → IsDurable (suc p) u r w'
      → IsDurable p w r w'
  IsDurable-cons p row w u w' r a b h = record {
    new = h.new ++ row ∷ [];
    stored =
        h.stored ∙ ap (λ l. h.new ++ l) a ∙ sym (append_assoc h.new (row ∷ []) w.db.raw_tweets);
    queued =
        h.queued
        ∙ rw (b, messages-append py h.new row)
            (append_assoc w.redis.raw_tweets (py.show_int (pos row.id) ∷ []) (messages py h.new));
    counted = omega (arith, h.counted, length-append h.new (row ∷ []));
    distinct = h.distinct;
  }

  abbrev Durably : ℕ → World R → IngestionReport × World R → Type 0
  Durably p w (r, w') = IsDurable p w r w'

  pub persist-new :
      (t : RawTweet) (w : World R) (n : ℕ)
      → (persist_raw_tweet t w).0 ≡ some n
      → ((persist_raw_tweet t w).1.db.raw_tweets ≡ raw_tweet_row t n ∷ w.db.raw_tweets)
        × ((persist_raw_tweet t w).1.redis.raw_tweets ≡ w.redis.raw_tweets)
        × Absent t.tweet_id (tweet_ids w.db.raw_tweets)
  unfolding persist_raw_tweet
  persist-new t w n h = (
    ground arith,
    ground arith,
    tweet_stored-Absent t.tweet_id w.db.raw_tweets (ground (arith, h)),
  )

  persist-duplicate :
      (t : RawTweet) (w : World R)
      → (persist_raw_tweet t w).0 ≡ none
      → (persist_raw_tweet t w).1 ≡ w
  unfolding persist_raw_tweet
  persist-duplicate t w h = ground arith

  -- The world after a tweet was stored and published holds its id once, if every other does.
  Distinct-publish :
      (budget : TwitterApiBudgetTracker R) (t : RawTweet) (id : ℕ) (w : World R)
      → (persist_raw_tweet t w).0 ≡ some id
      → Distinct (tweet_ids w.db.raw_tweets)
      → Distinct (tweet_ids (publish budget id (persist_raw_tweet t w).1).1.db.raw_tweets)
  Distinct-publish budget t id w f once =
      let (a, _, new) = persist-new t w id f in
      rw (rows-publish budget id (persist_raw_tweet t w).1, a) (new, once)

  stored_one :
      (budget : TwitterApiBudgetTracker R) (t : RawTweet) (id p : ℕ) (w w' : World R)
      (r : IngestionReport)
      → (persist_raw_tweet t w).0 ≡ some id
      → IsDurable (suc p) (publish budget id (persist_raw_tweet t w).1).1 r w'
      → IsDurable p w r w'
  stored_one budget t id p w w' r f h =
      let (a, b, _) = persist-new t w id f in
      IsDurable-cons p (raw_tweet_row t id) w (publish budget id (persist_raw_tweet t w).1).1 w' r
        (rows-publish budget id (persist_raw_tweet t w).1 ∙ a)
        (queue-publish budget id (persist_raw_tweet t w).1
          ∙ ap (λ q. q ++ py.show_int (pos id) ∷ []) b)
        h

  -- The ways that the loop goes on from a tweet.
  pub data Turn (budget : TwitterApiBudgetTracker R) (t : RawTweet) (ts : List RawTweet) (p d : ℕ)
      (w : World R) (out : IngestionReport × World R) : Type 0 where
    halted :
        (reason : String)
        → (is_active w).active ≡ true
        → out ≡ (report p d (some reason), w)
        → Turn budget t ts p d w out
    duplicate :
        (persist_raw_tweet t w).0 ≡ none
        → out ≡ ingest_from budget ts p (suc d) w
        → Turn budget t ts p d w out
    breached :
        (id : ℕ) (reason : String)
        → (persist_raw_tweet t w).0 ≡ some id
        → (publish budget id (persist_raw_tweet t w).1).0 ≡ some reason
        → out ≡ (report (suc p) d (some reason), (publish budget id (persist_raw_tweet t w).1).1)
        → Turn budget t ts p d w out
    stored :
        (id : ℕ)
        → (persist_raw_tweet t w).0 ≡ some id
        → out ≡ ingest_from budget ts (suc p) d (publish budget id (persist_raw_tweet t w).1).1
        → Turn budget t ts p d w out

  pub turn :
      (budget : TwitterApiBudgetTracker R) (t : RawTweet) (ts : List RawTweet) (p d : ℕ)
      (w : World R)
      → Turn budget t ts p d w (ingest_from budget (t ∷ ts) p d w)
  unfolding ingest_from
  turn budget t ts p d w = elim (Bool-cases (is_active w).active) [
    | inl e ↦ halted (str_append "kill_switch_active:" (is_active w).source) e (ground (arith, e))
    | inr e ↦ elim (Option-cases (persist_raw_tweet t w).0) [
      | inl f ↦ duplicate f (ground (arith, e, f, persist-duplicate t w f))
      | inr (id, f) ↦ elim (Option-cases (publish budget id (persist_raw_tweet t w).1).0) [
        | inl g ↦ stored id f (ground (arith, e, f, g))
        | inr (reason, g) ↦ breached id reason f g (ground (arith, e, f, g))
      ]
    ]
  ]

  ingest_from-IsDurable :
      (budget : TwitterApiBudgetTracker R) (ts : List RawTweet) (p d : ℕ) (w : World R)
      → Distinct (tweet_ids w.db.raw_tweets)
      → let (r, w') = ingest_from budget ts p d w in IsDurable p w r w'
  unfolding ingest_from
  ingest_from-IsDurable budget [] p d w once = IsDurable-none p d none w once
  ingest_from-IsDurable budget (t ∷ ts) p d w once = elim (turn budget t ts p d w) [
    | halted reason e q ↦ subst (Durably p w) (sym q) (IsDurable-none p d (some reason) w once)
    | duplicate f q ↦ subst (Durably p w) (sym q) (ingest_from-IsDurable budget ts p (suc d) w once)
    | breached id reason f g q ↦ subst (Durably p w) (sym q) (
        stored_one budget t id p w _ _ f
          (IsDurable-none (suc p) d (some reason) _ (Distinct-publish budget t id w f once)))
    | stored id f q ↦ subst (Durably p w) (sym q) (
        stored_one budget t id p w _ _ f
          (ingest_from-IsDurable budget ts (suc p) d _ (Distinct-publish budget t id w f once)))
  ]

  -- After a run of the ingestion, from a table `raw_tweets` in which no tweet id stands twice, the
  -- table has kept every row and has `persisted` new ones, and still no tweet id stands in it twice;
  -- the Redis queue has kept its messages and has got the ids of exactly the new rows behind them,
  -- in the order of arrival.
  pub run_ingestion-IsDurable :
      (budget : TwitterApiBudgetTracker R) (tweets : List RawTweet) (w : World R)
      → Distinct (tweet_ids w.db.raw_tweets)
      → let (r, w') = run_ingestion budget tweets w in IsDurable 0 w r w'
  unfolding run_ingestion
  run_ingestion-IsDurable budget tweets w once = ingest_from-IsDurable budget tweets 0 0 w once
