-- ===== src/Journal/Causes.antt =====
-- Which tweet, decision, order and fill a row of the journal shows.

use mathlib.Core.List.{Mem, mem-cons_of_mem, mem-cons_self}
use x_social_trader.Base.{
  str_eq, eq_iff, true, ◌&&◌, ◌≡◌, ◌⊎◌, inl, inr, refl, Option, none, some, List, [], ◌∷◌, keep,
  All, All-append, arith,
}
use x_social_trader.Models.{Event, RawTweetRow, LlmDecisionRow, Order, FillRow}
use x_social_trader.World.{Db}
use x_social_trader.System.Changes.{tweet_keys, decision_keys}
use x_social_trader.Journal.Joins.{
  All-map, keep-Mem, or_null-All, or_null-found, All-for_each, any-keep, key-any, All-and,
}
use x_social_trader.Journal.{
  JournalRow, column_of, for_each, same_key, journal_row, tweets_of, decisions_of, orders_of,
  fills_of, rows_of_event,
}

module _ {R : Type 0} where
  -- The columns of the tweet and of the decision are those of the ones that an event names.
  pub record HasCause (db : Db R) (e : Event R) (r : JournalRow R) : Type 0 where
    pub event_id : r.event_id ≡ e.event_id
    pub ticker : r.ticker ≡ e.ticker
    pub tweet : RawTweetRow
    pub tweet_in : Mem tweet db.raw_tweets
    pub tweet_named : tweet.id ≡ e.raw_tweet_id
    pub tweet_id : r.tweet_id ≡ some tweet.tweet_id
    pub username : r.username ≡ some tweet.username
    pub decision : LlmDecisionRow R
    pub decision_in : Mem decision db.llm_decisions
    pub decision_named : decision.id ≡ e.llm_decision_id
    pub llm_decision_id : r.llm_decision_id ≡ some decision.id
    pub llm_model : r.llm_model ≡ some decision.model

  -- The columns of the order are NULL or those of an order of the event, and likewise the columns of
  -- the fill with a fill of that order.
  pub data HasOutcome (db : Db R) (e : Event R) (r : JournalRow R) : Type 0 where
    no_order : r.order_id ≡ none → r.fill_id ≡ none → HasOutcome db e r
    with_order :
        (o : Order R)
        → Mem o db.orders
        → o.event_id ≡ e.event_id
        → r.order_id ≡ some o.id
        → r.order_symbol ≡ some o.symbol
        → (r.fill_id ≡ none)
          ⊎ ((f : FillRow R) × Mem f db.fills × (f.order_id ≡ o.id) × (r.fill_id ≡ some f.id))
        → HasOutcome db e r

  -- The row is one of an event of the database.
  abbrev pub IsExplained : Db R → JournalRow R → Type 0
  IsExplained db r = (e : Event R) × Mem e db.events × HasCause db e r × HasOutcome db e r

  -- What the joins of an event find, NULL only where no row fits.
  abbrev Tweet : Db R → Event R → Option RawTweetRow → Type 0
  Tweet db e rt =
      (x : RawTweetRow) × (rt ≡ some x)
      × ((same_key x.id e.raw_tweet_id ≡ true) × Mem x db.raw_tweets)

  abbrev Decision : Db R → Event R → Option (LlmDecisionRow R) → Type 0
  Decision db e ld =
      (x : LlmDecisionRow R) × (ld ≡ some x)
      × ((same_key x.id e.llm_decision_id ≡ true) × Mem x db.llm_decisions)

  abbrev Placed : Db R → Event R → Option (Order R) → Type 0
  Placed db e o =
      (o ≡ none)
      ⊎ ((x : Order R) × (o ≡ some x) × ((str_eq x.event_id e.event_id ≡ true) × Mem x db.orders))

  abbrev Filled : Db R → Order R → Option (FillRow R) → Type 0
  Filled db o f =
      (f ≡ none)
      ⊎ ((x : FillRow R) × (f ≡ some x) × ((same_key x.order_id o.id ≡ true) × Mem x db.fills))

  tweets_of-Tweet :
      (db : Db R) (e : Event R)
      → Mem e.raw_tweet_id (tweet_keys db.raw_tweets)
      → All (Tweet db e) (tweets_of db e)
  tweets_of-Tweet db e t =
      or_null-found _ (keep (λ (r : RawTweetRow). same_key r.id e.raw_tweet_id) db.raw_tweets)
        (any-keep (λ (r : RawTweetRow). same_key r.id e.raw_tweet_id) (λ r. true) db.raw_tweets
          (key-any (λ (r : RawTweetRow). r.id) (λ k. same_key k e.raw_tweet_id && true)
            e.raw_tweet_id db.raw_tweets t (ground arith)))
        (keep-Mem (λ (r : RawTweetRow). same_key r.id e.raw_tweet_id) db.raw_tweets)

  decisions_of-Decision :
      (db : Db R) (e : Event R)
      → Mem e.llm_decision_id (decision_keys db.llm_decisions)
      → All (Decision db e) (decisions_of db e)
  decisions_of-Decision db e d =
      or_null-found _
        (keep (λ (x : LlmDecisionRow R). same_key x.id e.llm_decision_id) db.llm_decisions)
        (any-keep (λ (x : LlmDecisionRow R). same_key x.id e.llm_decision_id) (λ x. true)
          db.llm_decisions
          (key-any (λ (x : LlmDecisionRow R). x.id) (λ k. same_key k e.llm_decision_id && true)
            e.llm_decision_id db.llm_decisions d (ground arith)))
        (keep-Mem (λ (x : LlmDecisionRow R). same_key x.id e.llm_decision_id) db.llm_decisions)

  orders_of-Placed : (db : Db R) (e : Event R) → All (Placed db e) (orders_of db e)
  orders_of-Placed db e =
      or_null-All _ (keep (λ (o : Order R). str_eq o.event_id e.event_id) db.orders)
        (keep-Mem (λ (o : Order R). str_eq o.event_id e.event_id) db.orders)

  fills_of-Filled : (db : Db R) (o : Order R) → All (Filled db o) (fills_of db (some o))
  fills_of-Filled db o =
      or_null-All _ (keep (λ (f : FillRow R). same_key f.order_id o.id) db.fills)
        (keep-Mem (λ (f : FillRow R). same_key f.order_id o.id) db.fills)

  journal_row-HasCause :
      (db : Db R) (e : Event R) (rt : Option RawTweetRow) (ld : Option (LlmDecisionRow R))
      (o : Option (Order R)) (f : Option (FillRow R))
      → Tweet db e rt
      → Decision db e ld
      → HasCause db e (journal_row e rt ld o f)
  journal_row-HasCause db e rt ld o f (x, p, (j, m)) (y, q, (k, n)) = record {
    event_id = refl;
    ticker = refl;
    tweet = x;
    tweet_in = m;
    tweet_named = ground (arith, j);
    tweet_id = rw p refl;
    username = rw p refl;
    decision = y;
    decision_in = n;
    decision_named = ground (arith, k);
    llm_decision_id = rw q refl;
    llm_model = rw q refl;
  }

  filled :
      (db : Db R) (o : Order R) (f : Option (FillRow R))
      → Filled db o f
      → (column_of (λ (x : FillRow R). x.id) f ≡ none)
        ⊎ ((y : FillRow R) × Mem y db.fills
            × (y.order_id ≡ o.id)
            × (column_of (λ (x : FillRow R). x.id) f ≡ some y.id))
  filled db o f (inl e) = inl (rw e refl)
  filled db o f (inr (y, e, (k, m))) = inr (y, m, ground (arith, k), rw e refl)

  rows-HasOutcome :
      (db : Db R) (e : Event R) (rt : Option RawTweetRow) (ld : Option (LlmDecisionRow R))
      (o : Option (Order R))
      → Placed db e o
      → All (λ f. HasOutcome db e (journal_row e rt ld o f)) (fills_of db o)
  rows-HasOutcome db e rt ld o (inl p) = rw p (no_order refl refl, tt)
  rows-HasOutcome db e rt ld o (inr (x, p, (k, m))) = rw p (
      All-and (Filled db x) _ (fills_of db (some x)) (fills_of-Filled db x)
        (λ f h. with_order x m ((eq_iff x.event_id e.event_id).0 k) refl refl (filled db x f h)))

  rows_of_event-IsExplained :
      (db : Db R) (e : Event R)
      → Mem e db.events
      → Mem e.raw_tweet_id (tweet_keys db.raw_tweets)
      → Mem e.llm_decision_id (decision_keys db.llm_decisions)
      → All (IsExplained db) (rows_of_event db e)
  unfolding rows_of_event
  rows_of_event-IsExplained db e m t d = All-for_each (IsExplained db) (tweets_of db e) _ (
      All-and (Tweet db e) _ (tweets_of db e) (tweets_of-Tweet db e t) λ rt tweet.
        All-for_each (IsExplained db) (decisions_of db e) _ (
          All-and (Decision db e) _ (decisions_of db e) (decisions_of-Decision db e d)
            λ ld decision. All-for_each (IsExplained db) (orders_of db e) _ (
              All-and (Placed db e) _ (orders_of db e) (orders_of-Placed db e) λ o order.
                All-map (λ f. HasOutcome db e (journal_row e rt ld o f)) (IsExplained db)
                  (journal_row e rt ld o) (fills_of db o) (rows-HasOutcome db e rt ld o order)
                  λ f outcome.
                    (e, m, journal_row-HasCause db e rt ld o f tweet decision, outcome))))

  pub trade_journal-IsExplained :
      (db : Db R) (es : List (Event R))
      → ((e : Event R) → Mem e es → Mem e db.events)
      → All (λ (e : Event R). Mem e.raw_tweet_id (tweet_keys db.raw_tweets)) es
      → All (λ (e : Event R). Mem e.llm_decision_id (decision_keys db.llm_decisions)) es
      → All (IsExplained db) (for_each es (rows_of_event db))
  trade_journal-IsExplained db [] f t d = tt
  trade_journal-IsExplained db (e ∷ es) f t d =
      All-append (IsExplained db) (rows_of_event db e) (for_each es (rows_of_event db))
        (rows_of_event-IsExplained db e (f e mem-cons_self) t.0 d.0)
        (trade_journal-IsExplained db es (λ x m. f x (mem-cons_of_mem e m)) t.1 d.1)
