-- ===== src/Journal/Completeness.antt =====
-- What the journal shows of a database whose audit trail can be followed back.

use mathlib.Core.List.{Mem}
use x_social_trader.Base.{
  ℕ, str_eq, eq_iff, eq_refl, Bool, true, false, ◌&&◌, ◌≡◌, ◌∙◌, Option, none, some, map, keep, any,
  All, arith,
}
use x_social_trader.Models.{Event, RawTweetRow, LlmDecisionRow, Order}
use x_social_trader.World.{Db}
use x_social_trader.System.Soundness.{IsTraced}
use x_social_trader.Journal.Joins.{
  any-intro, mem-any, mem-All, or_null-any, any-map, any-for_each, any-keep, any-or_null, key-any,
}
use x_social_trader.Journal.Causes.{IsExplained, trade_journal-IsExplained}
use x_social_trader.Journal.{
  JournalRow, column_of, same_key, journal_row, tweets_of, decisions_of, orders_of, fills_of,
  rows_of_event, trade_journal,
}

abbrev is_key : ℕ → Option ℕ → Bool
is_key n none = false
is_key n (some m) = same_key m n

module _ {R : Type 0} where
  -- The row shows the order.
  abbrev pub shows : Order R → JournalRow R → Bool
  shows o r = str_eq r.event_id o.event_id && is_key o.id r.order_id

  -- The rows of an event and an order of it show the order, whatever was joined before.
  shows-fills :
      (db : Db R) (o : Order R) (e : Event R) (rt : Option RawTweetRow)
      (ld : Option (LlmDecisionRow R)) (x : Option (Order R))
      → str_eq e.event_id o.event_id ≡ true
      → is_key o.id (column_of (λ (y : Order R). y.id) x) ≡ true
      → any (shows o) (map (journal_row e rt ld x) (fills_of db x)) ≡ true
  shows-fills db o e rt ld none h k = absurd (ground arith)
  shows-fills db o e rt ld (some y) h k =
      any-map (shows o) (journal_row e rt ld (some y)) (fills_of db (some y))
      ∙ any-intro (λ f. true) _ (fills_of db (some y)) (or_null-any _) (λ f t. ground (arith, h, k))

  rows_of_event-shows :
      (db : Db R) (o : Order R) (e : Event R)
      → Mem o db.orders
      → str_eq e.event_id o.event_id ≡ true
      → any (shows o) (rows_of_event db e) ≡ true
  unfolding rows_of_event
  rows_of_event-shows db o e m h =
      let found =
        any-or_null (λ x. is_key o.id (column_of (λ (y : Order R). y.id) x))
          (keep (λ (x : Order R). str_eq x.event_id e.event_id) db.orders)
          (any-keep (λ (x : Order R). str_eq x.event_id e.event_id)
            (λ (x : Order R). same_key x.id o.id) db.orders
            (mem-any (λ (x : Order R). str_eq x.event_id e.event_id && same_key x.id o.id) o
              db.orders m
              (ground (arith, h, eq_iff e.event_id o.event_id, eq_iff o.event_id e.event_id)))) in
      any-for_each (shows o) (tweets_of db e) _
      ∙ any-intro (λ rt. true) _ (tweets_of db e) (or_null-any _)
          (λ rt t.
            any-for_each (shows o) (decisions_of db e) _
            ∙ any-intro (λ ld. true) _ (decisions_of db e) (or_null-any _)
                (λ ld u.
                  any-for_each (shows o) (orders_of db e) _
                  ∙ any-intro (λ x. is_key o.id (column_of (λ (y : Order R). y.id) x)) _
                      (orders_of db e) found (λ x k. shows-fills db o e rt ld x h k)))

  -- In a database whose audit trail can be followed back, each row of the journal is one of an event:
  -- it shows the tweet and the decision that the event names, and no order or one of the event, with
  -- no fill or one of that order. Each order of the table `orders` is shown by a row, with its event.
  pub trade_journal_complete :
      (db : Db R)
      → IsTraced db
      → All (IsExplained db) (trade_journal db)
        × ((o : Order R) → Mem o db.orders → any (shows o) (trade_journal db) ≡ true)
  unfolding trade_journal
  trade_journal_complete db traced = (
    trade_journal-IsExplained db db.events (λ e m. m) traced.tweets traced.causes,
    λ o m.
        any-for_each (shows o) db.events (rows_of_event db)
        ∙ any-intro (λ (e : Event R). str_eq e.event_id o.event_id) _ db.events
            (key-any (λ (e : Event R). e.event_id) (λ k. str_eq k o.event_id) o.event_id db.events
              (mem-All (λ (x : Order R). x.event_id) db.orders traced.orders o m)
              (eq_refl o.event_id))
            (λ e h. rows_of_event-shows db o e m h),
  )
