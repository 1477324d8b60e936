-- ===== src/Services/LlmPipeline/Rounds.antt =====
-- The ways that a round of the LLM pipeline's loop goes.
use x_social_trader.Base.{
  ℕ, suc, ◌≡◌, inl, inr, String, str_append, ℤ, Option, some, List, ◌∷◌, arith, length, Bool-cases,
  Option-cases, List-cases,
}
use x_social_trader.Models.{RawTweetRow, LlmAnalysisResult}
use x_social_trader.Runtime.{Runtime}
use x_social_trader.World.{World, Error, Result, returned, raised, Result-cases, in_session}
use x_social_trader.Providers.{LlmProvider}
use x_social_trader.KillSwitch.{is_active}
use x_social_trader.Services.Worker.{Ending, finished, crashed}
use x_social_trader.Services.Budget.{LlmBudgetTracker}
use x_social_trader.Services.LlmPipeline.{
  LlmPipelineReport, ended_by, tallied, find_tweet, popped_tweet, record_analysis,
  publish_and_charge, consume_from,
}

module _ {R : Type 0} ⦃py : Runtime R⦄ (provider : LlmProvider R)
    (budget : LlmBudgetTracker R) where
  -- the session of a tweet, and the world after it
  abbrev pub session :
      RawTweetRow → List String → World R → Result R (LlmAnalysisResult R × List String) × World R
  session row queue w = in_session (record_analysis provider row) (popped_tweet queue w)

  -- the publication and the charge after a session
  abbrev pub charged :
      RawTweetRow
      → List String
      → World R
      → LlmAnalysisResult R
      → List String
      → Result R (Option String) × World R
  charged row queue w result ids =
      publish_and_charge provider budget result ids (session row queue w).1

  pub data Round (n : ℕ) (t : LlmPipelineReport) (w : World R)
      (out : Ending R LlmPipelineReport × World R) : Type 0 where
    halted : (reason : String) → out ≡ (finished (ended_by (some reason) t), w) → Round n t w out
    drained : out ≡ (finished t, w) → Round n t w out
    skipped :
        (raw_id : String) (queue : List String)
        → w.redis.raw_tweets ≡ raw_id ∷ queue
        → out ≡ consume_from provider budget n t (popped_tweet queue w)
        → Round n t w out
    unanalyzed :
        (raw_id : String) (queue : List String) (row : RawTweetRow) (e : Error R)
        → w.redis.raw_tweets ≡ raw_id ∷ queue
        → (db_id : ℤ) × (find_tweet db_id w.db.raw_tweets ≡ some row)
        → (session row queue w).0 ≡ raised e
        → out ≡ (crashed e, (session row queue w).1)
        → Round n t w out
    uncharged :
        (raw_id : String) (queue : List String) (row : RawTweetRow) (result : LlmAnalysisResult R)
        (ids : List String) (e : Error R)
        → w.redis.raw_tweets ≡ raw_id ∷ queue
        → (db_id : ℤ) × (find_tweet db_id w.db.raw_tweets ≡ some row)
        → (session row queue w).0 ≡ returned (result, ids)
        → out ≡ (crashed e, (charged row queue w result ids).1)
        → Round n t w out
    breached :
        (raw_id : String) (queue : List String) (row : RawTweetRow) (result : LlmAnalysisResult R)
        (ids : List String) (reason : String)
        → w.redis.raw_tweets ≡ raw_id ∷ queue
        → (db_id : ℤ) × (find_tweet db_id w.db.raw_tweets ≡ some row)
        → (session row queue w).0 ≡ returned (result, ids)
        → out ≡ (
          finished (ended_by (some reason) (tallied result.status (length ids) t)),
          (charged row queue w result ids).1,
        )
        → Round n t w out
    processed :
        (raw_id : String) (queue : List String) (row : RawTweetRow) (result : LlmAnalysisResult R)
        (ids : List String)
        → w.redis.raw_tweets ≡ raw_id ∷ queue
        → (db_id : ℤ) × (find_tweet db_id w.db.raw_tweets ≡ some row)
        → (session row queue w).0 ≡ returned (result, ids)
        → out
          ≡ consume_from provider budget n
              (tallied result.status (length ids) t)
              (charged row queue w result ids).1
        → Round n t w out

  pub round :
      (n : ℕ) (t : LlmPipelineReport) (w : World R)
      → Round n t w (consume_from provider budget (suc n) t w)
  unfolding consume_from
  round n t w = elim (Bool-cases (is_active w).active) [
    | inl a ↦ halted (str_append "kill_switch_active:" (is_active w).source) (ground (arith, a))
    | inr a ↦ elim (List-cases w.redis.raw_tweets) [
      | inl q ↦ drained (ground (arith, a, q))
      | inr (raw_id, queue, q) ↦ elim (Option-cases (py.int_of_text raw_id)) [
        | inl i ↦ skipped raw_id queue q (ground (arith, a, q, i))
        | inr (db_id, i) ↦ elim (Option-cases (find_tweet db_id w.db.raw_tweets)) [
          | inl f ↦ skipped raw_id queue q (ground (arith, a, q, i, f))
          | inr (row, f) ↦ elim (Result-cases (session row queue w).0) [
            | inr (e, s) ↦
                unanalyzed raw_id queue row e q (db_id, f) s (ground (arith, a, q, i, f, s))
            | inl ((result, ids), s) ↦ elim (Result-cases (charged row queue w result ids).0) [
              | inr (e, c) ↦
                  uncharged raw_id queue row result ids e q (db_id, f) s
                    (ground (arith, a, q, i, f, s, c))
              | inl (stop, c) ↦ elim (Option-cases stop) [
                | inl o ↦
                    processed raw_id queue row result ids q (db_id, f) s
                      (ground (arith, a, q, i, f, s, c, o))
                | inr (reason, o) ↦
                    breached raw_id queue row result ids reason q (db_id, f) s
                      (ground (arith, a, q, i, f, s, c, o))
              ]
            ]
          ]
        ]
      ]
    ]
  ]
