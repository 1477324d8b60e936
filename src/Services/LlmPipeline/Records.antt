-- ===== src/Services/LlmPipeline/Records.antt =====
-- What is stored and published in a round of the LLM pipeline, and over several rounds.
use mathlib.Core.List.{reverse, append-nil, append_assoc, reverse-append, map-append}
use x_social_trader.Base.{
  ℕ, ◌+◌, ◌≡◌, ◌≢◌, refl, sym, ap, ◌∙◌, String, none, List, [], ◌∷◌, ◌++◌, arith, All, All-append,
  Distinct, length, length-append, length-map,
}
use x_social_trader.Models.{RawTweetRow, LlmDecisionRow, LlmAnalysisResult, Event}
use x_social_trader.Runtime.{Runtime}
use x_social_trader.World.{World, Error, returned, raised, in_session}
use x_social_trader.Providers.{LlmProvider}
use x_social_trader.Services.Worker.{Ending, finished, crashed, out_of_fuel}
use x_social_trader.Services.Budget.{LlmBudgetTracker}
use x_social_trader.Services.LlmPipeline.{
  LlmPipelineReport, popped_tweet, record_analysis, push_events, publish_and_charge,
}
use x_social_trader.Services.LlmPipeline.Effects.{
  event_ids, IsAnswer, Stored-record_analysis, redis-record_analysis, queue-push_events,
  charge-frame,
}
use x_social_trader.Services.LlmPipeline.Rounds.{session, charged}

-- From `w` to `w'`: `d` new rows in `llm_decisions`, `n` new events, which are signals and whose ids
-- are published in the order in which they were stored. No event id stands twice. The new rows in
-- `llm_decisions` are answers of the provider.
pub record Recorded {R : Type 0} (provider : LlmProvider R) (w : World R) (d n : ℕ) (w' : World R)
    : Type 0 where
  pub new : List (Event R)
  pub decisions : List (LlmDecisionRow R)
  pub stored : w'.db.events ≡ new ++ w.db.events
  pub audited : w'.db.llm_decisions ≡ decisions ++ w.db.llm_decisions
  pub published : w'.redis.events ≡ w.redis.events ++ event_ids (reverse new)
  pub events_counted : length new ≡ n
  pub decisions_counted : length decisions ≡ d
  pub distinct : Distinct (event_ids w'.db.events)
  pub signals : All (λ (e : Event R). e.intent ≢ "noise") new
  pub answers : All (IsAnswer provider) decisions

-- The report of a run that began with the counters of `t` counts `d` tweets and `n` events more.
pub data Agrees {R : Type 0} (t : LlmPipelineReport) (d n : ℕ)
    : Ending R LlmPipelineReport → Type 0 where
  reported :
      (t' : LlmPipelineReport)
      → t'.analyzed ≡ t.analyzed + d
      → t'.events_published ≡ t.events_published + n
      → Agrees t d n (finished t')
  failed_with : (e : Error R) → Agrees t d n (crashed e)
  starved : Agrees t d n out_of_fuel

-- What a run records, and that its report agrees.
pub record HasRecorded {R : Type 0} (provider : LlmProvider R) (t : LlmPipelineReport) (w : World R)
    (out : Ending R LlmPipelineReport × World R) : Type 0 where
  pub tweets : ℕ
  pub events : ℕ
  pub recorded : Recorded provider w tweets events out.1
  pub agreed : Agrees t tweets events out.0

abbrev pub no_counts : LlmPipelineReport
no_counts = record { analyzed = 0; invalid_json = 0; events_published = 0; stopped_reason = none }

length-reverse {ℓ} : {A : Type ℓ} (xs : List A) → length (reverse xs) ≡ length xs
length-reverse [] = refl
length-reverse (x ∷ xs) =
    ap length (reverse-append (x ∷ []) xs)
    ∙ omega (arith, length-append (reverse xs) (x ∷ []), length-reverse xs)

module _ {R : Type 0} (provider : LlmProvider R) where
  pub Recorded-none :
      (w w' : World R)
      → Distinct (event_ids w.db.events)
      → w'.db ≡ w.db
      → w'.redis.events ≡ w.redis.events
      → Recorded provider w 0 0 w'
  Recorded-none w w' once same queue = record {
    new = [];
    decisions = [];
    stored = ap (λ db. db.events) same;
    audited = ap (λ db. db.llm_decisions) same;
    published = queue ∙ sym (append-nil w.redis.events);
    events_counted = refl;
    decisions_counted = refl;
    distinct = rw same once;
    signals = tt;
    answers = tt;
  }

  pub Recorded-trans :
      (d n d' n' : ℕ) (w u w' : World R)
      → Recorded provider w d n u
      → Recorded provider u d' n' w'
      → Recorded provider w (d + d') (n + n') w'
  Recorded-trans d n d' n' w u w' a b = record {
    new = b.new ++ a.new;
    decisions = b.decisions ++ a.decisions;
    stored = b.stored ∙ ap (λ l. b.new ++ l) a.stored ∙ sym (append_assoc b.new a.new w.db.events);
    audited =
        b.audited
        ∙ ap (λ l. b.decisions ++ l) a.audited
        ∙ sym (append_assoc b.decisions a.decisions w.db.llm_decisions);
    published =
        b.published
        ∙ rw (a.published, reverse-append b.new a.new)
            (append_assoc w.redis.events (event_ids (reverse a.new)) (event_ids (reverse b.new))
              ∙ ap (λ l. w.redis.events ++ l) (sym (map-append _ (reverse a.new) (reverse b.new))));
    events_counted = omega (arith, length-append b.new a.new, a.events_counted, b.events_counted);
    decisions_counted =
        omega
          (arith, length-append b.decisions a.decisions, a.decisions_counted, b.decisions_counted);
    distinct = b.distinct;
    signals = All-append _ b.new a.new b.signals a.signals;
    answers = All-append (IsAnswer provider) b.decisions a.decisions b.answers a.answers;
  }

module _ {R : Type 0} ⦃py : Runtime R⦄ (provider : LlmProvider R)
    (budget : LlmBudgetTracker R) where
  -- A session that raises leaves the tables as they were; one that returns stores its results.
  pub raised-session :
      (row : RawTweetRow) (queue : List String) (w : World R) (e : Error R)
      → Distinct (event_ids w.db.events)
      → (session provider budget row queue w).0 ≡ raised e
      → Recorded provider w 0 0 (session provider budget row queue w).1
  unfolding in_session
  raised-session row queue w e once h =
      Recorded-none provider w (session provider budget row queue w).1 once (ground (arith, h))
        (ground (arith, h, redis-record_analysis provider row (popped_tweet queue w)))

  -- The world after a session that returned, and its publication.
  Recorded-published :
      (row : RawTweetRow) (p : World R) (result : LlmAnalysisResult R) (ids : List String)
      → Distinct (event_ids p.db.events)
      → (record_analysis provider row p).0 ≡ returned (result, ids)
      → Recorded provider p 1
          (length ids)
          (publish_and_charge provider budget result ids (record_analysis provider row p).1).1
  unfolding publish_and_charge
  Recorded-published row p result ids once h =
      let u = (record_analysis provider row p).1 in
      let (st, same) = Stored-record_analysis provider row p result ids once h in
      let (pd, _, pe) = queue-push_events ids u in
      let (ce, cd, _, cq) = charge-frame budget result.decision.cost_usd (push_events ids u) in
      record {
        new = st.new;
        decisions = st.decisions;
        stored = ce ∙ ap (λ db. db.events) pd ∙ st.events;
        audited = cd ∙ ap (λ db. db.llm_decisions) pd ∙ st.audited;
        published =
            cq ∙ pe ∙ ap (λ r. r.events ++ ids) same ∙ ap (λ l. p.redis.events ++ l) st.listed;
        events_counted = sym (
            ap length st.listed
            ∙ length-map (λ (e : Event R). e.event_id) (reverse st.new)
            ∙ length-reverse st.new);
        decisions_counted = st.calls;
        distinct = rw (ce, pd) st.distinct;
        signals = st.signals;
        answers = st.answers;
      }

  pub Recorded-charged :
      (row : RawTweetRow) (queue : List String) (w : World R) (result : LlmAnalysisResult R)
      (ids : List String)
      → Distinct (event_ids w.db.events)
      → (session provider budget row queue w).0 ≡ returned (result, ids)
      → Recorded provider w 1 (length ids) (charged provider budget row queue w result ids).1
  unfolding in_session
  Recorded-charged row queue w result ids once h =
      let p = popped_tweet queue w in
      let same : (session provider budget row queue w).1 ≡ (record_analysis provider row p).1 =
        ground (arith, h) in
      let r = Recorded-published row p result ids once h in
      rw same (record {
        new = r.new;
        decisions = r.decisions;
        stored = r.stored;
        audited = r.audited;
        published = r.published;
        events_counted = r.events_counted;
        decisions_counted = r.decisions_counted;
        distinct = r.distinct;
        signals = r.signals;
        answers = r.answers;
      })
