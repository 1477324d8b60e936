-- ===== src/Providers/Openai/Escapes.antt =====
-- The errors of `_try_parse_decision` that `analyze` does not answer.
use x_social_trader.Base.{ℕ, ◌≡◌, String, some, List, ◌∷◌, arith}
use x_social_trader.Models.{RawTweet}
use x_social_trader.Models.Json.{Fields, null, object, get_field}
use x_social_trader.Models.Json.{JsonText}
use x_social_trader.Runtime.{Runtime}
use x_social_trader.Providers.Openai.Parsing.{
  escaped, ◌>>=◌, try_parse_decision, decision_of, tickers_field, tickers_of,
}
use x_social_trader.Providers.Openai.Replies.{Client, returned, other_error, read_reply}
use x_social_trader.Providers.Openai.{Server, Message, first_messages, user_message, analyze}

module _ {R : Type 0} ⦃py : Runtime R⦄ (json : JsonText R) where
  null_tickers-escaped :
      (raw model : String) (cost : R) (latency : ℕ) (fs : Fields R)
      → json.loads raw ≡ some (object fs)
      → get_field "tickers" fs ≡ some null
      → try_parse_decision json raw model cost latency ≡ escaped
  unfolding try_parse_decision decision_of tickers_field tickers_of ◌>>=◌
  null_tickers-escaped raw model cost latency fs l t = ground (arith, l, t)

  module _ (server : Server R) (client : Client R) (system : String) (tweet : RawTweet) where
    -- If the first answer is a JSON object whose "tickers" is null, then `analyze` raises an error
    -- other than an OpenAICompatibleError, and the corrective retry is not sent.
    null_tickers_raises :
        (sent : List (List Message)) (raw : String) (cost : R) (latency_ms : ℕ) (fs : Fields R)
        → let first = first_messages system (user_message py tweet) in
          read_reply client (server sent first) ≡ returned (raw, cost, latency_ms)
          → json.loads raw ≡ some (object fs)
          → get_field "tickers" fs ≡ some null
          → analyze json server client system tweet sent ≡ (other_error, first ∷ sent)
    unfolding analyze
    null_tickers_raises sent raw cost latency_ms fs e l t =
        ground (arith, e, null_tickers-escaped raw client.model cost latency_ms fs l t)
