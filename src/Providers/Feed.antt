-- ===== src/Providers/Feed.antt =====
-- The WebSocket provider of backend/providers/twitterapi_io.py. What the server does is a list of
-- connections; the subscription is cancelled after the last one. The payload of a tweet stands in
-- `raw_json` as its text. The parsers of JSON, of UTF-8 and of dates are parameters.
pub mod Backoff
use Prim.Native.String
use x_social_trader.Base.{
  ℕ, suc, ◌+◌, ◌*◌, String, str_append, str_eq, Bool, true, false, ◌||◌, leb, ltb, Option, none,
  some, List, [], ◌∷◌, ℤ, pos, if◌then◌else◌,
}
use x_social_trader.Models.{RawTweet}
use x_social_trader.Models.Json.{
  Json, null, bool, int, float, text, array, object, Fields, end, field, get_field, JsonText,
}
use x_social_trader.Runtime.{Runtime}
use x_social_trader.Runtime.Truth.{truthy_or}

-- `datetime.fromisoformat` and `datetime.fromtimestamp(·, tz=UTC)`, `none` for an error, and `now`
pub record Clock (R : Type 0) : Type 0 where
  pub fromisoformat : String → Option ℕ
  pub fromtimestamp : R → Option ℕ
  pub now : ℕ

-- A message: a text, or bytes with the text that they decode to.
pub data Frame : Type 0 where
  text_frame : String → Frame
  bytes_frame : Option String → Frame

-- A connection: it is refused, or it brings messages until the server closes it or it breaks. The
-- flag says whether `close` has been called by then.
pub data Connection : Type 0 where
  refused : Bool → Connection
  closed broken : Bool → List Frame → Connection

-- The tweets that were yielded and the pauses, the newest first, and the next pause. Every pause is
-- a whole number of seconds. `tweets_ingested_total` counts the tweets.
pub record Stream : Type 0 where
  pub yielded : List RawTweet
  pub pauses : List ℕ
  pub backoff : ℕ

-- `subscribe` before its loop, with _WS_BACKOFF_INITIAL
abbrev pub start : Stream
start = record { yielded = []; pauses = []; backoff = 1 }

-- `s.replace("Z", "+00:00")`
abbrev pub with_offset : String → String
with_offset String.[] = ""
with_offset (String.◌∷◌ c s) =
    str_append (if str_eq (String.◌∷◌ c String.[]) "Z" then "+00:00" else String.◌∷◌ c String.[])
      (with_offset s)

-- `min(n * 2, _WS_BACKOFF_MAX)`
abbrev pub doubled : ℕ → ℕ
doubled n = if leb (n * 2) 60 then n * 2 else 60

infixl 5 ◌>>=◌
abbrev pub ◌>>=◌ {ℓ κ} : {A : Type ℓ} {B : Type κ} → Option A → (A → Option B) → Option B
none >>= f = none
some a >>= f = f a

-- the `except` block, when `close` was not called
abbrev pub backed_off : Stream → Stream
backed_off stream = record stream {
  pauses = stream.backoff ∷ stream.pauses;
  backoff = doubled stream.backoff;
}

abbrev pub connected : Stream → Stream
connected stream = record stream { backoff = 1 }

-- whether `close` has been called
abbrev pub is_closing : Connection → Bool
is_closing (refused closing) = closing
is_closing (closed closing frames) = closing
is_closing (broken closing frames) = closing

module _ {R : Type 0} where
  -- the mapping that a tweet is read from
  abbrev pub mapping_of : Json R → Option (Fields R)
  mapping_of (object fs) = some fs
  mapping_of _ = none

  -- `lang`, which RawTweet wants to be a text or None
  abbrev pub lang_of : Option (Json R) → Option (Option String)
  lang_of none = some none
  lang_of (some null) = some none
  lang_of (some (text s)) = some (some s)
  lang_of (some _) = none

  abbrev pub is_text : String → Json R → Bool
  is_text s (text t) = str_eq t s
  is_text s _ = false

  abbrev pub has_field : String → Fields R → Bool
  has_field k fs = elim (get_field k fs) [ none ↦ false | some v ↦ true ]

module _ {R : Type 0} ⦃py : Runtime R⦄ (json : JsonText R) (clock : Clock R) where
  -- `_decode`
  unfoldable pub decode : Frame → Option (Fields R)
  decode (text_frame s) = elim (json.loads s) [ some (object fs) ↦ some fs | _ ↦ none ]
  decode (bytes_frame none) = none
  decode (bytes_frame (some s)) = elim (json.loads s) [ some (object fs) ↦ some fs | _ ↦ none ]

  -- `tweet.get(first) or tweet.get(second)`, null for None
  unfoldable pub either_of : String → String → Fields R → Json R
  either_of first second tweet =
      truthy_or (elim (get_field second tweet) [ none ↦ null | some v ↦ v ]) (get_field first tweet)

  -- `str(tweet.get(first) or tweet.get(second) or "")`
  unfoldable pub text_of : String → String → Fields R → String
  unfolding either_of
  text_of first second tweet =
      json.str_of (truthy_or (text "") (some (either_of first second tweet)))

  -- the instant that `created_at` says
  unfoldable pub received_of : Json R → Option ℕ
  received_of (text s) = clock.fromisoformat (with_offset s)
  received_of (int n) = py.of_int n >>= clock.fromtimestamp
  received_of (bool true) = py.of_int (pos 1) >>= clock.fromtimestamp
  received_of (bool false) = py.of_int (pos 0) >>= clock.fromtimestamp
  received_of (float x) = clock.fromtimestamp x
  received_of _ = some clock.now

  -- `_parse_tweet`, `none` when it raises
  unfoldable pub parse_tweet : Fields R → Option RawTweet
  unfolding either_of text_of received_of
  parse_tweet payload = do
    tweet ← mapping_of (truthy_or (object payload) (get_field "tweet" payload))
    received ← received_of (either_of "created_at" "time" tweet)
    tweet_id ← get_field "id" tweet
    lang ← lang_of (get_field "lang" tweet)
    some (record {
      tweet_id = json.str_of tweet_id;
      x_user_id = text_of "author_id" "user_id" tweet;
      username = text_of "username" "author_name" tweet;
      content = text_of "text" "content" tweet;
      lang = lang;
      raw_json = json.str_of (object payload);
      received_at = received;
    })

  -- The body of the loop over the messages: the tweet of a message, if any; `none` when it raises.
  unfoldable pub tweet_of : Frame → Option (Option RawTweet)
  unfolding decode parse_tweet either_of
  tweet_of frame = do
    payload ← decode frame
    let event_type = either_of "type" "event" payload
    if is_text "connected" event_type || is_text "ping" event_type
        then some none
        else (if is_text "tweet" event_type || has_field "tweet" payload || has_field "id" payload
            then (parse_tweet payload >>= λ raw. some (some raw))
            else some none)

  -- The loop over the messages: whether none of them raised, and the stream.
  unfoldable pub read_all : List Frame → Stream → Bool × Stream
  unfolding tweet_of
  read_all [] stream = (true, stream)
  read_all (frame ∷ frames) stream = elim (tweet_of frame) [
    | none ↦ (false, stream)
    | some none ↦ read_all frames stream
    | some (some raw) ↦ read_all frames (record stream { yielded = raw ∷ stream.yielded })
  ]

  -- One turn of the loop of `subscribe`.
  unfoldable pub turn : Connection → Stream → Stream
  unfolding read_all
  turn (refused closing) stream = if closing then stream else backed_off stream
  turn (closed closing frames) stream =
      let (ok, stream') = read_all frames (connected stream) in
      if ok then stream' else (if closing then stream' else backed_off stream')
  turn (broken closing frames) stream =
      let (ok, stream') = read_all frames (connected stream) in
      if closing then stream' else backed_off stream'

  -- `subscribe`
  unfoldable pub subscribe : List Connection → Stream → Stream
  unfolding turn
  subscribe [] stream = stream
  subscribe (c ∷ cs) stream =
      let rest = subscribe cs (turn c stream) in if is_closing c then turn c stream else rest
