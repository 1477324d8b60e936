-- ===== src/Providers/Twitterapi.antt =====
-- The REST client of backend/providers/twitterapi_io.py. The server's replies are a function of the
-- requests before, the newest first, and of the request.
pub mod Attempts
use Prim.Native.String
use x_social_trader.Base.{
  ℕ, zero, suc, ◌+◌, ◌*◌, String, str_eq, Bool, true, false, ◌&&◌, leb, ltb, Option, none, some,
  List, [], ◌∷◌, map, if◌then◌else◌,
}
use x_social_trader.Models.Json.{
  Json, null, bool, int, float, text, array, object, Items, nil, cons, Fields, end, field,
  get_field, keys, items_of, JsonText, characters_of,
}

-- PATH_ADD_USER, PATH_REMOVE_USER, PATH_LIST_USERS and PATH_ADVANCED_SEARCH, each with its method and
-- with what goes along: `json={"username": …}` and `params={"query": …, "limit": …}`
pub data Request : Type 0 where
  post_add_user post_remove_user : String → Request
  get_list_users : Request
  get_advanced_search : String → ℕ → Request

-- A `RequestError`, or a status and the body as JSON, `none` for a body that is no JSON.
pub data Reply (R : Type 0) : Type 0 where
  request_error : Reply R
  response : ℕ → Option (Json R) → Reply R

-- A call returns, raises a `TwitterApiIoError`, or raises another error.
pub data Answer {ℓ} (A : Type ℓ) : Type ℓ where
  returned : A → Answer A
  api_error other_error : Answer A

-- The requests that were sent, the newest first, and the seconds slept between them.
pub record Wire : Type 0 where
  pub sent : List Request
  pub slept : ℕ

-- the guard of `TwitterApiIoClient.__init__` and of `TwitterApiIoProvider.__init__`
abbrev pub new_key : String → Answer String
new_key api_key = if str_eq api_key "" then api_error else returned api_key

-- 2 ** n
abbrev pub pow2 : ℕ → ℕ
pow2 zero = 1
pow2 (suc n) = 2 * pow2 n

module _ {R : Type 0} (server : List Request → Request → Reply R) where
  -- the loop of `_request`: the attempts that are left, and the number of those before
  unfoldable pub attempts : ℕ → ℕ → Request → Wire → Answer (Option (Json R)) × Wire
  attempts zero attempt request wire = (api_error, wire)
  attempts (suc left) attempt request wire =
      let wire' = record wire { sent = request ∷ wire.sent } in
      let rest =
        attempts left (suc attempt) request
          (record wire' { slept = wire.slept + 1 * pow2 attempt }) in
      elim (server wire.sent request) [
        | request_error ↦ rest
        | response status body ↦
            if leb 400 status && ltb status 500
            then (api_error, wire')
            else if ltb status 500
            then (returned body, wire')
            else rest
      ]

  -- `_request`, with _HTTP_RETRY_MAX attempts
  unfoldable pub send : Request → Wire → Answer (Option (Json R)) × Wire
  send request wire = attempts 3 0 request wire

  -- `add_user_to_monitor`, `remove_user_from_monitor`
  unfoldable pub add_user_to_monitor : String → Wire → Answer (Option (Json R)) × Wire
  add_user_to_monitor username wire = send (post_add_user username) wire

  unfoldable pub remove_user_from_monitor : String → Wire → Answer (Option (Json R)) × Wire
  remove_user_from_monitor username wire = send (post_remove_user username) wire

infixl 5 ◌>>=◌
abbrev pub ◌>>=◌ {ℓ κ} : {A : Type ℓ} {B : Type κ} → Answer A → (A → Answer B) → Answer B
returned a >>= f = f a
api_error >>= f = api_error
other_error >>= f = other_error

module _ {R : Type 0} where
  -- `response.json()`, on which `get` is called
  abbrev pub mapping_of : Option (Json R) → Answer (Fields R)
  mapping_of (some (object fs)) = returned fs
  mapping_of _ = other_error

  -- the values that a value is iterated over
  abbrev pub iterated : Json R → Answer (List (Json R))
  iterated (array vs) = returned (items_of vs)
  iterated (text s) = returned (map text (characters_of s))
  iterated (object fs) = returned (map text (keys fs))
  iterated _ = other_error

  -- `d.get(key, default)`
  abbrev pub get_or : Json R → Option (Json R) → Json R
  get_or d none = d
  get_or d (some v) = v

module _ {R : Type 0} (json : JsonText R) where
  -- `u["username"] if isinstance(u, dict) else str(u)`
  abbrev pub username_of : Json R → Answer (Json R)
  username_of (object fs) = elim (get_field "username" fs) [
    | none ↦ other_error
    | some v ↦ returned v
  ]
  username_of u = returned (text (json.str_of u))

  unfoldable pub usernames_of : List (Json R) → Answer (List (Json R))
  usernames_of [] = returned []
  usernames_of (u ∷ us) = do name ← username_of u; names ← usernames_of us; returned (name ∷ names)

  module _ (server : List Request → Request → Reply R) where
    -- `list_monitored_users`
    unfoldable pub list_monitored_users : Wire → Answer (List (Json R)) × Wire
    unfolding usernames_of
    list_monitored_users wire =
        let (answer, wire') = send server get_list_users wire in
        (
          do
            body ← answer
            fs ← mapping_of body
            users ← iterated (get_or (array nil) (get_field "users" fs))
            usernames_of users,
          wire',
        )

module _ {R : Type 0} (server : List Request → Request → Reply R) where
  -- `advanced_search`
  unfoldable pub advanced_search : String → ℕ → Wire → Answer (List (Json R)) × Wire
  advanced_search query limit wire =
      let (answer, wire') = send server (get_advanced_search query limit) wire in
      (
        do
          body ← answer
          fs ← mapping_of body
          iterated (get_or (get_or (array nil) (get_field "data" fs)) (get_field "tweets" fs)),
        wire',
      )
