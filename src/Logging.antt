-- ===== src/Logging.antt =====
-- The redactor of backend/core/logging.py, on the values that a log record holds; lists and tuples
-- are both `array`. `pattern.sub(REDACTED, ·)` is a parameter for each of SECRET_VALUE_PATTERNS.
mod Words
pub mod Redaction
use Prim.Native.String
use package.text.Mathlib.Text.{starts_with}
use x_social_trader.Base.{
  String, str_eq, Bool, true, false, ◌&&◌, ◌||◌, not, List, [], ◌∷◌, if◌then◌else◌,
}
use x_social_trader.Models.Json.{
  Json, null, bool, int, float, text, array, object, Items, nil, cons, Fields, end, field,
}
use x_social_trader.Runtime.{Runtime}

-- REDACTED
abbrev pub redacted : String
redacted = "***REDACTED***"

-- SENSITIVE_KEY_SUBSTRINGS
abbrev pub sensitive_key_substrings : List String
sensitive_key_substrings =
    "password" ∷ "passwd" ∷ "secret" ∷ "token" ∷ "api_key" ∷ "apikey" ∷ "authorization" ∷ "cookie"
    ∷ "bearer" ∷ "session_id" ∷ "twitterapi_io_key" ∷ "llm_api_key" ∷ "telegram_bot_token"
    ∷ "ib_account" ∷ "account_id" ∷ "ib_expected_account_id" ∷ []

-- `sub in s`
abbrev pub occurs_in : String → String → Bool
occurs_in sub String.[] = str_eq sub ""
occurs_in sub (String.◌∷◌ c s) = starts_with (String.◌∷◌ c s) sub || occurs_in sub s

abbrev pub any_occurs : List String → String → Bool
any_occurs [] k = false
any_occurs (s ∷ ss) k = occurs_in s k || any_occurs ss k

-- `_redact_string`
unfoldable pub redact_string : List (String → String) → String → String
redact_string [] value = value
redact_string (sub ∷ subs) value = redact_string subs (sub value)

module _ {R : Type 0} (py : Runtime R) where
  -- `_key_is_sensitive`
  unfoldable pub key_is_sensitive : String → Bool
  key_is_sensitive key = any_occurs sensitive_key_substrings (py.lower key)

  -- `parent_key and _key_is_sensitive(parent_key)`
  unfoldable pub is_hidden : String → Bool
  is_hidden parent_key = not (str_eq parent_key "") && key_is_sensitive parent_key

module _ {R : Type 0} (py : Runtime R) (subs : List (String → String)) where
  -- `_redact_string` on what is a text
  abbrev pub scrub : Json R → Json R
  scrub (text s) = text (redact_string subs s)
  scrub v = v

  -- what becomes of a value that is no mapping, list or tuple
  unfoldable pub walk_scalar : Json R → String → Json R
  walk_scalar v parent_key = if is_hidden py parent_key then text redacted else scrub v

  unfoldable mutual
    -- `_walk`
    pub walk : Json R → String → Json R
    walk null k = walk_scalar null k
    walk (bool b) k = walk_scalar (bool b) k
    walk (int n) k = walk_scalar (int n) k
    walk (float x) k = walk_scalar (float x) k
    walk (text s) k = walk_scalar (text s) k
    walk (array vs) k = array (walk_items vs k)
    walk (object fs) k = object (walk_fields fs)

    pub walk_items : Items R → String → Items R
    walk_items nil k = nil
    walk_items (cons v vs) k = cons (walk v k) (walk_items vs k)

    pub walk_fields : Fields R → Fields R
    walk_fields end = end
    walk_fields (field k v fs) = field k (walk v k) (walk_fields fs)

  -- `StructlogRedactor.__call__`
  unfoldable pub redact : Fields R → Json R
  unfolding walk
  redact event_dict = walk (object event_dict) ""
