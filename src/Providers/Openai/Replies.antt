-- ===== src/Providers/Openai/Replies.antt =====
-- `_call` of backend/providers/openai_compatible.py, from the reply on.

use x_social_trader.Base.{
  ℕ, String, Bool, true, false, not, leb, Option, none, some, ℤ, pos, if◌then◌else◌,
}
use x_social_trader.Models.Json.{
  Json, bool, int, float, text, array, object, nil, cons, end, get_field,
}
use x_social_trader.Runtime.{Runtime}
use x_social_trader.Runtime.Truth.{is_truthy, truthy_or}

-- What `http.post` gives: a `RequestError`, or a status, the milliseconds that the call took and the
-- body as JSON, `none` for a body that is no JSON.
pub data Reply (R : Type 0) : Type 0 where
  failed : Reply R
  answered : ℕ → ℕ → Option (Json R) → Reply R

-- A call returns, raises an `OpenAICompatibleError`, or raises another error.
pub data Called {ℓ} (A : Type ℓ) : Type ℓ where
  returned : A → Called A
  openai_error other_error : Called A

-- `self`, without its HTTP pool
pub record Client (R : Type 0) : Type 0 where
  pub model : String
  pub cost_in : R
  pub cost_out : R

infixl 5 ◌>>=◌
abbrev pub ◌>>=◌ {ℓ κ} : {A : Type ℓ} {B : Type κ} → Called A → (A → Called B) → Called B
returned a >>= f = f a
openai_error >>= f = openai_error
other_error >>= f = other_error

abbrev pub openai_error_if : Bool → Called (Unit {0})
openai_error_if b = if b then openai_error else returned tt

abbrev pub or_other : {A : Type 0} → Option A → Called A
or_other none = other_error
or_other (some a) = returned a

module _ {R : Type 0} where
  -- `value.get(key)`: only a mapping has `get`.
  abbrev pub lookup : String → Json R → Called (Option (Json R))
  lookup k (object fs) = returned (get_field k fs)
  lookup k _ = other_error

  -- `choices[0]`: a mapping has text keys only, and a text's first character is a text.
  abbrev pub first_choice : Json R → Called (Json R)
  first_choice (array (cons v vs)) = returned v
  first_choice (text s) = returned (text s)
  first_choice _ = other_error

  -- the check that the content is a text
  abbrev pub content_of : Option (Json R) → Called String
  content_of (some (text s)) = returned s
  content_of _ = openai_error

module _ {R : Type 0} ⦃py : Runtime R⦄ where
  -- `int(usage.get(key, 0))`
  unfoldable pub tokens_of : Option (Json R) → Called ℤ
  tokens_of none = returned (pos 0)
  tokens_of (some (int n)) = returned n
  tokens_of (some (bool true)) = returned (pos 1)
  tokens_of (some (bool false)) = returned (pos 0)
  tokens_of (some (float x)) = or_other (py.int_of_float x)
  tokens_of (some (text s)) = or_other (py.int_of_text s)
  tokens_of (some _) = other_error

  -- `_call`, once the reply is there
  unfoldable pub read_reply : Client R → Reply R → Called (String × R × ℕ)
  unfolding truthy_or tokens_of is_truthy
  read_reply client failed = openai_error
  read_reply client (answered status latency_ms body) = do
    _ ← openai_error_if (leb 400 status)
    payload ← or_other body
    choices_field ← lookup "choices" payload
    let choices = truthy_or (array nil) choices_field
    _ ← openai_error_if (not (is_truthy choices))
    choice ← first_choice choices
    message_field ← lookup "message" choice
    content_field ← lookup "content" (elim message_field [ none ↦ object end | some v ↦ v ])
    content ← content_of content_field
    usage_field ← lookup "usage" payload
    let usage = truthy_or (object end) usage_field
    prompt_field ← lookup "prompt_tokens" usage
    prompt_tokens ← tokens_of prompt_field
    completion_field ← lookup "completion_tokens" usage
    completion_tokens ← tokens_of completion_field
    prompts ← or_other (py.of_int prompt_tokens)
    completions ← or_other (py.of_int completion_tokens)
    returned (
      content,
      py.add (py.mul prompts client.cost_in) (py.mul completions client.cost_out),
      latency_ms,
    )
