-- ===== src/Logging/Words.antt =====
-- The test for a sensitive key, against what it is to contain a word.

use mathlib.Core.List.{Mem, mem-cons_of_mem, mem-cons_self}
use text.Mathlib.Text.{starts_with}
use text.Mathlib.TextEquality.{eq_iff, starts_with_iff}
use text.Mathlib.TextLemmas.{append-nil, nil-append, cons-append, append_assoc, cons≢nil}
use x_social_trader.Base.{
  ◌≡◌, ◌≢◌, ◌⊎◌, inl, inr, refl, sym, subst, ap, ◌∙◌, String, str_append, str_eq, true, false, List,
  [], ◌∷◌, All, Bool-cases, arith,
}
use x_social_trader.Runtime.{Runtime}
use x_social_trader.Logging.{
  occurs_in, any_occurs, sensitive_key_substrings, key_is_sensitive, is_hidden,
}

-- The text is the word with something before it and something behind it.
abbrev pub Contains : String → String → Type 0
Contains w s = (u : String) × (v : String) × (str_append u (str_append w v) ≡ s)

occurs_in-Contains : (w s : String) → occurs_in w s ≡ true → Contains w s
occurs_in-Contains w String.[] h =
    ("", "", nil-append (str_append w "") ∙ append-nil w ∙ (eq_iff w "").0 h)
occurs_in-Contains w (String.◌∷◌ c s) h = elim (Bool-cases (starts_with (String.◌∷◌ c s) w)) [
  | inl e ↦
      let (v, p) = (starts_with_iff (String.◌∷◌ c s) w).0 e in
      ("", v, nil-append (str_append w v) ∙ p)
  | inr e ↦
      let (u, v, p) = occurs_in-Contains w s (ground (arith, h, e)) in
      (String.◌∷◌ c u, v, cons-append c u (str_append w v) ∙ ap (String.◌∷◌ c) p)
]

starts_with-occurs_in : (w s : String) → starts_with s w ≡ true → occurs_in w s ≡ true
starts_with-occurs_in String.[] String.[] h = refl
starts_with-occurs_in (String.◌∷◌ d w) String.[] h =
    let (v, p) = (starts_with_iff String.[] (String.◌∷◌ d w)).0 h in
    absurd (cons≢nil (sym (cons-append d w v) ∙ p))
starts_with-occurs_in w (String.◌∷◌ c s) h = ground (arith, h)

occurs_in-append : (w u v : String) → occurs_in w (str_append u (str_append w v)) ≡ true
occurs_in-append w String.[] v = starts_with-occurs_in w (str_append String.[] (str_append w v)) (
    (starts_with_iff (str_append String.[] (str_append w v)) w).1
      (v, sym (nil-append (str_append w v))))
occurs_in-append w (String.◌∷◌ c u) v =
    subst (λ s. occurs_in w s ≡ true) (sym (cons-append c u (str_append w v)))
      (ground (arith, occurs_in-append w u v))

Contains-occurs_in : (w s : String) → Contains w s → occurs_in w s ≡ true
Contains-occurs_in w s (u, v, p) = subst (λ t. occurs_in w t ≡ true) p (occurs_in-append w u v)

-- A text that contains a longer word contains the word in it.
occurs_in-part :
    (w before behind s : String)
    → occurs_in (str_append before (str_append w behind)) s ≡ true
    → occurs_in w s ≡ true
occurs_in-part w before behind s h =
    let (u, v, p) = occurs_in-Contains (str_append before (str_append w behind)) s h in
    Contains-occurs_in w s (
      str_append u before,
      str_append behind v,
      append_assoc u before (str_append w (str_append behind v))
          ∙ ap (str_append u) (
              ap (str_append before) (sym (append_assoc w behind v))
              ∙ sym (append_assoc before (str_append w behind) v))
          ∙ p,
    )

-- The words that make a key sensitive: the others of the redactor's list contain one of these.
abbrev pub sensitive_words : List String
sensitive_words =
    "password" ∷ "passwd" ∷ "secret" ∷ "token" ∷ "api_key" ∷ "apikey" ∷ "authorization" ∷ "cookie"
    ∷ "bearer" ∷ "session_id" ∷ "twitterapi_io_key" ∷ "ib_account" ∷ "account_id" ∷ []

any_occurs-words :
    (k : String) → any_occurs sensitive_key_substrings k ≡ any_occurs sensitive_words k
any_occurs-words k = ground (
  arith,
  occurs_in-part "api_key" "llm_" "" k,
  occurs_in-part "token" "telegram_bot_" "" k,
  occurs_in-part "account_id" "ib_expected_" "" k,
)

any_occurs-found :
    (ws : List String) (k : String)
    → any_occurs ws k ≡ true
    → (w : String) × Mem w ws × Contains w k
any_occurs-found [] k h = absurd (ground (arith, h))
any_occurs-found (w ∷ ws) k h = elim (Bool-cases (occurs_in w k)) [
  | inl e ↦ (w, mem-cons_self, occurs_in-Contains w k e)
  | inr e ↦
      let (x, m, c) = any_occurs-found ws k (ground (arith, h, e)) in (x, mem-cons_of_mem w m, c)
]

any_occurs-none :
    (ws : List String) (k : String) → any_occurs ws k ≡ false → All (λ w. ¬ Contains w k) ws
any_occurs-none [] k h = tt
any_occurs-none (w ∷ ws) k h = (
  λ c. absurd (ground (arith, h, Contains-occurs_in w k c)),
  any_occurs-none ws k (ground (arith, h)),
)

module _ {R : Type 0} (py : Runtime R) where
  -- The key is not empty, and in lower case it contains one of the words.
  abbrev pub IsSensitive : String → Type 0
  IsSensitive key = (key ≢ "") × (w : String) × Mem w sensitive_words × Contains w (py.lower key)

  -- The key is empty, or in lower case it contains none of the words.
  abbrev pub IsHarmless : String → Type 0
  IsHarmless key = (key ≡ "") ⊎ All (λ w. ¬ Contains w (py.lower key)) sensitive_words

  pub is_hidden-IsSensitive : (key : String) → is_hidden py key ≡ true → IsSensitive key
  unfolding is_hidden key_is_sensitive
  is_hidden-IsSensitive key h =
      let (w, m, c) =
        any_occurs-found sensitive_words (py.lower key)
          (ground (arith, h, any_occurs-words (py.lower key))) in
      (λ e. absurd (ground (arith, h, (eq_iff key "").1 e)), w, m, c)

  pub is_hidden-IsHarmless : (key : String) → is_hidden py key ≡ false → IsHarmless key
  unfolding is_hidden key_is_sensitive
  is_hidden-IsHarmless key h = elim (Bool-cases (str_eq key "")) [
    | inl e ↦ inl ((eq_iff key "").0 e)
    | inr e ↦ inr (
        any_occurs-none sensitive_words (py.lower key)
          (ground (arith, h, e, any_occurs-words (py.lower key))))
  ]
