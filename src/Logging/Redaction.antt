-- ===== src/Logging/Redaction.antt =====
-- What the redactor makes of a log record.
use x_social_trader.Base.{
  ◌≡◌, refl, sym, subst, String, Bool, true, false, inl, inr, List, [], ◌∷◌, Bool-cases,
  if◌then◌else◌,
}
use x_social_trader.Models.Json.{
  Json, null, bool, int, float, text, array, object, Items, nil, cons, Fields, end, field,
}
use x_social_trader.Runtime.{Runtime}
use x_social_trader.Logging.{
  redacted, redact_string, is_hidden, scrub, walk_scalar, walk, walk_items, walk_fields, redact,
}
use x_social_trader.Logging.Words.{
  IsSensitive, IsHarmless, is_hidden-IsSensitive, is_hidden-IsHarmless,
}

-- The substitutions lead from one text to the other, one after the other, none left out.
pub data Replaced : List (String → String) → String → String → Type 0 where
  done : (s : String) → Replaced [] s s
  next :
      (sub : String → String) (subs : List (String → String)) (s t : String)
      → Replaced subs (sub s) t
      → Replaced (sub ∷ subs) s t

redact_string-Replaced :
    (subs : List (String → String)) (s : String) → Replaced subs s (redact_string subs s)
unfolding redact_string
redact_string-Replaced [] s = done s
redact_string-Replaced (sub ∷ subs) s =
    next sub subs s (redact_string subs (sub s)) (redact_string-Replaced subs (sub s))

module _ {R : Type 0} where
  abbrev is_text : Json R → Bool
  is_text (text s) = true
  is_text _ = false

  abbrev is_scalar : Json R → Bool
  is_scalar (array vs) = false
  is_scalar (object fs) = false
  is_scalar _ = true

module _ {R : Type 0} (py : Runtime R) (subs : List (String → String)) where
  mutual
    -- What a value that stands under the key `k` is shown as: lists and mappings keep their shape and
    -- keys; under a sensitive key a scalar is hidden; elsewhere a text is replaced and what is no
    -- text is kept.
    pub data Shown : String → Json R → Json R → Type 0 where
      in_array : (k : String) (vs ws : Items R) → ShownItems k vs ws → Shown k (array vs) (array ws)
      in_object :
          (k : String) (fs gs : Fields R) → ShownFields fs gs → Shown k (object fs) (object gs)
      hidden :
          (k : String) (v : Json R)
          → is_scalar v ≡ true
          → IsSensitive py k
          → Shown k v (text "***REDACTED***")
      replaced : (k s t : String) → IsHarmless py k → Replaced subs s t → Shown k (text s) (text t)
      kept :
          (k : String) (v : Json R)
          → is_scalar v ≡ true
          → is_text v ≡ false
          → IsHarmless py k
          → Shown k v v

    pub data ShownItems : String → Items R → Items R → Type 0 where
      no_items : (k : String) → ShownItems k nil nil
      more_items :
          (k : String) (v w : Json R) (vs ws : Items R)
          → Shown k v w
          → ShownItems k vs ws
          → ShownItems k (cons v vs) (cons w ws)

    pub data ShownFields : Fields R → Fields R → Type 0 where
      no_fields : ShownFields end end
      more_fields :
          (j : String) (v w : Json R) (fs gs : Fields R)
          → Shown j v w
          → ShownFields fs gs
          → ShownFields (field j v fs) (field j w gs)

  scrub-Shown :
      (v : Json R) (k : String) → is_scalar v ≡ true → IsHarmless py k → Shown k v (scrub py subs v)
  scrub-Shown null k e h = kept k null refl refl h
  scrub-Shown (bool b) k e h = kept k (bool b) refl refl h
  scrub-Shown (int n) k e h = kept k (int n) refl refl h
  scrub-Shown (float x) k e h = kept k (float x) refl refl h
  scrub-Shown (text s) k e h = replaced k s (redact_string subs s) h (redact_string-Replaced subs s)
  scrub-Shown (array vs) k e h = absurd (cc e)
  scrub-Shown (object fs) k e h = absurd (cc e)

  walk_scalar-Shown :
      (v : Json R) (k : String) → is_scalar v ≡ true → Shown k v (walk_scalar py subs v k)
  unfolding walk_scalar
  walk_scalar-Shown v k e = elim (Bool-cases (is_hidden py k)) [
    | inl h ↦
        subst (λ b. Shown k v (if b then text redacted else scrub py subs v)) (sym h)
          (hidden k v e (is_hidden-IsSensitive py k h))
    | inr h ↦
        subst (λ b. Shown k v (if b then text redacted else scrub py subs v)) (sym h)
          (scrub-Shown v k e (is_hidden-IsHarmless py k h))
  ]

  mutual
    unfolding walk

    walk-Shown : (v : Json R) (k : String) → Shown k v (walk py subs v k)
    walk-Shown null k = walk_scalar-Shown null k refl
    walk-Shown (bool b) k = walk_scalar-Shown (bool b) k refl
    walk-Shown (int n) k = walk_scalar-Shown (int n) k refl
    walk-Shown (float x) k = walk_scalar-Shown (float x) k refl
    walk-Shown (text s) k = walk_scalar-Shown (text s) k refl
    walk-Shown (array vs) k = in_array k vs (walk_items py subs vs k) (walk_items-ShownItems vs k)
    walk-Shown (object fs) k = in_object k fs (walk_fields py subs fs) (walk_fields-ShownFields fs)

    walk_items-ShownItems : (vs : Items R) (k : String) → ShownItems k vs (walk_items py subs vs k)
    walk_items-ShownItems nil k = no_items k
    walk_items-ShownItems (cons v vs) k =
        more_items k v (walk py subs v k) vs (walk_items py subs vs k) (walk-Shown v k)
          (walk_items-ShownItems vs k)

    walk_fields-ShownFields : (fs : Fields R) → ShownFields fs (walk_fields py subs fs)
    walk_fields-ShownFields end = no_fields
    walk_fields-ShownFields (field j v fs) =
        more_fields j v (walk py subs v j) fs (walk_fields py subs fs) (walk-Shown v j)
          (walk_fields-ShownFields fs)

  -- A record is shown with its shape and keys. A scalar under a key, its own or that of the list
  -- around it, that is not empty and in lower case contains a word of `sensitive_words` is replaced
  -- by the mark of a redaction; under any other key, a text is replaced by what all patterns in turn
  -- make of it, and a scalar that is no text is kept.
  pub redact-Shown :
      (event_dict : Fields R) → Shown "" (object event_dict) (redact py subs event_dict)
  unfolding redact
  redact-Shown event_dict = walk-Shown (object event_dict) ""
