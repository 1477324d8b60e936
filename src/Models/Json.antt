-- ===== src/Models/Json.antt =====
-- JSON values as Python has them, over a type `R` of floats; an object's fields in order, with
-- distinct keys.

use Prim.Native.String.{String}
use mathlib.Core.Bool.{Bool}
use mathlib.Core.Option.{Option, none, some}
use mathlib.Core.List.{List, [], ◌∷◌}
use package.text.Mathlib.Text.{◌==◌ as str_eq}
use x_social_trader.Base.{ℤ, if◌then◌else◌}

mutual
  pub data Json (R : Type 0) : Type 0 where
    null : Json R
    bool : Bool → Json R
    int : ℤ → Json R
    float : R → Json R
    text : String → Json R
    array : Items R → Json R
    object : Fields R → Json R

  pub data Items (R : Type 0) : Type 0 where
    nil : Items R
    cons : Json R → Items R → Items R

  pub data Fields (R : Type 0) : Type 0 where
    end : Fields R
    field : String → Json R → Fields R → Fields R

module _ {R : Type 0} where
  -- `d.get(key)`, `none` for a missing key
  abbrev pub get_field : String → Fields R → Option (Json R)
  get_field k end = none
  get_field k (field j v fs) = if str_eq k j then some v else get_field k fs

  -- the keys of an object
  abbrev pub keys : Fields R → List String
  keys end = []
  keys (field k v fs) = k ∷ keys fs

  abbrev pub items_of : Items R → List (Json R)
  items_of nil = []
  items_of (cons v vs) = v ∷ items_of vs

-- the characters of a text, as texts
abbrev pub characters_of : String → List String
characters_of String.[] = []
characters_of (String.◌∷◌ c s) = (String.◌∷◌ c String.[]) ∷ characters_of s

-- `json.loads`, where `none` is a `JSONDecodeError`, and `str`
pub record JsonText (R : Type 0) : Type 0 where
  pub loads : String → Option (Json R)
  pub str_of : Json R → String
