-- ===== src/Runtime.antt =====
-- What the program takes from Python and from hashlib: floats and the tests on them, numbers as
-- text, the calendar, letter case, digests. Each is an operation of this record, an argument of the
-- code that uses it; `Runtime/Ieee.antt` has the laws of IEEE 754 comparison that some theorems
-- name among their hypotheses, and `Runtime/Sample.antt` an instance to run the code on.
pub mod Ieee
pub mod Sample
pub mod Truth
use x_social_trader.Base.{ℕ, String, Bool, Option, List, ℤ, if◌then◌else◌}
use x_social_trader.Models.{Scalar, EngineInputs}

pub record Runtime (R : Type 0) : Type 0 where
  -- float arithmetic; `sum` of a list of floats; `int * float`
  pub add : R → R → R
  pub sub : R → R → R
  pub mul : R → R → R
  pub div : R → R → R
  pub sum : List R → R
  pub mul_int : ℕ → R → R
  -- `<`, `<=` and `==` between floats, and `==` between a float and an int
  pub lt : R → R → Bool
  pub le : R → R → Bool
  pub eq : R → R → Bool
  pub eq_int : R → ℤ → Bool
  -- the literals 0.0, 100.0 and 1.0
  pub zero : R
  pub hundred : R
  pub one : R
  -- `float(n)`, or an `OverflowError`; `float(s)`, or a `ValueError`
  pub of_int : ℤ → Option R
  pub of_text : String → Option R
  -- `int(x)`, or an error for a NaN and the infinities
  pub int_of_float : R → Option ℤ
  -- `int(s)`, or a `ValueError`
  pub int_of_text : String → Option ℤ
  -- f"{x}", f"{x:.2f}", f"{x:.4f}", f"{n}", repr of a text
  pub show : R → String
  pub fixed2 : R → String
  pub fixed4 : R → String
  pub show_int : ℤ → String
  pub repr : String → String
  -- the date of an instant in UTC, `isoformat`, and numbers padded with zeros to a width
  pub year : ℕ → ℕ
  pub month : ℕ → ℕ
  pub day : ℕ → ℕ
  pub isoformat : ℕ → String
  pub padded : ℕ → ℕ → String
  -- the value that Redis' INCRBYFLOAT leaves under a key, from the one that it found and the increment
  pub incrbyfloat : Option R → R → R
  -- `str.lower`, `str.upper`
  pub lower : String → String
  pub upper : String → String
  -- `lower` of SQL
  pub sql_lower : String → String
  -- sha256 of the JSON text of a mapping: that of a risk check holds scalars under texts; that of the
  -- engine holds what the conditions of a rule hold, which `json.dumps` can refuse with a `TypeError`
  -- (a mapping with keys that it cannot sort or write)
  pub digest : List (String × Scalar R) → String
  pub engine_digest : EngineInputs R → Option String

-- `max(0.0, x)`: the second argument only if it is greater.
abbrev pub max_zero : {R : Type 0} ⦃py : Runtime R⦄ → R → R
max_zero ⦃py⦄ x = if py.lt py.zero x then x else py.zero
