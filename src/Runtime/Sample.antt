-- ===== src/Runtime/Sample.antt =====
-- An instance of `Runtime` to run the code on: numbers with two decimals, kept in hundredths, and a
-- NaN. Integers from a million on are out of range. Texts, dates and digests are only sketched.

use x_social_trader.Base.{
  ℕ, zero, suc, str_append, ◌+◌, ◌-◌, ◌*◌, ◌/◌, ◌≡◌, ◌≢◌, refl, String, Bool, true, false, Option,
  none, some, List, [], ◌∷◌, ℤ, pos, negsuc, pos_part, neg_part, ltb_ℤ, leb_ℤ, eq_ℤ, ltb, leb, ◌==◌,
  arith, if◌then◌else◌,
}
use x_social_trader.Runtime.{Runtime}
use x_social_trader.Runtime.Ieee.{Ieee}

pub data Sample : Type 0 where
  num : ℤ → Sample
  nan : Sample

abbrev difference : ℕ → ℕ → ℤ
difference a b = if leb b a then pos (a - b) else negsuc (b - a - 1)

abbrev sample_add : Sample → Sample → Sample
sample_add (num a) (num b) = num (difference (pos_part a + pos_part b) (neg_part a + neg_part b))
sample_add _ _ = nan

abbrev sample_sub : Sample → Sample → Sample
sample_sub (num a) (num b) = num (difference (pos_part a + neg_part b) (neg_part a + pos_part b))
sample_sub _ _ = nan

abbrev sample_mul : Sample → Sample → Sample
sample_mul (num a) (num b) = num (
    difference ((pos_part a * pos_part b + neg_part a * neg_part b) / 100)
      ((pos_part a * neg_part b + neg_part a * pos_part b) / 100))
sample_mul _ _ = nan

abbrev sample_div : Sample → Sample → Sample
sample_div (num a) (num b) =
    if pos_part b == 0
    then nan
    else num (difference (pos_part a * 100 / pos_part b) (neg_part a * 100 / pos_part b))
sample_div _ _ = nan

abbrev sample_sum : List Sample → Sample
sample_sum [] = num (pos 0)
sample_sum (x ∷ xs) = sample_add x (sample_sum xs)

abbrev sample_mul_int : ℕ → Sample → Sample
sample_mul_int n (num a) = num (difference (n * pos_part a) (n * neg_part a))
sample_mul_int n nan = nan

abbrev compared : (ℤ → ℤ → Bool) → Sample → Sample → Bool
compared test (num a) (num b) = test a b
compared test _ _ = false

abbrev hundredths : ℤ → Sample
hundredths a = num (difference (100 * pos_part a) (100 * neg_part a))

abbrev sample_of_int : ℤ → Option Sample
sample_of_int a =
    if ltb (pos_part a) 1_000_000
    then (if ltb (neg_part a) 1_000_000 then some (hundredths a) else none)
    else none

-- strokes for a number
abbrev strokes : ℕ → String
strokes zero = ""
strokes (suc n) = str_append "I" (strokes n)

-- the number of characters, which is what strokes stand for
abbrev counted : String → ℕ
counted String.[] = zero
counted (String.◌∷◌ c s) = suc (counted s)

abbrev sample_show_int : ℤ → String
sample_show_int a = strokes (pos_part a)

abbrev sample_show : Sample → String
sample_show (num a) = "number"
sample_show nan = "nan"

abbrev sample_incrbyfloat : Option Sample → Sample → Sample
sample_incrbyfloat none x = x
sample_incrbyfloat (some y) x = sample_add y x

instance abbrev pub sample : Runtime Sample
sample = record {
  add = sample_add;
  sub = sample_sub;
  mul = sample_mul;
  div = sample_div;
  sum = sample_sum;
  mul_int = sample_mul_int;
  lt = compared ltb_ℤ;
  le = compared leb_ℤ;
  eq = compared eq_ℤ;
  eq_int = λ x n. compared eq_ℤ x (hundredths n);
  zero = num (pos 0);
  hundred = num (pos 10_000);
  one = num (pos 100);
  of_int = sample_of_int;
  of_text = λ s. none;
  int_of_float = λ x. none;
  int_of_text = λ s. some (pos (counted s));
  show = sample_show;
  fixed2 = sample_show;
  fixed4 = sample_show;
  show_int = sample_show_int;
  repr = λ s. s;
  year = λ t. 3;
  month = λ t. 1;
  day = λ t. 1;
  isoformat = λ t. "2026-01-01";
  padded = λ width n. strokes n;
  incrbyfloat = sample_incrbyfloat;
  lower = λ s. s;
  upper = λ s. s;
  sql_lower = λ s. s;
  digest = λ payload. "";
  engine_digest = λ inputs. some "";
}

eq_self : (a : ℤ) → eq_ℤ a a ≡ true
eq_self a = ground arith

leb_of_not_ltb : (a b : ℤ) → ltb_ℤ a b ≡ false → leb_ℤ b a ≡ true
leb_of_not_ltb a b h = ground arith

is_number_or_nan : (a : ℤ) → compared eq_ℤ (num a) (num a) ≢ false
is_number_or_nan a h = ground (arith, eq_self a)

sample_le_of_not_lt :
    (x y : Sample)
    → compared eq_ℤ x x ≡ true
    → compared eq_ℤ y y ≡ true
    → compared ltb_ℤ x y ≡ false
    → compared leb_ℤ y x ≡ true
sample_le_of_not_lt (num a) (num b) g h k = leb_of_not_ltb a b k
sample_le_of_not_lt nan _ g h k = absurd (ground (arith, g))
sample_le_of_not_lt (num a) nan g h k = absurd (ground (arith, h))

compared_nan :
    (test : ℤ → ℤ → Bool) (x y : Sample) → compared eq_ℤ x x ≡ false → compared test x y ≡ false
compared_nan test (num a) y h = absurd (is_number_or_nan a h)
compared_nan test nan y h = refl

compared_with_nan :
    (test : ℤ → ℤ → Bool) (x y : Sample) → compared eq_ℤ y y ≡ false → compared test x y ≡ false
compared_with_nan test x (num a) h = absurd (is_number_or_nan a h)
compared_with_nan test (num a) nan h = refl
compared_with_nan test nan nan h = refl

mul_with_nan :
    (x y : Sample)
    → compared eq_ℤ y y ≡ false
    → compared eq_ℤ (sample_mul x y) (sample_mul x y) ≡ false
mul_with_nan x (num a) h = absurd (is_number_or_nan a h)
mul_with_nan (num a) nan h = refl
mul_with_nan nan nan h = refl

-- The laws that the theorems name hold of it.
pub sample-Ieee : Ieee sample
sample-Ieee = record {
  le_of_not_lt = sample_le_of_not_lt;
  lt_nan = compared_nan ltb_ℤ;
  nan_lt = compared_with_nan ltb_ℤ;
  le_nan = compared_nan leb_ℤ;
  nan_le = compared_with_nan leb_ℤ;
  mul_nan = mul_with_nan;
}
