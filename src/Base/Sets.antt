-- ===== src/Base/Sets.antt =====
-- Python's sets of texts, as `sorted` lists them: in order, each once, whatever the set was built
-- from.
use Prim.Native.String.{String}
use mathlib.Core.Path.{◌≡◌, refl}
use mathlib.Core.Logic.{inl, inr}
use mathlib.Core.Bool.{true, ◌||◌}
use mathlib.Core.List.{List, [], ◌∷◌}
use native.Mathlib.Omega.{arith}
use text.Mathlib.Text.{◌==◌}
use text.Mathlib.TextEquality.{eq_iff}
use text.Mathlib.TextPositions.{eq_refl}
use x_social_trader.Base.Tests.{if◌then◌else◌, Bool-cases}
use x_social_trader.Base.Lists.{All, Absent, Distinct, contains, contains-Absent}
use x_social_trader.Base.Texts.{str_leb, str_leb_total, str_leb_trans, str_leb_antisymm}
use x_social_trader.Base.Sort.{insert, sorted, IsOrder, IsSorted, sorted-IsSorted}

-- every text of a list once
unfoldable pub distinct_texts : List String → List String
distinct_texts [] = []
distinct_texts (x ∷ xs) = if contains x xs then distinct_texts xs else x ∷ distinct_texts xs

-- `sorted(set(xs))`
unfoldable pub sorted_set : List String → List String
unfolding distinct_texts
sorted_set xs = sorted str_leb (distinct_texts xs)

pub sorted_set-nil : sorted_set [] ≡ []
unfolding sorted_set sorted
sorted_set-nil = refl

pub str_leb-IsOrder : IsOrder str_leb
str_leb-IsOrder = record { total = str_leb_total; transitive = str_leb_trans }

contains-distinct_texts :
    (k : String) (xs : List String) → contains k (distinct_texts xs) ≡ contains k xs
unfolding distinct_texts
contains-distinct_texts k [] = refl
contains-distinct_texts k (x ∷ xs) =
    ground (arith, eq_iff k x, contains-distinct_texts k xs, contains-distinct_texts x xs)

contains-insert :
    (k x : String) (l : List String) → contains k (insert str_leb x l) ≡ (k == x || contains k l)
unfolding insert
contains-insert k x [] = refl
contains-insert k x (y ∷ l) = ground (arith, contains-insert k x l)

contains-sorted : (k : String) (l : List String) → contains k (sorted str_leb l) ≡ contains k l
unfolding sorted
contains-sorted k [] = refl
contains-sorted k (x ∷ l) =
    ground (arith, contains-insert k x (sorted str_leb l), contains-sorted k l)

pub contains-sorted_set :
    (k : String) (xs : List String) → contains k (sorted_set xs) ≡ contains k xs
unfolding sorted_set
contains-sorted_set k xs =
    ground (arith, contains-sorted k (distinct_texts xs), contains-distinct_texts k xs)

Distinct-distinct_texts : (xs : List String) → Distinct (distinct_texts xs)
unfolding distinct_texts
Distinct-distinct_texts [] = tt
Distinct-distinct_texts (x ∷ xs) = elim (Bool-cases (contains x xs)) [
  | inl e ↦ rw e (Distinct-distinct_texts xs)
  | inr e ↦ rw e (
    (contains-Absent x (distinct_texts xs)).0 (ground (arith, e, contains-distinct_texts x xs)),
    Distinct-distinct_texts xs,
  )
]

Distinct-insert :
    (x : String) (l : List String) → Absent x l → Distinct l → Distinct (insert str_leb x l)
unfolding insert
Distinct-insert x [] h d = (tt, tt)
Distinct-insert x (y ∷ l) h d = elim (Bool-cases (str_leb x y)) [
  | inl e ↦ rw e (h, d)
  | inr e ↦ rw e (
    (contains-Absent y (insert str_leb x l)).0
        (ground (arith, contains-insert y x l, eq_iff y x, h.0, (contains-Absent y l).1 d.0)),
    Distinct-insert x l h.1 d.1,
  )
]

Distinct-sorted : (l : List String) → Distinct l → Distinct (sorted str_leb l)
unfolding sorted
Distinct-sorted [] h = tt
Distinct-sorted (x ∷ l) h =
    Distinct-insert x (sorted str_leb l)
      ((contains-Absent x (sorted str_leb l)).0
        (ground (arith, contains-sorted x l, (contains-Absent x l).1 h.0)))
      (Distinct-sorted l h.1)

pub Distinct-sorted_set : (xs : List String) → Distinct (sorted_set xs)
unfolding sorted_set
Distinct-sorted_set xs = Distinct-sorted (distinct_texts xs) (Distinct-distinct_texts xs)

pub sorted_set-IsSorted : (xs : List String) → IsSorted str_leb str_leb-IsOrder (sorted_set xs)
unfolding sorted_set
sorted_set-IsSorted xs = sorted-IsSorted str_leb str_leb-IsOrder (distinct_texts xs)

-- The first text of a list in order is before each text in it.
le_of_contains :
    (x k : String) (l : List String)
    → All (λ y. str_leb x y ≡ true) l
    → contains k l ≡ true
    → str_leb x k ≡ true
le_of_contains x k [] h c = cc
le_of_contains x k (y ∷ l) h c = ground (arith, eq_iff k y, le_of_contains x k l h.1)

abbrev pub SameTexts : List String → List String → Type 0
SameTexts xs ys = (k : String) → contains k xs ≡ contains k ys

module _ (x y : String) (xs ys : List String) (h : SameTexts (x ∷ xs) (y ∷ ys)) where
  equal_heads : All (λ z. str_leb x z ≡ true) xs → All (λ z. str_leb y z ≡ true) ys → x ≡ y
  equal_heads s t = ground (
    arith,
    h x,
    h y,
    eq_iff x y,
    eq_iff y x,
    eq_refl x,
    eq_refl y,
    le_of_contains x y xs s,
    le_of_contains y x ys t,
    str_leb_antisymm x y,
  )

  equal_tails : x ≡ y → Absent x xs → Absent y ys → SameTexts xs ys
  equal_tails e a b k = ground (
    arith,
    e,
    h k,
    eq_iff k x,
    eq_iff k y,
    (contains-Absent x xs).1 a,
    (contains-Absent y ys).1 b,
  )

-- Two lists in order that hold the same texts, each once, are equal.
equal_of_sorted :
    (xs ys : List String)
    → IsSorted str_leb str_leb-IsOrder xs
    → IsSorted str_leb str_leb-IsOrder ys
    → Distinct xs
    → Distinct ys
    → SameTexts xs ys
    → xs ≡ ys
equal_of_sorted [] [] s t d e h = refl
equal_of_sorted [] (y ∷ ys) s t d e h = ground (arith, h y, eq_refl y)
equal_of_sorted (x ∷ xs) [] s t d e h = ground (arith, h x, eq_refl x)
equal_of_sorted (x ∷ xs) (y ∷ ys) s t d e h =
    let same_head = equal_heads x y xs ys h s.0 t.0 in
    cc
      (same_head, equal_of_sorted xs ys s.1 t.1 d.1 e.1 (equal_tails x y xs ys h same_head d.0 e.0))

-- The list of a set depends on its elements alone.
pub sorted_set-of_same : (xs ys : List String) → SameTexts xs ys → sorted_set xs ≡ sorted_set ys
sorted_set-of_same xs ys h =
    equal_of_sorted (sorted_set xs) (sorted_set ys) (sorted_set-IsSorted xs)
      (sorted_set-IsSorted ys) (Distinct-sorted_set xs) (Distinct-sorted_set ys)
      (λ k. ground (arith, contains-sorted_set k xs, contains-sorted_set k ys, h k))
