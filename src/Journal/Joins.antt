-- ===== src/Journal/Joins.antt =====
-- What the joins of the journal find.
use mathlib.Core.Logic.Or
use mathlib.Core.Bool.{Bool-set}
use mathlib.Core.List.{Mem, Mem-prop, mem-cons, mem-cons_of_mem, mem-cons_self, not-mem-nil}
use x_social_trader.Base.{
  ◌⊎◌, Bool, true, ◌&&◌, ◌≡◌, refl, sym, subst, ◌∙◌, ap, Option, none, some, List, [], ◌∷◌, map,
  keep, any, any-append, All, All-append, arith, inl, inr, Bool-cases,
}
use x_social_trader.Journal.{or_null, for_each}

pub All-map {ℓ κ μ ν} :
    {A : Type ℓ} {B : Type κ} (Q : A → Type ν) (P : B → Type μ) (f : A → B) (xs : List A)
    → All Q xs
    → ((x : A) → Q x → P (f x))
    → All P (map f xs)
All-map Q P f [] h k = tt
All-map Q P f (x ∷ xs) h k = (k x h.0, All-map Q P f xs h.1 k)

module _ {ℓ} {A : Type ℓ} where
  pub any-intro :
      (p q : A → Bool) (xs : List A)
      → any p xs ≡ true
      → ((x : A) → p x ≡ true → q x ≡ true)
      → any q xs ≡ true
  any-intro p q [] h f = absurd (ground arith)
  any-intro p q (x ∷ xs) h f = elim (Bool-cases (p x)) [
    | inl e ↦ ground (arith, f x e)
    | inr e ↦ ground (arith, any-intro p q xs (ground (arith, h, e)) f)
  ]

  pub mem-any : (p : A → Bool) (a : A) (xs : List A) → Mem a xs → p a ≡ true → any p xs ≡ true
  mem-any p a [] m h = absurd (not-mem-nil m)
  mem-any p a (x ∷ xs) m h =
      Or.elim (Bool-set (any p (x ∷ xs)) true) (mem-cons.0 m)
        (λ e. let first : p x ≡ true = ap p (sym e) ∙ h in ground (arith, first))
        (λ t. ground (arith, mem-any p a xs t h))

  -- What holds of all holds of each.
  pub mem-All :
      {K : Type 0} (key : A → K) {ks : List K} (xs : List A)
      → All (λ x. Mem (key x) ks) xs
      → (a : A) → Mem a xs
      → Mem (key a) ks
  mem-All key [] h a m = absurd (not-mem-nil m)
  mem-All key {ks} (x ∷ xs) h a m =
      Or.elim Mem-prop (mem-cons.0 m) (λ e. subst (λ y. Mem (key y) ks) (sym e) h.0)
        (mem-All key xs h.1 a)

  -- What is kept of a table fits and is of the table.
  pub keep-Mem : (p : A → Bool) (xs : List A) → All (λ x. (p x ≡ true) × Mem x xs) (keep p xs)
  keep-Mem p xs = kept xs (λ x m. m)
    where
      kept :
          (ys : List A)
          → ((x : A) → Mem x ys → Mem x xs)
          → All (λ x. (p x ≡ true) × Mem x xs) (keep p ys)
      kept [] f = tt
      kept (y ∷ ys) f =
          let rest = kept ys (λ x m. f x (mem-cons_of_mem y m)) in
          elim (Bool-cases (p y)) [
            | inl e ↦ rw e ((e, f y mem-cons_self), rest)
            | inr e ↦ rw e rest
          ]

  -- What a left join pairs with a row that has no partner is NULL, and else one that fits.
  pub or_null-All {κ} :
      (P : A → Type κ) (xs : List A)
      → All P xs
      → All (λ o. (o ≡ none) ⊎ ((x : A) × (o ≡ some x) × P x)) (or_null xs)
  or_null-All P [] h = (inl refl, tt)
  or_null-All P (x ∷ xs) h = joined (x ∷ xs) h
    where
      joined :
          (ys : List A)
          → All P ys
          → All (λ o. (o ≡ none) ⊎ ((x : A) × (o ≡ some x) × P x)) (map some ys)
      joined [] h = tt
      joined (y ∷ ys) h = (inr (y, refl, h.0), joined ys h.1)

  -- A left join finds something where a row fits, and in any case it has a row.
  pub or_null-found {κ} :
      (P : A → Type κ) (xs : List A)
      → any (λ x. true) xs ≡ true
      → All P xs
      → All (λ o. (x : A) × (o ≡ some x) × P x) (or_null xs)
  or_null-found P [] e h = absurd (ground (arith, e))
  or_null-found P (x ∷ xs) e h = joined (x ∷ xs) h
    where
      joined : (ys : List A) → All P ys → All (λ o. (x : A) × (o ≡ some x) × P x) (map some ys)
      joined [] h = tt
      joined (y ∷ ys) h = ((y, refl, h.0), joined ys h.1)

  pub or_null-any : (xs : List A) → any (λ o. true) (or_null xs) ≡ true
  or_null-any [] = refl
  or_null-any (x ∷ xs) = refl

module _ {ℓ κ} {A : Type ℓ} {B : Type κ} where
  pub any-map : (p : B → Bool) (f : A → B) (xs : List A) → any p (map f xs) ≡ any (λ x. p (f x)) xs
  any-map p f [] = refl
  any-map p f (x ∷ xs) = ground (arith, any-map p f xs)

  pub any-for_each :
      (p : B → Bool) (xs : List A) (f : A → List B)
      → any p (for_each xs f) ≡ any (λ x. any p (f x)) xs
  any-for_each p [] f = refl
  any-for_each p (x ∷ xs) f =
      ground (arith, any-append p (f x) (for_each xs f), any-for_each p xs f)

  pub All-for_each {μ} :
      (P : B → Type μ) (xs : List A) (f : A → List B)
      → All (λ x. All P (f x)) xs
      → All P (for_each xs f)
  All-for_each P [] f h = tt
  All-for_each P (x ∷ xs) f h = All-append P (f x) (for_each xs f) h.0 (All-for_each P xs f h.1)

module _ {ℓ} {A : Type ℓ} where
  pub any-keep :
      (p q : A → Bool) (xs : List A) → any (λ x. p x && q x) xs ≡ true → any q (keep p xs) ≡ true
  any-keep p q [] h = absurd (ground arith)
  any-keep p q (x ∷ xs) h = ground (arith, h, any-keep p q xs)

  pub any-or_null :
      (r : Option A → Bool) (xs : List A)
      → any (λ x. r (some x)) xs ≡ true
      → any r (or_null xs) ≡ true
  any-or_null r [] h = absurd (ground arith)
  any-or_null r (x ∷ xs) h = any-map r some (x ∷ xs) ∙ h

  -- A key that stands in a table is found in it.
  pub key-any :
      {K : Type 0} (key : A → K) (p : K → Bool) (k : K) (xs : List A)
      → Mem k (map key xs)
      → p k ≡ true
      → any (λ x. p (key x)) xs ≡ true
  key-any key p k xs m h = sym (any-map p key xs) ∙ mem-any p k (map key xs) m h

  pub All-and {κ μ} :
      (P : A → Type κ) (Q : A → Type μ) (xs : List A) → All P xs → ((x : A) → P x → Q x) → All Q xs
  All-and P Q [] h f = tt
  All-and P Q (x ∷ xs) h f = (f x h.0, All-and P Q xs h.1 f)
