-- ===== src/Base/Sort/Laws.antt =====
-- The sorted list is in order, has the same elements, and does not depend on how the list was
-- ordered if no two elements tie.
use mathlib.Core.Path.{◌≡◌, refl, ◌∙◌, subst}
use mathlib.Core.Logic.{inl, inr}
use mathlib.Core.Bool.{Bool, true, false}
use mathlib.Core.List.{List, [], ◌∷◌, Perm, Permᴰ}
use mathlib.Core.List.Perm
use native.Mathlib.Omega.{arith}
use x_social_trader.Base.Tests.{Bool-cases, if◌then◌else◌}
use x_social_trader.Base.Lists.{All}
use x_social_trader.Base.Sort.Defs.{insert, sorted, ties, NoTies}

pub record IsOrder {ℓ} {A : Type ℓ} (before : A → A → Bool) : Type ℓ where
  pub total : (x y : A) → before x y ≡ false → before y x ≡ true
  pub transitive : (x y z : A) → before x y ≡ true → before y z ≡ true → before x z ≡ true

module _ {ℓ} {A : Type ℓ} (before : A → A → Bool) (order : IsOrder before) where
  abbrev pub IsSorted : List A → Type 0
  IsSorted [] = Unit
  IsSorted (x ∷ xs) = All (λ y. before x y ≡ true) xs × IsSorted xs

  All-trans :
      (x y : A) (l : List A)
      → before x y ≡ true
      → All (λ z. before y z ≡ true) l
      → All (λ z. before x z ≡ true) l
  All-trans x y [] h k = tt
  All-trans x y (z ∷ l) h k = (order.transitive x y z h k.0, All-trans x y l h k.1)

  All-insert : (P : A → Type 0) (x : A) (l : List A) → P x → All P l → All P (insert before x l)
  unfolding insert
  All-insert P x [] h k = (h, tt)
  All-insert P x (y ∷ l) h k = elim (Bool-cases (before x y)) [
    | inl e ↦ rw e (h, k)
    | inr e ↦ rw e (k.0, All-insert P x l h k.1)
  ]

  insert-IsSorted : (x : A) (l : List A) → IsSorted l → IsSorted (insert before x l)
  unfolding insert
  insert-IsSorted x [] h = (tt, tt)
  insert-IsSorted x (y ∷ l) h = elim (Bool-cases (before x y)) [
    | inl e ↦ rw e ((e, All-trans x y l e h.0), h)
    | inr e ↦
        rw e
          (All-insert (λ z. before y z ≡ true) x l (order.total x y e) h.0, insert-IsSorted x l h.1)
  ]

  pub All-sorted : (P : A → Type 0) (l : List A) → All P l → All P (sorted before l)
  unfolding sorted
  All-sorted P [] h = tt
  All-sorted P (x ∷ l) h = All-insert P x (sorted before l) h.0 (All-sorted P l h.1)

  All-uninsert : (P : A → Type 0) (x : A) (l : List A) → All P (insert before x l) → P x × All P l
  unfolding insert
  All-uninsert P x [] h = h
  All-uninsert P x (y ∷ l) h =
      split (before x y) (λ k. let t = All-uninsert P x l k.1 in (t.0, (k.0, t.1))) h
    where
      split :
          (b : Bool)
          → (P y × All P (insert before x l) → P x × All P (y ∷ l))
          → All P (if b then x ∷ y ∷ l else y ∷ insert before x l)
          → P x × All P (y ∷ l)
      split true g k = k
      split false g k = g k

  pub All-unsorted : (P : A → Type 0) (l : List A) → All P (sorted before l) → All P l
  unfolding sorted
  All-unsorted P [] h = tt
  All-unsorted P (x ∷ l) h =
      let t = All-uninsert P x (sorted before l) h in (t.0, All-unsorted P l t.1)

  pub sorted-IsSorted : (l : List A) → IsSorted (sorted before l)
  unfolding sorted
  sorted-IsSorted [] = tt
  sorted-IsSorted (x ∷ l) = insert-IsSorted x (sorted before l) (sorted-IsSorted l)

  insert-perm : (x : A) (l : List A) → Perm (insert before x l) (x ∷ l)
  unfolding insert
  insert-perm x [] = Perm.refl (x ∷ [])
  insert-perm x (y ∷ l) = elim (Bool-cases (before x y)) [
    | inl e ↦ rw e (Perm.refl (x ∷ y ∷ l))
    | inr e ↦ rw e (Perm.trans (Perm.cons y (insert-perm x l)) (Perm.swap x y l))
  ]

  pub sorted-perm : (l : List A) → Perm (sorted before l) l
  unfolding sorted
  sorted-perm [] = Perm.refl []
  sorted-perm (x ∷ l) = Perm.trans (insert-perm x (sorted before l)) (Perm.cons x (sorted-perm l))

  insert_comm :
      (x y : A) (l : List A)
      → ties before x y ≡ false
      → insert before x (insert before y l) ≡ insert before y (insert before x l)
  unfolding insert
  insert_comm x y [] h = ground (arith, order.total x y, order.total y x)
  insert_comm x y (z ∷ l) h = ground (
    arith,
    order.total x y,
    order.total y x,
    order.total x z,
    order.total y z,
    order.transitive x z y,
    order.transitive y z x,
    insert_comm x y l h,
  )

  All-perm : (P : A → Type 0) {xs ys : List A} → Permᴰ xs ys → All P xs → All P ys
  All-perm P Permᴰ.nil h = tt
  All-perm P (Permᴰ.cons e p) h = (subst P e h.0, All-perm P p h.1)
  All-perm P (Permᴰ.swap e f) h = (subst P f h.1.0, (subst P e h.0, h.1.1))
  All-perm P (Permᴰ.trans p q) h = All-perm P q (All-perm P p h)

  All-eq :
      (x y : A)
      → x ≡ y
      → (l : List A) → All (λ z. ties before x z ≡ false) l
      → All (λ z. ties before y z ≡ false) l
  All-eq x y e l h = subst (λ w. All (λ z. ties before w z ≡ false) l) e h

  ties_comm : (x y : A) → ties before x y ≡ false → ties before y x ≡ false
  ties_comm x y h = ground arith

  NoTies-perm : {xs ys : List A} → Permᴰ xs ys → NoTies before xs → NoTies before ys
  NoTies-perm Permᴰ.nil h = tt
  NoTies-perm (Permᴰ.cons {a} {b} {l₁} {l₂} e p) h =
      (All-eq a b e l₂ (All-perm (λ z. ties before a z ≡ false) p h.0), NoTies-perm p h.1)
  NoTies-perm (Permᴰ.swap {a} {b} {a'} {b'} {l} e f) h = (
    (
      subst (λ w. ties before w b' ≡ false) f
          (subst (λ w. ties before b w ≡ false) e (ties_comm a b h.0.0)),
      All-eq b a' f l h.1.0,
    ),
    (All-eq a b' e l h.0.1, h.1.1),
  )
  NoTies-perm (Permᴰ.trans p q) h = NoTies-perm q (NoTies-perm p h)

  -- Without ties, the order in which the list came does not show in the sorted list.
  pub sorted-of_perm :
      {xs ys : List A} → Permᴰ xs ys → NoTies before xs → sorted before xs ≡ sorted before ys
  unfolding sorted
  sorted-of_perm Permᴰ.nil h = refl
  sorted-of_perm (Permᴰ.cons e p) h = cc (e, sorted-of_perm p h.1)
  sorted-of_perm (Permᴰ.swap {a} {b} {a'} {b'} {l} e f) h =
      cc (e, f, insert_comm a b (sorted before l) h.0.0)
  sorted-of_perm (Permᴰ.trans p q) h = sorted-of_perm p h ∙ sorted-of_perm q (NoTies-perm p h)
