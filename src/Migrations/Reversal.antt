-- ===== src/Migrations/Reversal.antt =====
-- The downgrade undoes the upgrade, in any database that has none of their names.
use x_social_trader.Base.{
  String, str_eq, Bool, true, false, not, ◌&&◌, ◌||◌, ◌≡◌, refl, ap, ◌∙◌, none, some, List, [], ◌∷◌,
  ◌++◌, contains, any, any-append, All, all, keep, arith, inl, inr, Option-cases,
}
use x_social_trader.Migrations.{
  Object, trigger_object, Schema, Command, create, drop_table, drop_index, drop_if_exists, name_of,
  is_table, stands_on, refers_to, has_column, needs, needs_tables, execute, migrate,
}
use x_social_trader.Migrations.Revisions.{upgrade_head, downgrade_base, audit_tables}

abbrev pub subject : Command → String
subject (create o) = name_of o
subject (drop_table t) = t
subject (drop_index n) = n
subject (drop_if_exists n) = n

-- The object has the name, or stands on the table of that name or refers to it.
abbrev pub touches : String → Object → Bool
touches n x = str_eq n (name_of x) || is_table n x || stands_on n x || refers_to n x

-- No object of the schema touches a name that the commands create or drop.
abbrev pub IsApart : Schema → List Command → Type 0
IsApart s = All (λ c. any (touches (subject c)) s ≡ false)

module _ {ℓ} {A : Type ℓ} where
  any-weaken :
      (p q : A → Bool)
      → ((x : A) → p x ≡ true → q x ≡ true)
      → (xs : List A) → any q xs ≡ false
      → any p xs ≡ false
  any-weaken p q f [] h = refl
  any-weaken p q f (x ∷ xs) h = ground (arith, f x, h, any-weaken p q f xs)

  keep-append : (p : A → Bool) (xs ys : List A) → keep p (xs ++ ys) ≡ keep p xs ++ keep p ys
  keep-append p [] ys = refl
  keep-append p (x ∷ xs) ys = ground (arith, keep-append p xs ys)

  keep_all : (p : A → Bool) (xs : List A) → any p xs ≡ false → keep (λ x. not (p x)) xs ≡ xs
  keep_all p [] h = refl
  keep_all p (x ∷ xs) h = ground (arith, h, keep_all p xs)

-- What is there is still there in a larger schema.
all-grow {ℓ} :
    {A : Type ℓ} (f : A → Object → Bool) (s r : Schema) (xs : List A)
    → all (λ x. any (f x) s) xs ≡ true
    → all (λ x. any (f x) (s ++ r)) xs ≡ true
all-grow f s r [] h = refl
all-grow f s r (x ∷ xs) h = ground (arith, h, any-append (f x) s r, all-grow f s r xs)

dropped :
    (p : Object → Bool) (s r : Schema)
    → any p r ≡ false
    → keep (λ x. not (p x)) (s ++ r) ≡ keep (λ x. not (p x)) s ++ r
dropped p s r h =
    keep-append (λ x. not (p x)) s r ∙ ap (λ l. keep (λ x. not (p x)) s ++ l) (keep_all p r h)

-- A command does in a larger schema what it does in a part of it, if the rest is apart.
execute-frame :
    (c : Command) (s s' r : Schema)
    → any (touches (subject c)) r ≡ false
    → execute c s ≡ some s'
    → execute c (s ++ r) ≡ some (s' ++ r)
unfolding execute
execute-frame (create o) s s' r a h = ground (
  arith,
  h,
  any-append (λ x. str_eq (name_of o) (name_of x)) s r,
  any-weaken (λ x. str_eq (name_of o) (name_of x)) (touches (name_of o)) (λ x e. ground (arith, e))
      r a,
  all-grow has_column s r (needs o),
  all-grow is_table s r (needs_tables o),
)
execute-frame (drop_table t) s s' r a h = ground (
  arith,
  h,
  any-append (is_table t) s r,
  any-append (refers_to t) s r,
  any-weaken (refers_to t) (touches t) (λ x e. ground (arith, e)) r a,
  dropped (λ x. is_table t x || stands_on t x) s r
      (any-weaken (λ x. is_table t x || stands_on t x) (touches t) (λ x e. ground (arith, e)) r a),
)
execute-frame (drop_index n) s s' r a h = ground (
  arith,
  h,
  any-append (λ x. str_eq n (name_of x)) s r,
  dropped (λ x. str_eq n (name_of x)) s r
      (any-weaken (λ x. str_eq n (name_of x)) (touches n) (λ x e. ground (arith, e)) r a),
)
execute-frame (drop_if_exists n) s s' r a h = ground (
  arith,
  h,
  dropped (λ x. str_eq n (name_of x)) s r
      (any-weaken (λ x. str_eq n (name_of x)) (touches n) (λ x e. ground (arith, e)) r a),
)

migrate-frame :
    (cs : List Command) (s s' r : Schema)
    → IsApart r cs
    → migrate cs s ≡ some s'
    → migrate cs (s ++ r) ≡ some (s' ++ r)
unfolding migrate
migrate-frame [] s s' r a h = ground (arith, h)
migrate-frame (c ∷ cs) s s' r a h = elim (Option-cases (execute c s)) [
  | inl e ↦ absurd (ground (arith, h, e))
  | inr (u, e) ↦
      ground
        (arith, e, execute-frame c s u r a.0 e, migrate-frame cs u s' r a.1 (ground (arith, h, e)))
]

-- The schema that the upgrade makes of nothing.
unfoldable pub made : Bool → Schema
made sqlite = elim (migrate (upgrade_head sqlite) []) [ none ↦ [] | some s ↦ s ]

upgrade_made : (sqlite : Bool) → migrate (upgrade_head sqlite) [] ≡ some (made sqlite)
unfolding made migrate execute
upgrade_made true = refl
upgrade_made false = refl

downgrade_made : (sqlite : Bool) → migrate (downgrade_base sqlite) (made sqlite) ≡ some []
unfolding made migrate execute
downgrade_made true = refl
downgrade_made false = refl

-- In a database, SQLite's or another, whose schema touches no name of the two migrations: no command
-- of either upgrade is refused, the upgrade adds a fixed list of objects and leaves the rest, and
-- the downgrade then removes exactly those, no command of it being refused either.
pub downgrade-upgrade :
    (sqlite : Bool) (s : Schema)
    → IsApart s (upgrade_head sqlite)
    → IsApart s (downgrade_base sqlite)
    → (migrate (upgrade_head sqlite) s ≡ some (made sqlite ++ s))
      × (migrate (downgrade_base sqlite) (made sqlite ++ s) ≡ some s)
downgrade-upgrade sqlite s up down = (
  migrate-frame (upgrade_head sqlite) [] (made sqlite) s up (upgrade_made sqlite),
  migrate-frame (downgrade_base sqlite) (made sqlite) [] s down (downgrade_made sqlite),
)

-- The trigger that aborts an UPDATE, or a DELETE, of a table.
abbrev pub aborts : String → String → Object → Bool
aborts event t (trigger_object name table e) = str_eq t table && str_eq event e
aborts event t _ = false

made_protects :
    (sqlite : Bool) (t : String)
    → (any (aborts "UPDATE" t) (made sqlite) ≡ (sqlite && contains t audit_tables))
      × (any (aborts "DELETE" t) (made sqlite) ≡ (sqlite && contains t audit_tables))
unfolding made migrate execute
made_protects true t = (ground arith, ground arith)
made_protects false t = (ground arith, ground arith)

-- In a database whose schema touches no name of the upgrade: the upgrade succeeds, and after it a
-- table has a trigger that aborts updates, and one that aborts deletions, exactly if it had one
-- before or the database is SQLite's and the table is one of the five of AUDIT_TABLES.
pub upgrade_protects :
    (sqlite : Bool) (s : Schema) (t : String)
    → IsApart s (upgrade_head sqlite)
    → (s' : Schema) × (migrate (upgrade_head sqlite) s ≡ some s')
      × (any (aborts "UPDATE" t) s'
          ≡ ((sqlite && contains t audit_tables) || any (aborts "UPDATE" t) s))
      × (any (aborts "DELETE" t) s'
          ≡ ((sqlite && contains t audit_tables) || any (aborts "DELETE" t) s))
upgrade_protects sqlite s t up =
    let (update, delete) = made_protects sqlite t in
    (
      made sqlite ++ s,
      migrate-frame (upgrade_head sqlite) [] (made sqlite) s up (upgrade_made sqlite),
      any-append (aborts "UPDATE" t) (made sqlite) s
          ∙ ap (λ b. b || any (aborts "UPDATE" t) s) update,
      any-append (aborts "DELETE" t) (made sqlite) s
          ∙ ap (λ b. b || any (aborts "DELETE" t) s) delete,
    )
