-- ===== src/KillSwitch/History.antt =====
-- The table `kill_switch_events`: its latest row is the one that was added last.
use Prim.Native.Nat.{max}
use x_social_trader.Base.{
  ℕ, ◌≤◌, String, ◌≡◌, refl, Bool, Option, none, some, List, [], ◌∷◌, map, arith, inl, inr,
  Option-cases,
}
use x_social_trader.Models.{KillSwitchTrigger, KillSwitchEvent}
use x_social_trader.World.{World}
use x_social_trader.World.Tables.{largest, next_id}
use x_social_trader.KillSwitch.{later, latest_db_event, db_active, add_event}

abbrev pub ids : List KillSwitchEvent → List ℕ
ids = map (λ e. e.id)

later-le :
    (e : KillSwitchEvent) (o : Option KillSwitchEvent) (n : ℕ)
    → ((f : KillSwitchEvent) → o ≡ some f → f.id ≤ n)
    → (later e o).id ≤ max e.id n
unfolding later
later-le e none n h = omega arith
later-le e (some f) n h = ground (arith, h f refl)

-- No row has an id above the largest.
latest-le :
    (es : List KillSwitchEvent) (f : KillSwitchEvent)
    → latest_db_event es ≡ some f
    → f.id ≤ largest (ids es)
unfolding latest_db_event
latest-le [] f h = cc
latest-le (e ∷ es) f h =
    ground (arith, later-le e (latest_db_event es) (largest (ids es)) (latest-le es))

later-new :
    (e : KillSwitchEvent) (es : List KillSwitchEvent)
    → e.id ≡ next_id (ids es)
    → later e (latest_db_event es) ≡ e
unfolding later
later-new e es h = elim (Option-cases (latest_db_event es)) [
  | inl p ↦ rw p
  | inr (f, p) ↦ rw p (ground (arith, latest-le es f p))
]

-- A row that was just added decides what the table says.
pub db_active-add :
    {R : Type 0} (b : Bool) (t : KillSwitchTrigger) (a : String) (r : Option String) (w : World R)
    → db_active (add_event b t a r w ∷ w.db.kill_switch_events) ≡ b
unfolding db_active latest_db_event add_event
db_active-add b t a r w =
    ground (arith, later-new (unfold add_event in add_event b t a r w) w.db.kill_switch_events refl)
