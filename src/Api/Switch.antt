-- ===== src/Api/Switch.antt =====
-- What the endpoints of the kill switch do.
use x_social_trader.Base.{
  String, ◌≡◌, ◌≢◌, refl, ◌⊎◌, inl, inr, Bool, true, false, Option, some, ◌∷◌, str_eq, eq_iff,
  arith, Bool-cases,
}
use x_social_trader.Models.{KillSwitchEvent, manual}
use x_social_trader.World.{World}
use x_social_trader.KillSwitch.{env_on, redis_flag, is_active, activate, deactivate, add_event}
use x_social_trader.KillSwitch.History.{db_active-add}
use x_social_trader.KillSwitch.Agreement.{active-of_consistent}
use x_social_trader.Api.{
  Response, answered, http_error, SwitchAnswer, SwitchRequest, activate_request, deactivate_request,
  header_or, is_confirmed, handle,
}

-- The row that a change adds on top of the table.
pub record HasRow {R : Type 0} (w w' : World R) (activated : Bool) (actor : String)
    (reason : Option String) (answer : SwitchAnswer) : Type 0 where
  pub row : KillSwitchEvent
  pub added : w'.db.kill_switch_events ≡ row ∷ w.db.kill_switch_events
  pub is_manual : row.trigger ≡ manual
  pub says : row.activated ≡ activated
  pub by : row.actor ≡ actor
  pub because : row.reason ≡ reason
  pub named : answer.event_id ≡ row.id

module _ {R : Type 0} where
  -- What a request to change the switch does, its answer and the world after it.
  pub data Handled (w : World R) : SwitchRequest → Response SwitchAnswer × World R → Type 0 where
    armed :
        {actor reason : Option String} {a : SwitchAnswer} {w' : World R}
        → a.active ≡ true
        → (is_active w').active ≡ true
        → HasRow w w' true (header_or "anonymous" actor) reason a
        → Handled w (activate_request actor reason) (answered a, w')
    refused :
        {confirm actor reason : Option String} {detail : String}
        → (is_confirmed confirm ≡ false) ⊎ (header_or "" reason ≡ "")
        → Handled w (deactivate_request confirm actor reason) (http_error 400 detail, w)
    disarmed :
        {confirm actor reason : Option String} {a : SwitchAnswer} {w' : World R}
        → is_confirmed confirm ≡ true
        → header_or "" reason ≢ ""
        → a.active ≡ false
        → (is_active w').active ≡ env_on w.env
        → HasRow w w' false (header_or "anonymous" actor) (some (header_or "" reason)) a
        → Handled w (deactivate_request confirm actor reason) (answered a, w')

  active-activate :
      (actor : String) (reason : Option String) (w : World R)
      → (is_active (activate manual actor reason w).1).active ≡ true
  unfolding activate
  active-activate actor reason w =
      let on = db_active-add true manual actor reason w in
      let w' = (activate manual actor reason w).1 in
      ground (arith, active-of_consistent w' (λ k. on), on)

  active-deactivate :
      (actor reason : String) (w : World R)
      → (is_active (deactivate actor reason w).1).active ≡ env_on w.env
  unfolding deactivate redis_flag
  active-deactivate actor reason w =
      let off = db_active-add false manual actor (some reason) w in
      let w' = (deactivate actor reason w).1 in
      ground (arith, active-of_consistent w' (λ k. cc), off)

  -- A request to activate the switch is answered, the switch is then active, and the table has one
  -- more row, with the caller and the reason. A request to deactivate it is refused with status 400
  -- and changes nothing unless it is confirmed with the words "I-understand" and gives a reason; one
  -- that is answered adds its row, the answer says that the switch is inactive, and the switch is
  -- then active exactly if KILL_SWITCH is on.
  pub handle-Handled :
      (request : SwitchRequest) (w : World R) → Handled w request (handle request w)
  unfolding handle activate deactivate add_event
  handle-Handled (activate_request actor reason) w =
      armed refl (active-activate (header_or "anonymous" actor) reason w) (record {
        row = add_event true manual (header_or "anonymous" actor) reason w;
        added = refl;
        is_manual = refl;
        says = refl;
        by = refl;
        because = refl;
        named = refl;
      })
  handle-Handled (deactivate_request confirm actor reason) w =
      elim (Bool-cases (is_confirmed confirm)) [
        | inr c ↦ rw c (refused (inl c))
        | inl c ↦ elim (Bool-cases (str_eq (header_or "" reason) "")) [
          | inl e ↦ rw (c, e) (refused (inr ((eq_iff (header_or "" reason) "").0 e)))
          | inr e ↦
              rw (c, e)
                (disarmed c (λ p. cc (e, (eq_iff (header_or "" reason) "").1 p)) refl
                  (active-deactivate (header_or "anonymous" actor) (header_or "" reason) w)
                  (record {
                    row =
                        add_event false manual (header_or "anonymous" actor)
                          (some (header_or "" reason)) w;
                    added = refl;
                    is_manual = refl;
                    says = refl;
                    by = refl;
                    because = refl;
                    named = refl;
                  }))
        ]
      ]
