-- ===== src/Rules/Independence.antt =====
-- The engine sorts its own copy, so the order in which the rules come does not matter.
use mathlib.Core.List.{Permᴰ}
use x_social_trader.Base.{◌≡◌, List, map, Distinct, sorted-of_perm}
use x_social_trader.Models.{RuleSpec, Event}
use x_social_trader.Runtime.{Runtime}
use x_social_trader.Rules.Precedence.{sort_rules, precedes, precedes-IsOrder, NoTies-of_ids}
use x_social_trader.Rules.Engine.{evaluate}

-- Two lists of the same rules, whose ids are distinct, are evaluated alike on every event: the same
-- match, the same records in the same order, or the same error.
pub evaluate-of_perm :
    {R : Type 0} ⦃py : Runtime R⦄ {rules others : List (RuleSpec R)} (event : Event R)
    → Permᴰ rules others
    → Distinct (map (λ (r : RuleSpec R). r.id) rules)
    → evaluate rules event ≡ evaluate others event
unfolding evaluate sort_rules
evaluate-of_perm {rules} event p h =
    rw (sorted-of_perm precedes precedes-IsOrder p (NoTies-of_ids rules h))
