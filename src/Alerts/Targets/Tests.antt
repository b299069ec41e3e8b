-- ===== src/Alerts/Targets/Tests.antt =====
-- Runs of the calls of targets, and the theorems at inputs that meet their hypotheses.
use parseable.Prelude.{ℕ, suc, ◌+◌, ◌≤◌, ◌≡◌, refl, Bool, true, Option, some, List, [], ◌∷◌, String}
use parseable.Alerts.{AlertState, triggered, not_triggered, finite}
use parseable.Alerts.Targets.{
  TimeoutState, idle, call, check_if_call, task_step, task_steps, trigger_all, timeout_task,
  TaskStep, checks, ends, TimeoutEvent, evaluated, task, by_call, by_task, sent_in,
}
use parseable.Alerts.Targets.Limits.{
  told, count, is_call, is_repeat, is_task, first_resolve, trigger_all_lem, notifications_limited,
}

abbrev in_timeout : TimeoutState
in_timeout = record { alert_state = triggered; timed_out = true; awaiting_resolve = true }

-- Two resolves are sent within one timeout, since a round of its task lies between them.
abbrev events : List TimeoutEvent
events =
    evaluated triggered
    ∷ evaluated not_triggered
    ∷ evaluated not_triggered
    ∷ task (checks triggered)
    ∷ evaluated not_triggered
    ∷ []

resolves_twice :
    sent_in events in_timeout ≡ by_call not_triggered ∷ by_task ∷ by_call not_triggered ∷ []
unfolding sent_in call task_step check_if_call
resolves_twice = refl

notifications_limited_example :
    (count (is_call triggered) (sent_in events in_timeout) ≡ 0)
    × (count is_repeat (sent_in events in_timeout) ≡ count is_task events)
    × (count (is_call not_triggered) (sent_in events in_timeout)
        ≤ first_resolve in_timeout + count is_task events)
    × ((n : ℕ) (observed : ℕ → Option AlertState)
        → (repeats : ℕ) × (timeout_task (finite (suc n)) observed in_timeout ≡ some (idle, repeats))
          × (repeats ≤ n))
notifications_limited_example = notifications_limited events in_timeout refl refl

abbrev found : String → Bool
found target = true

-- While the timeout task sleeps, the second target of an alert is not told that it triggered; a task
-- with no rounds may end before, and then it is.
abbrev asleep : ℕ → List TaskStep
asleep n = []

abbrev over : ℕ → List TaskStep
over n = ends ∷ []

tells_first :
    ((trigger_all found asleep triggered ("t" ∷ "u" ∷ []) idle).0 ≡ "t" ∷ [])
    × ((trigger_all found over triggered ("t" ∷ "u" ∷ []) idle).0 ≡ "t" ∷ "u" ∷ [])
unfolding trigger_all call task_steps task_step
tells_first = (refl, refl)

trigger_all_lem_example :
    (trigger_all found over triggered ("t" ∷ "u" ∷ []) idle).0 ≡ told true over ("t" ∷ "u" ∷ [])
trigger_all_lem_example = trigger_all_lem found over ("t" ∷ "u" ∷ []) idle
