-- ===== src/Alerts/Configs/Tests.antt =====
-- Runs of the targets and of the task of an alert, and the theorems at inputs that meet their
-- hypotheses.
use parseable.Prelude.{
  string_eq, ◌≡◌, ◌↔◌, refl, true, false, all, none, some, List, [], ◌∷◌, String, if◌then◌else◌,
}
use parseable.Dict
use parseable.Results.{Result, ok, err}
use parseable.Alerts.{
  AlertConfig, AlertError, medium, greater_than, finite, target_in_use, metastore_error, notify,
  triggered,
}
use parseable.Alerts.Evaluation.{
  TaskLoop, evaluate_round, evaluate_rounds, first_round, HasFourFailures, evaluate_rounds_lem,
}
use parseable.Alerts.Changes.{changed}
use parseable.Alerts.Handlers.{update_alert_state}
use parseable.Alerts.Messages.{update_alert_state_tells}
use parseable.Alerts.Configs.{
  AlertRequest, Target, TargetConfigs, slack, update, get_target_by_id, checked_update,
  update_target, delete, find_targets, into,
}
use parseable.Alerts.Configs.System.{
  AlertSystem, SystemRequest, posts_alert, posts_target, deletes_target, serve_system, start, next,
}
use parseable.Alerts.Configs.Configured.{AllConfigured, ServedSystem-AllConfigured}
use parseable.Alerts.Tests.{manager, fine, alert, first, yes, no_error, no_time, with_alert}

targets : Unit {0}
unfolding update get_target_by_id checked_update update_target delete find_targets into serve_system
    evaluate_round evaluate_rounds manager Dict.get Dict.insert Dict.remove
targets = tt

abbrev one_table : String → Result AlertError (List String)
one_table query = ok ("app" ∷ [])

abbrev target : String → Target
target id = record { name = "ops"; target = slack "https://hooks"; id = id }

abbrev configs : TargetConfigs
configs = record { target_configs = ("t", target "t") ∷ []; stored = ("t", target "t") ∷ [] }

abbrev request : AlertRequest
request = record {
  severity = medium;
  title = "errors";
  query = "select count(*) from app";
  alert_type = "threshold";
  anomaly_config = none;
  forecast_config = none;
  threshold_config = record { operator = greater_than; value = 5 };
  notification_config = record { interval = 4; times = finite 1 };
  eval_config = record { eval_start = "10m"; eval_end = "now"; eval_frequency = 10 };
  targets = "t" ∷ "u" ∷ [];
  tags = none;
  other_fields = none;
}

is_made : into one_table "a" 1 (update true (target "u") configs).1 request ≡ ok alert
unfolding targets
is_made = refl

abbrev system : AlertSystem
system = record { manager = first; configs = configs }

abbrev step : SystemRequest → AlertSystem → AlertSystem
unfolding serve_system
step r sys = serve_system yes yes no_error no_time one_table r sys

abbrev with_target : AlertSystem
with_target = step (posts_target true (target "u")) system

abbrev with_request : AlertSystem
with_request = step (posts_alert fine "a" request) with_target

abbrev deletes_used : SystemRequest
deletes_used = deletes_target true "u"

-- The target of an alert is not deleted.
used :
    delete true with_request.manager.alerts "u" with_request.configs
    ≡ (err target_in_use, with_request.configs)
unfolding targets
used = refl

-- A target whose deletion fails in the store is gone from memory.
half_deleted :
    delete false [] "t" configs
    ≡ (err metastore_error, record { target_configs = []; stored = ("t", target "t") ∷ [] })
unfolding targets
half_deleted = refl

ServedSystem-AllConfigured_example : AllConfigured (step deletes_used with_request)
unfolding targets
ServedSystem-AllConfigured_example =
    ServedSystem-AllConfigured yes yes no_error no_time one_table {sys = system}
      {after = step deletes_used with_request}
      (next {sys = system} {before = with_request} deletes_used tt (
        next {sys = system} {before = with_target} (posts_alert fine "a" request) tt
          (next {sys = system} {before = system} (posts_target true (target "u")) tt start)))
      (λ id a h. cc h)

gives_up : evaluate_rounds (true ∷ false ∷ false ∷ false ∷ false ∷ []) (first_round alert) ≡ none
unfolding targets
gives_up = refl

evaluate_rounds_lem_example :
    ((evaluate_rounds (false ∷ true ∷ []) (first_round alert) ≡ none)
      ↔ HasFourFailures (false ∷ true ∷ []))
    × ((t : TaskLoop)
        → evaluate_rounds (false ∷ true ∷ []) (first_round alert) ≡ some t
        → t.sleep_duration
          ≡ (if all (λ o. o) (false ∷ true ∷ []) then alert.eval_config.eval_frequency else 1))
evaluate_rounds_lem_example = evaluate_rounds_lem alert (false ∷ true ∷ [])

abbrev stored : AlertConfig
stored = record alert { notification_config = record { interval = 4; times = finite 2 } }

update_alert_state_tells_example :
    (update_alert_state no_time fine "a" (some "6 > 5") with_alert).1.notified
    ≡ ("t", changed fine triggered notify stored, "6 > 5")
      ∷ ("u", changed fine triggered notify stored, "6 > 5")
      ∷ []
unfolding manager
update_alert_state_tells_example =
    update_alert_state_tells no_time fine "a" with_alert stored refl refl (some "6 > 5")
