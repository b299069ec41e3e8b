-- ===== src/Alerts/Tests.antt =====
-- Runs of the alert manager and its targets, and the theorems at inputs that meet their hypotheses.
use parseable.Prelude.{
  string_eq, ℕ, ◌+◌, ◌*◌, ◌≡◌, ◌≤◌, ◌<◌, refl, Bool, true, false, Option, none, some, [], ◌∷◌,
  String,
}
use parseable.Dict
use parseable.Results.{ok, err}
use parseable.Alerts.{
  AlertConfig, AlertError, notify, Manager, Io, triggered, not_triggered, disabled, medium,
  threshold, greater_than, finite, alert_runtime, receive, division_by_zero,
}
use parseable.Alerts.Updates.{
  get_alert_by_id, read_for_update, with_state, unmute_if_over, save, trigger_notifications,
  update_threshold_alert, finish_update, update_state, update, start_task, delete_task,
  remove_alert, get_state, update_notification_state,
}
use parseable.Alerts.Checks.{notification_times, repeats_fit, validate, with_config}
use parseable.Alerts.Handlers.{
  checked_post, post, accessible, delete_alert, evaluate_alert, disable_alert, checked_enable,
  enable_alert, modified, checked_modify, modify_alert, checked_notification, put_notification,
  update_alert_state,
}
use parseable.Alerts.Requests.{
  Request, posts, deletes, disables, evaluates, evaluated, serve, start, next,
}
use parseable.Alerts.Runtime.{task_of}
use parseable.Alerts.InStep.{IsInStep}
use parseable.Alerts.Served.{Served-InStep}
use parseable.Alerts.Times.{checked_post_times}

unfoldable pub manager : Unit {0}
unfolding alert_runtime receive get_alert_by_id read_for_update with_state unmute_if_over save
    trigger_notifications update_threshold_alert finish_update update_state update start_task
    delete_task remove_alert get_state update_notification_state notification_times repeats_fit
    validate with_config checked_post post accessible delete_alert evaluate_alert disable_alert
    checked_enable enable_alert modified checked_modify modify_alert checked_notification
    put_notification update_alert_state serve task_of Dict.get Dict.insert Dict.remove
manager = tt

abbrev pub fine : Io
fine = record {
  put_alert = true;
  put_alert_state = true;
  delete_alert = true;
  delete_alert_state = true;
  configured = λ target. true;
  now = 7;
}

abbrev pub alert : AlertConfig
alert = record {
  id = "a";
  severity = medium;
  title = "errors";
  query = "select count(*) from app";
  alert_type = threshold;
  threshold_config = record { operator = greater_than; value = 5 };
  eval_config = record { eval_start = "10m"; eval_end = "now"; eval_frequency = 10 };
  targets = "t" ∷ "u" ∷ [];
  state = not_triggered;
  notification_state = notify;
  notification_config = record { interval = 4; times = finite 1 };
  created = 1;
  tags = none;
  datasets = "app" ∷ [];
  last_triggered_at = none;
}

abbrev pub first : Manager
first = record { alerts = []; stored = []; stored_states = []; sent = []; notified = [] }

abbrev pub yes : String → Bool
yes s = true

abbrev pub no_error : String → Option AlertError
no_error q = none

abbrev pub no_time : String → Option ℕ
no_time s = none

abbrev step : Request → Manager → Manager
unfolding serve
step request m = serve yes yes no_error no_time request m

abbrev pub with_alert : Manager
unfolding serve
with_alert = serve yes yes no_error no_time (posts fine alert) first

first-IsInStep : IsInStep [] []
unfolding manager
first-IsInStep = record { ids = λ id a h. cc h; tasks = λ id. refl }

posted :
    (task_of with_alert.sent "a"
      ≡ some (record alert { notification_config = record { interval = 4; times = finite 2 } }))
unfolding manager
posted = refl

abbrev told : Request
told = evaluated fine "a" (some "6 > 5")

Served-InStep_example : IsInStep (step told with_alert).alerts (step told with_alert).sent
unfolding manager
Served-InStep_example =
    Served-InStep no_time yes yes no_error {m = first} {after = step told with_alert}
      (next {m = first} {before = with_alert} told refl
        (next {m = first} {before = first} (posts fine alert) (refl, refl) start))
      first-IsInStep

-- An alert that is disabled while its configuration cannot be written is left without its task.
loses_task :
    (Dict.get (step (disables (record fine { put_alert = false }) "a") with_alert).alerts "a"
      ≡ Dict.get with_alert.alerts "a")
    × (task_of (step (disables (record fine { put_alert = false }) "a") with_alert).sent "a" ≡ none)
unfolding manager
loses_task = (refl, refl)

-- A disabled alert that is evaluated on request has a task again, and is enabled by its outcome.
abbrev reevaluated : Manager
reevaluated = step (evaluates fine "a") (step (disables fine "a") with_alert)

evaluates_disabled :
    (get_state "a" reevaluated ≡ ok disabled)
    × (get_state "a" (step (evaluated fine "a" none) reevaluated) ≡ ok not_triggered)
unfolding manager
evaluates_disabled = (refl, refl)

-- An update that read an alert before it was deleted puts it back, in memory and in the store.
abbrev overtaken : Manager
unfolding finish_update
overtaken =
    (finish_update no_time fine triggered none alert [] (step (deletes fine "a") with_alert)).1

puts_back : (get_state "a" overtaken ≡ ok triggered) × (task_of overtaken.sent "a" ≡ none)
unfolding manager
puts_back = (refl, refl)

-- `modify_alert` divides by the interval of a request before anything checks it.
modify_panics :
    (modify_alert yes yes no_error fine "a"
      (ok (record alert { notification_config = record { interval = 0; times = finite 1 } }))
      with_alert).0
    ≡ err division_by_zero
unfolding manager
modify_panics = refl

checked_post_times_example :
    (times : ℕ) × (◌≡◌ (finite 2) (finite times))
    × (1 ≤ times)
    × (times * 4 ≤ 10)
    × (10 < times * 4 + 4)
unfolding manager
checked_post_times_example =
    checked_post_times yes no_error alert
      (record alert { notification_config = record { interval = 4; times = finite 2 } }) refl
