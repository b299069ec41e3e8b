-- ===== src/Alerts/Updates.antt =====
-- alerts/mod.rs: the operations of `AlertManager` (`Alerts`), and `ThresholdAlert::update_state` and
-- `update_notification_state` (alert_types.rs). The runtime receives as long as the manager has the
-- sender, so `send` succeeds. `update_state` is in two halves, since it does not hold the lock on the
-- alerts in between: `read_for_update` and `finish_update`.
use parseable.Prelude.{
  all, string_eq, ℕ, not, ◌&&◌, Option, none, some, List, [], ◌∷◌, ◌++◌, ◌==◌, String,
  if◌then◌else◌, ltb,
}
use parseable.Dict
use parseable.Results.{Result, ok, err, ok_or, guard, ◌>>=◌}
use parseable.Alerts.{
  reached, AlertState, triggered, not_triggered, disabled, same_state, AlertType, threshold,
  anomaly, forecast, NotificationState, notify, mute, AlertConfig, AlertTask, create, delete,
  Manager, Io, AlertError, metastore_error, invalid_target_id, custom_error, invalid_state_change,
  not_present_in_oss,
}

abbrev pub send : List AlertTask → Manager → Manager
send tasks m = record m { sent = m.sent ++ tasks }

-- `map.insert(id, alert)` on the manager's alerts
abbrev pub insert_alert : AlertConfig → Manager → Manager
insert_alert alert m = record m { alerts = Dict.insert m.alerts alert.id alert }

-- The end of a handler: the error that it stops with, or its writes.
abbrev pub and_then {ℓ κ} :
    {A : Type ℓ} {B : Type κ}
    → Result AlertError A
    → Manager
    → (A → Result AlertError B × Manager)
    → Result AlertError B × Manager
and_then (err e) m write = (err e, m)
and_then (ok a) m write = write a

unfoldable pub update : AlertConfig → Manager → Manager
update alert m = insert_alert alert m

unfoldable pub start_task : AlertConfig → Manager → Manager
start_task alert m = send (create alert ∷ []) m

unfoldable pub delete_task : String → Manager → Manager
delete_task id m = send (delete id ∷ []) m

-- `Alerts::delete`
unfoldable pub remove_alert : String → Manager → Manager
remove_alert id m = record m { alerts = Dict.remove m.alerts id }

unfoldable pub get_alert_by_id : String → Manager → Result AlertError AlertConfig
get_alert_by_id id m = ok_or (Dict.get m.alerts id) (custom_error "No alert found for the given ID")

unfoldable pub get_state : String → Manager → Result AlertError AlertState
get_state id m = elim (Dict.get m.alerts id) [
  | none ↦ err (custom_error "No alert present for ID")
  | some alert ↦ ok alert.state
]

abbrev pub threshold_only {ℓ} : {A : Type ℓ} → AlertType → A → Result AlertError A
threshold_only threshold a = ok a
threshold_only (anomaly h) a = err (not_present_in_oss "anomaly")
threshold_only (forecast h f) a = err (not_present_in_oss "forecast")

-- The tasks that `update_state` sends for a change of the state.
abbrev pub tasks_of_change : AlertConfig → AlertState → List AlertTask
tasks_of_change alert new_state =
    if same_state new_state disabled && not (same_state alert.state disabled)
    then delete alert.id ∷ []
    else if same_state alert.state disabled && same_state new_state not_triggered
    then create alert ∷ []
    else []

abbrev pub check_change :
    AlertState → AlertConfig → Result AlertError (AlertConfig × List AlertTask)
check_change new_state alert = do
  a ← threshold_only alert.alert_type alert
  u ←
      guard (not (same_state new_state disabled && same_state alert.state disabled))
        (invalid_state_change "Can't disable an alert which is currently disabled")
  ok (alert, tasks_of_change alert new_state)

unfoldable pub read_for_update :
    String → AlertState → Manager → Result AlertError (AlertConfig × List AlertTask)
read_for_update id new_state m =
    ok_or (Dict.get m.alerts id) (custom_error "No alert found for the given ID")
    >>= check_change new_state

-- The new state, with `last_triggered_at` where it is `Triggered`.
unfoldable pub with_state : ℕ → AlertState → AlertConfig → AlertConfig
with_state now new_state alert = record alert {
  state = new_state;
  last_triggered_at = if same_state new_state triggered then some now else alert.last_triggered_at;
}

-- `DateTime::from_str` is `parse_time`; no time is after `DateTime::MAX_UTC`.
unfoldable pub unmute_if_over :
    (String → Option ℕ) → ℕ → NotificationState → Result AlertError NotificationState
unmute_if_over parse_time now notify = ok notify
unmute_if_over parse_time now (mute till_time) =
    if till_time == "indefinite" then ok (mute till_time) else elim (parse_time till_time) [
      | none ↦ err (custom_error "not a time")
      | some till ↦ ok (if ltb till now then notify else mute till_time)
    ]

-- `put_alert` and then `put_alert_state`.
unfoldable pub save : Io → AlertConfig → Manager → Result AlertError AlertConfig × Manager
save io alert m =
    let m1 = record m { stored = Dict.insert m.stored alert.id alert } in
    let m2 = record m1 { stored_states = Dict.insert m.stored_states alert.id alert.state } in
    if io.put_alert
    then (if io.put_alert_state then (ok alert, m2) else (err metastore_error, m1))
    else (err metastore_error, m)

-- The uses of `Target::call` for an alert.
abbrev pub calls_of : AlertConfig → String → List String → List (String × AlertConfig × String)
calls_of alert message [] = []
calls_of alert message (target ∷ targets) =
    (target, alert, message) ∷ calls_of alert message targets

-- `AlertConfig::trigger_notifications` where a message is given and the alert is not muted: its loop
-- calls each target, and fails at the first that is not configured. What follows for the sessions of
-- users is left out.
abbrev pub call_targets :
    Io
    → String
    → AlertConfig
    → Manager
    → NotificationState
    → Result AlertError AlertConfig × Manager
call_targets io message alert m notify = (
  if all io.configured alert.targets then ok alert else err invalid_target_id,
  record m {
    notified = m.notified ++ calls_of alert message (reached io.configured alert.targets);
  },
)
call_targets io message alert m (mute till) = (ok alert, m)

unfoldable pub trigger_notifications :
    Io → Option String → AlertConfig → Manager → Result AlertError AlertConfig × Manager
trigger_notifications io none alert m = (ok alert, m)
trigger_notifications io (some message) alert m =
    call_targets io message alert m alert.notification_state

abbrev pub and_notify :
    Io
    → Option String
    → Result AlertError AlertConfig × Manager
    → Result AlertError AlertConfig × Manager
and_notify io message (ok alert, m) = trigger_notifications io message alert m
and_notify io message (err e, m) = (err e, m)

-- `ThresholdAlert::update_state`
unfoldable pub update_threshold_alert :
    (String → Option ℕ)
    → Io
    → AlertState
    → Option String
    → AlertConfig
    → Manager
    → Result AlertError AlertConfig × Manager
unfolding save trigger_notifications
update_threshold_alert parse_time io new_state message alert m =
    if same_state alert.state disabled
    then save io (with_state io.now new_state alert) m
    else elim (unmute_if_over parse_time io.now alert.notification_state) [
      | err e ↦ (err e, m)
      | ok notification_state ↦ and_notify io message (
          save io
            (with_state io.now new_state (record alert { notification_state = notification_state }))
            m)
    ]

-- The last step of a change: the alert that it made goes to the manager's alerts.
abbrev pub keep_alert :
    Result AlertError AlertConfig × Manager → Result AlertError (Unit {0}) × Manager
keep_alert (ok alert, m) = (ok tt, insert_alert alert m)
keep_alert (err e, m) = (err e, m)

unfoldable pub finish_update :
    (String → Option ℕ)
    → Io
    → AlertState
    → Option String
    → AlertConfig
    → List AlertTask
    → Manager
    → Result AlertError (Unit {0}) × Manager
unfolding update_threshold_alert
finish_update parse_time io new_state message alert tasks m =
    keep_alert (update_threshold_alert parse_time io new_state message alert (send tasks m))

unfoldable pub update_state :
    (String → Option ℕ)
    → Io
    → String
    → AlertState
    → Option String
    → Manager
    → Result AlertError (Unit {0}) × Manager
unfolding read_for_update finish_update
update_state parse_time io id new_state message m =
    and_then (read_for_update id new_state m) m
      (λ u. finish_update parse_time io new_state message u.0 u.1 m)

-- `ThresholdAlert::update_notification_state`
abbrev pub put_notification_state :
    Io → NotificationState → AlertConfig → Manager → Result AlertError AlertConfig × Manager
put_notification_state io new_state alert m =
    let alert' = record alert { notification_state = new_state } in
    if io.put_alert
    then (ok alert', record m { stored = Dict.insert m.stored alert.id alert' })
    else (err metastore_error, m)

unfoldable pub update_notification_state :
    Io → String → NotificationState → Manager → Result AlertError (Unit {0}) × Manager
update_notification_state io id new_state m =
    let checked = do
      alert ← ok_or (Dict.get m.alerts id) (custom_error "No alert found for the given ID")
      threshold_only alert.alert_type alert
    in and_then checked m (λ alert. keep_alert (put_notification_state io new_state alert m))
