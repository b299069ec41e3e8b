-- ===== src/Alerts/Handlers.antt =====
-- handlers/http/alerts.rs: the handlers that change alerts, and `update_alert_state`
-- (alerts_utils.rs), which a task runs with the outcome of an evaluation. A handler runs with the
-- write lock on `ALERTS`, so handlers are a sequence; `modify_alert` has the read lock at its start
-- alone. The session is fixed: `allowed` is `user_auth_for_query`.
use parseable.Prelude.{string_eq, ℕ, Bool, Option, none, some, String, if◌then◌else◌}
use parseable.Dict
use parseable.Results.{Result, ok, err, ◌>>=◌, guard}
use parseable.Alerts.{
  triggered, not_triggered, disabled, same_state, NotificationState, AlertConfig, Manager, Io,
  AlertError, metastore_error, unauthorized, invalid_alert_modify_request, invalid_state_change,
}
use parseable.Alerts.Updates.{
  threshold_only, get_alert_by_id, and_then, update, start_task, delete_task, remove_alert,
  update_state, update_notification_state, get_state,
}
use parseable.Alerts.Checks.{
  notification_times, with_times, check_intervals, validate, same_type, with_config,
}

-- What the handlers write once the checks have passed.
abbrev pub write_post : Io → AlertConfig → Manager → Result AlertError AlertConfig × Manager
unfolding update start_task
write_post io alert m =
    let m1 = record m { stored = Dict.insert m.stored alert.id alert } in
    let m2 = record m1 { stored_states = Dict.insert m.stored_states alert.id not_triggered } in
    if io.put_alert
    then (if io.put_alert_state
        then (ok alert, start_task alert (update alert m2))
        else (err metastore_error, m1))
    else (err metastore_error, m)

abbrev pub write_delete : Io → String → Manager → Result AlertError (Unit {0}) × Manager
unfolding remove_alert delete_task
write_delete io id m =
    let m1 = record m { stored = Dict.remove m.stored id } in
    let m2 = record m1 { stored_states = Dict.remove m.stored_states id } in
    if io.delete_alert
    then (if io.delete_alert_state
        then (ok tt, delete_task id (remove_alert id m2))
        else (err metastore_error, m1))
    else (err metastore_error, m)

abbrev pub write_modify :
    Io → String → AlertConfig → Manager → Result AlertError (Unit {0}) × Manager
unfolding delete_task remove_alert update start_task
write_modify io id new_alert m =
    let stored = record m { stored = Dict.insert m.stored new_alert.id new_alert } in
    let replaced = update new_alert (remove_alert id (delete_task id stored)) in
    if io.put_alert
    then (
      ok tt,
      if same_state new_alert.state disabled then replaced else start_task new_alert replaced,
    )
    else (err metastore_error, m)

module _ (is_duration : String → Bool) (query_error : String → Option AlertError) where
  -- `post` up to the writes. The request is already turned into an alert with a fresh id.
  unfoldable pub checked_post : AlertConfig → Result AlertError AlertConfig
  unfolding validate notification_times
  checked_post alert = do
    u ← check_intervals alert
    times ← notification_times alert.eval_config.eval_frequency alert.notification_config.interval
    alert' ← threshold_only alert.alert_type (with_times times alert)
    v ← validate is_duration query_error alert'
    ok alert'

  unfoldable pub post : Io → AlertConfig → Manager → Result AlertError AlertConfig × Manager
  unfolding checked_post
  post io request m = and_then (checked_post request) m (λ alert. write_post io alert m)

module _ (allowed : String → Bool) where
  -- The first steps of the handlers for one alert.
  unfoldable pub accessible : String → Manager → Result AlertError AlertConfig
  unfolding get_alert_by_id
  accessible id m = do
    alert ← get_alert_by_id id m
    u ← guard (allowed alert.query) unauthorized
    ok alert

  -- `DELETE /alerts/{alert_id}`
  unfoldable pub delete_alert : Io → String → Manager → Result AlertError (Unit {0}) × Manager
  unfolding accessible
  delete_alert io id m = and_then (accessible id m) m (λ alert. write_delete io id m)

  -- `PUT /alerts/{alert_id}/evaluate_alert`
  unfoldable pub evaluate_alert : String → Manager → Result AlertError (Unit {0}) × Manager
  unfolding accessible delete_task start_task
  evaluate_alert id m =
      and_then (accessible id m) m (λ alert. (ok tt, start_task alert (delete_task id m)))

  unfoldable pub checked_enable : String → Manager → Result AlertError AlertConfig
  unfolding get_alert_by_id
  checked_enable id m = do
    alert ← get_alert_by_id id m
    s ←
        guard (same_state alert.state disabled)
          (invalid_state_change "Can't enable an alert which is not currently disabled")
    u ← guard (allowed alert.query) unauthorized
    ok alert

  module _ (parse_time : String → Option ℕ) where
    unfoldable pub disable_alert : Io → String → Manager → Result AlertError (Unit {0}) × Manager
    unfolding accessible update_state
    disable_alert io id m =
        and_then (accessible id m) m (λ alert. update_state parse_time io id disabled (some "") m)

    unfoldable pub enable_alert : Io → String → Manager → Result AlertError (Unit {0}) × Manager
    unfolding checked_enable update_state
    enable_alert io id m =
        and_then (checked_enable id m) m
          (λ alert. update_state parse_time io id not_triggered (some "") m)

  module _ (is_duration : String → Bool) (query_error : String → Option AlertError) where
    -- The alert that `modify_alert` makes of the one that is there and the request's.
    unfoldable pub modified : (alert new_config : AlertConfig) → Result AlertError AlertConfig
    unfolding notification_times with_config validate
    modified alert new_config = do
      t ← guard (same_type new_config.alert_type alert.alert_type) invalid_alert_modify_request
      u ← guard (allowed new_config.query) unauthorized
      times ←
          notification_times new_config.eval_config.eval_frequency
            new_config.notification_config.interval
      new_alert ←
          threshold_only new_config.alert_type (with_config (with_times times new_config) alert)
      v ← validate is_duration query_error new_alert
      ok new_alert

    -- `modify_alert` up to the writes. The request is what `AlertRequest::into` makes of it.
    unfoldable pub checked_modify :
        String → Result AlertError AlertConfig → Manager → Result AlertError AlertConfig
    unfolding accessible modified
    checked_modify id request m = do
      alert ← accessible id m
      new_config ← request
      modified alert new_config

    -- `PUT /alerts/{alert_id}`
    unfoldable pub modify_alert :
        Io
        → String
        → Result AlertError AlertConfig
        → Manager
        → Result AlertError (Unit {0}) × Manager
    unfolding checked_modify
    modify_alert io id request m =
        and_then (checked_modify id request m) m (λ new_alert. write_modify io id new_alert m)

  unfoldable pub checked_notification :
      String → Result AlertError NotificationState → Manager → Result AlertError NotificationState
  unfolding accessible
  checked_notification id requested m = do
    new_state ← requested
    alert ← accessible id m
    ok new_state

  -- `PATCH /alerts/{alert_id}/update_notification_state`, where the request asks for a state
  unfoldable pub put_notification :
      Io
      → String
      → Result AlertError NotificationState
      → Manager
      → Result AlertError (Unit {0}) × Manager
  unfolding checked_notification update_notification_state
  put_notification io id requested m =
      and_then (checked_notification id requested m) m
        (λ new_state. update_notification_state io id new_state m)

-- `update_alert_state`, where an evaluation gives a message or none
unfoldable pub update_alert_state :
    (String → Option ℕ)
    → Io
    → String
    → Option String
    → Manager
    → Result AlertError (Unit {0}) × Manager
unfolding update_state get_state
update_alert_state parse_time io id (some message) m =
    update_state parse_time io id triggered (some message) m
update_alert_state parse_time io id none m = and_then (get_state id m) m (λ state.
    update_state parse_time io id not_triggered
      (if same_state state triggered then some "" else none) m)
