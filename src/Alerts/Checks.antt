-- ===== src/Alerts/Checks.antt =====
-- handlers/http/alerts.rs: the checks of a request and what it asks for, and `validate` of
-- `ThresholdAlert` (alert_types.rs). `query_error` is the part of `validate` that parses the query,
-- asks for the access of the session and counts the aggregates; `is_duration` is
-- `humantime::parse_duration`.
use parseable.Prelude.{
  string_eq, ℕ, ◌+◌, ◌*◌, ◌/◌, ◌%◌, ◌^◌, Bool, true, false, not, ◌&&◌, ◌==◌, Option, none, some,
  String, if◌then◌else◌, ltb, eqb,
}
use parseable.Results.{Result, ok, err, ◌>>=◌, guard}
use parseable.Alerts.{
  AlertType, threshold, anomaly, forecast, NotificationState, notify, mute, NotificationConfig,
  finite, infinite, AlertConfig, AlertError, division_by_zero, invalid_state_change,
  validation_failure, metadata,
}

-- `eval_freq / notif_freq`, at least one; a division by zero panics.
unfoldable pub notification_times : (eval_freq notif_freq : ℕ) → Result AlertError ℕ
notification_times eval_freq notif_freq =
    if eqb notif_freq 0
    then err division_by_zero
    else ok (if eqb (eval_freq / notif_freq) 0 then 1 else eval_freq / notif_freq)

abbrev pub with_times : ℕ → AlertConfig → AlertConfig
with_times times alert = record alert {
  notification_config = record {
    interval = alert.notification_config.interval;
    times = finite times;
  };
}

-- The checks of `post` on the intervals.
abbrev pub check_intervals : AlertConfig → Result AlertError (Unit {0})
check_intervals alert = do
  u ←
      guard (not (ltb alert.eval_config.eval_frequency alert.notification_config.interval))
        (validation_failure "Notification interval cannot exceed evaluation frequency")
  v ←
      guard (not (eqb alert.eval_config.eval_frequency 0))
        (validation_failure "Eval frequency cannot be 0")
  guard (not (eqb alert.notification_config.interval 0))
      (validation_failure "Notification interval cannot be 0")

-- `Duration::from_secs(60 * interval) * times as u32` is not after `eval_frequency * 60` seconds.
-- The products are those of `u64`; that a `Duration` may overflow is left out.
unfoldable pub repeats_fit : NotificationConfig → (eval_frequency : ℕ) → Bool
repeats_fit config eval_frequency = elim config.times [
  | infinite ↦ true
  | finite repeat ↦
      not (
        ltb ((eval_frequency * 60) % 2 ^ 64)
          (((60 * config.interval) % 2 ^ 64) * (repeat % 2 ^ 32)))
]

abbrev pub duration_ok : (String → Bool) → AlertConfig → Result AlertError (Unit {0})
duration_ok is_duration alert =
    guard (is_duration alert.eval_config.eval_start)
      (metadata "evalStart should be of type humantime")

abbrev pub succeeds : Option AlertError → Result AlertError (Unit {0})
succeeds none = ok tt
succeeds (some e) = err e

unfoldable pub validate :
    (String → Bool) → (String → Option AlertError) → AlertConfig → Result AlertError (Unit {0})
unfolding repeats_fit
validate is_duration query_error alert = do
  u ← duration_ok is_duration alert
  v ←
      guard (repeats_fit alert.notification_config alert.eval_config.eval_frequency)
        (metadata "evalFrequency should be greater than target repetition  interval")
  succeeds (query_error alert.query)

-- `PartialEq` of `AlertType`
abbrev pub same_type : AlertType → AlertType → Bool
same_type threshold threshold = true
same_type (anomaly h) (anomaly h') = h == h'
same_type (forecast h f) (forecast h' f') = h == h' && f == f'
same_type _ _ = false

-- The fields of an alert that `modify_alert` takes from the request.
unfoldable pub with_config : AlertConfig → AlertConfig → AlertConfig
with_config new_config alert = record alert {
  threshold_config = new_config.threshold_config;
  datasets = new_config.datasets;
  eval_config = new_config.eval_config;
  notification_config = new_config.notification_config;
  query = new_config.query;
  severity = new_config.severity;
  tags = new_config.tags;
  targets = new_config.targets;
  title = new_config.title;
}

-- The state that a request to mute or unmute asks for. `parse_duration` is
-- `humantime::parse_duration`, `to_rfc3339` the printing of a time.
unfoldable pub requested_notification :
    (parse_duration parse_time : String → Option ℕ)
    → (to_rfc3339 : ℕ → String) → (now : ℕ) → String
    → Result AlertError NotificationState
requested_notification parse_duration parse_time to_rfc3339 now state =
    if state == "notify"
    then ok notify
    else if state == "indefinite"
    then ok (mute "indefinite")
    else elim (parse_duration state) [
      | some duration ↦ ok (mute (to_rfc3339 (now + duration)))
      | none ↦ elim (parse_time state) [
        | some timestamp ↦
            if ltb timestamp now
            then err (invalid_state_change "Provided time is < Now")
            else ok (mute (to_rfc3339 timestamp))
        | none ↦ err (invalid_state_change "Expected notify, indefinite, human-time or datetime")
      ]
    ]
