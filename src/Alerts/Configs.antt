-- ===== src/Alerts/Configs.antt =====
-- alerts/target.rs: `TargetConfigs`, beside what the metastore has; handlers/http/targets.rs: the
-- handlers that change it; alerts/alert_structs.rs: `AlertRequest::into`. The names of `other_fields`
-- are kept for their check alone; `resolve_stream_names` finds the tables of a query.
pub mod Everywhere
pub mod System
pub mod Configured
mod Tests
use parseable.Prelude.{
  string_eq, ℕ, Bool, true, false, not, Option, none, some, List, [], ◌∷◌, ◌==◌, String,
  if◌then◌else◌, any, contains, length, ltb, retain, is_empty, eqb,
}
use parseable.Dict
use parseable.Dict.{Dict}
use parseable.Results.{Result, ok, err, ◌>>=◌, guard, ok_or}
use parseable.Alerts.{
  AlertConfig, AlertError, AlertType, threshold, anomaly, forecast, Severity, ThresholdConfig,
  RollingWindow, NotificationConfig, not_triggered, notify, validation_failure, metadata,
  invalid_target_id, invalid_target_modification, target_in_use, metastore_error,
}

pub data TargetType : Type 0 where
  slack : (endpoint : String) → TargetType
  other : (endpoint : String) (headers : Dict String String) (skip_tls_check : Bool) → TargetType
  alert_manager :
      (endpoint : String) (skip_tls_check : Bool) (auth : Option (String × String)) → TargetType

pub record Target : Type 0 where
  pub name : String
  pub target : TargetType
  pub id : String

pub record TargetConfigs : Type 0 where
  pub target_configs : Dict String Target
  pub stored : Dict String Target

-- `TargetConfigs::update`; `put_target` says whether the metastore succeeds.
unfoldable pub update :
    (put_target : Bool) → Target → TargetConfigs → Result AlertError Target × TargetConfigs
update put_target target c =
    if put_target
    then (
      ok target,
      record {
        target_configs = Dict.insert c.target_configs target.id target;
        stored = Dict.insert c.stored target.id target;
      },
    )
    else (err metastore_error, c)

unfoldable pub get_target_by_id : String → TargetConfigs → Result AlertError Target
get_target_by_id id c = ok_or (Dict.get c.target_configs id) (invalid_target_id)

-- `TargetConfigs::delete`, over the alerts of the manager
unfoldable pub delete :
    (delete_target : Bool)
    → Dict String AlertConfig
    → String
    → TargetConfigs
    → Result AlertError Target × TargetConfigs
delete delete_target alerts id c =
    let removed = record c { target_configs = Dict.remove c.target_configs id } in
    if any (λ e. contains e.1.targets id) alerts
    then (err target_in_use, c)
    else elim (Dict.get c.target_configs id) [
      | none ↦ (err (invalid_target_id), c)
      | some target ↦
          if delete_target
          then (ok target, record removed { stored = Dict.remove c.stored target.id })
          else (err metastore_error, removed)
    ]

-- `PUT /targets/{target_id}` up to the update
unfoldable pub checked_update : String → Target → TargetConfigs → Result AlertError Target
unfolding get_target_by_id
checked_update id target c = do
  old_target ← get_target_by_id id c
  u ←
      guard (old_target.name == target.name)
        (invalid_target_modification "Can't modify target name")
  ok (record target { id = id })

abbrev pub write_target :
    (put_target : Bool)
    → Result AlertError Target
    → TargetConfigs
    → Result AlertError Target × TargetConfigs
write_target put_target (err e) c = (err e, c)
write_target put_target (ok target) c = update put_target target c

unfoldable pub update_target :
    (put_target : Bool) → String → Target → TargetConfigs → Result AlertError Target × TargetConfigs
update_target put_target id target c = write_target put_target (checked_update id target c) c

pub record AlertRequest : Type 0 where
  pub severity : Severity
  pub title : String
  pub query : String
  pub alert_type : String
  pub anomaly_config : Option String
  pub forecast_config : Option (String × String)
  pub threshold_config : ThresholdConfig
  pub notification_config : NotificationConfig
  pub eval_config : RollingWindow
  pub targets : List String
  pub tags : Option (List String)
  pub other_fields : Option (List String)

abbrev pub few_other_fields : Option (List String) → Bool
few_other_fields none = true
few_other_fields (some names) = not (ltb 10 (length names))

-- The loop over the targets of a request
unfoldable pub find_targets : TargetConfigs → List String → Result AlertError (Unit {0})
find_targets c [] = ok tt
find_targets c (id ∷ ids) = do
  target ← ok_or (Dict.get c.target_configs id) invalid_target_id
  find_targets c ids

abbrev pub requested_type : AlertRequest → Result AlertError AlertType
requested_type request =
    if request.alert_type == "anomaly"
    then elim request.anomaly_config [
      | none ↦ err (metadata "anomalyConfig is required for anomaly type alerts")
      | some historic ↦ ok (anomaly historic)
    ]
    else if request.alert_type == "forecast"
    then elim request.forecast_config [
      | none ↦ err (metadata "forecastConfig is required for forecast type alerts")
      | some (historic, ahead) ↦ ok (forecast historic ahead)
    ]
    else if request.alert_type == "threshold"
    then ok threshold
    else err (metadata "Invalid alert type provided")

-- `AlertRequest::into`, with the id and the time that it draws
unfoldable pub into :
    (resolve_stream_names : String → Result AlertError (List String))
    → (new_id : String) → (now : ℕ) → TargetConfigs
    → AlertRequest
    → Result AlertError AlertConfig
unfolding find_targets
into resolve_stream_names new_id now c request = do
  u ←
      guard (few_other_fields request.other_fields)
        (validation_failure "other_fields can contain at most 10 fields")
  v ← find_targets c request.targets
  datasets ← resolve_stream_names request.query
  w ← guard (eqb (length datasets) 1) (validation_failure "Query should include only one dataset")
  alert_type ← requested_type request
  ok (record {
    id = new_id;
    severity = request.severity;
    title = request.title;
    query = request.query;
    alert_type = alert_type;
    threshold_config = request.threshold_config;
    eval_config = request.eval_config;
    targets = request.targets;
    state = not_triggered;
    notification_state = notify;
    notification_config = request.notification_config;
    created = now;
    tags = request.tags;
    datasets = datasets;
    last_triggered_at = none;
  })
