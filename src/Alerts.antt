-- ===== src/Alerts.antt =====
-- alerts: the data of alerts (alert_enums.rs, alert_structs.rs), the manager's state beside what the
-- metastore has, and the loop of `alert_runtime` (sync.rs). `AlertConfig` and `ThresholdAlert` have
-- the same fields and are one record; `version` and `other_fields` are left out. The value of a
-- threshold is the bits of an `f64`, an id is the text of a ULID.
pub mod Updates
pub mod Checks
pub mod Handlers
pub mod Requests
pub mod Runtime
pub mod InStep
pub mod Changes
pub mod States
pub mod Writes
pub mod Served
pub mod Conditions
pub mod Configs
pub mod Evaluation
pub mod Messages
pub mod Times
pub mod Targets
mod Tests
use parseable.Prelude.{
  string_eq, ℕ, Bool, true, false, Option, none, some, List, [], ◌∷◌, String, if◌then◌else◌,
}
use parseable.Dict
use parseable.Dict.{Dict}

pub data AlertState : Type 0 where
  triggered not_triggered disabled : AlertState

abbrev pub same_state : AlertState → AlertState → Bool
same_state triggered triggered = true
same_state not_triggered not_triggered = true
same_state disabled disabled = true
same_state _ _ = false

pub data Severity : Type 0 where
  critical high medium low : Severity

pub data AlertType : Type 0 where
  threshold : AlertType
  anomaly : (historic_duration : String) → AlertType
  forecast : (historic_duration forecast_duration : String) → AlertType

pub data AlertOperator : Type 0 where
  greater_than less_than equal not_equal greater_than_or_equal less_than_or_equal : AlertOperator

pub record ThresholdConfig : Type 0 where
  pub operator : AlertOperator
  pub value : ℕ

pub record RollingWindow : Type 0 where
  pub eval_start : String
  pub eval_end : String
  pub eval_frequency : ℕ

pub data NotificationState : Type 0 where
  notify : NotificationState
  mute : (till_time : String) → NotificationState

pub data Retry : Type 0 where
  infinite : Retry
  finite : ℕ → Retry

pub record NotificationConfig : Type 0 where
  pub interval : ℕ
  pub times : Retry

pub record AlertConfig : Type 0 where
  pub id : String
  pub severity : Severity
  pub title : String
  pub query : String
  pub alert_type : AlertType
  pub threshold_config : ThresholdConfig
  pub eval_config : RollingWindow
  pub targets : List String
  pub state : AlertState
  pub notification_state : NotificationState
  pub notification_config : NotificationConfig
  pub created : ℕ
  pub tags : Option (List String)
  pub datasets : List String
  pub last_triggered_at : Option ℕ

pub data AlertTask : Type 0 where
  create : AlertConfig → AlertTask
  delete : String → AlertTask

-- The manager's alerts, what the metastore has, every task sent to the runtime so far in order, and
-- every use of `Target::call` so far in order: the target, the alert and the message. Whether such a
-- call sends anything is told by the state of its timeout (Targets).
pub record Manager : Type 0 where
  pub alerts : Dict String AlertConfig
  pub stored : Dict String AlertConfig
  pub stored_states : Dict String AlertState
  pub sent : List AlertTask
  pub notified : List (String × AlertConfig × String)

-- How the calls of a handler end: each field says whether the call succeeds, `configured` whether
-- `get_target_by_id` finds a target.
pub record Io : Type 0 where
  pub put_alert : Bool
  pub put_alert_state : Bool
  pub delete_alert : Bool
  pub delete_alert_state : Bool
  pub configured : String → Bool
  pub now : ℕ

-- `division_by_zero` is the panic of the code, every other one a value of the code.
pub data AlertError : Type 0 where
  metastore_error unauthorized invalid_target_id division_by_zero : AlertError
  invalid_alert_modify_request target_in_use : AlertError
  invalid_target_modification custom_error invalid_state_change validation_failure metadata :
      String → AlertError
  invalid_alert_query not_present_in_oss : String → AlertError

abbrev pub has_task {ℓ} : {A : Type ℓ} → Option A → Bool
has_task none = false
has_task (some a) = true

-- The targets that a loop over targets comes to, up to the first that is not configured.
abbrev pub reached : (configured : String → Bool) → List String → List String
reached configured [] = []
reached configured (target ∷ targets) =
    let rest = reached configured targets in if configured target then target ∷ rest else []

-- One round of the loop of `alert_runtime`: the alerts that it has a handle for, `alert_tasks`. The
-- handle of a task that ended by itself, after failed evaluations, stays.
unfoldable pub receive : AlertTask → Dict String AlertConfig → Dict String AlertConfig
receive (create alert) alert_tasks =
    if has_task (Dict.get alert_tasks alert.id)
    then alert_tasks
    else Dict.insert alert_tasks alert.id alert
receive (delete id) alert_tasks = Dict.remove alert_tasks id

unfoldable pub alert_runtime : List AlertTask → Dict String AlertConfig → Dict String AlertConfig
unfolding receive
alert_runtime [] alert_tasks = alert_tasks
alert_runtime (task ∷ tasks) alert_tasks = alert_runtime tasks (receive task alert_tasks)
