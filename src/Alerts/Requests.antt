-- ===== src/Alerts/Requests.antt =====
-- alerts: the requests that change alerts, and the outcomes of the running tasks, as one step
-- relation.
use parseable.Prelude.{ℕ, Bool, Option, String}
use parseable.Results.{Result}
use parseable.Alerts.{NotificationState, AlertConfig, Manager, Io, AlertError}
use parseable.Alerts.Handlers.{
  post, modify_alert, delete_alert, put_notification, disable_alert, enable_alert, evaluate_alert,
  update_alert_state,
}

-- A request with how its calls end, or the outcome of an evaluation. The requests are those of the
-- handlers, after `AlertRequest::into` and the reading of the notification state.
pub data Request : Type 0 where
  posts : (io : Io) (request : AlertConfig) → Request
  modifies : (io : Io) (id : String) (request : Result AlertError AlertConfig) → Request
  deletes disables enables evaluates : (io : Io) (id : String) → Request
  mutes : (io : Io) (id : String) (requested : Result AlertError NotificationState) → Request
  evaluated : (io : Io) (id : String) (message : Option String) → Request

module _ (allowed : String → Bool) (is_duration : String → Bool)
    (query_error : String → Option AlertError) (parse_time : String → Option ℕ) where
  unfoldable pub serve : Request → Manager → Manager
  unfolding post modify_alert delete_alert put_notification disable_alert enable_alert
      evaluate_alert update_alert_state
  serve (posts io request) m = (post is_duration query_error io request m).1
  serve (modifies io id request) m =
      (modify_alert allowed is_duration query_error io id request m).1
  serve (deletes io id) m = (delete_alert allowed io id m).1
  serve (disables io id) m = (disable_alert allowed parse_time io id m).1
  serve (enables io id) m = (enable_alert allowed parse_time io id m).1
  serve (evaluates io id) m = (evaluate_alert allowed id m).1
  serve (mutes io id requested) m = (put_notification allowed io id requested m).1
  serve (evaluated io id message) m = (update_alert_state parse_time io id message m).1

  -- What the manager can come to, request by request, where `allows` holds of each request and the
  -- manager that it finds.
  pub data Served (allows : Request → Manager → Type 0) : Manager → Manager → Type 0 where
    start : {m : Manager} → Served allows m m
    next :
        {m before : Manager} (request : Request)
        → allows request before
        → Served allows m before
        → Served allows m (serve request before)
