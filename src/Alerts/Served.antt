-- ===== src/Alerts/Served.antt =====
-- alerts: sequences of requests and outcomes of evaluations that keep the manager's alerts in step
-- with the handles of the runtime, those that `Allows` describes.
use parseable.Prelude.{
  all, some-injective, string_eq, ℕ, ◌≡◌, refl, ap, ◌∙◌, sym, Bool, true, false, Option, none, some,
  String,
}
use parseable.Dict
use parseable.Results.{Result, ok, ok_or, ◌>>=◌, >>=-eq-ok, ok_or-eq-ok}
use parseable.Alerts.{
  AlertConfig, NotificationState, Manager, Io, AlertError, custom_error, same_state, disabled,
  not_triggered, triggered, has_task,
}
use parseable.Alerts.Updates.{unmute_if_over, threshold_only, get_state, update_notification_state}
use parseable.Alerts.Handlers.{
  accessible, disable_alert, checked_enable, enable_alert, checked_notification, put_notification,
  update_alert_state,
}
use parseable.Alerts.Requests.{
  Request, posts, modifies, deletes, disables, enables, evaluates, mutes, evaluated, serve, Served,
  start, next,
}
use parseable.Alerts.Runtime.{task_of}
use parseable.Alerts.InStep.{IsInStep, change-IsInStep}
use parseable.Alerts.Changes.{keep_alert-IsInStep, put-Returns}
use parseable.Alerts.States.{
  InStep, and_then-InStep, threshold_only-eq-ok, disable-IsInStep, enable-IsInStep,
  evaluated-IsInStep,
}
use parseable.Alerts.Writes.{
  checked_enable-eq-ok, delete-InStep, evaluate-InStep, post-InStep, modify-InStep,
}

-- `ThresholdAlert::update_notification_state` changes nothing that a task reads.
update_notification_state-InStep :
    (m : Manager) (io : Io) (id : String) (n : NotificationState)
    → InStep m
    → InStep (update_notification_state io id n m).1
unfolding update_notification_state
update_notification_state-InStep m io id n s =
    and_then-InStep
      (ok_or (Dict.get m.alerts id) (custom_error "No alert found for the given ID") >>= λ alert.
        threshold_only alert.alert_type alert)
      m _ s
      (λ a h.
        let (b, found, t) = >>=-eq-ok _ _ _ h in
        let found' : Dict.get m.alerts id ≡ some a =
          ok_or-eq-ok _ _ _ found ∙ ap some (threshold_only-eq-ok b.alert_type b a t) in
        let at_id : Dict.get m.alerts a.id ≡ some a =
          ap (Dict.get m.alerts) (s.ids id a found') ∙ found' in
        keep_alert-IsInStep (record a { notification_state = n }) m _ (put-Returns io n a m)
          (change-IsInStep s (record a { notification_state = n }) a at_id refl refl) (λ e f. s))

module _ (parse_time : String → Option ℕ) where
  -- A new alert has an unused id and is not disabled; an alert is disabled and enabled with calls
  -- that succeed; an alert is evaluated on request where it is not disabled; and an evaluation ends
  -- where the runtime has a handle for it. Modifications, deletions and mutings are not restricted.
  abbrev pub Allows : Request → Manager → Type 0
  Allows (posts io request) m =
      (Dict.get m.alerts request.id ≡ none) × (same_state request.state disabled ≡ false)
  Allows (modifies io id request) m = Unit {0}
  Allows (deletes io id) m = Unit {0}
  Allows (mutes io id requested) m = Unit {0}
  Allows (disables io id) m =
      (io.put_alert ≡ true)
      × (io.put_alert_state ≡ true)
      × ((alert : AlertConfig)
          → Dict.get m.alerts id ≡ some alert
          → (all io.configured alert.targets ≡ true)
            × (n : NotificationState) × (unmute_if_over parse_time io.now alert.notification_state
                ≡ ok n))
  Allows (enables io id) m = (io.put_alert ≡ true) × (io.put_alert_state ≡ true)
  Allows (evaluates io id) m =
      (alert : AlertConfig)
      → Dict.get m.alerts id ≡ some alert
      → same_state alert.state disabled ≡ false
  Allows (evaluated io id message) m = has_task (task_of m.sent id) ≡ true

  module _ (allowed : String → Bool) (m : Manager) (s : InStep m) (io : Io) (id : String) where
    disable_alert-InStep :
        Allows (disables io id) m → InStep (disable_alert allowed parse_time io id m).1
    unfolding disable_alert
    disable_alert-InStep (w1, w2, readable) =
        and_then-InStep (accessible allowed id m) m _ s
          (λ a h. disable-IsInStep parse_time io id disabled (some "") m s refl w1 w2 readable)

    enable_alert-InStep :
        Allows (enables io id) m → InStep (enable_alert allowed parse_time io id m).1
    unfolding enable_alert
    enable_alert-InStep (w1, w2) = and_then-InStep (checked_enable allowed id m) m _ s (λ a h.
        let (found, off) = checked_enable-eq-ok allowed id m a h in
        enable-IsInStep parse_time io id not_triggered (some "") m s refl refl w1 w2 (λ b found'.
          ap (λ c. same_state c.state disabled) (some-injective b a (sym found' ∙ found)) ∙ off))

    put_notification-InStep :
        (requested : Result AlertError NotificationState)
        → InStep (put_notification allowed io id requested m).1
    unfolding put_notification
    put_notification-InStep requested =
        and_then-InStep (checked_notification allowed id requested m) m _ s
          (λ n h. update_notification_state-InStep m io id n s)

    update_alert_state-InStep :
        (message : Option String)
        → Allows (evaluated io id message) m
        → InStep (update_alert_state parse_time io id message m).1
    unfolding update_alert_state
    update_alert_state-InStep (some message) running =
        evaluated-IsInStep parse_time io id triggered (some message) m s refl running
    update_alert_state-InStep none running =
        and_then-InStep (get_state id m) m _ s
          (λ state h. evaluated-IsInStep parse_time io id not_triggered _ m s refl running)

  module _ (allowed is_duration : String → Bool) (query_error : String → Option AlertError) where
    serve-InStep :
        (request : Request) (m : Manager)
        → Allows request m
        → InStep m
        → InStep (serve allowed is_duration query_error parse_time request m)
    unfolding serve
    serve-InStep (posts io request) m (free, on) s =
        post-InStep io m s allowed request.id is_duration query_error request free on
    serve-InStep (modifies io id request) m a s =
        modify-InStep io m s allowed id is_duration query_error request
    serve-InStep (deletes io id) m a s = delete-InStep io m s allowed id
    serve-InStep (disables io id) m a s = disable_alert-InStep allowed m s io id a
    serve-InStep (enables io id) m a s = enable_alert-InStep allowed m s io id a
    serve-InStep (evaluates io id) m a s = evaluate-InStep io m s allowed id a
    serve-InStep (mutes io id requested) m a s = put_notification-InStep allowed m s io id requested
    serve-InStep (evaluated io id message) m a s =
        update_alert_state-InStep allowed m s io id message a

    -- From a manager whose alerts are in step with the runtime, a sequence of requests and outcomes
    -- of evaluations leads to such a manager, if in it a new alert has an unused id and is not
    -- disabled, an alert is disabled or enabled only with calls that succeed, none is evaluated on
    -- request while it is disabled, and an outcome comes only where the runtime has a handle for
    -- the alert: the runtime then has handles for the alerts that are not disabled and for no
    -- others, each with the configuration that its alert has now. The handle of a task that ended
    -- after failed evaluations counts.
    pub Served-InStep :
        {m after : Manager}
        → Served allowed is_duration query_error parse_time Allows m after
        → IsInStep m.alerts m.sent
        → IsInStep after.alerts after.sent
    Served-InStep start s = s
    Served-InStep (next request a steps) s = serve-InStep request _ a (Served-InStep steps s)
