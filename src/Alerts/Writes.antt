-- ===== src/Alerts/Writes.antt =====
-- handlers/http/alerts.rs: the handlers that make, change, delete and evaluate alerts keep the
-- manager's alerts in step with the tasks of the runtime.
use parseable.Prelude.{
  string_eq, ℕ, ◌≡◌, refl, ap, ◌∙◌, sym, Bool, true, false, Option, none, some, String,
  if◌then◌else◌, ==_iff, Bool-cases, ◌⊎◌, inl, inr,
}
use parseable.Dict
use parseable.Dict.{get-insert, get-remove}
use parseable.Results.{Result, ok, guard, ok_inj, >>=-eq-ok, guard-eq-ok, ok_or-eq-ok}
use parseable.Alerts.{
  AlertConfig, Manager, Io, AlertError, invalid_alert_modify_request, unauthorized, same_state,
  disabled,
}
use parseable.Alerts.Updates.{
  threshold_only, get_alert_by_id, update, start_task, delete_task, remove_alert,
}
use parseable.Alerts.Checks.{
  check_intervals, with_times, notification_times, validate, with_config, same_type,
}
use parseable.Alerts.Handlers.{
  write_post, write_delete, write_modify, checked_post, modified, checked_enable, post, accessible,
  delete_alert, evaluate_alert, checked_modify, modify_alert,
}
use parseable.Alerts.InStep.{
  drop-IsInStep, vacant-IsInStep, restart-IsInStep, on-IsInStep, expected_task,
}
use parseable.Alerts.States.{InStep, and_then-InStep, threshold_only-eq-ok}

module _ (allowed : String → Bool) (id : String) (m : Manager) where
  pub accessible-eq-ok :
      (a : AlertConfig) → accessible allowed id m ≡ ok a → Dict.get m.alerts id ≡ some a
  unfolding accessible get_alert_by_id
  accessible-eq-ok a h =
      let (b, found, h1) = >>=-eq-ok _ _ _ h in
      let (test, h2) = guard-eq-ok _ _ _ _ h1 in ok_or-eq-ok _ _ _ found ∙ ap some (ok_inj b a h2)

  pub checked_enable-eq-ok :
      (a : AlertConfig)
      → checked_enable allowed id m ≡ ok a
      → (Dict.get m.alerts id ≡ some a) × (same_state a.state disabled ≡ true)
  unfolding checked_enable get_alert_by_id
  checked_enable-eq-ok a h =
      let (b, found, h1) = >>=-eq-ok _ _ _ h in
      let (off, h2) = guard-eq-ok _ _ _ _ h1 in
      let (test, h3) = guard-eq-ok _ _ _ _ h2 in
      let e : b ≡ a = ok_inj b a h3 in
      (ok_or-eq-ok _ _ _ found ∙ ap some e, ap (λ c. same_state c.state disabled) (sym e) ∙ off)

  module _ (is_duration : String → Bool) (query_error : String → Option AlertError) where
    modified-eq-ok :
        (old new_config a : AlertConfig)
        → modified allowed is_duration query_error old new_config ≡ ok a
        → (times : ℕ) × (with_config (with_times times new_config) old ≡ a)
    unfolding modified with_config
    modified-eq-ok old new_config a h =
        let (same, _, h3) =
          >>=-eq-ok
            (guard (same_type new_config.alert_type old.alert_type) invalid_alert_modify_request) _
            a h in
        let (access, _, h4) = >>=-eq-ok (guard (allowed new_config.query) unauthorized) _ a h3 in
        let (times, _, h5) =
          >>=-eq-ok
            (notification_times new_config.eval_config.eval_frequency
              new_config.notification_config.interval)
            _ a h4 in
        let (b, t, h6) =
          >>=-eq-ok
            (threshold_only new_config.alert_type (with_config (with_times times new_config) old)) _
            a h5 in
        let (v, _, h7) = >>=-eq-ok (validate is_duration query_error b) _ a h6 in
        (times, threshold_only-eq-ok new_config.alert_type _ _ t ∙ ok_inj b a h7)

    -- What is written is an alert that is there, with the settings of the request.
    pub checked_modify-eq-ok :
        (request : Result AlertError AlertConfig) (a : AlertConfig)
        → checked_modify allowed is_duration query_error id request m ≡ ok a
        → (old : AlertConfig) × (new_config : AlertConfig) × (times : ℕ) × (Dict.get m.alerts id
            ≡ some old)
          × (request ≡ ok new_config)
          × (with_config (with_times times new_config) old ≡ a)
    unfolding checked_modify
    checked_modify-eq-ok request a h =
        let (old, found, h1) = >>=-eq-ok _ _ _ h in
        let (new_config, given, h2) =
          >>=-eq-ok request (modified allowed is_duration query_error old) a h1 in
        let (times, e) = modified-eq-ok old new_config a h2 in
        (old, new_config, times, accessible-eq-ok old found, given, e)

same_id :
    (old new_config : AlertConfig) (times : ℕ) (a : AlertConfig)
    → with_config (with_times times new_config) old ≡ a
    → old.id ≡ a.id
unfolding with_config
same_id old new_config times a e = ap (λ c. c.id) e

-- What `post` writes is the alert of the request, but for the repetitions.
pub checked_post-eq-ok :
    (is_duration : String → Bool) (query_error : String → Option AlertError)
    (request a : AlertConfig)
    → checked_post is_duration query_error request ≡ ok a
    → (times : ℕ) × (with_times times request ≡ a)
unfolding checked_post
checked_post-eq-ok is_duration query_error request a h =
    let (u, _, h1) = >>=-eq-ok (check_intervals request) _ a h in
    let (times, _, h2) =
      >>=-eq-ok
        (notification_times request.eval_config.eval_frequency request.notification_config.interval)
        _ a h1 in
    let (b, t, h3) =
      >>=-eq-ok (threshold_only request.alert_type (with_times times request)) _ a h2 in
    let (v, _, h4) = >>=-eq-ok (validate is_duration query_error b) _ a h3 in
    (times, threshold_only-eq-ok request.alert_type _ _ t ∙ ok_inj b a h4)

-- An alert that is not there under its id is put in with a task, as `post` and `modify` do.
new-InStep :
    (m : Manager) (a : AlertConfig)
    → InStep m
    → Dict.get m.alerts a.id ≡ none
    → same_state a.state disabled ≡ false
    → InStep (start_task a (update a m))
unfolding start_task update
new-InStep m a s free on = on-IsInStep s a a refl refl on (s.tasks a.id ∙ ap expected_task free)

-- Each step leaves the alerts and tasks in step.
module _ (io : Io) (m : Manager) (s : InStep m) where
  write_post-InStep :
      (a : AlertConfig)
      → Dict.get m.alerts a.id ≡ none
      → same_state a.state disabled ≡ false
      → (w1 w2 : Bool)
      → InStep (write_post (record io { put_alert = w1; put_alert_state = w2 }) a m).1
  unfolding start_task update
  write_post-InStep a free on true true =
      on-IsInStep s a a refl refl on (s.tasks a.id ∙ ap expected_task free)
  write_post-InStep a free on true false = s
  write_post-InStep a free on false w2 = s

  write_delete-InStep :
      (id : String) (w1 w2 : Bool)
      → InStep (write_delete (record io { delete_alert = w1; delete_alert_state = w2 }) id m).1
  unfolding remove_alert delete_task
  write_delete-InStep id true true = drop-IsInStep s id
  write_delete-InStep id true false = s
  write_delete-InStep id false w2 = s

  write_modify-InStep :
      (id : String) (a : AlertConfig)
      → a.id ≡ id
      → (w : Bool) → InStep (write_modify (record io { put_alert = w }) id a m).1
  unfolding remove_alert delete_task start_task update
  write_modify-InStep id a e false = s
  write_modify-InStep id a e true = by_state (Bool-cases (same_state a.state disabled))
    where
      gone : Dict.get (Dict.remove m.alerts id) a.id ≡ none
      gone =
          get-remove m.alerts id a.id
          ∙ ap (λ b. if b then none else Dict.get m.alerts a.id) ((==_iff id a.id).1 (sym e))

      by_state :
          (same_state a.state disabled ≡ true) ⊎ (same_state a.state disabled ≡ false)
          → InStep (write_modify (record io { put_alert = true }) id a m).1
      by_state (inl off) = rw off (vacant-IsInStep (drop-IsInStep s id) a gone off)
      by_state (inr on) = rw on (
          on-IsInStep (drop-IsInStep s id) a a refl refl on
            ((drop-IsInStep s id).tasks a.id ∙ ap expected_task gone))

  module _ (allowed : String → Bool) (id : String) where
    pub delete-InStep : InStep (delete_alert allowed io id m).1
    unfolding delete_alert
    delete-InStep =
        and_then-InStep (accessible allowed id m) m _ s
          (λ a h. write_delete-InStep id io.delete_alert io.delete_alert_state)

    -- An alert that is not disabled is evaluated: its task is deleted and started again.
    pub evaluate-InStep :
        ((a : AlertConfig) → Dict.get m.alerts id ≡ some a → same_state a.state disabled ≡ false)
        → InStep (evaluate_alert allowed id m).1
    unfolding evaluate_alert delete_task start_task
    evaluate-InStep on = and_then-InStep (accessible allowed id m) m _ s (λ a h.
        let found = accessible-eq-ok allowed id m a h in
        restart-IsInStep s a id found (s.ids id a found) (on a found))

    module _ (is_duration : String → Bool) (query_error : String → Option AlertError) where
      pub post-InStep :
          (request : AlertConfig)
          → Dict.get m.alerts request.id ≡ none
          → same_state request.state disabled ≡ false
          → InStep (post is_duration query_error io request m).1
      unfolding post
      post-InStep request free on =
          and_then-InStep (checked_post is_duration query_error request) m _ s (λ a h.
            let (times, e) = checked_post-eq-ok is_duration query_error request a h in
            write_post-InStep a (ap (λ c. Dict.get m.alerts c.id) (sym e) ∙ free)
              (ap (λ c. same_state c.state disabled) (sym e) ∙ on) io.put_alert io.put_alert_state)

      pub modify-InStep :
          (request : Result AlertError AlertConfig)
          → InStep (modify_alert allowed is_duration query_error io id request m).1
      unfolding modify_alert
      modify-InStep request =
          and_then-InStep (checked_modify allowed is_duration query_error id request m) m _ s
            (λ a h.
              let (old, new_config, times, found, given, e) =
                checked_modify-eq-ok allowed id m is_duration query_error request a h in
              write_modify-InStep id a (sym (same_id old new_config times a e) ∙ s.ids id old found)
                io.put_alert)
