-- ===== src/Alerts/States.antt =====
-- alerts/mod.rs: the changes of state that keep the manager's alerts in step with the tasks of the
-- runtime.
use parseable.Prelude.{
  all, append-nil, string_eq, ℕ, ◌≡◌, refl, ap, ◌∙◌, sym, subst, Bool, true, false, not, ◌&&◌,
  Option, none, some, List, [], ◌∷◌, String, arith,
}
use parseable.Dict
use parseable.Results.{Result, ok, err, ok_inj, >>=-eq-ok, guard-eq-ok, ok_or-eq-ok}
use parseable.Alerts.{
  AlertConfig, AlertState, AlertType, threshold, anomaly, forecast, NotificationState, AlertTask,
  Manager, Io, AlertError, same_state, disabled, not_triggered, has_task, create, delete,
}
use parseable.Alerts.Updates.{
  update_threshold_alert, unmute_if_over, keep_alert, tasks_of_change, threshold_only,
  read_for_update, finish_update, and_then, check_change, update_state, send, with_state,
}
use parseable.Alerts.Runtime.{task_of}
use parseable.Alerts.InStep.{
  IsInStep, off-IsInStep, on-IsInStep, change-IsInStep, task_configs, expected_task,
}
use parseable.Alerts.Changes.{
  changed, update-Returns, update-succeeds, off_succeeds, keep_alert-IsInStep,
}

abbrev pub InStep : Manager → Type 0
InStep m = IsInStep m.alerts m.sent

pub and_then-InStep {ℓ κ} :
    {A : Type ℓ} {B : Type κ} (r : Result AlertError A) (m : Manager)
    (write : A → Result AlertError B × Manager)
    → InStep m
    → ((a : A) → r ≡ ok a → InStep (write a).1)
    → InStep (and_then r m write).1
and_then-InStep (err e) m write s w = s
and_then-InStep (ok a) m write s w = w a refl

pub threshold_only-eq-ok {ℓ} :
    {A : Type ℓ} (t : AlertType) (a b : A) → threshold_only t a ≡ ok b → a ≡ b
threshold_only-eq-ok threshold a b h = ok_inj a b h
threshold_only-eq-ok (anomaly s) a b h = cc
threshold_only-eq-ok (forecast s f) a b h = cc

negated : (b : Bool) → not b ≡ true → b ≡ false
negated b h = ground arith

check_change-eq-ok :
    (new_state : AlertState) (a : AlertConfig) (u : AlertConfig × List AlertTask)
    → check_change new_state a ≡ ok u
    → ((a, tasks_of_change a new_state) ≡ u)
      × ((same_state new_state disabled && same_state a.state disabled) ≡ false)
check_change-eq-ok new_state a u h =
    let (test, h2) = guard-eq-ok _ _ _ _ (>>=-eq-ok (threshold_only a.alert_type a) _ u h).2 in
    (ok_inj _ _ h2, negated _ test)

pub read_for_update-eq-ok :
    (id : String) (new_state : AlertState) (m : Manager) (u : AlertConfig × List AlertTask)
    → read_for_update id new_state m ≡ ok u
    → (Dict.get m.alerts id ≡ some u.0)
      × (u.1 ≡ tasks_of_change u.0 new_state)
      × ((same_state new_state disabled && same_state u.0.state disabled) ≡ false)
unfolding read_for_update
read_for_update-eq-ok id new_state m u h =
    let (alert, found, h1) = >>=-eq-ok _ _ _ h in
    let (e, test) = check_change-eq-ok new_state alert u h1 in
    subst
      (λ v.
        (Dict.get m.alerts id ≡ some v.0)
        × (v.1 ≡ tasks_of_change v.0 new_state)
        × ((same_state new_state disabled && same_state v.0.state disabled) ≡ false))
      e (ok_or-eq-ok _ _ _ found, refl, test)

-- `update_state` where the change of each alert that it may find keeps the agreement.
module _ (parse_time : String → Option ℕ) (io : Io) (id : String) (new_state : AlertState)
    (message : Option String) (m : Manager) (s : InStep m) where
  abbrev Keeps : AlertConfig → List AlertTask → Type 0
  Keeps alert tasks =
      InStep
        (keep_alert (update_threshold_alert parse_time io new_state message alert (send tasks m))).1

  update_state-IsInStep :
      ((alert : AlertConfig)
        → Dict.get m.alerts id ≡ some alert
        → (same_state new_state disabled && same_state alert.state disabled) ≡ false
        → Keeps alert (tasks_of_change alert new_state))
      → InStep (update_state parse_time io id new_state message m).1
  unfolding update_state finish_update
  update_state-IsInStep keeps = and_then-InStep (read_for_update id new_state m) m _ s (λ u h.
      let (found, t, test) = read_for_update-eq-ok id new_state m u h in
      subst (Keeps u.0) (sym t) (keeps u.0 found test))

  -- Disabling, where the writes succeed, the targets are configured and a time of muting can be read.
  pub disable-IsInStep :
      same_state new_state disabled ≡ true
      → io.put_alert ≡ true
      → io.put_alert_state ≡ true
      → ((alert : AlertConfig)
          → Dict.get m.alerts id ≡ some alert
          → (all io.configured alert.targets ≡ true)
            × (n : NotificationState) × (unmute_if_over parse_time io.now alert.notification_state
                ≡ ok n))
      → InStep (update_state parse_time io id new_state message m).1
  unfolding with_state
  disable-IsInStep off w1 w2 readable = update_state-IsInStep keeps
    where
      keeps :
          (alert : AlertConfig)
          → Dict.get m.alerts id ≡ some alert
          → (same_state new_state disabled && same_state alert.state disabled) ≡ false
          → Keeps alert (tasks_of_change alert new_state)
      keeps alert found test =
          let (n, r) =
            update-Returns parse_time io new_state message alert (send (delete alert.id ∷ []) m) in
          let t : tasks_of_change alert new_state ≡ delete alert.id ∷ [] = ground arith in
          let (configured, n', can_read) = readable alert found in
          subst (Keeps alert) (sym t) (
            keep_alert-IsInStep (changed io new_state n alert) _ _ r
              (off-IsInStep s (changed io new_state n alert) off)
              (λ e h. absurd (
                update-succeeds parse_time io new_state message alert _ w1 w2 configured
                  (n', can_read) e h)))

  -- Enabling an alert that is disabled, where the writes succeed.
  pub enable-IsInStep :
      same_state new_state disabled ≡ false
      → same_state new_state not_triggered ≡ true
      → io.put_alert ≡ true
      → io.put_alert_state ≡ true
      → ((alert : AlertConfig)
          → Dict.get m.alerts id ≡ some alert
          → same_state alert.state disabled ≡ true)
      → InStep (update_state parse_time io id new_state message m).1
  unfolding with_state
  enable-IsInStep on quiet w1 w2 off = update_state-IsInStep keeps
    where
      keeps :
          (alert : AlertConfig)
          → Dict.get m.alerts id ≡ some alert
          → (same_state new_state disabled && same_state alert.state disabled) ≡ false
          → Keeps alert (tasks_of_change alert new_state)
      keeps alert found test =
          let (n, r) =
            update-Returns parse_time io new_state message alert (send (create alert ∷ []) m) in
          let o = off alert found in
          let t : tasks_of_change alert new_state ≡ create alert ∷ [] = ground arith in
          let i : alert.id ≡ id = s.ids id alert found in
          let free : task_configs (task_of m.sent alert.id) ≡ none =
            s.tasks alert.id ∙ ap expected_task (ap (Dict.get m.alerts) i ∙ found) ∙ ground arith in
          subst (Keeps alert) (sym t) (
            keep_alert-IsInStep (changed io new_state n alert) _ _ r
              (on-IsInStep s (changed io new_state n alert) alert refl refl on free)
              (λ e h. absurd (off_succeeds parse_time io new_state message alert _ o w1 w2 e h)))

  -- A change between `Triggered` and `NotTriggered`, however the calls end.
  pub evaluated-IsInStep :
      same_state new_state disabled ≡ false
      → has_task (task_of m.sent id) ≡ true
      → InStep (update_state parse_time io id new_state message m).1
  unfolding with_state
  evaluated-IsInStep on running = update_state-IsInStep keeps
    where
      is_on :
          (t o : Option AlertConfig) (a : AlertConfig)
          → has_task t ≡ true
          → task_configs t ≡ expected_task o
          → o ≡ some a
          → same_state a.state disabled ≡ false
      is_on t o a h e f = ground arith

      keeps :
          (alert : AlertConfig)
          → Dict.get m.alerts id ≡ some alert
          → (same_state new_state disabled && same_state alert.state disabled) ≡ false
          → Keeps alert (tasks_of_change alert new_state)
      keeps alert found test =
          let (n, r) = update-Returns parse_time io new_state message alert (send [] m) in
          let o = is_on _ _ alert running (s.tasks id) found in
          let t : tasks_of_change alert new_state ≡ [] = ground arith in
          let i : alert.id ≡ id = s.ids id alert found in
          let s' : InStep (send [] m) = subst (IsInStep m.alerts) (sym (append-nil m.sent)) s in
          subst (Keeps alert) (sym t) (
            keep_alert-IsInStep (changed io new_state n alert) _ _ r
              (change-IsInStep s' (changed io new_state n alert) alert
                (ap (Dict.get m.alerts) i ∙ found) refl (o ∙ sym on))
              (λ e h. s'))
