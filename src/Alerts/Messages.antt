-- ===== src/Alerts/Messages.antt =====
-- alerts: for which targets of an alert `Target::call` is used at the outcome of an evaluation.
use parseable.Prelude.{
  ◌++◌, string_eq, ℕ, ◌≡◌, refl, ap, ◌∙◌, sym, Bool, true, false, not, ◌&&◌, Option, none, some,
  List, ◌==◌, String, if◌then◌else◌, ltb, arith, Bool-cases, inl, inr,
}
use parseable.Dict
use parseable.Results.{Result, ok, err, ok_or, guard, ◌>>=◌}
use parseable.Alerts.{
  reached, AlertConfig, AlertState, AlertError, custom_error, threshold, anomaly, forecast,
  AlertType, invalid_state_change, NotificationState, notify, mute, Manager, Io, same_state,
  disabled, triggered, not_triggered,
}
use parseable.Alerts.Updates.{
  calls_of, save, call_targets, trigger_notifications, and_notify, with_state,
  update_threshold_alert, unmute_if_over, keep_alert, send, read_for_update, finish_update,
  update_state, get_state, tasks_of_change, check_change, threshold_only, and_then,
}
use parseable.Alerts.Handlers.{update_alert_state}
use parseable.Alerts.Changes.{changed}

-- An alert is not muted, or the time that it was muted until is over.
abbrev pub can_notify : (String → Option ℕ) → ℕ → NotificationState → Bool
can_notify parse_time now notify = true
can_notify parse_time now (mute till_time) =
    not (till_time == "indefinite")
    && elim (parse_time till_time) [ none ↦ false | some till ↦ ltb till now ]

-- Both writes succeed.
abbrev pub is_saved : Io → Bool
is_saved io = io.put_alert && io.put_alert_state

-- The message for the targets: that of the evaluation, or an empty one for the first resolve.
abbrev pub message_of : Option String → AlertState → Option String
message_of (some message) state = some message
message_of none state = if same_state state triggered then some "" else none

abbrev pub state_of : Option String → AlertState
state_of (some message) = triggered
state_of none = not_triggered

-- The uses of `Target::call` after those so far: none, or those of the targets of an alert up to the
-- first that is not configured.
abbrev pub told :
    Io
    → Bool
    → Option String
    → AlertConfig
    → List (String × AlertConfig × String)
    → List (String × AlertConfig × String)
told io b none alert notified = notified
told io b (some message) alert notified =
    if b then notified ++ calls_of alert message (reached io.configured alert.targets) else notified

abbrev is_notify : NotificationState → Bool
is_notify notify = true
is_notify (mute till) = false

call_targets_tells :
    (io : Io) (message : String) (alert : AlertConfig) (m : Manager) (n : NotificationState)
    → (call_targets io message alert m n).1.notified
      ≡ told io (is_notify n) (some message) alert m.notified
call_targets_tells io message alert m notify = ground arith
call_targets_tells io message alert m (mute till) = ground arith

saved_tells :
    (io : Io) (message : Option String) (alert : AlertConfig) (m : Manager)
    → (and_notify io message (save io alert m)).1.notified
      ≡ told io (is_saved io && is_notify alert.notification_state) message alert m.notified
unfolding save trigger_notifications
saved_tells io none alert m = ground arith
saved_tells io (some message) alert m = written io.put_alert io.put_alert_state
  where
    written :
        (w1 w2 : Bool)
        → (and_notify
            (record io { put_alert = w1; put_alert_state = w2 })
            (some message)
            (save (record io { put_alert = w1; put_alert_state = w2 }) alert m)).1.notified
          ≡ told io
              (is_saved (record io { put_alert = w1; put_alert_state = w2 })
                && is_notify alert.notification_state)
              (some message)
              alert
              m.notified
    written true true =
        call_targets_tells io message alert
          (record m {
            stored = Dict.insert m.stored alert.id alert;
            stored_states = Dict.insert m.stored_states alert.id alert.state;
          })
          alert.notification_state
    written true false = refl
    written false w2 = refl

save_tells_none :
    (io : Io) (alert : AlertConfig) (m : Manager) → (save io alert m).1.notified ≡ m.notified
unfolding save
save_tells_none io alert m = ground arith

told_none :
    (io : Io) (message : Option String) (alert : AlertConfig)
    (notified : List (String × AlertConfig × String))
    → told io false message alert notified ≡ notified
told_none io none alert notified = refl
told_none io (some message) alert notified = refl

told_all_false :
    (io : Io) (message : Option String) (alert : AlertConfig)
    (notified : List (String × AlertConfig × String))
    → told io (is_saved io && false) message alert notified ≡ notified
told_all_false io message alert notified = ground (arith, told_none io message alert notified)

module _ (parse_time : String → Option ℕ) (io : Io) where
  update_threshold_alert_tells :
      (new_state : AlertState) (message : Option String) (alert : AlertConfig) (m : Manager)
      → (update_threshold_alert parse_time io new_state message alert m).1.notified
        ≡ told io
            (not (same_state alert.state disabled)
              && (is_saved io && can_notify parse_time io.now alert.notification_state))
            message
            (changed io new_state notify alert)
            m.notified
  unfolding update_threshold_alert unmute_if_over with_state
  update_threshold_alert_tells new_state message alert m =
      elim (Bool-cases (same_state alert.state disabled)) [
        | inl off ↦ rw off (
            save_tells_none io (with_state io.now new_state alert) m
            ∙ sym (told_none io message (changed io new_state notify alert) m.notified))
        | inr on ↦ rw on (by_state alert.notification_state)
      ]
    where
      expected : Bool → List (String × AlertConfig × String)
      expected b = told io (is_saved io && b) message (changed io new_state notify alert) m.notified

      by_result : Result AlertError NotificationState → List (String × AlertConfig × String)
      by_result r =
          (elim r as (λ x. Result AlertError AlertConfig × Manager) [
            | err e ↦ (err e, m)
            | ok n ↦ and_notify io message (save io (changed io new_state n alert) m)
          ]).1.notified

      spoken : by_result (ok notify) ≡ expected true
      spoken = saved_tells io message (changed io new_state notify alert) m

      silent : (t : String) → by_result (ok (mute t)) ≡ expected false
      silent t =
          saved_tells io message (changed io new_state (mute t) alert) m
          ∙ told_all_false io message (changed io new_state (mute t) alert) m.notified
          ∙ sym (told_all_false io message (changed io new_state notify alert) m.notified)

      muted :
          (t : String) (b : Bool) (o : Option ℕ)
          → by_result (
              if b then ok (mute t) else elim o as (λ x. Result AlertError NotificationState) [
                | none ↦ err (custom_error "not a time")
                | some till ↦ ok (if ltb till io.now then notify else mute t)
              ])
            ≡ expected
                (not b && elim o as (λ x. Bool) [ none ↦ false | some till ↦ ltb till io.now ])
      muted t true o = silent t
      muted t false none =
          sym (told_all_false io message (changed io new_state notify alert) m.notified)
      muted t false (some till) = elim (Bool-cases (ltb till io.now)) [
        | inl over ↦ rw over spoken
        | inr on ↦ rw on (silent t)
      ]

      by_state :
          (n : NotificationState)
          → by_result (unmute_if_over parse_time io.now n)
            ≡ expected (can_notify parse_time io.now n)
      by_state notify = spoken
      by_state (mute t) = muted t (t == "indefinite") (parse_time t)

-- What `update_state` does with an alert that is there, where it is not asked to disable it.
threshold_only_threshold {ℓ} :
    {A : Type ℓ} (t : AlertType) (a : A) → t ≡ threshold → threshold_only t a ≡ ok a
threshold_only_threshold threshold a e = refl
threshold_only_threshold (anomaly h) a e = cc e
threshold_only_threshold (forecast h f) a e = cc e

check_change_threshold :
    (new_state : AlertState) (alert : AlertConfig)
    → alert.alert_type ≡ threshold
    → same_state new_state disabled ≡ false
    → check_change new_state alert ≡ ok (alert, tasks_of_change alert new_state)
check_change_threshold new_state alert t on =
    ap
      (λ r. r >>= λ a.
        guard (not (same_state new_state disabled && same_state alert.state disabled))
          (invalid_state_change "Can't disable an alert which is currently disabled")
        >>= λ u. ok (alert, tasks_of_change alert new_state))
      (threshold_only_threshold alert.alert_type alert t)
    ∙ ap
        (λ b.
          guard (not (b && same_state alert.state disabled))
            (invalid_state_change "Can't disable an alert which is currently disabled")
          >>= λ u. ok (alert, tasks_of_change alert new_state))
        on

keep_alert_tells :
    (r : Result AlertError AlertConfig × Manager) → (keep_alert r).1.notified ≡ r.1.notified
keep_alert_tells (ok alert, m) = refl
keep_alert_tells (err e, m) = refl

module _ (parse_time : String → Option ℕ) (io : Io) (id : String) (m : Manager)
    (alert : AlertConfig) (found : Dict.get m.alerts id ≡ some alert)
    (is_threshold : alert.alert_type ≡ threshold) where
  update_state_tells :
      (new_state : AlertState) (message : Option String)
      → same_state new_state disabled ≡ false
      → (update_state parse_time io id new_state message m).1.notified
        ≡ told io
            (not (same_state alert.state disabled)
              && (is_saved io && can_notify parse_time io.now alert.notification_state))
            message
            (changed io new_state notify alert)
            m.notified
  unfolding update_state read_for_update finish_update
  update_state_tells new_state message on =
      ap
        (λ r.
          (and_then r m (λ u. finish_update parse_time io new_state message u.0 u.1 m)).1.notified)
        (ap
            (λ o.
              ok_or o (custom_error "No alert found for the given ID") >>= check_change new_state)
            found
          ∙ check_change_threshold new_state alert is_threshold on)
      ∙ keep_alert_tells _
      ∙ update_threshold_alert_tells parse_time io new_state message alert
          (send (tasks_of_change alert new_state) m)

  get_state-eq-ok : get_state id m ≡ ok alert.state
  unfolding get_state
  get_state-eq-ok = rw (found, get_state) refl

  -- For the outcome of an evaluation of a threshold alert that is there, `Target::call` is used for
  -- the targets of the alert, up to the first that is not configured, exactly where the alert is not
  -- disabled, the two writes succeed, and it is not muted or the time of its muting has passed: with
  -- the message of the evaluation, or, where that has none and the alert was triggered, with an empty
  -- one, and not otherwise.
  pub update_alert_state_tells :
      (outcome : Option String)
      → (update_alert_state parse_time io id outcome m).1.notified
        ≡ told io
            (not (same_state alert.state disabled)
              && (is_saved io && can_notify parse_time io.now alert.notification_state))
            (message_of outcome alert.state)
            (changed io (state_of outcome) notify alert)
            m.notified
  unfolding update_alert_state
  update_alert_state_tells (some message) = update_state_tells triggered (some message) refl
  update_alert_state_tells none =
      ap
        (λ r.
          (and_then r m (λ state.
            update_state parse_time io id not_triggered
              (if same_state state triggered then some "" else none) m)).1.notified)
        get_state-eq-ok
      ∙ update_state_tells not_triggered (message_of none alert.state) refl
