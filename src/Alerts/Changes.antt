-- ===== src/Alerts/Changes.antt =====
-- alerts: what an update of an alert gives back and leaves alone.
use parseable.Prelude.{
  all, string_eq, ℕ, ◌≡◌, ◌≢◌, refl, sym, subst, true, Option, none, some, String, Bool-cases, inl,
  inr,
}
use parseable.Dict
use parseable.Results.{Result, ok, err, ok_inj}
use parseable.Alerts.{
  AlertConfig, AlertState, NotificationState, notify, mute, Manager, Io, AlertError, same_state,
  disabled,
}
use parseable.Alerts.Updates.{
  save, call_targets, trigger_notifications, and_notify, with_state, update_threshold_alert,
  unmute_if_over, keep_alert, put_notification_state,
}
use parseable.Alerts.InStep.{IsInStep}

-- A call that leaves the alerts and the tasks of a manager alone and gives back one alert or an
-- error.
pub record Returns (a : AlertConfig) (m : Manager) (r : Result AlertError AlertConfig × Manager)
    : Type 0 where
  pub alerts : r.1.alerts ≡ m.alerts
  pub sent : r.1.sent ≡ m.sent
  pub result : (b : AlertConfig) → r.0 ≡ ok b → b ≡ a

pub gives_back :
    (a : AlertConfig) (m' m : Manager)
    → m'.alerts ≡ m.alerts
    → m'.sent ≡ m.sent
    → Returns a m (ok a, m')
gives_back a m' m p q = record { alerts = p; sent = q; result = λ b h. sym (ok_inj a b h) }

pub gives_up :
    (a : AlertConfig) (e : AlertError) (m' m : Manager)
    → m'.alerts ≡ m.alerts
    → m'.sent ≡ m.sent
    → Returns a m (err e, m')
gives_up a e m' m p q = record { alerts = p; sent = q; result = λ b h. cc h }

save-Returns : (io : Io) (a : AlertConfig) (m : Manager) → Returns a m (save io a m)
unfolding save
save-Returns io a m = elim (Bool-cases io.put_alert) [
  | inl p ↦ elim (Bool-cases io.put_alert_state) [
    | inl q ↦ rw p (rw q (gives_back a _ m refl refl))
    | inr q ↦ rw p (rw q (gives_up a _ _ m refl refl))
  ]
  | inr p ↦ rw p (gives_up a _ m m refl refl)
]

pub put-Returns :
    (io : Io) (n : NotificationState) (a : AlertConfig) (m : Manager)
    → Returns (record a { notification_state = n }) m (put_notification_state io n a m)
put-Returns io n a m = elim (Bool-cases io.put_alert) [
  | inl w ↦ rw w (gives_back _ _ m refl refl)
  | inr w ↦ rw w (gives_up _ _ m m refl refl)
]

trigger-Returns :
    (io : Io) (message : Option String) (a : AlertConfig) (m' m : Manager)
    → m'.alerts ≡ m.alerts
    → m'.sent ≡ m.sent
    → Returns a m (trigger_notifications io message a m')
unfolding trigger_notifications
trigger-Returns io none a m' m p q = gives_back a m' m p q
trigger-Returns io (some message) a m' m p q = by_state a.notification_state
  where
    by_state : (n : NotificationState) → Returns a m (call_targets io message a m' n)
    by_state notify = elim (Bool-cases (all io.configured a.targets)) [
      | inl f ↦ rw f (gives_back a _ m p q)
      | inr f ↦ rw f (gives_up a _ _ m p q)
    ]
    by_state (mute till) = gives_back a m' m p q

notify-Returns :
    (io : Io) (message : Option String) (a : AlertConfig) (m : Manager)
    (r : Result AlertError AlertConfig × Manager)
    → Returns a m r
    → Returns a m (and_notify io message r)
notify-Returns io message a m (ok b, m') r =
    subst (λ c. Returns c m (trigger_notifications io message b m')) (r.result b refl)
      (trigger-Returns io message b m' m r.alerts r.sent)
notify-Returns io message a m (err e, m') r = gives_up a e m' m r.alerts r.sent

-- The alert that an update of the state makes.
abbrev pub changed : Io → AlertState → NotificationState → AlertConfig → AlertConfig
changed io new_state n alert = with_state io.now new_state (record alert { notification_state = n })

pub update-Returns :
    (parse_time : String → Option ℕ) (io : Io) (new_state : AlertState) (message : Option String)
    (alert : AlertConfig) (m : Manager)
    → (n : NotificationState) × Returns
        (changed io new_state n alert)
        m
        (update_threshold_alert parse_time io new_state message alert m)
unfolding update_threshold_alert
update-Returns parse_time io new_state message alert m =
    elim (Bool-cases (same_state alert.state disabled)) [
      | inl off ↦
          (alert.notification_state, rw off (save-Returns io (with_state io.now new_state alert) m))
      | inr on ↦ rw on (by_time (unmute_if_over parse_time io.now alert.notification_state))
    ]
  where
    by_time :
        (r : Result AlertError NotificationState)
        → (n : NotificationState) × Returns (changed io new_state n alert) m (elim r [
          | err e ↦ (err e, m)
          | ok n ↦ and_notify io message (save io (changed io new_state n alert) m)
        ])
    by_time (ok n) = (
      n,
      notify-Returns io message (changed io new_state n alert) m _
          (save-Returns io (changed io new_state n alert) m),
    )
    by_time (err e) = (notify, gives_up _ e m m refl refl)

-- Where the writes succeed, an update succeeds: of a disabled alert, and of any other where the time
-- that it is muted until can be read and its targets are there.
module _ (parse_time : String → Option ℕ) (io : Io) (new_state : AlertState)
    (message : Option String) (alert : AlertConfig) (m : Manager) where
  pub off_succeeds :
      same_state alert.state disabled ≡ true
      → io.put_alert ≡ true
      → io.put_alert_state ≡ true
      → (e : AlertError)
      → (update_threshold_alert parse_time io new_state message alert m).0 ≢ err e
  unfolding update_threshold_alert save
  off_succeeds off w1 w2 e = rw (off, w1, w2) (λ h. cc h)

  pub update-succeeds :
      io.put_alert ≡ true
      → io.put_alert_state ≡ true
      → all io.configured alert.targets ≡ true
      → (n : NotificationState) × (unmute_if_over parse_time io.now alert.notification_state ≡ ok n)
      → (e : AlertError)
      → (update_threshold_alert parse_time io new_state message alert m).0 ≢ err e
  unfolding update_threshold_alert save trigger_notifications with_state
  update-succeeds w1 w2 f (n, readable) e = elim (Bool-cases (same_state alert.state disabled)) [
    | inl off ↦ off_succeeds off w1 w2 e
    | inr on ↦ rw (on, readable, w1, w2) (called message (changed io new_state n alert) _ f)
  ]
    where
      called_targets :
          (s : String) (a : AlertConfig) (m' : Manager) (k : NotificationState)
          → all io.configured a.targets ≡ true
          → (call_targets io s a m' k).0 ≢ err e
      called_targets s a m' notify g = rw g (λ h. cc h)
      called_targets s a m' (mute till) g = λ h. cc h

      called :
          (o : Option String) (a : AlertConfig) (m' : Manager)
          → all io.configured a.targets ≡ true
          → (trigger_notifications io o a m').0 ≢ err e
      called none a m' g = λ h. cc h
      called (some s) a m' g = called_targets s a m' a.notification_state g

-- The last step of a change keeps the agreement where putting in the alert does, and where an
-- error leaves one that holds.
pub keep_alert-IsInStep :
    (a : AlertConfig) (m : Manager) (r : Result AlertError AlertConfig × Manager)
    → Returns a m r
    → IsInStep (Dict.insert m.alerts a.id a) m.sent
    → ((e : AlertError) → r.0 ≡ err e → IsInStep m.alerts m.sent)
    → IsInStep (keep_alert r).1.alerts (keep_alert r).1.sent
keep_alert-IsInStep a m (ok b, m') r placed failed =
    subst (λ c. IsInStep (Dict.insert m'.alerts c.id c) m'.sent) (sym (r.result b refl))
      (subst (λ d. IsInStep (Dict.insert d a.id a) m'.sent) (sym r.alerts)
        (subst (IsInStep (Dict.insert m.alerts a.id a)) (sym r.sent) placed))
keep_alert-IsInStep a m (err e, m') r placed failed =
    subst (λ d. IsInStep d m'.sent) (sym r.alerts)
      (subst (IsInStep m.alerts) (sym r.sent) (failed e refl))
