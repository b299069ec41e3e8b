-- ===== src/Alerts/Configs/Everywhere.antt =====
-- alerts: what holds of the targets of every alert is kept by the requests on alerts, if it holds of
-- the targets that they bring.
use parseable.Prelude.{
  some-injective, string_eq, ℕ, ◌≡◌, refl, ap, ◌∙◌, sym, subst, Bool, Option, none, some, List,
  ◌==◌, String, arith, Bool-cases, inl, inr,
}
use parseable.Dict
use parseable.Dict.{Dict, get-insert, get-remove}
use parseable.Results.{Result, ok, err, ok_or, ◌>>=◌, >>=-eq-ok, ok_or-eq-ok}
use parseable.Alerts.{
  AlertConfig, AlertState, AlertError, NotificationState, custom_error, disabled, same_state,
  not_triggered, triggered, Manager, Io,
}
use parseable.Alerts.Updates.{
  send, read_for_update, finish_update, update_state, update_notification_state, keep_alert,
  threshold_only, with_state, get_state, and_then, start_task, update, delete_task, remove_alert,
}
use parseable.Alerts.Handlers.{
  post, modify_alert, delete_alert, put_notification, disable_alert, enable_alert, evaluate_alert,
  update_alert_state, write_post, write_delete, write_modify, accessible, checked_enable,
  checked_notification, checked_post, checked_modify,
}
use parseable.Alerts.Changes.{Returns, changed, update-Returns, put-Returns}
use parseable.Alerts.Checks.{with_times, with_config}
use parseable.Alerts.Writes.{checked_post-eq-ok, checked_modify-eq-ok}
use parseable.Alerts.States.{read_for_update-eq-ok, threshold_only-eq-ok}

-- Something holds of the targets of every alert.
abbrev pub Everywhere : (List String → Type 0) → Dict String AlertConfig → Type 0
Everywhere Q alerts = (id : String) (a : AlertConfig) → Dict.get alerts id ≡ some a → Q a.targets

module _ (Q : List String → Type 0) where
  insert-Everywhere :
      (alerts : Dict String AlertConfig) (a : AlertConfig)
      → Everywhere Q alerts
      → Q a.targets
      → Everywhere Q (Dict.insert alerts a.id a)
  insert-Everywhere alerts a every q id b found = elim (Bool-cases (a.id == id)) [
    | inl same ↦
        let it : ◌≡◌ {A = Option AlertConfig} (some a) (some b) =
          ground (arith, get-insert alerts a.id id a) in
        subst (λ c. Q c.targets) (some-injective a b it) q
    | inr differ ↦ every id b (ground (arith, get-insert alerts a.id id a))
  ]

  remove-Everywhere :
      (alerts : Dict String AlertConfig) (id : String)
      → Everywhere Q alerts
      → Everywhere Q (Dict.remove alerts id)
  remove-Everywhere alerts id every j b found = every j b (ground (arith, get-remove alerts id j))

  and_then-Everywhere {ℓ κ} :
      {A : Type ℓ} {B : Type κ} (r : Result AlertError A) (m : Manager)
      (write : A → Result AlertError B × Manager)
      → Everywhere Q m.alerts
      → ((a : A) → r ≡ ok a → Everywhere Q (write a).1.alerts)
      → Everywhere Q (and_then r m write).1.alerts
  and_then-Everywhere (err e) m write s w = s
  and_then-Everywhere (ok a) m write s w = w a refl

  keep_alert-Everywhere :
      (a : AlertConfig) (m : Manager) (r : Result AlertError AlertConfig × Manager)
      → Returns a m r
      → Everywhere Q m.alerts
      → Q a.targets
      → Everywhere Q (keep_alert r).1.alerts
  keep_alert-Everywhere a m (ok b, m') r every q =
      subst (Everywhere Q)
        (sym (
          ap (λ d. Dict.insert d b.id b) r.alerts
          ∙ ap (λ c. Dict.insert m.alerts c.id c) (r.result b refl)))
        (insert-Everywhere m.alerts a every q)
  keep_alert-Everywhere a m (err e, m') r every q = subst (Everywhere Q) (sym r.alerts) every

  update_state-Everywhere :
      (parse_time : String → Option ℕ) (io : Io) (id : String) (new_state : AlertState)
      (message : Option String) (m : Manager)
      → Everywhere Q m.alerts
      → Everywhere Q (update_state parse_time io id new_state message m).1.alerts
  unfolding update_state finish_update with_state
  update_state-Everywhere parse_time io id new_state message m every =
      and_then-Everywhere (read_for_update id new_state m) m _ every (λ u h.
        let (found, t, test) = read_for_update-eq-ok id new_state m u h in
        let (n, r) = update-Returns parse_time io new_state message u.0 (send u.1 m) in
        keep_alert-Everywhere (changed io new_state n u.0) (send u.1 m) _ r every
          (every id u.0 found))

  update_notification_state-Everywhere :
      (io : Io) (id : String) (n : NotificationState) (m : Manager)
      → Everywhere Q m.alerts
      → Everywhere Q (update_notification_state io id n m).1.alerts
  unfolding update_notification_state
  update_notification_state-Everywhere io id n m every =
      and_then-Everywhere
        (ok_or (Dict.get m.alerts id) (custom_error "No alert found for the given ID") >>= λ alert.
          threshold_only alert.alert_type alert)
        m _ every
        (λ a h.
          let (b, found, t) = >>=-eq-ok _ _ _ h in
          keep_alert-Everywhere (record a { notification_state = n }) m _ (put-Returns io n a m)
            every
            (every id a
              (ok_or-eq-ok _ _ _ found ∙ ap some (threshold_only-eq-ok b.alert_type b a t))))

  pub update_alert_state-Everywhere :
      (parse_time : String → Option ℕ) (io : Io) (id : String) (outcome : Option String)
      (m : Manager)
      → Everywhere Q m.alerts
      → Everywhere Q (update_alert_state parse_time io id outcome m).1.alerts
  unfolding update_alert_state
  update_alert_state-Everywhere parse_time io id (some message) m every =
      update_state-Everywhere parse_time io id triggered (some message) m every
  update_alert_state-Everywhere parse_time io id none m every =
      and_then-Everywhere (get_state id m) m _ every
        (λ state h. update_state-Everywhere parse_time io id not_triggered _ m every)

  module _ (io : Io) (m : Manager) (every : Everywhere Q m.alerts) where
    write_post-Everywhere :
        (a : AlertConfig) → Q a.targets → Everywhere Q (write_post io a m).1.alerts
    unfolding start_task update
    write_post-Everywhere a q = elim (Bool-cases io.put_alert) [
      | inl w1 ↦ elim (Bool-cases io.put_alert_state) [
        | inl w2 ↦ rw (w1, w2) (insert-Everywhere m.alerts a every q)
        | inr w2 ↦ rw (w1, w2) every
      ]
      | inr w1 ↦ rw w1 every
    ]

    write_delete-Everywhere : (id : String) → Everywhere Q (write_delete io id m).1.alerts
    unfolding remove_alert delete_task
    write_delete-Everywhere id = elim (Bool-cases io.delete_alert) [
      | inl w1 ↦ elim (Bool-cases io.delete_alert_state) [
        | inl w2 ↦ rw (w1, w2) (remove-Everywhere m.alerts id every)
        | inr w2 ↦ rw (w1, w2) every
      ]
      | inr w1 ↦ rw w1 every
    ]

    write_modify-Everywhere :
        (id : String) (a : AlertConfig)
        → Q a.targets
        → Everywhere Q (write_modify io id a m).1.alerts
    unfolding remove_alert delete_task start_task update
    write_modify-Everywhere id a q = elim (Bool-cases io.put_alert) [
      | inl w ↦ elim (Bool-cases (same_state a.state disabled)) [
        | inl off ↦ rw (w, off) (insert-Everywhere _ a without_id q)
        | inr on ↦ rw (w, on) (insert-Everywhere _ a without_id q)
      ]
      | inr w ↦ rw w every
    ]
      where
        without_id : Everywhere Q (Dict.remove m.alerts id)
        without_id = remove-Everywhere m.alerts id every

    module _ (allowed : String → Bool) (parse_time : String → Option ℕ) (id : String) where
      pub delete_alert-Everywhere : Everywhere Q (delete_alert allowed io id m).1.alerts
      unfolding delete_alert
      delete_alert-Everywhere =
          and_then-Everywhere (accessible allowed id m) m _ every
            (λ a h. write_delete-Everywhere id)

      pub evaluate_alert-Everywhere : Everywhere Q (evaluate_alert allowed id m).1.alerts
      unfolding evaluate_alert delete_task start_task
      evaluate_alert-Everywhere =
          and_then-Everywhere (accessible allowed id m) m _ every (λ a h. every)

      pub disable_alert-Everywhere :
          Everywhere Q (disable_alert allowed parse_time io id m).1.alerts
      unfolding disable_alert
      disable_alert-Everywhere =
          and_then-Everywhere (accessible allowed id m) m _ every
            (λ a h. update_state-Everywhere parse_time io id disabled (some "") m every)

      pub enable_alert-Everywhere : Everywhere Q (enable_alert allowed parse_time io id m).1.alerts
      unfolding enable_alert
      enable_alert-Everywhere =
          and_then-Everywhere (checked_enable allowed id m) m _ every
            (λ a h. update_state-Everywhere parse_time io id not_triggered (some "") m every)

      pub put_notification-Everywhere :
          (requested : Result AlertError NotificationState)
          → Everywhere Q (put_notification allowed io id requested m).1.alerts
      unfolding put_notification
      put_notification-Everywhere requested =
          and_then-Everywhere (checked_notification allowed id requested m) m _ every
            (λ n h. update_notification_state-Everywhere io id n m every)

      module _ (is_duration : String → Bool) (query_error : String → Option AlertError) where
        pub post-Everywhere :
            (request : AlertConfig)
            → Q request.targets
            → Everywhere Q (post is_duration query_error io request m).1.alerts
        unfolding post
        post-Everywhere request q =
            and_then-Everywhere (checked_post is_duration query_error request) m _ every (λ a h.
              let (times, e) = checked_post-eq-ok is_duration query_error request a h in
              write_post-Everywhere a (subst (λ c. Q c.targets) e q))

        pub modify_alert-Everywhere :
            (request : Result AlertError AlertConfig)
            → ((a : AlertConfig) → request ≡ ok a → Q a.targets)
            → Everywhere Q (modify_alert allowed is_duration query_error io id request m).1.alerts
        unfolding modify_alert with_config
        modify_alert-Everywhere request q =
            and_then-Everywhere (checked_modify allowed is_duration query_error id request m) m _
              every
              (λ a h.
                let (old, new_config, times, found, given, e) =
                  checked_modify-eq-ok allowed id m is_duration query_error request a h in
                write_modify-Everywhere id a (taken old new_config times a e (q new_config given)))
          where
            taken :
                (old new_config : AlertConfig) (times : ℕ) (a : AlertConfig)
                → with_config (with_times times new_config) old ≡ a
                → Q new_config.targets
                → Q a.targets
            taken old new_config times a e q = subst (λ c. Q c.targets) e q
