-- ===== src/Alerts/Configs/Configured.antt =====
-- alerts: the targets of every alert are configured, whatever requests come.
use parseable.Prelude.{
  some-injective, string_eq, ℕ, ◌≡◌, refl, subst, Bool, true, false, Option, some, List, [], ◌∷◌,
  ◌==◌, String, all, any, contains, arith, Bool-cases, inl, inr, Option-cases, length, eqb,
}
use parseable.Dict
use parseable.Dict.{Dict, get-insert, get-remove}
use parseable.Results.{Result, ok, err, ok_or, guard, >>=-eq-ok, ok_or-eq-ok, ok_inj}
use parseable.Alerts.{
  AlertConfig, AlertError, invalid_target_id, validation_failure, Manager, Io, has_task,
}
use parseable.Alerts.Requests.{
  Request, posts, modifies, deletes, disables, enables, evaluates, mutes, evaluated, serve,
}
use parseable.Alerts.Configs.{
  AlertRequest, Target, TargetConfigs, into, find_targets, few_other_fields, requested_type, update,
  update_target, checked_update, write_target, delete,
}
use parseable.Alerts.Configs.Everywhere.{
  Everywhere, update_alert_state-Everywhere, delete_alert-Everywhere, evaluate_alert-Everywhere,
  disable_alert-Everywhere, enable_alert-Everywhere, put_notification-Everywhere, post-Everywhere,
  modify_alert-Everywhere,
}
use parseable.Alerts.Configs.System.{
  AlertSystem, SystemRequest, posts_alert, modifies_alert, on_alerts, posts_target, updates_target,
  deletes_target, brings_targets, post_made, serve_system, IsMade, ServedSystem, start, next,
}

abbrev pub configured : TargetConfigs → String → Bool
configured c id = has_task (Dict.get c.target_configs id)

abbrev pub AreConfigured : TargetConfigs → List String → Type 0
AreConfigured c ids = all (configured c) ids ≡ true

-- Every target of every alert is configured.
abbrev pub AllConfigured : AlertSystem → Type 0
AllConfigured sys = Everywhere (AreConfigured sys.configs) sys.manager.alerts

find_targets-all :
    (c : TargetConfigs) (ids : List String) → find_targets c ids ≡ ok tt → AreConfigured c ids
unfolding find_targets
find_targets-all c [] h = refl
find_targets-all c (id ∷ ids) h =
    let (target, found, h1) =
      >>=-eq-ok (ok_or (Dict.get c.target_configs id) invalid_target_id) (λ t. find_targets c ids)
        tt h in
    let there : Dict.get c.target_configs id ≡ some target = ok_or-eq-ok _ _ _ found in
    ground (arith, there, find_targets-all c ids h1)

into-eq-ok :
    (resolve_stream_names : String → Result AlertError (List String)) (new_id : String) (now : ℕ)
    (c : TargetConfigs) (request : AlertRequest) (a : AlertConfig)
    → into resolve_stream_names new_id now c request ≡ ok a
    → AreConfigured c a.targets
unfolding into
into-eq-ok resolve_stream_names new_id now c request a h =
    let (u, _, h1) =
      >>=-eq-ok
        (guard (few_other_fields request.other_fields)
          (validation_failure "other_fields can contain at most 10 fields"))
        _ a h in
    let (v, there, h2) = >>=-eq-ok (find_targets c request.targets) _ a h1 in
    let (datasets, _, h3) = >>=-eq-ok (resolve_stream_names request.query) _ a h2 in
    let (w, _, h4) =
      >>=-eq-ok
        (guard (eqb (length datasets) 1)
          (validation_failure "Query should include only one dataset"))
        _ a h3 in
    let (t, _, h5) = >>=-eq-ok (requested_type request) _ a h4 in
    subst (λ b. AreConfigured c b.targets) (ok_inj _ a h5)
      (find_targets-all c request.targets there)

-- A target that is put in leaves the others, and one that is taken out those of lists without it.
all-insert :
    (c : TargetConfigs) (target : Target) (stored : Dict String Target) (ids : List String)
    → AreConfigured c ids
    → AreConfigured
        (record { target_configs = Dict.insert c.target_configs target.id target; stored = stored })
        ids
all-insert c target stored [] h = refl
all-insert c target stored (id ∷ ids) h =
    ground (arith, get-insert c.target_configs target.id id target, all-insert c target stored ids)

all-remove :
    (c : TargetConfigs) (id : String) (stored : Dict String Target) (ids : List String)
    → contains ids id ≡ false
    → AreConfigured c ids
    → AreConfigured
        (record { target_configs = Dict.remove c.target_configs id; stored = stored })
        ids
all-remove c id stored [] n h = refl
all-remove c id stored (j ∷ ids) n h =
    ground (arith, get-remove c.target_configs id j, all-remove c id stored ids)

unused-get :
    (alerts : Dict String AlertConfig) (id j : String) (a : AlertConfig)
    → any (λ e. contains e.1.targets id) alerts ≡ false
    → Dict.get alerts j ≡ some a
    → contains a.targets id ≡ false
unfolding Dict.get
unused-get [] id j a n h = cc h
unused-get ((k, b) ∷ alerts) id j a n h = elim (Bool-cases (k == j)) [
  | inl same ↦
      let it : ◌≡◌ {A = Option AlertConfig} (some b) (some a) = ground (arith, h) in
      subst (λ c. contains c.targets id ≡ false) (some-injective b a it) (ground (arith, n))
  | inr differ ↦ unused-get alerts id j a (ground (arith, n)) (ground (arith, h))
]

module _ (alerts : Dict String AlertConfig) (c : TargetConfigs)
    (every : Everywhere (AreConfigured c) alerts) where
  update-configured :
      (put_target : Bool) (target : Target)
      → Everywhere (AreConfigured (update put_target target c).1) alerts
  unfolding update
  update-configured true target id a found =
      all-insert c target (Dict.insert c.stored target.id target) a.targets (every id a found)
  update-configured false target id a found = every id a found

  write_target-configured :
      (put_target : Bool) (checked : Result AlertError Target)
      → Everywhere (AreConfigured (write_target put_target checked c).1) alerts
  write_target-configured put_target (err e) = every
  write_target-configured put_target (ok target) = update-configured put_target target

  update_target-configured :
      (put_target : Bool) (id : String) (target : Target)
      → Everywhere (AreConfigured (update_target put_target id target c).1) alerts
  unfolding update_target
  update_target-configured put_target id target =
      write_target-configured put_target (checked_update id target c)

  delete-configured :
      (delete_target : Bool) (id : String)
      → Everywhere (AreConfigured (delete delete_target alerts id c).1) alerts
  unfolding delete
  delete-configured delete_target id =
      elim (Bool-cases (any (λ e. contains e.1.targets id) alerts)) [
        | inl used ↦ rw used every
        | inr unused ↦ elim (Option-cases (Dict.get c.target_configs id)) [
          | inl missing ↦ rw (unused, missing) every
          | inr (target, there) ↦ elim (Bool-cases delete_target) [
            | inl w ↦
                rw (unused, there, w)
                  (λ j a found.
                    all-remove c id (Dict.remove c.stored target.id) a.targets
                      (unused-get alerts id j a unused found) (every j a found))
            | inr w ↦
                rw (unused, there, w)
                  (λ j a found.
                    all-remove c id c.stored a.targets (unused-get alerts id j a unused found)
                      (every j a found))
          ]
        ]
      ]

module _ (allowed is_duration : String → Bool) (query_error : String → Option AlertError)
    (parse_time : String → Option ℕ)
    (resolve_stream_names : String → Result AlertError (List String)) where
  serve-configured :
      (Q : List String → Type 0) (request : Request) (m : Manager)
      → brings_targets request ≡ false
      → Everywhere Q m.alerts
      → Everywhere Q (serve allowed is_duration query_error parse_time request m).alerts
  unfolding serve
  serve-configured Q (posts io request) m b every = cc b
  serve-configured Q (modifies io id request) m b every = cc b
  serve-configured Q (deletes io id) m b every =
      delete_alert-Everywhere Q io m every allowed parse_time id
  serve-configured Q (disables io id) m b every =
      disable_alert-Everywhere Q io m every allowed parse_time id
  serve-configured Q (enables io id) m b every =
      enable_alert-Everywhere Q io m every allowed parse_time id
  serve-configured Q (evaluates io id) m b every =
      evaluate_alert-Everywhere Q io m every allowed parse_time id
  serve-configured Q (mutes io id requested) m b every =
      put_notification-Everywhere Q io m every allowed parse_time id requested
  serve-configured Q (evaluated io id message) m b every =
      update_alert_state-Everywhere Q parse_time io id message m every

  post_made-configured :
      (io : Io) (made : Result AlertError AlertConfig) (sys : AlertSystem)
      → AllConfigured sys
      → ((a : AlertConfig) → made ≡ ok a → AreConfigured sys.configs a.targets)
      → AllConfigured
          (post_made allowed is_duration query_error parse_time resolve_stream_names io made sys)
  unfolding serve
  post_made-configured io (err e) sys every given = every
  post_made-configured io (ok a) sys every given =
      post-Everywhere (AreConfigured sys.configs) io sys.manager every allowed parse_time a.id
        is_duration query_error a (given a refl)

  serve_system-configured :
      (request : SystemRequest) (sys : AlertSystem)
      → IsMade allowed is_duration query_error parse_time resolve_stream_names request
      → AllConfigured sys
      → AllConfigured
          (serve_system allowed is_duration query_error parse_time resolve_stream_names request sys)
  unfolding serve_system serve
  serve_system-configured (posts_alert io new_id request) sys made every =
      post_made-configured io (into resolve_stream_names new_id io.now sys.configs request) sys
        every (into-eq-ok resolve_stream_names new_id io.now sys.configs request)
  serve_system-configured (modifies_alert io id new_id request) sys made every =
      modify_alert-Everywhere (AreConfigured sys.configs) io sys.manager every allowed parse_time id
        is_duration query_error (into resolve_stream_names new_id io.now sys.configs request)
        (into-eq-ok resolve_stream_names new_id io.now sys.configs request)
  serve_system-configured (on_alerts request) sys made every =
      serve-configured (AreConfigured sys.configs) request sys.manager made every
  serve_system-configured (posts_target put_target target) sys made every =
      update-configured sys.manager.alerts sys.configs every put_target target
  serve_system-configured (updates_target put_target id target) sys made every =
      update_target-configured sys.manager.alerts sys.configs every put_target id target
  serve_system-configured (deletes_target delete_target id) sys made every =
      delete-configured sys.manager.alerts sys.configs every delete_target id

  -- From a state where every target of every alert is configured, every sequence of requests on
  -- alerts and on targets leads to such a state, however the calls to the metastore end, where the
  -- requests that bring the targets of an alert are made of an `AlertRequest`.
  pub ServedSystem-AllConfigured :
      {sys after : AlertSystem}
      → ServedSystem allowed is_duration query_error parse_time resolve_stream_names sys after
      → AllConfigured sys
      → AllConfigured after
  ServedSystem-AllConfigured start every = every
  ServedSystem-AllConfigured (next request made steps) every =
      serve_system-configured request _ made (ServedSystem-AllConfigured steps every)
