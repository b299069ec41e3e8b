-- ===== src/Alerts/InStep.antt =====
-- alerts: the agreement of the manager's alerts with the tasks of the runtime, and the changes that
-- keep it.
use parseable.Prelude.{
  string_eq, ◌≡◌, refl, ap, ◌∙◌, sym, true, false, Option, none, some, List, [], ◌∷◌, ◌++◌, ◌==◌,
  String, if◌then◌else◌, arith, ==_iff, Bool-cases, ◌⊎◌, inl, inr,
}
use parseable.Dict
use parseable.Dict.{Dict, get-insert, get-remove}
use parseable.Alerts.{
  AlertConfig, AlertTask, create, delete, not_triggered, disabled, notify, same_state,
}
use parseable.Alerts.Runtime.{task_of, task_of-delete, task_of-create}

-- What an evaluation reads of an alert: all but its state, whether it is muted, and when it was
-- last triggered.
abbrev pub task_config : AlertConfig → AlertConfig
task_config a = record a {
  state = not_triggered;
  notification_state = notify;
  last_triggered_at = none;
}

abbrev pub task_configs : Option AlertConfig → Option AlertConfig
task_configs none = none
task_configs (some a) = some (task_config a)

-- The task that an alert should have: one with its configuration unless it is disabled.
abbrev pub expected_task : Option AlertConfig → Option AlertConfig
expected_task none = none
expected_task (some a) = if same_state a.state disabled then none else some (task_config a)

-- Every alert stands under its id, and the runtime has handles for the alerts that are not disabled,
-- with the configuration that they have, and for no others.
pub record IsInStep (alerts : Dict String AlertConfig) (sent : List AlertTask) : Type 0 where
  pub ids : (id : String) (a : AlertConfig) → Dict.get alerts id ≡ some a → a.id ≡ id
  pub tasks : (id : String) → task_configs (task_of sent id) ≡ expected_task (Dict.get alerts id)

module _ {alerts : Dict String AlertConfig} {sent : List AlertTask} (s : IsInStep alerts sent) where
  pub drop-IsInStep : (id : String) → IsInStep (Dict.remove alerts id) (sent ++ delete id ∷ [])
  drop-IsInStep id = record {
    ids = λ j a g. s.ids j a (ground (arith, get-remove alerts id j));
    tasks = λ j. ground (arith, s.tasks j, get-remove alerts id j, task_of-delete sent id j);
  }

  -- An alert is put in, with the task that it should have.
  pub place-IsInStep :
      (a : AlertConfig) (sent' : List AlertTask)
      → ((j : String)
          → task_configs (task_of sent' j)
            ≡ (if a.id == j then expected_task (some a) else task_configs (task_of sent j)))
      → IsInStep (Dict.insert alerts a.id a) sent'
  place-IsInStep a sent' t = record {
    ids = λ j b g. ground (arith, s.ids j b, get-insert alerts a.id j a, ==_iff a.id j);
    tasks = λ j. ground (arith, s.tasks j, t j, get-insert alerts a.id j a);
  }

  -- A disabled alert is put in after its task is deleted.
  pub off-IsInStep :
      (a : AlertConfig)
      → same_state a.state disabled ≡ true
      → IsInStep (Dict.insert alerts a.id a) (sent ++ delete a.id ∷ [])
  off-IsInStep a off = place-IsInStep a _ (λ j. ground (arith, off, task_of-delete sent a.id j))

  -- An alert that has no task is put in with one.
  pub on-IsInStep :
      (a before : AlertConfig)
      → before.id ≡ a.id
      → task_config before ≡ task_config a
      → same_state a.state disabled ≡ false
      → task_configs (task_of sent a.id) ≡ none
      → IsInStep (Dict.insert alerts a.id a) (sent ++ create before ∷ [])
  on-IsInStep a before same_id same_config on free = place-IsInStep a _ placed
    where
      unused : (o : Option AlertConfig) → task_configs o ≡ none → o ≡ none
      unused none h = refl
      unused (some x) h = cc

      none_before : task_of sent before.id ≡ none
      none_before = unused _ (ap (λ i. task_configs (task_of sent i)) same_id ∙ free)

      placed :
          (j : String)
          → task_configs (task_of (sent ++ create before ∷ []) j)
            ≡ (if a.id == j then expected_task (some a) else task_configs (task_of sent j))
      placed j =
          let test : (before.id == j) ≡ (a.id == j) = ap (λ i. i == j) same_id in
          ground (arith, same_config, on, test, task_of-create sent before j none_before)

  -- An alert is changed in what a task does not read, and is disabled as before.
  pub change-IsInStep :
      (a before : AlertConfig)
      → Dict.get alerts a.id ≡ some before
      → task_config before ≡ task_config a
      → same_state before.state disabled ≡ same_state a.state disabled
      → IsInStep (Dict.insert alerts a.id a) sent
  change-IsInStep a before found same_config same_test = place-IsInStep a _ placed
    where
      placed :
          (j : String)
          → task_configs (task_of sent j)
            ≡ (if a.id == j then expected_task (some a) else task_configs (task_of sent j))
      placed j = elim (Bool-cases (a.id == j)) [
        | inl e ↦
            let q : Dict.get alerts j ≡ some before =
              ap (Dict.get alerts) (sym ((==_iff a.id j).0 e)) ∙ found in
            ground (arith, s.tasks j, same_config, same_test)
        | inr e ↦ ground arith
      ]

  -- A disabled alert is put in where there is none.
  pub vacant-IsInStep :
      (a : AlertConfig)
      → Dict.get alerts a.id ≡ none
      → same_state a.state disabled ≡ true
      → IsInStep (Dict.insert alerts a.id a) sent
  vacant-IsInStep a free off = place-IsInStep a sent (λ j. by_id j (Bool-cases (a.id == j)))
    where
      no_task : task_configs (task_of sent a.id) ≡ none
      no_task = s.tasks a.id ∙ ap expected_task free

      by_id :
          (j : String)
          → ((a.id == j) ≡ true) ⊎ ((a.id == j) ≡ false)
          → task_configs (task_of sent j)
            ≡ (if a.id == j then expected_task (some a) else task_configs (task_of sent j))
      by_id j (inl e) =
          let q : task_configs (task_of sent j) ≡ none =
            ap (λ i. task_configs (task_of sent i)) (sym ((==_iff a.id j).0 e)) ∙ no_task in
          ground (arith, off)
      by_id j (inr e) = ground arith

  -- The task of an alert that is not disabled is deleted and started again.
  pub restart-IsInStep :
      (a : AlertConfig) (id : String)
      → Dict.get alerts id ≡ some a
      → a.id ≡ id
      → same_state a.state disabled ≡ false
      → IsInStep alerts ((sent ++ delete id ∷ []) ++ create a ∷ [])
  restart-IsInStep a id found same_id on = record { ids = s.ids; tasks = again }
    where
      no_task : task_of (sent ++ delete id ∷ []) a.id ≡ none
      no_task =
          task_of-delete sent id a.id
          ∙ ap (λ b. if b then none else task_of sent a.id) ((==_iff id a.id).1 (sym same_id))

      again :
          (j : String)
          → task_configs (task_of ((sent ++ delete id ∷ []) ++ create a ∷ []) j)
            ≡ expected_task (Dict.get alerts j)
      again j = elim (Bool-cases (a.id == j)) [
        | inl e ↦
            let q : Dict.get alerts j ≡ some a =
              ap (Dict.get alerts) (sym ((==_iff a.id j).0 e) ∙ same_id) ∙ found in
            ground (arith, task_of-create (sent ++ delete id ∷ []) a j no_task)
        | inr e ↦
            let d : (id == j) ≡ false = ap (λ i. i == j) (sym same_id) ∙ e in
            ground (
              arith,
              s.tasks j,
              task_of-create (sent ++ delete id ∷ []) a j no_task,
              task_of-delete sent id j,
            )
      ]
