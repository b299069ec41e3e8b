-- ===== src/Alerts/Targets/Limits.antt =====
-- alerts/target.rs: how often the targets of an alert are called.
use parseable.Prelude.{
  ◌∙◌, ℕ, zero, suc, ◌+◌, ◌≤◌, ◌≡◌, refl, ap, Bool, true, false, not, ◌&&◌, Option, none, some,
  List, [], ◌∷◌, ◌++◌, String, if◌then◌else◌, arith, Bool-cases, inl, inr, any, all,
}
use parseable.Alerts.{AlertState, triggered, not_triggered, disabled, same_state, finite, reached}
use parseable.Alerts.Targets.{
  task_step, TimeoutState, idle, call, trigger_all, check_if_call, round_and, rounds, timeout_task,
  TaskStep, checks, ends, task_steps, TimeoutEvent, evaluated, task, Sent, by_call, by_task,
  sent_in,
}

-- A step that ends a timeout, and an event that does not.
abbrev pub reopens : TaskStep → Bool
reopens (checks current_state) = not (same_state current_state triggered)
reopens ends = true

abbrev pub stays : TimeoutEvent → Bool
stays (evaluated resolves) = true
stays (task step) = not (reopens step)

abbrev pub is_task : TimeoutEvent → Bool
is_task (evaluated resolves) = false
is_task (task step) = true

abbrev pub is_call : AlertState → Sent → Bool
is_call resolves (by_call s) = same_state s resolves
is_call resolves by_task = false

abbrev pub is_repeat : Sent → Bool
is_repeat (by_call s) = false
is_repeat by_task = true

abbrev pub count {ℓ} : {A : Type ℓ} → (A → Bool) → List A → ℕ
count test [] = 0
count test (a ∷ l) = let rest = count test l in if test a then suc rest else rest

abbrev pub first_resolve : TimeoutState → ℕ
first_resolve st = if st.awaiting_resolve then 1 else 0

no_trigger :
    (events : List TimeoutEvent) (st : TimeoutState)
    → st.timed_out ≡ true
    → all stays events ≡ true
    → count (is_call triggered) (sent_in events st) ≡ 0
unfolding sent_in call task_step check_if_call
no_trigger [] st t h = refl
no_trigger (evaluated triggered ∷ events) st t h =
    ground (arith, no_trigger events (record st { alert_state = triggered }) t h)
no_trigger (evaluated not_triggered ∷ events) st t h = elim (Bool-cases st.awaiting_resolve) [
  | inl a ↦ ground (
    arith,
    no_trigger events
        (record { alert_state = not_triggered; timed_out = st.timed_out; awaiting_resolve = false })
        t h,
  )
  | inr a ↦ ground (arith, no_trigger events (record st { alert_state = not_triggered }) t h)
]
no_trigger (evaluated disabled ∷ events) st t h =
    ground (arith, no_trigger events (record st { alert_state = disabled }) t h)
no_trigger (task (checks triggered) ∷ events) st t h =
    no_trigger events (record st { awaiting_resolve = true }) t h
no_trigger (task (checks not_triggered) ∷ events) st t h = cc h
no_trigger (task (checks disabled) ∷ events) st t h = cc h
no_trigger (task ends ∷ events) st t h = cc h

repeats :
    (events : List TimeoutEvent) (st : TimeoutState)
    → all stays events ≡ true
    → count is_repeat (sent_in events st) ≡ count is_task events
unfolding sent_in task_step check_if_call
repeats [] st h = refl
repeats (evaluated resolves ∷ events) st h =
    ground (arith, repeats events (call resolves st).state h)
repeats (task (checks triggered) ∷ events) st h =
    ap suc (repeats events (record st { awaiting_resolve = true }) h)
repeats (task (checks not_triggered) ∷ events) st h = cc h
repeats (task (checks disabled) ∷ events) st h = cc h
repeats (task ends ∷ events) st h = cc h

resolves_limited :
    (events : List TimeoutEvent) (st : TimeoutState)
    → st.timed_out ≡ true
    → all stays events ≡ true
    → count (is_call not_triggered) (sent_in events st) ≤ first_resolve st + count is_task events
unfolding sent_in call task_step check_if_call
resolves_limited [] st t h = omega arith
resolves_limited (evaluated triggered ∷ events) st t h =
    ground (arith, resolves_limited events (record st { alert_state = triggered }) t h)
resolves_limited (evaluated not_triggered ∷ events) st t h = elim (Bool-cases st.awaiting_resolve) [
  | inl a ↦ ground (
    arith,
    resolves_limited events
        (record { alert_state = not_triggered; timed_out = st.timed_out; awaiting_resolve = false })
        t h,
  )
  | inr a ↦ ground (arith, resolves_limited events (record st { alert_state = not_triggered }) t h)
]
resolves_limited (evaluated disabled ∷ events) st t h =
    ground (arith, resolves_limited events (record st { alert_state = disabled }) t h)
resolves_limited (task (checks triggered) ∷ events) st t h =
    ground (arith, resolves_limited events (record st { awaiting_resolve = true }) t h)
resolves_limited (task (checks not_triggered) ∷ events) st t h = cc h
resolves_limited (task (checks disabled) ∷ events) st t h = cc h
resolves_limited (task ends ∷ events) st t h = cc h

-- The calls for a trigger: of the first target, if the alert is not in a timeout, and of each other
-- one that is reached after a timeout task ended a timeout.
abbrev pub told : Bool → (ℕ → List TaskStep) → List String → List String
told idle_before meanwhile [] = []
told idle_before meanwhile (target ∷ targets) =
    (if idle_before then target ∷ [] else [])
    ++ told (any reopens (meanwhile 0)) (λ i. meanwhile (suc i)) targets

task_steps_timed_out :
    (steps : List TaskStep) (st : TimeoutState)
    → (task_steps steps st).timed_out ≡ st.timed_out && not (any reopens steps)
unfolding task_steps task_step check_if_call
task_steps_timed_out [] st = ground arith
task_steps_timed_out (checks triggered ∷ steps) st =
    task_steps_timed_out steps (record st { awaiting_resolve = true })
task_steps_timed_out (checks not_triggered ∷ steps) st =
    ground (arith, task_steps_timed_out steps (record st { timed_out = false }))
task_steps_timed_out (checks disabled ∷ steps) st =
    ground (arith, task_steps_timed_out steps (record st { timed_out = false }))
task_steps_timed_out (ends ∷ steps) st = ground (arith, task_steps_timed_out steps idle)

reopened : (t r : Bool) → t ≡ true → not (t && not r) ≡ r
reopened t r h = ground arith

told-task_steps :
    (steps : List TaskStep) (meanwhile : ℕ → List TaskStep) (targets : List String)
    (called : TimeoutState → List String) (after : TimeoutState)
    → ((st : TimeoutState) → called st ≡ told (not st.timed_out) meanwhile targets)
    → after.timed_out ≡ true
    → called (task_steps steps after) ≡ told (any reopens steps) meanwhile targets
told-task_steps steps meanwhile targets called after ih t =
    ih (task_steps steps after)
    ∙ ap (λ b. told b meanwhile targets)
        (ap not (task_steps_timed_out steps after) ∙ reopened after.timed_out (any reopens steps) t)

-- Of its targets before the first that is not configured, an alert that triggers calls the first
-- exactly outside of a timeout, and each other one exactly where, since the call before, a timeout
-- task has ended or found the alert in another state after a sleep.
pub trigger_all_lem :
    (configured : String → Bool) (meanwhile : ℕ → List TaskStep) (targets : List String)
    (st : TimeoutState)
    → (trigger_all configured meanwhile triggered targets st).0
      ≡ told (not st.timed_out) meanwhile (reached configured targets)
unfolding trigger_all call
trigger_all_lem configured meanwhile [] st = refl
trigger_all_lem configured meanwhile (target ∷ targets) st =
    let next : ℕ → List TaskStep = λ i. meanwhile (suc i) in
    let later : (after : TimeoutState)
        → after.timed_out ≡ true
        → (trigger_all configured next triggered targets (task_steps (meanwhile 0) after)).0
          ≡ told (any reopens (meanwhile 0)) next (reached configured targets) =
      λ after.
        told-task_steps (meanwhile 0) next (reached configured targets)
          (λ s. (trigger_all configured next triggered targets s).0) after
          (trigger_all_lem configured next targets) in
    elim (Bool-cases (configured target)) [
      | inl there ↦ elim (Bool-cases st.timed_out) [
        | inl t ↦
            rw (there, t)
              (later
                (record {
                  alert_state = triggered;
                  timed_out = true;
                  awaiting_resolve = st.awaiting_resolve;
                })
                refl)
        | inr f ↦
            rw (there, f)
              (ap (λ l. target ∷ l)
                (later
                  (record { alert_state = triggered; timed_out = true; awaiting_resolve = true })
                  refl))
      ]
      | inr gone ↦ ground (arith, gone)
    ]

rounds-end :
    (n : ℕ) (observed : ℕ → Option AlertState) (st : TimeoutState)
    → ((rounds n observed st).0 ≡ idle) × ((rounds n observed st).1 ≤ n)
unfolding rounds check_if_call
rounds-end zero observed st = (refl, omega arith)
rounds-end (suc n) observed st =
    by_observed _ (observed 0)
      (λ current. rounds-end n (λ i. observed (suc i)) (check_if_call current st).0)
  where
    bit : (b : Bool) (k : ℕ) → k ≤ n → (if b then 1 else 0) + k ≤ suc n
    bit true k h = omega (arith, h)
    bit false k h = omega (arith, h)

    by_observed :
        (rest : AlertState → TimeoutState × ℕ) (o : Option AlertState)
        → ((current : AlertState) → ((rest current).0 ≡ idle) × ((rest current).1 ≤ n))
        → ((round_and rest st o).0 ≡ idle) × ((round_and rest st o).1 ≤ suc n)
    by_observed rest none ih = (refl, omega arith)
    by_observed rest (some current) ih =
        ((ih current).0, bit (check_if_call current st).1 _ (ih current).1)

-- In a timeout, as long as no timeout task ends or finds the alert in another state, and whatever
-- the evaluations and the rounds of the task do in turn, no call is made for a trigger, the task
-- calls the target once in each round, and the calls for a resolve are at most those rounds and, if
-- one was awaited at first, one more. The task that a trigger with `times` above zero spawns ends
-- with the state of no timeout, and calls the target less than `times` times.
pub notifications_limited :
    (events : List TimeoutEvent) (st : TimeoutState)
    → st.timed_out ≡ true
    → all stays events ≡ true
    → (count (is_call triggered) (sent_in events st) ≡ 0)
      × (count is_repeat (sent_in events st) ≡ count is_task events)
      × (count (is_call not_triggered) (sent_in events st)
          ≤ first_resolve st + count is_task events)
      × ((n : ℕ) (observed : ℕ → Option AlertState)
          → (repeats : ℕ) × (timeout_task (finite (suc n)) observed st ≡ some (idle, repeats))
            × (repeats ≤ n))
unfolding timeout_task
notifications_limited events st t h = (
  no_trigger events st t h,
  repeats events st h,
  resolves_limited events st t h,
  λ n observed.
      let (over, most) = rounds-end n observed st in
      ((rounds n observed st).1, ap (λ s. some (s, (rounds n observed st).1)) over, most),
)
