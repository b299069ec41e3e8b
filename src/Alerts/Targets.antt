-- ===== src/Alerts/Targets.antt =====
-- alerts/target.rs: `Target::call` and the task that it spawns, `spawn_timeout_task`, and the loop of
-- `AlertConfig::trigger_notifications` (alerts/mod.rs) over the targets of an alert. The state is one
-- `Arc<Mutex<TimeoutState>>` for an alert: every clone of its `NotificationConfig` shares it.
pub mod Limits
mod Tests
use parseable.Prelude.{
  ℕ, zero, suc, ◌-◌, ◌+◌, Bool, true, false, not, ◌&&◌, Option, none, some, List, [], ◌∷◌, String,
  if◌then◌else◌,
}
use parseable.Alerts.{
  AlertState, triggered, not_triggered, disabled, same_state, Retry, infinite, finite,
}

pub record TimeoutState : Type 0 where
  pub alert_state : AlertState
  pub timed_out : Bool
  pub awaiting_resolve : Bool

-- `TimeoutState::default()`
abbrev pub idle : TimeoutState
idle = record { alert_state = not_triggered; timed_out = false; awaiting_resolve = false }

-- The state after a call, whether `call_target` runs, and whether a timeout task is spawned.
pub record Called : Type 0 where
  pub state : TimeoutState
  pub called : Bool
  pub spawned : Bool

abbrev pub quiet : TimeoutState → Called
quiet st = record { state = st; called = false; spawned = false }

-- `Target::call`
unfoldable pub call : AlertState → TimeoutState → Called
call triggered st = if st.timed_out then quiet (record st { alert_state = triggered }) else record {
  state = record { alert_state = triggered; timed_out = true; awaiting_resolve = true };
  called = true;
  spawned = true;
}
call not_triggered st =
    if st.timed_out && not st.awaiting_resolve
    then quiet (record st { alert_state = not_triggered })
    else record {
      state = record {
        alert_state = not_triggered;
        timed_out = st.timed_out;
        awaiting_resolve = if st.timed_out then false else st.awaiting_resolve;
      };
      called = true;
      spawned = false;
    }
call disabled st = quiet (record st { alert_state = disabled })

-- One round of the timeout task, after its sleep: whether the target is called again. The state of
-- the alert is that from before the sleep.
unfoldable pub check_if_call : AlertState → TimeoutState → TimeoutState × Bool
check_if_call current_state st =
    if same_state current_state triggered
    then (record st { awaiting_resolve = true }, true)
    else (record st { timed_out = false }, false)

-- What a timeout task does to the state: the round after a sleep, with the state of the alert from
-- before the sleep, or the end of the task. It says whether the target is called again.
pub data TaskStep : Type 0 where
  checks : (current_state : AlertState) → TaskStep
  ends : TaskStep

unfoldable pub task_step : TaskStep → TimeoutState → TimeoutState × Bool
unfolding check_if_call
task_step (checks current_state) st = check_if_call current_state st
task_step ends st = (idle, false)

unfoldable pub task_steps : List TaskStep → TimeoutState → TimeoutState
unfolding task_step
task_steps [] st = st
task_steps (step ∷ steps) st = task_steps steps (task_step step st).0

-- The targets that `trigger_notifications` calls, in order, and the state that it leaves. It stops at
-- a target that is not configured. The timeout tasks run beside it: `meanwhile n` is what
-- they do between the call of the n-th target and that of the next.
unfoldable pub trigger_all :
    (configured : String → Bool)
    → (meanwhile : ℕ → List TaskStep) → AlertState
    → (targets : List String) → TimeoutState
    → List String × TimeoutState
unfolding call task_steps
trigger_all configured meanwhile resolves [] st = ([], st)
trigger_all configured meanwhile resolves (target ∷ targets) st =
    let now = call resolves st in
    let rest =
      trigger_all configured (λ i. meanwhile (suc i)) resolves targets
        (task_steps (meanwhile 0) now.state) in
    if configured target then (if now.called then target ∷ rest.0 else rest.0, rest.1) else ([], st)

-- What happens to a timeout state, in order: a call with the outcome of an evaluation, or a step of a
-- timeout task.
pub data TimeoutEvent : Type 0 where
  evaluated : (resolves : AlertState) → TimeoutEvent
  task : (step : TaskStep) → TimeoutEvent

-- A run of `call_target`, by a call with an outcome or by a timeout task.
pub data Sent : Type 0 where
  by_call : (resolves : AlertState) → Sent
  by_task : Sent

unfoldable pub sent_in : List TimeoutEvent → TimeoutState → List Sent
unfolding call task_step
sent_in [] st = []
sent_in (evaluated resolves ∷ events) st =
    let rest = sent_in events (call resolves st).state in
    if (call resolves st).called then by_call resolves ∷ rest else rest
sent_in (task step ∷ events) st =
    let rest = sent_in events (task_step step st).0 in
    if (task_step step st).1 then by_task ∷ rest else rest

-- One round and the rest of the loop: the state at its end and the number of calls. `none` is an alert
-- that is gone, which ends the task.
abbrev pub round_and :
    (AlertState → TimeoutState × ℕ) → TimeoutState → Option AlertState → TimeoutState × ℕ
unfolding check_if_call
round_and rest st none = (idle, 0)
round_and rest st (some current) =
    ((rest current).0, (if (check_if_call current st).1 then 1 else 0) + (rest current).1)

-- The rounds of the loop, where `observed` is what `get_state` gives in each.
unfoldable pub rounds : ℕ → (observed : ℕ → Option AlertState) → TimeoutState → TimeoutState × ℕ
unfolding check_if_call
rounds zero observed st = (idle, 0)
rounds (suc n) observed st =
    round_and (λ current. rounds n (λ i. observed (suc i)) (check_if_call current st).0) st
      (observed 0)

-- The task for `Retry::Finite(times)`; `times - 1` panics or wraps around where `times` is zero.
unfoldable pub timeout_task :
    Retry → (observed : ℕ → Option AlertState) → TimeoutState → Option (TimeoutState × ℕ)
unfolding rounds
timeout_task (finite (suc n)) observed st = some (rounds n observed st)
timeout_task (finite zero) observed st = none
timeout_task infinite observed st = none
