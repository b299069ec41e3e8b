-- ===== src/Alerts/Runtime.antt =====
-- sync.rs: what the tasks that `alert_runtime` receives last do to the alerts it has handles for.
use parseable.Prelude.{
  string_eq, ◌≡◌, refl, ap, ◌∙◌, Option, none, some, List, [], ◌∷◌, ◌++◌, ◌==◌, String,
  if◌then◌else◌, arith,
}
use parseable.Dict
use parseable.Dict.{Dict, get-insert, get-remove}
use parseable.Alerts.{AlertConfig, AlertTask, create, delete, alert_runtime, receive}

-- The alert that the runtime has a handle for under an id, after the tasks that were sent.
unfoldable pub task_of : List AlertTask → String → Option AlertConfig
unfolding alert_runtime
task_of sent id = Dict.get (alert_runtime sent []) id

alert_runtime-append :
    (sent : List AlertTask) (task : AlertTask) (d : Dict String AlertConfig)
    → alert_runtime (sent ++ task ∷ []) d ≡ receive task (alert_runtime sent d)
unfolding alert_runtime receive
alert_runtime-append [] task d = refl
alert_runtime-append (t ∷ sent) task d = alert_runtime-append sent task (receive t d)

pub task_of-delete :
    (sent : List AlertTask) (id j : String)
    → task_of (sent ++ delete id ∷ []) j ≡ (if id == j then none else task_of sent j)
unfolding task_of receive
task_of-delete sent id j =
    ap (λ d. Dict.get d j) (alert_runtime-append sent (delete id) [])
    ∙ get-remove (alert_runtime sent []) id j

pub task_of-create :
    (sent : List AlertTask) (alert : AlertConfig) (j : String)
    → task_of sent alert.id ≡ none
    → task_of (sent ++ create alert ∷ []) j ≡ (if alert.id == j then some alert else task_of sent j)
unfolding task_of receive
task_of-create sent alert j free =
    ap (λ d. Dict.get d j) (alert_runtime-append sent (create alert) [])
    ∙ ground (arith, free, get-insert (alert_runtime sent []) alert.id j alert)
