-- ===== src/Retention/RoundTrip.antt =====
-- storage/retention.rs: a configuration that was read is read again from what is written of it.
use parseable.Prelude.{
  ℕ, zero, suc, ◌≡◌, refl, sym, ap, subst, not, ◌∙◌, false, Option, none, some, List, [], ◌∷◌, ◌++◌,
  any, map, arith,
}
use parseable.Results.{ok, ok_or, >>=-eq-ok, guard-eq-ok, ok_or-eq-ok, ok_inj}
use parseable.Decimal.{parse_unsigned, print, parse_unsigned-print, parse_unsigned-le-limit}
use parseable.Retention.{
  Action, action_eqb, Task, Retention, TaskView, missing_suffix, not_a_number, max_days, strip_day,
  nonzero, parse_days, tasks_from, try_from, view_of, from,
}

strip_day-append : (cs : List ℕ) → strip_day (cs ++ 100 ∷ []) ≡ some cs
unfolding strip_day
strip_day-append [] = refl
strip_day-append (c ∷ []) = refl
strip_day-append (c ∷ d ∷ cs) = rw (strip_day-append (d ∷ cs)) refl

-- A number of days that was read is read again from its print.
parse_days-print : (cs : List ℕ) (n : ℕ) → parse_days cs ≡ some n → parse_days (print n) ≡ some n
unfolding parse_days
parse_days-print cs n h = go (parse_unsigned max_days cs) refl h
  where
    go :
        (o : Option ℕ)
        → parse_unsigned max_days cs ≡ o
        → nonzero o ≡ some n
        → nonzero (parse_unsigned max_days (print n)) ≡ some n
    go none e h = cc h
    go (some zero) e h = cc h
    go (some (suc m)) e h =
        let same : suc m ≡ n = ground arith in
        let read : parse_unsigned max_days (print n) ≡ some n =
          parse_unsigned-print max_days n
            (parse_unsigned-le-limit max_days cs n (e ∙ ap some same)) in
        ap nonzero read ∙ ap (λ k. nonzero (some k)) (sym same) ∙ ap some same

-- One round of the loop.
tasks_from-cons :
    (set : List Action) (view : TaskView) (views : List TaskView) (tasks : List Task)
    → tasks_from set (view ∷ views) ≡ ok tasks
    → (number : List ℕ) × (days : ℕ) × (rest : List Task) × (parse_days number ≡ some days)
      × (any (action_eqb view.action) set ≡ false)
      × (tasks_from (set ++ view.action ∷ []) views ≡ ok rest)
      × (tasks
          ≡ record { description = view.description; action = view.action; days = days } ∷ rest)
unfolding tasks_from
tasks_from-cons set view views tasks h =
    let (number, e1, h1) = >>=-eq-ok (ok_or (strip_day view.duration) missing_suffix) _ _ h in
    let (days, e2, h2) = >>=-eq-ok (ok_or (parse_days number) not_a_number) _ _ h1 in
    let (apart, h3) = guard-eq-ok (not (any (action_eqb view.action) set)) _ _ _ h2 in
    let (rest, e4, h4) = >>=-eq-ok (tasks_from (set ++ view.action ∷ []) views) _ _ h3 in
    (
      number,
      days,
      rest,
      ok_or-eq-ok (parse_days number) not_a_number days e2,
      ground arith,
      e4,
      sym (ok_inj _ _ h4),
    )

-- Writing a task whose days were read, and reading it.
tasks_from-view_of :
    (set : List Action) (task : Task) (number : List ℕ) (rest : List Task)
    → parse_days number ≡ some task.days
    → any (action_eqb task.action) set ≡ false
    → tasks_from (set ++ task.action ∷ []) (map view_of rest) ≡ ok rest
    → tasks_from set (view_of task ∷ map view_of rest) ≡ ok (task ∷ rest)
unfolding tasks_from view_of
tasks_from-view_of set task number rest days apart later =
    rw (strip_day-append (print task.days), parse_days-print number task.days days, apart, later)
      refl

tasks_from-from :
    (set : List Action) (views : List TaskView) (tasks : List Task)
    → tasks_from set views ≡ ok tasks
    → tasks_from set (map view_of tasks) ≡ ok tasks
unfolding tasks_from
tasks_from-from set [] tasks h =
    let e : [] ≡ tasks = ok_inj _ _ h in subst (λ l. tasks_from set (map view_of l) ≡ ok l) e refl
tasks_from-from set (view ∷ views) tasks h =
    let (number, days, rest, read, apart, later, e) = tasks_from-cons set view views tasks h in
    let task : Task = record {
      description = view.description;
      action = view.action;
      days = days;
    } in
    subst (λ l. tasks_from set (map view_of l) ≡ ok l) (sym e)
      (tasks_from-view_of set task number rest read apart
        (tasks_from-from (set ++ view.action ∷ []) views rest later))

-- A configuration that `try_from` makes is made again from what it is turned into.
pub try_from-from :
    (views : List TaskView) (r : Retention) → try_from views ≡ ok r → try_from (from r) ≡ ok r
unfolding try_from from
try_from-from views r h =
    let (tasks, e, h1) = >>=-eq-ok (tasks_from [] views) _ _ h in
    let same : record { tasks = tasks } ≡ r = ok_inj _ _ h1 in
    subst (λ v. try_from (from v) ≡ ok v) same (rw (tasks_from-from [] views tasks e) refl)
