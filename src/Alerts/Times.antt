-- ===== src/Alerts/Times.antt =====
-- handlers/http/alerts.rs: how often an alert that `post` accepts notifies within one evaluation
-- period.
use parseable.Prelude.{
  ℕ, ◌+◌, ◌*◌, ◌/◌, ◌≤◌, ◌<◌, ◌≡◌, refl, subst, ◌∙◌, Bool, Option, String, arith,
}
use native.Mathlib.Nat.{div-mul-le_self, lt-div-mul-add, le-div_iff_mul-le}
use parseable.Results.{ok, ok_inj, >>=-eq-ok}
use parseable.Alerts.{AlertConfig, AlertError, finite}
use parseable.Alerts.Updates.{threshold_only}
use parseable.Alerts.Checks.{check_intervals, with_times, notification_times, validate}
use parseable.Alerts.Handlers.{checked_post}
use parseable.Alerts.States.{threshold_only-eq-ok}

-- The intervals that pass the checks.
check_intervals-eq-ok :
    (alert : AlertConfig)
    → check_intervals alert ≡ ok tt
    → (alert.notification_config.interval ≤ alert.eval_config.eval_frequency)
      × (0 < alert.notification_config.interval)
check_intervals-eq-ok alert h = ground arith

notification_times-eq-ok :
    (eval_freq notif_freq times : ℕ)
    → notif_freq ≤ eval_freq
    → notification_times eval_freq notif_freq ≡ ok times
    → 0 < notif_freq
    → (1 ≤ times) × (times * notif_freq ≤ eval_freq) × (eval_freq < times * notif_freq + notif_freq)
unfolding notification_times
notification_times-eq-ok eval_freq notif_freq times le h pos =
    let once : 1 ≤ eval_freq / notif_freq = (le-div_iff_mul-le pos).1 (omega arith) in
    let e : eval_freq / notif_freq ≡ times = ground arith in
    subst (λ t. (1 ≤ t) × (t * notif_freq ≤ eval_freq) × (eval_freq < t * notif_freq + notif_freq))
      e (once, div-mul-le_self eval_freq notif_freq, lt-div-mul-add pos)

-- An alert that `post` accepts repeats its notification at least once, and as often as its interval
-- fits into one evaluation period: not later than the next evaluation, with less than one interval
-- left over.
pub checked_post_times :
    (is_duration : String → Bool) (query_error : String → Option AlertError)
    (request a : AlertConfig)
    → checked_post is_duration query_error request ≡ ok a
    → (times : ℕ) × (a.notification_config.times ≡ finite times)
      × (1 ≤ times)
      × (times * a.notification_config.interval ≤ a.eval_config.eval_frequency)
      × (a.eval_config.eval_frequency
          < times * a.notification_config.interval + a.notification_config.interval)
unfolding checked_post
checked_post_times is_duration query_error request a h =
    let (u, checked, h1) = >>=-eq-ok (check_intervals request) _ a h in
    let (times, counted, h2) =
      >>=-eq-ok
        (notification_times request.eval_config.eval_frequency request.notification_config.interval)
        _ a h1 in
    let (b, t, h3) =
      >>=-eq-ok (threshold_only request.alert_type (with_times times request)) _ a h2 in
    let (v, _, h4) = >>=-eq-ok (validate is_duration query_error b) _ a h3 in
    let (le, pos) = check_intervals-eq-ok request checked in
    let (once, fits, most) = notification_times-eq-ok _ _ times le counted pos in
    subst
      (λ c.
        (times' : ℕ) × (c.notification_config.times ≡ finite times')
        × (1 ≤ times')
        × (times' * c.notification_config.interval ≤ c.eval_config.eval_frequency)
        × (c.eval_config.eval_frequency
            < times' * c.notification_config.interval + c.notification_config.interval))
      (threshold_only-eq-ok request.alert_type _ _ t ∙ ok_inj b a h4)
      (times, refl, once, fits, most)
