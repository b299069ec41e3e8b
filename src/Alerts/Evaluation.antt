-- ===== src/Alerts/Evaluation.antt =====
-- sync.rs: the loop of the task that `alert_runtime` spawns for an alert. It is given by the outcomes
-- of its evaluations in order: `true` where `evaluate_alert` succeeds.
use parseable.Prelude.{
  ℕ, zero, suc, ◌≤◌, ◌≡◌, ◌↔◌, refl, ap, subst, ltb→lt, Bool, true, false, Option, none, some, List,
  [], ◌∷◌, if◌then◌else◌, ltb, all, arith, Bool-cases, inl, inr,
}
use parseable.Alerts.{AlertConfig}

-- The variables of the loop: minutes of sleep, and the failures since the last success.
pub record TaskLoop : Type 0 where
  pub retry_counter : ℕ
  pub sleep_duration : ℕ

abbrev pub first_round : AlertConfig → TaskLoop
first_round alert = record { retry_counter = 0; sleep_duration = alert.eval_config.eval_frequency }

-- One round: the variables before its sleep, or none where the loop breaks.
unfoldable pub evaluate_round : Bool → TaskLoop → Option TaskLoop
evaluate_round true t = some (record t { retry_counter = 0 })
evaluate_round false t =
    if ltb 3 (suc t.retry_counter)
    then none
    else some (record { retry_counter = suc t.retry_counter; sleep_duration = 1 })

abbrev pub and_rounds : (TaskLoop → Option TaskLoop) → Option TaskLoop → Option TaskLoop
and_rounds more none = none
and_rounds more (some t) = more t

-- The loop after its evaluations; none where it has ended.
unfoldable pub evaluate_rounds : List Bool → TaskLoop → Option TaskLoop
unfolding evaluate_round
evaluate_rounds [] t = some t
evaluate_rounds (outcome ∷ outcomes) t =
    and_rounds (λ t'. evaluate_rounds outcomes t') (evaluate_round outcome t)

-- Four failures in a row.
pub data HasFourFailures : List Bool → Type 0 where
  here : {os : List Bool} → HasFourFailures (false ∷ false ∷ false ∷ false ∷ os)
  later : {o : Bool} {os : List Bool} → HasFourFailures os → HasFourFailures (o ∷ os)

abbrev failures : ℕ → List Bool → List Bool
failures zero os = os
failures (suc n) os = false ∷ failures n os

failures_inside : (n : ℕ) (os : List Bool) → failures n (false ∷ os) ≡ failures (suc n) os
failures_inside zero os = refl
failures_inside (suc n) os = ap (λ l. false ∷ l) (failures_inside n os)

failures_before : (n : ℕ) (os : List Bool) → HasFourFailures os → HasFourFailures (failures n os)
failures_before zero os h = h
failures_before (suc n) os h = later (failures_before n os h)

-- Fewer than four failures and a success before the others play no part.
few_failures :
    (n : ℕ) (os : List Bool) → n ≤ 3 → HasFourFailures (failures n (true ∷ os)) → HasFourFailures os
few_failures zero os le (later h) = h
few_failures (suc zero) os le (later (later h)) = h
few_failures (suc (suc zero)) os le (later (later (later h))) = h
few_failures (suc (suc (suc zero))) os le (later (later (later (later h)))) = h
few_failures (suc (suc (suc (suc n)))) os le h = absurd (omega (arith, le))

few_only : (n : ℕ) → n ≤ 3 → ¬ (HasFourFailures (failures n []))
few_only zero le h = elim h [ ]
few_only (suc zero) le (later h) = elim h [ ]
few_only (suc (suc zero)) le (later (later h)) = elim h [ ]
few_only (suc (suc (suc zero))) le (later (later (later h))) = elim h [ ]
few_only (suc (suc (suc (suc n)))) le h = absurd (omega (arith, le))

evaluate_rounds-end :
    (os : List Bool) (n s : ℕ)
    → n ≤ 3
    → (evaluate_rounds os (record { retry_counter = n; sleep_duration = s }) ≡ none)
      ↔ HasFourFailures (failures n os)
unfolding evaluate_rounds evaluate_round
evaluate_rounds-end [] n s le = (λ h. cc h, λ h. absurd (few_only n le h))
evaluate_rounds-end (true ∷ os) n s le =
    let (to, from) = evaluate_rounds-end os 0 s (omega arith) in
    (λ h. failures_before n (true ∷ os) (later (to h)), λ h. from (few_failures n os le h))
evaluate_rounds-end (false ∷ os) n s le = elim (Bool-cases (ltb 3 (suc n))) [
  | inl last ↦
      let three : 3 ≡ n = omega (arith, ltb→lt 3 (suc n) last, le) in
      rw last (λ h. subst (λ k. HasFourFailures (failures k (false ∷ os))) three here, λ h. refl)
  | inr more ↦
      let (to, from) = evaluate_rounds-end os (suc n) 1 (ground arith) in
      rw (more, failures_inside n os) (to, from)
]

-- The sleeps of a task that goes on.
evaluate_rounds_sleep :
    (os : List Bool) (t t' : TaskLoop)
    → evaluate_rounds os t ≡ some t'
    → t'.sleep_duration ≡ (if all (λ o. o) os then t.sleep_duration else 1)
unfolding evaluate_rounds evaluate_round
evaluate_rounds_sleep [] t t' h = ground arith
evaluate_rounds_sleep (true ∷ os) t t' h =
    evaluate_rounds_sleep os (record t { retry_counter = 0 }) t' h
evaluate_rounds_sleep (false ∷ os) t t' h = elim (Bool-cases (ltb 3 (suc t.retry_counter))) [
  | inl last ↦ cc (h, last)
  | inr more ↦ one (all (λ o. o) os) (
      evaluate_rounds_sleep os (record { retry_counter = suc t.retry_counter; sleep_duration = 1 })
        t' (ground arith))
]
  where
    one : (b : Bool) → t'.sleep_duration ≡ (if b then 1 else 1) → t'.sleep_duration ≡ 1
    one true e = e
    one false e = e

-- The task of an alert ends after some evaluations exactly if four of them in a row failed. While it
-- goes on, it sleeps for the evaluation frequency of the alert if none has failed so far, and for one
-- minute ever after the first failure.
pub evaluate_rounds_lem :
    (alert : AlertConfig) (outcomes : List Bool)
    → ((evaluate_rounds outcomes (first_round alert) ≡ none) ↔ HasFourFailures outcomes)
      × ((t : TaskLoop)
          → evaluate_rounds outcomes (first_round alert) ≡ some t
          → t.sleep_duration
            ≡ (if all (λ o. o) outcomes then alert.eval_config.eval_frequency else 1))
evaluate_rounds_lem alert outcomes = (
  evaluate_rounds-end outcomes 0 alert.eval_config.eval_frequency (omega arith),
  evaluate_rounds_sleep outcomes (first_round alert),
)
