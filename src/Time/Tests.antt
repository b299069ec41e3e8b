-- ===== src/Time/Tests.antt =====
-- Runs of the time ranges, and the theorems at inputs that meet their hypotheses.
use parseable.Prelude.{ℕ, ◌+◌, ◌*◌, ◌≤◌, ◌<◌, ◌≡◌, refl, some, [], ◌∷◌, arith}
use parseable.Time.{
  TimeRange, hour, minute, date_of, hour_of, minute_of, minute_ns, generate_prefixes,
}
use parseable.Time.Blocks.{Held, Returns}
use parseable.Time.Coverage.{generate_prefixes_covers}

-- From 15:59 to 17:01 on day 3.
abbrev afternoon : TimeRange
afternoon = record {
  start = (3 * 1440 + 15 * 60 + 59) * minute_ns;
  end = (3 * 1440 + 17 * 60 + 1) * minute_ns;
}

-- From 23:00:01 on day 3 to 01:59:59 on day 4.
abbrev night : TimeRange
night = record {
  start = (3 * 86400 + 23 * 3600 + 1) * 1_000_000_000;
  end = (4 * 86400 + 1 * 3600 + 59 * 60 + 59) * 1_000_000_000;
}

afternoon_prefixes :
    generate_prefixes afternoon 1
    ≡ some (
        minute 3 15 (record { first = 59; last = 59 })
        ∷ hour 3 16
        ∷ minute 3 17 (record { first = 0; last = 0 })
        ∷ [])
unfolding generate_prefixes
afternoon_prefixes = refl

night_prefixes : generate_prefixes night 1 ≡ some (hour 3 23 ∷ hour 4 0 ∷ hour 4 1 ∷ [])
unfolding generate_prefixes
night_prefixes = refl

generate_prefixes_covers_example : Returns (generate_prefixes afternoon 10) (λ ps.
    (t : ℕ)
    → afternoon.start ≤ t
    → t < afternoon.end
    → Held ps (date_of t) (hour_of t) (minute_of t))
generate_prefixes_covers_example =
    generate_prefixes_covers afternoon 10 (omega arith) refl (omega arith) refl
