-- ===== src/Time/Range.antt =====
-- utils/time.rs, `granularity_range`: the range of the block that holds a timestamp.
use parseable.Prelude.{ℕ, ◌+◌, ◌*◌, ◌/◌, ◌<◌, ◌≡◌, true, some, arith}
use parseable.Time.{TimeRange, minute_ns, hour_ns, minute_of, has_time, granularity_range}
use parseable.Time.Granularity.{block-le, lt-block_end}

-- The range of a timestamp holds it and is as long as the granularity.
pub granularity_range-has_time :
    (timestamp g : ℕ)
    → 0 < g
    → (r : TimeRange) × (granularity_range timestamp g ≡ some r)
      × (has_time r timestamp ≡ true)
      × (r.end ≡ r.start + g * minute_ns)
unfolding granularity_range has_time
granularity_range-has_time t g g_pos = (
  record {
    start = (t / hour_ns * 60 + minute_of t / g * g) * minute_ns;
    end = (t / hour_ns * 60 + minute_of t / g * g) * minute_ns + g * minute_ns;
  },
  ground arith,
  ground (arith, block-le g g_pos (minute_of t), lt-block_end g g_pos (minute_of t)),
  ground arith,
)
