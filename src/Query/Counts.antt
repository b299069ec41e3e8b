-- ===== src/Query/Counts.antt =====
-- query/mod.rs, `CountsRequest`: the bins of a count query and the rows that fall in each. A
-- `DateTime<Utc>` is a number of nanoseconds as in Time. That chrono panics on a duration or a time
-- out of its range is left out.
pub mod Bins
pub mod Complete
mod Tests
use parseable.Prelude.{
  string_eq, ℕ, zero, suc, ◌+◌, ◌-◌, ◌*◌, ◌/◌, ◌%◌, ◌^◌, Bool, true, false, ◌&&◌, Option, none,
  some, List, [], ◌∷◌, ◌++◌, ◌==◌, String, if◌then◌else◌, any, leb, ltb, concat_map,
}
use parseable.Order.{ℤ, pos, negsuc}
use parseable.Time.{TimeRange, minute_ns}
use parseable.Catalog.Column.{Column, TypedStatistics, bool, int, float, string}
use parseable.Catalog.Manifest.{File, Manifest}

pub record TimeBounds : Type 0 where
  pub start : ℕ
  pub end : ℕ

-- `num_minutes() as u64` of a signed duration: a negative one wraps around.
unfoldable pub total_minutes : TimeRange → ℕ
total_minutes r =
    if leb r.start r.end
    then (r.end - r.start) / minute_ns
    else (2 ^ 64 - (r.start - r.end) / minute_ns) % 2 ^ 64

abbrev pub div_ceil : ℕ → ℕ → ℕ
div_ceil a b = (a + (b - 1)) / b

unfoldable pub default_bins : ℕ → ℕ
default_bins minutes =
    if leb minutes 300
    then minutes
    else if leb minutes 1440
    then div_ceil minutes 5
    else if leb minutes 14400
    then div_ceil minutes 60
    else div_ceil minutes 1440

abbrev pub or_default_bins : Option ℕ → ℕ → ℕ
or_default_bins none minutes = default_bins minutes
or_default_bins (some n) minutes = n

-- The loop over all bins but the last, and the last one.
unfoldable pub bins : ℕ → ℕ → ℕ → ℕ → List TimeBounds
bins zero start quotient last = record { start = start; end = start + last * minute_ns } ∷ []
bins (suc rounds) start quotient last =
    record { start = start; end = start + quotient * minute_ns }
    ∷ bins rounds (start + quotient * minute_ns) quotient last

-- The panic of a division by zero is `none`.
unfoldable pub bounds_of : ℕ → ℕ → ℕ → Option (List TimeBounds)
unfolding bins
bounds_of start minutes zero = none
bounds_of start minutes (suc n) =
    let quotient = minutes / suc n in
    let remainder = minutes % suc n in
    some (
      if ltb 0 remainder
      then bins (suc n) start quotient remainder
      else bins n start quotient quotient)

unfoldable pub get_bounds : Option ℕ → TimeRange → Option (List TimeBounds)
unfolding bounds_of total_minutes default_bins
get_bounds num_bins r =
    bounds_of r.start (total_minutes r) (or_default_bins num_bins (total_minutes r))

-- `DateTime::from_timestamp_millis`, for a time that is not negative.
abbrev pub millis : ℕ → ℕ
millis n = n * 1_000_000

abbrev pub in_bin : TimeBounds → ℕ → Bool
in_bin bin min = leb bin.start min && leb min bin.end

-- A time before 1970 lies before every bin, whose start is a number.
abbrev pub min_in : TimeBounds → ℤ → Bool
min_in bin (pos n) = in_bin bin (millis n)
min_in bin (negsuc n) = false

module _ {F : Type 0} where
  abbrev pub starts_in : TimeBounds → Option (TypedStatistics F) → Bool
  starts_in bin (some (int b)) = min_in bin b.min
  starts_in bin _ = false

  -- Whether the rows of a file are counted in a bin.
  unfoldable pub counted : String → TimeBounds → File F → Bool
  counted time_partition bin file =
      any (λ c. c.name == time_partition && starts_in bin c.stats) file.columns

  -- The sum of a `u64`, which wraps around as in a release build.
  unfoldable pub count_rows : String → TimeBounds → List (File F) → ℕ
  unfolding counted
  count_rows time_partition bin [] = 0
  count_rows time_partition bin (file ∷ files) =
      let rest = count_rows time_partition bin files in
      if counted time_partition bin file then (file.num_rows + rest) % 2 ^ 64 else rest

  -- `get_bin_density`, given the manifests of the range: the bins with their counts.
  unfoldable pub bin_counts : String → List (File F) → List TimeBounds → List (TimeBounds × ℕ)
  unfolding count_rows
  bin_counts time_partition files [] = []
  bin_counts time_partition files (bin ∷ rest) =
      (bin, count_rows time_partition bin files) ∷ bin_counts time_partition files rest

  unfoldable pub get_bin_density :
      String → Option ℕ → TimeRange → List (Manifest F) → Option (List (TimeBounds × ℕ))
  unfolding get_bounds bin_counts
  get_bin_density time_partition num_bins r manifests = elim (get_bounds num_bins r) [
    | none ↦ none
    | some bounds ↦ some (bin_counts time_partition (concat_map (λ m. m.files) manifests) bounds)
  ]
