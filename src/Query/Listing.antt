-- ===== src/Query/Listing.antt =====
-- query/stream_schema_provider.rs: how a query over data without manifests is split in two, and
-- which queries look at the staging area.
pub mod Split
use parseable.Prelude.{
  ℕ, ◌+◌, ◌-◌, ◌*◌, ◌/◌, ◌≤◌, ◌<◌, ◌≡◌, refl, Bool, true, false, not, ◌||◌, Option, none, some,
  List, [], ◌∷◌, leb, ltb, any, map, concat_map, ◌++◌, if◌then◌else◌,
}
use parseable.Time.{minute_ns}
use parseable.Catalog.Snapshot.{
  Bound, included, excluded, unbounded, PartialTimeFilter, low, high, eq, ManifestItem, Passes,
  PassesAll,
}

-- `Iterator::min` of the lower bounds.
abbrev smaller : ℕ → Option ℕ → ℕ
smaller a none = a
smaller a (some b) = if leb a b then a else b

unfoldable pub first_entry_lower_bound : List ManifestItem → Option ℕ
first_entry_lower_bound [] = none
first_entry_lower_bound (item ∷ items) =
    some (smaller item.time_lower_bound (first_entry_lower_bound items))

abbrev starts_before : ℕ → PartialTimeFilter → Bool
starts_before first (low (included time)) = ltb time first
starts_before first (low (excluded time)) = ltb time first
starts_before first (low unbounded) = false
starts_before first (high b) = false
starts_before first (eq time) = false

abbrev is_overlapping_from : List PartialTimeFilter → Option ℕ → Bool
is_overlapping_from filters none = true
is_overlapping_from filters (some first) = any (starts_before first) filters

unfoldable pub is_overlapping_query : List ManifestItem → List PartialTimeFilter → Bool
unfolding first_entry_lower_bound
is_overlapping_query items filters = is_overlapping_from filters (first_entry_lower_bound items)

-- What the loop pushes to `vec_listing_timestamps` for a filter.
unfoldable pub listing_filter : ℕ → PartialTimeFilter → PartialTimeFilter
listing_filter first (high (included upper)) =
    if ltb upper first then high (included upper) else high (excluded first)
listing_filter first (high (excluded upper)) =
    if ltb upper first then high (excluded upper) else high (excluded first)
listing_filter first (high unbounded) = high unbounded
listing_filter first (low b) = low b
listing_filter first (eq time) = eq time

-- What the loop pushes to `new_time_filters` for a filter.
unfoldable pub upper_filter : PartialTimeFilter → List PartialTimeFilter
upper_filter (high (included upper)) = high (included upper) ∷ []
upper_filter (high (excluded upper)) = high (excluded upper) ∷ []
upper_filter (high unbounded) = []
upper_filter (low b) = []
upper_filter (eq time) = []

-- The filters of the listing tables, `none` where there are none, and what `time_filters` becomes.
pub record Listing : Type 0 where
  pub listing : Option (List PartialTimeFilter)
  pub time_filters : List PartialTimeFilter

abbrev pub some_filters : List PartialTimeFilter → Option (List PartialTimeFilter)
some_filters [] = none
some_filters (p ∷ ps) = some (p ∷ ps)

abbrev listing_from : List PartialTimeFilter → Option ℕ → Listing
listing_from filters none = record { listing = some filters; time_filters = filters }
listing_from filters (some first) = record {
  listing = some_filters (map (listing_filter first) filters);
  time_filters = low (included first) ∷ concat_map upper_filter filters;
}

unfoldable pub return_listing_time_filters : List ManifestItem → List PartialTimeFilter → Listing
unfolding first_entry_lower_bound listing_filter upper_filter
return_listing_time_filters items filters = listing_from filters (first_entry_lower_bound items)

-- `is_within_staging_window`, at a time `now`.
abbrev pub five_minutes_back : ℕ → ℕ
five_minutes_back now = (now - 5 * minute_ns) / minute_ns * minute_ns

abbrev pub is_recent : ℕ → PartialTimeFilter → Bool
is_recent now (high (included time)) = leb (five_minutes_back now) time
is_recent now (high (excluded time)) = leb (five_minutes_back now) time
is_recent now (high unbounded) = false
is_recent now (low b) = false
is_recent now (eq time) = leb (five_minutes_back now) time

abbrev pub is_high : PartialTimeFilter → Bool
is_high (high b) = true
is_high (low b) = false
is_high (eq time) = false

unfoldable pub is_within_staging_window : ℕ → List PartialTimeFilter → Bool
is_within_staging_window now filters =
    if any (is_recent now) filters then true else not (any is_high filters)
