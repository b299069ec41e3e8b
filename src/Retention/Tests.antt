-- ===== src/Retention/Tests.antt =====
-- Runs of retention, and the theorems at inputs that meet their hypotheses.
use parseable.Prelude.{
  string_eq, ℕ, ◌+◌, ◌-◌, ◌*◌, ◌≤◌, ◌≡◌, refl, true, false, Option, none, some, [], ◌∷◌, String, In,
}
use parseable.Order.{ℤ, pos, negsuc}
use parseable.Results.{ok, err}
use parseable.Decimal.{print, parse_unsigned}
use parseable.Validator.{chars}
use parseable.Catalog.Snapshot.{ManifestItem}
use parseable.Catalog.Update.{contains, starts_with}
use parseable.Retention.{
  delete, Retention, TaskView, two_tasks, not_a_number, missing_suffix, try_from, from, Stream,
  Storage, string_to_date, delete_task,
}
use parseable.Retention.RoundTrip.{try_from-from}
use parseable.Retention.Dates.{IsBefore}
use parseable.Retention.Deletion.{delete_task_lem}

retention : Unit {0}
unfolding try_from from print delete_task contains parse_unsigned
retention = tt

abbrev view : String → TaskView
view duration = record { description = "old"; action = delete; duration = chars duration }

abbrev thirty : Retention
thirty = record { tasks = record { description = "old"; action = delete; days = 30 } ∷ [] }

-- A sign and zeros are read, and not written.
reads_days : try_from (view "+030d" ∷ []) ≡ ok thirty
unfolding retention
reads_days = refl

writes_days : from thirty ≡ view "30d" ∷ []
unfolding retention
writes_days = refl

refusals :
    (try_from (view "30" ∷ []) ≡ err missing_suffix)
    × (try_from (view "0d" ∷ []) ≡ err not_a_number)
    × (try_from (view "4294967296d" ∷ []) ≡ err not_a_number)
    × (try_from (view "1d" ∷ view "2d" ∷ []) ≡ err (two_tasks delete))
unfolding retention
refusals = (refl, refl, refl, refl)

try_from-from_example : try_from (from thirty) ≡ ok thirty
try_from-from_example = try_from-from (view "+030d" ∷ []) thirty reads_days

-- Months of thirty days, as a stand-in for the calendar.
abbrev calendar : ℤ → ℕ → ℕ → Option ℕ
calendar (pos year) month day = some (year * 360 + month * 30 + day)
calendar (negsuc year) month day = none

abbrev item : String → ManifestItem
item path = record {
  manifest_path = path;
  time_lower_bound = 0;
  time_upper_bound = 1;
  events_ingested = 1;
  ingestion_size = 1;
  storage_size = 1;
}

abbrev stream : Stream
stream = record {
  manifest_list =
      item "web/date=2024-05-01/manifest.json" ∷ item "web/date=2024-05-03/manifest.json" ∷ [];
  first_event_at = some 5;
  prefixes = "date=2024-05-01" ∷ "date=2024-05-03" ∷ ".stream" ∷ [];
}

abbrev fine : Storage
fine = record { lists = true; updates_snapshot = true; deletes = λ p. true }

abbrev after : Stream
after = record {
  manifest_list = item "web/date=2024-05-03/manifest.json" ∷ [];
  first_event_at = none;
  prefixes = "date=2024-05-03" ∷ ".stream" ∷ [];
}

-- On May 4 with two days: the data of May 1 goes.
deletes_old : delete_task calendar fine 728_794 2 stream ≡ some after
unfolding retention
deletes_old = refl

delete_task_lem_example :
    ((p : String) (d : ℕ)
      → In p stream.prefixes
      → string_to_date calendar p ≡ some d
      → 728_794 ≤ d + 2
      → In p after.prefixes)
    × ((i : ManifestItem)
        → In i stream.manifest_list
        → ((p : String)
            → In p stream.prefixes
            → IsBefore calendar (728_794 - 2) p
            → contains i.manifest_path p ≡ false)
        → In i after.manifest_list)
    × (fine.lists ≡ true
        → fine.updates_snapshot ≡ true
        → ((p : String) → fine.deletes p ≡ true)
        → (p : String) → In p stream.prefixes
        → starts_with p "date" ≡ true
        → IsBefore calendar (728_794 - 2) p
        → (In p after.prefixes → ⊥)
          × ((i : ManifestItem) → contains i.manifest_path p ≡ true → In i after.manifest_list → ⊥))
delete_task_lem_example = delete_task_lem calendar fine 728_794 2 stream after deletes_old
