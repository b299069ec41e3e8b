-- ===== src/Query/Counts/Tests.antt =====
-- Runs of the bins of a count query, and the theorems at inputs that meet their hypotheses.
use parseable.Prelude.{
  ◌^◌, string_eq, ℕ, ◌+◌, ◌*◌, ◌%◌, ◌≤◌, ◌<◌, ◌≡◌, refl, Option, none, some, List, [], ◌∷◌, length,
  arith, ltb, if◌then◌else◌, concat_map, get_elem?,
}
use parseable.Order.{pos}
use parseable.Time.{TimeRange, minute_ns}
use parseable.Catalog.Column.{int}
use parseable.Catalog.Manifest.{File, Manifest}
use parseable.Query.Counts.{TimeBounds, total_minutes, get_bounds, get_bin_density}
use parseable.Query.Counts.Bins.{Chain, get_bounds-Chain}
use parseable.Query.Counts.Complete.{all_rows, rows_between, sum_counts, get_bin_density_complete}

abbrev minutes : ℕ → TimeRange
minutes n = record { start = 0; end = n * minute_ns }

abbrev bin : ℕ → ℕ → TimeBounds
bin a b = record { start = a * minute_ns; end = b * minute_ns }

-- Three bins of five minutes are four.
one_more_bin : get_bounds (some 3) (minutes 5) ≡ some (bin 0 1 ∷ bin 1 2 ∷ bin 2 3 ∷ bin 3 5 ∷ [])
unfolding get_bounds
one_more_bin = refl

abbrev or_none : Option (List TimeBounds) → List TimeBounds
or_none none = []
or_none (some l) = l

-- Above five hours a bin is to have five minutes. For 301 minutes there are 61 bins of four minutes
-- and one of 57.
long_last_bin :
    (length (or_none (get_bounds none (minutes 301))) ≡ 62)
    × (get_elem? (or_none (get_bounds none (minutes 301))) 60 ≡ some (bin 240 244))
    × (get_elem? (or_none (get_bounds none (minutes 301))) 61 ≡ some (bin 244 301))
unfolding get_bounds
long_last_bin = (refl, refl, refl)

-- Ranges of less than a minute panic, where no number of bins is given.
no_minutes : get_bounds none (minutes 0) ≡ none
unfolding get_bounds
no_minutes = refl

abbrev file : File ℕ
file = record {
  file_path = "f";
  num_rows = 7;
  file_size = 1;
  ingestion_size = 1;
  columns =
      record {
        name = "p_timestamp";
        stats = some (int (record { min = pos 60_000; max = pos 60_000 }));
        uncompressed_size = 1;
        compressed_size = 1;
      }
      ∷ [];
  sort_order_id = [];
}

abbrev manifests : List (Manifest ℕ)
manifests = record { version = "v1"; files = file ∷ [] } ∷ []

-- A file whose first time is the end of one bin and the start of the next is counted in both.
counted_twice :
    get_bin_density "p_timestamp" (some 2) (minutes 2) manifests
    ≡ some ((bin 0 1, 7) ∷ (bin 1 2, 7) ∷ [])
unfolding get_bin_density
counted_twice = refl

get_bounds-Chain_example :
    (l : List TimeBounds) × (e : ℕ) × (get_bounds (some 3) (minutes 5) ≡ some l)
    × Chain 0 l e
    × (e ≤ 5 * minute_ns)
    × (5 * minute_ns < e + minute_ns)
    × (length l ≡ (if ltb 0 (total_minutes (minutes 5) % 3) then 4 else 3))
get_bounds-Chain_example = get_bounds-Chain (some 3) (minutes 5) (omega arith) (omega arith)

all_rows_small : all_rows (concat_map (λ m. m.files) manifests) < 2 ^ 64
unfolding all_rows
all_rows_small = omega arith

get_bin_density_complete_example :
    (counts : List (TimeBounds × ℕ)) × (e : ℕ) × (get_bin_density "p_timestamp"
        (some 2)
        (minutes 2)
        manifests
      ≡ some counts)
    × (2 * minute_ns < e + minute_ns)
    × (rows_between "p_timestamp" 0 e (concat_map (λ m. m.files) manifests) ≤ sum_counts counts)
get_bin_density_complete_example =
    get_bin_density_complete "p_timestamp" (some 2) (minutes 2) manifests (omega arith)
      (omega arith) all_rows_small
