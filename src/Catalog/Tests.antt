-- ===== src/Catalog/Tests.antt =====
-- Runs of the catalog, and its theorems at inputs that meet their hypotheses.
use parseable.Prelude.{
  ℕ, ◌≡◌, refl, subst, sym, ap, ◌∙◌, String, Option, some, none, List, [], ◌∷◌, In, here, there,
  ◌==◌, string_eq, if◌then◌else◌, concat_map,
}
use parseable.Dict.{Dict, get}
use parseable.Order.{ℤ, pos, negsuc, ordered_int}
use parseable.Catalog.Snapshot.{Snapshot, ManifestItem, manifests, low, high, included, excluded}
use parseable.Catalog.Column.{TypedStatistics, int, Bounds, Value, Encloses, kind, Column}
use parseable.Catalog.Manifest.{
  File, Manifest, apply_change, lookup, IsUnique, empty, cons, apply_change_lem,
}
use parseable.Catalog.Statistics.{Chunk, column_statistics, IsTyped}
use parseable.Catalog.Statistics.Enclosure.{column_statistics-Encloses}

-- A manifest of the instants from `l` to `u`.
abbrev item : ℕ → ℕ → ManifestItem
item l u = record {
  manifest_path = "date=2025-01-01/manifest.json";
  time_lower_bound = l;
  time_upper_bound = u;
  events_ingested = 1;
  ingestion_size = 1;
  storage_size = 1;
}

abbrev week : Snapshot
week = record { version = "v2"; manifest_list = item 10 19 ∷ item 20 29 ∷ item 30 39 ∷ [] }

week-manifests : manifests week (low (included 20) ∷ high (excluded 30) ∷ []) ≡ item 20 29 ∷ []
unfolding manifests
week-manifests = refl

abbrev file : String → ℕ → File ℤ
file path rows = record {
  file_path = path;
  num_rows = rows;
  file_size = 1;
  ingestion_size = 1;
  columns = [];
  sort_order_id = [];
}

abbrev two_files : Manifest ℤ
two_files = record { version = "v1"; files = file "a.parquet" 1 ∷ file "b.parquet" 2 ∷ [] }

apply_change_run :
    (apply_change two_files (file "a.parquet" 7)).files
    ≡ file "a.parquet" 7 ∷ file "b.parquet" 2 ∷ []
unfolding apply_change
apply_change_run = refl

two_files-IsUnique : IsUnique two_files.files
two_files-IsUnique = cons _ _ refl (cons _ _ refl empty)

apply_change_lem_example :
    ((path : String)
      → lookup path (apply_change two_files (file "c.parquet" 3)).files
        ≡ (if "c.parquet" == path then some (file "c.parquet" 3) else lookup path two_files.files))
    × (IsUnique two_files.files → IsUnique (apply_change two_files (file "c.parquet" 3)).files)
apply_change_lem_example = apply_change_lem two_files (file "c.parquet" 3)

abbrev ints : ℤ → ℤ → TypedStatistics ℤ
ints a b = int (record { min = a; max = b })

abbrev chunk : String → Option (TypedStatistics ℤ) → Chunk ℤ
chunk path stats = record { path = path; statistics = stats; compressed = 1; uncompressed = 2 }

-- Two row groups with the columns `status` and `host`.
abbrev groups : List (List (Chunk ℤ))
groups =
    (chunk "status" (some (ints (pos 200) (pos 404))) ∷ chunk "host" none ∷ [])
    ∷ (chunk "status" (some (ints (negsuc 0) (pos 204))) ∷ chunk "host" none ∷ [])
    ∷ []

abbrev all_ints : String → ℕ
all_ints path = 1

groups-IsTyped : (c : Chunk ℤ) → In c (concat_map (λ g. g) groups) → IsTyped all_ints c
groups-IsTyped c m t e = elim m [
  | here eq ↦ typed_int c _ _ eq t e
  | there (here eq) ↦ typed_none c _ eq t e
  | there (there (here eq)) ↦ typed_int c _ _ eq t e
  | there (there (there (here eq))) ↦ typed_none c _ eq t e
  | there (there (there (there n))) ↦ elim n [ ]
]
  where
    typed_int :
        (c : Chunk ℤ) (path : String) (b : Bounds ℤ)
        → c ≡ chunk path (some (int b))
        → IsTyped all_ints c
    typed_int c path b eq t e =
        let same : some (TypedStatistics.int b) ≡ some t = sym (ap (λ d. d.statistics) eq) ∙ e in
        let has : TypedStatistics.int b ≡ t = cc in subst (λ u. kind u ≡ 1) has refl

    typed_none : (c : Chunk ℤ) (path : String) → c ≡ chunk path none → IsTyped all_ints c
    typed_none c path eq t e =
        let impossible : none ≡ some t = sym (ap (λ d. d.statistics) eq) ∙ e in absurd cc

column_statistics-Encloses_example :
    (columns : Dict String (Column ℤ)) × (column_statistics groups ≡ some columns)
    × ((c : Chunk ℤ)
        → In c (concat_map (λ g. g) groups)
        → (column : Column ℤ) × (get columns c.path ≡ some column)
          × ((s t : TypedStatistics ℤ) (x : Value ℤ)
              → column.stats ≡ some s
              → c.statistics ≡ some t
              → Encloses t x
              → Encloses s x))
column_statistics-Encloses_example = column_statistics-Encloses all_ints groups groups-IsTyped
