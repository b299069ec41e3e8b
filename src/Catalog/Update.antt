-- ===== src/Catalog/Update.antt =====
-- catalog/mod.rs, `update_snapshot`: the files of an upload are put into the manifests of their
-- days, for one stream on one node, where the calls of the metastore succeed. The object path of a
-- manifest is also its url, as in the S3, GCS and Azure stores. `none` is a panic.
pub mod Named
pub mod Kept
use Prim.Native.String.{[] as nil, ◌∷◌ as ◌∷ˢ◌, ◌++◌ as ◌+++◌}
use Prim.Native.Char.{Char, code}
use parseable.Prelude.{
  ℕ, zero, suc, ◌+◌, ◌-◌, ◌*◌, ◌/◌, ◌≡◌, ◌↔◌, refl, Bool, true, false, ◌&&◌, ◌||◌, Option, none,
  some, List, [], ◌∷◌, ◌++◌, String, eqb, leb, ltb, if◌then◌else◌, Eq, ◌==◌, string_eq, ◌>>=◌,
  arith,
}
use parseable.Dict.{Dict, get, insert}
use parseable.Order.{ℤ}
use parseable.Time.{day_ns, date_of}
use parseable.Catalog.Column.{TypedStatistics, int, bool, float, string, Bounds, Column}
use parseable.Catalog.Manifest.{File, Manifest, apply_change}
use parseable.Catalog.Snapshot.{ManifestItem}

-- The node, the stream, chrono's conversions, and the live metrics of a day.
pub record Env : Type 0 where
  pub stream_name : String
  pub manifest_file_name : String
  pub time_partition : Option String
  pub date_string : ℕ → String
  pub from_timestamp_millis : ℤ → Option ℕ
  pub metrics : ℕ → ℕ × ℕ × ℕ

-- `(DateTime, DateTime)` as a key.
pub data PartitionBounds : Type 0 where
  day_bounds : (lower upper : ℕ) → PartitionBounds

abbrev bounds_eqb : PartitionBounds → PartitionBounds → Bool
bounds_eqb (day_bounds l u) (day_bounds m v) = eqb l m && eqb u v

pub bounds_eqb_iff : (a b : PartitionBounds) → (bounds_eqb a b ≡ true) ↔ (a ≡ b)
bounds_eqb_iff (day_bounds l u) (day_bounds m v) = ground arith

instance abbrev pub bounds_eq : Eq PartitionBounds
bounds_eq = record { test = bounds_eqb; test_iff = bounds_eqb_iff }

abbrev lower_of : PartitionBounds → ℕ
lower_of (day_bounds lower upper) = lower

unfoldable pub create_partition_bounds : ℕ → PartitionBounds
create_partition_bounds lower_bound =
    day_bounds (date_of lower_bound * day_ns) (date_of lower_bound * day_ns + (day_ns - 1))

-- `str::contains`
abbrev pub starts_with : String → String → Bool
starts_with s nil = true
starts_with nil (d ∷ˢ t) = false
starts_with (c ∷ˢ s) (d ∷ˢ t) = let rest = starts_with s t in eqb (code c) (code d) && rest

unfoldable pub contains : String → String → Bool
contains nil t = starts_with nil t
contains (c ∷ˢ s) t = starts_with (c ∷ˢ s) t || contains s t

module _ (F : Type 0) where
  -- The snapshot's list, the manifests in the store, and the first event of the stream.
  pub record Catalog : Type 0 where
    pub manifest_list : List ManifestItem
    pub store : Dict String (Manifest F)
    pub first_event_at : Option ℕ

abbrev pub column_name : Option String → String
column_name none = "p_timestamp"
column_name (some time_partition) = time_partition

-- `partition_path` joined with the file name.
abbrev pub manifest_path_of : Env → ℕ → ℕ → String
manifest_path_of env lower upper =
    if eqb (date_of lower) (date_of upper)
    then env.stream_name +++ "/date=" +++ env.date_string lower +++ "/" +++ env.manifest_file_name
    else env.stream_name
      +++ "/date="
      +++ env.date_string lower
      +++ ":"
      +++ env.date_string upper
      +++ "/"
      +++ env.manifest_file_name

abbrev pub new_item : Env → ℕ → ManifestItem
new_item env lower = record {
  manifest_path = manifest_path_of env lower (lower + (day_ns - 1));
  time_lower_bound = lower;
  time_upper_bound = lower + (day_ns - 1);
  events_ingested = (env.metrics lower).0;
  ingestion_size = (env.metrics lower).1;
  storage_size = (env.metrics lower).2;
}

-- The first item whose bounds hold the lower bound of a partition, and where it stands.
abbrev pub position : ℕ → ℕ → List ManifestItem → Option (ℕ × ManifestItem)
position lower n [] = none
position lower n (item ∷ items) =
    let rest = position lower (n + 1) items in
    if leb item.time_lower_bound lower && ltb lower item.time_upper_bound
    then some (n, item)
    else rest

abbrev pub replace_at : ℕ → ManifestItem → List ManifestItem → List ManifestItem
replace_at n item [] = []
replace_at zero item (i ∷ items) = item ∷ items
replace_at (suc n) item (i ∷ items) = i ∷ replace_at n item items

abbrev pub with_metrics : ℕ × ℕ × ℕ → ManifestItem → ManifestItem
with_metrics (events_ingested, ingestion_size, storage_size) item = record item {
  events_ingested = events_ingested;
  ingestion_size = ingestion_size;
  storage_size = storage_size;
}

module _ {F : Type 0} where
  abbrev find_column : String → List (Column F) → Option (Column F)
  find_column name [] = none
  find_column name (col ∷ cols) = if col.name == name then some col else find_column name cols

  abbrev int_bounds : TypedStatistics F → Option (Bounds ℤ)
  int_bounds (int stats) = some stats
  int_bounds _ = none

  -- The lower of the two bounds, the only one that is used; both are converted.
  unfoldable pub get_file_bounds : Env → File F → String → Option ℕ
  get_file_bounds env file partition_column = do
    col ← find_column partition_column file.columns
    stats ← col.stats
    bounds ← int_bounds stats
    lower ← env.from_timestamp_millis bounds.min
    upper ← env.from_timestamp_millis bounds.max
    some lower

  unfoldable pub calculate_time_bound : Env → File F → Option String → Option ℕ
  unfolding get_file_bounds
  calculate_time_bound env change time_partition =
      get_file_bounds env change (column_name time_partition)

  abbrev or_default : Option (List (File F)) → List (File F)
  or_default none = []
  or_default (some files) = files

  -- Rayon's folds and their reduction keep the order of the changes in a group.
  unfoldable pub group_changes_by_partition :
      Env
      → Dict PartitionBounds (List (File F))
      → List (File F)
      → Option (Dict PartitionBounds (List (File F)))
  unfolding calculate_time_bound create_partition_bounds
  group_changes_by_partition env groups [] = some groups
  group_changes_by_partition env groups (change ∷ changes) = do
    lower ← calculate_time_bound env change env.time_partition
    group_changes_by_partition env
        (insert groups (create_partition_bounds lower)
          (or_default (get groups (create_partition_bounds lower)) ++ change ∷ []))
        changes

  -- The first event, if it is not known: the lower bound of the first file.
  abbrev first_event : Env → Option String → Option ℕ → List (File F) → Option (Option ℕ)
  first_event env time_partition (some t) changes = some (some t)
  first_event env time_partition none [] = some none
  first_event env time_partition none (change ∷ changes) = do
    lower ← calculate_time_bound env change time_partition
    some (some lower)

  -- With `update_snapshot` false, as all calls have it.
  unfoldable pub create_manifest :
      Env → Option String → Catalog F → ℕ → List (File F) → Option (Catalog F × List ManifestItem)
  unfolding calculate_time_bound
  create_manifest env time_partition c lower_bound changes = do
    let lower = date_of lower_bound * day_ns
    first ← first_event env time_partition c.first_event_at changes
    some (
      record c {
        store =
            insert c.store (manifest_path_of env lower (lower + (day_ns - 1)))
              (record { version = "v1"; files = changes });
        first_event_at = first;
      },
      new_item env lower ∷ [],
    )

  abbrev pub apply_changes : Manifest F → List (File F) → Manifest F
  apply_changes manifest [] = manifest
  apply_changes manifest (change ∷ changes) = apply_changes (apply_change manifest change) changes

  -- An item whose manifest is this node's and is found: the manifest takes the changes.
  abbrev pub update_manifest :
      Env
      → Catalog F
      → ℕ
      → ManifestItem
      → List (File F)
      → ℕ
      → Option (Manifest F)
      → Option (Catalog F × List ManifestItem)
  update_manifest env c pos item changes lower none =
      create_manifest env env.time_partition c lower changes
  update_manifest env c pos item changes lower (some manifest) = some (
    record c {
      manifest_list = replace_at pos (with_metrics (env.metrics lower) item) c.manifest_list;
      store =
          insert c.store (manifest_path_of env item.time_lower_bound item.time_upper_bound)
            (apply_changes manifest changes);
    },
    [],
  )

  unfoldable pub handle_existing_partition :
      Env
      → Catalog F
      → ℕ
      → ManifestItem
      → ℕ
      → List (File F)
      → Option (Catalog F × List ManifestItem)
  unfolding contains create_manifest apply_change
  handle_existing_partition env c pos item lower changes =
      if contains item.manifest_path env.manifest_file_name
      then update_manifest env c pos item changes lower (get c.store item.manifest_path)
      else create_manifest env none c lower changes

  abbrev pub handle_position :
      Env
      → Catalog F
      → ℕ
      → List (File F)
      → Option (ℕ × ManifestItem)
      → Option (Catalog F × List ManifestItem)
  handle_position env c lower changes none = create_manifest env env.time_partition c lower changes
  handle_position env c lower changes (some (pos, item)) =
      handle_existing_partition env c pos item lower changes

  unfoldable pub process_single_partition :
      Env → Catalog F → ℕ → List (File F) → Option (Catalog F × List ManifestItem)
  unfolding handle_existing_partition
  process_single_partition env c lower changes =
      handle_position env c lower changes (position lower 0 c.manifest_list)

  unfoldable pub process_partition_groups :
      Env
      → Catalog F
      → Dict PartitionBounds (List (File F))
      → Option (Catalog F × List ManifestItem)
  unfolding process_single_partition
  process_partition_groups env c [] = some (c, [])
  process_partition_groups env c ((key, changes) ∷ groups) = do
    one ← process_single_partition env c (lower_of key) changes
    rest ← process_partition_groups env one.0 groups
    some (rest.0, one.1 ++ rest.1)

  unfoldable pub update_snapshot : Env → Catalog F → List (File F) → Option (Catalog F)
  unfolding group_changes_by_partition process_partition_groups
  update_snapshot env c [] = some c
  update_snapshot env c (change ∷ changes) = do
    groups ← group_changes_by_partition env [] (change ∷ changes)
    processed ← process_partition_groups env c groups
    some (record processed.0 { manifest_list = processed.0.manifest_list ++ processed.1 })
