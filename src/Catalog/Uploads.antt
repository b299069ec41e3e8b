-- ===== src/Catalog/Uploads.antt =====
-- Runs of `update_snapshot`, and the theorem on it at an input that meets its hypotheses.
use parseable.Prelude.{
  In, here, there, subst, sym, true, In, ℕ, ◌*◌, ◌≡◌, refl, Option, some, none, List, [], ◌∷◌,
  String, string_eq, ◌>>=◌,
}
use parseable.Dict.{get, insert, remove}
use parseable.Order.{ℤ, pos, negsuc}
use parseable.Catalog.Column.{int}
use parseable.Catalog.Manifest.{File, Manifest}
use parseable.Catalog.Snapshot.{ManifestItem}
use parseable.Catalog.Update.{
  manifest_path_of, Env, Catalog, update_snapshot, process_single_partition, contains,
}
use parseable.Catalog.Update.Named.{IsNamed, AreNamed}
use parseable.Catalog.Update.Kept.{
  IsListed, process_single_partition-IsListed, Kept, process_single_partition-Kept,
}

-- Milliseconds from the first instant on.
abbrev from_millis : ℤ → Option ℕ
from_millis (pos n) = some (n * 1_000_000)
from_millis (negsuc n) = none

-- The dates are not told apart: the runs are on one day.
abbrev node : String → Env
node name = record {
  stream_name = "app";
  manifest_file_name = name;
  time_partition = none;
  date_string = λ day. "2025-01-01";
  from_timestamp_millis = from_millis;
  metrics = λ day. (1, 2, 3);
}

abbrev upload : String → File ℤ
upload path = record {
  file_path = path;
  num_rows = 1;
  file_size = 1;
  ingestion_size = 1;
  columns =
      record {
        name = "p_timestamp";
        stats = some (int (record { min = pos 1000; max = pos 2000 }));
        uncompressed_size = 1;
        compressed_size = 1;
      }
      ∷ [];
  sort_order_id = [];
}

abbrev nothing : Catalog ℤ
nothing = record { manifest_list = []; store = []; first_event_at = none }

abbrev manifest_of : List (File ℤ) → Manifest ℤ
manifest_of files = record { version = "v1"; files = files }

-- The catalog that a node named `a` leaves after one upload.
abbrev after_a : Catalog ℤ
after_a = record {
  manifest_list =
      record {
        manifest_path = "app/date=2025-01-01/a.manifest.json";
        time_lower_bound = 0;
        time_upper_bound = 86_399_999_999_999;
        events_ingested = 1;
        ingestion_size = 2;
        storage_size = 3;
      }
      ∷ [];
  store = ("app/date=2025-01-01/a.manifest.json", manifest_of (upload "x" ∷ [])) ∷ [];
  first_event_at = some 1_000_000_000;
}

first_upload : update_snapshot (node "a.manifest.json") nothing (upload "x" ∷ []) ≡ some after_a
unfolding update_snapshot get insert remove
first_upload = refl

abbrev node_b : Env
node_b = node "b.manifest.json"

-- A node of another name finds the item of `a` first on each upload, so its second upload on a day
-- overwrites the manifest of its first one, and the file `y` is listed no more.
second_upload :
    (do
      c ← update_snapshot node_b after_a (upload "y" ∷ [])
      d ← update_snapshot node_b c (upload "z" ∷ [])
      get d.store "app/date=2025-01-01/b.manifest.json")
    ≡ some (manifest_of (upload "z" ∷ []))
unfolding update_snapshot contains get insert remove
second_upload = refl

-- The one item is that of this node and has the path of its bounds.
first_item : AreNamed (node "a.manifest.json") after_a.manifest_list
first_item item (here e) own = subst (IsNamed (node "a.manifest.json")) (sym e) refl
first_item item (there n) own = elim n [ ]

process_single_partition-Kept_example :
    (r : Catalog ℤ × List ManifestItem) × (process_single_partition
        (node "a.manifest.json")
        after_a
        0
        (upload "w" ∷ [])
      ≡ some r)
    × Kept (node "a.manifest.json") 0 (upload "w" ∷ []) r
process_single_partition-Kept_example =
    process_single_partition-Kept (node "a.manifest.json") after_a 0 1_000_000_000 (upload "w" ∷ [])
      refl first_item

abbrev item_a : ManifestItem
item_a = record {
  manifest_path = "app/date=2025-01-01/a.manifest.json";
  time_lower_bound = 0;
  time_upper_bound = 86_399_999_999_999;
  events_ingested = 1;
  ingestion_size = 2;
  storage_size = 3;
}

own_manifest : contains item_a.manifest_path "a.manifest.json" ≡ true
unfolding contains
own_manifest = refl

manifest_present : get after_a.store item_a.manifest_path ≡ some (manifest_of (upload "x" ∷ []))
unfolding get
manifest_present = refl

process_single_partition-IsListed_example :
    (next : Catalog ℤ) × (process_single_partition
        (node "a.manifest.json")
        after_a
        0
        (upload "w" ∷ [])
      ≡ some (next, []))
    × (manifest : Manifest ℤ) × (get next.store
          (manifest_path_of (node "a.manifest.json") 0 86_399_999_999_999)
        ≡ some manifest)
    × ((path : String) → IsListed path (upload "x" ∷ []) → IsListed path manifest.files)
    × ((file : File ℤ) → In file (upload "w" ∷ []) → IsListed file.file_path manifest.files)
process_single_partition-IsListed_example =
    process_single_partition-IsListed (node "a.manifest.json") after_a 0 0 item_a
      (manifest_of (upload "x" ∷ [])) (upload "w" ∷ []) refl own_manifest manifest_present
