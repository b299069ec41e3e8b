-- ===== src/Query/Tests.antt =====
-- Runs of the filters, and the theorems on them at inputs that meet their hypotheses.
use parseable.Prelude.{
  ℕ, ◌+◌, ◌^◌, ◌*◌, ◌≤◌, ◌<◌, ◌≡◌, ◌↔◌, refl, sym, subst, true, false, String, some, none, List, [],
  ◌∷◌, here, there, ◌==◌, string_eq, if◌then◌else◌, Bool-cases, inl, inr,
}
use parseable.Time.{minute_ns}
use parseable.Order.{ℤ, pos, ordered_int}
use parseable.Catalog.Snapshot.{
  ManifestItem, PartialTimeFilter, low, high, included, excluded, PassesAll,
}
use parseable.Catalog.Column.{int, int_value, Column, Encloses}
use parseable.Query.Listing.{
  return_listing_time_filters, is_overlapping_query, first_entry_lower_bound,
}
use parseable.Query.Listing.Split.{return_listing_time_filters_splits}
use parseable.Query.Pruning.{Expr, column, literal, binary, int64, uint64, can_be_pruned, lt, gt_eq}
use parseable.Query.Pruning.Soundness.{can_be_pruned_sound, Row, Describes, Accepts}

abbrev item : ℕ → ℕ → ManifestItem
item l u = record {
  manifest_path = "date=2025-01-01/manifest.json";
  time_lower_bound = l;
  time_upper_bound = u;
  events_ingested = 1;
  ingestion_size = 1;
  storage_size = 1;
}

abbrev items : List ManifestItem
items = item 20 29 ∷ item 10 19 ∷ []

-- From 5 on to before 25.
abbrev filters : List PartialTimeFilter
filters = low (included 5) ∷ high (excluded 25) ∷ []

filters_overlap : is_overlapping_query items filters ≡ true
unfolding is_overlapping_query
filters_overlap = refl

filters_listing :
    (return_listing_time_filters items filters).listing
    ≡ some (low (included 5) ∷ high (excluded 10) ∷ [])
unfolding return_listing_time_filters
filters_listing = refl

first_item : first_entry_lower_bound items ≡ some 10
unfolding first_entry_lower_bound
first_item = refl

return_listing_time_filters_splits_example :
    (listing : List PartialTimeFilter) × ((return_listing_time_filters items filters).listing
      ≡ some listing)
    × ((t : ℕ)
        → (PassesAll t listing ↔ PassesAll t filters × (t < 10))
          × (PassesAll t filters
              → 10 ≤ t
              → PassesAll t (return_listing_time_filters items filters).time_filters)
          × (PassesAll t (return_listing_time_filters items filters).time_filters → 10 ≤ t))
return_listing_time_filters_splits_example =
    return_listing_time_filters_splits items filters 10 (excluded 25) first_item tt
      (there (here refl))

abbrev recent : List PartialTimeFilter
recent = low (included (100 * minute_ns)) ∷ high (included (200 * minute_ns)) ∷ []

abbrev same : ℤ → ℤ
same x = x

abbrev status_name : String
status_name = "status"

abbrev status : Column ℤ
status = record {
  name = status_name;
  stats = some (int (record { min = pos 200; max = pos 404 }));
  uncompressed_size = 10;
  compressed_size = 5;
}

abbrev columns : List (Column ℤ)
columns = status ∷ []

-- `status >= 500` and `status < 300`.
abbrev server_error : Expr ℤ ℤ
server_error = binary (column status_name) gt_eq (literal (int64 (some (pos 500))) false)

abbrev success : Expr ℤ ℤ
success = binary (column status_name) lt (literal (int64 (some (pos 300))) false)

server_error_pruned : can_be_pruned same columns server_error ≡ true
unfolding can_be_pruned
server_error_pruned = refl

abbrev row : Row same
row name = if status_name == name then some (int_value (pos 204)) else none

from_some {ℓ} : {A : Type ℓ} {a b : A} → some a ≡ some b → a ≡ b
from_some e = cc

row_described : Describes same columns row
row_described name col stats x found has value = elim (Bool-cases (status_name == name)) [
  | inl e ↦
      let is_status : some status ≡ some col =
        subst (λ b. (if b then some status else none) ≡ some col) e found in
      let is_value : some (int_value (pos 204)) ≡ some x =
        subst (λ b. (if b then some (int_value (pos 204)) else none) ≡ some x) e value in
      let has_stats : status.stats ≡ some stats =
        subst (λ c. c.stats ≡ some stats) (sym (from_some is_status)) has in
      subst (Encloses stats) (from_some is_value)
        (subst (λ s. Encloses s (int_value (pos 204))) (from_some has_stats) (refl, refl))
  | inr e ↦
      let no_value : none ≡ some x =
        subst (λ b. (if b then some (int_value (pos 204)) else none) ≡ some x) e value in
      absurd cc
]

can_be_pruned_sound_example : can_be_pruned same columns success ≡ false
can_be_pruned_sound_example =
    can_be_pruned_sound same columns row success row_described tt
      (int_value (pos 204), refl, int_value (pos 300), refl, refl)

-- `status < 2 ^ 63 + 5`, a `u64` that `as i64` makes negative: the file is ruled out, although the
-- row is accepted.
abbrev huge : Expr ℤ ℤ
huge = binary (column status_name) lt (literal (uint64 (some (2 ^ 63 + 5))) false)

huge_pruned : (can_be_pruned same columns huge ≡ true) × Accepts same huge row
unfolding can_be_pruned
huge_pruned = (refl, (int_value (pos 204), refl, int_value (pos (2 ^ 63 + 5)), refl, refl))
