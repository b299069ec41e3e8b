-- ===== src/Json/Body.antt =====
-- utils/json/mod.rs: how the body of a request is flattened, with and without partitions.
use parseable.Prelude.{
  ℕ, Bool, true, false, not, ◌&&◌, ◌||◌, Option, none, some, List, [], ◌∷◌, ◌++◌, String,
  if◌then◌else◌,
}
use parseable.Json.{Json, array, Jsons, empty, item}
use parseable.Json.Generic.{generic_flattening, convert_to_array, has_more_than_max_allowed_levels}
use parseable.Json.Validation.{Settings, Result, ok, err, expected_object_in_array, flatten}

pub data SchemaVersion : Type 0 where
  v0 v1 : SchemaVersion

pub data LogSource : Type 0 where
  kinesis otel_logs otel_metrics otel_traces pmeta json : LogSource
  custom : String → LogSource

-- The stream's schema version, the source of the event, and `P_MAX_FLATTEN_LEVEL`.
pub record Source : Type 0 where
  pub schema_version : SchemaVersion
  pub log_source : LogSource
  pub event_flatten_level : ℕ

abbrev pub is_v1 : SchemaVersion → Bool
is_v1 v0 = false
is_v1 v1 = true

-- `matches!(log_source, LogSource::Json | LogSource::Custom(_))`
abbrev pub is_json_or_custom : LogSource → Bool
is_json_or_custom json = true
is_json_or_custom (custom name) = true
is_json_or_custom _ = false

unfoldable pub should_apply_generic_flattening : Source → Json → Bool
should_apply_generic_flattening c value =
    is_v1 c.schema_version
    && not (has_more_than_max_allowed_levels c.event_flatten_level value 1)
    && is_json_or_custom c.log_source

abbrev pub converted : Option Json → Result Json
converted none = err expected_object_in_array
converted (some v) = ok v

-- `flatten` on a value, unless it is an error.
abbrev pub flatten_ok : Settings → Option ℕ → Result Json → Option ℕ × Result Json
flatten_ok s reference (err e) = (reference, err e)
flatten_ok s reference (ok v) = flatten s reference v

unfoldable pub flatten_json_body : Settings → Source → Option ℕ → Json → Option ℕ × Result Json
unfolding should_apply_generic_flattening generic_flattening convert_to_array flatten
flatten_json_body s c reference body = flatten_ok s reference (
    if should_apply_generic_flattening c body
    then converted (convert_to_array (generic_flattening body))
    else ok body)

-- A result, then those of the rest of a loop.
abbrev pub collect :
    Option ℕ × Result (List Json)
    → (Option ℕ → Option ℕ × Result (List Json))
    → Option ℕ × Result (List Json)
collect (reference, err e) rest = (reference, err e)
collect (reference, ok vs) rest = prepend vs (rest reference)
  where
    prepend : List Json → Option ℕ × Result (List Json) → Option ℕ × Result (List Json)
    prepend vs (reference, err e) = (reference, err e)
    prepend vs (reference, ok us) = (reference, ok (vs ++ us))

-- `vec![value]`
abbrev pub single : Option ℕ × Result Json → Option ℕ × Result (List Json)
single (reference, err e) = (reference, err e)
single (reference, ok v) = (reference, ok (v ∷ []))

unfoldable pub flatten_each : Settings → Option ℕ → List Json → Option ℕ × Result (List Json)
unfolding flatten
flatten_each s reference [] = (reference, ok [])
flatten_each s reference (v ∷ vs) =
    collect (single (flatten s reference v)) (λ next. flatten_each s next vs)

abbrev pub flatten_results : Settings → Option ℕ → List Json → Option ℕ × Result (List Json)
flatten_results s reference (v ∷ []) = single (flatten s reference v)
flatten_results s reference vs = flatten_each s reference vs

unfoldable pub apply_generic_flattening_for_partition :
    Settings → Option ℕ → Json → Option ℕ × Result (List Json)
unfolding flatten_each generic_flattening
apply_generic_flattening_for_partition s reference element =
    flatten_results s reference (generic_flattening element)

unfoldable pub process_partitioned_element :
    Settings → Source → Option ℕ → Json → Option ℕ × Result (List Json)
unfolding should_apply_generic_flattening apply_generic_flattening_for_partition
process_partitioned_element s c reference element =
    if should_apply_generic_flattening c element
    then apply_generic_flattening_for_partition s reference element
    else single (flatten s reference element)

unfoldable pub process_partitioned_array :
    Settings → Source → Option ℕ → Jsons → Option ℕ × Result (List Json)
unfolding process_partitioned_element
process_partitioned_array s c reference empty = (reference, ok [])
process_partitioned_array s c reference (item element arr) =
    collect (process_partitioned_element s c reference element)
      (λ next. process_partitioned_array s c next arr)

abbrev pub process_partitioned_body :
    Settings → Source → Option ℕ → Json → Option ℕ × Result (List Json)
process_partitioned_body s c reference (array arr) = process_partitioned_array s c reference arr
process_partitioned_body s c reference body =
    process_partitioned_array s c reference (item body empty)

abbrev pub is_some {ℓ} : {A : Type ℓ} → Option A → Bool
is_some none = false
is_some (some a) = true

-- Validation is required of every event.
unfoldable pub convert_array_to_object :
    Settings → Source → Option ℕ → Json → Option ℕ × Result (List Json)
unfolding process_partitioned_array flatten_json_body
convert_array_to_object s c reference body =
    if is_some s.time_partition || is_some s.custom_partition
    then process_partitioned_body (record s { validation_required = true }) c reference body
    else single (flatten_json_body (record s { validation_required = true }) c reference body)
