-- ===== src/Json/Tests.antt =====
-- Runs of the flattening, and the theorems on it at inputs that meet their hypotheses.
use parseable.Prelude.{
  Option, ap, sym, subst, ◌*◌, ◌↔◌, In, ◌==◌, if◌then◌else◌, ℕ, ◌+◌, ltb, length, ◌≡◌, refl, true,
  false, String, string_eq, some, none, List, [], ◌∷◌,
}
use parseable.Dict.{Dict, get, insert, remove}
use parseable.Json.{
  count, string, Json, null, number, array, object, Jsons, empty, item, Members, done, member,
  Columns, flatten_object, flatten_elements,
}
use parseable.Json.Shape.{IsFlat}
use parseable.Json.Errors.{is_regular, flatten_object_lem}
use parseable.Json.Columns.{rows_of, column_of}
use parseable.Json.Generic.{generic_flattening, has_more_than_max_allowed_levels}
use parseable.Json.Counts.{choices, length-generic_flattening}
use parseable.Json.Levels.{depth, has_more_than_max_allowed_levels_lem}
use parseable.Time.{hour_ns}
use parseable.Json.Validation.{
  Settings, flatten, ok, validate_custom_partition, field_not_part_of_log, partition_fields, trim,
  split_commas,
}
use parseable.Json.Partitions.{HasPartitionValue, validate_custom_partition_iff}
use parseable.Json.Reference.{Fits, IsTimely, flatten-IsTimely}
use parseable.Json.Body.{Source, v1, json, should_apply_generic_flattening, convert_array_to_object}
use parseable.Json.Accepted.{convert_array_to_object_lem}
use parseable.Json.Rows.{flatten_elements_lem}

abbrev number_of : ℕ → Json
number_of n = number false n

-- `{"key": {"a": 1}, "list": [{"b": 2}, null, {"c": 3}]}`
abbrev elements : Jsons
elements =
    item (object (member "b" (number_of 2) done))
      (item null (item (object (member "c" (number_of 3) done)) empty))

abbrev event : Members
event = member "key" (object (member "a" (number_of 1) done)) (member "list" (array elements) done)

event_flattened :
    flatten_object "_" [] none event
    ≡ some (
        ("list_b", array (item (number_of 2) (item null (item null empty))))
        ∷ ("list_c", array (item null (item null (item (number_of 3) empty))))
        ∷ ("key_a", number_of 1)
        ∷ [])
unfolding flatten_object insert remove get
event_flattened = refl

-- `{"a": [{"b": 1}, 2]}`
abbrev mixed : Members
mixed =
    member "a" (array (item (object (member "b" (number_of 1) done)) (item (number_of 2) empty)))
      done

mixed_fails : flatten_object "_" [] none mixed ≡ none
unfolding flatten_object
mixed_fails = refl

flatten_object_lem_example :
    (is_regular event ≡ false → flatten_object "_" [] none event ≡ none)
    × (is_regular event ≡ true
        → (output : Dict String Json) × (flatten_object "_" [] none event ≡ some output)
          × ((key : String) (v : Json) → get output key ≡ some v → IsFlat v))
flatten_object_lem_example = flatten_object_lem "_" event

flatten_elements_lem_example :
    (rows_of "_" "list" elements ≡ none → flatten_elements "_" [] "list" 0 elements ≡ none)
    × ((rows : List (Dict String Json))
        → rows_of "_" "list" elements ≡ some rows
        → (columns : Columns) × (flatten_elements "_" [] "list" 0 elements ≡ some columns)
          × ((key : String) → get columns key ≡ column_of key rows))
flatten_elements_lem_example = flatten_elements_lem "_" "list" elements

-- `{"a": [{"b": 1}, {"c": 2}], "d": {"e": 4}}`
abbrev two_choices : Json
two_choices = object (
    member "a"
      (array (
        item (object (member "b" (number_of 1) done))
          (item (object (member "c" (number_of 2) done)) empty)))
      (member "d" (object (member "e" (number_of 4) done)) done))

two_choices_flattened :
    generic_flattening two_choices
    ≡ object (
        member "d"
          (object (member "e" (number_of 4) done))
          (member "a" (object (member "b" (number_of 1) done)) done))
      ∷ object (
          member "d"
            (object (member "e" (number_of 4) done))
            (member "a" (object (member "c" (number_of 2) done)) done))
      ∷ []
unfolding generic_flattening insert remove
two_choices_flattened = refl

length-generic_flattening_example : length (generic_flattening two_choices) ≡ choices two_choices
length-generic_flattening_example = length-generic_flattening two_choices

-- `{"a": [[]], "b": 1}` has no result.
abbrev dropped : Json
dropped = object (member "a" (array (item (array empty) empty)) (member "b" (number_of 1) done))

dropped_flattened : generic_flattening dropped ≡ []
unfolding generic_flattening
dropped_flattened = refl

has_more_than_max_allowed_levels_lem_example :
    has_more_than_max_allowed_levels 4 two_choices 1 ≡ ltb 4 (1 + depth two_choices)
has_more_than_max_allowed_levels_lem_example = has_more_than_max_allowed_levels_lem 4 two_choices 1

-- `{"level": "info", "status": 200}`, partitioned by `level, status`.
abbrev log : Members
log = member "level" (string "info") (member "status" (number_of 200) done)

log_accepted : validate_custom_partition log (some "level, status") ≡ none
unfolding validate_custom_partition trim split_commas
log_accepted = refl

log_rejected :
    validate_custom_partition log (some "level,host") ≡ some (field_not_part_of_log "host")
unfolding validate_custom_partition trim split_commas
log_rejected = refl

validate_custom_partition_iff_example :
    (validate_custom_partition log (some "level, status") ≡ none)
    ↔ ((field : String) → In field (partition_fields "level, status") → HasPartitionValue log field)
validate_custom_partition_iff_example = validate_custom_partition_iff log "level, status"

abbrev early : String
early = "early"

-- Reads `early` as 10 hours after the first instant and any other text as 12.
abbrev read : String → Option ℕ
read text = if text == early then some (10 * hour_ns) else some (12 * hour_ns)

abbrev settings : Settings
settings = record {
  separator = "_";
  time_partition = some "time";
  time_partition_limit = some 1;
  custom_partition = none;
  validation_required = true;
  max_age_hours = 2;
  now = 13 * hour_ns;
  parse = read;
}

-- `[{"time": "late"}, {"time": "early"}]`
abbrev batch : Json
batch = array (
    item (object (member "time" (string "late") done))
      (item (object (member "time" (string "early") done)) empty))

batch_flattened : flatten settings none batch ≡ (some (12 * hour_ns), ok batch)
unfolding flatten insert remove
batch_flattened = refl

batch_accepted : (flatten settings none batch).1 ≡ ok batch
batch_accepted = ap (λ p. p.1) batch_flattened

flatten-IsTimely_example :
    Fits settings "time" none (12 * hour_ns) × IsTimely settings "time" (12 * hour_ns) batch
flatten-IsTimely_example =
    flatten-IsTimely settings "time" none batch batch refl refl batch_accepted (12 * hour_ns)
      (subst (λ p. Fits settings "time" p.0 (12 * hour_ns)) (sym batch_flattened) refl)

abbrev generic : Source
generic = record { schema_version = v1; log_source = json; event_flatten_level = 4 }

abbrev unpartitioned : Settings
unpartitioned = record settings { time_partition = none }

abbrev two_members : Members
two_members =
    member "a" (array (item (object (member "b" (number_of 1) done)) (item (number_of 2) empty)))
      (member "d" (number_of 4) done)

two_members_apply : should_apply_generic_flattening generic (object two_members) ≡ true
unfolding should_apply_generic_flattening has_more_than_max_allowed_levels
two_members_apply = refl

convert_array_to_object_lem_example :
    (ws : Jsons) × (convert_array_to_object unpartitioned generic none (object two_members)
      ≡ (none, ok (array ws ∷ [])))
    × (count ws ≡ choices (object two_members))
convert_array_to_object_lem_example =
    convert_array_to_object_lem unpartitioned generic none two_members refl refl two_members_apply
