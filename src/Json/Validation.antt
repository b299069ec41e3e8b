-- ===== src/Json/Validation.antt =====
-- utils/json/flatten.rs: `validate_custom_partition`, `validate_time_partition` and `flatten`. The
-- reference timestamp is the state; chrono's parser is a parameter.
use Prim.Native.Char.{Char, code}
use Prim.Native.String.{[] as nil, ◌∷◌ as ◌∷ˢ◌}
use parseable.Prelude.{
  ℕ, ◌-◌, ◌*◌, Bool, true, false, ◌||◌, Option, none, some, List, [], ◌∷◌, map, String, eqb, leb,
  if◌then◌else◌, ◌==◌, string_eq,
}
use parseable.Time.{day_ns, hour_ns}
use parseable.Dict.{Dict}
use parseable.Json.{
  Json, null, bool, number, string, array, object, Jsons, empty, item, Members, done, member,
  flatten_object,
}
use parseable.Json.Generic.{members}

pub data JsonFlattenError : Type 0 where
  cannot_flatten : JsonFlattenError
  field_not_part_of_log field_empty_or_null field_is_object field_is_array field_contains_period
        field_not_string invalid_datetime_format :
      String → JsonFlattenError
  timestamp_too_old : String → ℕ → ℕ → JsonFlattenError
  timestamp_too_old_relative : String → ℕ → ℕ → ℕ → JsonFlattenError
  expected_object_in_array non_object_in_array : JsonFlattenError

pub data Result {ℓ} (A : Type ℓ) : Type ℓ where
  ok : A → Result A
  err : JsonFlattenError → Result A

infixl 5 ◌>>=◌
abbrev ◌>>=◌ {ℓ κ} : {A : Type ℓ} {B : Type κ} → Result A → (A → Result B) → Result B
ok a >>= k = k a
err e >>= k = err e

abbrev is : ℕ → Char → Bool
is n c = eqb (code c) n

abbrev between : ℕ → ℕ → ℕ → Bool
between a b n = if leb a n then leb n b else false

-- `char::is_whitespace`
abbrev pub is_whitespace : Char → Bool
is_whitespace c =
    between 9 13 (code c)
    || is 32 c
    || is 133 c
    || is 160 c
    || is 5760 c
    || between 8192 8202 (code c)
    || between 8232 8233 (code c)
    || is 8239 c
    || is 8287 c
    || is 12288 c

trim_start : String → String
trim_start nil = nil
trim_start (c ∷ˢ s) = let rest = trim_start s in if is_whitespace c then rest else c ∷ˢ s

abbrev put_back : Char → String → String
put_back c nil = if is_whitespace c then nil else c ∷ˢ nil
put_back c s = c ∷ˢ s

trim_end : String → String
trim_end nil = nil
trim_end (c ∷ˢ s) = put_back c (trim_end s)

unfoldable pub trim : String → String
unfolding trim_start trim_end
trim s = trim_start (trim_end s)

abbrev onto_first : Char → List String → List String
onto_first c [] = (c ∷ˢ nil) ∷ []
onto_first c (s ∷ ss) = (c ∷ˢ s) ∷ ss

-- `split(',')`
unfoldable pub split_commas : String → List String
split_commas nil = nil ∷ []
split_commas (c ∷ˢ s) =
    let rest = split_commas s in if is 44 c then nil ∷ rest else onto_first c rest

-- `s.contains('.')`
unfoldable pub contains_period : String → Bool
contains_period nil = false
contains_period (c ∷ˢ s) = is 46 c || contains_period s

abbrev pub is_empty : String → Bool
is_empty nil = true
is_empty s = false

-- `value.get(field)`
abbrev pub field_of : Members → String → Option Json
field_of done field = none
field_of (member key v ms) field = if key == field then some v else field_of ms field

-- The match on the value of a field, `none` where it is fine.
unfoldable pub check_field : String → Option Json → Option JsonFlattenError
unfolding contains_period
check_field field none = some (field_not_part_of_log field)
check_field field (some null) = some (field_empty_or_null field)
check_field field (some (string s)) =
    if is_empty s
    then some (field_empty_or_null field)
    else if contains_period s
    then some (field_contains_period field)
    else none
check_field field (some (object ms)) = some (field_is_object field)
check_field field (some (array vs)) = some (field_is_array field)
check_field field (some (number is_f64 n)) =
    if is_f64 then some (field_contains_period field) else none
check_field field (some (bool b)) = none

abbrev or_else {ℓ} : {A : Type ℓ} → Option A → Option A → Option A
or_else none b = b
or_else (some a) b = some a

-- The loop over the trimmed fields.
unfoldable pub check_fields : Members → List String → Option JsonFlattenError
unfolding check_field
check_fields value [] = none
check_fields value (field ∷ fields) =
    or_else (check_field field (field_of value field)) (check_fields value fields)

abbrev pub partition_fields : String → List String
partition_fields custom_partition = map trim (split_commas custom_partition)

unfoldable pub validate_custom_partition : Members → Option String → Option JsonFlattenError
unfolding check_fields
validate_custom_partition value none = none
validate_custom_partition value (some custom_partition) =
    check_fields value (partition_fields custom_partition)

-- The arguments of `flatten`, the option `event_max_chunk_age`, the time of the call, and chrono's
-- parser of a timestamp.
pub record Settings : Type 0 where
  pub separator : String
  pub time_partition : Option String
  pub time_partition_limit : Option ℕ
  pub custom_partition : Option String
  pub validation_required : Bool
  pub max_age_hours : ℕ
  pub now : ℕ
  pub parse : String → Option ℕ

-- `REFERENCE_TIMESTAMP`, and the error if there is one.
abbrev pub Checked : Type 0
Checked = Option ℕ × Option JsonFlattenError

abbrev pub limit_days : Option ℕ → ℕ
limit_days none = 30
limit_days (some days) = days

-- The match on the reference timestamp, with a parsed timestamp.
unfoldable pub check_reference : Settings → String → Option ℕ → ℕ → Checked
check_reference s key none timestamp =
    if leb (s.now - limit_days s.time_partition_limit * day_ns) timestamp
    then (some timestamp, none)
    else (none, some (timestamp_too_old key (limit_days s.time_partition_limit) timestamp))
check_reference s key (some reference) timestamp =
    if leb (reference - s.max_age_hours * hour_ns) timestamp
    then (some reference, none)
    else (some reference, some (timestamp_too_old_relative key s.max_age_hours timestamp reference))

abbrev pub check_parsed : Settings → String → Option ℕ → Option ℕ → Checked
check_parsed s key reference none = (reference, some (invalid_datetime_format key))
check_parsed s key reference (some timestamp) = check_reference s key reference timestamp

abbrev pub check_timestamp : Settings → String → Option ℕ → Option Json → Checked
check_timestamp s key reference none = (reference, some (field_not_part_of_log key))
check_timestamp s key reference (some (string text)) = check_parsed s key reference (s.parse text)
check_timestamp s key reference (some _) = (reference, some (field_not_string key))

abbrev pub check_time : Settings → Option ℕ → Members → Option String → Checked
check_time s reference value none = (reference, none)
check_time s reference value (some key) = check_timestamp s key reference (field_of value key)

unfoldable pub validate_time_partition : Settings → Option ℕ → Members → Checked
unfolding check_reference
validate_time_partition s reference value = check_time s reference value s.time_partition

abbrev pub first_error : Option JsonFlattenError → Option JsonFlattenError → Option JsonFlattenError
first_error none e = e
first_error (some e) f = some e

-- Both validations, where they are required: the first error ends them.
unfoldable pub validate : Settings → Option ℕ → Members → Checked
unfolding validate_time_partition validate_custom_partition
validate s reference value =
    if s.validation_required
    then (
      (validate_time_partition s reference value).0,
      first_error (validate_time_partition s reference value).1
          (validate_custom_partition value s.custom_partition),
    )
    else (reference, none)

abbrev pub flattened : Option (Dict String Json) → Result Json
flattened none = err non_object_in_array
flattened (some output) = ok (object (members output))

-- The end of the case of an object.
abbrev pub unless : Option JsonFlattenError → Result Json → Result Json
unless none r = r
unless (some e) r = err e

abbrev pub item_result : Json → Result Jsons → Result Jsons
item_result v (ok vs) = ok (item v vs)
item_result v (err e) = err e

abbrev pub array_result : Result Jsons → Result Json
array_result (ok vs) = ok (array vs)
array_result (err e) = err e

-- After one element of an array: the others, or its error.
abbrev pub and_then :
    Option ℕ × Result Json → (Option ℕ → Option ℕ × Result Jsons) → Option ℕ × Result Jsons
and_then (reference, err e) next = (reference, err e)
and_then (reference, ok v) next = ((next reference).0, item_result v (next reference).1)

unfoldable mutual
  unfolding validate flatten_object

  pub flatten : Settings → Option ℕ → Json → Option ℕ × Result Json
  flatten s reference (object ms) =
      let checked = validate s reference ms in
      (checked.0, unless checked.1 (flattened (flatten_object s.separator [] none ms)))
  flatten s reference (array arr) =
      let all = flatten_all s reference arr in (all.0, array_result all.1)
  flatten s reference _ = (reference, err cannot_flatten)

  -- The loop over the elements of an array.
  pub flatten_all : Settings → Option ℕ → Jsons → Option ℕ × Result Jsons
  flatten_all s reference empty = (reference, ok empty)
  flatten_all s reference (item v vs) =
      and_then (flatten s reference v) (λ next. flatten_all s next vs)
