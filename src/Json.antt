-- ===== src/Json.antt =====
-- utils/json/flatten.rs: the flattening of events. A `serde_json::Map` is a list of its members in
-- the order of iteration where it is read, and a `Dict` where it is filled. A number is only asked
-- whether it is a float.
pub mod Shape
pub mod Columns
pub mod Rows
pub mod Levels
pub mod Generic
pub mod Validation
pub mod Partitions
pub mod Reference
pub mod Body
pub mod Accepted
pub mod Counts
mod Tests
pub mod Errors
use parseable.Prelude.{
  ℕ, zero, suc, ◌+◌, ◌≡◌, Bool, true, false, not, ◌||◌, Option, none, some, List, [], ◌∷◌, ◌++◌,
  String, Eq, ◌==◌, string_eq, ltb, length, map, if◌then◌else◌, ◌>>=◌,
}
use Prim.Native.String.{◌++◌ as ◌+++◌}
use parseable.Dict.{Dict, get, insert}

mutual
  pub data Json : Type 0 where
    null : Json
    bool : Bool → Json
    number : (is_f64 : Bool) → ℕ → Json
    string : String → Json
    array : Jsons → Json
    object : Members → Json

  pub data Jsons : Type 0 where
    empty : Jsons
    item : Json → Jsons → Jsons

  pub data Members : Type 0 where
    done : Members
    member : String → Json → Members → Members

abbrev pub is_object : Json → Bool
is_object (object ms) = true
is_object _ = false

-- `arr.iter().any(Value::is_object)`
abbrev pub any_object : Jsons → Bool
any_object empty = false
any_object (item v vs) = is_object v || any_object vs

abbrev pub jsons : List Json → Jsons
jsons [] = empty
jsons (v ∷ vs) = item v (jsons vs)

abbrev pub count : Jsons → ℕ
count empty = 0
count (item v vs) = suc (count vs)

-- `new_key`
unfoldable pub join : Option String → String → String → String
join (some parent) separator key = parent +++ separator +++ key
join none separator key = key

abbrev pub nulls : ℕ → List Json
nulls zero = []
nulls (suc n) = null ∷ nulls n

-- The columns of `flatten_array_objects`.
abbrev pub Columns : Type 0
Columns = Dict String (List Json)

abbrev pub or_nulls : ℕ → Option (List Json) → List Json
or_nulls index none = nulls index
or_nulls index (some column) = column

-- `columns.entry(key).or_insert_with(|| vec![Value::Null; index])` and `push`, for each field.
unfoldable pub push_fields : ℕ → Columns → Dict String Json → Columns
push_fields index columns [] = columns
push_fields index columns ((key, v) ∷ fields) =
    push_fields index (insert columns key (or_nulls index (get columns key) ++ v ∷ [])) fields

-- `column.push(Value::Null)` for each column.
unfoldable pub push_nulls : Columns → Columns
push_nulls [] = []
push_nulls ((key, column) ∷ columns) = (key, column ++ null ∷ []) ∷ push_nulls columns

-- `while column.len() < max_len`: the rounds that are left are at most `max_len`.
unfoldable pub extend : ℕ → ℕ → List Json → List Json
extend zero max_len column = column
extend (suc rounds) max_len column =
    let rest = extend rounds max_len (column ++ null ∷ []) in
    if ltb (length column) max_len then rest else column

unfoldable pub extend_all : ℕ → Columns → Columns
unfolding extend
extend_all max_len [] = []
extend_all max_len ((key, column) ∷ columns) =
    (key, extend max_len max_len column) ∷ extend_all max_len columns

-- The end of `flatten_array_objects`.
unfoldable pub insert_columns : Dict String Json → Columns → Dict String Json
insert_columns output [] = output
insert_columns output ((key, values) ∷ columns) =
    insert_columns (insert output key (array (jsons values))) columns

-- `none` is the error `NonObjectInArray`, the only one of these functions.
unfoldable mutual
  unfolding join push_fields push_nulls extend_all insert_columns

  pub flatten_object :
      String → Dict String Json → Option String → Members → Option (Dict String Json)
  flatten_object separator output parent done = some output
  flatten_object separator output parent (member key value ms) = do
    next ← flatten_value separator output (join parent separator key) value
    flatten_object separator next parent ms

  -- The match on a value in `flatten_object`.
  pub flatten_value : String → Dict String Json → String → Json → Option (Dict String Json)
  flatten_value separator output new_key (object ms) =
      flatten_object separator output (some new_key) ms
  flatten_value separator output new_key (array vs) =
      let columns = flatten_elements separator [] new_key 0 vs in
      if any_object vs
      then (do all ← columns; some (insert_columns output all))
      else some (insert output new_key (array vs))
  flatten_value separator output new_key value = some (insert output new_key value)

  -- The loop of `flatten_array_objects`.
  pub flatten_elements : String → Columns → String → ℕ → Jsons → Option Columns
  flatten_elements separator columns parent index empty = some columns
  flatten_elements separator columns parent index (item (object ms) vs) = do
    fields ← flatten_object separator [] (some parent) ms
    flatten_elements separator (extend_all (index + 1) (push_fields index columns fields)) parent
        (index + 1) vs
  flatten_elements separator columns parent index (item null vs) =
      flatten_elements separator (extend_all (index + 1) (push_nulls columns)) parent (index + 1) vs
  flatten_elements separator columns parent index (item _ vs) = none

unfoldable pub flatten_array_objects :
    String → Dict String Json → String → Jsons → Option (Dict String Json)
unfolding flatten_elements insert_columns
flatten_array_objects separator output parent vs = do
  all ← flatten_elements separator [] parent 0 vs
  some (insert_columns output all)
