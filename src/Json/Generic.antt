-- ===== src/Json/Generic.antt =====
-- utils/json/flatten.rs, `generic_flattening` and `has_more_than_max_allowed_levels`: an event with
-- arrays becomes one event for each choice of an element of each array. The code always returns
-- `Ok`, so the model returns the vector.
use parseable.Prelude.{
  ℕ, ◌+◌, Bool, true, false, not, ◌||◌, Option, none, some, List, [], ◌∷◌, ◌++◌, String, string_eq,
  ltb, map, any, concat_map, if◌then◌else◌,
}
use parseable.Dict.{Dict, insert}
use parseable.Json.{
  Json, array, object, Jsons, empty, item, Members, done, member, is_object, jsons,
}

abbrev pub members : Dict String Json → Members
members [] = done
members ((key, v) ∷ d) = member key v (members d)

abbrev pub objects : List (Dict String Json) → List Json
objects results = map (λ r. object (members r)) results

-- A result for each pair of an item and a result so far.
unfoldable pub products : String → List Json → List (Dict String Json) → List (Dict String Json)
products key items results = concat_map (λ i. map (λ r. insert r key i) results) items

unfoldable mutual
  unfolding products

  pub generic_flattening : Json → List Json
  generic_flattening (array arr) = flatten_items arr
  generic_flattening (object ms) = objects (flatten_members ([] ∷ []) ms)
  generic_flattening value = value ∷ []

  -- The `flat_map` over the elements of an array.
  pub flatten_items : Jsons → List Json
  flatten_items empty = []
  flatten_items (item v vs) = generic_flattening v ++ flatten_items vs

  -- The fold over the members of an object.
  pub flatten_members : List (Dict String Json) → Members → List (Dict String Json)
  flatten_members results done = results
  flatten_members results (member key val ms) = flatten_members (flatten_member results key val) ms

  pub flatten_member : List (Dict String Json) → String → Json → List (Dict String Json)
  flatten_member results key (array empty) = map (λ r. insert r key (array empty)) results
  flatten_member results key (array (item v vs)) =
      products key (generic_flattening v ++ flatten_items vs) results
  flatten_member results key (object ms) =
      products key (objects (flatten_members ([] ∷ []) ms)) results
  flatten_member results key val = map (λ r. insert r key val) results

-- `none` is the error `ExpectedObjectInArray`.
unfoldable pub convert_to_array : List Json → Option Json
convert_to_array flattened =
    if any (λ v. not (is_object v)) flattened then none else some (array (jsons flattened))

-- `has_more_than_max_allowed_levels`, with `P_MAX_FLATTEN_LEVEL` as `limit`.
unfoldable mutual
  pub has_more_than_max_allowed_levels : ℕ → Json → ℕ → Bool
  has_more_than_max_allowed_levels limit (array arr) level =
      let inner = any_item limit arr level in if ltb limit level then true else inner
  has_more_than_max_allowed_levels limit (object ms) level =
      let inner = any_member limit ms level in if ltb limit level then true else inner
  has_more_than_max_allowed_levels limit value level = if ltb limit level then true else false

  pub any_item : ℕ → Jsons → ℕ → Bool
  any_item limit empty level = false
  any_item limit (item v vs) level =
      has_more_than_max_allowed_levels limit v level || any_item limit vs level

  pub any_member : ℕ → Members → ℕ → Bool
  any_member limit done level = false
  any_member limit (member key v ms) level =
      has_more_than_max_allowed_levels limit v (level + 1) || any_member limit ms level
