-- ===== src/Json/Errors.antt =====
-- utils/json/flatten.rs: exactly which objects flatten, and what the result is like.
use parseable.Prelude.{
  ℕ, ◌+◌, ◌≡◌, refl, sym, ◌∙◌, subst, Bool, true, false, false≢true, ◌&&◌, Option, none, some, [],
  String, string_eq, string_eq, if◌then◌else◌, ◌>>=◌, Bool-cases, Option-cases, inl, inr,
}
use parseable.Dict.{Dict, get}
use parseable.Json.{
  Json, null, bool, number, string, array, object, Jsons, empty, item, Members, done, member,
  any_object, Columns, join, flatten_object, flatten_value, flatten_elements, insert_columns,
}
use parseable.Json.Shape.{IsFlat, IsFlatMap, Each-get, Ends, flatten_object-Ends}

-- An array with an object in it holds objects and nulls alone, at every depth that flattening
-- reaches.
abbrev mutual
  pub is_regular : Members → Bool
  is_regular done = true
  is_regular (member key value ms) = is_regular_value value && is_regular ms

  pub is_regular_value : Json → Bool
  is_regular_value (object ms) = is_regular ms
  is_regular_value (array vs) =
      let elements = are_regular vs in if any_object vs then elements else true
  is_regular_value _ = true

  pub are_regular : Jsons → Bool
  are_regular empty = true
  are_regular (item (object ms) vs) = is_regular ms && are_regular vs
  are_regular (item null vs) = are_regular vs
  are_regular (item _ vs) = false

-- An option has a value exactly if a test holds.
abbrev HasValue {ℓ} : {A : Type ℓ} → Option A → Bool → Type 0
HasValue none b = b ≡ false
HasValue (some a) b = b ≡ true

HasValue-bind {ℓ κ} :
    {A : Type ℓ} {B : Type κ} (o : Option A) (k : A → Option B) (b c : Bool)
    → HasValue o b
    → ((a : A) → HasValue (k a) c)
    → HasValue (o >>= k) (b && c)
HasValue-bind none k b c h f = rw h refl
HasValue-bind (some a) k b c h f = rw h (f a)

HasValue-map {ℓ κ} :
    {A : Type ℓ} {B : Type κ} (o : Option A) (f : A → B) (b : Bool)
    → HasValue o b
    → HasValue (o >>= λ a. some (f a)) b
HasValue-map none f b h = h
HasValue-map (some a) f b h = h

module _ (separator : String) where
  mutual
    unfolding flatten_object flatten_value flatten_elements

    flatten_object-HasValue :
        (ms : Members) (output : Dict String Json) (parent : Option String)
        → HasValue (flatten_object separator output parent ms) (is_regular ms)
    flatten_object-HasValue done output parent = refl
    flatten_object-HasValue (member key value ms) output parent =
        HasValue-bind (flatten_value separator output (join parent separator key) value) _
          (is_regular_value value) (is_regular ms)
          (flatten_value-HasValue value output (join parent separator key))
          (λ next. flatten_object-HasValue ms next parent)

    flatten_value-HasValue :
        (value : Json) (output : Dict String Json) (key : String)
        → HasValue (flatten_value separator output key value) (is_regular_value value)
    flatten_value-HasValue null output key = refl
    flatten_value-HasValue (bool b) output key = refl
    flatten_value-HasValue (number b n) output key = refl
    flatten_value-HasValue (string s) output key = refl
    flatten_value-HasValue (object ms) output key = flatten_object-HasValue ms output (some key)
    flatten_value-HasValue (array vs) output key =
        let elements = flatten_elements-HasValue vs [] key 0 in
        elim (Bool-cases (any_object vs)) [
          | inl objects ↦ rw objects (
              HasValue-map (flatten_elements separator [] key 0 vs) (insert_columns output)
                (are_regular vs) elements)
          | inr flat ↦ rw flat refl
        ]

    flatten_elements-HasValue :
        (vs : Jsons) (columns : Columns) (parent : String) (index : ℕ)
        → HasValue (flatten_elements separator columns parent index vs) (are_regular vs)
    flatten_elements-HasValue empty columns parent index = refl
    flatten_elements-HasValue (item (object ms) vs) columns parent index =
        HasValue-bind (flatten_object separator [] (some parent) ms) _ (is_regular ms)
          (are_regular vs) (flatten_object-HasValue ms [] (some parent))
          (λ fields. flatten_elements-HasValue vs _ parent (index + 1))
    flatten_elements-HasValue (item null vs) columns parent index =
        flatten_elements-HasValue vs _ parent (index + 1)
    flatten_elements-HasValue (item (bool b) vs) columns parent index = refl
    flatten_elements-HasValue (item (number b n) vs) columns parent index = refl
    flatten_elements-HasValue (item (string s) vs) columns parent index = refl
    flatten_elements-HasValue (item (array us) vs) columns parent index = refl

-- An object flattens exactly if it is regular. Then no value of the result is an object or an array
-- with an object in it.
pub flatten_object_lem :
    (separator : String) (ms : Members)
    → (is_regular ms ≡ false → flatten_object separator [] none ms ≡ none)
      × (is_regular ms ≡ true
          → (output : Dict String Json) × (flatten_object separator [] none ms ≡ some output)
            × ((key : String) (v : Json) → get output key ≡ some v → IsFlat v))
flatten_object_lem separator ms =
    let has = flatten_object-HasValue separator ms [] none in
    let flat = flatten_object-Ends separator ms [] none (tt, tt) in
    elim (Option-cases (flatten_object separator [] none ms)) [
      | inl failed ↦
          let irregular : is_regular ms ≡ false =
            subst (λ o. HasValue o (is_regular ms)) failed has in
          (λ e. failed, λ e. absurd (false≢true (sym irregular ∙ e)))
      | inr (output, e) ↦
          let regular : is_regular ms ≡ true = subst (λ o. HasValue o (is_regular ms)) e has in
          let flat_output : IsFlatMap output = subst (λ o. Ends o IsFlatMap) e flat in
          (
            λ irregular. absurd (false≢true (sym irregular ∙ regular)),
            λ r. (output, e, λ key v found. Each-get IsFlat output key v flat_output.0 found),
          )
    ]
