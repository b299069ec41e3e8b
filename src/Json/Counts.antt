-- ===== src/Json/Counts.antt =====
-- utils/json/flatten.rs: how many events `generic_flattening` returns, and how deep an event is.
use parseable.Prelude.{
  ℕ, suc, ◌+◌, ◌*◌, ◌≡◌, refl, ap, ◌∙◌, List, [], ◌∷◌, ◌++◌, String, string_eq, length,
  length-append, map, arith,
}
use parseable.Dict.{Dict, insert}
use parseable.Json.{
  Json, null, bool, number, string, array, object, Jsons, empty, item, Members, done, member,
}
use parseable.Json.Generic.{
  members, products, generic_flattening, flatten_items, objects, flatten_members,
}

-- The number of choices: a sum over the elements of an array, a product over the members of an
-- object, where an empty array under a key is one choice.
abbrev mutual
  pub choices : Json → ℕ
  choices (array vs) = item_choices vs
  choices (object ms) = member_choices ms
  choices _ = 1

  pub item_choices : Jsons → ℕ
  item_choices empty = 0
  item_choices (item v vs) = choices v + item_choices vs

  pub member_choices : Members → ℕ
  member_choices done = 1
  member_choices (member key (array empty) ms) = member_choices ms
  member_choices (member key (array (item v vs)) ms) = item_choices (item v vs) * member_choices ms
  member_choices (member key (object os) ms) = member_choices os * member_choices ms
  member_choices (member key _ ms) = member_choices ms

length-map {ℓ κ} :
    {A : Type ℓ} {B : Type κ} (f : A → B) (xs : List A) → length (map f xs) ≡ length xs
length-map f [] = refl
length-map f (x ∷ xs) = ap suc (length-map f xs)

length-products :
    (key : String) (items : List Json) (results : List (Dict String Json))
    → length (products key items results) ≡ length items * length results
unfolding products
length-products key [] results = omega arith
length-products key (i ∷ items) results = omega (
  arith,
  length-append (map (λ r. insert r key i) results) (products key items results),
  length-map (λ r. insert r key i) results,
  length-products key items results,
)

length-objects :
    (results : List (Dict String Json)) (n : ℕ)
    → length results ≡ n * 1
    → length (objects results) ≡ n
length-objects results n e = length-map (λ r. object (members r)) results ∙ e ∙ omega arith

-- One more member: a value that is kept, or one with a choice.
module _ (key : String) (ms : Members) (results : List (Dict String Json)) where
  scalar :
      (val : Json)
      → length (flatten_members (map (λ r. insert r key val) results) ms)
        ≡ member_choices ms * length (map (λ r. insert r key val) results)
      → length (flatten_members (map (λ r. insert r key val) results) ms)
        ≡ member_choices ms * length results
  scalar val e = e ∙ ap (λ n. member_choices ms * n) (length-map (λ r. insert r key val) results)

  product :
      (items : List Json) (n : ℕ)
      → length items ≡ n
      → length (flatten_members (products key items results) ms)
        ≡ member_choices ms * length (products key items results)
      → length (flatten_members (products key items results) ms)
        ≡ n * member_choices ms * length results
  product items n e rest =
      rest
      ∙ ap (λ k. member_choices ms * k)
          (length-products key items results ∙ ap (λ k. k * length results) e)
      ∙ omega arith

mutual
  unfolding generic_flattening

  length-generic : (v : Json) → length (generic_flattening v) ≡ choices v
  length-generic null = refl
  length-generic (bool b) = refl
  length-generic (number b n) = refl
  length-generic (string s) = refl
  length-generic (array vs) = length-flatten_items vs
  length-generic (object ms) =
      length-objects (flatten_members ([] ∷ []) ms) (member_choices ms)
        (length-flatten_members ms ([] ∷ []))

  length-flatten_items : (vs : Jsons) → length (flatten_items vs) ≡ item_choices vs
  length-flatten_items empty = refl
  length-flatten_items (item v vs) = omega (
    arith,
    length-append (generic_flattening v) (flatten_items vs),
    length-generic v,
    length-flatten_items vs,
  )

  length-flatten_members :
      (ms : Members) (results : List (Dict String Json))
      → length (flatten_members results ms) ≡ member_choices ms * length results
  length-flatten_members done results = omega arith
  length-flatten_members (member key (array empty) ms) results =
      scalar key ms results (array empty) (length-flatten_members ms _)
  length-flatten_members (member key (array (item v vs)) ms) results =
      product key ms results (generic_flattening v ++ flatten_items vs) (item_choices (item v vs))
        (length-flatten_items (item v vs)) (length-flatten_members ms _)
  length-flatten_members (member key (object os) ms) results =
      product key ms results (objects (flatten_members ([] ∷ []) os)) (member_choices os)
        (length-objects (flatten_members ([] ∷ []) os) (member_choices os)
          (length-flatten_members os ([] ∷ [])))
        (length-flatten_members ms _)
  length-flatten_members (member key null ms) results =
      scalar key ms results null (length-flatten_members ms _)
  length-flatten_members (member key (bool b) ms) results =
      scalar key ms results (bool b) (length-flatten_members ms _)
  length-flatten_members (member key (number b n) ms) results =
      scalar key ms results (number b n) (length-flatten_members ms _)
  length-flatten_members (member key (string s) ms) results =
      scalar key ms results (string s) (length-flatten_members ms _)

-- `generic_flattening` returns one event for each choice: a sum over the elements of an array, a
-- product over the members of an object, where an empty array under a key is one choice.
pub length-generic_flattening : (v : Json) → length (generic_flattening v) ≡ choices v
length-generic_flattening v = length-generic v
