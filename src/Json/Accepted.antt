-- ===== src/Json/Accepted.antt =====
-- utils/json/mod.rs: without partitions every object of a generic source is accepted.
use parseable.Prelude.{
  ℕ, suc, ◌≡◌, refl, sym, ap, ◌∙◌, true, false, not, ◌||◌, Option, none, some, List, [], ◌∷◌, ◌++◌,
  String, string_eq, length, map, any, Bool-cases, inl, inr,
}
use parseable.Dict.{Dict, insert}
use parseable.Json.{
  Json, null, bool, number, string, array, object, Jsons, empty, item, Members, done, member, jsons,
  count, is_object,
}
use parseable.Json.Shape.{Each, Each-insert}
use parseable.Json.Errors.{is_regular, is_regular_value, flatten_object_lem}
use parseable.Json.Generic.{
  members, objects, products, generic_flattening, flatten_items, flatten_members, convert_to_array,
}
use parseable.Json.Counts.{choices, length-generic_flattening}
use parseable.Json.Validation.{
  Settings, ok, flatten, flatten_all, validate, validate_time_partition, validate_custom_partition,
}
use parseable.Json.Body.{
  Source, should_apply_generic_flattening, flatten_json_body, convert_array_to_object, single,
  is_some,
}

abbrev IsRegular : Json → Type 0
IsRegular v = is_regular_value v ≡ true

abbrev All {ℓ} : {A : Type ℓ} → (A → Type 0) → List A → Type 0
All P [] = Unit
All P (x ∷ xs) = P x × All P xs

All-append {ℓ} :
    {A : Type ℓ} (P : A → Type 0) (xs ys : List A) → All P xs → All P ys → All P (xs ++ ys)
All-append P [] ys a b = b
All-append P (x ∷ xs) ys (p, a) b = (p, All-append P xs ys a b)

All-map {ℓ κ} :
    {A : Type ℓ} {B : Type κ} (P : A → Type 0) (Q : B → Type 0) (f : A → B) (xs : List A)
    → ((x : A) → P x → Q (f x))
    → All P xs
    → All Q (map f xs)
All-map P Q f [] h a = tt
All-map P Q f (x ∷ xs) h (p, a) = (h x p, All-map P Q f xs h a)

abbrev Row : Type 0
Row = Dict String Json

members-IsRegular : (d : Row) → Each IsRegular d → IsRegular (object (members d))
members-IsRegular [] e = refl
members-IsRegular ((key, v) ∷ d) (p, e) = rw (p, members-IsRegular d e) refl

insert-All :
    (key : String) (v : Json) (results : List Row)
    → IsRegular v
    → All (Each IsRegular) results
    → All (Each IsRegular) (map (λ r. insert r key v) results)
insert-All key v results p a =
    All-map (Each IsRegular) (Each IsRegular) (λ r. insert r key v) results
      (λ r e. Each-insert IsRegular r key v p e) a

products-All :
    (key : String) (items : List Json) (results : List Row)
    → All IsRegular items
    → All (Each IsRegular) results
    → All (Each IsRegular) (products key items results)
unfolding products
products-All key [] results i a = tt
products-All key (v ∷ items) results (p, i) a =
    All-append (Each IsRegular) (map (λ r. insert r key v) results) _ (insert-All key v results p a)
      (products-All key items results i a)

objects-All : (results : List Row) → All (Each IsRegular) results → All IsRegular (objects results)
objects-All results a =
    All-map (Each IsRegular) IsRegular (λ r. object (members r)) results members-IsRegular a

mutual
  unfolding generic_flattening

  generic_flattening-All : (v : Json) → All IsRegular (generic_flattening v)
  generic_flattening-All null = (refl, tt)
  generic_flattening-All (bool b) = (refl, tt)
  generic_flattening-All (number b n) = (refl, tt)
  generic_flattening-All (string s) = (refl, tt)
  generic_flattening-All (array vs) = flatten_items-All vs
  generic_flattening-All (object ms) =
      objects-All (flatten_members ([] ∷ []) ms) (flatten_members-All ms ([] ∷ []) (tt, tt))

  flatten_items-All : (vs : Jsons) → All IsRegular (flatten_items vs)
  flatten_items-All empty = tt
  flatten_items-All (item v vs) =
      All-append IsRegular (generic_flattening v) (flatten_items vs) (generic_flattening-All v)
        (flatten_items-All vs)

  flatten_members-All :
      (ms : Members) (results : List Row)
      → All (Each IsRegular) results
      → All (Each IsRegular) (flatten_members results ms)
  flatten_members-All done results a = a
  flatten_members-All (member key (array empty) ms) results a =
      flatten_members-All ms _ (insert-All key (array empty) results refl a)
  flatten_members-All (member key (array (item v vs)) ms) results a = flatten_members-All ms _ (
      products-All key _ results
        (All-append IsRegular (generic_flattening v) (flatten_items vs) (generic_flattening-All v)
          (flatten_items-All vs))
        a)
  flatten_members-All (member key (object os) ms) results a = flatten_members-All ms _ (
      products-All key _ results
        (objects-All (flatten_members ([] ∷ []) os) (flatten_members-All os ([] ∷ []) (tt, tt))) a)
  flatten_members-All (member key null ms) results a =
      flatten_members-All ms _ (insert-All key null results refl a)
  flatten_members-All (member key (bool b) ms) results a =
      flatten_members-All ms _ (insert-All key (bool b) results refl a)
  flatten_members-All (member key (number b n) ms) results a =
      flatten_members-All ms _ (insert-All key (number b n) results refl a)
  flatten_members-All (member key (string s) ms) results a =
      flatten_members-All ms _ (insert-All key (string s) results refl a)

length-objects : (results : List Row) → length (objects results) ≡ length results
length-objects [] = refl
length-objects (r ∷ results) = ap suc (length-objects results)

all_objects : (results : List Row) → any (λ v. not (is_object v)) (objects results) ≡ false
all_objects [] = refl
all_objects (r ∷ results) = all_objects results

convert_to_array-objects :
    (results : List Row)
    → convert_to_array (objects results) ≡ some (array (jsons (objects results)))
unfolding convert_to_array
convert_to_array-objects results = rw (all_objects results) refl

module _ (s : Settings) (reference : Option ℕ) (no_time : s.time_partition ≡ none)
    (no_custom : s.custom_partition ≡ none) where
  validate-none : (ms : Members) → validate s reference ms ≡ (reference, none)
  unfolding validate validate_time_partition validate_custom_partition
  validate-none ms = elim (Bool-cases s.validation_required) [
    | inl required ↦ rw (required, no_time, no_custom) refl
    | inr optional ↦ rw optional refl
  ]

  flatten-regular :
      (ms : Members)
      → is_regular ms ≡ true
      → (w : Json) × (flatten s reference (object ms) ≡ (reference, ok w))
  unfolding flatten
  flatten-regular ms regular =
      let (output, e, _) = (flatten_object_lem s.separator ms).1 regular in
      (object (members output), rw (validate-none ms, e) refl)

  flatten_all-objects :
      (results : List Row)
      → All (Each IsRegular) results
      → (ws : Jsons) × (flatten_all s reference (jsons (objects results)) ≡ (reference, ok ws))
        × (count ws ≡ length results)
  unfolding flatten_all
  flatten_all-objects [] a = (empty, refl, refl)
  flatten_all-objects (r ∷ results) (p, a) =
      let (w, e) = flatten-regular (members r) (members-IsRegular r p) in
      let (ws, f, n) = flatten_all-objects results a in (item w ws, rw (e, f) refl, ap suc n)

  flatten_json_body-object :
      (c : Source) (ms : Members)
      → should_apply_generic_flattening c (object ms) ≡ true
      → (ws : Jsons) × (flatten_json_body s c reference (object ms) ≡ (reference, ok (array ws)))
        × (count ws ≡ choices (object ms))
  unfolding flatten_json_body generic_flattening flatten
  flatten_json_body-object c ms applies =
      let results = flatten_members ([] ∷ []) ms in
      let (ws, e, n) = flatten_all-objects results (flatten_members-All ms ([] ∷ []) (tt, tt)) in
      (
        ws,
        rw (applies, convert_to_array-objects results, e) refl,
        n ∙ sym (length-objects results) ∙ length-generic_flattening (object ms),
      )

-- Without partitions, an object of a generic source within the allowed levels is always accepted: it
-- becomes one array with one event for each choice, and the reference timestamp stays.
pub convert_array_to_object_lem :
    (s : Settings) (c : Source) (reference : Option ℕ) (ms : Members)
    → s.time_partition ≡ none
    → s.custom_partition ≡ none
    → should_apply_generic_flattening c (object ms) ≡ true
    → (ws : Jsons) × (convert_array_to_object s c reference (object ms)
        ≡ (reference, ok (array ws ∷ [])))
      × (count ws ≡ choices (object ms))
unfolding convert_array_to_object
convert_array_to_object_lem s c reference ms no_time no_custom applies =
    let (ws, e, n) =
      flatten_json_body-object (record s { validation_required = true }) reference no_time no_custom
        c ms applies in
    let no_partition : (is_some s.time_partition || is_some s.custom_partition) ≡ false =
      rw (no_time, no_custom) refl in
    (ws, rw no_partition (ap single e), n)
