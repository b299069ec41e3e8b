-- ===== src/Json/Rows.antt =====
-- utils/json/flatten.rs: the loop of `flatten_array_objects` agrees with the description by rows.
use parseable.Prelude.{
  append-nil, ℕ, suc, ◌+◌, ◌≡◌, refl, sym, ap, ◌∙◌, subst, false, ◌||◌, Option, none, some, List,
  [], ◌∷◌, ◌++◌, String, string_eq, length, length-append, map, any, any-append, if◌then◌else◌,
  ◌>>=◌, Bool-cases, Option-cases, inl, inr, arith,
}
use parseable.Dict.{Dict, get, get-empty}
use parseable.Json.{
  Json, null, bool, number, string, array, object, Jsons, empty, item, Columns, push_fields,
  push_nulls, extend, extend_all, flatten_object, flatten_elements,
}
use parseable.Json.Shape.{HasKeysOnce, IsFlatMap, Ends, flatten_object-Ends}
use parseable.Json.Columns.{
  Row, is_some, or_null, value_at, has_key, column_of, rows_of, length-map, map-append, map-nulls,
  pushed, map_option, get-push_fields, get-push_nulls, get-extend_all, extend_full, extend_short,
}

-- One more row: its value is pushed or else the column is extended by a null.
module _ (key : String) (rows : List Row) (row : Row) where
  abbrev values : List Json
  values = map (value_at key) rows

  column_of-append : column_of key (rows ++ row ∷ []) ≡ (
      if any (has_key key) rows || (is_some (get row key) || false)
      then some (values ++ or_null (get row key) ∷ [])
      else none)
  column_of-append = rw (any-append (has_key key) rows (row ∷ []), map-append key rows row) refl

  length-values : (v : Json) → length (values ++ v ∷ []) ≡ suc (length rows)
  length-values v = omega (arith, length-append values (v ∷ []), length-map key rows)

  extend-pushed :
      map_option
        (extend (suc (length rows)) (suc (length rows)))
        (pushed (length rows) (column_of key rows) (get row key))
      ≡ column_of key (rows ++ row ∷ [])
  extend-pushed = elim (Bool-cases (any (has_key key) rows)) [
    | inl known ↦ elim (Option-cases (get row key)) [
      | inl absent ↦
          rw (column_of-append, known, absent)
            (ap some (extend_short (length rows) values (length-map key rows)))
      | inr (v, found) ↦
          rw (column_of-append, known, found)
            (ap some (extend_full _ (suc (length rows)) (values ++ v ∷ []) (length-values v)))
    ]
    | inr unknown ↦ elim (Option-cases (get row key)) [
      | inl absent ↦ rw (column_of-append, unknown, absent) refl
      | inr (v, found) ↦
          rw (column_of-append, unknown, found)
            (ap (λ vs. some (extend (suc (length rows)) (suc (length rows)) (vs ++ v ∷ [])))
                (sym (map-nulls key rows unknown))
              ∙ ap some (extend_full _ (suc (length rows)) (values ++ v ∷ []) (length-values v)))
    ]
  ]

  extend-nulls :
      get row key ≡ none
      → map_option
          (extend (suc (length rows)) (suc (length rows)))
          (map_option (λ c. c ++ null ∷ []) (column_of key rows))
        ≡ column_of key (rows ++ row ∷ [])
  extend-nulls absent = elim (Bool-cases (any (has_key key) rows)) [
    | inl known ↦
        rw (column_of-append, known, absent)
          (ap some (extend_full _ (suc (length rows)) (values ++ null ∷ []) (length-values null)))
    | inr unknown ↦ rw (column_of-append, unknown, absent) refl
  ]

add_one : (n : ℕ) → n + 1 ≡ suc n
add_one n = omega arith

-- The columns are those of the rows so far.
abbrev Describes : List Row → Columns → Type 0
Describes rows columns = (key : String) → get columns key ≡ column_of key rows

object-Describes :
    (rows : List Row) (columns : Columns) (fields : Row)
    → HasKeysOnce fields
    → Describes rows columns
    → Describes
        (rows ++ fields ∷ [])
        (extend_all (length rows + 1) (push_fields (length rows) columns fields))
object-Describes rows columns fields u d key =
    rw
      (
        add_one (length rows),
        get-extend_all (suc (length rows)) (push_fields (length rows) columns fields) key,
        get-push_fields (length rows) fields columns key u,
        d key,
      )
      (extend-pushed key rows fields)

null-Describes :
    (rows : List Row) (columns : Columns)
    → Describes rows columns
    → Describes (rows ++ [] ∷ []) (extend_all (length rows + 1) (push_nulls columns))
null-Describes rows columns d key =
    rw
      (
        add_one (length rows),
        get-extend_all (suc (length rows)) (push_nulls columns) key,
        get-push_nulls columns key,
        d key,
      )
      (extend-nulls key rows [] (get-empty key))

module _ (separator parent : String) where
  -- What the loop makes of the rows that are left.
  abbrev Agree : Option Columns → Option (List Row) → List Row → Type 0
  Agree none none before = Unit
  Agree (some columns) (some rows) before = Describes (before ++ rows) columns
  Agree _ _ before = ⊥

  snoc-append :
      (before : List Row) (row : Row) (rows : List Row)
      → (before ++ row ∷ []) ++ rows ≡ before ++ row ∷ rows
  snoc-append [] row rows = refl
  snoc-append (r ∷ before) row rows = ap (λ rs. r ∷ rs) (snoc-append before row rows)

  length-snoc : (before : List Row) (row : Row) → length (before ++ row ∷ []) ≡ length before + 1
  length-snoc before row = length-append before (row ∷ [])

  Agree-cons :
      (o : Option Columns) (r : Option (List Row)) (before : List Row) (row : Row)
      → Agree o r (before ++ row ∷ [])
      → Agree o (r >>= λ rows. some (row ∷ rows)) before
  Agree-cons none none before row a = tt
  Agree-cons none (some rows) before row a = absurd a
  Agree-cons (some columns) none before row a = absurd a
  Agree-cons (some columns) (some rows) before row a =
      subst (λ rs. Describes rs columns) (snoc-append before row rows) a

  Agree-step :
      (before : List Row) (row : Row) (next : Columns) (vs : Jsons)
      → Agree
          (flatten_elements separator next parent (length (before ++ row ∷ [])) vs)
          (rows_of separator parent vs)
          (before ++ row ∷ [])
      → Agree
          (flatten_elements separator next parent (length before + 1) vs)
          (rows_of separator parent vs >>= λ rows. some (row ∷ rows))
          before
  Agree-step before row next vs a = Agree-cons _ (rows_of separator parent vs) before row (
      subst
        (λ n.
          Agree (flatten_elements separator next parent n vs) (rows_of separator parent vs)
            (before ++ row ∷ []))
        (length-snoc before row) a)

  flatten_elements-Agree :
      (vs : Jsons) (before : List Row) (columns : Columns)
      → Describes before columns
      → Agree
          (flatten_elements separator columns parent (length before) vs)
          (rows_of separator parent vs)
          before
  unfolding flatten_elements rows_of
  flatten_elements-Agree empty before columns d =
      subst (λ rs. Describes rs columns) (sym (append-nil before)) d
  flatten_elements-Agree (item (object ms) vs) before columns d =
      elim (Option-cases (flatten_object separator [] (some parent) ms)) [
        | inl failed ↦ rw failed tt
        | inr (fields, e) ↦
            let flat : IsFlatMap fields =
              subst (λ o. Ends o IsFlatMap) e
                (flatten_object-Ends separator ms [] (some parent) (tt, tt)) in
            rw e (
              Agree-step before fields _ vs (
                flatten_elements-Agree vs (before ++ fields ∷ []) _
                  (object-Describes before columns fields flat.1 d)))
      ]
  flatten_elements-Agree (item null vs) before columns d =
      Agree-step before [] _ vs
        (flatten_elements-Agree vs (before ++ [] ∷ []) _ (null-Describes before columns d))
  flatten_elements-Agree (item (bool b) vs) before columns d = tt
  flatten_elements-Agree (item (number b n) vs) before columns d = tt
  flatten_elements-Agree (item (string s) vs) before columns d = tt
  flatten_elements-Agree (item (array us) vs) before columns d = tt

-- The loop of `flatten_array_objects` fails exactly where an element is neither an object that
-- flattens nor null. Otherwise a key has a column exactly if some row has the key, and the column
-- has one value for each row, in order: the row's, or null where it has none.
pub flatten_elements_lem :
    (separator parent : String) (vs : Jsons)
    → (rows_of separator parent vs ≡ none → flatten_elements separator [] parent 0 vs ≡ none)
      × ((rows : List (Dict String Json))
          → rows_of separator parent vs ≡ some rows
          → (columns : Columns) × (flatten_elements separator [] parent 0 vs ≡ some columns)
            × ((key : String) → get columns key ≡ column_of key rows))
flatten_elements_lem separator parent vs =
    agreement _ _ (flatten_elements-Agree separator parent vs [] [] get-empty)
  where
    agreement :
        (o : Option Columns) (r : Option (List Row))
        → Agree separator parent o r []
        → (r ≡ none → o ≡ none)
          × ((rows : List Row)
              → r ≡ some rows
              → (columns : Columns) × (o ≡ some columns)
                × ((key : String) → get columns key ≡ column_of key rows))
    agreement none none a = (λ e. refl, λ rows e. absurd cc)
    agreement none (some rows) a = absurd a
    agreement (some columns) none a = absurd a
    agreement (some columns) (some rows) a = (
      λ e. absurd cc,
      λ others e.
          let eq : rows ≡ others = cc in (columns, refl, subst (λ rs. Describes rs columns) eq a),
    )
