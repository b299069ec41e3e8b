-- ===== src/Json/Columns.antt =====
-- utils/json/flatten.rs, `flatten_array_objects`: the columns of an array, against a description
-- by rows.
use parseable.Prelude.{
  ℕ, zero, suc, ◌≡◌, refl, sym, ap, ◌∙◌, subst, Bool, true, false, false≢true, ◌||◌, Option, none,
  some, List, [], ◌∷◌, ◌++◌, String, ◌==◌, string_eq, ==_iff, ltb, length, length-append, map, any,
  if◌then◌else◌, ◌>>=◌, Bool-cases, Option-cases, lt→ltb, ltb→lt, inl, inr, arith,
}
use parseable.Dict.{Dict, get, insert, get-insert}
use parseable.Json.{
  Json, null, object, Jsons, empty, item, nulls, Columns, or_nulls, push_fields, push_nulls, extend,
  extend_all, flatten_object,
}
use parseable.Json.Shape.{HasKeysOnce}

abbrev pub Row : Type 0
Row = Dict String Json

abbrev pub is_some {ℓ} : {A : Type ℓ} → Option A → Bool
is_some none = false
is_some (some a) = true

abbrev pub or_null : Option Json → Json
or_null none = null
or_null (some v) = v

-- The value of a row under a key, or null.
abbrev pub value_at : String → Row → Json
value_at key row = or_null (get row key)

abbrev pub has_key : String → Row → Bool
has_key key row = is_some (get row key)

-- The column of a key: a value for each row, if some row has the key.
abbrev pub column_of : String → List Row → Option (List Json)
column_of key rows = if any (has_key key) rows then some (map (value_at key) rows) else none

-- The rows of an array: the fields of an object, none of a null.
unfoldable pub rows_of : String → String → Jsons → Option (List Row)
rows_of separator parent empty = some []
rows_of separator parent (item (object ms) vs) = do
  fields ← flatten_object separator [] (some parent) ms
  rows ← rows_of separator parent vs
  some (fields ∷ rows)
rows_of separator parent (item null vs) = do rows ← rows_of separator parent vs; some ([] ∷ rows)
rows_of separator parent (item _ vs) = none

pub length-nulls : (n : ℕ) → length (nulls n) ≡ n
length-nulls zero = refl
length-nulls (suc n) = ap suc (length-nulls n)

pub length-map : (key : String) (rows : List Row) → length (map (value_at key) rows) ≡ length rows
length-map key [] = refl
length-map key (r ∷ rows) = ap suc (length-map key rows)

pub map-append :
    (key : String) (rows : List Row) (row : Row)
    → map (value_at key) (rows ++ row ∷ []) ≡ map (value_at key) rows ++ value_at key row ∷ []
map-append key [] row = refl
map-append key (r ∷ rows) row = ap (λ xs. value_at key r ∷ xs) (map-append key rows row)

-- Where no row has the key, its values are nulls.
pub map-nulls :
    (key : String) (rows : List Row)
    → any (has_key key) rows ≡ false
    → map (value_at key) rows ≡ nulls (length rows)
map-nulls key [] e = refl
map-nulls key (r ∷ rows) e = elim (Option-cases (get r key)) [
  | inl absent ↦
      let rest = subst (λ o. (is_some o || any (has_key key) rows) ≡ false) absent e in
      rw absent (ap (λ xs. null ∷ xs) (map-nulls key rows rest))
  | inr (v, found) ↦
      let has : true ≡ false = subst (λ o. (is_some o || any (has_key key) rows) ≡ false) found e in
      absurd (false≢true (sym has))
]

-- What is pushed to a column for a row.
abbrev pub pushed : ℕ → Option (List Json) → Option Json → Option (List Json)
pushed index column none = column
pushed index column (some v) = some (or_nulls index column ++ v ∷ [])

pub get-push_fields :
    (index : ℕ) (fields : Row) (columns : Columns) (key : String)
    → HasKeysOnce fields
    → get (push_fields index columns fields) key ≡ pushed index (get columns key) (get fields key)
unfolding push_fields get
get-push_fields index [] columns key u = refl
get-push_fields index ((k, v) ∷ fields) columns key (absent, u) =
    let w = or_nulls index (get columns k) ++ v ∷ [] in
    let rest = get-push_fields index fields (insert columns k w) key u in
    elim (Bool-cases (k == key)) [
      | inl same ↦
          let eq : k ≡ key = (==_iff k key).0 same in
          let no_more : get fields key ≡ none = ap (get fields) (sym eq) ∙ absent in
          rw (rest, no_more, get-insert columns k key w, same)
            (ap (λ j. some (or_nulls index (get columns j) ++ v ∷ [])) eq)
      | inr differ ↦ rw (rest, get-insert columns k key w, differ) refl
    ]

abbrev pub map_option {ℓ κ} : {A : Type ℓ} {B : Type κ} → (A → B) → Option A → Option B
map_option f none = none
map_option f (some a) = some (f a)

pub get-push_nulls :
    (columns : Columns) (key : String)
    → get (push_nulls columns) key ≡ map_option (λ c. c ++ null ∷ []) (get columns key)
unfolding push_nulls get
get-push_nulls [] key = refl
get-push_nulls ((k, c) ∷ columns) key = elim (Bool-cases (k == key)) [
  | inl same ↦ rw same refl
  | inr differ ↦ rw differ (get-push_nulls columns key)
]

pub get-extend_all :
    (n : ℕ) (columns : Columns) (key : String)
    → get (extend_all n columns) key ≡ map_option (extend n n) (get columns key)
unfolding extend_all get
get-extend_all n [] key = refl
get-extend_all n ((k, c) ∷ columns) key = elim (Bool-cases (k == key)) [
  | inl same ↦ rw same refl
  | inr differ ↦ rw differ (get-extend_all n columns key)
]

pub extend_full :
    (rounds max_len : ℕ) (column : List Json)
    → length column ≡ max_len
    → extend rounds max_len column ≡ column
unfolding extend
extend_full zero max_len column e = refl
extend_full (suc rounds) max_len column e = elim (Bool-cases (ltb (length column) max_len)) [
  | inl short ↦ absurd (omega (arith, ltb→lt (length column) max_len short))
  | inr full ↦ rw full refl
]

pub extend_short :
    (n : ℕ) (column : List Json)
    → length column ≡ n
    → extend (suc n) (suc n) column ≡ column ++ null ∷ []
unfolding extend
extend_short n column e =
    rw (lt→ltb (length column) (suc n) (omega arith)) (
      extend_full n (suc n) (column ++ null ∷ []) (omega (arith, length-append column (null ∷ []))))
