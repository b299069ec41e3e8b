-- ===== src/Alerts/Conditions.antt =====
-- alerts/alerts_utils.rs: `get_filter_string`, the SQL text of the conditions of a filter. A text is
-- its characters. `format_f64` is the parsing to an `f64` and its printing.
pub mod Filter
pub mod Reading
pub mod Literals
mod Tests
use parseable.Prelude.{
  ℕ, Bool, true, false, ◌||◌, Option, none, some, List, [], ◌∷◌, ◌++◌, String, if◌then◌else◌, eqb,
  concat_map,
}
use parseable.Validator.{chars}
use parseable.Results.{Result, ok, err, ◌>>=◌}

pub data LogicalOperator : Type 0 where
  and or : LogicalOperator

pub data WhereConfigOperator : Type 0 where
  equal not_equal less_than greater_than less_than_or_equal greater_than_or_equal :
      WhereConfigOperator
  is_null is_not_null ilike contains begins_with ends_with : WhereConfigOperator
  does_not_contain does_not_begin_with does_not_end_with : WhereConfigOperator

pub record ConditionConfig : Type 0 where
  pub column : List ℕ
  pub operator : WhereConfigOperator
  pub value : Option (List ℕ)
  pub column_type : Option (List ℕ)

pub record Conditions : Type 0 where
  pub operator : Option LogicalOperator
  pub condition_config : List ConditionConfig

-- `WhereConfigOperator::as_str`
abbrev pub as_str : WhereConfigOperator → List ℕ
as_str equal = chars "="
as_str not_equal = chars "!="
as_str less_than = chars "<"
as_str greater_than = chars ">"
as_str less_than_or_equal = chars "<="
as_str greater_than_or_equal = chars ">="
as_str is_null = chars "is null"
as_str is_not_null = chars "is not null"
as_str ilike = chars "ilike"
as_str contains = chars "contains"
as_str begins_with = chars "begins with"
as_str ends_with = chars "ends with"
as_str does_not_contain = chars "does not contain"
as_str does_not_begin_with = chars "does not begin with"
as_str does_not_end_with = chars "does not end with"

-- The characters `'`, `%`, `_` and `\`.
abbrev pub quote : ℕ
quote = 39

abbrev pub percent : ℕ
percent = 37

abbrev pub underscore : ℕ
underscore = 95

abbrev pub backslash : ℕ
backslash = 92

-- `str::replace` of a character
unfoldable pub replace : ℕ → List ℕ → List ℕ → List ℕ
replace from to [] = []
replace from to (c ∷ cs) = (if eqb c from then to else c ∷ []) ++ replace from to cs

unfoldable pub escape_like : List ℕ → List ℕ
unfolding replace
escape_like value = replace underscore (backslash ∷ underscore ∷ []) (
    replace percent (backslash ∷ percent ∷ [])
      (replace quote (quote ∷ quote ∷ []) (replace backslash (backslash ∷ backslash ∷ []) value)))

-- `'..'` with the quotes of the value doubled
unfoldable pub string_literal : List ℕ → List ℕ
unfolding replace
string_literal value = quote ∷ replace quote (quote ∷ quote ∷ []) value ++ quote ∷ []

-- `'%..%'`, where each `%` is there or not
unfoldable pub like_literal : (before after : Bool) → List ℕ → List ℕ
unfolding escape_like
like_literal before after value =
    quote ∷ (if before then percent ∷ [] else [])
    ++ escape_like value
    ++ (if after then percent ∷ [] else [])
    ++ quote ∷ []

unfoldable pub like : String → (before after : Bool) → List ℕ → List ℕ
unfolding like_literal
like keyword before after value =
    chars keyword ++ like_literal before after value ++ chars " ESCAPE '\\'"

abbrev pub eq_text : List ℕ → List ℕ → Bool
eq_text [] [] = true
eq_text (c ∷ cs) (d ∷ ds) = let rest = eq_text cs ds in if eqb c d then rest else false
eq_text _ _ = false

-- `str::starts_with`
abbrev pub starts_with : List ℕ → List ℕ → Bool
starts_with cs [] = true
starts_with [] (d ∷ ds) = false
starts_with (c ∷ cs) (d ∷ ds) = let rest = starts_with cs ds in if eqb c d then rest else false

abbrev parse_bool : List ℕ → Bool
parse_bool value = eq_text value (chars "true") || eq_text value (chars "false")

abbrev pub quoted : List ℕ → List ℕ
quoted column = 34 ∷ column ++ 34 ∷ []

module _ (format_f64 : List ℕ → Option (List ℕ)) where
  abbrev number_or : Result (List ℕ) (List ℕ) → List ℕ → Result (List ℕ) (List ℕ)
  number_or other value = elim (format_f64 value) [ none ↦ other | some n ↦ ok n ]

  -- The value where the operator is no pattern: by the type of its column, or by what it parses to.
  unfoldable pub formatted : Option (List ℕ) → List ℕ → Result (List ℕ) (List ℕ)
  unfolding string_literal
  formatted none value =
      number_or (ok (if parse_bool value then value else string_literal value)) value
  formatted (some t) value =
      if eq_text t (chars "bool") || eq_text t (chars "boolean")
      then (if parse_bool value then ok value else err (chars "Invalid boolean literal: " ++ value))
      else if eq_text t (chars "int") || eq_text t (chars "float") || eq_text t (chars "number")
      then number_or (err (chars "Invalid numeric literal: " ++ value)) value
      else ok (string_literal value)

  unfoldable pub operator_and_value :
      WhereConfigOperator → List ℕ → Option (List ℕ) → Result (List ℕ) (List ℕ)
  unfolding like formatted
  operator_and_value contains value t = ok (like "LIKE " true true value)
  operator_and_value does_not_contain value t = ok (like "NOT LIKE " true true value)
  operator_and_value ilike value t = ok (like "ILIKE " true true value)
  operator_and_value begins_with value t = ok (like "LIKE " false true value)
  operator_and_value does_not_begin_with value t = ok (like "NOT LIKE " false true value)
  operator_and_value ends_with value t = ok (like "LIKE " true false value)
  operator_and_value does_not_end_with value t = ok (like "NOT LIKE " true false value)
  operator_and_value operator value t = do
    text ← formatted t value
    ok (as_str operator ++ chars " " ++ text)

  unfoldable pub scalar_condition_expr :
      List ℕ → WhereConfigOperator → List ℕ → Option (List ℕ) → Result (List ℕ) (List ℕ)
  unfolding operator_and_value
  scalar_condition_expr column operator value t = do
    text ← operator_and_value operator value t
    ok (quoted column ++ chars " " ++ text)
