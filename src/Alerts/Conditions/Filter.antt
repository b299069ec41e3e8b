-- ===== src/Alerts/Conditions/Filter.antt =====
-- alerts/alerts_utils.rs: the conditions on lists, and all conditions of a filter.
use parseable.Prelude.{ℕ, Bool, false, Option, none, some, List, [], ◌∷◌, ◌++◌, if◌then◌else◌, eqb}
use parseable.Validator.{chars}
use parseable.Results.{Result, ok, err, ◌>>=◌}
use parseable.Alerts.Conditions.{
  and, or, WhereConfigOperator, equal, not_equal, is_null, is_not_null, contains, does_not_contain,
  ConditionConfig, Conditions, as_str, quoted, starts_with, scalar_condition_expr,
}

-- `str::trim`, `strip_prefix` and `strip_suffix` of brackets
module _ (is_whitespace : ℕ → Bool) where
  unfoldable pub trim_start : List ℕ → List ℕ
  trim_start [] = []
  trim_start (c ∷ cs) = let rest = trim_start cs in if is_whitespace c then rest else c ∷ cs

  unfoldable pub trim_end : List ℕ → List ℕ
  trim_end [] = []
  trim_end (c ∷ cs) = elim (trim_end cs) [
    | [] ↦ if is_whitespace c then [] else c ∷ []
    | d ∷ ds ↦ c ∷ d ∷ ds
  ]

  abbrev strip_suffix : List ℕ → Option (List ℕ)
  strip_suffix [] = none
  strip_suffix (c ∷ cs) = elim cs [
    | [] ↦ if eqb c 93 then some [] else none
    | d ∷ ds ↦ elim (strip_suffix cs) [ none ↦ none | some ts ↦ some (c ∷ ts) ]
  ]

  abbrev strip_brackets : List ℕ → Option (List ℕ)
  strip_brackets [] = none
  strip_brackets (c ∷ cs) = let rest = strip_suffix cs in if eqb c 91 then rest else none

  unfoldable pub inner_value : List ℕ → List ℕ
  unfolding trim_start trim_end
  inner_value value = elim (strip_brackets (trim_end (trim_start value))) [
    | none ↦ value
    | some inner ↦ inner
  ]

  unfoldable pub list_condition_expr :
      List ℕ → WhereConfigOperator → List ℕ → Result (List ℕ) (List ℕ)
  unfolding inner_value
  list_condition_expr column operator value =
      let array = chars "ARRAY[" ++ inner_value value ++ chars "]" in
      let unsupported : Result (List ℕ) (List ℕ) = err (
        chars "Operator '"
        ++ as_str operator
        ++ chars "' is not supported for list type columns") in
      elim operator [
        | contains ↦
            ok (chars "array_has_all(" ++ quoted column ++ chars ", " ++ array ++ chars ")")
        | does_not_contain ↦
            ok (chars "NOT array_has_all(" ++ quoted column ++ chars ", " ++ array ++ chars ")")
        | equal ↦ ok (quoted column ++ chars " = " ++ array)
        | not_equal ↦ ok (quoted column ++ chars " != " ++ array)
        | _ ↦ unsupported
      ]

module _ (format_f64 : List ℕ → Option (List ℕ)) (is_whitespace : ℕ → Bool) where
  abbrev value_of : ConditionConfig → List ℕ
  value_of condition = elim condition.value [ none ↦ [] | some v ↦ v ]

  abbrev null_test : ConditionConfig → Result (List ℕ) (List ℕ)
  null_test condition = elim (value_of condition) [
    | [] ↦ ok (quoted condition.column ++ chars " " ++ as_str condition.operator)
    | c ∷ cs ↦ err (chars "value must be null when operator is either `is null` or `is not null`")
  ]

  abbrev is_list_type : Option (List ℕ) → Bool
  is_list_type none = false
  is_list_type (some t) = starts_with t (chars "list")

  unfoldable pub condition_to_expr : ConditionConfig → Result (List ℕ) (List ℕ)
  unfolding list_condition_expr scalar_condition_expr
  condition_to_expr condition =
      let other =
        if is_list_type condition.column_type
        then list_condition_expr is_whitespace condition.column condition.operator
            (value_of condition)
        else scalar_condition_expr format_f64 condition.column condition.operator
            (value_of condition) condition.column_type in
      elim condition.operator [
        | is_null ↦ null_test condition
        | is_not_null ↦ null_test condition
        | _ ↦ other
      ]

  -- The conditions that are left, joined with " AND ".
  unfoldable pub join_exprs : List ConditionConfig → Result (List ℕ) (List ℕ)
  unfolding condition_to_expr
  join_exprs [] = ok []
  join_exprs (condition ∷ more) = do
    expr ← condition_to_expr condition
    rest ← join_exprs more
    ok (elim more [ [] ↦ expr | c ∷ cs ↦ expr ++ chars " AND " ++ rest ])

  unfoldable pub get_filter_string : Conditions → Result (List ℕ) (List ℕ)
  unfolding join_exprs
  get_filter_string where_clause = elim where_clause.operator [
    | none ↦ err (chars "Invalid option 'null', only 'and' is supported")
    | some and ↦ join_exprs where_clause.condition_config
    | some or ↦ err (chars "Invalid option 'or', only 'and' is supported")
  ]
