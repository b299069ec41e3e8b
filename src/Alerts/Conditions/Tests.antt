-- ===== src/Alerts/Conditions/Tests.antt =====
-- Runs of the text of conditions, and the theorem at a value.
use parseable.Prelude.{
  ℕ, ◌≡◌, refl, Bool, Option, none, some, List, [], ◌∷◌, ◌++◌, String, eqb, map,
}
use parseable.Results.{Result, ok}
use parseable.Validator.{chars}
use parseable.Alerts.Conditions
use parseable.Alerts.Conditions.{
  ConditionConfig, WhereConfigOperator, and, is_null, contains, begins_with, replace, escape_like,
  string_literal, like_literal, like, formatted, operator_and_value, scalar_condition_expr,
}
use parseable.Alerts.Conditions.Filter.{
  trim_start, trim_end, inner_value, list_condition_expr, condition_to_expr, join_exprs,
  get_filter_string,
}
use parseable.Alerts.Conditions.Reading.{character, goes_on, read_literal, read_like}
use parseable.Alerts.Conditions.Literals.{any_if, literals_read_back}

conditions : Unit {0}
unfolding get_filter_string join_exprs condition_to_expr list_condition_expr inner_value trim_start
    trim_end scalar_condition_expr operator_and_value formatted like like_literal string_literal
    escape_like replace
conditions = tt

abbrev no_number : List ℕ → Option (List ℕ)
no_number cs = none

abbrev is_space : ℕ → Bool
is_space c = eqb c 32

abbrev filter_of : ConditionConfig → Result (List ℕ) (List ℕ)
unfolding get_filter_string
filter_of c =
    get_filter_string no_number is_space
      (record { operator = some and; condition_config = c ∷ c ∷ [] })

abbrev host : WhereConfigOperator → String → Option String → ConditionConfig
host op v t = record {
  column = chars "host";
  operator = op;
  value = some (chars v);
  column_type = elim t [ none ↦ none | some n ↦ some (chars n) ];
}

filters :
    (filter_of (host begins_with "a_b" none)
      ≡ ok (chars "\"host\" LIKE 'a\\_b%' ESCAPE '\\' AND \"host\" LIKE 'a\\_b%' ESCAPE '\\'"))
    × (filter_of (host Conditions.equal "o'k" (some "text"))
        ≡ ok (chars "\"host\" = 'o''k' AND \"host\" = 'o''k'"))
    × (filter_of (host contains " [1, 2]" (some "list"))
        ≡ ok
            (chars "array_has_all(\"host\", ARRAY[1, 2]) AND array_has_all(\"host\", ARRAY[1, 2])"))
unfolding conditions
filters = (refl, refl, refl)

-- The name of a column and the value for a list are not quoted.
abbrev injected : ConditionConfig
injected = record {
  column = chars "a\" = 1 OR \"a";
  operator = is_null;
  value = none;
  column_type = none;
}

column_injects :
    condition_to_expr no_number is_space injected ≡ ok (chars "\"a\" = 1 OR \"a\" is null")
unfolding conditions
column_injects = refl

list_injects :
    condition_to_expr no_number is_space (host contains "[1]) OR (true" (some "list"))
    ≡ ok (chars "array_has_all(\"host\", ARRAY[[1]) OR (true])")
unfolding conditions
list_injects = refl

literals_read_back_example :
    (read_literal (string_literal (chars "o'k%") ++ chars " AND")
      ≡ some (chars "o'k%", chars " AND"))
    × ((before after : Bool)
        → read_like (like_literal before after (chars "o'k%") ++ chars " AND")
          ≡ some (
            some (any_if before ++ (map character (chars "o'k%") ++ any_if after)),
            chars " AND",
          ))
literals_read_back_example = literals_read_back (chars "o'k%") (chars " AND") (goes_on refl)
