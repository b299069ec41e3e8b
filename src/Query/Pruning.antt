-- ===== src/Query/Pruning.antt =====
-- query/stream_schema_provider.rs: which files a filter rules out by their statistics. The
-- expressions and scalars of DataFusion are those the source matches on; `other` stands for the
-- rest. `f64` and `f32` are parameters.
pub mod Soundness
use parseable.Prelude.{
  ℕ, ◌+◌, ◌-◌, ◌^◌, ◌<◌, ◌≡◌, refl, Bool, true, false, not, ◌&&◌, Option, none, some, List, [], ◌∷◌,
  String, ltb, if◌then◌else◌, Eq, ◌==◌, string_eq, ◌>>=◌,
}
use parseable.Order.{Ordered, ℤ, pos, negsuc, ordered_bool, ordered_int, ordered_text}
use parseable.Catalog.Column.{
  TypedStatistics, bool, int, float, string, Bounds, Column, Value, bool_value, int_value,
  float_value, string_value,
}

pub data Operator : Type 0 where
  eq is_not_distinct_from lt lt_eq gt gt_eq other_operator : Operator

module _ (F F32 : Type 0) where
  pub data ScalarValue : Type 0 where
    null : ScalarValue
    boolean : Option Bool → ScalarValue
    float32 : Option F32 → ScalarValue
    float64 : Option F → ScalarValue
    int8 int16 int32 int64 date32 timestamp_millisecond : Option ℤ → ScalarValue
    uint8 uint16 uint32 uint64 : Option ℕ → ScalarValue
    utf8 : Option String → ScalarValue
    other_scalar : ScalarValue

  -- `literal value has_metadata`: the metadata is only asked whether it is there.
  pub data Expr : Type 0 where
    column : (name : String) → Expr
    literal : ScalarValue → (has_metadata : Bool) → Expr
    binary : (left : Expr) → Operator → (right : Expr) → Expr
    other_expr : Expr

-- `val as i64` on `u64`: the numbers from 2 ^ 63 on are negative.
unfoldable pub as_i64 : ℕ → ℤ
as_i64 n = if ltb n (2 ^ 63) then pos n else negsuc (2 ^ 64 - 1 - n)

-- `unwrap_or(true)`
abbrev pub unless_false : Option Bool → Bool
unless_false none = true
unless_false (some b) = b

-- Where an early return is `false`.
abbrev pub or_false : Option Bool → Bool
or_false none = false
or_false (some b) = b

module _ {F F32 : Type 0} ⦃f64 : Ordered F⦄ (widen : F32 → F) where
  abbrev pub with {ℓ} : {A : Type ℓ} → (A → Value F) → Option A → Option (Value F)
  with f none = none
  with f (some a) = some (f a)

  -- A `CastRes` is a value of a column.
  unfoldable pub cast_or_none : ScalarValue F F32 → Option (Value F)
  unfolding as_i64
  cast_or_none null = none
  cast_or_none (boolean val) = with bool_value val
  cast_or_none (float32 val) = with (λ v. float_value (widen v)) val
  cast_or_none (float64 val) = with float_value val
  cast_or_none (int8 val) = with int_value val
  cast_or_none (int16 val) = with int_value val
  cast_or_none (int32 val) = with int_value val
  cast_or_none (int64 val) = with int_value val
  cast_or_none (uint8 val) = with (λ v. int_value (pos v)) val
  cast_or_none (uint16 val) = with (λ v. int_value (pos v)) val
  cast_or_none (uint32 val) = with (λ v. int_value (pos v)) val
  cast_or_none (uint64 val) = with (λ v. int_value (as_i64 v)) val
  cast_or_none (utf8 val) = with string_value val
  cast_or_none (date32 val) = with int_value val
  cast_or_none (timestamp_millisecond val) = with int_value val
  cast_or_none other_scalar = none

module _ {ℓ} {T : Type ℓ} ⦃o : Ordered T⦄ where
  -- `value > min` is `min < value`.
  unfoldable pub matches : T → T → T → Operator → Option Bool
  matches value min max eq = some (o.le min value && o.le value max)
  matches value min max is_not_distinct_from = some (o.le min value && o.le value max)
  matches value min max lt = some (o.lt min value)
  matches value min max lt_eq = some (o.le min value)
  matches value min max gt = some (o.lt value max)
  matches value min max gt_eq = some (o.le value max)
  matches value min max other_operator = none

module _ {F : Type 0} ⦃f64 : Ordered F⦄ where
  unfoldable pub satisfy_constraints : Value F → Operator → TypedStatistics F → Option Bool
  unfolding matches
  satisfy_constraints (bool_value val) op (bool stats) = matches val stats.min stats.max op
  satisfy_constraints (int_value val) op (int stats) = matches val stats.min stats.max op
  satisfy_constraints (float_value val) op (float stats) = matches val stats.min stats.max op
  satisfy_constraints (string_value val) op (string stats) = matches val stats.min stats.max op
  satisfy_constraints _ op _ = none

module _ {F : Type 0} where
  abbrev pub find_column : String → List (Column F) → Option (Column F)
  find_column name [] = none
  find_column name (col ∷ cols) = if col.name == name then some col else find_column name cols

module _ {F F32 : Type 0} where
  unfoldable pub find_matching_column : List (Column F) → Expr F F32 → Option (Column F)
  find_matching_column columns (binary (column name) op right) = find_column name columns
  find_matching_column columns _ = none

  unfoldable pub extract_op_scalar : Expr F F32 → Option (Operator × ScalarValue F F32)
  extract_op_scalar (binary left op (literal value false)) = some (op, value)
  extract_op_scalar _ = none

module _ {F F32 : Type 0} ⦃f64 : Ordered F⦄ (widen : F32 → F) where
  -- `none` is an early return of `false`.
  abbrev pub pruned_by : List (Column F) → Expr F F32 → Option Bool
  pruned_by columns e = do
    col ← find_matching_column columns e
    op_value ← extract_op_scalar e
    value ← cast_or_none widen op_value.1
    stats ← col.stats
    some (not (unless_false (satisfy_constraints value op_value.0 stats)))

  unfoldable pub can_be_pruned : List (Column F) → Expr F F32 → Bool
  unfolding find_matching_column extract_op_scalar cast_or_none satisfy_constraints
  can_be_pruned columns e = or_false (pruned_by columns e)
