-- ===== src/Query/Pruning/Soundness.antt =====
-- query/stream_schema_provider.rs: a file that a filter rules out has no row that the filter accepts.
use parseable.Prelude.{
  ◌^◌, ◌<◌, ◌≡◌, refl, sym, ap, Bool, true, false, ◌&&◌, Option, none, some, List, String, ◌>>=◌,
  Option-cases, inl, inr, lt→ltb,
}
use parseable.Order.{Ordered, pos, ordered_bool, ordered_int, ordered_text}
use parseable.Catalog.Column.{
  TypedStatistics, bool, int, float, string, Bounds, Column, Value, bool_value, int_value,
  float_value, string_value, IsWithin, Encloses,
}
use parseable.Query.Pruning.{
  Operator, eq, is_not_distinct_from, lt, lt_eq, gt, gt_eq, other_operator, ScalarValue, null,
  boolean, float32, float64, int8, int16, int32, int64, date32, timestamp_millisecond, uint8,
  uint16, uint32, uint64, utf8, other_scalar, Expr, column, literal, binary, other_expr, as_i64,
  unless_false, or_false, cast_or_none, matches, satisfy_constraints, find_column,
  find_matching_column, extract_op_scalar, can_be_pruned,
}

both : {a b : Bool} → a ≡ true → b ≡ true → (a && b) ≡ true
both p q = rw (p, q) refl

module _ {ℓ} {T : Type ℓ} ⦃o : Ordered T⦄ where
  -- `x op v` in SQL; an operator that is not a comparison is open.
  abbrev pub Meets : Operator → T → T → Type 0
  Meets eq x v = (o.le x v ≡ true) × (o.le v x ≡ true)
  Meets is_not_distinct_from x v = (o.le x v ≡ true) × (o.le v x ≡ true)
  Meets lt x v = o.lt x v ≡ true
  Meets lt_eq x v = o.le x v ≡ true
  Meets gt x v = o.lt v x ≡ true
  Meets gt_eq x v = o.le v x ≡ true
  Meets other_operator x v = Unit

  matches_sound :
      (op : Operator) (x v : T) (b : Bounds T)
      → IsWithin x b
      → Meets op x v
      → unless_false (matches v b.min b.max op) ≡ true
  unfolding matches
  matches_sound eq x v b (from, to) (up, down) =
      both (o.le_trans b.min x v from up) (o.le_trans v x b.max down to)
  matches_sound is_not_distinct_from x v b (from, to) (up, down) =
      both (o.le_trans b.min x v from up) (o.le_trans v x b.max down to)
  matches_sound lt x v b (from, to) h = o.le-lt_trans b.min x v from h
  matches_sound lt_eq x v b (from, to) h = o.le_trans b.min x v from h
  matches_sound gt x v b (from, to) h = o.lt-le_trans v x b.max h to
  matches_sound gt_eq x v b (from, to) h = o.le_trans v x b.max h to
  matches_sound other_operator x v b w h = refl

module _ {F : Type 0} ⦃f64 : Ordered F⦄ where
  -- `x op v` on values of one type; a comparison of two types is open.
  abbrev pub Satisfies : Operator → Value F → Value F → Type 0
  Satisfies op (bool_value x) (bool_value v) = Meets op x v
  Satisfies op (int_value x) (int_value v) = Meets op x v
  Satisfies op (float_value x) (float_value v) = Meets op x v
  Satisfies op (string_value x) (string_value v) = Meets op x v
  Satisfies op _ _ = Unit

  satisfy_constraints_sound :
      (op : Operator) (x v : Value F) (stats : TypedStatistics F)
      → Encloses stats x
      → Satisfies op x v
      → unless_false (satisfy_constraints v op stats) ≡ true
  unfolding satisfy_constraints
  satisfy_constraints_sound op (bool_value x) (bool_value v) (bool b) w h =
      matches_sound op x v b w h
  satisfy_constraints_sound op (int_value x) (int_value v) (int b) w h = matches_sound op x v b w h
  satisfy_constraints_sound op (float_value x) (float_value v) (float b) w h =
      matches_sound op x v b w h
  satisfy_constraints_sound op (string_value x) (string_value v) (string b) w h =
      matches_sound op x v b w h
  satisfy_constraints_sound op x (int_value v) (bool b) w h = refl
  satisfy_constraints_sound op x (float_value v) (bool b) w h = refl
  satisfy_constraints_sound op x (string_value v) (bool b) w h = refl
  satisfy_constraints_sound op (int_value x) (bool_value v) (bool b) w h = absurd w
  satisfy_constraints_sound op (float_value x) (bool_value v) (bool b) w h = absurd w
  satisfy_constraints_sound op (string_value x) (bool_value v) (bool b) w h = absurd w
  satisfy_constraints_sound op x (bool_value v) (int b) w h = refl
  satisfy_constraints_sound op x (float_value v) (int b) w h = refl
  satisfy_constraints_sound op x (string_value v) (int b) w h = refl
  satisfy_constraints_sound op (bool_value x) (int_value v) (int b) w h = absurd w
  satisfy_constraints_sound op (float_value x) (int_value v) (int b) w h = absurd w
  satisfy_constraints_sound op (string_value x) (int_value v) (int b) w h = absurd w
  satisfy_constraints_sound op x (bool_value v) (float b) w h = refl
  satisfy_constraints_sound op x (int_value v) (float b) w h = refl
  satisfy_constraints_sound op x (string_value v) (float b) w h = refl
  satisfy_constraints_sound op (bool_value x) (float_value v) (float b) w h = absurd w
  satisfy_constraints_sound op (int_value x) (float_value v) (float b) w h = absurd w
  satisfy_constraints_sound op (string_value x) (float_value v) (float b) w h = absurd w
  satisfy_constraints_sound op x (bool_value v) (string b) w h = refl
  satisfy_constraints_sound op x (int_value v) (string b) w h = refl
  satisfy_constraints_sound op x (float_value v) (string b) w h = refl
  satisfy_constraints_sound op (bool_value x) (string_value v) (string b) w h = absurd w
  satisfy_constraints_sound op (int_value x) (string_value v) (string b) w h = absurd w
  satisfy_constraints_sound op (float_value x) (string_value v) (string b) w h = absurd w

module _ {F F32 : Type 0} ⦃f64 : Ordered F⦄ (widen : F32 → F) where
  -- The value that a literal stands for.
  abbrev pub Denotes : ScalarValue F F32 → Value F → Type 0
  Denotes (boolean (some b)) v = v ≡ bool_value b
  Denotes (float32 (some f)) v = v ≡ float_value (widen f)
  Denotes (float64 (some f)) v = v ≡ float_value f
  Denotes (int8 (some n)) v = v ≡ int_value n
  Denotes (int16 (some n)) v = v ≡ int_value n
  Denotes (int32 (some n)) v = v ≡ int_value n
  Denotes (int64 (some n)) v = v ≡ int_value n
  Denotes (date32 (some n)) v = v ≡ int_value n
  Denotes (timestamp_millisecond (some n)) v = v ≡ int_value n
  Denotes (uint8 (some n)) v = v ≡ int_value (pos n)
  Denotes (uint16 (some n)) v = v ≡ int_value (pos n)
  Denotes (uint32 (some n)) v = v ≡ int_value (pos n)
  Denotes (uint64 (some n)) v = v ≡ int_value (pos n)
  Denotes (utf8 (some s)) v = v ≡ string_value s
  Denotes other v = ⊥

  -- A literal that `as i64` does not wrap around, and a filter with no other.
  abbrev pub IsInRange : ScalarValue F F32 → Type 0
  IsInRange (uint64 (some n)) = n < 2 ^ 63
  IsInRange s = Unit

  abbrev pub HasLiteralInRange : Expr F F32 → Type 0
  HasLiteralInRange (binary left op (literal s m)) = IsInRange s
  HasLiteralInRange e = Unit

  cast_or_none_lem :
      (s : ScalarValue F F32) (v : Value F)
      → IsInRange s
      → Denotes s v
      → cast_or_none widen s ≡ some v
  unfolding cast_or_none as_i64
  cast_or_none_lem (boolean (some a)) v r d = ap some (sym d)
  cast_or_none_lem (boolean none) v r d = absurd d
  cast_or_none_lem (float32 (some a)) v r d = ap some (sym d)
  cast_or_none_lem (float32 none) v r d = absurd d
  cast_or_none_lem (float64 (some a)) v r d = ap some (sym d)
  cast_or_none_lem (float64 none) v r d = absurd d
  cast_or_none_lem (int8 (some a)) v r d = ap some (sym d)
  cast_or_none_lem (int8 none) v r d = absurd d
  cast_or_none_lem (int16 (some a)) v r d = ap some (sym d)
  cast_or_none_lem (int16 none) v r d = absurd d
  cast_or_none_lem (int32 (some a)) v r d = ap some (sym d)
  cast_or_none_lem (int32 none) v r d = absurd d
  cast_or_none_lem (int64 (some a)) v r d = ap some (sym d)
  cast_or_none_lem (int64 none) v r d = absurd d
  cast_or_none_lem (date32 (some a)) v r d = ap some (sym d)
  cast_or_none_lem (date32 none) v r d = absurd d
  cast_or_none_lem (timestamp_millisecond (some a)) v r d = ap some (sym d)
  cast_or_none_lem (timestamp_millisecond none) v r d = absurd d
  cast_or_none_lem (uint8 (some a)) v r d = ap some (sym d)
  cast_or_none_lem (uint8 none) v r d = absurd d
  cast_or_none_lem (uint16 (some a)) v r d = ap some (sym d)
  cast_or_none_lem (uint16 none) v r d = absurd d
  cast_or_none_lem (uint32 (some a)) v r d = ap some (sym d)
  cast_or_none_lem (uint32 none) v r d = absurd d
  cast_or_none_lem (utf8 (some a)) v r d = ap some (sym d)
  cast_or_none_lem (utf8 none) v r d = absurd d
  cast_or_none_lem (uint64 (some n)) v small d = rw (lt→ltb n (2 ^ 63) small) (ap some (sym d))
  cast_or_none_lem (uint64 none) v r d = absurd d
  cast_or_none_lem null v r d = absurd d
  cast_or_none_lem other_scalar v r d = absurd d

  -- A row has a value for a column, or null.
  abbrev pub Row : Type 0
  Row = String → Option (Value F)

  -- The statistics of a file enclose the values of a row.
  abbrev pub Describes : List (Column F) → Row → Type 0
  Describes columns row =
      (name : String) (col : Column F) (stats : TypedStatistics F) (x : Value F)
      → find_column name columns ≡ some col
      → col.stats ≡ some stats
      → row name ≡ some x
      → Encloses stats x

  -- A comparison of a column with a literal accepts a row whose value satisfies it; the other
  -- filters are open.
  abbrev pub Accepts : Expr F F32 → Row → Type 0
  Accepts (binary (column name) op (literal s false)) row =
      (x : Value F) × (row name ≡ some x) × (v : Value F) × Denotes s v × Satisfies op x v
  Accepts e row = Unit

  module _ (columns : List (Column F)) (row : Row) (describes : Describes columns row) where
    unsatisfied :
        (name : String) (op : Operator) (s : ScalarValue F F32)
        → IsInRange s
        → Accepts (binary (column name) op (literal s false)) row
        → can_be_pruned widen columns (binary (column name) op (literal s false)) ≡ false
    unfolding can_be_pruned find_matching_column extract_op_scalar
    unsatisfied name op s range (x, has, v, denotes, sat) =
        elim (Option-cases (find_column name columns)) [
          | inl absent ↦ rw absent refl
          | inr (col, found) ↦ elim (Option-cases col.stats) [
            | inl no_stats ↦ rw (found, cast_or_none_lem s v range denotes, no_stats) refl
            | inr (stats, has_stats) ↦
                rw
                  (
                    found,
                    cast_or_none_lem s v range denotes,
                    has_stats,
                    satisfy_constraints_sound op x v stats
                        (describes name col stats x found has_stats has) sat,
                  )
                  refl
          ]
        ]

  nothing_cast : {A : Type 0} (o : Option A) → or_false (o >>= λ a. none) ≡ false
  nothing_cast none = refl
  nothing_cast (some a) = refl

  -- A file whose statistics enclose the values of a row that a filter accepts is not ruled out by
  -- that filter, unless the literal of the filter is a `u64` of 2 ^ 63 or more, which `as i64` makes
  -- negative.
  pub can_be_pruned_sound :
      (columns : List (Column F)) (row : Row) (e : Expr F F32)
      → Describes columns row
      → HasLiteralInRange e
      → Accepts e row
      → can_be_pruned widen columns e ≡ false
  unfolding can_be_pruned find_matching_column extract_op_scalar
  can_be_pruned_sound columns row (binary (column name) op (literal s false)) d r a =
      unsatisfied columns row d name op s r a
  can_be_pruned_sound columns row (binary (column name) op (literal s true)) d r a =
      nothing_cast (find_column name columns)
  can_be_pruned_sound columns row (binary (column name) op (column other)) d r a =
      nothing_cast (find_column name columns)
  can_be_pruned_sound columns row (binary (column name) op (binary l o k)) d r a =
      nothing_cast (find_column name columns)
  can_be_pruned_sound columns row (binary (column name) op other_expr) d r a =
      nothing_cast (find_column name columns)
  can_be_pruned_sound columns row (binary (literal s m) op right) d r a = refl
  can_be_pruned_sound columns row (binary (binary l o k) op right) d r a = refl
  can_be_pruned_sound columns row (binary other_expr op right) d r a = refl
  can_be_pruned_sound columns row (column name) d r a = refl
  can_be_pruned_sound columns row (literal s m) d r a = refl
  can_be_pruned_sound columns row other_expr d r a = refl
