-- ===== src/Catalog/Column.antt =====
-- catalog/column.rs: the statistics of a column. `f64` is a parameter with an order that need not
-- compare a NaN.
use parseable.Prelude.{
  ℕ, ◌≡◌, ◌≢◌, refl, Bool, true, ◌⊎◌, inl, inr, arith, Option, none, some, String,
}
use parseable.Order.{Ordered, ℤ, ordered_bool, ordered_int, ordered_text}

-- `BoolType`, `Float64Type`, `Int64Type` and `Utf8Type`.
pub record Bounds {ℓ} (T : Type ℓ) : Type ℓ where
  pub min : T
  pub max : T

module _ (F : Type 0) where
  pub data TypedStatistics : Type 0 where
    bool : Bounds Bool → TypedStatistics
    int : Bounds ℤ → TypedStatistics
    float : Bounds F → TypedStatistics
    string : Bounds String → TypedStatistics

  pub record Column : Type 0 where
    pub name : String
    pub stats : Option TypedStatistics
    pub uncompressed_size : ℕ
    pub compressed_size : ℕ

  -- A value of a column.
  pub data Value : Type 0 where
    bool_value : Bool → Value
    int_value : ℤ → Value
    float_value : F → Value
    string_value : String → Value

module _ {ℓ} {T : Type ℓ} ⦃o : Ordered T⦄ where
  abbrev pub merge : Bounds T → Bounds T → Bounds T
  merge this other = record {
    min = o.smaller this.min other.min;
    max = o.larger this.max other.max;
  }

  -- A value between the bounds.
  abbrev pub IsWithin : T → Bounds T → Type 0
  IsWithin x b = (o.le b.min x ≡ true) × (o.le x b.max ≡ true)

  pub merge_left : (x : T) (a b : Bounds T) → IsWithin x a → IsWithin x (merge a b)
  merge_left x a b (from, to) = (o.smaller_left a.min b.min x from, o.larger_left a.max b.max x to)

  pub merge_right : (x : T) (a b : Bounds T) → IsWithin x b → IsWithin x (merge a b)
  merge_right x a b (from, to) =
      (o.smaller_right a.min b.min x from, o.larger_right a.max b.max x to)

module _ {F : Type 0} ⦃f64 : Ordered F⦄ where
  -- none is the panic on statistics of two types.
  unfoldable pub update : TypedStatistics F → TypedStatistics F → Option (TypedStatistics F)
  update (bool this) (bool other) = some (bool (merge this other))
  update (float this) (float other) = some (float (merge this other))
  update (int this) (int other) = some (int (merge this other))
  update (string this) (string other) = some (string (merge this other))
  update _ _ = none

  -- A value that statistics of its type enclose.
  abbrev pub Encloses : TypedStatistics F → Value F → Type 0
  Encloses (bool b) (bool_value x) = IsWithin x b
  Encloses (int b) (int_value x) = IsWithin x b
  Encloses (float b) (float_value x) = IsWithin x b
  Encloses (string b) (string_value x) = IsWithin x b
  Encloses _ _ = ⊥

  -- The type of statistics and of a value.
  abbrev pub kind : TypedStatistics F → ℕ
  kind (bool b) = 0
  kind (int b) = 1
  kind (float b) = 2
  kind (string b) = 3

  merged_bool :
      (a b : Bounds Bool) (x : Value F)
      → Encloses (bool a) x ⊎ Encloses (bool b) x
      → Encloses (bool (merge a b)) x
  merged_bool a b (bool_value x) (inl m) = merge_left x a b m
  merged_bool a b (bool_value x) (inr m) = merge_right x a b m
  merged_bool a b (int_value x) m = elim m [ inl n ↦ n | inr n ↦ n ]
  merged_bool a b (float_value x) m = elim m [ inl n ↦ n | inr n ↦ n ]
  merged_bool a b (string_value x) m = elim m [ inl n ↦ n | inr n ↦ n ]

  merged_int :
      (a b : Bounds ℤ) (x : Value F)
      → Encloses (int a) x ⊎ Encloses (int b) x
      → Encloses (int (merge a b)) x
  merged_int a b (bool_value x) m = elim m [ inl n ↦ n | inr n ↦ n ]
  merged_int a b (int_value x) (inl m) = merge_left x a b m
  merged_int a b (int_value x) (inr m) = merge_right x a b m
  merged_int a b (float_value x) m = elim m [ inl n ↦ n | inr n ↦ n ]
  merged_int a b (string_value x) m = elim m [ inl n ↦ n | inr n ↦ n ]

  merged_float :
      (a b : Bounds F) (x : Value F)
      → Encloses (float a) x ⊎ Encloses (float b) x
      → Encloses (float (merge a b)) x
  merged_float a b (bool_value x) m = elim m [ inl n ↦ n | inr n ↦ n ]
  merged_float a b (int_value x) m = elim m [ inl n ↦ n | inr n ↦ n ]
  merged_float a b (float_value x) (inl m) = merge_left x a b m
  merged_float a b (float_value x) (inr m) = merge_right x a b m
  merged_float a b (string_value x) m = elim m [ inl n ↦ n | inr n ↦ n ]

  merged_string :
      (a b : Bounds String) (x : Value F)
      → Encloses (string a) x ⊎ Encloses (string b) x
      → Encloses (string (merge a b)) x
  merged_string a b (bool_value x) m = elim m [ inl n ↦ n | inr n ↦ n ]
  merged_string a b (int_value x) m = elim m [ inl n ↦ n | inr n ↦ n ]
  merged_string a b (float_value x) m = elim m [ inl n ↦ n | inr n ↦ n ]
  merged_string a b (string_value x) (inl m) = merge_left x a b m
  merged_string a b (string_value x) (inr m) = merge_right x a b m

  -- Statistics of two types are a panic, statistics of one type are merged into statistics of that
  -- type, which enclose what either of them encloses.
  pub update_lem :
      (this other : TypedStatistics F)
      → (kind this ≢ kind other → update this other ≡ none)
        × (kind this ≡ kind other
            → (s : TypedStatistics F) × (update this other ≡ some s)
              × (kind s ≡ kind this)
              × ((x : Value F) → Encloses this x ⊎ Encloses other x → Encloses s x))
  unfolding update
  update_lem (bool a) (bool b) =
      (λ ne. absurd (ne refl), λ e. (bool (merge a b), refl, refl, merged_bool a b))
  update_lem (bool a) (int b) = (λ ne. refl, λ e. absurd (omega (arith, e)))
  update_lem (bool a) (float b) = (λ ne. refl, λ e. absurd (omega (arith, e)))
  update_lem (bool a) (string b) = (λ ne. refl, λ e. absurd (omega (arith, e)))
  update_lem (int a) (bool b) = (λ ne. refl, λ e. absurd (omega (arith, e)))
  update_lem (int a) (int b) =
      (λ ne. absurd (ne refl), λ e. (int (merge a b), refl, refl, merged_int a b))
  update_lem (int a) (float b) = (λ ne. refl, λ e. absurd (omega (arith, e)))
  update_lem (int a) (string b) = (λ ne. refl, λ e. absurd (omega (arith, e)))
  update_lem (float a) (bool b) = (λ ne. refl, λ e. absurd (omega (arith, e)))
  update_lem (float a) (int b) = (λ ne. refl, λ e. absurd (omega (arith, e)))
  update_lem (float a) (float b) =
      (λ ne. absurd (ne refl), λ e. (float (merge a b), refl, refl, merged_float a b))
  update_lem (float a) (string b) = (λ ne. refl, λ e. absurd (omega (arith, e)))
  update_lem (string a) (bool b) = (λ ne. refl, λ e. absurd (omega (arith, e)))
  update_lem (string a) (int b) = (λ ne. refl, λ e. absurd (omega (arith, e)))
  update_lem (string a) (float b) = (λ ne. refl, λ e. absurd (omega (arith, e)))
  update_lem (string a) (string b) =
      (λ ne. absurd (ne refl), λ e. (string (merge a b), refl, refl, merged_string a b))
