-- ===== src/Json/Partitions.antt =====
-- utils/json/flatten.rs: what an event that passes the validations is like.
use parseable.Prelude.{
  some-injective, ◌≡◌, ◌↔◌, inl, inr, refl, sym, subst, ◌∙◌, true, false, false≢true, Option, none,
  some, List, [], ◌∷◌, String, string_eq, In, here, there, Bool-cases, Option-cases,
}
use parseable.Json.{Json, null, bool, number, string, array, object, Members}
use parseable.Json.Validation.{
  check_field, check_fields, field_of, partition_fields, contains_period, is_empty,
  validate_custom_partition,
}

-- A Boolean, an integer, or a text that is not empty and has no period.
abbrev pub IsPartitionValue : Json → Type 0
IsPartitionValue (bool b) = Unit
IsPartitionValue (number is_f64 n) = is_f64 ≡ false
IsPartitionValue (string s) = (is_empty s ≡ false) × (contains_period s ≡ false)
IsPartitionValue _ = ⊥

abbrev pub HasPartitionValue : Members → String → Type 0
HasPartitionValue value field = (v : Json) × (field_of value field ≡ some v) × IsPartitionValue v

check_field_iff :
    (field : String) (o : Option Json)
    → (check_field field o ≡ none) ↔ ((v : Json) × (o ≡ some v) × IsPartitionValue v)
unfolding check_field
check_field_iff field none = (λ e. absurd cc, λ (v, e, p). absurd cc)
check_field_iff field (some null) =
    (λ e. absurd cc, λ (v, e, p). absurd (subst IsPartitionValue (some-injective _ _ (sym e)) p))
check_field_iff field (some (bool b)) = (λ e. (bool b, refl, tt), λ h. refl)
check_field_iff field (some (number true n)) = (
  λ e. absurd cc,
  λ (v, e, p). absurd (false≢true (sym (subst IsPartitionValue (some-injective _ _ (sym e)) p))),
)
check_field_iff field (some (number false n)) = (λ e. (number false n, refl, refl), λ h. refl)
check_field_iff field (some (string s)) = elim (Bool-cases (is_empty s)) [
  | inl blank ↦ rw blank (
    λ e. absurd cc,
    λ (v, e, p).
        absurd (false≢true (sym (subst IsPartitionValue (some-injective _ _ (sym e)) p).0 ∙ blank)),
  )
  | inr filled ↦ elim (Bool-cases (contains_period s)) [
    | inl period ↦
        rw (filled, period)
          (
            λ e. absurd cc,
            λ (v, e, p). absurd (
                false≢true
                  (sym (subst IsPartitionValue (some-injective _ _ (sym e)) p).1 ∙ period)),
          )
    | inr plain ↦ rw (filled, plain) (λ e. (string s, refl, (filled, plain)), λ h. refl)
  ]
]
check_field_iff field (some (array vs)) =
    (λ e. absurd cc, λ (v, e, p). absurd (subst IsPartitionValue (some-injective _ _ (sym e)) p))
check_field_iff field (some (object ms)) =
    (λ e. absurd cc, λ (v, e, p). absurd (subst IsPartitionValue (some-injective _ _ (sym e)) p))

check_fields_iff :
    (value : Members) (fields : List String)
    → (check_fields value fields ≡ none)
      ↔ ((field : String) → In field fields → HasPartitionValue value field)
unfolding check_fields
check_fields_iff value [] = (λ e field m. elim m [ ], λ h. refl)
check_fields_iff value (field ∷ fields) =
    elim (Option-cases (check_field field (field_of value field))) [
      | inl fine ↦ rw fine (
        λ e f m. elim m [
          | here eq ↦
              subst (HasPartitionValue value) (sym eq)
                ((check_field_iff field (field_of value field)).0 fine)
          | there i ↦ (check_fields_iff value fields).0 e f i
        ],
        λ h. (check_fields_iff value fields).1 (λ f i. h f (there i)),
      )
      | inr (e, wrong) ↦ rw wrong (
        λ f. absurd cc,
        λ h.
            let fine = (check_field_iff field (field_of value field)).1 (h field (here refl)) in
            absurd cc,
      )
    ]

-- `validate_custom_partition` accepts an event exactly if each field of the partition, trimmed, is a
-- field of the event whose value is a Boolean, an integer, or a text that is not empty and has no
-- period.
pub validate_custom_partition_iff :
    (value : Members) (custom_partition : String)
    → (validate_custom_partition value (some custom_partition) ≡ none) ↔ (
        (field : String)
        → In field (partition_fields custom_partition)
        → HasPartitionValue value field)
unfolding validate_custom_partition
validate_custom_partition_iff value custom_partition =
    check_fields_iff value (partition_fields custom_partition)
