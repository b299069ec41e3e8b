-- ===== src/Json/Reference.antt =====
-- utils/json/flatten.rs: the reference timestamp that the validations share.
use parseable.Prelude.{
  ℕ, ◌+◌, ◌-◌, ◌*◌, ◌≤◌, ◌≡◌, ◌⊎◌, inl, inr, refl, subst, Bool, true, false, Option, none, some,
  String, leb, leb→le, if◌then◌else◌, string_eq, arith, Option-cases,
}
use parseable.Time.{day_ns, hour_ns}
use parseable.Json.{Json, null, bool, number, string, array, object, Jsons, empty, item, Members}
use parseable.Json.Validation.{
  JsonFlattenError, field_of, Settings, check_reference, check_parsed, check_timestamp,
  validate_time_partition, validate_custom_partition, validate, first_error, limit_days,
  timestamp_too_old, timestamp_too_old_relative, unless, item_result, array_result, and_then,
  flatten, flatten_all, Result, ok, err, Checked,
}

if-cases :
    (b : Bool) (x y : Checked) (P : Checked → Type 0)
    → P (if b then x else y)
    → ((b ≡ true) × P x) ⊎ ((b ≡ false) × P y)
if-cases true x y P p = inl (refl, p)
if-cases false x y P p = inr (refl, p)

first_error-none : (e f : Option JsonFlattenError) → first_error e f ≡ none → e ≡ none
first_error-none none f h = refl
first_error-none (some e) f h = h

unless-ok :
    (e : Option JsonFlattenError) (r : Result Json) (w : Json) → unless e r ≡ ok w → e ≡ none
unless-ok none r w h = refl
unless-ok (some e) r w h = absurd cc

array_result-ok : (r : Result Jsons) (w : Json) → array_result r ≡ ok w → (ws : Jsons) × (r ≡ ok ws)
array_result-ok (ok ws) w h = (ws, refl)
array_result-ok (err e) w h = absurd cc

item_result-ok :
    (v : Json) (r : Result Jsons) (ws : Jsons)
    → item_result v r ≡ ok ws
    → (us : Jsons) × (r ≡ ok us)
item_result-ok v (ok us) ws h = (us, refl)
item_result-ok v (err e) ws h = absurd cc

-- An element and the elements after it have no error, and the reference timestamp goes on.
and_then-ok :
    (p : Option ℕ × Result Json) (next : Option ℕ → Option ℕ × Result Jsons) (ws : Jsons)
    → (and_then p next).1 ≡ ok ws
    → ((w : Json) × (p.1 ≡ ok w))
      × ((us : Jsons) × ((next p.0).1 ≡ ok us))
      × ((and_then p next).0 ≡ (next p.0).0)
and_then-ok (reference, ok w) next ws h =
    ((w, refl), item_result-ok w (next reference).1 ws h, refl)
and_then-ok (reference, err e) next ws h = absurd cc

module _ (s : Settings) (key : String) where
  -- An event whose timestamp is at most `max_age_hours` before the reference.
  abbrev pub IsTimelyEvent : ℕ → Members → Type 0
  IsTimelyEvent reference ms =
      (text : String) × (field_of ms key ≡ some (string text))
      × (timestamp : ℕ) × (s.parse text ≡ some timestamp)
      × (reference ≤ timestamp + s.max_age_hours * hour_ns)

  -- Every event of a value is timely.
  abbrev mutual
    pub IsTimely : ℕ → Json → Type 0
    IsTimely reference (object ms) = IsTimelyEvent reference ms
    IsTimely reference (array vs) = AreTimely reference vs
    IsTimely reference _ = ⊥

    pub AreTimely : ℕ → Jsons → Type 0
    AreTimely reference empty = Unit
    AreTimely reference (item v vs) = IsTimely reference v × AreTimely reference vs

  -- A reference timestamp that is not set, or is a given one.
  abbrev pub Fits : Option ℕ → ℕ → Type 0
  Fits none r = Unit
  Fits (some q) r = q ≡ r

  module _ (r : ℕ) where
    -- No error, and a reference timestamp that is not set or is `r`.
    abbrev Passes : Checked → Type 0
    Passes c = (c.1 ≡ none) × Fits c.0 r

    check_reference_lem :
        (reference : Option ℕ) (timestamp : ℕ)
        → (check_reference s key reference timestamp).1 ≡ none
        → Fits (check_reference s key reference timestamp).0 r
        → Fits reference r × (r ≤ timestamp + s.max_age_hours * hour_ns)
    unfolding check_reference
    check_reference_lem none t e f =
        elim (if-cases (leb (s.now - limit_days s.time_partition_limit * day_ns) t) (some t, none)
          (none, some (timestamp_too_old key (limit_days s.time_partition_limit) t)) Passes
          (e, f)) [ inl (h, (e1, f1)) ↦ (tt, omega (arith, f1)) | inr (h, (e1, f1)) ↦ absurd cc ]
    check_reference_lem (some q) t e f =
        elim (if-cases (leb (q - s.max_age_hours * hour_ns) t) (some q, none)
          (some q, some (timestamp_too_old_relative key s.max_age_hours t q)) Passes (e, f)) [
            | inl (h, (e1, f1)) ↦
                (f1, omega (arith, f1, leb→le (q - s.max_age_hours * hour_ns) t h))
            | inr (h, (e1, f1)) ↦ absurd cc
          ]

    check_timestamp_lem :
        (reference : Option ℕ) (o : Option Json)
        → (check_timestamp s key reference o).1 ≡ none
        → Fits (check_timestamp s key reference o).0 r
        → Fits reference r
          × (text : String) × (o ≡ some (string text))
          × (timestamp : ℕ) × (s.parse text ≡ some timestamp)
          × (r ≤ timestamp + s.max_age_hours * hour_ns)
    check_timestamp_lem reference none e f = absurd cc
    check_timestamp_lem reference (some null) e f = absurd cc
    check_timestamp_lem reference (some (bool b)) e f = absurd cc
    check_timestamp_lem reference (some (number b n)) e f = absurd cc
    check_timestamp_lem reference (some (array vs)) e f = absurd cc
    check_timestamp_lem reference (some (object ms)) e f = absurd cc
    check_timestamp_lem reference (some (string text)) e f = elim (Option-cases (s.parse text)) [
      | inl failed ↦
          let no_error = subst (λ o. (check_parsed s key reference o).1 ≡ none) failed e in
          absurd cc
      | inr (t, parsed) ↦
          let (fits, le) =
            check_reference_lem reference t
              (subst (λ o. (check_parsed s key reference o).1 ≡ none) parsed e)
              (subst (λ o. Fits (check_parsed s key reference o).0 r) parsed f) in
          (fits, text, refl, t, parsed, le)
    ]

    module _ (required : s.validation_required ≡ true)
        (partitioned : s.time_partition ≡ some key) where
      validate_in_time :
          (reference : Option ℕ) (ms : Members)
          → (validate s reference ms).1 ≡ none
          → Fits (validate s reference ms).0 r
          → Fits reference r × IsTimelyEvent r ms
      unfolding validate validate_time_partition
      validate_in_time reference ms e f =
          let both : validate s reference ms ≡ (
            (check_timestamp s key reference (field_of ms key)).0,
            first_error (check_timestamp s key reference (field_of ms key)).1
                (validate_custom_partition ms s.custom_partition),
          ) =
            rw (required, partitioned) refl in
          let (fits, text, has, timestamp, parsed, le) =
            check_timestamp_lem reference (field_of ms key)
              (first_error-none _ (validate_custom_partition ms s.custom_partition)
                (subst (λ c. c.1 ≡ none) both e))
              (subst (λ c. Fits c.0 r) both f) in
          (fits, (text, has, timestamp, parsed, le))

      mutual
        unfolding flatten

        flatten_in_time :
            (v : Json) (reference : Option ℕ) (w : Json)
            → (flatten s reference v).1 ≡ ok w
            → Fits (flatten s reference v).0 r
            → Fits reference r × IsTimely r v
        flatten_in_time null reference w e f = absurd cc
        flatten_in_time (bool b) reference w e f = absurd cc
        flatten_in_time (number b n) reference w e f = absurd cc
        flatten_in_time (string t) reference w e f = absurd cc
        flatten_in_time (object ms) reference w e f =
            validate_in_time reference ms (unless-ok (validate s reference ms).1 _ w e) f
        flatten_in_time (array vs) reference w e f =
            let (ws, g) = array_result-ok (flatten_all s reference vs).1 w e in
            flatten_all_in_time vs reference ws g f

        flatten_all_in_time :
            (vs : Jsons) (reference : Option ℕ) (ws : Jsons)
            → (flatten_all s reference vs).1 ≡ ok ws
            → Fits (flatten_all s reference vs).0 r
            → Fits reference r × AreTimely r vs
        flatten_all_in_time empty reference ws e f = (f, tt)
        flatten_all_in_time (item v vs) reference ws e f =
            let (first, rest, same) =
              and_then-ok (flatten s reference v) (λ next. flatten_all s next vs) ws e in
            let (middle, timely_rest) =
              flatten_all_in_time vs (flatten s reference v).0 rest.0 rest.1
                (subst (λ o. Fits o r) same f) in
            let (start, timely) = flatten_in_time v reference first.0 first.1 middle in
            (start, (timely, timely_rest))

-- Where validation is required and the stream has a time partition: a value that flattens leaves
-- the reference timestamp as it was, if it was set, and has no event whose timestamp is missing,
-- does not parse, or lies more than `max_age_hours` before the reference timestamp afterwards.
pub flatten-IsTimely :
    (s : Settings) (key : String) (reference : Option ℕ) (v w : Json)
    → s.validation_required ≡ true
    → s.time_partition ≡ some key
    → (flatten s reference v).1 ≡ ok w
    → (r : ℕ) → Fits s key (flatten s reference v).0 r
    → Fits s key reference r × IsTimely s key r v
flatten-IsTimely s key reference v w required partitioned e r f =
    flatten_in_time s key r required partitioned v reference w e f
