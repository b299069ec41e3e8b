-- ===== src/Retention/Dates.antt =====
-- storage/retention.rs, `delete`: the dates that the filter leaves are those before the day.
use parseable.Prelude.{
  string_eq, ℕ, ◌<◌, ◌≡◌, refl, sym, ap, subst, ◌∙◌, inl, inr, Option, none, some, List, [], ◌∷◌,
  String, ltb, arith, In, here, there, Bool-cases,
}
use parseable.Order.{ℤ}
use parseable.Retention.{then_with, string_to_date, older}

pub then_with-eq-some {ℓ} :
    {A B : Type ℓ} (o : Option A) (k : A → Option B) (b : B)
    → then_with o k ≡ some b
    → (a : A) × (o ≡ some a) × (k a ≡ some b)
then_with-eq-some none k b h = cc h
then_with-eq-some (some a) k b h = (a, refl, h)

module _ (from_ymd_opt : ℤ → ℕ → ℕ → Option ℕ) where
  -- The date of a name lies before the day.
  abbrev pub IsBefore : ℕ → String → Type 0
  IsBefore day name = (d : ℕ) × (string_to_date from_ymd_opt name ≡ some d) × (d < day)

  -- What `filter` leaves is what lies before the day.
  pub older-In :
      (day : ℕ) (names l : List String) (name : String)
      → older from_ymd_opt day names ≡ some l
      → In name l
      → In name names × IsBefore day name
  unfolding older
  older-In day [] l name h m = let e : [] ≡ l = ground arith in elim (subst (In name) (sym e) m) [ ]
  older-In day (n ∷ names) l name h m =
      let (date, e, h1) = then_with-eq-some (string_to_date from_ymd_opt n) _ l h in
      let (rest, q, h2) = then_with-eq-some (older from_ymd_opt day names) _ l h1 in
      let found : In name l
          → In name names × IsBefore day name
          → In name (n ∷ names) × IsBefore day name =
        λ i (j, b). (there j, b) in
      elim (Bool-cases (ltb date day)) [
        | inl before ↦
            let same : l ≡ n ∷ rest = ground arith in
            elim (subst (In name) same m) [
              | here i ↦ (here i, (date, ap (string_to_date from_ymd_opt) i ∙ e, ground arith))
              | there i ↦ found m (older-In day names rest name q i)
            ]
        | inr not_before ↦
            let same : l ≡ rest = ground arith in
            found m (older-In day names rest name q (subst (In name) same m))
      ]

  pub In-older :
      (day : ℕ) (names l : List String) (name : String)
      → older from_ymd_opt day names ≡ some l
      → In name names
      → IsBefore day name
      → In name l
  unfolding older
  In-older day [] l name h m b = elim m [ ]
  In-older day (n ∷ names) l name h m (d, de, lt) =
      let (date, e, h1) = then_with-eq-some (string_to_date from_ymd_opt n) _ l h in
      let (rest, q, h2) = then_with-eq-some (older from_ymd_opt day names) _ l h1 in
      elim (Bool-cases (ltb date day)) [
        | inl before ↦
            let same : l ≡ n ∷ rest = ground arith in
            subst (In name) (sym same) (elim m [
              | here i ↦ here i
              | there i ↦ there (In-older day names rest name q i (d, de, lt))
            ])
        | inr not_before ↦
            let same : l ≡ rest = ground arith in
            subst (In name) (sym same) (elim m [
              | here i ↦
                  let one : some date ≡ some d =
                    sym e ∙ ap (string_to_date from_ymd_opt) (sym i) ∙ de in
                  absurd (ground arith)
              | there i ↦ In-older day names rest name q i (d, de, lt)
            ])
      ]
