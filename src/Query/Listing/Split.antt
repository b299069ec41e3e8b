-- ===== src/Query/Listing/Split.antt =====
-- query/stream_schema_provider.rs: the two parts of a query over data without manifests.
use parseable.Prelude.{
  ℕ, ◌+◌, ◌*◌, ◌≤◌, ◌<◌, ◌≡◌, refl, sym, ap, subst, ◌∙◌, ◌↔◌, inl, inr, Bool, true, false,
  false≢true, some, List, [], ◌∷◌, map, leb, ltb, if◌then◌else◌, In, here, there, arith, Bool-cases,
  any, any-In, In-any, concat_map, In-concat_map,
}
use parseable.Time.{minute_ns}
use parseable.Catalog.Snapshot.{
  Bound, included, excluded, unbounded, PartialTimeFilter, low, high, eq, ManifestItem, Passes,
  PassesAll,
}
use parseable.Query.Listing.{
  first_entry_lower_bound, some_filters, listing_filter, upper_filter, return_listing_time_filters,
  five_minutes_back, is_recent, is_high, is_within_staging_window,
}

abbrev pub IsBounded : Bound → Type 0
IsBounded (included time) = Unit
IsBounded (excluded time) = Unit
IsBounded unbounded = ⊥

listing_filter-Passes :
    (first t : ℕ) (p : PartialTimeFilter)
    → t < first
    → Passes t p
    → Passes t (listing_filter first p)
unfolding listing_filter
listing_filter-Passes first t (high (included u)) lt h = elim (Bool-cases (ltb u first)) [
  | inl e ↦ rw e h
  | inr e ↦ rw e lt
]
listing_filter-Passes first t (high (excluded u)) lt h = elim (Bool-cases (ltb u first)) [
  | inl e ↦ rw e h
  | inr e ↦ rw e lt
]
listing_filter-Passes first t (high unbounded) lt h = h
listing_filter-Passes first t (low b) lt h = h
listing_filter-Passes first t (eq time) lt h = h

Passes-listing_filter :
    (first t : ℕ) (p : PartialTimeFilter) → Passes t (listing_filter first p) → Passes t p
unfolding listing_filter
Passes-listing_filter first t (high (included u)) h = elim (Bool-cases (ltb u first)) [
  | inl e ↦ subst (λ b. Passes t (if b then high (included u) else high (excluded first))) e h
  | inr e ↦
      let lt : t < first =
        subst (λ b. Passes t (if b then high (included u) else high (excluded first))) e h in
      ground arith
]
Passes-listing_filter first t (high (excluded u)) h = elim (Bool-cases (ltb u first)) [
  | inl e ↦ subst (λ b. Passes t (if b then high (excluded u) else high (excluded first))) e h
  | inr e ↦
      let lt : t < first =
        subst (λ b. Passes t (if b then high (excluded u) else high (excluded first))) e h in
      ground arith
]
Passes-listing_filter first t (high unbounded) h = h
Passes-listing_filter first t (low b) h = h
Passes-listing_filter first t (eq time) h = h

-- The listing of a bounded upper filter ends before the manifests begin.
listing_filter_ends :
    (first t : ℕ) (b : Bound) → IsBounded b → Passes t (listing_filter first (high b)) → t < first
unfolding listing_filter
listing_filter_ends first t (included u) _ h = elim (Bool-cases (ltb u first)) [
  | inl e ↦
      let le : t ≤ u =
        subst (λ b. Passes t (if b then high (included u) else high (excluded first))) e h in
      ground arith
  | inr e ↦ subst (λ b. Passes t (if b then high (included u) else high (excluded first))) e h
]
listing_filter_ends first t (excluded u) _ h = elim (Bool-cases (ltb u first)) [
  | inl e ↦
      let lt : t < u =
        subst (λ b. Passes t (if b then high (excluded u) else high (excluded first))) e h in
      ground arith
  | inr e ↦ subst (λ b. Passes t (if b then high (excluded u) else high (excluded first))) e h
]
listing_filter_ends first t unbounded b h = absurd b

In-upper_filter : (p q : PartialTimeFilter) → In q (upper_filter p) → q ≡ p
unfolding upper_filter
In-upper_filter (high (included u)) q (here e) = e
In-upper_filter (high (included u)) q (there m) = elim m [ ]
In-upper_filter (high (excluded u)) q (here e) = e
In-upper_filter (high (excluded u)) q (there m) = elim m [ ]
In-upper_filter (high unbounded) q m = elim m [ ]
In-upper_filter (low b) q m = elim m [ ]
In-upper_filter (eq time) q m = elim m [ ]

module _ (first t : ℕ) where
  PassesAll-map :
      (ps : List PartialTimeFilter)
      → ((p : PartialTimeFilter) → In p ps → Passes t (listing_filter first p))
      → PassesAll t (map (listing_filter first) ps)
  PassesAll-map [] h q m = elim m [ ]
  PassesAll-map (p ∷ ps) h q (here e) = subst (Passes t) (sym e) (h p (here refl))
  PassesAll-map (p ∷ ps) h q (there m) = PassesAll-map ps (λ r i. h r (there i)) q m

  map-PassesAll :
      (ps : List PartialTimeFilter)
      → PassesAll t (map (listing_filter first) ps)
      → (p : PartialTimeFilter) → In p ps
      → Passes t (listing_filter first p)
  map-PassesAll [] h p m = elim m [ ]
  map-PassesAll (q ∷ ps) h p (here e) =
      subst (λ r. Passes t (listing_filter first r)) (sym e) (h _ (here refl))
  map-PassesAll (q ∷ ps) h p (there m) = map-PassesAll ps (λ r i. h r (there i)) p m

  listing_iff :
      (ps : List PartialTimeFilter) (b : Bound)
      → IsBounded b
      → In (high b) ps
      → PassesAll t (map (listing_filter first) ps) ↔ PassesAll t ps × (t < first)
  listing_iff ps b bounded m = (
    λ h.
        let each = map-PassesAll ps h in
        (
          λ p i. Passes-listing_filter first t p (each p i),
          listing_filter_ends first t b bounded (each (high b) m),
        ),
    λ (h, lt). PassesAll-map ps (λ p i. listing_filter-Passes first t p lt (h p i)),
  )

  upper_PassesAll :
      (ps : List PartialTimeFilter)
      → PassesAll t ps
      → first ≤ t
      → PassesAll t (low (included first) ∷ concat_map upper_filter ps)
  upper_PassesAll ps h le q (here e) = subst (Passes t) (sym e) le
  upper_PassesAll ps h le q (there m) =
      let (p, i, j) = In-concat_map upper_filter ps q m in
      subst (Passes t) (sym (In-upper_filter p q j)) (h p i)

some_filters-In :
    (ps : List PartialTimeFilter) (p : PartialTimeFilter) → In p ps → some_filters ps ≡ some ps
some_filters-In [] p m = elim m [ ]
some_filters-In (q ∷ ps) p m = refl

In-map_listing :
    (first : ℕ) (ps : List PartialTimeFilter) (p : PartialTimeFilter)
    → In p ps
    → In (listing_filter first p) (map (listing_filter first) ps)
In-map_listing first [] p m = elim m [ ]
In-map_listing first (q ∷ ps) p (here e) = here (ap (listing_filter first) e)
In-map_listing first (q ∷ ps) p (there m) = there (In-map_listing first ps p m)

-- Where there are manifests, the first of which begins at `first`, and a filter bounds the query
-- above: the listing filters let through exactly what the filters let through before `first`, and
-- the filters left for the manifests let through all of the rest and nothing before `first`.
pub return_listing_time_filters_splits :
    (items : List ManifestItem) (filters : List PartialTimeFilter) (first : ℕ) (b : Bound)
    → first_entry_lower_bound items ≡ some first
    → IsBounded b
    → In (high b) filters
    → (listing : List PartialTimeFilter) × ((return_listing_time_filters items filters).listing
        ≡ some listing)
      × ((t : ℕ)
          → (PassesAll t listing ↔ PassesAll t filters × (t < first))
            × (PassesAll t filters
                → first ≤ t
                → PassesAll t (return_listing_time_filters items filters).time_filters)
            × (PassesAll t (return_listing_time_filters items filters).time_filters → first ≤ t))
unfolding return_listing_time_filters
return_listing_time_filters_splits items filters first b e bounded m = rw e (
  map (listing_filter first) filters,
  some_filters-In _ _ (In-map_listing first filters (high b) m),
  λ t. (
    listing_iff first t filters b bounded m,
    upper_PassesAll first t filters,
    λ h. h (low (included first)) (here refl),
  ),
)

any-false-In {ℓ} :
    {A : Type ℓ} (f : A → Bool) (xs : List A) (a : A) → In a xs → any f xs ≡ false → f a ≡ false
any-false-In f xs a m none_holds = elim (Bool-cases (f a)) [
  | inl e ↦ absurd (false≢true (sym none_holds ∙ In-any f xs a m e))
  | inr e ↦ e
]

leb-false : {a b : ℕ} → leb a b ≡ false → b < a
leb-false e = ground arith

not_recent :
    (now t : ℕ) (b : Bound)
    → IsBounded b
    → Passes t (high b)
    → is_recent now (high b) ≡ false
    → t < five_minutes_back now
not_recent now t (included u) bounded h e =
    let lt : u < five_minutes_back now = leb-false e in omega arith
not_recent now t (excluded u) bounded h e =
    let lt : u < five_minutes_back now = leb-false e in omega arith
not_recent now t unbounded bounded h e = absurd bounded

IsHigh-bound : (p : PartialTimeFilter) → is_high p ≡ true → (b : Bound) × (p ≡ high b)
IsHigh-bound (high b) e = (b, refl)
IsHigh-bound (low b) e = absurd (false≢true e)
IsHigh-bound (eq time) e = absurd (false≢true e)

-- A query that lets an event of the last five minutes through looks at the staging area, if none
-- of its upper filters is unbounded.
is_within_staging_window_complete :
    (now t : ℕ) (filters : List PartialTimeFilter)
    → ((b : Bound) → In (high b) filters → IsBounded b)
    → PassesAll t filters
    → now ≤ t + 5 * minute_ns
    → is_within_staging_window now filters ≡ true
unfolding is_within_staging_window
is_within_staging_window_complete now t filters bounded h recent =
    elim (Bool-cases (any (is_recent now) filters)) [
      | inl e ↦ rw e refl
      | inr e ↦ elim (Bool-cases (any is_high filters)) [
        | inl has_upper_bound ↦
            let (p, m, is_high_p) = any-In is_high filters has_upper_bound in
            let (b, same) = IsHigh-bound p is_high_p in
            let m_b : In (high b) filters = subst (λ q. In q filters) same m in
            let lt =
              not_recent now t b (bounded b m_b) (h (high b) m_b)
                (any-false-In (is_recent now) filters (high b) m_b e) in
            absurd (omega arith)
        | inr no_upper_bound ↦ rw (e, no_upper_bound) refl
      ]
    ]
