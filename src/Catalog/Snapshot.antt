-- ===== src/Catalog/Snapshot.antt =====
-- catalog/snapshot.rs, with `PartialTimeFilter` of query/stream_schema_provider.rs: which manifests
-- of a snapshot a query reads. A time is a number of nanoseconds on one scale, also without a zone.
use parseable.Prelude.{
  ℕ, ◌≤◌, ◌<◌, ◌≡◌, refl, Bool, true, ◌&&◌, List, [], ◌∷◌, String, leb, ltb, In, here, there,
  retain, retain-In, arith,
}

pub data Bound : Type 0 where
  included excluded : ℕ → Bound
  unbounded : Bound

pub data PartialTimeFilter : Type 0 where
  low high : Bound → PartialTimeFilter
  eq : ℕ → PartialTimeFilter

pub record ManifestItem : Type 0 where
  pub manifest_path : String
  pub time_lower_bound : ℕ
  pub time_upper_bound : ℕ
  pub events_ingested : ℕ
  pub ingestion_size : ℕ
  pub storage_size : ℕ

pub record Snapshot : Type 0 where
  pub version : String
  pub manifest_list : List ManifestItem

-- The test of `retain` for one predicate.
unfoldable pub keeps : PartialTimeFilter → ManifestItem → Bool
keeps (low (included time)) item = leb time item.time_upper_bound
keeps (low (excluded time)) item = ltb time item.time_upper_bound
keeps (high (included time)) item = leb item.time_lower_bound time
keeps (high (excluded time)) item = ltb item.time_lower_bound time
keeps (eq time) item = leb item.time_lower_bound time && leb time item.time_upper_bound
keeps (low unbounded) item = true
keeps (high unbounded) item = true

-- The loop of `manifests` over the predicates.
unfoldable pub retain_all : List PartialTimeFilter → List ManifestItem → List ManifestItem
unfolding keeps
retain_all [] items = items
retain_all (p ∷ ps) items = retain_all ps (retain (keeps p) items)

unfoldable pub manifests : Snapshot → List PartialTimeFilter → List ManifestItem
unfolding retain_all
manifests s predicates = retain_all predicates s.manifest_list

-- An instant that a filter lets through.
abbrev pub Passes : ℕ → PartialTimeFilter → Type 0
Passes t (low (included time)) = time ≤ t
Passes t (low (excluded time)) = time < t
Passes t (high (included time)) = t ≤ time
Passes t (high (excluded time)) = t < time
Passes t (eq time) = t ≡ time
Passes t (low unbounded) = Unit
Passes t (high unbounded) = Unit

abbrev pub PassesAll : ℕ → List PartialTimeFilter → Type 0
PassesAll t ps = (p : PartialTimeFilter) → In p ps → Passes t p

-- An instant within the bounds of a manifest.
abbrev pub IsBetween : ℕ → ManifestItem → Type 0
IsBetween t item = (item.time_lower_bound ≤ t) × (t ≤ item.time_upper_bound)

keeps_of_Passes :
    (p : PartialTimeFilter) (item : ManifestItem) (t : ℕ)
    → IsBetween t item
    → Passes t p
    → keeps p item ≡ true
unfolding keeps
keeps_of_Passes (low (included time)) item t b h = ground arith
keeps_of_Passes (low (excluded time)) item t b h = ground arith
keeps_of_Passes (high (included time)) item t b h = ground arith
keeps_of_Passes (high (excluded time)) item t b h = ground arith
keeps_of_Passes (eq time) item t b h = ground arith
keeps_of_Passes (low unbounded) item t b h = refl
keeps_of_Passes (high unbounded) item t b h = refl

retain_all-In :
    (ps : List PartialTimeFilter) (items : List ManifestItem) (item : ManifestItem) (t : ℕ)
    → In item items
    → IsBetween t item
    → PassesAll t ps
    → In item (retain_all ps items)
unfolding retain_all
retain_all-In [] items item t m b h = m
retain_all-In (p ∷ ps) items item t m b h =
    retain_all-In ps (retain (keeps p) items) item t
      (retain-In (keeps p) items item m (keeps_of_Passes p item t b (h p (here refl)))) b
      (λ q i. h q (there i))

-- No manifest is skipped that covers an instant which passes all the predicates.
manifests_complete :
    (s : Snapshot) (predicates : List PartialTimeFilter) (item : ManifestItem) (t : ℕ)
    → In item s.manifest_list
    → IsBetween t item
    → PassesAll t predicates
    → In item (manifests s predicates)
unfolding manifests
manifests_complete s predicates item t m b h = retain_all-In predicates s.manifest_list item t m b h
